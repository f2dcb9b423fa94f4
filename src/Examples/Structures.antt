-- ===== src/Examples/Structures.antt =====
-- The theorems on the operations of the program, at concrete structures.
use mathlib.Core.Option.{some-injective}
use projet_prog.Common.{
  ℕ, zero, suc, ◌≡◌, refl, subst, List, [], ◌∷◌, some, arith, get_elem?, false, ◌==◌,
}
use projet_prog.Common.Words.{add32, sub32, sub16}
use projet_prog.Stdio.{Stream, ok, fault}
use projet_prog.Elf.{Ehdr, Shdr, Symbol, SectionContent, uninit, block, ElfMain, sht_rel}
use projet_prog.Sections.{array}
use projet_prog.Implantation.Delete.{
  delete_rel, delete_loop, delete_section, delete_content, copy_content, move_block, copy_down,
  shift_down, shift_contents, free_content, renumber, map_first, renumber_symbol, removed,
}
use projet_prog.Implantation.Delete.Shift.{IsLoaded, loaded, AreLoaded, Between}
use projet_prog.Implantation.Delete.Rows.{keep, rows, core}
use projet_prog.Implantation.Delete.Kept.{IsReady, all_rows}
use projet_prog.Implantation.Delete.Result.{delete_rel_table, delete_rel_symbols, delete_rel_names}
use projet_prog.Implantation.Move.{correct_sym_table}
use projet_prog.Implantation.Move.Sections.{AreMoved}
use projet_prog.Implantation.Move.Moved.{
  AreNamed, correct_sym_table-AreMoved, correct_sym_table_fault,
}
use projet_prog.Implantation.Patch.{
  sign_extend, sign_extend8, store_byte, patch, apply_rel, apply_rels, apply_tables,
  correct_abs_reloc,
}
use projet_prog.Implantation.Patch.Shape.{SameShape}
use projet_prog.Implantation.Patch.Kept.{correct_abs_reloc-SameShape, correct_abs_reloc_elsewhere}

abbrev header : ℕ → ℕ → Ehdr
header n names = record {
  e_ident = record {
    mag0 = 127;
    mag1 = b'E';
    mag2 = b'L';
    mag3 = b'F';
    class = 1;
    encoding = 2;
    version = 1;
    osabi = 0;
    abiversion = 0;
    pad0 = 0;
    pad1 = 0;
    pad2 = 0;
    pad3 = 0;
    pad4 = 0;
    pad5 = 0;
    pad6 = 0;
  };
  e_type = 1;
  e_machine = 40;
  e_version = 1;
  e_entry = 0;
  e_phoff = 0;
  e_shoff = 200;
  e_flags = 0;
  e_ehsize = 52;
  e_phentsize = 0;
  e_phnum = 0;
  e_shentsize = 40;
  e_shnum = n;
  e_shstrndx = names;
}

-- A section of this name, type and sh_info.
abbrev section : ℕ → ℕ → ℕ → Shdr
section name kind info = record {
  sh_name = name;
  sh_type = kind;
  sh_flags = 0;
  sh_addr = 0;
  sh_offset = 0;
  sh_size = 4;
  sh_link = 2;
  sh_info = info;
  sh_addralign = 4;
  sh_entsize = 0;
}

abbrev content : ℕ → SectionContent
content b = record { section = block (b ∷ 2 ∷ 3 ∷ 4 ∷ []); size = 4 }

abbrev symbol : ℕ → Symbol
symbol i = record {
  st_name = 5;
  st_value = 8;
  st_size = 4;
  st_info = 18;
  st_other = 0;
  st_shndx = i;
}

-- .text, its relocations, and the names of the sections.
abbrev program : ElfMain
program = record {
  header = header 3 2;
  sect_header = some (section 1 1 0 ∷ section 0 9 0 ∷ section 0 3 0 ∷ []);
  sym_table = some (symbol 0 ∷ symbol 2 ∷ []);
  rel_table = some ((record { r_offset = 1; r_info = 8 } ∷ []) ∷ []);
  section_content = content 1 ∷ content 5 ∷ content 9 ∷ [];
  tab_sec_rel = record { tab_nb = 1 ∷ []; nb_sections = 1 };
  nb_symboles = some 2;
}

content-IsLoaded : (b : ℕ) → IsLoaded (content b)
content-IsLoaded b = loaded b (2 ∷ 3 ∷ 4 ∷ []) refl

-- The same with a first section that is empty, as the null section of a file is.
abbrev unread : ElfMain
unread = record program {
  section_content = record { section = uninit; size = 0 } ∷ content 5 ∷ content 9 ∷ [];
}

unread-IsReady : IsReady unread
unread-IsReady = record {
  first = 1;
  ready = record {
    sects = section 1 1 0 ∷ section 0 9 0 ∷ section 0 3 0 ∷ [];
    has_sects = refl;
    counted = refl;
    few = omega arith;
    enough_sects = omega arith;
    enough_contents = omega arith;
    read = read_at;
  };
  plain = plain_at;
}
  where
    read_at : AreLoaded 1 3 unread.section_content
    read_at zero x p q e = absurd (omega arith)
    read_at (suc zero) x p q e =
        subst IsLoaded (some-injective (content 5) x e) (content-IsLoaded 5)
    read_at (suc (suc zero)) x p q e =
        subst IsLoaded (some-injective (content 9) x e) (content-IsLoaded 9)
    read_at (suc (suc (suc k))) x p q e = absurd (omega arith)

    plain_at : Between (λ s. (s.sh_type == sht_rel) ≡ false) 0 1 (array unread.sect_header)
    plain_at zero x p q e =
        subst (λ s. (s.sh_type == sht_rel) ≡ false) (some-injective (section 1 1 0) x e) refl
    plain_at (suc k) x p q e = absurd (omega arith)

delete_rel_table_example :
    (e' : ElfMain) × (delete_rel unread ≡ ok e') × (all_rows e' ≡ keep (all_rows unread))
delete_rel_table_example = delete_rel_table unread unread-IsReady

-- The structure without the relocations; the last place of each array is no longer counted.
abbrev program_left : ElfMain
program_left = record program {
  header = record (header 2 1) { e_shoff = 196 };
  sect_header = some (section 1 1 0 ∷ section 0 3 0 ∷ section 0 3 0 ∷ []);
  sym_table = some (symbol 0 ∷ symbol 1 ∷ []);
  section_content =
      record { section = uninit; size = 0 }
      ∷ content 9
      ∷ record (content 9) { section = uninit }
      ∷ [];
}

deleted : delete_rel unread ≡ ok program_left
unfolding delete_rel delete_loop delete_section delete_content copy_content move_block copy_down
    shift_down shift_contents free_content renumber map_first renumber_symbol removed sub32 sub16
deleted = refl

names_at : get_elem? (all_rows unread) 2 ≡ some (record (section 0 3 0) { sh_link = 0 }, content 9)
unfolding rows core
names_at = refl

delete_rel_symbols_example :
    (t : Symbol) × (get_elem? (array program_left.sym_table) 1 ≡ some t)
    × (t ≡ record (symbol 2) { st_shndx = t.st_shndx })
    × (get_elem? (all_rows program_left) t.st_shndx
        ≡ some (record (section 0 3 0) { sh_link = 0 }, content 9))
delete_rel_symbols_example =
    delete_rel_symbols unread 1 (symbol 2) (record (section 0 3 0) { sh_link = 0 }, content 9)
      unread-IsReady deleted refl names_at refl

delete_rel_names_example :
    get_elem? (all_rows program_left) 1 ≡ some (record (section 0 3 0) { sh_link = 0 }, content 9)
delete_rel_names_example =
    delete_rel_names unread (record (section 0 3 0) { sh_link = 0 }, content 9) unread-IsReady
      deleted names_at refl

-- A file with the names of two sections at its start.
abbrev source : Stream
source = record { bytes = 0 ∷ b'.' ∷ b't' ∷ b'e' ∷ b'x' ∷ b't' ∷ 0 ∷ []; rest = [] }

abbrev sections : List Shdr
sections = section 1 1 0 ∷ section 0 9 0 ∷ section 0 3 0 ∷ []

are_named : AreNamed (section 0 3 0) sections
unfolding add32
are_named = (omega arith, (omega arith, (omega arith, tt)))

correct_sym_table-AreMoved_example :
    (f' : Stream) × (syms' : List Symbol) × (correct_sym_table program 0x8000 0 source
      ≡ ok (record program { sym_table = some syms' }, f'))
    × AreMoved source.bytes (section 0 3 0) sections 0x8000 0 (symbol 0 ∷ symbol 2 ∷ []) syms'
correct_sym_table-AreMoved_example =
    correct_sym_table-AreMoved program (section 0 3 0) sections (symbol 0 ∷ symbol 2 ∷ []) 0x8000 0
      source refl refl refl refl are_named (omega arith, (omega arith, tt))

-- The same program with an absolute symbol.
abbrev absolute : ElfMain
absolute = record program { sym_table = some (symbol 0 ∷ symbol 0xfff1 ∷ []) }

correct_sym_table_fault_example : correct_sym_table absolute 0x8000 0 source ≡ fault
correct_sym_table_fault_example =
    correct_sym_table_fault absolute (section 0 3 0) sections (symbol 0 ∷ symbol 0xfff1 ∷ []) 0x8000
      0 source 1 (symbol 0xfff1) refl refl refl refl are_named refl (omega arith)

-- The program with its relocation carried out: the byte at 1 is 8 + 1.
abbrev relocated : ElfMain
relocated = record program {
  section_content =
      record { section = block (1 ∷ 9 ∷ 3 ∷ 4 ∷ []); size = 4 } ∷ content 5 ∷ content 9 ∷ [];
}

patched : correct_abs_reloc program ≡ ok relocated
unfolding correct_abs_reloc apply_tables apply_rels apply_rel patch store_byte sign_extend8
    sign_extend add32
patched = refl

correct_abs_reloc-SameShape_example :
    (relocated ≡ record program { section_content = relocated.section_content })
    × SameShape program.section_content relocated.section_content
correct_abs_reloc-SameShape_example = correct_abs_reloc-SameShape program patched

correct_abs_reloc_elsewhere_example :
    get_elem? relocated.section_content 2 ≡ get_elem? program.section_content 2
correct_abs_reloc_elsewhere_example =
    correct_abs_reloc_elsewhere program 2 patched
      (λ e. omega arith, (λ e. omega arith, (λ e. omega arith, tt)))
