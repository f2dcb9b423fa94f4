-- ===== src/Examples/Runs.antt =====
-- The theorems on whole runs of the program, at concrete files.
use projet_prog.Common.{ℕ, zero, suc, ◌≡◌, ◌≢◌, refl, List, [], ◌∷◌, ◌++◌, none, some, arith}
use projet_prog.Common.Words.{le_value, bswap_16, bswap_32, get16, get32}
use projet_prog.Stdio.{Stream, Dest, ok, at, split, fread, fread_or_exit, fseek}
use projet_prog.Elf.{Ehdr, Shdr, uninit, ElfMain}
use projet_prog.Header.{
  is_magic, load_byte, load_half, load_word, load_addr, load_ident_rest, load_ident, load_fields,
  load_header,
}
use projet_prog.Sections.{shdr_of_words, load_words, load_shdrs, load_tab_section_header}
use projet_prog.Symbols.{find_symtab, load_table, load_sym_table}
use projet_prog.Relocs.{load_tables, load_reloc_table}
use projet_prog.Contents.{load_content, load_contents, load_section_content}
use projet_prog.Writer.{TempTab}
use projet_prog.Runner.{load_main, show_header, main}
use projet_prog.Runner.Shown.{IsShow}
use projet_prog.Runner.Freed.{main_empty_section}

abbrev pub header : Ehdr
header = record {
  e_ident = record {
    mag0 = 127;
    mag1 = b'E';
    mag2 = b'L';
    mag3 = b'F';
    class = 1;
    encoding = 2;
    version = 1;
    osabi = 0;
    abiversion = 0;
    pad0 = 0;
    pad1 = 0;
    pad2 = 0;
    pad3 = 0;
    pad4 = 0;
    pad5 = 0;
    pad6 = 0;
  };
  e_type = 1;
  e_machine = 40;
  e_version = 1;
  e_entry = 0;
  e_phoff = 0;
  e_shoff = 52;
  e_flags = 0;
  e_ehsize = 52;
  e_phentsize = 0;
  e_phnum = 0;
  e_shentsize = 40;
  e_shnum = 1;
  e_shstrndx = 0;
}

-- The byte 0, `n` times.
abbrev pub zeros : ℕ → List ℕ
zeros zero = []
zeros (suc n) = 0 ∷ zeros n

abbrev header_bytes : List ℕ
header_bytes =
    127 ∷ b'E' ∷ b'L' ∷ b'F' ∷ 1 ∷ 2 ∷ 1 ∷ 0 ∷ 0 ∷ 0 ∷ 0 ∷ 0 ∷ 0 ∷ 0 ∷ 0 ∷ 0 ∷ 0 ∷ 1 ∷ 0 ∷ 40 ∷ 0
    ∷ 0 ∷ 0 ∷ 1 ∷ 0 ∷ 0 ∷ 0 ∷ 0 ∷ 0 ∷ 0 ∷ 0 ∷ 0 ∷ 0 ∷ 0 ∷ 0 ∷ 52 ∷ 0 ∷ 0 ∷ 0 ∷ 0 ∷ 0 ∷ 52 ∷ 0 ∷ 0
    ∷ 0 ∷ 0 ∷ 0 ∷ 40 ∷ 0 ∷ 1 ∷ 0 ∷ 0 ∷ []

-- A file with one section, which is empty.
abbrev pub source : Stream
source = record { bytes = header_bytes ++ zeros 40; rest = header_bytes ++ zeros 40 }

abbrev empty_section : Shdr
empty_section = record {
  sh_name = 0;
  sh_type = 0;
  sh_flags = 0;
  sh_addr = 0;
  sh_offset = 0;
  sh_size = 0;
  sh_link = 0;
  sh_info = 0;
  sh_addralign = 0;
  sh_entsize = 0;
}

abbrev pub program : ElfMain
program = record {
  header = header;
  sect_header = some (empty_section ∷ []);
  sym_table = none;
  rel_table = none;
  section_content = record { section = uninit; size = 0 } ∷ [];
  tab_sec_rel = record { tab_nb = []; nb_sections = 0 };
  nb_symboles = none;
}

pub loads : load_main source ≡ ok (program, at source (zeros 40))
unfolding load_main load_header load_ident load_ident_rest load_fields load_byte load_half load_word
    load_addr is_magic fread_or_exit fread fseek split get16 get32 le_value bswap_16 bswap_32
    load_tab_section_header load_shdrs load_words shdr_of_words load_sym_table find_symtab
    load_table load_reloc_table load_tables load_section_content load_contents load_content
loads = refl

abbrev pub same_order : List TempTab → List TempTab
same_order l = l

abbrev pub old : Dest
old = record { before = 1 ∷ []; behind = 2 ∷ [] }

main_empty_section_example : main same_order (show_header ∷ []) source none ≢ ok ([], none)
unfolding IsShow
main_empty_section_example =
    main_empty_section same_order (show_header ∷ []) source none 0 empty_section (tt, tt) loads
      (omega arith) refl refl ([], none)

abbrev pub saved : Dest
saved = record { before = header_bytes ++ zeros 40; behind = [] }
