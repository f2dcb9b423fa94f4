-- ===== src/Examples/Saved.antt =====
-- The theorems on the whole file that is written and on the order of its sections, at a file of
-- four sections and at a table of two.
use projet_prog.Common.{
  length, ◌≤◌, map, ◌≢◌, ℕ, ◌<◌, ◌≡◌, inl, inr, refl, List, [], ◌∷◌, ◌++◌, some, arith, All, ltb,
  if◌then◌else◌, Bool-cases,
}
use projet_prog.Common.Words.{le_bytes16, le_bytes32, bswap_16, bswap_32, put16, put32, sub32}
use projet_prog.Stdio.{Stream, Dest, ok, at, fread_or_exit, split, fseek}
use projet_prog.Header.{load_word}
use projet_prog.Relocs.{load_rel, load_rels, load_tables, load_reloc_table}
use projet_prog.Relocs.Counts.{rel_sizes, load_reloc_table_counts}
use projet_prog.Common.Words.{get32, le_value}
use projet_prog.Elf.{Rel, TableauSectionReloc, Shdr, Symbol, ElfMain}
use projet_prog.Header.{is_magic}
use projet_prog.Header.RoundTrip.{IsEhdr}
use projet_prog.Sections.{shdr_words}
use projet_prog.Sections.RoundTrip.{IsShdr}
use projet_prog.Symbols.{find_symtab}
use projet_prog.Symbols.RoundTrip.{IsSymbol}
use projet_prog.Contents.{next_offset, content_size, load_section_content}
use projet_prog.Contents.Backwards.{load_section_content_backwards}
use projet_prog.Contents.Held.{no_content, content_of}
use projet_prog.Writer.{TempTab, symbol_chunks}
use projet_prog.Writer.Layout.{written, done, skip, put}
use projet_prog.Runner.{write_elf}
use projet_prog.Runner.Coherent.{KeepsAll, table, IsCoherent}
use projet_prog.Runner.Reread.{ReadsBack, loaders-write_elf}
use projet_prog.Examples.Runs.{header}

-- A sort by insertion, of the offsets.
abbrev insert : TempTab → List TempTab → List TempTab
insert t [] = t ∷ []
insert t (x ∷ l) =
    let behind = insert t l in if ltb x.offset t.offset then x ∷ behind else t ∷ x ∷ l

abbrev pub sort : List TempTab → List TempTab
sort [] = []
sort (t ∷ l) = insert t (sort l)

All-insert :
    (P : TempTab → Type 0) (t : TempTab) (l : List TempTab) → All P (insert t l) → P t × All P l
All-insert P t [] w = w
All-insert P t (x ∷ l) w = elim (Bool-cases (ltb x.offset t.offset)) [
  | inl p ↦
      let (head, behind) : P x × All P (insert t l) = rw (p, insert) at w in
      let (own, others) = All-insert P t l behind in (own, (head, others))
  | inr p ↦ rw (p, insert) at w
]

pub sort-KeepsAll : KeepsAll sort
sort-KeepsAll P [] w = tt
sort-KeepsAll P (t ∷ l) w =
    let (own, others) = All-insert P t (sort l) w in (own, sort-KeepsAll P l others)

abbrev pub symbol : Symbol
symbol = record { st_name = 1; st_value = 4; st_size = 0; st_info = 16; st_other = 0; st_shndx = 2 }

abbrev pub row : ℕ → ℕ → ℕ → Shdr
row type offset size = record {
  sh_name = 0;
  sh_type = type;
  sh_flags = 0;
  sh_addr = 0;
  sh_offset = offset;
  sh_size = size;
  sh_link = 0;
  sh_info = 2;
  sh_addralign = 0;
  sh_entsize = 0;
}

-- The first section, a table of relocations at 56, the text at 52, and the symbols at 64.
abbrev pub rows : List Shdr
rows = row 0 0 0 ∷ row 9 56 8 ∷ row 1 52 4 ∷ row 2 64 16 ∷ []

abbrev pub program : ElfMain
program = record {
  header = record header { e_shoff = 80; e_shnum = 4 };
  sect_header = some rows;
  sym_table = some (symbol ∷ []);
  rel_table = some ((record { r_offset = 1; r_info = 8 } ∷ []) ∷ []);
  section_content =
      no_content
      ∷ content_of (0 ∷ 0 ∷ 0 ∷ 2 ∷ 0 ∷ 0 ∷ 1 ∷ 2 ∷ [])
      ∷ content_of (1 ∷ 2 ∷ 3 ∷ 4 ∷ [])
      ∷ no_content
      ∷ [];
  tab_sec_rel = record { tab_nb = 1 ∷ []; nb_sections = 1 };
  nb_symboles = some 1;
}

program-IsEhdr : IsEhdr program.header
unfolding is_magic
program-IsEhdr = record {
  magic = refl;
  elf32 = refl;
  type = omega arith;
  machine = omega arith;
  version = omega arith;
  entry = omega arith;
  phoff = omega arith;
  shoff = omega arith;
  flags = omega arith;
  ehsize = omega arith;
  phentsize = omega arith;
  phnum = omega arith;
  shentsize = omega arith;
  shnum = omega arith;
  shstrndx = omega arith;
}

row-IsShdr :
    (type offset size : ℕ) → type < 100 → offset < 100 → size < 100 → IsShdr (row type offset size)
unfolding IsShdr shdr_words
row-IsShdr type offset size a b c = (
  omega arith,
  (
    omega arith,
    (
      omega arith,
      (
        omega arith,
        (
          omega arith,
          (omega arith, (omega arith, (omega arith, (omega arith, (omega arith, tt))))),
        ),
      ),
    ),
  ),
)

symbol-IsSymbol : IsSymbol symbol
symbol-IsSymbol = record {
  name = omega arith;
  value = omega arith;
  size = omega arith;
  shndx = omega arith;
}

pub program-IsCoherent : IsCoherent sort program rows
unfolding find_symtab written content_size next_offset sub32 symbol_chunks put16 put32 le_bytes16
    le_bytes32 bswap_16 bswap_32
program-IsCoherent = record {
  ehdr = program-IsEhdr;
  table = refl;
  count = refl;
  rows = (
    row-IsShdr 0 0 0 (omega arith) (omega arith) (omega arith),
    (
      row-IsShdr 9 56 8 (omega arith) (omega arith) (omega arith),
      (
        row-IsShdr 1 52 4 (omega arith) (omega arith) (omega arith),
        (row-IsShdr 2 64 16 (omega arith) (omega arith) (omega arith), tt),
      ),
    ),
  );
  row_size = refl;
  symbols =
      table (row 2 64 16) (symbol ∷ []) refl refl refl refl (omega arith) (symbol-IsSymbol, tt);
  contents = refl;
  sized = (
    inl (refl, refl),
    (
      inr (_, refl, omega arith, omega arith, (refl, omega arith)),
      (
        inr (_, refl, omega arith, omega arith, (refl, omega arith)),
        (inr (_, refl, omega arith, omega arith, refl), tt),
      ),
    ),
  );
  laid = skip _ _ refl refl refl (
      put _ _ _ refl refl refl (omega arith) refl (
        put _ _ _ refl refl refl (omega arith) refl
          (put _ _ _ refl refl refl (omega arith) refl done)));
}

loaders-write_elf_example :
    (d' : Dest) × (write_elf sort program (record { before = []; behind = 7 ∷ [] }) ≡ ok d')
    × ReadsBack program (d'.before ++ d'.behind) []
loaders-write_elf_example =
    loaders-write_elf sort program rows (record { before = []; behind = 7 ∷ [] }) [] sort-KeepsAll
      program-IsCoherent

-- The text at 60 in front of the data at 52.
load_section_content_backwards_example :
    load_section_content
      (record header { e_shnum = 2 })
      (row 1 60 4 ∷ row 1 52 8 ∷ [])
      (record { bytes = 1 ∷ 2 ∷ []; rest = [] })
    ≢ ok ([], record { bytes = []; rest = [] })
load_section_content_backwards_example =
    load_section_content_backwards (record header { e_shnum = 2 }) [] [] (row 1 60 4) (row 1 52 8)
      (record { bytes = 1 ∷ 2 ∷ []; rest = [] }) refl (omega arith) (omega arith) (omega arith)
      (omega arith)

-- One relocation section, of 9 bytes at the start of the file: one entry, of offset 1 and type 8.
abbrev relocations : Stream
relocations = record { bytes = 0 ∷ 0 ∷ 0 ∷ 1 ∷ 0 ∷ 0 ∷ 0 ∷ 8 ∷ 9 ∷ []; rest = [] }

abbrev counted : TableauSectionReloc
counted = record { tab_nb = 1 ∷ []; nb_sections = 1 }

abbrev tables_read : List (List Rel)
tables_read = (record { r_offset = 1; r_info = 8 } ∷ []) ∷ []

loads_relocations :
    load_reloc_table (record header { e_shnum = 2 }) (row 0 0 0 ∷ row 9 0 9 ∷ []) relocations
    ≡ ok ((some tables_read, counted), at relocations (9 ∷ []))
unfolding load_reloc_table load_tables load_rels load_rel load_word fread_or_exit split fseek get32
    le_value bswap_32
loads_relocations = refl

load_reloc_table_counts_example :
    (counted.tab_nb ≡ rel_sizes 2 (row 0 0 0 ∷ row 9 0 9 ∷ []))
    × (1 ≡ length counted.tab_nb)
    × (1 ≤ 256)
    × (map length tables_read ≡ counted.tab_nb)
load_reloc_table_counts_example =
    load_reloc_table_counts (record header { e_shnum = 2 }) (row 0 0 0 ∷ row 9 0 9 ∷ []) relocations
      (some tables_read) counted loads_relocations
