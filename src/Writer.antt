-- ===== src/Writer.antt =====
-- `writeSectionContent` of Functions/writeFile.c: the bytes of the sections, by offset.
pub mod Behind
pub mod Layout
pub mod Tabs
use projet_prog.Common.{
  ℕ, zero, suc, Option, none, some, List, [], ◌∷◌, ◌==◌, ◌+◌, ◌%◌, ◌^◌, ltb, if◌then◌else◌,
  get_elem?, length, take,
}
use projet_prog.Common.Words.{put16, put32}
use projet_prog.Stdio.{Dest, fwrite, write_chunks, Outcome, ok, exit, fault}
use projet_prog.Elf.{Shdr, Symbol, SectionContent, uninit, null, block, ElfMain, sht_symtab}
use projet_prog.Sections.{array}

-- tempTab
pub record TempTab : Type 0 where
  pub indice : ℕ
  pub offset : ℕ

pub data Sign : Type 0 where
  less equal greater : Sign

-- Offsets are compared as int: moved by 2 ^ 31, the 32 bits have the order of the signed values.
abbrev pub signed_key : ℕ → ℕ
signed_key x = (x + 2 ^ 31) % 2 ^ 32

unfoldable pub compare : TempTab → TempTab → Sign
compare a b =
    if a.offset == b.offset
    then equal
    else if ltb (signed_key a.offset) (signed_key b.offset)
    then less
    else greater

-- The first loop: `n` sections, the first of which has the index `i`.
unfoldable pub temp_tabs : ℕ → ℕ → List Shdr → Outcome (List TempTab)
temp_tabs zero i l = ok []
temp_tabs (suc n) i [] = fault
temp_tabs (suc n) i (s ∷ l) = elim (temp_tabs n (suc i) l) [
  | ok ts ↦ ok (record { indice = i; offset = s.sh_offset } ∷ ts)
  | exit ↦ exit
  | fault ↦ fault
]

-- The buffers that are written for one symbol.
unfoldable pub symbol_chunks : Symbol → List (List ℕ)
symbol_chunks s =
    put32 s.st_name
    ∷ put32 s.st_value
    ∷ put32 s.st_size
    ∷ (s.st_info ∷ [])
    ∷ (s.st_other ∷ [])
    ∷ put16 s.st_shndx
    ∷ []

unfoldable pub write_symbols : ℕ → List Symbol → Dest → Outcome Dest
write_symbols zero l d = ok d
write_symbols (suc n) [] d = fault
write_symbols (suc n) (s ∷ l) d = write_symbols n l (write_chunks (symbol_chunks s) d)

-- fwrite of more bytes than the block has reads behind it.
unfoldable pub write_block : SectionContent → Dest → Outcome Dest
write_block c d = if c.size == 0 then ok d else elim c.section [
  | uninit ↦ fault
  | null ↦ fault
  | block bs ↦ if ltb (length bs) c.size then fault else ok (fwrite (take c.size bs) d)
]

abbrev pub symbol_rounds : Option ℕ → ℕ
symbol_rounds none = 0
symbol_rounds (some n) = n

-- One round of the last loop: section `i`.
unfoldable pub write_section : ElfMain → ℕ → Dest → Outcome Dest
write_section e i d = elim (get_elem? (array e.sect_header) i) [
  | none ↦ fault
  | some s ↦
      if s.sh_type == sht_symtab
      then write_symbols (symbol_rounds e.nb_symboles) (array e.sym_table) d
      else elim (get_elem? e.section_content i) [ none ↦ fault | some c ↦ write_block c d ]
]

unfoldable pub write_sections : ElfMain → List TempTab → Dest → Outcome Dest
write_sections e [] d = ok d
write_sections e (t ∷ ts) d = elim (write_section e t.indice d) [
  | ok d' ↦ write_sections e ts d'
  | exit ↦ exit
  | fault ↦ fault
]

-- qsort of <stdlib.h> is a parameter: the order of equal offsets is its own.
unfoldable pub write_section_content : (List TempTab → List TempTab) → ElfMain → Dest → Outcome Dest
write_section_content qsort e d = elim (temp_tabs e.header.e_shnum 0 (array e.sect_header)) [
  | ok ts ↦ write_sections e (qsort ts) d
  | exit ↦ exit
  | fault ↦ fault
]
