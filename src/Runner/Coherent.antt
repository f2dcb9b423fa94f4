-- ===== src/Runner/Coherent.antt =====
-- A structure whose parts fit together, and its contents where `write_section_content` puts them.
use projet_prog.Common.{
  ℕ, ◌+◌, ◌*◌, ◌^◌, ◌<◌, ◌≡◌, refl, sym, ap, ◌∙◌, subst, List, ◌++◌, none, some, arith, length, All,
  get_elem?,
}
use projet_prog.Common.Words.{put16, put32, le_bytes16, le_bytes32}
use projet_prog.Stdio.{Dest, ok}
use projet_prog.Elf.{Ehdr, Shdr, Symbol, SectionContent, ElfMain}
use projet_prog.Header.{write_header, ident_chunks, field_chunks, addr_bytes}
use projet_prog.Header.RoundTrip.{IsEhdr, before-write_header}
use projet_prog.Sections.{array}
use projet_prog.Sections.RoundTrip.{IsShdr}
use projet_prog.Symbols.{find_symtab}
use projet_prog.Symbols.RoundTrip.{IsSymbol}
use projet_prog.Contents.Held.{Held, Sized}
use projet_prog.Writer.{TempTab, symbol_rounds, temp_tabs, write_sections, write_section_content}
use projet_prog.Writer.Layout.{Laid, StandsAt, write_sections-Laid}
use projet_prog.Writer.Tabs.{tabs_from, temp_tabs-tabs_from, written_all, All_StandsAt-Held}

-- qsort loses no element.
abbrev pub KeepsAll : (List TempTab → List TempTab) → Type 1
KeepsAll qsort = (P : TempTab → Type 0) (l : List TempTab) → All P (qsort l) → All P l

-- The symbols of the structure are those of the first symbol table among its sections, or there is
-- no such section and there are no symbols.
pub data SymbolsFit (e : ElfMain) : Type 0 where
  no_table :
      find_symtab e.header.e_shnum (array e.sect_header) ≡ ok none
      → e.sym_table ≡ none
      → e.nb_symboles ≡ none
      → SymbolsFit e
  table :
      (s : Shdr) (l : List Symbol)
      → find_symtab e.header.e_shnum (array e.sect_header) ≡ ok (some s)
      → e.sym_table ≡ some l
      → e.nb_symboles ≡ some (length l)
      → s.sh_size ≡ 16 * length l
      → s.sh_size < 2 ^ 28
      → All IsSymbol l
      → SymbolsFit e

abbrev pub saved_contents : ElfMain → List SectionContent
saved_contents e = written_all (array e.sym_table) (array e.sect_header) e.section_content

-- The parts of the structure fit together: its fields fit their types, its counts are those of its
-- tables, its sections lie one behind the other from the header to the section headers in the order
-- that qsort finds, and each has the size that the loader finds out.
pub record IsCoherent (qsort : List TempTab → List TempTab) (e : ElfMain) (sects : List Shdr)
    : Type 0 where
  pub ehdr : IsEhdr e.header
  pub table : e.sect_header ≡ some sects
  pub count : e.header.e_shnum ≡ length sects
  pub rows : All IsShdr sects
  pub row_size : e.header.e_shentsize ≡ 40
  pub symbols : SymbolsFit e
  pub contents : length e.section_content ≡ length sects
  pub sized : Sized e.header sects e.header.e_shnum sects (saved_contents e)
  pub laid : Laid e (array e.sym_table) 52 (qsort (tabs_from 0 sects)) e.header.e_shoff

header_length : (h : Ehdr) (d : Dest) → IsEhdr h → length (write_header h d).before ≡ 52
unfolding field_chunks ident_chunks addr_bytes put16 put32 le_bytes16 le_bytes32
header_length h d w = rw (before-write_header h d, w.elf32) refl

rounds_fit : (e : ElfMain) → SymbolsFit e → symbol_rounds e.nb_symboles ≡ length (array e.sym_table)
rounds_fit e (no_table _ p q) = rw (p, q) refl
rounds_fit e (table s l _ p q _ _ _) = rw (p, q) refl

saved :
    (e : ElfMain) (sects : List Shdr)
    → e.sect_header ≡ some sects
    → saved_contents e ≡ written_all (array e.sym_table) sects e.section_content
saved e sects t = ap (λ o. written_all (array e.sym_table) (array o) e.section_content) t

content_written :
    (qsort : List TempTab → List TempTab) (e : ElfMain) (ts : List TempTab) (d : Dest) {d' : Dest}
    → temp_tabs e.header.e_shnum 0 (array e.sect_header) ≡ ok ts
    → write_sections e (qsort ts) d ≡ ok d'
    → write_section_content qsort e d ≡ ok d'
unfolding write_section_content
content_written qsort e ts d p q = rw (p, write_section_content) q

from_zero :
    {A : Type 0} {xs ys : List A} → xs ≡ ys → (j : ℕ) → get_elem? xs (0 + j) ≡ get_elem? ys j
from_zero {xs = xs} p j =
    let same : 0 + j ≡ j = omega arith in ap (get_elem? xs) same ∙ ap (λ l. get_elem? l j) p

-- The contents are written up to the section headers, each at the offset of its section.
pub contents_stand :
    (qsort : List TempTab → List TempTab) (e : ElfMain) (sects : List Shdr) (d : Dest)
    → KeepsAll qsort
    → IsCoherent qsort e sects
    → (d' : Dest) × (bs : List ℕ) × (write_section_content qsort e (write_header e.header d)
        ≡ ok d')
      × (d'.before ≡ (write_header e.header d).before ++ bs)
      × (e.header.e_shoff ≡ length d'.before)
      × Held d'.before sects (saved_contents e)
contents_stand qsort e sects d keeps w =
    let (d', bs, run, b, k, all) =
      write_sections-Laid e (array e.sym_table) 52 e.header.e_shoff (qsort (tabs_from 0 sects))
        (write_header e.header d) refl (rounds_fit e w.symbols) w.laid
        (header_length e.header d w.ehdr) in
    let tabs : temp_tabs e.header.e_shnum 0 (array e.sect_header) ≡ ok (tabs_from 0 sects) =
      rw (w.table, w.count) (temp_tabs-tabs_from 0 sects) in
    let held =
      All_StandsAt-Held e (array e.sym_table) d'.before 0 sects e.section_content
        (from_zero (ap array w.table)) (from_zero {xs = e.section_content} refl)
        (keeps (StandsAt e (array e.sym_table) d'.before) (tabs_from 0 sects) all) in
    (
      d',
      bs,
      content_written qsort e (tabs_from 0 sects) (write_header e.header d) tabs run,
      b,
      sym k,
      subst (Held d'.before sects) (sym (saved e sects w.table)) held,
    )
