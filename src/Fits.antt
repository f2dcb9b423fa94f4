-- ===== src/Fits.antt =====
-- What holds of Elf32_Main whenever main of ARM_runner.c is between two of its calls: the fields
-- fit their C types, and the counts do not exceed the arrays.
pub mod Fields
pub mod Loaded
pub mod Changed
pub mod Counts
pub mod Deleted
pub mod Run
use projet_prog.Common.{ℕ, ◌≤◌, ◌≡◌, List, [], ◌∷◌, length, All}
use projet_prog.Common.Words.{IsU16, IsU32}
use projet_prog.Elf.{Ehdr, ElfMain}
use projet_prog.Sections.{array}
use projet_prog.Sections.RoundTrip.{IsShdr}
use projet_prog.Symbols.RoundTrip.{IsSymbol}
use projet_prog.Writer.{symbol_rounds}

abbrev pub halves : Ehdr → List ℕ
halves h =
    h.e_type ∷ h.e_machine ∷ h.e_ehsize ∷ h.e_phentsize ∷ h.e_phnum ∷ h.e_shentsize ∷ h.e_shnum
    ∷ h.e_shstrndx ∷ []

abbrev pub words : Ehdr → List ℕ
words h = h.e_version ∷ h.e_entry ∷ h.e_phoff ∷ h.e_shoff ∷ h.e_flags ∷ []

pub record Fits (e : ElfMain) : Type 0 where
  pub halves_fit : All IsU16 (halves e.header)
  pub words_fit : All IsU32 (words e.header)
  pub rows : All IsShdr (array e.sect_header)
  pub symbols : All IsSymbol (array e.sym_table)
  pub enough_rows : e.header.e_shnum ≤ length (array e.sect_header)
  pub enough_contents : e.header.e_shnum ≤ length e.section_content
  pub counted : symbol_rounds e.nb_symboles ≡ length (array e.sym_table)
