-- ===== src/Fits/Loaded.antt =====
-- What `load_main` returns fits.
use projet_prog.Common.{
  ℕ, zero, suc, ◌-◌, ◌*◌, ◌/◌, ◌%◌, ◌^◌, ◌≤◌, ◌≡◌, refl, List, [], ◌∷◌, Option, none, some, arith,
  length, All, ltb, Bool-cases, inl, inr,
}
use projet_prog.Stdio.{fseek}
use projet_prog.Stdio.Gives.{Gives, pure-Gives, bind-Gives, any_Gives}
use projet_prog.Elf.{Ehdr, Shdr, Symbol, SectionContent}
use projet_prog.Header.{load_byte, load_half, load_word, load_header}
use projet_prog.Sections.{array, load_tab_section_header}
use projet_prog.Symbols.{load_symbol, load_symbols, load_table, load_sym_table}
use projet_prog.Symbols.RoundTrip.{IsSymbol}
use projet_prog.Relocs.{load_reloc_table}
use projet_prog.Contents.{load_content, load_contents, load_section_content}
use projet_prog.Writer.{symbol_rounds}
use projet_prog.Runner.{load_main}
use projet_prog.Fits.{Fits}
use projet_prog.Fits.Fields.{
  crash-Gives, load_half-Gives, load_word-Gives, load_header-Gives, load_tab_section_header-Gives,
}

load_symbol-Gives : Gives load_symbol IsSymbol
unfolding load_symbol
load_symbol-Gives = bind-Gives load_word _ load_word-Gives λ name name_fits.
    bind-Gives load_word _ load_word-Gives λ value value_fits.
      bind-Gives load_word _ load_word-Gives λ size size_fits. any_Gives load_byte _ λ info.
        any_Gives load_byte _ λ other. bind-Gives load_half _ load_half-Gives λ shndx shndx_fits.
          pure-Gives IsSymbol _
            (record { name = name_fits; value = value_fits; size = size_fits; shndx = shndx_fits })

SymbolsFit : ℕ → List Symbol → Type 0
SymbolsFit n l = All IsSymbol l × (n ≡ length l)

load_symbols-Gives : (n room : ℕ) → Gives (load_symbols n room) (SymbolsFit n)
unfolding load_symbols SymbolsFit
load_symbols-Gives zero room = pure-Gives (SymbolsFit 0) [] (tt, refl)
load_symbols-Gives (suc n) room = elim (Bool-cases (ltb room 16)) [
  | inl p ↦ rw p (crash-Gives (SymbolsFit (suc n)))
  | inr p ↦ rw p (
      bind-Gives load_symbol _ load_symbol-Gives λ s v.
        bind-Gives (load_symbols n (room - 16)) _ (load_symbols-Gives n (room - 16))
          λ l w. pure-Gives (SymbolsFit (suc n)) (s ∷ l) ((v, w.0), omega (arith, w.1)))
]

abbrev TableFits : Option (List Symbol) × Option ℕ → Type 0
TableFits (l, n) = All IsSymbol (array l) × (symbol_rounds n ≡ length (array l))

load_table-Gives : (o : Option Shdr) → Gives (load_table o) TableFits
unfolding load_table SymbolsFit
load_table-Gives none = pure-Gives TableFits (none, none) (tt, refl)
load_table-Gives (some s) = any_Gives (fseek s.sh_offset) _ λ u.
    bind-Gives (load_symbols (s.sh_size / 16) (s.sh_size * 16 % 2 ^ 32)) _
      (load_symbols-Gives (s.sh_size / 16) (s.sh_size * 16 % 2 ^ 32))
      λ l w. pure-Gives TableFits (some l, some (s.sh_size / 16)) w

load_sym_table-Gives : (h : Ehdr) (sects : List Shdr) → Gives (load_sym_table h sects) TableFits
unfolding load_sym_table
load_sym_table-Gives h sects = any_Gives _ _ load_table-Gives

-- There is a content for every section, and a header.
ContentsFit : ℕ → List Shdr → List SectionContent → Type 0
ContentsFit n l cs = (n ≤ length l) × (n ≤ length cs)

load_contents-Gives :
    (h : Ehdr) (sects : List Shdr) (n : ℕ) (l : List Shdr)
    → Gives (load_contents h sects n l) (ContentsFit n l)
unfolding load_contents ContentsFit
load_contents-Gives h sects zero l = pure-Gives (ContentsFit 0 l) [] (omega arith, omega arith)
load_contents-Gives h sects (suc n) [] = crash-Gives (ContentsFit (suc n) [])
load_contents-Gives h sects (suc n) (s ∷ l) = any_Gives (load_content h sects n s l) _ λ c.
    bind-Gives (load_contents h sects n l) _ (load_contents-Gives h sects n l) λ cs w.
      pure-Gives (ContentsFit (suc n) (s ∷ l)) (c ∷ cs) (omega (arith, w.0), omega (arith, w.1))

load_section_content-Gives :
    (h : Ehdr) (sects : List Shdr)
    → Gives (load_section_content h sects) (ContentsFit h.e_shnum sects)
unfolding load_section_content
load_section_content-Gives h sects =
    any_Gives (fseek h.e_ehsize) _ λ u. load_contents-Gives h sects h.e_shnum sects

pub load_main-Fits : Gives load_main Fits
unfolding load_main ContentsFit
load_main-Fits = bind-Gives load_header _ load_header-Gives λ header p.
    bind-Gives (load_tab_section_header header) _ (load_tab_section_header-Gives header) λ sects q.
      bind-Gives (load_sym_table header (array sects)) _ (load_sym_table-Gives header (array sects))
        λ syms r. any_Gives (load_reloc_table header (array sects)) _ λ rels.
          bind-Gives (load_section_content header (array sects)) _
            (load_section_content-Gives header (array sects))
            λ contents w. pure-Gives Fits _ (record {
              halves_fit = p.0;
              words_fit = p.1;
              rows = q;
              symbols = r.0;
              enough_rows = w.0;
              enough_contents = w.1;
              counted = r.1;
            })
