-- ===== src/Implantation/Delete/Kept.antt =====
-- The symbols and the table of names while a relocation section is removed.
use mathlib.Core.Option.{some-injective}
use projet_prog.Common.{
  ℕ, zero, suc, ◌-◌, ◌^◌, ◌<◌, ◌≤◌, ◌≡◌, ◌≢◌, refl, sym, ap, ◌∙◌, List, [], ◌∷◌, some, arith,
  length, get_elem?, true, false, if◌then◌else◌, ltb, ◌==◌,
}
use projet_prog.Elf.{Shdr, Symbol, ElfMain, sht_rel}
use projet_prog.Sections.{array}
use projet_prog.Implantation.Delete.{map_first, renumber_symbol, rounds}
use projet_prog.Implantation.Delete.Shift.{Between, AreLoaded}
use projet_prog.Implantation.Delete.Rows.{Row, is_rel, rows, erase, get_elem?-erase}

-- Both tables have an element for each section, the contents from `f` on were read, and the symbols,
-- if there is a table of them, are as many as are counted.
pub record IsReadyFrom (f : ℕ) (e : ElfMain) : Type 0 where
  pub sects : List Shdr
  pub has_sects : e.sect_header ≡ some sects
  pub counted : rounds e.nb_symboles ≡ length (array e.sym_table)
  pub few : e.header.e_shnum < 2 ^ 16
  pub enough_sects : e.header.e_shnum ≤ length sects
  pub enough_contents : e.header.e_shnum ≤ length e.section_content
  pub read : AreLoaded f e.header.e_shnum e.section_content

-- Such a structure, with the contents read from the first relocation section on. Sections in front of
-- it, as the null section, may be empty.
pub record IsReady (e : ElfMain) : Type 0 where
  pub first : ℕ
  pub ready : IsReadyFrom first e
  pub plain : Between (λ s. (s.sh_type == sht_rel) ≡ false) 0 first (array e.sect_header)

abbrev pub all_rows : ElfMain → List Row
all_rows e = rows e.header.e_shnum (array e.sect_header) e.section_content

-- The index `k` in one table and `k'` in another are of the same row, if that is kept.
abbrev pub SameRow : List Row → List Row → ℕ → ℕ → Type 0
SameRow l l' k k' = (x : Row) → get_elem? l k ≡ some x → is_rel x ≡ false → get_elem? l' k' ≡ some x

-- Each symbol of one table against the one in its place in the other.
abbrev pub SameRows : List Row → List Row → List Symbol → List Symbol → Type 0
SameRows l l' [] [] = Unit {0}
SameRows l l' [] (t ∷ ts) = ⊥
SameRows l l' (s ∷ ss) [] = ⊥
SameRows l l' (s ∷ ss) (t ∷ ts) =
    SameRow l l' s.st_shndx t.st_shndx
    × (t ≡ record s { st_shndx = t.st_shndx })
    × SameRows l l' ss ts

-- What holds of a structure and the one that is left when some relocation sections are removed.
pub record Kept (e e' : ElfMain) : Type 0 where
  pub names : SameRow (all_rows e) (all_rows e') e.header.e_shstrndx e'.header.e_shstrndx
  pub symbols : SameRows (all_rows e) (all_rows e') (array e.sym_table) (array e'.sym_table)

SameRows-refl : (l : List Row) (ss : List Symbol) → SameRows l l ss ss
SameRows-refl l [] = tt
SameRows-refl l (s ∷ ss) = (λ x e h. e, refl, SameRows-refl l ss)

SameRows-trans :
    (l l' l'' : List Row) (ss ts us : List Symbol)
    → SameRows l l' ss ts
    → SameRows l' l'' ts us
    → SameRows l l'' ss us
SameRows-trans l l' l'' [] [] [] h k = tt
SameRows-trans l l' l'' [] [] (u ∷ us) h k = k
SameRows-trans l l' l'' [] (t ∷ ts) us h k = absurd h
SameRows-trans l l' l'' (s ∷ ss) [] us h k = absurd h
SameRows-trans l l' l'' (s ∷ ss) (t ∷ ts) [] h k = k
SameRows-trans l l' l'' (s ∷ ss) (t ∷ ts) (u ∷ us) h k = (
  λ x e r. k.0 x (h.0 x e r) r,
  k.1 ∙ ap {A = Symbol} (λ v. record v { st_shndx = u.st_shndx }) h.1,
  SameRows-trans l l' l'' ss ts us h.2 k.2,
)

pub Kept-refl : (e : ElfMain) → Kept e e
Kept-refl e = record {
  names = λ x p h. p;
  symbols = SameRows-refl (all_rows e) (array e.sym_table);
}

pub Kept-trans : {e e' e'' : ElfMain} → Kept e e' → Kept e' e'' → Kept e e''
Kept-trans {e} {e'} {e''} h k = record {
  names = λ x p r. k.names x (h.names x p r) r;
  symbols =
      SameRows-trans (all_rows e) (all_rows e') (all_rows e'') (array e.sym_table)
        (array e'.sym_table) (array e''.sym_table) h.symbols k.symbols;
}

-- An index of a row that is kept is not that of a row that is not.
kept_ne :
    (l : List Row) (i k : ℕ) {x y : Row}
    → get_elem? l i ≡ some x
    → is_rel x ≡ true
    → get_elem? l k ≡ some y
    → is_rel y ≡ false
    → k ≢ i
kept_ne l i k {x} {y} p h q r e =
    let same = some-injective x y (sym p ∙ rw e at q) in cc (ap is_rel same, h, r)

module _ (l : List Row) (i : ℕ) {x : Row} (here : get_elem? l i ≡ some x) (rel : is_rel x ≡ true)
    (small : length l < 2 ^ 16) where
  pub names_follow : (k : ℕ) → SameRow l (erase i l) k (if ltb i k then k - 1 else k)
  names_follow k y e r =
      let ne = kept_ne l i k here rel e r in get_elem?-erase i k _ l (ground arith) ∙ e

  get_elem?-lt_length : (ls : List Row) (k : ℕ) {y : Row} → get_elem? ls k ≡ some y → k < length ls
  get_elem?-lt_length [] k e = absurd (ground arith)
  get_elem?-lt_length (z ∷ ls) zero e = omega arith
  get_elem?-lt_length (z ∷ ls) (suc k) e = omega (arith, get_elem?-lt_length ls k e)

  symbol_follows : (s : Symbol) → SameRow l (erase i l) s.st_shndx (renumber_symbol i s).st_shndx
  unfolding renumber_symbol
  symbol_follows s y e r =
      let ne = kept_ne l i s.st_shndx here rel e r in
      let below = get_elem?-lt_length l s.st_shndx e in
      get_elem?-erase i s.st_shndx _ l (ground arith) ∙ e

  pub symbols_follow :
      (ss : List Symbol) → SameRows l (erase i l) ss (map_first (renumber_symbol i) (length ss) ss)
  unfolding map_first
  symbols_follow [] = tt
  symbols_follow (s ∷ ss) = (symbol_follows s, unfold renumber_symbol in refl, symbols_follow ss)
