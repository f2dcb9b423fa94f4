-- ===== src/Writer/Tabs.antt =====
-- The table that is sorted, and from what stands at its entries to what stands for the sections.
use projet_prog.Common.{
  ℕ, zero, suc, ◌+◌, ◌≡◌, refl, ap, ◌∙◌, subst, List, [], ◌∷◌, some, arith, length, All, get_elem?,
  ◌==◌, Bool-cases, inl, inr,
}
use projet_prog.Stdio.{Outcome, ok}
use projet_prog.Stdio.Outcomes.{ok-injective, ok_not_fault}
use projet_prog.Elf.{Shdr, Symbol, SectionContent, ElfMain, sht_symtab}
use projet_prog.Sections.{array}
use projet_prog.Symbols.{find_symtab}
use projet_prog.Symbols.RoundTrip.{symbol_bytes}
use projet_prog.Contents.Held.{Holds, Held}
use projet_prog.Writer.{TempTab, temp_tabs}
use projet_prog.Writer.Layout.{written, StandsAt}

abbrev pub tabs_from : ℕ → List Shdr → List TempTab
tabs_from i [] = []
tabs_from i (s ∷ l) = record { indice = i; offset = s.sh_offset } ∷ tabs_from (suc i) l

pub temp_tabs-tabs_from : (i : ℕ) (l : List Shdr) → temp_tabs (length l) i l ≡ ok (tabs_from i l)
unfolding temp_tabs
temp_tabs-tabs_from i [] = refl
temp_tabs-tabs_from i (s ∷ l) = rw (temp_tabs-tabs_from (suc i) l)

-- What every section has in the file that is written.
abbrev pub written_all : List Symbol → List Shdr → List SectionContent → List SectionContent
written_all syms [] cs = []
written_all syms (s ∷ l) [] = []
written_all syms (s ∷ l) (c ∷ cs) = written syms s c ∷ written_all syms l cs

shifted :
    {A : Type 0} (whole l : List A) (x : A) (i : ℕ)
    → ((j : ℕ) → get_elem? whole (i + j) ≡ get_elem? (x ∷ l) j)
    → (j : ℕ) → get_elem? whole (suc i + j) ≡ get_elem? l j
shifted whole l x i g j =
    let same : suc i + j ≡ i + suc j = omega arith in ap (get_elem? whole) same ∙ g (suc j)

head_of :
    {A : Type 0} (whole l : List A) (x : A) (i : ℕ)
    → ((j : ℕ) → get_elem? whole (i + j) ≡ get_elem? (x ∷ l) j)
    → get_elem? whole i ≡ some x
head_of whole l x i g = let same : i ≡ i + 0 = omega arith in ap (get_elem? whole) same ∙ g 0

pub All_StandsAt-Held :
    (e : ElfMain) (syms : List Symbol) (file : List ℕ) (i : ℕ) (l : List Shdr)
    (cs : List SectionContent)
    → ((j : ℕ) → get_elem? (array e.sect_header) (i + j) ≡ get_elem? l j)
    → ((j : ℕ) → get_elem? e.section_content (i + j) ≡ get_elem? cs j)
    → All (StandsAt e syms file) (tabs_from i l)
    → Held file l (written_all syms l cs)
All_StandsAt-Held e syms file i [] cs g k w = tt
All_StandsAt-Held e syms file i (s ∷ l) [] g k w = tt
All_StandsAt-Held e syms file i (s ∷ l) (c ∷ cs) g k (w, ws) = (
  rw (head_of _ l s i g, head_of _ cs c i k, StandsAt) at w,
  All_StandsAt-Held e syms file (suc i) l cs (shifted _ l s i g) (shifted _ cs c i k) ws,
)

-- The symbols stand where the first symbol table has its offset.
pub find_symtab-Holds :
    (syms : List Symbol) (file : List ℕ) (n : ℕ) (l : List Shdr) (cs : List SectionContent)
    (s : Shdr)
    → length cs ≡ length l
    → Held file l (written_all syms l cs)
    → find_symtab n l ≡ ok (some s)
    → Holds file s.sh_offset (symbol_bytes syms)
unfolding find_symtab written
find_symtab-Holds syms file zero l cs s m w p = absurd (cc (ok-injective p))
find_symtab-Holds syms file (suc n) [] cs s m w p = absurd (ok_not_fault p)
find_symtab-Holds syms file (suc n) (x ∷ l) [] s m w p = absurd (omega arith)
find_symtab-Holds syms file (suc n) (x ∷ l) (c ∷ cs) s m (w, ws) p =
    elim (Bool-cases (x.sh_type == sht_symtab)) [
      | inl t ↦
          let first : Outcome.ok (some x) ≡ ok (some s) = rw (t) at p in
          let same : x ≡ s = cc in
          subst (λ y. Holds file y.sh_offset (symbol_bytes syms)) same (rw t at w)
      | inr t ↦ find_symtab-Holds syms file n l cs s (omega arith) ws (rw t at p)
    ]
