-- ===== src/Implantation/Delete/Rows.antt =====
-- The table that `delete_rel` works on, as one list of rows: the header of each section, without
-- the two fields that depend on the place of others, and its content.
use mathlib.Core.Option.{some-injective}
use projet_prog.Common.{
  ℕ, zero, suc, ◌+◌, ◌-◌, ◌<◌, ◌≤◌, ◌≡◌, ◌⊎◌, inl, inr, refl, ap, ◌∙◌, List, [], ◌∷◌, some, arith,
  length, get_elem?, ◌==◌, Bool, true, false, if◌then◌else◌, Option-cases, set,
}
use projet_prog.Elf.{Shdr, SectionContent, uninit, sht_rel}
use projet_prog.Implantation.Delete.{shift_down, map_first, renumber}
use projet_prog.Implantation.Delete.Shift.{shift_down-cons, shift_down_front, freed}

-- A header without its offset and its link.
unfoldable pub core : Shdr → Shdr
core s = record s { sh_offset = 0; sh_link = 0 }

abbrev pub Row : Type 0
Row = Shdr × SectionContent

abbrev pub is_rel : Row → Bool
is_rel r = r.0.sh_type == sht_rel

-- The rows of the first `n` sections.
unfoldable pub rows : ℕ → List Shdr → List SectionContent → List Row
rows zero l a = []
rows (suc n) [] a = []
rows (suc n) (s ∷ l) [] = []
rows (suc n) (s ∷ l) (c ∷ a) = (core s, c) ∷ rows n l a

-- A list without its element `i`.
unfoldable pub erase : ℕ → List Row → List Row
erase i [] = []
erase zero (x ∷ l) = l
erase (suc i) (x ∷ l) = x ∷ erase i l

-- The rows that are not of relocation sections, in order.
unfoldable pub keep : List Row → List Row
keep [] = []
keep (x ∷ l) = let rest = keep l in if is_rel x then rest else x ∷ rest

-- The first `i` rows, and those behind them that are kept.
unfoldable pub keep_from : ℕ → List Row → List Row
unfolding keep
keep_from zero l = keep l
keep_from (suc i) [] = []
keep_from (suc i) (x ∷ l) = x ∷ keep_from i l

pub keep_from-erase :
    (i : ℕ) (l : List Row) {x : Row}
    → get_elem? l i ≡ some x
    → is_rel x ≡ true
    → keep_from i (erase i l) ≡ keep_from i l
unfolding keep_from erase
keep_from-erase i [] e h = absurd (ground arith)
keep_from-erase zero (y ∷ l) e h = ground arith
keep_from-erase (suc i) (y ∷ l) e h = ap (◌∷◌ y) (keep_from-erase i l e h)

pub keep_from-suc :
    (i : ℕ) (l : List Row) {x : Row}
    → get_elem? l i ≡ some x
    → is_rel x ≡ false
    → keep_from (suc i) l ≡ keep_from i l
unfolding keep_from
keep_from-suc i [] e h = absurd (ground arith)
keep_from-suc zero (y ∷ l) e h = ground arith
keep_from-suc (suc i) (y ∷ l) e h = ap (◌∷◌ y) (keep_from-suc i l e h)

pub keep_from-length : (i : ℕ) (l : List Row) → length l ≤ i → keep_from i l ≡ l
unfolding keep_from
keep_from-length zero [] h = refl
keep_from-length zero (x ∷ l) h = absurd (omega arith)
keep_from-length (suc i) [] h = refl
keep_from-length (suc i) (x ∷ l) h = ap (◌∷◌ x) (keep_from-length i l (omega arith))

pub length-rows :
    (n : ℕ) (l : List Shdr) (a : List SectionContent)
    → n ≤ length l
    → n ≤ length a
    → length (rows n l a) ≡ n
unfolding rows
length-rows zero l a h k = refl
length-rows (suc n) [] a h k = absurd (omega arith)
length-rows (suc n) (s ∷ l) [] h k = absurd (omega arith)
length-rows (suc n) (s ∷ l) (c ∷ a) h k = ap suc (length-rows n l a (omega arith) (omega arith))

pub get_elem?-rows :
    (n i : ℕ) (l : List Shdr) (a : List SectionContent) {s : Shdr}
    → i < n
    → n ≤ length a
    → get_elem? l i ≡ some s
    → (c : SectionContent) × (get_elem? (rows n l a) i ≡ some (core s, c))
unfolding rows
get_elem?-rows zero i l a h k e = absurd (omega arith)
get_elem?-rows (suc n) i [] a h k e = absurd (ground arith)
get_elem?-rows (suc n) i (s ∷ l) [] h k e = absurd (omega arith)
get_elem?-rows (suc n) zero (s ∷ l) (c ∷ a) h k e = (c, rw (some-injective _ _ e))
get_elem?-rows (suc n) (suc i) (s ∷ l) (c ∷ a) h k e =
    get_elem?-rows n i l a (omega arith) (omega arith) e

rows_front :
    (r : ℕ) (s : Shdr) (l : List Shdr) (c : SectionContent) (a : List SectionContent)
    → r ≤ length l
    → r ≤ length a
    → rows r (shift_down r 0 (s ∷ l)) (shift_down r 0 (c ∷ a)) ≡ rows r l a
unfolding rows
rows_front zero s l c a h k = refl
rows_front (suc r) s [] c a h k = absurd (omega arith)
rows_front (suc r) s (s' ∷ l) c [] h k = absurd (omega arith)
rows_front (suc r) s (s' ∷ l) c (c' ∷ a) h k =
    rw (shift_down_front r s s' l, shift_down_front r c c' a)
      (ap (◌∷◌ (core s', c')) (rows_front r s' l c' a (omega arith) (omega arith)))

-- Moving both arrays down from `i` on takes row `i` out.
pub rows-shift_down :
    (i r : ℕ) (l : List Shdr) (a : List SectionContent)
    → suc (i + r) ≤ length l
    → suc (i + r) ≤ length a
    → rows (i + r) (shift_down r i l) (shift_down r i a) ≡ erase i (rows (suc (i + r)) l a)
unfolding rows erase
rows-shift_down i r [] a h k = absurd (omega arith)
rows-shift_down i r (s ∷ l) [] h k = absurd (omega arith)
rows-shift_down zero r (s ∷ l) (c ∷ a) h k =
    let e : 0 + r ≡ r = omega arith in rw e (rows_front r s l c a (omega arith) (omega arith))
rows-shift_down (suc i) r (s ∷ l) (c ∷ a) h k =
    let e : suc i + r ≡ suc (i + r) = omega arith in
    rw (e, shift_down-cons r i s l, shift_down-cons r i c a)
      (ap (◌∷◌ (core s, c)) (rows-shift_down i r l a (omega arith) (omega arith)))

-- The change of offsets and links does not show in the rows.
pub rows-map_first :
    (i size offset m n : ℕ) (l : List Shdr) (a : List SectionContent)
    → rows n (map_first (renumber i size offset) m l) a ≡ rows n l a
unfolding rows map_first renumber core
rows-map_first i size offset m zero l a = refl
rows-map_first i size offset zero (suc n) l a = refl
rows-map_first i size offset (suc m) (suc n) [] a = refl
rows-map_first i size offset (suc m) (suc n) (s ∷ l) [] = refl
rows-map_first i size offset (suc m) (suc n) (s ∷ l) (c ∷ a) =
    ap (◌∷◌ (core s, c)) (rows-map_first i size offset m n l a)

rows-set :
    (n j : ℕ) (l : List Shdr) (a : List SectionContent)
    → n ≤ j
    → (c : SectionContent) → rows n l (set a j c) ≡ rows n l a
unfolding rows
rows-set zero j l a h c = refl
rows-set (suc n) j [] a h c = refl
rows-set (suc n) j (s ∷ l) [] h c = refl
rows-set (suc n) zero (s ∷ l) (d ∷ a) h c = absurd (omega arith)
rows-set (suc n) (suc j) (s ∷ l) (d ∷ a) h c =
    ap (◌∷◌ (core s, d)) (rows-set n j l a (omega arith) c)

-- Nor does a content behind them.
pub rows-freed :
    (n j : ℕ) (l : List Shdr) (a : List SectionContent) → n ≤ j → rows n l (freed j a) ≡ rows n l a
unfolding freed
rows-freed n j l a h = elim (Option-cases (get_elem? a j)) [
  | inl e ↦ rw (e, freed)
  | inr (c, e) ↦ rw (e, freed) (rows-set n j l a h (record c { section = uninit }))
]

erase_before : (i k : ℕ) (l : List Row) → k < i → get_elem? (erase i l) k ≡ get_elem? l k
unfolding erase
erase_before i k [] h = refl
erase_before zero k (x ∷ l) h = absurd (omega arith)
erase_before (suc i) zero (x ∷ l) h = refl
erase_before (suc i) (suc k) (x ∷ l) h = erase_before i k l (omega arith)

erase_behind : (i k : ℕ) (l : List Row) → i ≤ k → get_elem? (erase i l) k ≡ get_elem? l (suc k)
unfolding erase
erase_behind i k [] h = refl
erase_behind zero k (x ∷ l) h = refl
erase_behind (suc i) zero (x ∷ l) h = absurd (omega arith)
erase_behind (suc i) (suc k) (x ∷ l) h = erase_behind i k l (omega arith)

-- Taking out row `i` moves the row at `k` to `k'`, which is `k - 1` if `k` is behind `i`.
pub get_elem?-erase :
    (i k k' : ℕ) (l : List Row)
    → ((k < i) × (k' ≡ k)) ⊎ ((i < k) × (k' ≡ k - 1))
    → get_elem? (erase i l) k' ≡ get_elem? l k
get_elem?-erase i k k' l (inl (h, e)) = rw e (erase_before i k l h)
get_elem?-erase i k k' l (inr (h, e)) =
    let q : suc (k - 1) ≡ k = omega arith in
    rw e (erase_behind i (k - 1) l (omega arith) ∙ ap (get_elem? l) q)
