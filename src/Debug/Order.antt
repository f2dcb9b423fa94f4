-- ===== src/Debug/Order.antt =====
-- strcmp as an order on names, and the sorted tables of names.
use mathlib.Core.Option.{some-injective}
use projet_prog.Common.{
  ℕ, suc, zero, ◌≤◌, ◌≡◌, ◌≢◌, ◌⊎◌, inl, inr, refl, List, [], ◌∷◌, some, arith, All, get_elem?,
}
use projet_prog.Debug.{Sign, less, equal, greater, strcmp}

pub strcmp_refl : (a : List ℕ) → strcmp a a ≡ equal
unfolding strcmp
strcmp_refl [] = refl
strcmp_refl (x ∷ a) = ground (arith, strcmp_refl a)

pub strcmp_eq : (a b : List ℕ) → strcmp a b ≡ equal → a ≡ b
unfolding strcmp
strcmp_eq [] [] h = refl
strcmp_eq [] (y ∷ b) h = ground arith
strcmp_eq (x ∷ a) [] h = ground arith
strcmp_eq (x ∷ a) (y ∷ b) h = ground (arith, strcmp_eq a b)

pub strcmp_flip : (a b : List ℕ) → strcmp a b ≡ greater → strcmp b a ≡ less
unfolding strcmp
strcmp_flip [] [] h = ground arith
strcmp_flip [] (y ∷ b) h = ground arith
strcmp_flip (x ∷ a) [] h = refl
strcmp_flip (x ∷ a) (y ∷ b) h = ground (arith, strcmp_flip a b)

pub strcmp-less_trans :
    (a b c : List ℕ) → strcmp a b ≢ greater → strcmp b c ≡ less → strcmp a c ≡ less
unfolding strcmp
strcmp-less_trans [] [] c h k = k
strcmp-less_trans [] (y ∷ b) [] h k = ground arith
strcmp-less_trans [] (y ∷ b) (z ∷ c) h k = refl
strcmp-less_trans (x ∷ a) [] c h k = absurd (h refl)
strcmp-less_trans (x ∷ a) (y ∷ b) [] h k = ground arith
strcmp-less_trans (x ∷ a) (y ∷ b) (z ∷ c) h k = ground (arith, strcmp-less_trans a b c)

pub strcmp-greater_trans :
    (a b c : List ℕ) → strcmp a b ≢ greater → strcmp a c ≡ greater → strcmp b c ≡ greater
unfolding strcmp
strcmp-greater_trans [] b [] h k = ground arith
strcmp-greater_trans [] b (z ∷ c) h k = ground arith
strcmp-greater_trans (x ∷ a) [] c h k = absurd (h refl)
strcmp-greater_trans (x ∷ a) (y ∷ b) [] h k = refl
strcmp-greater_trans (x ∷ a) (y ∷ b) (z ∷ c) h k = ground (arith, strcmp-greater_trans a b c)

-- Every name is not above those behind it.
abbrev pub IsSorted : List (List ℕ) → Type 0
IsSorted [] = Unit {0}
IsSorted (x ∷ l) = All (λ y. strcmp x y ≢ greater) l × IsSorted l

All-get_elem? :
    (P : List ℕ → Type 0) (l : List (List ℕ)) (i : ℕ) {x : List ℕ}
    → All P l
    → get_elem? l i ≡ some x
    → P x
All-get_elem? P [] i h e = absurd (ground arith)
All-get_elem? P (y ∷ l) zero h e = rw (← some-injective _ _ e) h.0
All-get_elem? P (y ∷ l) (suc i) h e = All-get_elem? P l i h.1 e

-- In a sorted table an earlier name is not above a later one.
pub IsSorted-get_elem? :
    (l : List (List ℕ)) (i j : ℕ) {x y : List ℕ}
    → IsSorted l
    → i ≤ j
    → get_elem? l i ≡ some x
    → get_elem? l j ≡ some y
    → strcmp x y ≢ greater
IsSorted-get_elem? [] i j s h p q = absurd (ground arith)
IsSorted-get_elem? (z ∷ l) zero zero s h p q =
    rw (← some-injective z _ p, ← some-injective z _ q, strcmp_refl z) (λ e. cc)
IsSorted-get_elem? (z ∷ l) zero (suc j) s h p q =
    rw (← some-injective z _ p) (All-get_elem? (λ y. strcmp z y ≢ greater) l j s.0 q)
IsSorted-get_elem? (z ∷ l) (suc i) zero s h p q = absurd (omega arith)
IsSorted-get_elem? (z ∷ l) (suc i) (suc j) s h p q = IsSorted-get_elem? l i j s.1 (omega arith) p q

pub Sign-cases : (s : Sign) → (s ≡ less) ⊎ ((s ≡ equal) ⊎ (s ≡ greater))
Sign-cases less = inl refl
Sign-cases equal = inr (inl refl)
Sign-cases greater = inr (inr refl)
