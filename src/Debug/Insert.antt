-- ===== src/Debug/Insert.antt =====
-- `add_debug_to` keeps the table sorted, and what it does when the table is full.
use projet_prog.Common.{
  if◌then◌else◌, ◌==◌, ℕ, suc, ◌+◌, ◌<◌, ◌≤◌, ◌≡◌, ◌≢◌, ◌⊎◌, refl, List, [], ◌∷◌, arith, All,
  length, inl, inr,
}
use projet_prog.Stdio.{ok, fault}
use projet_prog.Debug.{less, equal, greater, strcmp, find_place, insert_at, add_debug_to}
use projet_prog.Debug.Order.{strcmp_flip, strcmp-greater_trans, IsSorted, Sign-cases}

-- `name` in front of the first name that is not less than it.
unfoldable pub insert : List ℕ → List (List ℕ) → List (List ℕ)
insert name [] = name ∷ []
insert name (x ∷ l) = elim (strcmp x name) [
  | less ↦ x ∷ insert name l
  | equal ↦ name ∷ x ∷ l
  | greater ↦ name ∷ x ∷ l
]

-- The number of names that are less, up to the first that is not.
unfoldable pub place : List ℕ → List (List ℕ) → ℕ
place name [] = 0
place name (x ∷ l) = elim (strcmp x name) [ less ↦ suc (place name l) | equal ↦ 0 | greater ↦ 0 ]

place-le : (name : List ℕ) (l : List (List ℕ)) → place name l ≤ length l
unfolding place
place-le name [] = omega arith
place-le name (x ∷ l) = ground (arith, place-le name l)

find_place-place :
    (name : List ℕ) (l : List (List ℕ)) (i : ℕ)
    → i + length l ≤ 64
    → find_place name l i ≡ i + place name l
unfolding find_place place
find_place-place name [] i h = omega arith
find_place-place name (x ∷ l) i h = ground (arith, find_place-place name l (suc i))

insert_at-place :
    (name : List ℕ) (l : List (List ℕ)) → insert_at (place name l) name l ≡ insert name l
unfolding insert_at place insert
insert_at-place name [] = refl
insert_at-place name (x ∷ l) = ground (arith, insert_at-place name l)

All-insert :
    (P : List ℕ → Type 0) (name : List ℕ) (l : List (List ℕ))
    → P name
    → All P l
    → All P (insert name l)
unfolding insert
All-insert P name [] p h = (p, tt)
All-insert P name (x ∷ l) p h = elim (Sign-cases (strcmp x name)) [
  | inl c ↦ rw (c, insert) (h.0, All-insert P name l p h.1)
  | inr (inl c) ↦ rw (c, insert) (p, h)
  | inr (inr c) ↦ rw (c, insert) (p, h)
]

All-imp :
    {P Q : List ℕ → Type 0} (l : List (List ℕ)) → ((y : List ℕ) → P y → Q y) → All P l → All Q l
All-imp [] f h = tt
All-imp (x ∷ l) f h = (f x h.0, All-imp l f h.1)

-- A name that is not above the head of a sorted table is not above any of it.
below_head :
    (name x : List ℕ) (l : List (List ℕ))
    → strcmp name x ≢ greater
    → IsSorted (x ∷ l)
    → All (λ y. strcmp name y ≢ greater) (x ∷ l)
below_head name x l h s = (h, All-imp l (λ y q e. q (strcmp-greater_trans name x y h e)) s.0)

insert-IsSorted : (name : List ℕ) (l : List (List ℕ)) → IsSorted l → IsSorted (insert name l)
unfolding insert
insert-IsSorted name [] s = (tt, tt)
insert-IsSorted name (x ∷ l) s = elim (Sign-cases (strcmp x name)) [
  | inl c ↦
      rw (c, insert)
        (All-insert (λ y. strcmp x y ≢ greater) name l (λ e. cc) s.0, insert-IsSorted name l s.1)
  | inr (inl c) ↦ rw (c, insert) (below_head name x l (λ e. cc (strcmp_flip name x e, c)) s, s)
  | inr (inr c) ↦ rw (c, insert) (below_head name x l (λ e. cc (strcmp_flip name x e, c)) s, s)
]

-- Into a table of less than 64 names, a name is inserted in front of the first that is not less.
pub add_debug_to_inserts :
    (name : List ℕ) (files : List (List ℕ))
    → length files < 64
    → add_debug_to name files ≡ ok (insert name files)
unfolding add_debug_to
add_debug_to_inserts name files h =
    rw (find_place-place name files 0 (omega arith))
      (ground (arith, place-le name files, insert_at-place name files))

-- With 64 names in the table, a name that is above all of them is left out, and any other makes the
-- program write behind the array.
pub add_debug_to_full :
    (name : List ℕ) (files : List (List ℕ))
    → length files ≡ 64
    → add_debug_to name files ≡ (if place name files == 64 then ok files else fault)
unfolding add_debug_to
add_debug_to_full name files h = ground (arith, find_place-place name files 0, place-le name files)

add_debug_to_result :
    (name : List ℕ) (files : List (List ℕ)) {files' : List (List ℕ)}
    → length files ≤ 64
    → add_debug_to name files ≡ ok files'
    → ((files' ≡ insert name files) × (length files < 64)) ⊎ (files' ≡ files)
unfolding add_debug_to
add_debug_to_result name files h e =
    ground (arith, find_place-place name files 0, place-le name files, insert_at-place name files)

length-insert : (name : List ℕ) (l : List (List ℕ)) → length (insert name l) ≡ suc (length l)
unfolding insert
length-insert name [] = refl
length-insert name (x ∷ l) = ground (arith, length-insert name l)

-- A sorted table of at most 64 names stays one, whatever name is added, unless that is a fault.
pub add_debug_to-IsSorted :
    (name : List ℕ) (files : List (List ℕ)) {files' : List (List ℕ)}
    → IsSorted files
    → length files ≤ 64
    → add_debug_to name files ≡ ok files'
    → IsSorted files' × (length files' ≤ 64)
add_debug_to-IsSorted name files s h e = elim (add_debug_to_result name files h e) [
  | inl (p, q) ↦ rw p (insert-IsSorted name files s, omega (arith, length-insert name files))
  | inr p ↦ rw p (s, h)
]
