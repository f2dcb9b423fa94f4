-- ===== src/Debug/Search.antt =====
-- `is_debugged` finds the names of a sorted table.
use mathlib.Core.Option.{some-injective}
use projet_prog.Common.{
  sym, ◌∙◌, if◌then◌else◌, ℕ, zero, suc, ◌+◌, ◌-◌, ◌/◌, ◌<◌, ◌≤◌, ◌≡◌, ◌≢◌, List, some, none, arith,
  get_elem?, length, Bool, true, false, Bool-cases, inl, inr, ltb, ltb→lt, ltb→ge, ◌==◌, ==→eq,
  ==→ne, get_elem?-lt, Option,
}
use projet_prog.Stdio.{Outcome, ok, fault}
use projet_prog.Debug.{less, equal, greater, strcmp, search_files, is_debugged}
use projet_prog.Debug.Order.{
  strcmp_refl, strcmp_eq, strcmp-less_trans, strcmp-greater_trans, IsSorted, IsSorted-get_elem?,
  Sign-cases,
}

-- The name stands at one of the places from `from` on and below `to`.
abbrev pub IsBetween : List ℕ → List (List ℕ) → ℕ → ℕ → Type 0
IsBetween name files from to = (i : ℕ) × (from ≤ i) × (i < to) × (get_elem? files i ≡ some name)

-- The answer of the search is right for the places from `from` on and below `to`.
pub data Answers (name : List ℕ) (files : List (List ℕ)) (from to : ℕ)
    : Option (Outcome Bool) → Type 0 where
  found : IsBetween name files from to → Answers name files from to (some (ok true))
  missing : ¬ IsBetween name files from to → Answers name files from to (some (ok false))

module _ (name : List ℕ) (files : List (List ℕ)) (sorted : IsSorted files) where
  -- Places at and below one whose name is less hold other names.
  drop_low :
      (from to middle : ℕ) (x : List ℕ) {o : Option (Outcome Bool)}
      → from ≤ middle
      → get_elem? files middle ≡ some x
      → strcmp x name ≡ less
      → Answers name files (middle + 1) to o
      → Answers name files from to o
  drop_low from to middle x h g c (found (i, a, b, e)) = found (i, omega arith, b, e)
  drop_low from to middle x h g c (missing m) = missing λ (i, a, b, e).
      elim (Bool-cases (ltb middle i)) [
        | inl p ↦ m (i, omega (arith, ltb→lt middle i p), b, e)
        | inr p ↦
            let q =
              strcmp-less_trans name x name
                (IsSorted-get_elem? files i middle sorted (omega (arith, ltb→ge middle i p)) e g)
                c in
            cc (q, strcmp_refl name)
      ]

  drop_high :
      (from to middle : ℕ) (x : List ℕ) {o : Option (Outcome Bool)}
      → middle ≤ to
      → get_elem? files middle ≡ some x
      → strcmp x name ≡ greater
      → Answers name files from middle o
      → Answers name files from to o
  drop_high from to middle x h g c (found (i, a, b, e)) = found (i, a, omega arith, e)
  drop_high from to middle x h g c (missing m) = missing λ (i, a, b, e).
      elim (Bool-cases (ltb i middle)) [
        | inl p ↦ m (i, a, ltb→lt i middle p, e)
        | inr p ↦
            let q =
              strcmp-greater_trans x name name
                (IsSorted-get_elem? files middle i sorted (ltb→ge i middle p) g e) c in
            cc (q, strcmp_refl name)
      ]

  -- The test behind the loop, where at most one place is left.
  last_place : ℕ → ℕ → Option (Outcome Bool)
  last_place from to =
      if suc from == to
      then elim (get_elem? files from) [
        | none ↦ some fault
        | some x ↦ elim (strcmp x name) [
          | less ↦ some (ok false)
          | equal ↦ some (ok true)
          | greater ↦ some (ok false)
        ]
      ]
      else some (ok false)

  only_place :
      (from : ℕ) (x : List ℕ)
      → get_elem? files from ≡ some x
      → strcmp x name ≢ equal
      → ¬ IsBetween name files from (suc from)
  only_place from x g c (i, a, b, e) =
      let same : i ≡ from = omega arith in
      c (rw (some-injective x name (sym g ∙ rw same at e)) (strcmp_refl name))

  last_place-Answers :
      (from to : ℕ)
      → to ≤ suc from
      → to ≤ length files
      → Answers name files from to (last_place from to)
  unfolding last_place
  last_place-Answers from to h k = elim (Bool-cases (suc from == to)) [
    | inr p ↦ rw p (missing λ (i, a, b, e). ==→ne (suc from) to p (omega arith))
    | inl p ↦
        let e = ==→eq (suc from) to p in
        let (x, g) = get_elem?-lt files from (omega arith) in
        elim (Sign-cases (strcmp x name)) [
          | inl c ↦ rw (p, g, c, ← e) (missing (only_place from x g (λ q. cc)))
          | inr (inl c) ↦
              rw (p, g, c) (found (from, omega arith, omega arith, rw (← strcmp_eq x name c) g))
          | inr (inr c) ↦ rw (p, g, c, ← e) (missing (only_place from x g (λ q. cc)))
        ]
  ]

  search_files-Answers :
      (fuel from to : ℕ)
      → from ≤ to
      → to < from + fuel
      → to ≤ length files
      → Answers name files from to (search_files fuel name files from to)
  unfolding search_files last_place
  search_files-Answers zero from to o h k = absurd (omega arith)
  search_files-Answers (suc fuel) from to o h k = elim (Bool-cases (ltb (suc from) to)) [
    | inl p ↦
        let lt = ltb→lt (suc from) to p in
        let (x, g) = get_elem?-lt files ((from + (to - 1)) / 2) (omega arith) in
        elim (Sign-cases (strcmp x name)) [
          | inl c ↦
              rw (p, g, c, search_files)
                (drop_low from to _ x (omega arith) g c
                  (search_files-Answers fuel _ to (omega arith) (omega arith) k))
          | inr (inl c) ↦
              rw (p, g, c, search_files)
                (found
                  ((from + (to - 1)) / 2, omega arith, omega arith, rw (← strcmp_eq x name c) g))
          | inr (inr c) ↦
              rw (p, g, c, search_files)
                (drop_high from to _ x (omega arith) g c
                  (search_files-Answers fuel from _ (omega arith) (omega arith) (omega arith)))
        ]
    | inr p ↦ rw (p, search_files) (last_place-Answers from to (ltb→ge (suc from) to p) k)
  ]

-- Where the table is sorted, `is_debugged` ends with a Boolean, and that is true exactly when the
-- name stands in the table.
pub is_debugged-Answers :
    (name : List ℕ) (files : List (List ℕ))
    → IsSorted files
    → Answers name files 0 (length files) (is_debugged name files)
unfolding is_debugged
is_debugged-Answers name files s =
    search_files-Answers name files s (suc (length files)) 0 (length files) (omega arith)
      (omega arith) (omega arith)
