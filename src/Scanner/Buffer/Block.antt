-- ===== src/Scanner/Buffer/Block.antt =====
-- The block yy_ch_buf of scanner.c: reads and writes at an index, and the two loops that copy into it.
use mathlib.Core.List.{append_assoc}
use projet_prog.Common.{
  ℕ, zero, suc, ◌+◌, ◌≤◌, ◌≡◌, refl, ap, ◌∙◌, Option, none, some, List, [], ◌∷◌, ◌++◌, length,
  length-append, arith,
}

-- `none` is an access outside the block, or the end of the program.
infixl 5 ◌>>=◌
abbrev pub ◌>>=◌ {ℓ κ} : {A : Type ℓ} {B : Type κ} → Option A → (A → Option B) → Option B
none >>= f = none
some a >>= f = f a

unfoldable pub peek : List ℕ → ℕ → Option ℕ
peek [] i = none
peek (x ∷ xs) zero = some x
peek (x ∷ xs) (suc i) = peek xs i

abbrev pub cons_some : ℕ → Option (List ℕ) → Option (List ℕ)
cons_some x none = none
cons_some x (some xs) = some (x ∷ xs)

unfoldable pub poke : List ℕ → ℕ → ℕ → Option (List ℕ)
poke [] i v = none
poke (x ∷ xs) zero v = some (v ∷ xs)
poke (x ∷ xs) (suc i) v = cons_some x (poke xs i v)

-- The characters that `read` stores from the index `i` on.
unfoldable pub poke_all : List ℕ → ℕ → List ℕ → Option (List ℕ)
poke_all b i [] = some b
poke_all b i (c ∷ cs) = do b' ← poke b i c; poke_all b' (suc i) cs

-- `for (i = 0; i < n; ++i) *(dest++) = *(source++);`
unfoldable pub move : ℕ → ℕ → ℕ → List ℕ → Option (List ℕ)
move zero dest source b = some b
move (suc n) dest source b = do
  c ← peek b source
  b' ← poke b dest c
  move n (suc dest) (suc source) b'

pub two_first : (b : List ℕ) → 2 ≤ length b → (x : ℕ) × (y : ℕ) × (r : List ℕ) × (b ≡ x ∷ y ∷ r)
two_first [] h = absurd (omega arith)
two_first (x ∷ []) h = absurd (omega arith)
two_first (x ∷ y ∷ r) h = (x, y, r, refl)

pub peek-append : (xs ys : List ℕ) (c i : ℕ) → i ≡ length xs → peek (xs ++ (c ∷ ys)) i ≡ some c
unfolding peek
peek-append [] ys c i e = rw e refl
peek-append (x ∷ xs) ys c i e = rw e (peek-append xs ys c (length xs) refl)

pub poke-append :
    (xs ys : List ℕ) (c v i : ℕ) → i ≡ length xs → poke (xs ++ (c ∷ ys)) i v ≡ some (xs ++ (v ∷ ys))
unfolding poke
poke-append [] ys c v i e = rw e refl
poke-append (x ∷ xs) ys c v i e = rw (e, poke-append xs ys c v (length xs) refl, poke)

pub snoc_append : (xs ys : List ℕ) (x : ℕ) → (xs ++ (x ∷ [])) ++ ys ≡ xs ++ (x ∷ ys)
snoc_append [] ys x = refl
snoc_append (z ∷ xs) ys x = ap (◌∷◌ z) (snoc_append xs ys x)

pub length-snoc : (xs : List ℕ) (x : ℕ) → length (xs ++ (x ∷ [])) ≡ suc (length xs)
length-snoc [] x = refl
length-snoc (y ∷ xs) x = ap suc (length-snoc xs x)

-- Characters that fit behind `xs` are stored there.
pub poke_all-append :
    (xs rest cs : List ℕ) (i : ℕ)
    → i ≡ length xs
    → length cs ≤ length rest
    → (rest' : List ℕ) × (poke_all (xs ++ rest) i cs ≡ some (xs ++ (cs ++ rest')))
      × (length cs + length rest' ≡ length rest)
unfolding poke_all
poke_all-append xs rest [] i e h = (rest, refl, omega arith)
poke_all-append xs [] (c ∷ cs) i e h = absurd (omega arith)
poke_all-append xs (r ∷ rest) (c ∷ cs) i e h =
    let (rest', p, q) =
      poke_all-append (xs ++ (c ∷ [])) rest cs (suc i) (omega (arith, length-snoc xs c))
        (omega arith) in
    let stored : poke_all (xs ++ (c ∷ rest)) (suc i) cs ≡ some (xs ++ (c ∷ (cs ++ rest'))) =
      rw (← snoc_append xs rest c) (p ∙ ap some (snoc_append xs (cs ++ rest') c)) in
    (rest', rw (poke-append xs rest r c i e, ◌>>=◌) stored, omega (arith, q))

peek-behind :
    (front gap rest : List ℕ) (c i : ℕ)
    → i ≡ length front + length gap
    → peek (front ++ (gap ++ (c ∷ rest))) i ≡ some c
peek-behind front gap rest c i e =
    rw (← append_assoc front gap (c ∷ rest))
      (peek-append (front ++ gap) rest c i (omega (arith, length-append front gap)))

-- The text behind a gap is moved to the start of the gap.
pub move-append :
    (xs front gap rest : List ℕ) (d s : ℕ)
    → d ≡ length front
    → s ≡ length front + length gap
    → (rest' : List ℕ) × (move (length xs) d s (front ++ (gap ++ (xs ++ rest)))
        ≡ some (front ++ (xs ++ rest')))
      × (length rest' ≡ length gap + length rest)
unfolding move
move-append [] front gap rest d s e f = (gap ++ rest, refl, length-append gap rest)
move-append (x ∷ xs) front [] rest d s e f =
    let (rest', p, q) =
      move-append xs (front ++ (x ∷ [])) [] rest (suc d) (suc s)
        (omega (arith, length-snoc front x)) (omega (arith, length-snoc front x)) in
    let moved : move (length xs) (suc d) (suc s) (front ++ (x ∷ (xs ++ rest)))
        ≡ some (front ++ (x ∷ (xs ++ rest'))) =
      rw (← snoc_append front (xs ++ rest) x) (p ∙ ap some (snoc_append front (xs ++ rest') x)) in
    (
      rest',
      rw
          (
            peek-append front (xs ++ rest) x s (omega arith),
            ◌>>=◌,
            poke-append front (xs ++ rest) x x d e,
            ◌>>=◌,
          )
          moved,
      q,
    )
move-append (x ∷ xs) front (g ∷ gap) rest d s e f =
    let (rest', p, q) =
      move-append xs (front ++ (x ∷ [])) (gap ++ (x ∷ [])) rest (suc d) (suc s)
        (omega (arith, length-snoc front x))
        (omega (arith, length-snoc front x, length-snoc gap x)) in
    let moved : move (length xs) (suc d) (suc s) (front ++ (x ∷ (gap ++ (x ∷ (xs ++ rest)))))
        ≡ some (front ++ (x ∷ (xs ++ rest'))) =
      rw (← snoc_append front (gap ++ (x ∷ (xs ++ rest))) x, ← snoc_append gap (xs ++ rest) x)
        (p ∙ ap some (snoc_append front (xs ++ rest') x)) in
    (
      rest',
      rw
          (
            peek-behind front (g ∷ gap) (xs ++ rest) x s f,
            ◌>>=◌,
            poke-append front (gap ++ (x ∷ (xs ++ rest))) g x d e,
            ◌>>=◌,
          )
          moved,
      omega (arith, q, length-snoc gap x),
    )

-- A text is moved to the start of the block.
pub move_front :
    (b front xs rest : List ℕ) (n s : ℕ)
    → b ≡ front ++ (xs ++ rest)
    → n ≡ length xs
    → s ≡ length front
    → (rest' : List ℕ) × (move n 0 s b ≡ some (xs ++ rest'))
      × (length rest' ≡ length front + length rest)
move_front b front xs rest n s e f k =
    rw (e, f, k) (move-append xs [] front rest 0 (length front) refl (omega arith))
