-- ===== src/Scanner/Stack/Slots.antt =====
-- Writes to the arrays of pointers of the scanner and to its characters.
use projet_prog.Common.{
  ℕ, zero, suc, ◌<◌, ◌≡◌, refl, ap, ◌≢◌, Option, none, some, List, [], ◌∷◌, ◌++◌, get_or, set,
  length, arith,
}
use projet_prog.Scanner.Buffer.Block.{◌>>=◌, peek, poke}
use projet_prog.Scanner.Stack.State.{put}

-- The array behind the write, with what is read from it.
pub record Written {ℓ} {A : Type ℓ} (xs : List A) (i : ℕ) (v d : A) : Type ℓ where
  pub array : List A
  pub writes : put xs i v ≡ some array
  pub here : get_or array i d ≡ v
  pub elsewhere : (j : ℕ) → j ≢ i → get_or array j d ≡ get_or xs j d
  pub same_length : length array ≡ length xs
  pub is_set : array ≡ set xs i v

module _ {ℓ} {A : Type ℓ} where
  pub put_lem : (xs : List A) (i : ℕ) (v d : A) → i < length xs → Written xs i v d
  unfolding put
  put_lem [] i v d h = absurd (omega arith)
  put_lem (x ∷ xs) zero v d h = record {
    array = v ∷ xs;
    writes = refl;
    here = refl;
    elsewhere = behind;
    same_length = refl;
    is_set = refl;
  }
    where
      behind : (j : ℕ) → j ≢ 0 → get_or (v ∷ xs) j d ≡ get_or (x ∷ xs) j d
      behind zero n = absurd (n refl)
      behind (suc j) n = refl
  put_lem (x ∷ xs) (suc i) v d h =
      let w = put_lem xs i v d (omega arith) in
      record {
        array = x ∷ w.array;
        writes = rw (w.writes, ◌>>=◌);
        here = w.here;
        elsewhere = behind w.array w.elsewhere;
        same_length = ap suc w.same_length;
        is_set = ap (◌∷◌ x) w.is_set;
      }
    where
      behind :
          (ys : List A)
          → ((j : ℕ) → j ≢ i → get_or ys j d ≡ get_or xs j d)
          → (j : ℕ) → j ≢ suc i
          → get_or (x ∷ ys) j d ≡ get_or (x ∷ xs) j d
      behind ys f zero n = refl
      behind ys f (suc j) n = f j (λ e. n (ap suc e))

  pub get_or-append :
      (xs ys : List A) (i : ℕ) (d : A) → i < length xs → get_or (xs ++ ys) i d ≡ get_or xs i d
  get_or-append [] ys i d h = absurd (omega arith)
  get_or-append (x ∷ xs) ys zero d h = refl
  get_or-append (x ∷ xs) ys (suc i) d h = get_or-append xs ys i d (omega arith)

  pub put-append :
      (xs : List A) (x v : A) → put (xs ++ (x ∷ [])) (length xs) v ≡ some (xs ++ (v ∷ []))
  unfolding put
  put-append [] x v = refl
  put-append (y ∷ xs) x v = rw (put-append xs x v, ◌>>=◌) refl

  pub get_or-last : (xs : List A) (x d : A) → get_or (xs ++ (x ∷ [])) (length xs) d ≡ x
  get_or-last [] x d = refl
  get_or-last (y ∷ xs) x d = get_or-last xs x d

  pub set-append : (xs : List A) (x v : A) → set (xs ++ (x ∷ [])) (length xs) v ≡ xs ++ (v ∷ [])
  set-append [] x v = refl
  set-append (y ∷ xs) x v = ap (◌∷◌ y) (set-append xs x v)

  -- What is not the default is within the array.
  pub get_or_within :
      (xs : List (Option A)) (i : ℕ) (v : A) → get_or xs i none ≡ some v → i < length xs
  get_or_within [] i v e = cc
  get_or_within (x ∷ xs) zero v e = omega arith
  get_or_within (x ∷ xs) (suc i) v e = omega (arith, get_or_within xs i v e)

-- A character that is stored is read back.
pub poke-peek :
    (cs : List ℕ) (i v : ℕ)
    → i < length cs
    → (cs' : List ℕ) × (poke cs i v ≡ some cs') × (peek cs' i ≡ some v)
unfolding poke peek
poke-peek [] i v h = absurd (omega arith)
poke-peek (c ∷ cs) zero v h = (v ∷ cs, refl, refl)
poke-peek (c ∷ cs) (suc i) v h =
    let (cs', p, q) = poke-peek cs i v (omega arith) in (c ∷ cs', rw p, q)
