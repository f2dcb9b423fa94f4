-- ===== src/Stdio/Takes.antt =====
-- Actions on a source stream that take a fixed number of bytes.
use projet_prog.Common.{
  ℕ, zero, suc, ◌+◌, ◌<◌, ◌≤◌, ◌≡◌, refl, List, [], ◌∷◌, some, none, arith, length, Bool-cases, inl,
  inr, ltb, ltb→lt, ltb→ge,
}
use projet_prog.Stdio.{Stream, ok, exit, M, pure, ◌>>=◌, at, split, fread_or_exit}

-- `m` takes `n` bytes: it exits where there are fewer, and otherwise succeeds behind them, with a
-- result of which `P` holds.
abbrev pub Takes : {A : Type 0} → ℕ → M A → (A → Type 0) → Type 0
Takes {A} n m P =
    (f : Stream)
    → (length f.rest < n → m f ≡ exit)
      × (n ≤ length f.rest
          → (a : A) × (f' : Stream) × (m f ≡ ok (a, f'))
            × (length f'.rest + n ≡ length f.rest)
            × P a)

-- Where nothing is to be said of the results.
abbrev pub Any : {A : Type 0} → A → Type 0
Any _ = Unit {0}

split_short : (n : ℕ) (l : List ℕ) → length l < n → split n l ≡ none
unfolding split
split_short zero l h = absurd (omega arith)
split_short (suc n) [] h = refl
split_short (suc n) (b ∷ l) h = ground (arith, split_short n l)

split_long :
    (n : ℕ) (l : List ℕ)
    → n ≤ length l
    → (front : List ℕ) × (rest : List ℕ) × (split n l ≡ some (front, rest))
      × (length rest + n ≡ length l)
unfolding split
split_long zero l h = ([], l, refl, omega arith)
split_long (suc n) [] h = absurd (omega arith)
split_long (suc n) (b ∷ l) h =
    let (front, rest, e, k) = split_long n l (omega arith) in (b ∷ front, rest, rw e, omega arith)

pub fread_or_exit-Takes : (n : ℕ) → Takes n (fread_or_exit n) Any
unfolding fread_or_exit
fread_or_exit-Takes n f = (
  λ h. rw (split_short n f.rest h, fread_or_exit),
  λ h.
      let (front, rest, e, k) = split_long n f.rest h in
      (front, at f rest, rw (e, fread_or_exit), k, tt),
)

pub pure-Takes : {A : Type 0} {P : A → Type 0} (a : A) → P a → Takes 0 (pure a) P
pure-Takes a p f = (λ h. absurd (omega arith), λ h. (a, f, refl, omega arith, p))

pub bind-Takes :
    {A B : Type 0} {P : A → Type 0} {Q : B → Type 0} (n k : ℕ) (m : M A) (g : A → M B)
    → Takes n m P
    → ((a : A) → P a → Takes k (g a) Q)
    → Takes (n + k) (m >>= g) Q
bind-Takes {B = B} {Q = Q} n k m g h hg f = (λ l. short l, λ l. long l)
  where
    short : length f.rest < n + k → (m >>= g) f ≡ exit
    short l = elim (Bool-cases (ltb (length f.rest) n)) [
      | inl p ↦ rw ((h f).0 (ltb→lt (length f.rest) n p), ◌>>=◌)
      | inr p ↦
          let (a, f', e, r, p) = (h f).1 (ltb→ge (length f.rest) n p) in
          rw (e, ◌>>=◌) ((hg a p f').0 (omega arith))
    ]

    long :
        n + k ≤ length f.rest
        → (b : B) × (f' : Stream) × ((m >>= g) f ≡ ok (b, f'))
          × (length f'.rest + (n + k) ≡ length f.rest)
          × Q b
    long l =
        let (a, f', e, r, p) = (h f).1 (omega arith) in
        let (b, f'', e', r', q) = (hg a p f').1 (omega arith) in
        (b, f'', rw (e, ◌>>=◌) e', omega arith, q)
