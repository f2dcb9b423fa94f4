-- ===== src/Stdio.antt =====
-- The part of <stdio.h> that the program uses: a source stream, a destination stream, and the
-- ways in which a C function ends.
pub mod Gives
pub mod Outcomes
pub mod Takes
use mathlib.Core.List.{append-nil, append_assoc}
use projet_prog.Common.{
  ℕ, zero, suc, ◌^◌, ◌≡◌, refl, sym, Option, none, some, List, [], ◌∷◌, ◌++◌, arith, inl, inr, ltb,
  if◌then◌else◌, length, drop, Option-cases,
}

-- `exit` is exit(1). `fault` is undefined behaviour of C: a null or wild pointer, an access
-- outside an array.
pub data Outcome {ℓ} (A : Type ℓ) : Type ℓ where
  ok : A → Outcome A
  exit : Outcome A
  fault : Outcome A

-- A stream open for reading: all its bytes, and those from the current position on.
pub record Stream : Type 0 where
  pub bytes : List ℕ
  pub rest : List ℕ

abbrev pub M : Type 0 → Type 0
M A = Stream → Outcome (A × Stream)

abbrev pub pure : {A : Type 0} → A → M A
pure a f = ok (a, f)

infixl 5 ◌>>=◌ ◌>>◌
abbrev pub ◌>>=◌ : {A B : Type 0} → M A → (A → M B) → M B
◌>>=◌ m k f = elim (m f) [ ok (a, f') ↦ k a f' | exit ↦ exit | fault ↦ fault ]

abbrev pub ◌>>◌ : {B : Type 0} → M (Unit {0}) → M B → M B
m >> k = m >>= λ _. k

abbrev pub stop : {A : Type 0} → M A
stop f = exit

abbrev pub crash : {A : Type 0} → M A
crash f = fault

-- The first `n` elements and the others, if there are `n`.
unfoldable pub split : ℕ → List ℕ → Option (List ℕ × List ℕ)
split zero l = some ([], l)
split (suc n) [] = none
split (suc n) (b ∷ l) =
    let more = split n l in elim more [ none ↦ none | some (front, rest) ↦ some (b ∷ front, rest) ]

-- fread(p, n, 1, f): `none` where it does not return 1, which leaves the stream at its end.
unfoldable pub fread : ℕ → M (Option (List ℕ))
unfolding split
fread n f = elim (split n f.rest) [
  | none ↦ ok (none, record f { rest = [] })
  | some (front, rest) ↦ ok (some front, record f { rest = rest })
]

-- `if (fread(p, n, 1, f) != 1) exit(1);`
unfoldable pub fread_or_exit : ℕ → M (List ℕ)
unfolding split
fread_or_exit n f = elim (split n f.rest) [
  | none ↦ exit
  | some (front, rest) ↦ ok (front, record f { rest = rest })
]

-- fseek(f, offset, SEEK_SET) with an unsigned offset.
unfoldable pub fseek : ℕ → M (Unit {0})
fseek offset f = ok (tt, record f { rest = drop offset f.bytes })

-- The same with an offset of type int, given by its 32 bits: a negative one moves nothing.
unfoldable pub fseek_int : ℕ → M (Unit {0})
fseek_int offset f =
    if ltb offset (2 ^ 31) then ok (tt, record f { rest = drop offset f.bytes }) else ok (tt, f)

-- A stream with its position moved to the bytes `l`.
abbrev pub at : Stream → List ℕ → Stream
at f l = record f { rest = l }

-- A bind whose first part succeeds goes on with what that returned.
pub bind_ok :
    {A B : Type 0} (m : M A) (k : A → M B) {f f' : Stream} {a : A} {o : Outcome (B × Stream)}
    → m f ≡ ok (a, f')
    → k a f' ≡ o
    → (m >>= k) f ≡ o
bind_ok m k p q = rw (p, ◌>>=◌) q

-- A bind that succeeds is made of two successes.
pub bind_inv :
    {A B : Type 0} (m : M A) (k : A → M B) (f : Stream) {b : B × Stream}
    → (m >>= k) f ≡ ok b
    → (a : A) × (f' : Stream) × (m f ≡ ok (a, f')) × (k a f' ≡ ok b)
bind_inv {A} {B} m k f {b} e = bind_result (m f) e
  where
    bind_result :
        (o : Outcome (A × Stream))
        → (elim o as (λ _. Outcome (B × Stream)) [
          | ok (a, f') ↦ k a f'
          | exit ↦ exit
          | fault ↦ fault
        ])
          ≡ ok b
        → (a : A) × (f' : Stream) × (o ≡ ok (a, f')) × (k a f' ≡ ok b)
    bind_result (ok (a, f')) q = (a, f', refl, q)
    bind_result exit q = cc
    bind_result fault q = cc

pub split-append : (front rest : List ℕ) → split (length front) (front ++ rest) ≡ some (front, rest)
unfolding split
split-append [] rest = refl
split-append (b ∷ front) rest = ground (arith, split-append front rest)

pub fread_or_exit-append :
    (f : Stream) (front rest : List ℕ)
    → fread_or_exit (length front) (at f (front ++ rest)) ≡ ok (front, at f rest)
unfolding fread_or_exit
fread_or_exit-append f front rest = rw (split-append front rest, fread_or_exit)

-- What `split` returns is the list that it was given, and the first part has the length asked for.
pub split_inv :
    (n : ℕ) (l front rest : List ℕ)
    → split n l ≡ some (front, rest)
    → (l ≡ front ++ rest) × (length front ≡ n)
unfolding split
split_inv zero l front rest e = ground arith
split_inv (suc n) [] front rest e = ground arith
split_inv (suc n) (b ∷ l) front rest e = elim (Option-cases (split n l)) [
  | inl z ↦ ground arith
  | inr ((fr, r), z) ↦ ground (arith, split_inv n l fr r z)
]

-- A stream open for writing: the bytes before the position and those behind it.
pub record Dest : Type 0 where
  pub before : List ℕ
  pub behind : List ℕ

-- fseek(f, 0, SEEK_SET)
unfoldable pub rewind : Dest → Dest
rewind d = record { before = []; behind = d.before ++ d.behind }

-- fwrite of these bytes, over what stands behind the position.
unfoldable pub fwrite : List ℕ → Dest → Dest
fwrite bs d = record { before = d.before ++ bs; behind = drop (length bs) d.behind }

-- A row of calls of fwrite.
unfoldable pub write_chunks : List (List ℕ) → Dest → Dest
unfolding fwrite
write_chunks [] d = d
write_chunks (c ∷ cs) d = write_chunks cs (fwrite c d)

-- The bytes that a row of calls sends.
abbrev pub flatten : List (List ℕ) → List ℕ
flatten [] = []
flatten (c ∷ cs) = c ++ flatten cs

pub before-write_chunks :
    (cs : List (List ℕ)) (d : Dest) → (write_chunks cs d).before ≡ d.before ++ flatten cs
unfolding write_chunks
before-write_chunks [] d = sym (append-nil d.before)
before-write_chunks (c ∷ cs) d = rw (before-write_chunks cs, append_assoc)

-- The same in front of other bytes, nested to the right.
abbrev pub chain : List (List ℕ) → List ℕ → List ℕ
chain [] r = r
chain (c ∷ cs) r = c ++ chain cs r

pub flatten-chain : (cs : List (List ℕ)) (r : List ℕ) → flatten cs ++ r ≡ chain cs r
flatten-chain [] r = refl
flatten-chain (c ∷ cs) r = rw (append_assoc, flatten-chain cs r)
