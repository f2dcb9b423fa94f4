-- ===== src/Names/Cut.antt =====
-- What `print_name` makes of a name in a string table.
use projet_prog.Common.{
  ℕ, zero, suc, ◌^◌, ◌<◌, ◌≡◌, refl, List, [], ◌∷◌, none, some, take, drop, if◌then◌else◌, ◌==◌,
  lt→ltb, Bool-cases, inl, inr,
}
use projet_prog.Stdio.{◌>>=◌, ◌>>◌, Stream, ok, at, fseek_int}
use projet_prog.Names.{scan_char, name_loop, print_name}

-- The C string at the start of these bytes, which end it too.
unfoldable pub c_string : List ℕ → List ℕ
c_string [] = []
c_string (c ∷ l) = let rest = c_string l in if c == 0 then [] else c ∷ rest

take_nil : (n : ℕ) → take {A = ℕ} n [] ≡ []
take_nil zero = refl
take_nil (suc n) = refl

name_loop_end : (n : ℕ) (f : Stream) → name_loop n none f ≡ ok ([], f)
unfolding name_loop
name_loop_end zero f = refl
name_loop_end (suc n) f = refl

-- The loop collects a name cut at `n` characters.
name_loop-c_string :
    (n : ℕ) (f : Stream) (c : ℕ) (l : List ℕ)
    → (f' : Stream) × (name_loop n (some c) (at f l) ≡ ok (take n (c_string (c ∷ l)), f'))
      × (f'.bytes ≡ f.bytes)
unfolding scan_char name_loop c_string
name_loop-c_string zero f c l = (at f l, refl, refl)
name_loop-c_string (suc n) f c [] = elim (Bool-cases (c == 0)) [
  | inl p ↦ (at f [], rw (p, name_loop), refl)
  | inr p ↦ (at f [], rw (p, name_loop_end n (at f []), take_nil n, name_loop, ◌>>=◌), refl)
]
name_loop-c_string (suc n) f c (d ∷ l) = elim (Bool-cases (c == 0)) [
  | inl p ↦ (at f (d ∷ l), rw (p, name_loop), refl)
  | inr p ↦ let (f', e, b) = name_loop-c_string n f d l in (f', rw (p, e, name_loop, ◌>>=◌), b)
]

first_char :
    (f : Stream) (l : List ℕ)
    → (f' : Stream) × ((scan_char >>= name_loop 17) (at f l) ≡ ok (take 17 (c_string l), f'))
      × (f'.bytes ≡ f.bytes)
unfolding scan_char c_string
first_char f [] = (at f [], rw (name_loop_end 17 (at f []), ◌>>=◌), refl)
first_char f (c ∷ l) = name_loop-c_string 17 f c l

-- For an offset that is not negative as an int, `print_name` always succeeds; its result is the C
-- string at this offset of the file, cut at 17 characters, and it leaves the bytes of the file.
pub print_name-c_string :
    (offset : ℕ) (f : Stream)
    → offset < 2 ^ 31
    → (f' : Stream) × (print_name offset f ≡ ok (take 17 (c_string (drop offset f.bytes)), f'))
      × (f'.bytes ≡ f.bytes)
unfolding print_name fseek_int
print_name-c_string offset f h =
    let (f', e, b) = first_char f (drop offset f.bytes) in
    (f', rw (lt→ltb offset (2 ^ 31) h, ◌>>=◌, ◌>>◌) e, b)
