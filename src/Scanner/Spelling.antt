-- ===== src/Scanner/Spelling.antt =====
-- The characters that a token was made of.
use projet_prog.Common.{
  ℕ, ◌≤◌, ◌≡◌, refl, ap, ◌&&◌, none, some, Option, List, [], ◌∷◌, ◌++◌, length, length-append,
  Bool-cases, inl, inr, arith, ◌==◌, ==→eq,
}
use projet_prog.Scanner.{Token, ack, nack, newline, packet, other}
use projet_prog.Scanner.Rules.{is_hex, hex_pair, put_front, frame_end, frame_token, first_token}

unfoldable pub spell : Token → List ℕ
spell ack = b'+' ∷ []
spell nack = b'-' ∷ []
spell newline = 10 ∷ []
spell (packet text) = text
spell (other c) = c ∷ []

unfoldable pub spell_all : List Token → List ℕ
unfolding spell
spell_all [] = []
spell_all (t ∷ ts) = spell t ++ spell_all ts

-- A match and what stands behind it are the text.
abbrev IsSplit : List ℕ → Option (List ℕ × List ℕ) → Type 0
IsSplit cs none = Unit {0}
IsSplit cs (some (text, rest)) = text ++ rest ≡ cs

put_front-IsSplit :
    (c : ℕ) (cs : List ℕ) (o : Option (List ℕ × List ℕ))
    → IsSplit cs o
    → IsSplit (c ∷ cs) (put_front c o)
put_front-IsSplit c cs none h = tt
put_front-IsSplit c cs (some (text, rest)) h = ap (◌∷◌ c) h

hex_pair-IsSplit : (cs : List ℕ) → IsSplit cs (hex_pair cs)
unfolding hex_pair
hex_pair-IsSplit [] = tt
hex_pair-IsSplit (a ∷ []) = tt
hex_pair-IsSplit (a ∷ b ∷ cs) = elim (Bool-cases (is_hex a && is_hex b)) [
  | inl p ↦ rw p refl
  | inr p ↦ rw p tt
]

frame_end-IsSplit : (cs : List ℕ) → IsSplit cs (frame_end cs)
unfolding frame_end
frame_end-IsSplit [] = tt
frame_end-IsSplit (c ∷ cs) = elim (Bool-cases (c == b'#')) [
  | inl p ↦ rw p (put_front-IsSplit c cs (hex_pair cs) (hex_pair-IsSplit cs))
  | inr p ↦ elim (Bool-cases (c == b'$')) [
    | inl q ↦ rw (p, q) tt
    | inr q ↦ rw (p, q) (put_front-IsSplit c cs (frame_end cs) (frame_end-IsSplit cs))
  ]
]

spell-frame_token :
    (c : ℕ) (cs : List ℕ) (o : Option (List ℕ × List ℕ))
    → IsSplit cs o
    → spell (frame_token c cs o).0 ++ (frame_token c cs o).1 ≡ c ∷ cs
unfolding spell frame_token
spell-frame_token c cs none h = refl
spell-frame_token c cs (some (text, rest)) h = ap (◌∷◌ c) h

pub spell-first_token :
    (c : ℕ) (cs : List ℕ) → spell (first_token c cs).0 ++ (first_token c cs).1 ≡ c ∷ cs
unfolding first_token
spell-first_token c cs = elim (Bool-cases (c == b'+')) [
  | inl p ↦ unfold spell in rw (p, ==→eq c b'+' p)
  | inr p ↦ elim (Bool-cases (c == b'-')) [
    | inl q ↦ unfold spell in rw (p, q, ==→eq c b'-' q)
    | inr q ↦ elim (Bool-cases (c == b'$')) [
      | inl r ↦ rw (p, q, r) (spell-frame_token c cs (frame_end cs) (frame_end-IsSplit cs))
      | inr r ↦ elim (Bool-cases (c == 10)) [
        | inl s ↦ unfold spell in rw (p, q, r, s, ==→eq c 10 s)
        | inr s ↦ unfold spell in rw (p, q, r, s)
      ]
    ]
  ]
]

length-frame_token :
    (c : ℕ) (cs : List ℕ) (o : Option (List ℕ × List ℕ))
    → IsSplit cs o
    → length (frame_token c cs o).1 ≤ length cs
unfolding frame_token
length-frame_token c cs none h = omega arith
length-frame_token c cs (some (text, rest)) h =
    let same : length (text ++ rest) ≡ length cs = ap length h in
    omega (arith, length-append text rest)

pub length-first_token : (c : ℕ) (cs : List ℕ) → length (first_token c cs).1 ≤ length cs
unfolding first_token
length-first_token c cs = elim (Bool-cases (c == b'+')) [
  | inl p ↦ rw p (omega arith)
  | inr p ↦ elim (Bool-cases (c == b'-')) [
    | inl q ↦ rw (p, q) (omega arith)
    | inr q ↦ elim (Bool-cases (c == b'$')) [
      | inl r ↦ rw (p, q, r) (length-frame_token c cs (frame_end cs) (frame_end-IsSplit cs))
      | inr r ↦ ground (arith, p, q, r)
    ]
  ]
]
