-- ===== src/Scanner/Rules.antt =====
-- The rules of scanner.l, read off its patterns: the text that each rule matches, the longest one
-- where there are two.
use projet_prog.Common.{
  ℕ, zero, suc, Bool, ◌&&◌, ◌||◌, Option, none, some, List, [], ◌∷◌, leb, ◌==◌, if◌then◌else◌,
}
use projet_prog.Scanner.{Token, ack, nack, newline, packet, other}

-- HEX
unfoldable pub is_hex : ℕ → Bool
is_hex c = (leb 48 c && leb c 57) || ((leb 65 c && leb c 70) || (leb 97 c && leb c 102))

-- {HEX}{HEX}, with what stands behind.
unfoldable pub hex_pair : List ℕ → Option (List ℕ × List ℕ)
hex_pair [] = none
hex_pair (a ∷ []) = none
hex_pair (a ∷ b ∷ cs) = if is_hex a && is_hex b then some (a ∷ b ∷ [], cs) else none

-- A character in front of a match.
abbrev pub put_front : ℕ → Option (List ℕ × List ℕ) → Option (List ℕ × List ℕ)
put_front c none = none
put_front c (some (text, rest)) = some (c ∷ text, rest)

-- [^$#]*"#"{HEX}{HEX}, with what stands behind.
unfoldable pub frame_end : List ℕ → Option (List ℕ × List ℕ)
unfolding hex_pair
frame_end [] = none
frame_end (c ∷ cs) =
    let more = frame_end cs in
    if c == b'#' then put_front c (hex_pair cs) else if c == b'$' then none else put_front c more

-- The packet rule, or that of a single character where it does not match.
unfoldable pub frame_token : ℕ → List ℕ → Option (List ℕ × List ℕ) → Token × List ℕ
frame_token c cs none = (other c, cs)
frame_token c cs (some (text, rest)) = (packet (c ∷ text), rest)

-- The rule that applies to a text, and what stands behind its match.
unfoldable pub first_token : ℕ → List ℕ → Token × List ℕ
first_token c cs =
    if c == b'+'
    then (ack, cs)
    else if c == b'-'
    then (nack, cs)
    else if c == b'$'
    then frame_token c cs (frame_end cs)
    else if c == 10
    then (newline, cs)
    else (other c, cs)

unfoldable pub tokenize : ℕ → List ℕ → Option (List Token)
tokenize fuel [] = some []
tokenize zero (c ∷ cs) = none
tokenize (suc fuel) (c ∷ cs) =
    let t = first_token c cs in elim (tokenize fuel t.1) [ none ↦ none | some ts ↦ some (t.0 ∷ ts) ]
