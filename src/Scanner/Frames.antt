-- ===== src/Scanner/Frames.antt =====
-- The packets that the program sends, read by its own scanner.
use mathlib.Core.List.{append_assoc}
use projet_prog.Common.{
  All-append, ℕ, ◌%◌, ◌/◌, ◌<◌, ◌≡◌, ◌≢◌, refl, ◌∙◌, true, false, some, List, [], ◌∷◌, ◌++◌, All,
  arith, ◌==◌, eq→==,
}
use projet_prog.Common.Words.{IsByte}
use projet_prog.Stdio.{ok}
use projet_prog.Gdb.{hex_digit, hex2, send_buffer, packet_check}
use projet_prog.Gdb.Frame.{frame, sum, send_buffer-frame, packet_check-frame}
use projet_prog.Scanner.{Token, packet, tokens}
use projet_prog.Scanner.Rules.{is_hex, hex_pair, frame_end, frame_token, first_token}
use projet_prog.Scanner.Refines.{tokens_first}

-- A character that stands for itself in a payload.
abbrev pub IsPlain : ℕ → Type 0
IsPlain c = IsByte c × (c ≢ b'$') × (c ≢ b'#')

is_hex-hex_digit : (d : ℕ) → d < 16 → is_hex (hex_digit d) ≡ true
unfolding is_hex hex_digit
is_hex-hex_digit d h = ground arith

pub hex_digit-IsPlain : (d : ℕ) → d < 16 → IsPlain (hex_digit d)
unfolding hex_digit
hex_digit-IsPlain d h = ground arith

frame_end-payload :
    (payload cs : List ℕ) (a b : ℕ)
    → All IsPlain payload
    → is_hex a ≡ true
    → is_hex b ≡ true
    → frame_end (payload ++ (b'#' ∷ a ∷ b ∷ cs)) ≡ some (payload ++ (b'#' ∷ a ∷ b ∷ []), cs)
unfolding frame_end hex_pair
frame_end-payload [] cs a b w p q = rw (p, q)
frame_end-payload (c ∷ payload) cs a b ((_, not_dollar, not_hash), w) p q =
    rw (ne→== c b'#' not_hash, ne→== c b'$' not_dollar, frame_end-payload payload cs a b w p q)
  where
    ne→== : (x y : ℕ) → x ≢ y → (x == y) ≡ false
    ne→== x y n = ground arith

abbrev closing : ℕ → List ℕ
closing check = b'#' ∷ hex2 check

first_token-frame :
    (payload cs : List ℕ) (check : ℕ)
    → All IsPlain payload
    → first_token b'$' ((payload ++ closing check) ++ cs) ≡ (packet (frame payload check), cs)
unfolding first_token frame_token hex2
first_token-frame payload cs check w = rw (
  append_assoc payload (b'#' ∷ hex_digit (check / 16 % 16) ∷ hex_digit (check % 16) ∷ []) cs,
  frame_end-payload payload cs (hex_digit (check / 16 % 16)) (hex_digit (check % 16)) w
      (is_hex-hex_digit (check / 16 % 16) (omega arith))
      (is_hex-hex_digit (check % 16) (omega arith)),
)

pub frame-bytes :
    (payload : List ℕ) (check : ℕ) → All IsPlain payload → All IsByte (payload ++ closing check)
unfolding hex2
frame-bytes [] check w = (
  omega arith,
  (
    (hex_digit-IsPlain (check / 16 % 16) (omega arith)).0,
    ((hex_digit-IsPlain (check % 16) (omega arith)).0, tt),
  ),
)
frame-bytes (c ∷ payload) check (p, w) = (p.0, frame-bytes payload check w)

pub tokens-frame :
    (payload cs : List ℕ) (check : ℕ) (ts : List Token)
    → All IsPlain payload
    → All IsByte cs
    → tokens cs ≡ some ts
    → tokens (frame payload check ++ cs) ≡ some (packet (frame payload check) ∷ ts)
tokens-frame payload cs check ts w v e =
    tokens_first b'$' ((payload ++ closing check) ++ cs) cs (packet (frame payload check)) ts
      (omega arith, All-append IsByte (payload ++ closing check) cs (frame-bytes payload check w) v)
      v (first_token-frame payload cs check w) e

-- A packet that `send_buffer` makes of a payload without "$" and "#" is one token for the scanner,
-- whatever else follows, and that passes the check of its checksum.
pub tokens-send_buffer :
    (payload cs : List ℕ) (p : List ℕ) (ts : List Token)
    → All IsPlain payload
    → All IsByte cs
    → send_buffer payload ≡ ok p
    → tokens cs ≡ some ts
    → (tokens (p ++ cs) ≡ some (packet p ∷ ts)) × (packet_check p ≡ true)
tokens-send_buffer payload cs p ts w v sent e =
    let check : ℕ = sum payload % 256 in
    rw (send_buffer-frame payload sent) (
      tokens-frame payload cs check ts w v e,
      packet_check-frame payload check (omega arith) ∙ eq→== _ _ refl,
    )
