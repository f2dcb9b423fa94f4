-- ===== src/Gdb/Frame.antt =====
-- The checksum of a packet: what is sent passes the check of the receiver, and a changed byte of
-- the payload does not.
use projet_prog.Common.{
  ℕ, suc, ◌+◌, ◌-◌, ◌/◌, ◌%◌, ◌<◌, ◌≤◌, ◌≡◌, refl, ap, ◌∙◌, List, [], ◌∷◌, ◌++◌, some, arith,
  length, take, drop, true, length-append, ◌==◌, eq→==,
}
use projet_prog.Stdio.{ok, fault}
use projet_prog.Gdb.{hex_digit, hex2, hex_value, scan_hex, checksum, send_buffer, packet_check}

abbrev pub sum : List ℕ → ℕ
sum [] = 0
sum (x ∷ xs) = x + sum xs

-- The frame that is put round a payload.
abbrev pub frame : List ℕ → ℕ → List ℕ
frame payload check = b'$' ∷ (payload ++ (b'#' ∷ hex2 check))

pub sum-append : (xs ys : List ℕ) → sum (xs ++ ys) ≡ sum xs + sum ys
sum-append [] ys = omega arith
sum-append (x ∷ xs) ys = omega (arith, sum-append xs ys)

checksum-sum : (c : ℕ) (xs : List ℕ) → c < 256 → checksum c xs ≡ (c + sum xs) % 256
unfolding checksum
checksum-sum c [] h = omega arith
checksum-sum c (x ∷ xs) h = omega (arith, checksum-sum ((c + x) % 256) xs (omega arith))

checksum_zero : (xs : List ℕ) → checksum 0 xs ≡ sum xs % 256
checksum_zero xs = omega (arith, checksum-sum 0 xs (omega arith))

hex_value-hex_digit : (d : ℕ) → d < 16 → hex_value (hex_digit d) ≡ some d
unfolding hex_value hex_digit
hex_value-hex_digit d h = ground arith

scan_hex-hex2 : (c : ℕ) → c < 256 → scan_hex (hex2 c) 0 ≡ c
unfolding scan_hex hex2
scan_hex-hex2 c h =
    rw
      (
        hex_value-hex_digit (c / 16 % 16) (omega arith),
        hex_value-hex_digit (c % 16) (omega arith),
        scan_hex,
      )
      (omega arith)

take-append : (xs ys : List ℕ) → take (length xs) (xs ++ ys) ≡ xs
take-append [] ys = refl
take-append (x ∷ xs) ys = ap (◌∷◌ x) (take-append xs ys)

drop-past : (xs ys : List ℕ) (y : ℕ) → drop (suc (length xs)) (xs ++ (y ∷ ys)) ≡ ys
drop-past [] ys y = refl
drop-past (x ∷ xs) ys y = drop-past xs ys y

-- The receiver compares the sum of a payload with the two digits of its frame.
pub packet_check-frame :
    (payload : List ℕ) (check : ℕ)
    → check < 256
    → packet_check (frame payload check) ≡ (sum payload % 256 == check)
unfolding packet_check hex2
packet_check-frame payload check h =
    let tail = b'#' ∷ hex2 check in
    let e : suc (length (payload ++ tail)) - 4 ≡ length payload =
      omega (arith, length-append payload tail) in
    let e' : length payload + 2 ≡ suc (suc (length payload)) = omega arith in
    rw (
      e,
      e',
      take-append payload tail,
      drop-past payload (hex2 check) b'#',
      checksum_zero payload,
      scan_hex-hex2 check h,
    )

pub send_buffer-frame :
    (payload : List ℕ) {packet : List ℕ}
    → send_buffer payload ≡ ok packet
    → packet ≡ frame payload (sum payload % 256)
unfolding send_buffer
send_buffer-frame payload e = ground (arith, checksum_zero payload)

-- A payload of at most 1019 bytes is sent as a packet that the receiver acknowledges.
pub packet_check-send_buffer :
    (payload : List ℕ)
    → length payload ≤ 1019
    → (packet : List ℕ) × (send_buffer payload ≡ ok packet) × (packet_check packet ≡ true)
packet_check-send_buffer payload h = (
  frame payload (sum payload % 256),
  unfold send_buffer in ground (arith, checksum_zero payload),
  packet_check-frame payload (sum payload % 256) (omega arith) ∙ eq→== _ _ refl,
)

-- A longer payload makes the program write behind its packet.
pub send_buffer_long : (payload : List ℕ) → 1019 < length payload → send_buffer payload ≡ fault
send_buffer_long payload h = unfold send_buffer in ground arith
