-- ===== src/Gdb/Payload.antt =====
-- The packet in which memory is sent, as a reader takes it apart.
use projet_prog.Common.{
  ℕ, ◌+◌, ◌-◌, ◌*◌, ◌/◌, ◌%◌, ◌^◌, ◌<◌, ◌≤◌, ◌≡◌, ap, ◌∙◌, List, [], ◌∷◌, ◌++◌, some, arith, length,
  length-append, ltb, if◌then◌else◌,
}
use projet_prog.Stdio.{ok}
use projet_prog.Gdb.{hex_digit, hex2, hex8, memory_payload, write_memory, escape}
use projet_prog.Gdb.Frame.{frame, sum, send_buffer-frame}
use projet_prog.Gdb.Memory.{
  escape_all, unescape, unescape-escape_all, write_memory_sends, length-escape,
}

-- The value of a hexadecimal digit.
unfoldable pub digit_value : ℕ → ℕ
digit_value c = if ltb c b'a' then c - b'0' else c - b'a' + 10

-- The number that hexadecimal digits spell, behind those that spell `n`.
unfoldable pub spelled : ℕ → List ℕ → ℕ
spelled n [] = n
spelled n (c ∷ cs) = spelled (16 * n + digit_value c) cs

digit_value-hex_digit : (d : ℕ) → d < 16 → digit_value (hex_digit d) ≡ d
unfolding digit_value hex_digit
digit_value-hex_digit d h = ground arith

spelled-hex2 : (n x : ℕ) (cs : List ℕ) → spelled n (hex2 x ++ cs) ≡ spelled (256 * n + x % 256) cs
unfolding hex2 spelled
spelled-hex2 n x cs =
    ap (λ m. spelled m cs)
      (omega (
        arith,
        digit_value-hex_digit (x / 16 % 16) (omega arith),
        digit_value-hex_digit (x % 16) (omega arith),
      ))

spelled-hex8 : (x : ℕ) → spelled 0 (hex8 x) ≡ x % 2 ^ 32
unfolding hex8 hex2 spelled
spelled-hex8 x =
    let a = 256 * 0 + x / 16777216 % 256 % 256 in
    let b = 256 * a + x / 65536 % 256 % 256 in
    let c = 256 * b + x / 256 % 256 % 256 in
    let whole : 256 * c + x % 256 % 256 ≡ x % 2 ^ 32 = omega arith in
    spelled-hex2 0 (x / 16777216 % 256)
      (hex2 (x / 65536 % 256) ++ (hex2 (x / 256 % 256) ++ hex2 (x % 256)))
    ∙ spelled-hex2 a (x / 65536 % 256) (hex2 (x / 256 % 256) ++ hex2 (x % 256))
    ∙ spelled-hex2 b (x / 256 % 256) (hex2 (x % 256))
    ∙ spelled-hex2 c (x % 256) []
    ∙ whole

length-escape_all : (cs : List ℕ) → length cs ≤ length (escape_all cs)
unfolding escape_all
length-escape_all [] = omega arith
length-escape_all (c ∷ cs) =
    omega (arith, length-append (escape c) (escape_all cs), length-escape c, length-escape_all cs)

eight : (x : ℕ) → length (hex8 x) ≡ 8
unfolding hex8 hex2
eight x = omega arith

-- The address and the length of a payload, eight digits each, and its data.
abbrev pub memory_form : List ℕ → List ℕ → List ℕ → List ℕ
memory_form at count stored = b'X' ∷ (at ++ (b',' ∷ (count ++ (b':' ∷ stored))))

-- A block of memory of at least one byte, whose escaped form has at most 1000 bytes, is sent as one
-- packet: "$", a payload, "#" and two digits of the sum of the payload. The payload is "X", eight
-- digits that spell the address, a comma, eight that spell the number of bytes, a colon, and data
-- that without the escapes are the block.
pub write_memory_reads :
    (address c : ℕ) (cs : List ℕ)
    → address < 2 ^ 32
    → length (escape_all (c ∷ cs)) ≤ 1000
    → (at count stored : List ℕ) × (write_memory address (c ∷ cs)
        ≡ some (
            ok
              (frame (memory_form at count stored) (sum (memory_form at count stored) % 256) ∷ [])))
      × (length at ≡ 8)
      × (spelled 0 at ≡ address)
      × (length count ≡ 8)
      × (spelled 0 count ≡ length (c ∷ cs))
      × (unescape stored ≡ c ∷ cs)
unfolding memory_payload
write_memory_reads address c cs small h =
    let (p, sent, framed) = write_memory_sends address c cs h in
    let stored = escape_all (c ∷ cs) in
    let whole : p
        ≡ frame (memory_form (hex8 address) (hex8 (length (c ∷ cs))) stored)
            (sum (memory_form (hex8 address) (hex8 (length (c ∷ cs))) stored) % 256) =
      send_buffer-frame (memory_payload address (length (c ∷ cs)) stored) framed in
    (
      hex8 address,
      hex8 (length (c ∷ cs)),
      stored,
      sent ∙ ap (λ q. some (ok (q ∷ []))) whole,
      eight address,
      omega (arith, spelled-hex8 address),
      eight (length (c ∷ cs)),
      omega (arith, spelled-hex8 (length (c ∷ cs)), length-escape_all (c ∷ cs)),
      unescape-escape_all (c ∷ cs),
    )
