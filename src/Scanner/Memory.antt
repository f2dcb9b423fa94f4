-- ===== src/Scanner/Memory.antt =====
-- The packet in which memory is sent, read by the scanner: the escapes leave no "$" and no "#".
use projet_prog.Common.{
  ℕ, ◌/◌, ◌%◌, ◌≤◌, ◌≡◌, List, [], ◌∷◌, ◌++◌, some, arith, length, All, All-append, true,
  Bool-cases, inl, inr, ◌==◌, ==→eq, ==→ne,
}
use projet_prog.Common.Words.{IsByte}
use projet_prog.Stdio.{ok}
use projet_prog.Gdb.{escape, hex2, hex8, memory_payload, write_memory, send_buffer, packet_check}
use projet_prog.Gdb.Memory.{escape_all, unescape, unescape-escape_all, write_memory_sends}
use projet_prog.Scanner.{Token, packet, tokens}
use projet_prog.Scanner.Frames.{IsPlain, hex_digit-IsPlain, tokens-send_buffer}

escape-IsPlain : (c : ℕ) → IsByte c → All IsPlain (escape c)
unfolding escape
escape-IsPlain c h = elim (Bool-cases (c == b'$')) [
  | inl p ↦
      rw (==→eq c b'$' p)
        ((omega arith, omega arith, omega arith), ((omega arith, omega arith, omega arith), tt))
  | inr p ↦ elim (Bool-cases (c == b'#')) [
    | inl q ↦
        rw (==→eq c b'#' q)
          ((omega arith, omega arith, omega arith), ((omega arith, omega arith, omega arith), tt))
    | inr q ↦ elim (Bool-cases (c == 0x7d)) [
      | inl r ↦
          rw (==→eq c 0x7d r)
            ((omega arith, omega arith, omega arith), ((omega arith, omega arith, omega arith), tt))
      | inr r ↦ rw (p, q, r) ((h, ==→ne c b'$' p, ==→ne c b'#' q), tt)
    ]
  ]
]

escape_all-IsPlain : (cs : List ℕ) → All IsByte cs → All IsPlain (escape_all cs)
unfolding escape_all
escape_all-IsPlain [] w = tt
escape_all-IsPlain (c ∷ cs) (h, w) =
    All-append IsPlain (escape c) (escape_all cs) (escape-IsPlain c h) (escape_all-IsPlain cs w)

hex2-IsPlain : (x : ℕ) → All IsPlain (hex2 x)
unfolding hex2
hex2-IsPlain x =
    (hex_digit-IsPlain (x / 16 % 16) (omega arith), (hex_digit-IsPlain (x % 16) (omega arith), tt))

hex8-IsPlain : (x : ℕ) → All IsPlain (hex8 x)
unfolding hex8
hex8-IsPlain x =
    All-append IsPlain (hex2 (x / 16777216 % 256)) _ (hex2-IsPlain (x / 16777216 % 256)) (
      All-append IsPlain (hex2 (x / 65536 % 256)) _ (hex2-IsPlain (x / 65536 % 256)) (
        All-append IsPlain (hex2 (x / 256 % 256)) _ (hex2-IsPlain (x / 256 % 256))
          (hex2-IsPlain (x % 256))))

memory_payload-IsPlain :
    (address n : ℕ) (stored : List ℕ)
    → All IsPlain stored
    → All IsPlain (memory_payload address n stored)
unfolding memory_payload
memory_payload-IsPlain address n stored w = (
  (omega arith, omega arith, omega arith),
  All-append IsPlain (hex8 address) _ (hex8-IsPlain address) (
    (omega arith, omega arith, omega arith),
    All-append IsPlain (hex8 n) _ (hex8-IsPlain n) ((omega arith, omega arith, omega arith), w),
  ),
)

-- A block of bytes whose escaped form has at most 1000 bytes is sent in one packet, under its address
-- and its length. For the scanner this packet is one token, whatever bytes are in the block and
-- whatever follows; it passes the check of its checksum, and without the escapes its data are the
-- bytes of the block.
pub tokens-write_memory :
    (address c : ℕ) (cs rest : List ℕ) (ts : List Token)
    → All IsByte (c ∷ cs)
    → length (escape_all (c ∷ cs)) ≤ 1000
    → All IsByte rest
    → tokens rest ≡ some ts
    → (p stored : List ℕ) × (write_memory address (c ∷ cs) ≡ some (ok (p ∷ [])))
      × (send_buffer (memory_payload address (length (c ∷ cs)) stored) ≡ ok p)
      × (tokens (p ++ rest) ≡ some (packet p ∷ ts))
      × (packet_check p ≡ true)
      × (unescape stored ≡ c ∷ cs)
tokens-write_memory address c cs rest ts w h v e =
    let (p, sent, framed) = write_memory_sends address c cs h in
    let stored = escape_all (c ∷ cs) in
    let plain =
      memory_payload-IsPlain address (length (c ∷ cs)) stored (escape_all-IsPlain (c ∷ cs) w) in
    let (found, checked) =
      tokens-send_buffer (memory_payload address (length (c ∷ cs)) stored) rest p ts plain v framed
        e in
    (p, stored, sent, framed, found, checked, unescape-escape_all (c ∷ cs))
