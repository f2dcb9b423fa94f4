-- ===== src/Gdb/Memory.antt =====
-- `write_memory`: what fits one packet is sent in one, and more overflows the packet.
use Prim.Native.Nat.{bit_xor}
use projet_prog.Common.{
  ℕ, zero, suc, ◌+◌, ◌-◌, ◌<◌, ◌≤◌, ◌≡◌, refl, ap, ◌∙◌, List, [], ◌∷◌, ◌++◌, some, arith, length,
  true, false, ◌||◌, Bool-cases, inl, inr, ltb, length-append, ◌==◌, ==→eq, if◌then◌else◌,
}
use projet_prog.Stdio.{ok, fault}
use projet_prog.Common.{ltb→lt, ltb→ge}
use projet_prog.Gdb.Frame.{packet_check-send_buffer, send_buffer_long}
use projet_prog.Gdb.{
  escape, copy_chunk, memory_payload, write_rounds, write_memory, send_buffer, hex8, hex2,
}

-- The escaped form of a block of memory.
unfoldable pub escape_all : List ℕ → List ℕ
escape_all [] = []
escape_all (c ∷ cs) = escape c ++ escape_all cs

-- How the simulator reads it: 0x7d is dropped, and bit 5 of the byte behind it changed.
unfoldable pub unescape : List ℕ → List ℕ
unescape [] = []
unescape (c ∷ []) = c ∷ []
unescape (c ∷ d ∷ r) = if c == 0x7d then bit_xor d 0x20 ∷ unescape r else c ∷ unescape (d ∷ r)

unescape_plain : (c : ℕ) (l : List ℕ) → (c == 0x7d) ≡ false → unescape (c ∷ l) ≡ c ∷ unescape l
unfolding unescape
unescape_plain c [] h = refl
unescape_plain c (d ∷ l) h = rw h

toggle_twice :
    (c : ℕ) → (c == b'$' || (c == b'#' || c == 0x7d)) ≡ true → bit_xor (bit_xor c 0x20) 0x20 ≡ c
toggle_twice c h = elim (Bool-cases (c == b'$')) [
  | inl p ↦ rw (==→eq c b'$' p)
  | inr p ↦ elim (Bool-cases (c == b'#')) [
    | inl q ↦ rw (==→eq c b'#' q)
    | inr q ↦ rw (==→eq c 0x7d (ground arith))
  ]
]

unescape-escape : (c : ℕ) (l : List ℕ) → unescape (escape c ++ l) ≡ c ∷ unescape l
unfolding escape unescape
unescape-escape c l = elim (Bool-cases (c == b'$' || (c == b'#' || c == 0x7d))) [
  | inl t ↦ rw t (ap (λ x. x ∷ unescape l) (toggle_twice c t))
  | inr t ↦ rw t (unescape_plain c l (ground arith))
]

-- The simulator reads the memory back from its escaped form.
pub unescape-escape_all : (cs : List ℕ) → unescape (escape_all cs) ≡ cs
unfolding escape_all
unescape-escape_all [] = unfold unescape in refl
unescape-escape_all (c ∷ cs) =
    unescape-escape c (escape_all cs) ∙ ap (◌∷◌ c) (unescape-escape_all cs)

pub length-escape : (c : ℕ) → (1 ≤ length (escape c)) × (length (escape c) ≤ 2)
unfolding escape
length-escape c = ground arith

-- The loop stores all the memory, or goes past the end of the packet.
copy_chunk_fits :
    (n : ℕ) (cs : List ℕ)
    → n + length (escape_all cs) ≤ 1004
    → copy_chunk n cs ≡ ok (escape_all cs, [])
unfolding copy_chunk escape_all
copy_chunk_fits n [] h = refl
copy_chunk_fits n (c ∷ cs) h = ground (
  arith,
  length-append (escape c) (escape_all cs),
  length-escape c,
  copy_chunk_fits (n + length (escape c)) cs,
)

copy_chunk_overflow :
    (n : ℕ) (cs : List ℕ) → n ≤ 1004 → 1004 < n + length (escape_all cs) → copy_chunk n cs ≡ fault
unfolding copy_chunk escape_all
copy_chunk_overflow n [] k h = absurd (omega arith)
copy_chunk_overflow n (c ∷ cs) k h = ground (
  arith,
  length-append (escape c) (escape_all cs),
  length-escape c,
  copy_chunk_overflow (n + length (escape c)) cs,
)

-- One round that takes all the memory that is left.
last_round :
    (fuel address c : ℕ) (cs : List ℕ) {packet : List ℕ}
    → copy_chunk 0 (c ∷ cs) ≡ ok (escape_all (c ∷ cs), [])
    → send_buffer (memory_payload address (length (c ∷ cs)) (escape_all (c ∷ cs))) ≡ ok packet
    → write_rounds (suc fuel) address (c ∷ cs) ≡ some (ok (packet ∷ []))
unfolding write_rounds
last_round zero address c cs h sent =
    let e : length (c ∷ cs) - 0 ≡ length (c ∷ cs) = omega arith in rw (h, e, sent, write_rounds)
last_round (suc fuel) address c cs h sent =
    let e : length (c ∷ cs) - 0 ≡ length (c ∷ cs) = omega arith in rw (h, e, sent, write_rounds)

module _ (fuel address c : ℕ) (cs : List ℕ) where
  pub last_round_fault :
      copy_chunk 0 (c ∷ cs) ≡ ok (escape_all (c ∷ cs), [])
      → send_buffer (memory_payload address (length (c ∷ cs)) (escape_all (c ∷ cs))) ≡ fault
      → write_rounds (suc fuel) address (c ∷ cs) ≡ some fault
  unfolding write_rounds
  last_round_fault h sent =
      let e : length (c ∷ cs) - 0 ≡ length (c ∷ cs) = omega arith in rw (h, e, sent, write_rounds)

  pub chunk_fault :
      copy_chunk 0 (c ∷ cs) ≡ fault → write_rounds (suc fuel) address (c ∷ cs) ≡ some fault
  unfolding write_rounds
  chunk_fault h = rw (h, write_rounds)

length-memory_payload :
    (address n : ℕ) (stored : List ℕ)
    → length (memory_payload address n stored) ≡ 19 + length stored
unfolding memory_payload hex8 hex2
length-memory_payload address n stored = omega arith

-- A block of memory of at least one byte, whose escaped form has at most 1000 bytes, is sent as
-- one packet with that form, under its address and its length.
pub write_memory_sends :
    (address c : ℕ) (cs : List ℕ)
    → length (escape_all (c ∷ cs)) ≤ 1000
    → (packet : List ℕ) × (write_memory address (c ∷ cs) ≡ some (ok (packet ∷ [])))
      × (send_buffer (memory_payload address (length (c ∷ cs)) (escape_all (c ∷ cs))) ≡ ok packet)
unfolding write_memory
write_memory_sends address c cs h =
    let payload = memory_payload address (length (c ∷ cs)) (escape_all (c ∷ cs)) in
    let size = length-memory_payload address (length (c ∷ cs)) (escape_all (c ∷ cs)) in
    let (packet, sent, _) = packet_check-send_buffer payload (omega arith) in
    (
      packet,
      last_round (length cs) address c cs (copy_chunk_fits 0 (c ∷ cs) (omega arith)) sent,
      sent,
    )

-- Where the escaped form is longer than 1000 bytes, the program writes past the end of its packet
-- instead of sending a second one.
pub write_memory_overflows :
    (address c : ℕ) (cs : List ℕ)
    → 1000 < length (escape_all (c ∷ cs))
    → write_memory address (c ∷ cs) ≡ some fault
unfolding write_memory
write_memory_overflows address c cs h =
    let payload = memory_payload address (length (c ∷ cs)) (escape_all (c ∷ cs)) in
    let size = length-memory_payload address (length (c ∷ cs)) (escape_all (c ∷ cs)) in
    elim (Bool-cases (ltb 1004 (length (escape_all (c ∷ cs))))) [
      | inl p ↦ chunk_fault (length cs) address c cs (
          copy_chunk_overflow 0 (c ∷ cs) (omega arith)
            (omega (arith, ltb→lt 1004 (length (escape_all (c ∷ cs))) p)))
      | inr p ↦
          last_round_fault (length cs) address c cs
            (copy_chunk_fits 0 (c ∷ cs)
              (omega (arith, ltb→ge 1004 (length (escape_all (c ∷ cs))) p)))
            (send_buffer_long payload (omega arith))
    ]
