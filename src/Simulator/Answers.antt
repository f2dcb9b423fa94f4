-- ===== src/Simulator/Answers.antt =====
-- The answers of the simulator.
use projet_prog.Common.{ℕ, ◌≡◌, inl, inr, refl, true, some, List, [], ◌∷◌, Bool-cases}
use projet_prog.Gdb.{packet_check}
use projet_prog.Scanner.{Token, ack, nack, newline, packet, other}
use projet_prog.Simulator.{
  Link, check_packet, scan, get_answer, exchange, handle_error, add_character_to_error,
  transmit_packet,
}

-- An answer that was stored has passed the check.
unfoldable pub IsAnswered : Link → Type 0
IsAnswered k = (p : List ℕ) × (k.answer ≡ some p) × (packet_check p ≡ true)

scan-IsAnswered : (ts : List Token) (k : Link) → (scan ts k).0 ≡ true → IsAnswered (scan ts k).1
unfolding scan check_packet IsAnswered
scan-IsAnswered [] k e = absurd cc
scan-IsAnswered (ack ∷ ts) k e = scan-IsAnswered ts (handle_error k) e
scan-IsAnswered (nack ∷ ts) k e = scan-IsAnswered ts (transmit_packet (handle_error k)) e
scan-IsAnswered (newline ∷ ts) k e = scan-IsAnswered ts k e
scan-IsAnswered (other c ∷ ts) k e = scan-IsAnswered ts (add_character_to_error k) e
scan-IsAnswered (packet p ∷ ts) k e = elim (Bool-cases (packet_check p)) [
  | inl q ↦ rw q (p, refl, q)
  | inr q ↦ rw q (scan-IsAnswered ts _ (rw q at e))
]

-- Where a packet is sent and an answer reported, the answer stored is one that passed the check of
-- its checksum, whatever acknowledgements, broken packets and other characters came before it.
pub exchange-IsAnswered :
    (p : List ℕ) (k : Link) → (exchange p k).0 ≡ true → IsAnswered (exchange p k).1
unfolding exchange get_answer
exchange-IsAnswered p k e = scan-IsAnswered _ _ e
