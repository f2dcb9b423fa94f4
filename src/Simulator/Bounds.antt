-- ===== src/Simulator/Bounds.antt =====
-- What a wait for an answer writes, and how far the error buffer fills.
use projet_prog.Common.{ℕ, ◌<◌, ◌≡◌, inl, inr, refl, List, [], ◌∷◌, All, Bool-cases, if◌then◌else◌}
use projet_prog.Scanner.{Token, ack, nack, newline, packet, other}
use projet_prog.Simulator.{
  Link, write_socket, require_retransmission, transmit_packet, handle_error, add_character_to_error,
  check_packet, scan, get_answer, exchange,
}
use projet_prog.Simulator.Written.{
  Follows, handle_error-Follows, add_character_to_error-Follows, transmit_packet-Follows,
  check_packet-Follows, scan-Follows,
}

-- The link behind each thing that the scanner does, in order; an answer ends it.
unfoldable pub links : List Token → Link → List Link
links [] k = handle_error (record k { incoming = [] }) ∷ []
links (ack ∷ ts) k = handle_error k ∷ links ts (handle_error k)
links (nack ∷ ts) k =
    handle_error k ∷ transmit_packet (handle_error k) ∷ links ts (transmit_packet (handle_error k))
links (newline ∷ ts) k = links ts k
links (other c ∷ ts) k = add_character_to_error k ∷ links ts (add_character_to_error k)
links (packet p ∷ ts) k =
    let checked = check_packet p (handle_error k) in
    let more = links ts checked.1 in handle_error k ∷ checked.1 ∷ (if checked.0 then [] else more)

-- The last of them, or the one in front of all.
unfoldable pub last_link : Link → List Link → Link
last_link k [] = k
last_link k (x ∷ l) = last_link x l

-- The error buffer has room for the zero byte.
abbrev pub HasRoom : Link → Type 0
HasRoom k = k.errors < 1024

links-HasRoom : (ts : List Token) (k : Link) → HasRoom k → All HasRoom (links ts k)
unfolding links
links-HasRoom [] k h = ((handle_error-Follows (record k { incoming = [] }) h).room, tt)
links-HasRoom (ack ∷ ts) k h =
    let f = handle_error-Follows k h in (f.room, links-HasRoom ts (handle_error k) f.room)
links-HasRoom (nack ∷ ts) k h =
    let f = handle_error-Follows k h in
    let g = transmit_packet-Follows (handle_error k) f.room in
    (f.room, (g.room, links-HasRoom ts (transmit_packet (handle_error k)) g.room))
links-HasRoom (newline ∷ ts) k h = links-HasRoom ts k h
links-HasRoom (other c ∷ ts) k h =
    let f = add_character_to_error-Follows k h in
    (f.room, links-HasRoom ts (add_character_to_error k) f.room)
links-HasRoom (packet p ∷ ts) k h =
    let f = handle_error-Follows k h in
    let g = check_packet-Follows p ts (handle_error k) f.room in
    elim (Bool-cases (check_packet p (handle_error k)).0) [
      | inl q ↦ rw q (f.room, (g.room, tt))
      | inr q ↦ rw q (f.room, (g.room, links-HasRoom ts (check_packet p (handle_error k)).1 g.room))
    ]

-- The last link is that of `scan`, what is left of the input apart.
abbrev pub EndsIn : Link → Link → Type 0
EndsIn k r = record k { incoming = r.incoming } ≡ r

links-EndsIn : (ts : List Token) (k : Link) → EndsIn (last_link k (links ts k)) (scan ts k).1
unfolding links last_link scan handle_error require_retransmission write_socket
links-EndsIn [] k = refl
links-EndsIn (ack ∷ ts) k = links-EndsIn ts (handle_error k)
links-EndsIn (nack ∷ ts) k = links-EndsIn ts (transmit_packet (handle_error k))
links-EndsIn (newline ∷ ts) k = links-EndsIn ts k
links-EndsIn (other c ∷ ts) k = links-EndsIn ts (add_character_to_error k)
links-EndsIn (packet p ∷ ts) k = elim (Bool-cases (check_packet p (handle_error k)).0) [
  | inl q ↦ rw (q, scan) refl
  | inr q ↦ rw (q, scan) (links-EndsIn ts (check_packet p (handle_error k)).1)
]

-- A packet that is sent, and the wait for its answer: whatever is received, what is written to the
-- socket is the packet and behind it, one by one, the packet again, "+" or "-". Behind each thing
-- that the scanner does until then, of which the last leaves the link that results, the error buffer
-- of 1024 characters has room for the zero byte.
pub exchange-Follows :
    (p : List ℕ) (k : Link)
    → k.errors < 1024
    → Follows (transmit_packet (record k { last = p })) (exchange p k).1
      × All HasRoom (links k.incoming (transmit_packet (record k { last = p })))
      × EndsIn
          (last_link
            (transmit_packet (record k { last = p }))
            (links k.incoming (transmit_packet (record k { last = p }))))
          (exchange p k).1
unfolding exchange get_answer transmit_packet write_socket
exchange-Follows p k h =
    let sent = transmit_packet (record k { last = p }) in
    (scan-Follows k.incoming sent h, links-HasRoom k.incoming sent h, links-EndsIn k.incoming sent)
