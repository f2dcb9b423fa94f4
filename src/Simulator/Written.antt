-- ===== src/Simulator/Written.antt =====
-- What each step of the scanner writes to the socket, and how far the error buffer fills.
use mathlib.Core.List.{append_assoc, append-nil}
use projet_prog.Common.{
  ℕ, ◌<◌, ◌≡◌, ◌⊎◌, inl, inr, refl, sym, ap, ◌∙◌, subst, List, [], ◌∷◌, ◌++◌, All, All-append,
  Bool-cases, arith, ltb, ltb→ge, ◌==◌,
}
use projet_prog.Gdb.{packet_check}
use projet_prog.Scanner.{Token, ack, nack, newline, packet, other}
use projet_prog.Simulator.{
  Link, write_socket, require_retransmission, transmit_packet, handle_error, add_character_to_error,
  send_ack, check_packet, scan,
}

-- "+", "-", or the packet transmitted last.
abbrev pub IsReply : List ℕ → List ℕ → Type 0
IsReply last bytes = (bytes ≡ b'+' ∷ []) ⊎ ((bytes ≡ b'-' ∷ []) ⊎ (bytes ≡ last))

-- From one link to a later one: the packet is the same, only replies were written behind what was,
-- and the error buffer, of 1024 characters, has room for the zero byte.
pub record Follows (k k' : Link) : Type 0 where
  pub same_last : k'.last ≡ k.last
  pub written : List (List ℕ)
  pub sent_more : k'.sent ≡ k.sent ++ written
  pub replies : All (IsReply k.last) written
  pub room : k'.errors < 1024

Follows-refl : (k : Link) → k.errors < 1024 → Follows k k
Follows-refl k h = record {
  same_last = refl;
  written = [];
  sent_more = sym (append-nil k.sent);
  replies = tt;
  room = h;
}

Follows-trans : {a b c : Link} → Follows a b → Follows b c → Follows a c
Follows-trans {a} {b} {c} p q = record {
  same_last = q.same_last ∙ p.same_last;
  written = p.written ++ q.written;
  sent_more =
      q.sent_more ∙ ap (λ x. x ++ q.written) p.sent_more ∙ append_assoc a.sent p.written q.written;
  replies =
      All-append (IsReply a.last) p.written q.written p.replies
        (subst (λ l. All (IsReply l) q.written) p.same_last q.replies);
  room = q.room;
}

pub handle_error-Follows : (k : Link) → k.errors < 1024 → Follows k (handle_error k)
unfolding handle_error require_retransmission write_socket
handle_error-Follows k h = elim (Bool-cases (k.errors == 0)) [
  | inl p ↦ rw (p, handle_error) (Follows-refl k h)
  | inr p ↦
      rw (p, handle_error)
        (record {
          same_last = refl;
          written = (b'-' ∷ []) ∷ [];
          sent_more = refl;
          replies = (inr (inl refl), tt);
          room = omega arith;
        })
]

pub add_character_to_error-Follows :
    (k : Link) → k.errors < 1024 → Follows k (add_character_to_error k)
unfolding add_character_to_error handle_error require_retransmission write_socket
add_character_to_error-Follows k h = elim (Bool-cases (ltb 1022 k.errors)) [
  | inl p ↦ elim (Bool-cases (k.errors == 0)) [
    | inl q ↦ absurd (ground (arith, p, q))
    | inr q ↦
        rw (p, q, add_character_to_error)
          (record {
            same_last = refl;
            written = (b'-' ∷ []) ∷ [];
            sent_more = refl;
            replies = (inr (inl refl), tt);
            room = omega arith;
          })
  ]
  | inr p ↦
      rw (p, add_character_to_error)
        (record {
          same_last = refl;
          written = [];
          sent_more = sym (append-nil k.sent);
          replies = tt;
          room = omega (arith, ltb→ge 1022 k.errors p);
        })
]

pub transmit_packet-Follows : (k : Link) → k.errors < 1024 → Follows k (transmit_packet k)
unfolding transmit_packet write_socket
transmit_packet-Follows k h = record {
  same_last = refl;
  written = k.last ∷ [];
  sent_more = refl;
  replies = (inr (inr refl), tt);
  room = h;
}

-- A packet of the scanner, and what is left of the input.
pub check_packet-Follows :
    (p : List ℕ) (ts : List Token) (k : Link)
    → k.errors < 1024
    → Follows k (record (check_packet p k).1 { incoming = ts })
unfolding check_packet send_ack require_retransmission write_socket
check_packet-Follows p ts k h = elim (Bool-cases (packet_check p)) [
  | inl q ↦
      rw (q, check_packet)
        (record {
          same_last = refl;
          written = (b'+' ∷ []) ∷ [];
          sent_more = refl;
          replies = (inl refl, tt);
          room = h;
        })
  | inr q ↦
      rw (q, check_packet)
        (record {
          same_last = refl;
          written = (b'-' ∷ []) ∷ [];
          sent_more = refl;
          replies = (inr (inl refl), tt);
          room = h;
        })
]

-- Where the link ends up does not matter for what is still to be received.
leaving : (ts : List Token) {k k' : Link} → Follows k (record k' { incoming = ts }) → Follows k k'
leaving ts f = record {
  same_last = f.same_last;
  written = f.written;
  sent_more = f.sent_more;
  replies = f.replies;
  room = f.room;
}

starting : (ts : List Token) {k k' : Link} → Follows (record k { incoming = ts }) k' → Follows k k'
starting ts f = record {
  same_last = f.same_last;
  written = f.written;
  sent_more = f.sent_more;
  replies = f.replies;
  room = f.room;
}

pub scan-Follows : (ts : List Token) (k : Link) → k.errors < 1024 → Follows k (scan ts k).1
unfolding scan
scan-Follows [] k h = starting [] (handle_error-Follows (record k { incoming = [] }) h)
scan-Follows (ack ∷ ts) k h =
    let f = handle_error-Follows k h in Follows-trans f (scan-Follows ts (handle_error k) f.room)
scan-Follows (nack ∷ ts) k h =
    let f = handle_error-Follows k h in
    let g = Follows-trans f (transmit_packet-Follows (handle_error k) f.room) in
    Follows-trans g (scan-Follows ts (transmit_packet (handle_error k)) g.room)
scan-Follows (newline ∷ ts) k h = scan-Follows ts k h
scan-Follows (other c ∷ ts) k h =
    let f = add_character_to_error-Follows k h in
    Follows-trans f (scan-Follows ts (add_character_to_error k) f.room)
scan-Follows (packet p ∷ ts) k h =
    let f = handle_error-Follows k h in
    let g = Follows-trans f (check_packet-Follows p ts (handle_error k) f.room) in
    elim (Bool-cases (check_packet p (handle_error k)).0) [
      | inl q ↦ rw (q, scan) g
      | inr q ↦
          rw (q, scan)
            (Follows-trans (leaving ts g)
              (scan-Follows ts (check_packet p (handle_error k)).1 g.room))
    ]
