-- ===== src/Simulator/Delivery.antt =====
-- A packet and its answer on the wire: requests for retransmission, the acknowledgement, the answer.
use mathlib.Core.List.{append_assoc}
use projet_prog.Common.{
  All-append, ℕ, zero, suc, ◌≡◌, refl, sym, ap, ◌∙◌, true, some, List, [], ◌∷◌, ◌++◌, All,
  Bool-cases, inl, inr, ◌%◌, arith, ◌==◌,
}
use projet_prog.Common.Words.{IsByte}
use projet_prog.Stdio.{ok}
use projet_prog.Gdb.{send_buffer, packet_check}
use projet_prog.Gdb.Frame.{sum, send_buffer-frame}
use projet_prog.Scanner.{Token, ack, nack, packet, tokens}
use projet_prog.Scanner.Rules.{first_token}
use projet_prog.Scanner.Refines.{tokens_first}
use projet_prog.Scanner.Frames.{IsPlain, frame-bytes, tokens-send_buffer}
use projet_prog.Simulator.{
  Link, check_packet, scan, get_answer, exchange, handle_error, transmit_packet, send_ack,
  write_socket,
}

abbrev pub repeat : {A : Type 0} → ℕ → A → List A
repeat zero x = []
repeat (suc n) x = x ∷ repeat n x

-- What the simulator sends: requests for retransmission, an acknowledgement, and its answer.
abbrev pub reply : ℕ → List ℕ → List ℕ
reply n answer = repeat n b'-' ++ (b'+' ∷ answer)

reply-bytes : (n : ℕ) (answer : List ℕ) → All IsByte answer → All IsByte (reply n answer)
reply-bytes zero answer w = (omega arith, w)
reply-bytes (suc n) answer w = (omega arith, reply-bytes n answer w)

tokens-reply :
    (n : ℕ) (answer : List ℕ) (ts : List Token)
    → All IsByte answer
    → tokens answer ≡ some ts
    → tokens (reply n answer) ≡ some (repeat n nack ++ (ack ∷ ts))
tokens-reply zero answer ts w e =
    tokens_first b'+' answer answer ack ts (omega arith, w) w (unfold first_token in refl) e
tokens-reply (suc n) answer ts w e =
    tokens_first b'-' (reply n answer) (reply n answer) nack (repeat n nack ++ (ack ∷ ts))
      (omega arith, reply-bytes n answer w) (reply-bytes n answer w) (unfold first_token in refl)
      (tokens-reply n answer ts w e)

-- The link after `n` transmissions more, an acknowledgement received and one sent.
abbrev pub delivered : ℕ → List ℕ → List Token → Link → Link
delivered n p ts k = record k {
  sent = k.sent ++ (repeat n k.last ++ ((b'+' ∷ []) ∷ []));
  answer = some p;
  incoming = ts;
}

handle_error_quiet : (k : Link) → k.errors ≡ 0 → handle_error k ≡ k
unfolding handle_error
handle_error_quiet k z = elim (Bool-cases (k.errors == 0)) [
  | inl p ↦ rw p refl
  | inr p ↦ absurd (ground (arith, p, z))
]

transmitted_sent :
    (n : ℕ) (p : List ℕ) (ts : List Token) (k : Link)
    → delivered n p ts (transmit_packet k) ≡ delivered (suc n) p ts k
unfolding transmit_packet write_socket
transmitted_sent n p ts k =
    ap (λ bytes. record k { sent = bytes; answer = some p; incoming = ts })
      (append_assoc k.sent (k.last ∷ []) (repeat n k.last ++ ((b'+' ∷ []) ∷ [])))

scan-delivered :
    (n : ℕ) (p : List ℕ) (ts : List Token) (k : Link)
    → packet_check p ≡ true
    → k.errors ≡ 0
    → scan (repeat n nack ++ (ack ∷ packet p ∷ ts)) k ≡ (true, delivered n p ts k)
unfolding scan check_packet send_ack write_socket transmit_packet
scan-delivered zero p ts k q z = rw (scan, handle_error_quiet k z, handle_error_quiet k z, scan, q)
scan-delivered (suc n) p ts k q z =
    rw (scan, handle_error_quiet k z)
      (scan-delivered n p ts (transmit_packet k) q z
        ∙ ap (λ l. (true, l)) (transmitted_sent n p ts k))

-- On a link with no characters in error, where the simulator asks for a packet `n` times again,
-- then acknowledges it and sends an answer in a packet of its own, without "$" and "#" in its
-- payload: the packet is transmitted n + 1 times, the answer is stored and acknowledged, and what
-- stands behind the answer is left to be received.
pub exchange_delivers :
    (n : ℕ) (q payload p rest : List ℕ) (ts : List Token) (k : Link)
    → All IsPlain payload
    → All IsByte rest
    → send_buffer payload ≡ ok p
    → tokens rest ≡ some ts
    → tokens (reply n (p ++ rest)) ≡ some k.incoming
    → k.errors ≡ 0
    → exchange q k ≡ (true, delivered (suc n) p ts (record k { last = q }))
unfolding exchange get_answer transmit_packet
exchange_delivers n q payload p rest ts k w v sent e received z =
    let (found, q') = tokens-send_buffer payload rest p ts w v sent e in
    let bytes : All IsByte (p ++ rest) = rw (send_buffer-frame payload sent) (
      omega arith,
      All-append IsByte (payload ++ _) rest (frame-bytes payload (sum payload % 256) w) v,
    ) in
    let both : some k.incoming ≡ some (repeat n nack ++ (ack ∷ packet p ∷ ts)) =
      sym received ∙ tokens-reply n (p ++ rest) (packet p ∷ ts) bytes found in
    let same : k.incoming ≡ repeat n nack ++ (ack ∷ packet p ∷ ts) = cc in
    let k' : Link = record k { last = q } in
    ap (λ received. scan received (transmit_packet k')) same
    ∙ scan-delivered n p ts (transmit_packet k') q' z
    ∙ ap (λ l. (true, l)) (transmitted_sent n p ts k')
