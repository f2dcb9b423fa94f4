-- ===== src/Examples/Simulator.antt =====
-- The theorems on the simulator, at concrete addresses and answers.
use projet_prog.Common.{arith, ◌≡◌, refl, true, false, none, some, [], ◌∷◌, All}
use projet_prog.Stdio.{ok}
use projet_prog.Gdb.{packet_check, checksum, scan_hex, hex_value}
use projet_prog.Scanner.{ack, packet}
use projet_prog.Simulator.{
  Link, exchange, get_answer, scan, handle_error, require_retransmission, transmit_packet,
  write_socket, send_ack, check_packet, add_character_to_error, sample_run,
}
use projet_prog.Simulator.Written.{Follows}
use projet_prog.Simulator.Bounds.{HasRoom, EndsIn, links, last_link, exchange-Follows}
use projet_prog.Simulator.Answers.{IsAnswered, exchange-IsAnswered}
use projet_prog.Simulator.Sample.{memory_packet, register_packet, cont_packet, sample_run_sends}

-- An acknowledgement, then "$OK#9a" with a wrong checksum, and with the right one.
abbrev link : Link
link = record {
  fd = 3;
  last = [];
  sent = [];
  errors = 0;
  answer = none;
  incoming =
      ack
      ∷ packet (b'$' ∷ b'O' ∷ b'K' ∷ b'#' ∷ b'0' ∷ b'0' ∷ [])
      ∷ packet (b'$' ∷ b'O' ∷ b'K' ∷ b'#' ∷ b'9' ∷ b'a' ∷ [])
      ∷ [];
}

answered : (exchange (b'$' ∷ b's' ∷ b'#' ∷ b'7' ∷ b'3' ∷ []) link).0 ≡ true
unfolding exchange get_answer scan check_packet packet_check checksum scan_hex hex_value
    handle_error require_retransmission transmit_packet write_socket send_ack add_character_to_error
answered = refl

exchange-IsAnswered_example : IsAnswered (exchange (b'$' ∷ b's' ∷ b'#' ∷ b'7' ∷ b'3' ∷ []) link).1
exchange-IsAnswered_example =
    exchange-IsAnswered (b'$' ∷ b's' ∷ b'#' ∷ b'7' ∷ b'3' ∷ []) link answered

exchange-Follows_example :
    Follows
      (transmit_packet (record link { last = b'$' ∷ b's' ∷ b'#' ∷ b'7' ∷ b'3' ∷ [] }))
      (exchange (b'$' ∷ b's' ∷ b'#' ∷ b'7' ∷ b'3' ∷ []) link).1
    × All HasRoom (
        links link.incoming
          (transmit_packet (record link { last = b'$' ∷ b's' ∷ b'#' ∷ b'7' ∷ b'3' ∷ [] })))
    × EndsIn
        (last_link
          (transmit_packet (record link { last = b'$' ∷ b's' ∷ b'#' ∷ b'7' ∷ b'3' ∷ [] }))
          (links link.incoming
            (transmit_packet (record link { last = b'$' ∷ b's' ∷ b'#' ∷ b'7' ∷ b'3' ∷ [] }))))
        (exchange (b'$' ∷ b's' ∷ b'#' ∷ b'7' ∷ b'3' ∷ []) link).1
exchange-Follows_example =
    exchange-Follows (b'$' ∷ b's' ∷ b'#' ∷ b'7' ∷ b'3' ∷ []) link (omega arith)

sample_run_sends_example :
    (sample_run false (some link)
      ≡ some (
          ok
            (exchange cont_packet
              (exchange (register_packet false) (exchange memory_packet link).1).1).1))
    × (packet_check memory_packet ≡ true)
    × (packet_check (register_packet false) ≡ true)
    × (packet_check cont_packet ≡ true)
sample_run_sends_example = sample_run_sends false link
