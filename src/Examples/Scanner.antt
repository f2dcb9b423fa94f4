-- ===== src/Examples/Scanner.antt =====
-- The theorems on the scanner, at concrete characters.
use projet_prog.Common.{
  ◌≤◌, length, ℕ, ◌≡◌, refl, true, none, some, List, [], ◌∷◌, ◌++◌, All, arith,
}
use projet_prog.Common.Words.{IsByte}
use projet_prog.Stdio.{ok}
use projet_prog.Gdb.{send_buffer, packet_check, hex_digit, hex2, checksum}
use projet_prog.Scanner.{
  Token, ack, nack, newline, packet, other, tokens, scan_tokens, match_token, match_text,
  find_action, next_state, find_entry, class, base, accept, token_of,
}
use projet_prog.Scanner.Rules.{tokenize}
use projet_prog.Scanner.Spelling.{spell_all}
use projet_prog.Scanner.Refines.{tokens-tokenize, tokens-spell_all}
use projet_prog.Scanner.Frames.{IsPlain}
use projet_prog.Gdb.{memory_payload, write_memory, escape}
use projet_prog.Gdb.Memory.{unescape, escape_all}
use projet_prog.Scanner.Memory.{tokens-write_memory}
use projet_prog.Simulator.{Link, exchange}
use projet_prog.Simulator.Delivery.{reply, delivered, exchange_delivers}

-- A packet that is cut off by "$", a newline, an acknowledgement, and a packet.
abbrev received : List ℕ
received = b'$' ∷ b'O' ∷ b'$' ∷ 10 ∷ b'+' ∷ b'$' ∷ b'O' ∷ b'K' ∷ b'#' ∷ b'9' ∷ b'a' ∷ []

abbrev ok_packet : List ℕ
ok_packet = b'$' ∷ b'O' ∷ b'K' ∷ b'#' ∷ b'9' ∷ b'a' ∷ []

tokens-received :
    tokens received
    ≡ some (other b'$' ∷ other b'O' ∷ other b'$' ∷ newline ∷ ack ∷ packet ok_packet ∷ [])
unfolding tokens scan_tokens match_token match_text find_action next_state find_entry class base
    accept token_of
tokens-received = refl

received-IsByte : All IsByte received
received-IsByte = (
  omega arith,
  (
    omega arith,
    (
      omega arith,
      (
        omega arith,
        (
          omega arith,
          (
            omega arith,
            (omega arith, (omega arith, (omega arith, (omega arith, (omega arith, tt))))),
          ),
        ),
      ),
    ),
  ),
)

tokens-tokenize_example : tokens received ≡ tokenize 11 received
tokens-tokenize_example = tokens-tokenize received received-IsByte

tokens-spell_all_example :
    (ts : List Token) × (tokens received ≡ some ts) × (spell_all ts ≡ received)
tokens-spell_all_example = tokens-spell_all received received-IsByte

abbrev answer : List ℕ
answer = b'O' ∷ b'K' ∷ []

answer-IsPlain : All IsPlain answer
answer-IsPlain =
    ((omega arith, omega arith, omega arith), ((omega arith, omega arith, omega arith), tt))

send_buffer-answer : send_buffer answer ≡ ok ok_packet
unfolding send_buffer checksum hex2 hex_digit
send_buffer-answer = refl

tokens-ack : tokens (b'+' ∷ []) ≡ some (ack ∷ [])
unfolding tokens scan_tokens match_token match_text find_action next_state find_entry class base
    accept token_of
tokens-ack = refl

-- "-", "-", "+", the answer, and "+" behind it.
abbrev wire : Link
wire = record {
  fd = 3;
  last = [];
  sent = [];
  errors = 0;
  answer = none;
  incoming = nack ∷ nack ∷ ack ∷ packet ok_packet ∷ ack ∷ [];
}

tokens-wire : tokens (reply 2 (ok_packet ++ (b'+' ∷ []))) ≡ some wire.incoming
unfolding tokens scan_tokens match_token match_text find_action next_state find_entry class base
    accept token_of
tokens-wire = refl

abbrev command : List ℕ
command = b'$' ∷ b's' ∷ b'#' ∷ b'7' ∷ b'3' ∷ []

exchange_delivers_example :
    exchange command wire
    ≡ (true, delivered 3 ok_packet (ack ∷ []) (record wire { last = command }))
exchange_delivers_example =
    exchange_delivers 2 command answer ok_packet (b'+' ∷ []) (ack ∷ []) wire answer-IsPlain
      (omega arith, tt) send_buffer-answer tokens-ack tokens-wire refl

-- "$", an escape and 5, in front of "+".
abbrev memory : List ℕ
memory = b'$' ∷ 0x7d ∷ 5 ∷ []

memory-IsByte : All IsByte memory
memory-IsByte = (omega arith, (omega arith, (omega arith, tt)))

length-memory : length (escape_all memory) ≤ 1000
unfolding escape_all escape
length-memory = omega arith

tokens-write_memory_example :
    (p stored : List ℕ) × (write_memory 88 memory ≡ some (ok (p ∷ [])))
    × (send_buffer (memory_payload 88 3 stored) ≡ ok p)
    × (tokens (p ++ (b'+' ∷ [])) ≡ some (packet p ∷ ack ∷ []))
    × (packet_check p ≡ true)
    × (unescape stored ≡ memory)
tokens-write_memory_example =
    tokens-write_memory 88 b'$' (0x7d ∷ 5 ∷ []) (b'+' ∷ []) (ack ∷ []) memory-IsByte length-memory
      (omega arith, tt) tokens-ack
