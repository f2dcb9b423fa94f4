-- ===== src/Simulator.antt =====
-- The connection to the simulator: the actions of scanner.l, the answers of gdb_protocol.c, the
-- interface of arm_simulator_interface.c, and main of ARM_runner_example.c.
pub mod Answers
pub mod Bounds
pub mod Connect
pub mod Delivery
pub mod Sample
pub mod Written
use projet_prog.Common.{
  ℕ, ◌+◌, Bool, true, false, Option, none, some, List, [], ◌∷◌, ◌++◌, ltb, ◌==◌, if◌then◌else◌,
}
use projet_prog.Stdio.{Outcome, ok, exit, fault}
use projet_prog.Gdb.{packet_check, write_register, write_memory, gdb_cont, gdb_step}
use projet_prog.Debug.{add_debug_to}
use projet_prog.Scanner.{Token, ack, nack, newline, packet, other}

-- gdb_protocol_data and parser_data: the socket, the packet transmitted last, what was written to
-- the socket, the number of characters in the error buffer, the answer, and what is still to be
-- received.
pub record Link : Type 0 where
  pub fd : ℕ
  pub last : List ℕ
  pub sent : List (List ℕ)
  pub errors : ℕ
  pub answer : Option (List ℕ)
  pub incoming : List Token

-- Rio_writen
unfoldable pub write_socket : List ℕ → Link → Link
write_socket bytes k = record k { sent = k.sent ++ (bytes ∷ []) }

unfoldable pub require_retransmission : Link → Link
unfolding write_socket
require_retransmission k = write_socket (b'-' ∷ []) k

unfoldable pub transmit_packet : Link → Link
unfolding write_socket
transmit_packet k = write_socket k.last k

unfoldable pub handle_error : Link → Link
handle_error k = if k.errors == 0 then k else record (require_retransmission k) { errors = 0 }

-- MAX_ERROR_SIZE is 1024.
unfoldable pub add_character_to_error : Link → Link
add_character_to_error k =
    let room = if ltb 1022 k.errors then handle_error k else k in
    record room { errors = room.errors + 1 }

-- gdb_send_ack
unfoldable pub send_ack : Link → Link
unfolding write_socket
send_ack k = write_socket (b'+' ∷ []) k

-- gdb_packet_check, with what it writes and stores.
unfoldable pub check_packet : List ℕ → Link → Bool × Link
check_packet p k =
    if packet_check p
    then (true, record (send_ack k) { answer = some p })
    else (false, require_retransmission k)

-- yylex, over the tokens of what is received: `true` is PACKET and `false` EOF. A newline is printed.
unfoldable pub scan : List Token → Link → Bool × Link
scan [] k = (false, handle_error (record k { incoming = [] }))
scan (ack ∷ ts) k = scan ts (handle_error k)
scan (nack ∷ ts) k = scan ts (transmit_packet (handle_error k))
scan (newline ∷ ts) k = scan ts k
scan (packet p ∷ ts) k =
    let checked = check_packet p (handle_error k) in
    let rest = scan ts checked.1 in
    if checked.0 then (true, record checked.1 { incoming = ts }) else rest
scan (other c ∷ ts) k = scan ts (add_character_to_error k)

unfoldable pub get_answer : Link → Bool × Link
get_answer k = scan k.incoming k

-- A packet is transmitted, then an answer awaited.
unfoldable pub exchange : List ℕ → Link → Bool × Link
exchange p k = get_answer (transmit_packet (record k { last = p }))

unfoldable pub exchange_all : List (List ℕ) → Link → Link
exchange_all [] k = k
exchange_all (p ∷ ps) k = exchange_all ps (exchange p k).1

-- arm_simulator_data: `none` when it is freed.
abbrev pub Simulator : Type 0
Simulator = Option Link

-- arm_write_register, on a little-endian host and for a simulator of either byte order.
unfoldable pub arm_write_register : Bool → ℕ → ℕ → Simulator → Outcome Simulator
arm_write_register target_big num value none = fault
arm_write_register target_big num value (some k) =
    elim (write_register false target_big num value) [
      | ok p ↦ ok (some (exchange p k).1)
      | exit ↦ exit
      | fault ↦ fault
    ]

-- arm_write_memory. The packets are built round by round and each is followed by an answer, which
-- no later packet depends on.
unfoldable pub arm_write_memory : ℕ → List ℕ → Simulator → Option (Outcome Simulator)
arm_write_memory address memory none = some fault
arm_write_memory address memory (some k) = elim (write_memory address memory) [
  | none ↦ none
  | some (ok ps) ↦ some (ok (some (exchange_all ps k)))
  | some exit ↦ some exit
  | some fault ↦ some fault
]

-- arm_run: the simulator runs to its end, and the data is freed.
unfoldable pub arm_run : Simulator → Outcome Link
arm_run none = fault
arm_run (some k) = elim gdb_cont [ ok p ↦ ok (exchange p k).1 | exit ↦ exit | fault ↦ fault ]

-- arm_step: whether there was an answer, and the data, which is freed if there was none.
unfoldable pub arm_step : Simulator → Outcome (Bool × Simulator)
arm_step none = fault
arm_step (some k) = elim gdb_step [
  | ok p ↦ let reply = exchange p k in ok (if reply.0 then (true, some reply.1) else (false, none))
  | exit ↦ exit
  | fault ↦ fault
]

-- gdb_init_data and init_gdb_scanner, on a socket that receives these tokens.
unfoldable pub init_data : ℕ → List Token → Link
init_data fd incoming = record {
  fd = fd;
  last = [];
  sent = [];
  errors = 0;
  answer = none;
  incoming = incoming;
}

-- The loop of arm_connect over the addresses that getaddrinfo returned. `socket` and `connect` are
-- those of <sys/socket.h>, `none` and `false` where they return -1.
module _ {A : Type 0} (socket : A → Option ℕ) (connect : ℕ → A → Bool) where
  unfoldable pub try_addresses : List A → Option ℕ
  try_addresses [] = none
  try_addresses (a ∷ l) =
      let later = try_addresses l in
      elim (socket a) [ none ↦ later | some s ↦ if connect s a then some s else later ]

  -- With no address left `error` ends the program.
  unfoldable pub arm_connect : List A → List Token → Outcome Simulator
  arm_connect addresses incoming = elim (try_addresses addresses) [
    | none ↦ exit
    | some s ↦ ok (some (init_data s incoming))
  ]

-- The bytes of `code` in sample_run.
abbrev pub sample_code : List ℕ
sample_code =
    0xe3 ∷ 0xa0 ∷ 0x00 ∷ 0x05 ∷ 0xe2 ∷ 0x50 ∷ 0x00 ∷ 0x01 ∷ 0x1a ∷ 0xff ∷ 0xff ∷ 0xfd ∷ 0xef ∷ 0x12
    ∷ 0x34 ∷ 0x56 ∷ []

-- sample_run, from the connection on.
unfoldable pub sample_run : Bool → Simulator → Option (Outcome Link)
sample_run target_big s = elim (arm_write_memory 0x58 sample_code s) [
  | none ↦ none
  | some exit ↦ some exit
  | some fault ↦ some fault
  | some (ok s1) ↦ elim (arm_write_register target_big 15 0x58 s1) [
    | ok s2 ↦ some (arm_run s2)
    | exit ↦ some exit
    | fault ↦ some fault
  ]
]

-- The options of ARM_runner_example.c.
pub data Flag : Type 0 where
  host service debug : List ℕ → Flag
  help unknown : Flag

-- The variables of its main, and the table of debugged files.
pub record Settings : Type 0 where
  pub hostname : Option (List ℕ)
  pub servicename : Option (List ℕ)
  pub debugged : List (List ℕ)

-- The loop over the options. `none` is exit(0), of --help.
unfoldable pub read_flags : List Flag → Settings → Outcome (Option Settings)
read_flags [] s = ok (some s)
read_flags (host name ∷ l) s = read_flags l (record s { hostname = some name })
read_flags (service name ∷ l) s = read_flags l (record s { servicename = some name })
read_flags (debug name ∷ l) s = elim (add_debug_to name s.debugged) [
  | ok files ↦ read_flags l (record s { debugged = files })
  | exit ↦ exit
  | fault ↦ fault
]
read_flags (help ∷ l) s = ok none
read_flags (unknown ∷ l) s = exit

-- main of ARM_runner_example.c, from its options on. What getaddrinfo returns for a host and a
-- service is a parameter, and so are the system calls; `none` is exit(0), of --help, and the inner
-- `none` is that of `sample_run`.
module _ {A : Type 0} (getaddrinfo : Option (List ℕ) → Option (List ℕ) → List A)
    (socket : A → Option ℕ) (connect : ℕ → A → Bool) where
  unfoldable pub example : Bool → List Flag → List Token → Outcome (Option (Option (Outcome Link)))
  example target_big flags incoming =
      elim (read_flags flags (record { hostname = none; servicename = none; debugged = [] })) [
        | exit ↦ exit
        | fault ↦ fault
        | ok none ↦ ok none
        | ok (some s) ↦
            elim (arm_connect socket connect (getaddrinfo s.hostname s.servicename) incoming) [
              | ok simulator ↦ ok (some (sample_run target_big simulator))
              | exit ↦ exit
              | fault ↦ fault
            ]
      ]
