-- ===== src/Gdb.antt =====
pub mod Frame
pub mod Memory
pub mod Payload
pub mod Registers
-- gdb_protocol.c: the packets that are sent to the simulator, and the check of those received.
-- A packet is its bytes. What a call transmits is its result; the answers are read by the scanner.
use Prim.Native.Nat.{bit_xor}
use projet_prog.Common.{
  ℕ, zero, suc, ◌+◌, ◌-◌, ◌*◌, ◌/◌, ◌%◌, Bool, true, false, ◌&&◌, ◌||◌, Option, none, some, List,
  [], ◌∷◌, ◌++◌, ltb, leb, ◌==◌, if◌then◌else◌, length, take, drop,
}
use projet_prog.Common.Words.{add32}
use projet_prog.Stdio.{Outcome, ok, exit, fault}

abbrev pub max_packet_size : ℕ
max_packet_size = 1024

abbrev pub max_buffer_size : ℕ
max_buffer_size = 1018

-- One digit, and the formats %02x and %08x.
unfoldable pub hex_digit : ℕ → ℕ
hex_digit d = if ltb d 10 then b'0' + d else b'a' + (d - 10)

unfoldable pub hex2 : ℕ → List ℕ
hex2 x = hex_digit (x / 16 % 16) ∷ hex_digit (x % 16) ∷ []

unfoldable pub hex8 : ℕ → List ℕ
hex8 x =
    hex2 (x / 16777216 % 256)
    ++ (hex2 (x / 65536 % 256) ++ (hex2 (x / 256 % 256) ++ hex2 (x % 256)))

-- `check`, an unsigned char.
unfoldable pub checksum : ℕ → List ℕ → ℕ
checksum check [] = check
checksum check (b ∷ bs) = checksum ((check + b) % 256) bs

-- gdb_send_buffer, with the payload that stands in `buffer`. It stores `$`, the payload, `#`, two
-- digits and a zero byte in `packet`, and transmits all but the last.
unfoldable pub send_buffer : List ℕ → Outcome (List ℕ)
send_buffer payload =
    if ltb max_packet_size (length payload + 5)
    then fault
    else ok (b'$' ∷ (payload ++ (b'#' ∷ hex2 (checksum 0 payload))))

-- gdb_send_data, of gdb_cont ("c") and gdb_step ("s"): strcpy stores a zero byte too.
unfoldable pub send_data : List ℕ → Outcome (List ℕ)
send_data text = if ltb (max_packet_size - 1) (length text + 1) then fault else send_buffer text

unfoldable pub gdb_cont : Outcome (List ℕ)
gdb_cont = send_data (b'c' ∷ [])

unfoldable pub gdb_step : Outcome (List ℕ)
gdb_step = send_data (b's' ∷ [])

-- The four bytes of a value, from `mem.bytes[0]` to `mem.bytes[3]`.
unfoldable pub value_bytes : Bool → ℕ → List ℕ
value_bytes host_big v = elim host_big [
  | true ↦ (v / 16777216 % 256) ∷ (v / 65536 % 256) ∷ (v / 256 % 256) ∷ (v % 256) ∷ []
  | false ↦ (v % 256) ∷ (v / 256 % 256) ∷ (v / 65536 % 256) ∷ (v / 16777216 % 256) ∷ []
]

-- is_big_endian of util.c: the first byte of the integer 1 is 0.
unfoldable pub is_big_endian : Bool → Bool
is_big_endian host_big = elim (value_bytes host_big 1) [ [] ↦ false | b ∷ _ ↦ b == 0 ]

unfoldable pub hex_bytes : List ℕ → List ℕ
hex_bytes [] = []
hex_bytes (b ∷ bs) = hex2 b ++ hex_bytes bs

unfoldable pub backwards : List ℕ → List ℕ → List ℕ
backwards [] out = out
backwards (b ∷ bs) out = backwards bs (b ∷ out)

-- write_uint32: upwards where the host has the byte order of the target, else downwards.
unfoldable pub write_uint32 : Bool → Bool → ℕ → List ℕ
write_uint32 host_big target_big v =
    let bytes = value_bytes host_big v in
    let up = hex_bytes bytes in
    let down = hex_bytes (backwards bytes []) in
    elim (is_big_endian host_big) [
      | true ↦ elim target_big [ true ↦ up | false ↦ down ]
      | false ↦ elim target_big [ true ↦ down | false ↦ up ]
    ]

-- gdb_write_register: "P%02x=" and the value.
unfoldable pub write_register : Bool → Bool → ℕ → ℕ → Outcome (List ℕ)
write_register host_big target_big num value =
    send_buffer (b'P' ∷ (hex2 num ++ (b'=' ∷ write_uint32 host_big target_big value)))

-- The `switch` over a byte of memory: three of them are sent behind 0x7d, with bit 5 changed.
unfoldable pub escape : ℕ → List ℕ
escape c = if c == b'$' || (c == b'#' || c == 0x7d) then 0x7d ∷ bit_xor c 0x20 ∷ [] else c ∷ []

-- The inner `while`, with `buffer_size` bytes stored from packet[20] on: what it stores further,
-- and the memory that it leaves. Storing behind packet[1023] is a fault.
unfoldable pub copy_chunk : ℕ → List ℕ → Outcome (List ℕ × List ℕ)
copy_chunk buffer_size [] = ok ([], [])
copy_chunk buffer_size (c ∷ cs) = elim (ltb buffer_size (max_buffer_size - 1)) [
  | false ↦ ok ([], c ∷ cs)
  | true ↦ elim (ltb max_packet_size (20 + buffer_size + length (escape c))) [
    | true ↦ fault
    | false ↦ elim (copy_chunk (buffer_size + length (escape c)) cs) [
      | ok (stored, left) ↦ ok (escape c ++ stored, left)
      | exit ↦ exit
      | fault ↦ fault
    ]
  ]
]

-- "X%08x,%08x", a colon and the bytes.
unfoldable pub memory_payload : ℕ → ℕ → List ℕ → List ℕ
memory_payload address copied stored =
    b'X' ∷ (hex8 address ++ (b',' ∷ (hex8 copied ++ (b':' ∷ stored))))

-- gdb_write_memory: the packets sent. Each round takes a byte of memory at least, so as many
-- rounds as bytes are enough; `none` means that the fuel ran out.
unfoldable pub write_rounds : ℕ → ℕ → List ℕ → Option (Outcome (List (List ℕ)))
write_rounds fuel address [] = some (ok [])
write_rounds zero address (b ∷ bs) = none
write_rounds (suc fuel) address (b ∷ bs) = elim (copy_chunk 0 (b ∷ bs)) [
  | exit ↦ some exit
  | fault ↦ some fault
  | ok (stored, left) ↦
      let copied : ℕ = length (b ∷ bs) - length left in
      elim (send_buffer (memory_payload address copied stored)) [
        | exit ↦ some exit
        | fault ↦ some fault
        | ok packet ↦ elim (write_rounds fuel (add32 address copied) left) [
          | none ↦ none
          | some (ok packets) ↦ some (ok (packet ∷ packets))
          | some exit ↦ some exit
          | some fault ↦ some fault
        ]
      ]
]

unfoldable pub write_memory : ℕ → List ℕ → Option (Outcome (List (List ℕ)))
write_memory address memory = write_rounds (length memory) address memory

-- sscanf("%x") of the two digits that end a packet.
unfoldable pub hex_value : ℕ → Option ℕ
hex_value c =
    if leb b'0' c && leb c b'9'
    then some (c - b'0')
    else if leb b'a' c && leb c b'f'
    then some (c - b'a' + 10)
    else if leb b'A' c && leb c b'F'
    then some (c - b'A' + 10)
    else none

unfoldable pub scan_hex : List ℕ → ℕ → ℕ
scan_hex [] acc = acc
scan_hex (c ∷ cs) acc = elim (hex_value c) [ none ↦ acc | some d ↦ scan_hex cs (acc * 16 + d) ]

-- gdb_packet_check, for a packet of the form that the scanner passes on, `$`, data, `#` and two
-- digits: whether it is acknowledged, the other answer being the demand to send it again.
unfoldable pub packet_check : List ℕ → Bool
packet_check packet =
    let n = length packet - 4 in
    checksum 0 (take n (drop 1 packet)) == scan_hex (drop (n + 2) packet) 0
