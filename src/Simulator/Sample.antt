-- ===== src/Simulator/Sample.antt =====
-- What `sample_run` sends.
use projet_prog.Common.{ℕ, ◌≡◌, refl, Bool, true, false, some, List, [], ◌∷◌}
use projet_prog.Common.Words.{add32}
use projet_prog.Stdio.{ok}
use projet_prog.Gdb.{
  hex_digit, hex2, hex8, escape, checksum, send_buffer, send_data, write_register, write_uint32,
  copy_chunk, write_rounds, write_memory, memory_payload, is_big_endian, value_bytes, hex_bytes,
  backwards, gdb_cont, packet_check, scan_hex, hex_value,
}
use projet_prog.Simulator.{
  Link, sample_code, exchange, exchange_all, arm_write_memory, arm_write_register, arm_run,
  sample_run,
}

-- "$X00000058,00000010:", the code, and "#27"
abbrev pub memory_packet : List ℕ
memory_packet =
    b'$' ∷ b'X' ∷ b'0' ∷ b'0' ∷ b'0' ∷ b'0' ∷ b'0' ∷ b'0' ∷ b'5' ∷ b'8' ∷ b',' ∷ b'0' ∷ b'0' ∷ b'0'
    ∷ b'0' ∷ b'0' ∷ b'0' ∷ b'1' ∷ b'0' ∷ b':' ∷ 0xe3 ∷ 0xa0 ∷ 0x00 ∷ 0x05 ∷ 0xe2 ∷ 0x50 ∷ 0x00
    ∷ 0x01 ∷ 0x1a ∷ 0xff ∷ 0xff ∷ 0xfd ∷ 0xef ∷ 0x12 ∷ 0x34 ∷ 0x56 ∷ b'#' ∷ b'2' ∷ b'7' ∷ []

-- "$P0f=00000058#b0" or "$P0f=58000000#b0", by the byte order of the simulator
abbrev pub register_packet : Bool → List ℕ
register_packet true =
    b'$' ∷ b'P' ∷ b'0' ∷ b'f' ∷ b'=' ∷ b'0' ∷ b'0' ∷ b'0' ∷ b'0' ∷ b'0' ∷ b'0' ∷ b'5' ∷ b'8' ∷ b'#'
    ∷ b'b' ∷ b'0' ∷ []
register_packet false =
    b'$' ∷ b'P' ∷ b'0' ∷ b'f' ∷ b'=' ∷ b'5' ∷ b'8' ∷ b'0' ∷ b'0' ∷ b'0' ∷ b'0' ∷ b'0' ∷ b'0' ∷ b'#'
    ∷ b'b' ∷ b'0' ∷ []

-- "$c#63"
abbrev pub cont_packet : List ℕ
cont_packet = b'$' ∷ b'c' ∷ b'#' ∷ b'6' ∷ b'3' ∷ []

memory_sent : write_memory 0x58 sample_code ≡ some (ok (memory_packet ∷ []))
unfolding write_memory write_rounds copy_chunk escape memory_payload send_buffer checksum hex8 hex2
    hex_digit add32
memory_sent = refl

register_sent :
    (target_big : Bool) → write_register false target_big 15 0x58 ≡ ok (register_packet target_big)
unfolding write_register hex2 hex_digit is_big_endian write_uint32 value_bytes hex_bytes backwards
    send_buffer checksum
register_sent true = refl
register_sent false = refl

cont_sent : gdb_cont ≡ ok cont_packet
unfolding gdb_cont send_data send_buffer checksum hex2 hex_digit
cont_sent = refl

-- Whatever the simulator answers, and for either byte order of it, `sample_run` ends. It sends three
-- packets, each after the answer to the one before: the code for the address 0x58, then the value
-- 0x58 for register 15 in the byte order of the simulator, then "c". All of them pass the check of
-- their checksum.
pub sample_run_sends :
    (target_big : Bool) (k : Link)
    → (sample_run target_big (some k)
        ≡ some (
            ok
              (exchange cont_packet
                (exchange (register_packet target_big) (exchange memory_packet k).1).1).1))
      × (packet_check memory_packet ≡ true)
      × (packet_check (register_packet target_big) ≡ true)
      × (packet_check cont_packet ≡ true)
unfolding exchange_all sample_run arm_write_memory arm_write_register arm_run packet_check checksum
    scan_hex hex_value
sample_run_sends target_big k = (
  rw (
    memory_sent,
    register_sent target_big,
    cont_sent,
    sample_run,
    arm_write_memory,
    arm_write_register,
    arm_run,
  ),
  refl,
  register_checked target_big,
  refl,
)
  where
    register_checked : (b : Bool) → packet_check (register_packet b) ≡ true
    register_checked true = refl
    register_checked false = refl
