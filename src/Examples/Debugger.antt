-- ===== src/Examples/Debugger.antt =====
-- The theorems on the debugging of the simulator's source and on the packets for gdb, at concrete
-- data.
use projet_prog.Common.{
  ℕ, zero, suc, ◌≤◌, ◌<◌, ◌%◌, ◌≡◌, refl, List, [], ◌∷◌, some, arith, length, true, ◌==◌,
  if◌then◌else◌,
}
use projet_prog.Stdio.{ok, fault}
use projet_prog.Debug.{strcmp, find_place, insert_at, add_debug_to, is_debugged}
use projet_prog.Debug.Order.{IsSorted}
use projet_prog.Debug.Search.{Answers, is_debugged-Answers}
use projet_prog.Debug.Insert.{
  insert, place, add_debug_to_inserts, add_debug_to_full, add_debug_to-IsSorted,
}
use projet_prog.Gdb.{escape, send_buffer, packet_check, write_memory}
use projet_prog.Gdb.Frame.{frame, sum, packet_check-send_buffer}
use projet_prog.Gdb.Payload.{spelled, memory_form, write_memory_reads}
use projet_prog.Gdb.Memory.{escape_all, unescape, write_memory_overflows}

abbrev name : List ℕ
name = b'm' ∷ b'.' ∷ b'c' ∷ []

abbrev files : List (List ℕ)
files = (b'a' ∷ b'.' ∷ b'c' ∷ []) ∷ (b'm' ∷ b'.' ∷ b'c' ∷ []) ∷ (b'z' ∷ b'.' ∷ b'c' ∷ []) ∷ []

files-IsSorted : IsSorted files
unfolding strcmp
files-IsSorted = ((λ e. cc, (λ e. cc, tt)), ((λ e. cc, tt), (tt, tt)))

is_debugged-Answers_example : Answers name files 0 3 (is_debugged name files)
is_debugged-Answers_example = is_debugged-Answers name files files-IsSorted

add_debug_to_inserts_example : add_debug_to name files ≡ ok (insert name files)
add_debug_to_inserts_example = add_debug_to_inserts name files (omega arith)

added : add_debug_to name files ≡ ok (insert name files)
unfolding add_debug_to find_place insert_at insert strcmp
added = refl

add_debug_to-IsSorted_example : IsSorted (insert name files) × (length (insert name files) ≤ 64)
add_debug_to-IsSorted_example = add_debug_to-IsSorted name files files-IsSorted (omega arith) added

-- A table of the same name, `n` times.
abbrev copies : ℕ → List (List ℕ)
copies zero = []
copies (suc n) = name ∷ copies n

add_debug_to_full_example :
    add_debug_to name (copies 64) ≡ (if place name (copies 64) == 64 then ok (copies 64) else fault)
add_debug_to_full_example = add_debug_to_full name (copies 64) refl

abbrev payload : List ℕ
payload = b'O' ∷ b'K' ∷ []

packet_check-send_buffer_example :
    (packet : List ℕ) × (send_buffer payload ≡ ok packet) × (packet_check packet ≡ true)
packet_check-send_buffer_example = packet_check-send_buffer payload (omega arith)

abbrev plain : ℕ → List ℕ
plain zero = []
plain (suc n) = b'x' ∷ plain n

abbrev memory : List ℕ
memory = 1 ∷ 0x7d ∷ b'$' ∷ 2 ∷ []

memory_fits : length (escape_all memory) ≤ 1000
unfolding escape_all escape
memory_fits = omega arith

write_memory_reads_example :
    (at count stored : List ℕ) × (write_memory 0x8000 memory
      ≡ some
          (ok (frame (memory_form at count stored) (sum (memory_form at count stored) % 256) ∷ [])))
    × (length at ≡ 8)
    × (spelled 0 at ≡ 0x8000)
    × (length count ≡ 8)
    × (spelled 0 count ≡ 4)
    × (unescape stored ≡ memory)
write_memory_reads_example =
    write_memory_reads 0x8000 1 (0x7d ∷ b'$' ∷ 2 ∷ []) (omega arith) memory_fits

memory_long : 1000 < length (escape_all (plain 1001))
unfolding escape_all escape
memory_long = omega arith

write_memory_overflows_example : write_memory 0x8000 (plain 1001) ≡ some fault
write_memory_overflows_example = write_memory_overflows 0x8000 b'x' (plain 1000) memory_long
