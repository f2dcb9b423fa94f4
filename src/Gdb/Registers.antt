-- ===== src/Gdb/Registers.antt =====
-- The value in the packet of `write_register`.
use projet_prog.Common.{◌≡◌, refl, Bool, true, false, ℕ}
use projet_prog.Gdb.{is_big_endian, value_bytes, hex_bytes, backwards, write_uint32}

-- On a host of either byte order, `is_big_endian` tells that order, and the digits of a value are
-- those of its bytes in the order of the target, so they do not depend on the host.
pub write_uint32-hex_bytes :
    (host_big target_big : Bool) (v : ℕ)
    → (is_big_endian host_big ≡ host_big)
      × (write_uint32 host_big target_big v ≡ hex_bytes (value_bytes target_big v))
unfolding write_uint32 is_big_endian value_bytes backwards
write_uint32-hex_bytes true true v = (refl, refl)
write_uint32-hex_bytes true false v = (refl, refl)
write_uint32-hex_bytes false true v = (refl, refl)
write_uint32-hex_bytes false false v = (refl, refl)
