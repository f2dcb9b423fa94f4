-- ===== src/Common/Words.antt =====
-- Fixed-width integers of the C program as natural numbers: their bytes in the memory of a
-- little-endian host, and the byte swaps of <byteswap.h>.
use Prim.Native.Nat.{ℕ, ◌+◌, ◌-◌, ◌*◌, ◌/◌, ◌%◌, ◌^◌, ◌<◌}
use mathlib.Core.Path.{◌≡◌}
use mathlib.Core.List.{List, [], ◌∷◌}
use native.Mathlib.Omega.{arith}

abbrev pub IsByte : ℕ → Type 0
IsByte b = b < 2 ^ 8

abbrev pub IsU16 : ℕ → Type 0
IsU16 x = x < 2 ^ 16

abbrev pub IsU32 : ℕ → Type 0
IsU32 x = x < 2 ^ 32

-- uint32_t and uint16_t subtraction; `-` stops at 0, so the modulus is added first.
unfoldable pub sub32 : ℕ → ℕ → ℕ
sub32 a b = (a + 2 ^ 32 - b) % 2 ^ 32

unfoldable pub sub16 : ℕ → ℕ → ℕ
sub16 a b = (a + 2 ^ 16 - b) % 2 ^ 16

unfoldable pub add32 : ℕ → ℕ → ℕ
add32 a b = (a + b) % 2 ^ 32

-- The value of the bytes that `fread` puts into an integer, lowest first.
unfoldable pub le_value : List ℕ → ℕ
le_value [] = 0
le_value (b ∷ bs) = b % 256 + 256 * le_value bs

-- The bytes that `fwrite` takes from an integer.
unfoldable pub le_bytes16 : ℕ → List ℕ
le_bytes16 x = (x % 256) ∷ (x / 256 % 256) ∷ []

unfoldable pub le_bytes32 : ℕ → List ℕ
le_bytes32 x = (x % 256) ∷ (x / 256 % 256) ∷ (x / 65536 % 256) ∷ (x / 16777216 % 256) ∷ []

unfoldable pub bswap_16 : ℕ → ℕ
bswap_16 x = x % 256 * 256 + x / 256 % 256

unfoldable pub bswap_32 : ℕ → ℕ
bswap_32 x = x % 256 * 16777216 + x / 256 % 256 * 65536 + x / 65536 % 256 * 256 + x / 16777216 % 256

unfoldable pub bswap_64 : ℕ → ℕ
bswap_64 x = bswap_32 (x % 2 ^ 32) * 2 ^ 32 + bswap_32 (x / 2 ^ 32)

-- What the program writes for an integer: its bytes swapped, so the highest first.
unfoldable pub put16 : ℕ → List ℕ
unfolding le_bytes16
put16 x = le_bytes16 (bswap_16 x)

unfoldable pub put32 : ℕ → List ℕ
unfolding le_bytes32
put32 x = le_bytes32 (bswap_32 x)

-- What the program makes of the bytes that it reads into an integer.
unfoldable pub get16 : List ℕ → ℕ
unfolding le_value
get16 bs = bswap_16 (le_value bs)

unfoldable pub get32 : List ℕ → ℕ
unfolding le_value
get32 bs = bswap_32 (le_value bs)

pub get16-put16 : (x : ℕ) → IsU16 x → get16 (put16 x) ≡ x
unfolding get16 put16 bswap_16
get16-put16 x h = omega arith

pub get32-put32 : (x : ℕ) → IsU32 x → get32 (put32 x) ≡ x
unfolding get32 put32 bswap_32
get32-put32 x h = omega arith
