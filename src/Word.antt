-- ===== src/Word.antt =====
-- The bytes of integers in memory: little endian, two's complement, as `memcpy` from and into an
-- `int32_t` or `int64_t` sees them in src/storage/page.cc and as the shift loops of
-- src/system/catalog.cc write and read them.
pub mod Laws
pub mod Bits
use model_lib.Prelude.{
  ℕ, zero, suc, ◌+◌, ◌-◌, ◌*◌, ◌/◌, ◌%◌, ◌^◌, List, [], ◌∷◌, ltb, if◌then◌else◌,
}
use model_lib.Prelude.Int.{ℤ, pos, negsuc}

-- The `k` lowest bytes of `u`, lowest first.
unfoldable pub to_bytes : ℕ → ℕ → List ℕ
to_bytes zero u = []
to_bytes (suc k) u = u % 256 ∷ to_bytes k (u / 256)

unfoldable pub from_bytes : List ℕ → ℕ
from_bytes [] = 0
from_bytes (b ∷ bs) = b + 256 * from_bytes bs

-- The bit pattern of a signed value, of width `w = 2 * h`.
unfoldable pub to_pattern : ℕ → ℤ → ℕ
to_pattern h (pos n) = n
to_pattern h (negsuc n) = 2 * h - n - 1

unfoldable pub of_pattern : ℕ → ℕ → ℤ
of_pattern h u = if ltb u h then pos u else negsuc (2 * h - u - 1)

unfoldable pub int32_bytes : ℤ → List ℕ
int32_bytes z = to_bytes 4 (to_pattern (2 ^ 31) z)

unfoldable pub bytes_int32 : List ℕ → ℤ
bytes_int32 bs = of_pattern (2 ^ 31) (from_bytes bs)

unfoldable pub int64_bytes : ℤ → List ℕ
int64_bytes z = to_bytes 8 (to_pattern (2 ^ 63) z)

unfoldable pub bytes_int64 : List ℕ → ℤ
bytes_int64 bs = of_pattern (2 ^ 63) (from_bytes bs)
