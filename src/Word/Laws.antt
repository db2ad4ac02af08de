-- ===== src/Word/Laws.antt =====
-- Reading the bytes of an integer gives the integer back.
use model_lib.Prelude.{ℕ, zero, suc, ◌*◌, ◌/◌, ◌^◌, ◌<◌, ◌≡◌, refl, arith, length}
use model_lib.Prelude.Int.{ℤ, pos, negsuc, IsSigned, IsInt32, IsInt64}
use model_lib.Word.{
  to_bytes, from_bytes, to_pattern, of_pattern, int32_bytes, bytes_int32, int64_bytes, bytes_int64,
}
use native.Mathlib.Nat.{pow-suc}

pub length-to_bytes : (k u : ℕ) → length (to_bytes k u) ≡ k
unfolding to_bytes
length-to_bytes zero u = refl
length-to_bytes (suc k) u = omega (arith, length-to_bytes k (u / 256))

pub from_bytes-to_bytes : (k u : ℕ) → u < 256 ^ k → from_bytes (to_bytes k u) ≡ u
unfolding to_bytes from_bytes
from_bytes-to_bytes zero u h = omega arith
from_bytes-to_bytes (suc k) u h =
    let below : u < 256 ^ k * 256 = rw pow-suc at h in
    omega (arith, from_bytes-to_bytes k (u / 256) (omega arith))

pub of_pattern-to_pattern : (h : ℕ) (z : ℤ) → IsSigned h z → of_pattern h (to_pattern h z) ≡ z
unfolding to_pattern of_pattern
of_pattern-to_pattern h (pos n) r = ground arith
of_pattern-to_pattern h (negsuc n) r = ground arith

pub to_pattern-lt : (h : ℕ) (z : ℤ) → IsSigned h z → to_pattern h z < 2 * h
unfolding to_pattern
to_pattern-lt h (pos n) r = omega arith
to_pattern-lt h (negsuc n) r = omega arith

pub length-int32_bytes : (z : ℤ) → length (int32_bytes z) ≡ 4
unfolding int32_bytes
length-int32_bytes z = length-to_bytes 4 _

pub length-int64_bytes : (z : ℤ) → length (int64_bytes z) ≡ 8
unfolding int64_bytes
length-int64_bytes z = length-to_bytes 8 _

pub bytes_int32-int32_bytes : (z : ℤ) → IsInt32 z → bytes_int32 (int32_bytes z) ≡ z
unfolding int32_bytes bytes_int32
bytes_int32-int32_bytes z r =
    rw (from_bytes-to_bytes 4 (to_pattern (2 ^ 31) z) (to_pattern-lt (2 ^ 31) z r))
      (of_pattern-to_pattern (2 ^ 31) z r)

pub bytes_int64-int64_bytes : (z : ℤ) → IsInt64 z → bytes_int64 (int64_bytes z) ≡ z
unfolding int64_bytes bytes_int64
bytes_int64-int64_bytes z r =
    rw (from_bytes-to_bytes 8 (to_pattern (2 ^ 63) z) (to_pattern-lt (2 ^ 63) z r))
      (of_pattern-to_pattern (2 ^ 63) z r)
