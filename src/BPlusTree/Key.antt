-- ===== src/BPlusTree/Key.antt =====
-- `serialize_string_key` of src/storage/b_plus_tree/b_plus_tree.cc: the first eight bytes of a string
-- as one `int64_t`, the first byte highest. `char` is signed, as on the platforms that the build files
-- name, so that a byte from 128 on stands for a negative number.
pub mod Order
use Prim.Native.Nat.{bit_or}
use model_lib.Prelude.{ℕ, zero, suc, ◌+◌, ◌-◌, ◌*◌, ◌%◌, ◌^◌, List, [], ◌∷◌, ltb, if◌then◌else◌}
use model_lib.Prelude.Int.{ℤ}
use model_lib.Word.{of_pattern}

-- `static_cast<int64_t>(*str)`, as a bit pattern.
unfoldable pub byte64 : ℕ → ℕ
byte64 b = if ltb b 128 then b else 2 ^ 64 - 256 + b

-- The loop, by the rounds that are left; `res` is a bit pattern too, and the string's end is the
-- zero byte that stops the loop.
unfoldable pub serialize_loop : ℕ → List ℕ → ℕ → ℕ → ℕ
serialize_loop zero str shift_size res = res
serialize_loop (suc rounds) [] shift_size res = res
serialize_loop (suc rounds) (b ∷ str) shift_size res =
    serialize_loop rounds str (shift_size - 8) (bit_or res (byte64 b * 2 ^ shift_size % 2 ^ 64))

unfoldable pub serialize_string_key : List ℕ → ℤ
serialize_string_key str = of_pattern (2 ^ 63) (serialize_loop 8 str (8 * 7) 0)
