-- ===== src/Tests/Values.antt =====
-- Concrete values, keys and integers.
use Prim.Native.Nat.{Ordering}
use model_lib.Prelude.{some, map, All, ℕ, ◌≡◌, ◌↔◌, List, [], ◌∷◌, arith, true}
use model_lib.Prelude.Int.{pos, negsuc, ◌≤ℤ◌, ◌<ℤ◌}
use model_lib.Value.Records.{cell_value, no_values, int_cell, str_cell, set-IsValue}
use model_lib.Value.{
  set, int64, string_view, datatype, IsValue, Value, as_int, as_str, strcmp, less, equal,
}
use model_lib.Value.Order.{Verdict, less-IsTotalOrder}
use model_lib.BPlusTree.Key.{serialize_string_key}
use model_lib.BPlusTree.Key.Order.{serialize_string_key_mono, serialize_string_key_reverses}

abbrev small : Value
small = as_str (97 ∷ 98 ∷ [])

abbrev large : Value
large = as_str (97 ∷ 99 ∷ [])

abbrev number : Value
number = as_int (negsuc 4)

less-IsTotalOrder_example :
    ((o : Ordering) × Verdict large number o)
    × ((equal large number ≡ true) ↔ (large ≡ number))
    × (less small large ≡ true → less large number ≡ true → less small number ≡ true)
less-IsTotalOrder_example = less-IsTotalOrder small large number

abbrev ab : List ℕ
ab = 97 ∷ 98 ∷ []

abbrev abc : List ℕ
abc = 97 ∷ 98 ∷ 99 ∷ []

serialize_string_key_mono_example :
    (strcmp ab abc ≡ Ordering.lt → serialize_string_key ab ≤ℤ serialize_string_key abc)
    × (serialize_string_key ab <ℤ serialize_string_key abc → strcmp ab abc ≡ Ordering.lt)
serialize_string_key_mono_example = serialize_string_key_mono ab abc (omega arith) (omega arith)

-- `z` and `é`.
serialize_string_key_reverses_example :
    (strcmp (122 ∷ []) (195 ∷ 169 ∷ []) ≡ Ordering.lt)
    × (serialize_string_key (195 ∷ 169 ∷ []) <ℤ serialize_string_key (122 ∷ []))
serialize_string_key_reverses_example =
    serialize_string_key_reverses 122 [] 195 (169 ∷ []) (omega arith) (omega arith) (omega arith)

-- A new record of a number and a string.
set-IsValue_example :
    (ws : List Value) × (set
        (as_int (pos 0) ∷ as_str [] ∷ [])
        (int64 (negsuc 6) ∷ string_view (97 ∷ 0 ∷ 98 ∷ []) ∷ [])
      ≡ some ws)
    × (ws ≡ map cell_value (int64 (negsuc 6) ∷ string_view (97 ∷ 0 ∷ 98 ∷ []) ∷ []))
    × All IsValue ws
    × (map datatype ws ≡ map datatype (as_int (pos 0) ∷ as_str [] ∷ []))
set-IsValue_example =
    set-IsValue (as_int (pos 0) ∷ as_str [] ∷ [])
      (int64 (negsuc 6) ∷ string_view (97 ∷ 0 ∷ 98 ∷ []) ∷ [])
      (int_cell (negsuc 6) (omega arith)
        (str_cell (97 ∷ 0 ∷ 98 ∷ []) (omega arith) (omega arith) no_values))
