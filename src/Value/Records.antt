-- ===== src/Value/Records.antt =====
-- `Record::set` of src/relational_model/record.cc: what the buffer of a table holds after it.
use model_lib.Prelude.{
  ℕ, suc, ◌≤◌, ◌<◌, ◌≡◌, refl, ap, Option, some, List, [], ◌∷◌, map, length, All, arith, le→leb,
  ==_iff,
}
use model_lib.Prelude.Int.{ℤ, IsInt64}
use model_lib.Value.{
  str, int, Value, as_str, as_int, datatype, max_strlen, c_str, of_string, Cell, string_view, int64,
  set_value, set_loop, set, IsChar, IsValue,
}

-- The new values have the types of the record's, and fit.
pub data Matches : List Value → List Cell → Type 0 where
  no_values : Matches [] []
  int_cell :
      {a : ℤ} {vs : List Value} {cells : List Cell} (z : ℤ)
      → IsInt64 z
      → Matches vs cells
      → Matches (as_int a ∷ vs) (int64 z ∷ cells)
  str_cell :
      {t : List ℕ} {vs : List Value} {cells : List Cell} (s : List ℕ)
      → length s ≤ max_strlen
      → All (λ b. b < 256) s
      → Matches vs cells
      → Matches (as_str t ∷ vs) (string_view s ∷ cells)

length-c_str : (s : List ℕ) → length (c_str s) ≤ length s
unfolding c_str
length-c_str [] = omega arith
length-c_str (b ∷ s) = ground (arith, length-c_str s)

c_str_chars : (s : List ℕ) → All (λ b. b < 256) s → All IsChar (c_str s)
unfolding c_str
c_str_chars [] h = tt
c_str_chars (b ∷ s) h = ground (arith, c_str_chars s h.1)

same_length : (vs : List Value) (cells : List Cell) → Matches vs cells → length cells ≡ length vs
same_length vs cells no_values = refl
same_length vs cells (int_cell z fits rest) = ap suc (same_length _ _ rest)
same_length vs cells (str_cell s short bytes rest) = ap suc (same_length _ _ rest)

-- The value that a cell stands for: a string ends at its first zero byte.
abbrev pub cell_value : Cell → Value
cell_value (int64 z) = as_int z
cell_value (string_view s) = as_str (c_str s)

abbrev Sets : List Value → List Cell → Option (List Value) → Type 0
Sets vs cells o =
    (ws : List Value) × (o ≡ some ws)
    × (ws ≡ map cell_value cells)
    × All IsValue ws
    × (map datatype ws ≡ map datatype vs)

set_loop-Sets :
    (vs : List Value) (cells : List Cell) → Matches vs cells → Sets vs cells (set_loop vs cells)
unfolding set_loop set_value of_string datatype
set_loop-Sets vs cells no_values = ([], refl, refl, tt, refl)
set_loop-Sets vs cells (int_cell z fits rest) =
    let (ws, done, given, values, types) = set_loop-Sets _ _ rest in
    (as_int z ∷ ws, rw done refl, ap (as_int z ∷◌) given, (fits, values), ap (int ∷◌) types)
set_loop-Sets vs cells (str_cell s short bytes rest) =
    let (ws, done, given, values, types) = set_loop-Sets _ _ rest in
    (
      as_str (c_str s) ∷ ws,
      rw (le→leb (length s) max_strlen short, done) refl,
      ap (as_str (c_str s) ∷◌) given,
      ((omega (arith, length-c_str s), c_str_chars s bytes), values),
      ap (str ∷◌) types,
    )

-- If the new values have the types of the record's, integers fit an `int64_t` and strings are 255
-- bytes at most, `set` returns: the record holds the new values, each of which the program can hold,
-- and its types are as before.
pub set-IsValue :
    (vs : List Value) (cells : List Cell)
    → Matches vs cells
    → (ws : List Value) × (set vs cells ≡ some ws)
      × (ws ≡ map cell_value cells)
      × All IsValue ws
      × (map datatype ws ≡ map datatype vs)
unfolding set
set-IsValue vs cells m =
    rw ((==_iff (length cells) (length vs)).1 (same_length vs cells m)) (set_loop-Sets vs cells m)
