-- ===== src/Value.antt =====
-- src/relational_model/value.{h,cc}, schema.h and record.{h,cc}: typed values, their order, and the
-- records of a schema. A string value is the bytes that its buffer holds before the first zero byte.
pub mod Order
pub mod Records
pub mod Store
use Prim.Native.Nat.{compare, Ordering}
use model_lib.Prelude.{
  ℕ, zero, suc, ◌+◌, ◌≤◌, ◌<◌, ◌≡◌, Bool, true, false, not, Option, none, some, List, [], ◌∷◌, map,
  ltb, leb, ◌==◌, if◌then◌else◌, length, All, assert, ◌>>=◌, ◌>>◌,
}
use model_lib.Prelude.Int.{ℤ, pos, ltb_ℤ, eqb_ℤ, IsInt64}

pub data DataType : Type 0 where
  str int : DataType

pub record ColumnInfo : Type 0 where
  pub name : List ℕ
  pub datatype : DataType

-- `Schema::columns`
abbrev pub Schema : Type 0
Schema = List ColumnInfo

-- `Value::MAX_STRLEN`
abbrev pub max_strlen : ℕ
max_strlen = 255

pub data Value : Type 0 where
  as_str : List ℕ → Value
  as_int : ℤ → Value

unfoldable pub datatype : Value → DataType
datatype (as_str s) = str
datatype (as_int z) = int

-- The bytes of a buffer before its first zero byte.
unfoldable pub c_str : List ℕ → List ℕ
c_str [] = []
c_str (b ∷ bs) = let rest = c_str bs in if b == 0 then [] else b ∷ rest

-- `std::strcmp`, by the first pair of bytes that differ; a string's end counts as a zero byte.
unfoldable pub strcmp : List ℕ → List ℕ → Ordering
strcmp [] [] = Ordering.eq
strcmp [] (b ∷ t) = Ordering.lt
strcmp (a ∷ s) [] = Ordering.gt
strcmp (a ∷ s) (b ∷ t) = elim (compare a b) [
  | Ordering.eq ↦ strcmp s t
  | Ordering.lt ↦ Ordering.lt
  | Ordering.gt ↦ Ordering.gt
]

abbrev pub is_lt : Ordering → Bool
is_lt Ordering.lt = true
is_lt _ = false

abbrev pub is_eq : Ordering → Bool
is_eq Ordering.eq = true
is_eq _ = false

-- `Value::operator<`; `DataType::STR` is below `DataType::INT`.
unfoldable pub less : Value → Value → Bool
less (as_int a) (as_int b) = ltb_ℤ a b
less (as_str s) (as_str t) = is_lt (strcmp s t)
less (as_str s) (as_int b) = true
less (as_int a) (as_str t) = false

-- `Value::operator==`
unfoldable pub equal : Value → Value → Bool
equal (as_int a) (as_int b) = eqb_ℤ a b
equal (as_str s) (as_str t) = is_eq (strcmp s t)
equal (as_str s) (as_int b) = false
equal (as_int a) (as_str t) = false

-- `operator<=` and `operator>=`
unfoldable pub less_equal : Value → Value → Bool
less_equal v w = not (less w v)

unfoldable pub greater_equal : Value → Value → Bool
greater_equal v w = not (less v w)

-- `Value(const std::string&)`: the assert on the size, and what `c_str()` shows.
unfoldable pub of_string : List ℕ → Option Value
of_string s = do assert (leb (length s) max_strlen); some (as_str (c_str s))

-- `Record::Record(const Schema&)`
unfoldable pub default_value : DataType → Value
default_value int = as_int (pos 0)
default_value str = as_str []

unfoldable pub new_record : Schema → List Value
unfolding default_value
new_record [] = []
new_record (c ∷ cs) = default_value c.datatype ∷ new_record cs

-- `std::variant<std::string_view, int64_t>`. Every view that the program passes is followed by a
-- zero byte, which `Record::set` copies with it.
pub data Cell : Type 0 where
  string_view : List ℕ → Cell
  int64 : ℤ → Cell

-- One round of the loop of `Record::set`.
unfoldable pub set_value : Value → Cell → Option Value
set_value (as_int a) (int64 z) = some (as_int z)
set_value (as_int a) (string_view s) = none
set_value (as_str t) (int64 z) = none
set_value (as_str t) (string_view s) = of_string s

-- The assert on the sizes fails before anything is written.
set_loop : List Value → List Cell → Option (List Value)
unfolding set_value of_string c_str
set_loop [] cells = some []
set_loop (v ∷ vs) [] = none
set_loop (v ∷ vs) (c ∷ cs) = do v' ← set_value v c; vs' ← set_loop vs cs; some (v' ∷ vs')

-- `Record::set`
unfoldable pub set : List Value → List Cell → Option (List Value)
unfolding set_loop
set vs cells = do assert (length cells == length vs); set_loop vs cells

-- What the program keeps in a value: an `int64_t`, or at most 255 bytes, none of them zero.
abbrev pub IsChar : ℕ → Type 0
IsChar b = (0 < b) × (b < 256)

abbrev pub IsValue : Value → Type 0
IsValue (as_int z) = IsInt64 z
IsValue (as_str s) = (length s ≤ max_strlen) × All IsChar s
