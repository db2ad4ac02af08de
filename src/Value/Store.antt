-- ===== src/Value/Store.antt =====
-- The memory of the values of src/relational_model/value.cc: the constructors, the assignments and the
-- destructor, with the arrays that `new char[]` gives and `delete[]` takes. An array is the string in
-- it; an address is not given again. A `delete[]` of an array that is not there gives `none`.
pub mod Owned
pub mod Changes
pub mod Move
pub mod Puts
pub mod Construct
pub mod Assign
pub mod Calls
use model_lib.Prelude.{
  ℕ, suc, ◌≡◌, ◌≢◌, Option, none, some, List, leb, ◌==◌, if◌then◌else◌, length, assert, ◌>>=◌, ◌>>◌,
}
use model_lib.Prelude.Int.{ℤ}
use model_lib.Value.{DataType, str, int, Value, as_str, as_int, max_strlen, c_str}

-- `union ValueUnion`, with the member that was written last.
pub data ValueUnion : Type 0 where
  pointer : ℕ → ValueUnion
  number : ℤ → ValueUnion

-- The members of a `Value`.
pub record Object : Type 0 where
  pub datatype : DataType
  pub value : ValueUnion

-- The arrays by their address, and the objects that are constructed.
pub record Memory : Type 0 where
  pub blocks : ℕ → Option (List ℕ)
  pub next : ℕ
  pub objects : ℕ → Option Object

abbrev pub set_object : Memory → ℕ → Option Object → Memory
set_object m o x = record m { objects = λ j. if o == j then x else m.objects j }

abbrev pub set_block : Memory → ℕ → Option (List ℕ) → Memory
set_block m p s = record m { blocks = λ q. if p == q then s else m.blocks q }

abbrev pub pointer_of : ValueUnion → Option ℕ
pointer_of (pointer p) = some p
pointer_of (number z) = none

-- `value.as_str = new char[MAX_STRLEN + 1]` in object `o`, and the bytes that are copied to it.
abbrev pub new_str : Memory → ℕ → List ℕ → Memory
new_str m o s =
    set_object (record (set_block m m.next (some s)) { next = suc m.next }) o
      (some (record { datatype = str; value = pointer m.next }))

unfoldable pub from_int : Memory → ℕ → ℤ → Option Memory
from_int m o z = some (set_object m o (some (record { datatype = int; value = number z })))

-- The constructors from a string.
unfoldable pub from_str : Memory → ℕ → List ℕ → Option Memory
from_str m o s = do assert (leb (length s) max_strlen); some (new_str m o (c_str s))

-- What `std::memcpy(…, other.value.as_str, …)` reads.
abbrev pub read_str : Memory → ValueUnion → Option (List ℕ)
read_str m u = pointer_of u >>= m.blocks

abbrev pub copy_members : Memory → ℕ → DataType → ValueUnion → Option Memory
copy_members m o int u = some (set_object m o (some (record { datatype = int; value = u })))
copy_members m o str u = do s ← read_str m u; some (new_str m o s)

-- `Value(const Value&)`
unfoldable pub copy : Memory → ℕ → ℕ → Option Memory
copy m o src = do other ← m.objects src; copy_members m o other.datatype other.value

-- `delete[] value.as_str`
abbrev pub delete_str : Memory → ValueUnion → Option Memory
delete_str m u = do p ← pointer_of u; held ← m.blocks p; some (set_block m p none)

-- The branch of a destructor and an assignment on the object's own type.
abbrev pub release : Memory → DataType → ValueUnion → Option Memory
release m int u = some m
release m str u = delete_str m u

-- The last branch of a move: the other object gives its array away.
abbrev pub leave : Memory → ℕ → DataType → ValueUnion → Memory
leave m src int u = m
leave m src str u = set_object m src (some (record { datatype = int; value = u }))

-- `Value(Value&&)`
unfoldable pub move : Memory → ℕ → ℕ → Option Memory
move m o src = do
  other ← m.objects src
  some (leave (set_object m o (some other)) src other.datatype other.value)

abbrev pub assign_members :
    Memory → ℕ → DataType → ValueUnion → DataType → ValueUnion → Option Memory
assign_members m o int t str u = do s ← read_str m u; some (new_str m o s)
assign_members m o str t str u = do
  p ← pointer_of t
  held ← m.blocks p
  s ← read_str m u
  some (set_object (set_block m p (some s)) o (some (record { datatype = str; value = t })))
assign_members m o int t int u = some (set_object m o (some (record { datatype = int; value = u })))
assign_members m o str t int u = do
  m' ← delete_str m t
  some (set_object m' o (some (record { datatype = int; value = u })))

-- `operator=(const Value&)`
unfoldable pub assign : Memory → ℕ → ℕ → Option Memory
assign m o src = do
  this ← m.objects o
  other ← m.objects src
  assign_members m o this.datatype this.value other.datatype other.value

-- `operator=(Value&&)`
unfoldable pub assign_move : Memory → ℕ → ℕ → Option Memory
assign_move m o src = do this ← m.objects o; m' ← release m this.datatype this.value; move m' o src

-- `~Value`
unfoldable pub destroy : Memory → ℕ → Option Memory
destroy m o = do
  this ← m.objects o
  m' ← release m this.datatype this.value
  some (set_object m' o none)

-- The value of an object, where it has one: an object that gave its array away has none.
abbrev pub members_value : (ℕ → Option (List ℕ)) → DataType → ValueUnion → Option Value
members_value blocks int (number z) = some (as_int z)
members_value blocks int (pointer p) = none
members_value blocks str (number z) = none
members_value blocks str (pointer p) = do s ← blocks p; some (as_str s)

abbrev pub object_value : (ℕ → Option (List ℕ)) → Option Object → Option Value
object_value blocks none = none
object_value blocks (some x) = members_value blocks x.datatype x.value

unfoldable pub value_at : Memory → ℕ → Option Value
value_at m o = object_value m.blocks (m.objects o)
