-- ===== src/Value/Store/Calls.antt =====
-- The constructors, assignments and the destructor of src/relational_model/value.cc: no array is
-- deleted twice, none is lost, and the objects behave as values.
use model_lib.Prelude.{ℕ, ◌≤◌, ◌≡◌, ap, Option, none, some, List, length}
use model_lib.Prelude.Int.{ℤ}
use model_lib.Value.{Value, as_str, as_int, max_strlen, c_str}
use model_lib.Value.Store.{
  Memory, from_int, from_str, copy, move, assign, assign_move, destroy, value_at,
}
use model_lib.Value.Store.Owned.{object_block}
use model_lib.Value.Store.Changes.{IsOwned}
use model_lib.Value.Store.Move.{put, left}
use model_lib.Value.Store.Puts.{IsPresent}
use model_lib.Value.Store.Construct.{from_int-Answers, from_str-Answers, copy-Answers}
use model_lib.Value.Store.Assign.{
  move-Answers, assign-Answers, assign_move-Answers, destroy-Answers,
}

-- A call on the object `o`, with the other object where there is one.
pub data Call : Type 0 where
  from_int_at : ℕ → ℤ → Call
  from_str_at : ℕ → List ℕ → Call
  copy_at : ℕ → ℕ → Call
  move_at : ℕ → ℕ → Call
  assign_at : ℕ → ℕ → Call
  assign_move_at : ℕ → ℕ → Call
  destroy_at : ℕ → Call

abbrev pub run : Call → Memory → Option Memory
run (from_int_at o z) m = from_int m o z
run (from_str_at o s) m = from_str m o s
run (copy_at o src) m = copy m o src
run (move_at o src) m = move m o src
run (assign_at o src) m = assign m o src
run (assign_move_at o src) m = assign_move m o src
run (destroy_at o) m = destroy m o

-- A constructor has room for an object, and the other calls have their objects.
abbrev pub IsCallable : Call → Memory → Type 0
IsCallable (from_int_at o z) m = m.objects o ≡ none
IsCallable (from_str_at o s) m = (m.objects o ≡ none) × (length s ≤ max_strlen)
IsCallable (copy_at o src) m = (m.objects o ≡ none) × IsPresent m src
IsCallable (move_at o src) m = (m.objects o ≡ none) × IsPresent m src
IsCallable (assign_at o src) m = IsPresent m o × IsPresent m src
IsCallable (assign_move_at o src) m = IsPresent m o × IsPresent m src
IsCallable (destroy_at o) m = IsPresent m o

-- The values after a call.
abbrev pub after : Call → (ℕ → Option Value) → ℕ → Option Value
after (from_int_at o z) values = put o (some (as_int z)) values
after (from_str_at o s) values = put o (some (as_str (c_str s))) values
after (copy_at o src) values = put o (values src) values
after (move_at o src) values = put src (left (values src)) (put o (values src) values)
after (assign_at o src) values = put o (values src) values
after (assign_move_at o src) values = put src (left (values src)) (put o (values src) values)
after (destroy_at o) values = put o none values

-- In a memory where each array has one owner, every call returns: no array is deleted twice or read
-- after it was deleted. Each array has one owner afterwards, and so none is lost. A constructor and
-- an assignment give the object the value of the string, the integer or the other object, an object
-- to itself too; a string that was moved is gone from the other object, an integer is not; the
-- destructor takes the object away; and no other object changes its value.
pub run-Answers :
    (m : Memory) (c : Call)
    → IsOwned m
    → IsCallable c m
    → (m' : Memory) × (run c m ≡ some m')
      × (IsOwned m' × ((j : ℕ) → value_at m' j ≡ after c (value_at m) j))
run-Answers m (from_int_at o z) own free = from_int-Answers m own o z free
run-Answers m (from_str_at o s) own (free, fits) = from_str-Answers m own o s free fits
run-Answers m (copy_at o src) own (free, there) = copy-Answers m own o src free there
run-Answers m (move_at o src) own (free, there) =
    move-Answers m own o src (ap object_block free) there
run-Answers m (assign_at o src) own (here, there) = assign-Answers m own o src here there
run-Answers m (assign_move_at o src) own (here, there) = assign_move-Answers m own o src here there
run-Answers m (destroy_at o) own here = destroy-Answers m own o here
