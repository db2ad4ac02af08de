-- ===== src/Tests/HeapPages.antt =====
-- A page of records without slots, and one with a record.
use mathlib.Core.Path.{subst}
use model_lib.Prelude.{
  ℕ, ◌-◌, ◌<◌, ◌≡◌, ◌≢◌, refl, false, Option, none, some, List, [], ◌∷◌, map, get_or, arith,
}
use model_lib.Prelude.Int.{pos}
use model_lib.Word.{bytes_int32, bytes_int64, from_bytes, of_pattern}
use model_lib.Page.{Page, load, read_int32, read_int64}
use model_lib.Value.{DataType, Value, as_int, datatype}
use model_lib.HeapPage.{
  get_dir_count, get_free_space, get_dir, get_record, delete_record, init, try_insert_record,
  read_values,
}
use model_lib.HeapFile.Pages.{IsUsed}
use model_lib.HeapPage.Layout.{IsLaidOut, Slot, live}
use model_lib.HeapPage.Insert.{Outcome, try_insert_record-Outcome}
use model_lib.HeapPage.Delete.{delete_record-IsLaidOut, init_lem}

-- One slot, and 4076 bytes of free space; the record stands at 4088 and holds 5.
abbrev pub one_record : Page
one_record = record {
  bytes = λ k.
      get_or (1 ∷ 0 ∷ 0 ∷ 0 ∷ 236 ∷ 15 ∷ 0 ∷ 0 ∷ 248 ∷ 15 ∷ 0 ∷ 0 ∷ []) k
        (get_or (5 ∷ []) (k - 4088) 0);
  dirty = false;
}

abbrev pub six : List Value
six = as_int (pos 6) ∷ []

abbrev pub types : List DataType
types = map datatype six

first-Slot : Slot types one_record 4088 0
unfolding get_dir read_values read_int32 read_int64 load bytes_int32 bytes_int64 from_bytes
    of_pattern datatype
first-Slot = live 4088 (as_int (pos 5) ∷ []) refl (omega arith) (omega arith) refl

one_record_laid : IsLaidOut types one_record
unfolding get_dir_count get_free_space read_int32 load bytes_int32 from_bytes of_pattern
one_record_laid = record {
  count = 1;
  free = 4076;
  count_is = refl;
  free_is = refl;
  fits = omega arith;
  slots = λ i lt. subst (Slot types one_record 4088) (omega arith) first-Slot;
}

try_insert_record-Outcome_example :
    (a : Page × Option ℕ) × (try_insert_record one_record six ≡ some a)
    × Outcome one_record 1 4076 six a
unfolding one_record_laid
try_insert_record-Outcome_example =
    try_insert_record-Outcome one_record (as_int (pos 6)) [] one_record_laid (omega arith)

delete_record-IsLaidOut_example :
    (q : Page) × (delete_record one_record 0 ≡ some q)
    × ((after : IsLaidOut types q) × (after.count ≡ 1) × (after.free ≡ 4076))
    × (get_record q 0 types ≡ some none)
    × ((j : ℕ) → j < 1 → j ≢ 0 → get_record q j types ≡ get_record one_record j types)
unfolding one_record_laid
delete_record-IsLaidOut_example =
    delete_record-IsLaidOut types one_record one_record_laid 0 (omega arith)

init_lem_example : init one_record ≡ some one_record
unfolding one_record_laid
init_lem_example = init_lem types one_record one_record_laid (omega arith)

pub one_record-IsUsed : IsUsed types one_record
unfolding one_record_laid
one_record-IsUsed = record { laid = one_record_laid; used = omega arith }
