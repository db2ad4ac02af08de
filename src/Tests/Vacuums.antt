-- ===== src/Tests/Vacuums.antt =====
-- `vacuum`, and the invariant of a page of records, at the page with a record and at a new page.
use model_lib.Prelude.{
  ℕ, ◌+◌, ◌*◌, ◌-◌, ◌≤◌, ◌<◌, ◌≡◌, refl, Option, some, List, [], ◌∷◌, map, All, arith,
}
use model_lib.Prelude.Int.{pos, negsuc, ◌+ℤ◌, ◌-ℤ◌, times_four, to_size}
use model_lib.Word.{
  int32_bytes, int64_bytes, bytes_int32, from_bytes, of_pattern, to_bytes, to_pattern,
}
use model_lib.Page.{Page, Bytes, size, load, put, read_int32, read_int64, write_int32, write_int64}
use model_lib.Value.{Value, as_int, datatype, IsValue}
use model_lib.HeapPage.{
  get_dir_count, get_free_space, get_dir, set_dir_count, set_dir, set_free_space, record_size, init,
  try_insert_record, delete_record, append_dir, place, find_dir, write_values,
}
use model_lib.HeapPage.Delete.{zeros}
use model_lib.HeapPage.Encoding.{Stored, encode}
use model_lib.HeapPage.Layout.{IsLaidOut}
use model_lib.HeapPage.Vacuum.{vacuum}
use model_lib.HeapPage.Vacuum.Live.{Live, no_slots, live_slot, total}
use model_lib.HeapPage.Vacuum.Whole.{vacuum-Live}
use model_lib.HeapPage.Sound.{IsSound, sizes}
use model_lib.HeapPage.Sound.Reach.{
  Step, inserts, deletes, opened, stepped, Effect, Step-Effect, IsSound-answers, Reached-IsSound,
}
use model_lib.HeapFile.{HeapFile}
use model_lib.HeapFile.Vacuum.{SameRecords, vacuum-SameRecords}
use model_lib.HeapFile.Vacuum
use model_lib.Tests.HeapPages.{one_record, six, types}

abbrev five : List Value
five = as_int (pos 5) ∷ []

five-Stored : Stored types one_record 4088 five
unfolding load encode record_size int64_bytes to_bytes to_pattern datatype
five-Stored = record { typed = refl; valid = omega arith; inside = omega arith; bytes = refl }

five-Live : Live types one_record 4088 0 1 (five ∷ [])
unfolding get_dir read_int32 load bytes_int32 from_bytes of_pattern
five-Live = live_slot 4088 five refl (omega arith) (omega arith) five-Stored no_slots

one_count : get_dir_count one_record ≡ some (pos 1)
unfolding get_dir_count read_int32 load bytes_int32 from_bytes of_pattern
one_count = refl

one_free : get_free_space one_record ≡ some (pos 4076)
unfolding get_free_space read_int32 load bytes_int32 from_bytes of_pattern
one_free = refl

one_record-IsSound : IsSound types one_record
unfolding sizes record_size
one_record-IsSound = record {
  count = 1;
  free = 4076;
  records = five ∷ [];
  count_is = one_count;
  free_is = one_free;
  live = five-Live;
  room = omega arith;
}

-- What `new char[Page::SIZE]` may hold.
abbrev noise : Bytes
noise k = 205

vacuum-Live_example :
    (q : Page) × (vacuum noise types one_record ≡ some q)
    × ((laid : IsLaidOut types q) × (laid.count ≡ 1)
        × (laid.free ≡ size - 8 - total (five ∷ []))
        × Live types q (8 + 4 * 1 + (size - 8 - total (five ∷ []))) 0 1 (five ∷ []))
unfolding total record_size
vacuum-Live_example =
    vacuum-Live noise types one_record 4088 1 (five ∷ []) one_count five-Live (omega arith)

-- The page once its record is deleted.
abbrev emptied : Page
emptied = put one_record 8 (int32_bytes (negsuc 0))

abbrev deletion : Step types one_record emptied
deletion = deletes 0 1 one_count (omega arith) (unfold delete_record set_dir write_int32 in refl)

Step-Effect_example : (s' : IsSound types emptied) × Effect deletion one_record-IsSound s'
unfolding one_record-IsSound
Step-Effect_example = Step-Effect one_record-IsSound emptied deletion

IsSound-answers_example :
    ((v : Value) (vs : List Value)
      → map datatype (v ∷ vs) ≡ types
      → All IsValue (v ∷ vs)
      → (a : Page × Option ℕ) × (try_insert_record one_record (v ∷ vs) ≡ some a))
    × ((i : ℕ) → i < 1 → (q : Page) × (delete_record one_record i ≡ some q))
    × ((raw : Bytes) → (q : Page) × (vacuum raw types one_record ≡ some q))
unfolding one_record-IsSound
IsSound-answers_example = IsSound-answers one_record-IsSound

-- A new page, and the page that an insertion of 6 makes of it.
abbrev new_page : Page
new_page = put zeros 4 (int32_bytes (pos 4088))

abbrev with_six : Page
with_six =
    put
      (put (put (put new_page 0 (int32_bytes (pos 1))) 4 (int32_bytes (pos 4076))) 8
        (int32_bytes (pos 4088)))
      4088 (int64_bytes (pos 6))

new_page_done : init zeros ≡ some new_page
unfolding init get_dir_count get_free_space set_free_space read_int32 write_int32 load bytes_int32
    from_bytes of_pattern
new_page_done = refl

new_page_counts :
    (get_dir_count new_page ≡ some (pos 0))
    × (get_free_space new_page ≡ some (pos 4088))
    × (get_dir new_page 0 ≡ some (pos 0))
unfolding get_dir_count get_free_space get_dir read_int32 load bytes_int32 from_bytes of_pattern put
    model_lib.Page.store int32_bytes to_bytes to_pattern
new_page_counts = (refl, refl, refl)

new_page_insert : try_insert_record new_page six ≡ some (with_six, some 0)
unfolding try_insert_record find_dir append_dir place record_size set_dir_count set_free_space
    set_dir write_values write_int32 write_int64 ◌+ℤ◌ ◌-ℤ◌ times_four to_size
new_page_insert = let (count, free, dir) = new_page_counts in rw (count, free, dir) refl

Reached-IsSound_example : IsSound types with_six
Reached-IsSound_example = Reached-IsSound types with_six (
    stepped new_page with_six (opened new_page new_page_done)
      (inserts (as_int (pos 6)) [] (some 0) refl (omega arith) new_page_insert))

-- A file of one page.
abbrev one_page : HeapFile
one_page = record { last_insert_page = 1; page_count = 1; pages = λ n. one_record }

vacuum-SameRecords_example :
    (g : HeapFile) × (Vacuum.vacuum (λ n. noise) types one_page ≡ some g)
    × (g.page_count ≡ 1)
    × (g.last_insert_page ≡ 0)
    × ((j : ℕ) → 1 ≤ j → g.pages j ≡ one_record)
    × ((j : ℕ) → j < 1 → SameRecords types one_record (g.pages j))
unfolding one_record-IsSound
vacuum-SameRecords_example =
    vacuum-SameRecords types (λ n. noise) one_page (λ j lt. (one_record-IsSound, omega arith))
