-- ===== src/HeapFile/Iter.antt =====
-- src/storage/heap_file/heap_file_iter.cc: the records of a heap file, one after the other. The page
-- that the iterator has pinned is read from the file, which does not change in the meantime.
-- `record_pos` is `current_page_record_pos + 1`, which is never negative; a `nullptr` for the page is
-- `at_end`.
pub mod Next
use model_lib.Prelude.{
  ℕ, zero, suc, ◌+◌, ◌-◌, ◌*◌, Bool, true, false, not, Option, none, some, List, ltb, leb,
  if◌then◌else◌, ◌>>=◌,
}
use model_lib.Prelude.Int.{ℤ, pos, ltb_ℤ}
use model_lib.Page.{Page}
use model_lib.Value.{DataType, Value}
use model_lib.HeapPage.{init, get_dir_count, get_record}
use model_lib.HeapFile.{HeapFile}

pub record HeapFileIter : Type 0 where
  pub total_pages : ℕ
  pub page_number : ℕ
  pub record_pos : ℕ
  pub at_end : Bool

-- The constructor, once page 0 is there.
unfoldable pub get_record_iter : HeapFile → HeapFileIter
get_record_iter f = record {
  total_pages = f.page_count;
  page_number = 0;
  record_pos = 0;
  at_end = false;
}

unfoldable pub reset : HeapFileIter → HeapFileIter
reset it = record it { page_number = 0; record_pos = 0; at_end = false }

-- Behind the last slot of a page.
unfoldable pub next_page : HeapFileIter → HeapFileIter
next_page it = record it {
  page_number = it.page_number + 1;
  record_pos = 0;
  at_end = not (ltb (it.page_number + 1) it.total_pages);
}

abbrev pub next_slot : HeapFileIter → HeapFileIter
next_slot it = record it { record_pos = it.record_pos + 1 }

-- The record is the answer `true`; a slot without a record is passed over.
abbrev pub next_end :
    HeapFileIter
    → Option (List Value)
    → Option (HeapFileIter × Option (List Value))
    → Option (HeapFileIter × Option (List Value))
next_end it (some vs) rest = some (it, some vs)
next_end it none rest = rest

-- The loop of `next`; fuel that ran out is `none`, the inner `none` is the answer `false`.
unfoldable pub next_loop :
    ℕ → HeapFile → List DataType → HeapFileIter → Option (HeapFileIter × Option (List Value))
next_loop zero f types it = none
next_loop (suc fuel) f types it =
    let page_rest = next_loop fuel f types (next_page it) in
    let slot_rest = next_loop fuel f types (next_slot it) in
    if it.at_end then some (it, none) else do
      p ← init (f.pages it.page_number)
      count ← get_dir_count p
      if not (ltb_ℤ (pos it.record_pos) count) then page_rest else do
        answer ← get_record p it.record_pos types
        next_end (next_slot it) answer slot_rest

-- A page has less than 1024 slots.
unfoldable pub next :
    HeapFile → List DataType → HeapFileIter → Option (HeapFileIter × Option (List Value))
next f types it = next_loop (suc (1024 * (it.total_pages - it.page_number))) f types it
