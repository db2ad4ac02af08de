-- ===== src/BPlusTree/Leaf.antt =====
-- src/storage/b_plus_tree/b_plus_tree_leaf.{h,cc}: a leaf is a page with the count of its records, the
-- number of the next leaf, and the records.
pub mod Access
pub mod Search
pub mod Insert
use model_lib.Prelude.{
  ℕ, zero, suc, ◌+◌, ◌-◌, ◌*◌, ◌/◌, ◌%◌, ◌^◌, Bool, true, false, ◌&&◌, Option, none, some, ltb,
  if◌then◌else◌, assert, ◌>>=◌, ◌>>◌,
}
use model_lib.Prelude.Int.{ℤ, pos, negsuc, pos_part, ◌+ℤ◌, ◌-ℤ◌, ltb_ℤ, eqb_ℤ, to_size}
use model_lib.Page.{Page, size, read_int32, read_int64, write_int32, write_int64}
use model_lib.BPlusTree.{Rid, BPlusTreeRecord, BPlusTreeSplit, less, equal}

-- `(Page::SIZE - sizeof(record_count_t) - sizeof(next_leaf_t)) / sizeof(record_t)`
abbrev pub max_records : ℕ
max_records = (size - 4 - 4) / 16

-- `OFFSET_RECORDS + idx * sizeof(BPlusTreeRecord)`, in `size_t`
unfoldable pub record_offset : ℤ → ℕ
record_offset idx = (8 + to_size idx * 16) % 2 ^ 64

unfoldable pub get_record_count : Page → Option ℤ
get_record_count p = read_int32 p 0

unfoldable pub set_record_count : Page → ℤ → Option Page
set_record_count p n = write_int32 p 0 n

unfoldable pub get_next_page_number : Page → Option ℤ
get_next_page_number p = read_int32 p 4

unfoldable pub set_next_page_number : Page → ℤ → Option Page
set_next_page_number p n = write_int32 p 4 n

-- The three fields of an entry, at a byte offset of either kind of node.
unfoldable pub read_entry : Page → ℕ → Option BPlusTreeRecord
read_entry p offset = do
  key ← read_int64 p offset
  page_num ← read_int32 p (offset + 8)
  dir_slot ← read_int32 p (offset + 12)
  some (record { encoded_key = key; rid = record { page_num = page_num; dir_slot = dir_slot } })

unfoldable pub write_entry : Page → ℕ → BPlusTreeRecord → Option Page
write_entry p offset r = do
  p' ← write_int64 p offset r.encoded_key
  p'' ← write_int32 p' (offset + 8) r.rid.page_num
  write_int32 p'' (offset + 12) r.rid.dir_slot

unfoldable pub get_record : Page → ℤ → Option BPlusTreeRecord
get_record p idx = read_entry p (record_offset idx)

unfoldable pub set_record : Page → ℤ → BPlusTreeRecord → Option Page
set_record p idx r = write_entry p (record_offset idx) r

-- The last test of `search_index`.
unfoldable pub search_end : Page → BPlusTreeRecord → ℕ → Option ℤ
search_end p r from = do
  last ← get_record p (pos from)
  some (if less last r then pos (from + 1) else pos from)

-- The loop of `search_index`. `from` starts at 0 and only grows. `to` may end at -1; the loop goes
-- on at `from < to` only, so that `from + to` is no negative number. Fuel that ran out is `none`.
unfoldable pub search_loop : ℕ → Page → BPlusTreeRecord → ℕ → ℤ → Option ℤ
search_loop zero p r from to = none
search_loop (suc fuel) p r from to =
    let mid = (from + pos_part to) / 2 in
    let lower = search_loop fuel p r from (pos mid -ℤ pos 1) in
    let upper = search_loop fuel p r (mid + 1) to in
    if ltb_ℤ (pos from) to
    then get_record p (pos mid) >>= (λ mid_record.
      if less r mid_record then lower else if less mid_record r then upper else some (pos mid))
    else search_end p r from

-- A round takes an index at least out of `from..to`.
unfoldable pub search_index : Page → BPlusTreeRecord → Option ℤ
search_index p r = do
  count ← get_record_count p
  search_loop (suc (pos_part count)) p r 0 (count -ℤ pos 1)

-- How `insert_record` ends: `return nullptr`, or at one of the two places that are to be written
-- ("Problema 1", "Problema 2"), where the function runs off its end without a value.
pub data InsertEnd : Type 0 where
  null : InsertEnd
  problema_1 : InsertEnd
  problema_2 : InsertEnd

-- The guard `index < max_records && get_record(index) == record`.
unfoldable pub is_duplicate : Page → BPlusTreeRecord → ℤ → Option Bool
is_duplicate p r index =
    if ltb_ℤ index (pos max_records)
    then (do found ← get_record p index; some (equal found r))
    else some false

unfoldable pub insert_into_empty : Page → BPlusTreeRecord → Option (Page × InsertEnd)
insert_into_empty p r = do
  p' ← set_record p (pos 0) r
  p'' ← set_record_count p' (pos 1)
  some (p'', null)

unfoldable pub insert_record : Page → BPlusTreeRecord → Option (Page × InsertEnd)
insert_record p r = do
  count ← get_record_count p
  if eqb_ℤ count (pos 0) then insert_into_empty p r else do
    index ← search_index p r
    duplicate ← is_duplicate p r index
    if duplicate
        then some (p, null)
        else if ltb_ℤ count (pos max_records)
        then some (p, problema_1)
        else some (p, problema_2)
