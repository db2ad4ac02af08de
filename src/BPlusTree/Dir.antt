-- ===== src/BPlusTree/Dir.antt =====
-- src/storage/b_plus_tree/b_plus_tree_dir.{h,cc}: an inner node is a page with the count of its
-- children, the children (leaves by their number, inner nodes by minus their number), and from a
-- fixed offset on the records that part them.
pub mod Search
pub mod Access
pub mod Shift
pub mod Split
pub mod Sorted
pub mod Root
use model_lib.Prelude.{
  ℕ, zero, suc, ◌+◌, ◌-◌, ◌*◌, ◌/◌, ◌%◌, ◌^◌, Bool, true, false, not, Option, none, some,
  if◌then◌else◌, ◌>>=◌, ◌==◌, assert, ◌>>◌,
}
use model_lib.Prelude.Int.{ℤ, pos, negsuc, pos_part, ◌+ℤ◌, ◌-ℤ◌, ltb_ℤ, eqb_ℤ, to_size, half}
use model_lib.Page.{Page, size, read_int32, write_int32}
use model_lib.BPlusTree.{BPlusTreeRecord, BPlusTreeSplit, less}
use model_lib.BPlusTree.Leaf.{read_entry, write_entry}

-- `(Page::SIZE - sizeof(child_count_t) - sizeof(child_t)) / (sizeof(child_t) + sizeof(record_t))`
abbrev pub max_records : ℕ
max_records = (size - 4 - 4) / (4 + 16)

abbrev pub max_children : ℕ
max_children = max_records + 1

-- `OFFSET_RECORD`
abbrev pub offset_record : ℕ
offset_record = 4 + max_children * 4

-- `OFFSET_CHILDREN + sizeof(child_t) * index`, in `size_t`
unfoldable pub child_offset : ℤ → ℕ
child_offset index = (4 + 4 * to_size index) % 2 ^ 64

-- `OFFSET_RECORD + index * sizeof(BPlusTreeRecord)`, in `size_t`
unfoldable pub record_offset : ℤ → ℕ
record_offset index = (offset_record + to_size index * 16) % 2 ^ 64

unfoldable pub get_child_count : Page → Option ℤ
get_child_count p = read_int32 p 0

unfoldable pub set_child_count : Page → ℤ → Option Page
set_child_count p n = write_int32 p 0 n

unfoldable pub get_child : Page → ℤ → Option ℤ
get_child p index = read_int32 p (child_offset index)

unfoldable pub set_child : Page → ℤ → ℤ → Option Page
set_child p index child = write_int32 p (child_offset index) child

unfoldable pub get_record : Page → ℤ → Option BPlusTreeRecord
get_record p index = read_entry p (record_offset index)

unfoldable pub set_record : Page → ℤ → BPlusTreeRecord → Option Page
set_record p index r = write_entry p (record_offset index) r

-- `((from + to + 1) / 2) - 1`
unfoldable pub middle : ℤ → ℤ → ℤ
middle from to = half (from +ℤ to +ℤ pos 1) -ℤ pos 1

-- The loop of `search_child_idx`; fuel that ran out is `none`.
unfoldable pub search_loop : ℕ → Page → BPlusTreeRecord → ℤ → ℤ → Option ℤ
search_loop zero p r from to = none
search_loop (suc fuel) p r from to =
    let mid = middle from to in
    let lower = search_loop fuel p r from mid in
    let upper = search_loop fuel p r (mid +ℤ pos 1) to in
    if eqb_ℤ from to
    then some from
    else (get_record p mid >>= (λ mid_record. if less r mid_record then lower else upper))

-- Each round leaves fewer children.
unfoldable pub search_child_idx : Page → BPlusTreeRecord → Option ℤ
search_child_idx p r = do
  count ← get_child_count p
  search_loop (suc (pos_part count)) p r (pos 0) (count -ℤ pos 1)

-- Case 1 of `insert_record`: `for (int i = record_count; i >= split_child_idx; i--)`, by the rounds
-- that are left.
unfoldable pub shift_right : ℕ → ℤ → Page → Option Page
shift_right zero i p = some p
shift_right (suc rounds) i p = do
  r ← get_record p (i -ℤ pos 1)
  p' ← set_record p i r
  child ← get_child p' i
  p'' ← set_child p' (i +ℤ pos 1) child
  shift_right rounds (i -ℤ pos 1) p''

-- Case 1: there is room for one more child.
unfoldable pub insert_split : Page → ℤ → ℤ → BPlusTreeSplit → Option Page
insert_split p child_count split_child_idx split = do
  let record_count = child_count -ℤ pos 1
  p1 ← shift_right (pos_part (record_count +ℤ pos 1 -ℤ split_child_idx)) record_count p
  p2 ← set_record p1 split_child_idx split.record_up
  p3 ← set_child p2 (split_child_idx +ℤ pos 1) split.encoded_page_number
  set_child_count p3 (child_count +ℤ pos 1)
