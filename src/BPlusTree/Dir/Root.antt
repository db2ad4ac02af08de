-- ===== src/BPlusTree/Dir/Root.antt =====
-- Case 3 of `insert_record` of src/storage/b_plus_tree/b_plus_tree_dir.cc: a full root that has to take in
-- the split of a child gives its records and children to two new nodes.
pub mod Room
pub mod Copy
pub mod Halves
pub mod Divide
use model_lib.Prelude.{ℕ, zero, suc, ◌+◌, ◌-◌, ◌*◌, ◌/◌, Option, none, some, if◌then◌else◌, ◌>>=◌}
use model_lib.Prelude.Int.{ℤ, pos, pos_part, ◌+ℤ◌, ◌-ℤ◌, eqb_ℤ}
use model_lib.Page.{Page}
use model_lib.BPlusTree.{BPlusTreeRecord, BPlusTreeSplit}
use model_lib.BPlusTree.Dir.{
  max_records, max_children, set_child_count, get_child, set_child, get_record, set_record,
  shift_right,
}

-- `middle_index`
abbrev pub middle_index : ℕ
middle_index = (max_records + 1) / 2

-- The root with the first `max_records` records and `max_children` children, once the split is among
-- them, and the record and the child that are left over.
pub record RootRoom : Type 0 where
  pub root : Page
  pub last_record : BPlusTreeRecord
  pub last_child : ℤ

-- The branch that shifts: `for (int i = max_records - 1; i > split_child_idx; i--)`.
unfoldable pub shift_and_insert : Page → ℤ → BPlusTreeSplit → Option Page
shift_and_insert p split_child_idx split = do
  p1 ← shift_right (pos_part (pos (max_records - 1) -ℤ split_child_idx)) (pos (max_records - 1)) p
  p2 ← set_record p1 split_child_idx split.record_up
  set_child p2 (split_child_idx +ℤ pos 1) split.encoded_page_number

unfoldable pub make_room : Page → ℤ → BPlusTreeSplit → Option RootRoom
make_room p split_child_idx split = do
  last_record ← get_record p (pos (max_records - 1))
  last_child ← get_child p (pos (max_children - 1))
  if eqb_ℤ split_child_idx (pos (max_children - 1))
      then some (record {
        root = p;
        last_record = split.record_up;
        last_child = split.encoded_page_number;
      })
      else do
        p' ← shift_and_insert p split_child_idx split
        some (record { root = p'; last_record = last_record; last_child = last_child })

-- The loops that copy children and records from index `i` of `p` on to index `j` of `q` on, by the
-- rounds that are left.
unfoldable pub copy_part : ℕ → ℕ → ℕ → Page → Page → Option Page
copy_part zero i j p q = some q
copy_part (suc rounds) i j p q = do
  child ← get_child p (pos i)
  q' ← set_child q (pos j) child
  r ← get_record p (pos i)
  q'' ← set_record q' (pos j) r
  copy_part rounds (suc i) (suc j) p q''

unfoldable pub fill_lhs : Page → Page → Option Page
fill_lhs root lhs = do
  lhs1 ← copy_part middle_index 0 0 root lhs
  child ← get_child root (pos middle_index)
  lhs2 ← set_child lhs1 (pos middle_index) child
  set_child_count lhs2 (pos (middle_index + 1))

-- `j` where the loop has left it.
abbrev pub last_index : ℕ
last_index = max_records - (middle_index + 1)

unfoldable pub fill_rhs : RootRoom → Page → Option Page
fill_rhs room rhs = do
  rhs1 ← copy_part last_index (middle_index + 1) 0 room.root rhs
  child ← get_child room.root (pos (max_children - 1))
  rhs2 ← set_child rhs1 (pos last_index) child
  rhs3 ← set_child rhs2 (pos (last_index + 1)) room.last_child
  rhs4 ← set_record rhs3 (pos last_index) room.last_record
  set_child_count rhs4 (pos (max_children + 1 - (middle_index + 1)))

-- The root with its two children; an inner node is named by minus its number.
unfoldable pub link_root : Page → ℕ → ℕ → BPlusTreeRecord → Option Page
link_root p lhs_number rhs_number split_record = do
  p1 ← set_child_count p (pos 2)
  p2 ← set_child p1 (pos 0) (pos 0 -ℤ pos lhs_number)
  p3 ← set_child p2 (pos 1) (pos 0 -ℤ pos rhs_number)
  set_record p3 (pos 0) split_record

-- The root, the left and the right node; `lhs` and `rhs` are the pages that were appended for them.
-- They are not the root, so that the order of writes to different pages makes no difference.
unfoldable pub root_split :
    Page → Page → Page → ℕ → ℕ → ℤ → BPlusTreeSplit → Option (Page × Page × Page)
root_split p lhs rhs lhs_number rhs_number split_child_idx split = do
  room ← make_room p split_child_idx split
  lhs' ← fill_lhs room.root lhs
  split_record ← get_record room.root (pos middle_index)
  rhs' ← fill_rhs room rhs
  p' ← link_root room.root lhs_number rhs_number split_record
  some (p', lhs', rhs')
