-- ===== src/BPlusTree.antt =====
-- src/storage/heap_file/rid.h and src/storage/b_plus_tree/b_plus_tree_utils.h: the entries of the
-- index, with their order. The nodes of the tree stand in the modules below.
pub mod Order
pub mod Leaf
pub mod Dir
pub mod Key
pub mod Tree
pub mod Index
use model_lib.Prelude.{ℕ, Bool, true, false, ◌&&◌, if◌then◌else◌}
use model_lib.Prelude.Int.{ℤ, ltb_ℤ, eqb_ℤ, IsInt32, IsInt64}

-- `struct RID`
pub record Rid : Type 0 where
  pub page_num : ℤ
  pub dir_slot : ℤ

unfoldable pub rid_less : Rid → Rid → Bool
rid_less a b =
    if ltb_ℤ a.page_num b.page_num
    then true
    else if ltb_ℤ b.page_num a.page_num
    then false
    else ltb_ℤ a.dir_slot b.dir_slot

unfoldable pub rid_equal : Rid → Rid → Bool
rid_equal a b = eqb_ℤ a.page_num b.page_num && eqb_ℤ a.dir_slot b.dir_slot

pub record BPlusTreeRecord : Type 0 where
  pub encoded_key : ℤ
  pub rid : Rid

-- `operator<`
unfoldable pub less : BPlusTreeRecord → BPlusTreeRecord → Bool
unfolding rid_less
less a b =
    if ltb_ℤ a.encoded_key b.encoded_key
    then true
    else if ltb_ℤ b.encoded_key a.encoded_key
    then false
    else rid_less a.rid b.rid

-- `operator==`
unfoldable pub equal : BPlusTreeRecord → BPlusTreeRecord → Bool
unfolding rid_equal
equal a b = eqb_ℤ a.encoded_key b.encoded_key && rid_equal a.rid b.rid

pub record BPlusTreeSplit : Type 0 where
  pub record_up : BPlusTreeRecord
  pub encoded_page_number : ℤ

pub record BPlusTreeSearchResult : Type 0 where
  pub leaf_page_number : ℤ
  pub pos : ℤ

-- The integers of an entry fit their fields.
pub record IsEntry (r : BPlusTreeRecord) : Type 0 where
  pub key : IsInt64 r.encoded_key
  pub page : IsInt32 r.rid.page_num
  pub slot : IsInt32 r.rid.dir_slot
