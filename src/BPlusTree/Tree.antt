-- ===== src/BPlusTree/Tree.antt =====
-- `search_leaf` of src/storage/b_plus_tree/b_plus_tree_dir.cc: the way from an inner node down to a
-- leaf, over the pages of the two files of the tree.
pub mod Search
pub mod Insert
use model_lib.Prelude.{ℕ, zero, suc, Option, none, some, ◌>>=◌}
use model_lib.Prelude.Int.{ℤ, pos, negsuc}
use model_lib.Page.{Page}
use model_lib.BPlusTree.{BPlusTreeRecord, BPlusTreeSearchResult}
use model_lib.BPlusTree.Leaf.{search_index}
use model_lib.BPlusTree.Dir.{get_child, search_child_idx}

-- The pages of `dir_file_id`, with their number, and of `leaf_file_id`, as the buffer shows them.
pub record Tree : Type 0 where
  pub dir_count : ℕ
  pub dirs : ℕ → Page
  pub leaves : ℕ → Page

unfoldable pub search_in_leaf : Tree → ℕ → BPlusTreeRecord → Option BPlusTreeSearchResult
search_in_leaf t page_num r = do
  index ← search_index (t.leaves page_num) r
  some (record { leaf_page_number = pos page_num; pos = index })

-- A negative number is minus the number of an inner node, others are numbers of leaves.
abbrev pub search_child :
    Tree → BPlusTreeRecord → (ℕ → Option BPlusTreeSearchResult) → ℤ → Option BPlusTreeSearchResult
search_child t r search_dir (pos page_num) = search_in_leaf t page_num r
search_child t r search_dir (negsuc n) = search_dir (suc n)

-- Fuel that ran out is `none`.
unfoldable pub search_leaf : ℕ → Tree → ℕ → BPlusTreeRecord → Option BPlusTreeSearchResult
search_leaf zero t n r = none
search_leaf (suc fuel) t n r = do
  dir_index ← search_child_idx (t.dirs n) r
  page_num ← get_child (t.dirs n) dir_index
  search_child t r (λ m. search_leaf fuel t m r) page_num
