-- ===== src/BPlusTree/Tree/Insert.antt =====
-- `insert_record` of src/storage/b_plus_tree/b_plus_tree_dir.cc, over the pages of the tree: down to a
-- leaf, and what a node does with the split that its child may return.
pub mod Split
pub mod Present
use model_lib.Prelude.{
  ℕ, zero, suc, ◌+◌, Bool, true, false, not, Option, none, some, ◌==◌, if◌then◌else◌, assert, ◌>>=◌,
  ◌>>◌,
}
use model_lib.Prelude.Int.{ℤ, pos, negsuc, ◌-ℤ◌, ltb_ℤ}
use model_lib.Page.{Page}
use model_lib.HeapPage.Delete.{zeros}
use model_lib.BPlusTree.{BPlusTreeRecord, BPlusTreeSplit}
use model_lib.BPlusTree.Leaf.{InsertEnd, null, problema_1, problema_2}
use model_lib.BPlusTree.Leaf
use model_lib.BPlusTree.Dir.{
  max_records, get_child_count, get_child, search_child_idx, insert_split,
}
use model_lib.BPlusTree.Dir.Root.{root_split}
use model_lib.BPlusTree.Tree.{Tree}

-- The pages of inner nodes and of leaves as an operation leaves them.
unfoldable pub set_dir : Tree → ℕ → Page → Tree
set_dir t n p = record t { dirs = λ j. if n == j then p else t.dirs j }

unfoldable pub set_leaf : Tree → ℕ → Page → Tree
set_leaf t l p = record t { leaves = λ j. if l == j then p else t.leaves j }

-- The two pages that case 3 appends, of zeros, and the root.
unfoldable pub split_root : Tree → ℤ → BPlusTreeSplit → Option Tree
split_root t split_child_idx split = do
  (p, lhs, rhs) ←
      root_split (t.dirs 0) zeros zeros t.dir_count (t.dir_count + 1) split_child_idx split
  let grown = record t { dir_count = t.dir_count + 2 }
  some (set_dir (set_dir (set_dir grown t.dir_count lhs) (t.dir_count + 1) rhs) 0 p)

-- The split of a child of node `n`. Case 2 ("Problema 3") is to be written: the node then goes on
-- without the split.
unfoldable pub take_split : Tree → ℕ → ℤ → BPlusTreeSplit → Option Tree
take_split t n child_count split = do
  split_child_idx ← search_child_idx (t.dirs n) split.record_up
  let case_1 = do
    p ← insert_split (t.dirs n) child_count split_child_idx split
    some (set_dir t n p)
  let case_3 = split_root t split_child_idx split
  if ltb_ℤ (child_count -ℤ pos 1) (pos max_records)
      then case_1
      else if not (n == 0)
      then some t
      else case_3

-- From the answer of the child on. Every path ends with `return nullptr`.
unfoldable pub after_child :
    ℕ → ℤ → Tree × Option BPlusTreeSplit → Option (Tree × Option BPlusTreeSplit)
after_child n child_count (t, none) = some (t, none)
after_child n child_count (t, some split) = do
  t' ← take_split t n child_count split
  some (t', none)

-- The insertion into a leaf, as a function of the tree.
abbrev pub InsertLeaf : Type 0
InsertLeaf = Tree → ℕ → BPlusTreeRecord → Option (Tree × Option BPlusTreeSplit)

-- The one of the source, which has no value on the two paths that are to be written.
abbrev pub leaf_end : Tree → InsertEnd → Option (Tree × Option BPlusTreeSplit)
leaf_end t null = some (t, none)
leaf_end t problema_1 = none
leaf_end t problema_2 = none

unfoldable pub insert_leaf : InsertLeaf
insert_leaf t l r = do (p, end) ← Leaf.insert_record (t.leaves l) r; leaf_end (set_leaf t l p) end

abbrev pub insert_child :
    (ℕ → Option (Tree × Option BPlusTreeSplit))
    → (ℕ → Option (Tree × Option BPlusTreeSplit))
    → ℤ
    → Option (Tree × Option BPlusTreeSplit)
insert_child into_leaf into_dir (pos l) = into_leaf l
insert_child into_leaf into_dir (negsuc n) = into_dir (suc n)

-- Fuel that ran out is `none`. The insertion into a leaf is an argument, so that what the nodes do with
-- a split can be stated, though the leaf of the source returns none.
unfoldable pub insert_record :
    InsertLeaf → ℕ → Tree → ℕ → BPlusTreeRecord → Option (Tree × Option BPlusTreeSplit)
insert_record into_leaf zero t n r = none
insert_record into_leaf (suc fuel) t n r = do
  child_count ← get_child_count (t.dirs n)
  assert (not (ltb_ℤ child_count (pos 1)))
  let searched = search_child_idx (t.dirs n) r
  dir_index ← (if ltb_ℤ (pos 0) (child_count -ℤ pos 1) then searched else some (pos 0))
  page_pointer ← get_child (t.dirs n) dir_index
  answer ←
      insert_child (λ l. into_leaf t l r) (λ m. insert_record into_leaf fuel t m r) page_pointer
  after_child n child_count answer
