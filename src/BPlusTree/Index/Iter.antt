-- ===== src/BPlusTree/Index/Iter.antt =====
-- src/storage/b_plus_tree/b_plus_tree_iter.cc: the records whose keys lie in a range, by the entries of
-- the leaves, from one leaf to the next.
use model_lib.Prelude.{
  ℕ, zero, suc, Bool, true, false, ◌&&◌, Option, none, some, List, [], ◌∷◌, get_elem?,
  if◌then◌else◌, ◌>>=◌,
}
use model_lib.Prelude.Int.{ℤ, pos, ◌+ℤ◌, ltb_ℤ, eqb_ℤ, to_size}
use model_lib.Value.{Value, greater_equal, less_equal}
use model_lib.HeapPage.Vacuum.{fill}
use model_lib.BPlusTree.{BPlusTreeRecord, less}
use model_lib.BPlusTree.Leaf.{get_record_count, get_next_page_number, get_record}
use model_lib.BPlusTree.Tree.{search_leaf}
use model_lib.BPlusTree.Index.{BPlusTree, Bounds, get_rid_record}

-- The members that change, and the record that `begin` was given.
pub record BPlusTreeIter : Type 0 where
  pub current_leaf : ℕ
  pub current_leaf_pos : ℤ
  pub out : List Value

-- `fuel` is for the search down the tree.
unfoldable pub reset : ℕ → BPlusTree → Bounds → List Value → Option BPlusTreeIter
reset fuel b bounds out = do
  res ← search_leaf fuel b.tree 0 bounds.min_record
  some (record {
    current_leaf = to_size res.leaf_page_number;
    current_leaf_pos = res.pos;
    out = out;
  })

unfoldable pub in_range : Bounds → Value → Bool
in_range bounds v = greater_equal v bounds.min && less_equal v bounds.max

-- The branch for an entry, which has been passed already; `rest` is the loop from there on.
unfoldable pub next_entry :
    BPlusTree
    → Bounds
    → (BPlusTreeIter → Option (BPlusTreeIter × Bool))
    → BPlusTreeIter
    → BPlusTreeRecord
    → Option (BPlusTreeIter × Bool)
next_entry b bounds rest it r = if less bounds.max_record r then some (it, false) else do
  found ← get_rid_record b r.rid
  let it' = record it { out = fill found it.out }
  value ← get_elem? it'.out b.key_column_idx
  let more = rest it'
  if in_range bounds value then some (it', true) else more

-- The branches behind the last entry of a leaf.
unfoldable pub next_leaf :
    (BPlusTreeIter → Option (BPlusTreeIter × Bool))
    → BPlusTreeIter
    → ℤ
    → Option (BPlusTreeIter × Bool)
next_leaf rest it number =
    if eqb_ℤ number (pos 0)
    then some (it, false)
    else rest (record it { current_leaf = to_size number; current_leaf_pos = pos 0 })

-- The loop of `next`; fuel that ran out is `none`. The answer comes with the iterator.
unfoldable pub next : ℕ → BPlusTree → Bounds → BPlusTreeIter → Option (BPlusTreeIter × Bool)
next zero b bounds it = none
next (suc fuel) b bounds it = do
  let leaf = b.tree.leaves it.current_leaf
  let passed = record it { current_leaf_pos = it.current_leaf_pos +ℤ pos 1 }
  count ← get_record_count leaf
  let in_leaf =
      get_record leaf it.current_leaf_pos >>= next_entry b bounds (next fuel b bounds) passed
  let behind = get_next_page_number leaf >>= next_leaf (next fuel b bounds) it
  if ltb_ℤ it.current_leaf_pos count then in_leaf else behind

-- The records that `while (iter->next())` sees; each of at most `steps` calls of `next` has `fuel`.
-- Steps that ran out are `none`.
unfoldable pub scan : ℕ → ℕ → BPlusTree → Bounds → BPlusTreeIter → Option (List (List Value))
scan zero fuel b bounds it = none
scan (suc steps) fuel b bounds it = do
  (it', answer) ← next fuel b bounds it
  let more = scan steps fuel b bounds it' >>= (λ seen. some (it'.out ∷ seen))
  if answer then more else some []
