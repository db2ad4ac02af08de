-- ===== src/BPlusTree/Tree/Insert/Present.antt =====
-- The insertion of an entry that the tree holds already, through `insert_record` of
-- src/storage/b_plus_tree/b_plus_tree_dir.cc and b_plus_tree_leaf.cc.
use model_lib.Prelude.{
  ℕ, zero, suc, ◌≤◌, ◌<◌, ◌≡◌, ◌∙◌, refl, ap, fun_ext, Bool-cases, inl, inr, Option, none, some,
  arith, ◌==◌, ==_iff, if◌then◌else◌,
}
use model_lib.Prelude.Int.{ℤ, pos, negsuc}
use model_lib.Page.{Page}
use model_lib.BPlusTree.{BPlusTreeRecord, BPlusTreeSplit}
use model_lib.BPlusTree.Leaf.{InsertEnd, null}
use model_lib.BPlusTree.Leaf
use model_lib.BPlusTree.Leaf.Search.{IsLeaf, Parts}
use model_lib.BPlusTree.Leaf.Insert.{Ends, dropped, has_room, full, insert_record-Ends}
use model_lib.BPlusTree.Dir.Search.{search_child_idx-Routes}
use model_lib.BPlusTree.Tree.{Tree}
use model_lib.BPlusTree.Tree.Search.{
  Node, leaf_at, dir_at, child_node, Contains, IsSubtree, leaf, dir, leaf_entry, at_index,
  leaf_found, in_child,
}
use model_lib.BPlusTree.Tree.Insert.{
  set_leaf, insert_leaf, insert_child, after_child, insert_record,
}
use model_lib.BPlusTree.Tree.Insert.Split.{insert_record_lem}

-- A leaf put back as it was.
set_leaf_same : (t : Tree) (l : ℕ) → set_leaf t l (t.leaves l) ≡ t
unfolding set_leaf
set_leaf_same t l = ap (λ f. record t { leaves = f }) (fun_ext same)
  where
    same : (j : ℕ) → (if l == j then t.leaves l else t.leaves j) ≡ t.leaves j
    same j = elim (Bool-cases (l == j)) [
      | inl e ↦ rw e (ap t.leaves ((==_iff l j).0 e))
      | inr e ↦ rw e refl
    ]

is_null :
    {x : BPlusTreeRecord} {p : Page} {count : ℕ} (k : ℕ) (e : InsertEnd)
    → Ends x p count k e
    → Leaf.get_record p (pos k) ≡ some x
    → k < Leaf.max_records
    → e ≡ null
is_null k e (dropped lt e') here inside = refl
is_null k e (has_room lt ne) here inside = absurd (ne here)
is_null k e (full e' ne) here inside = absurd (ne inside here)

module _ (t : Tree) (x : BPlusTreeRecord) where
  module _ (l count : ℕ) (entry : ℕ → BPlusTreeRecord) (sorted : IsLeaf (t.leaves l) count entry)
      (some_entry : 0 < count) (has : Contains t x (leaf_at l)) where
    found_end :
        (k : ℕ) (e : InsertEnd) → Parts x count entry k → Ends x (t.leaves l) count k e → e ≡ null
    found_end k e parts ends =
        let here = leaf_found t x l count entry sorted k parts has in
        let (i, inside, is_x) = leaf_entry t x l count entry sorted has in
        let same = at_index t x l count entry sorted k parts i inside is_x in
        let bound = sorted.fits in is_null k e ends here (omega arith)

    into_leaf : insert_leaf t l x ≡ some (t, none)
    unfolding insert_leaf
    into_leaf =
        let (k, e, parts, done, ends) =
          insert_record-Ends (t.leaves l) x count entry sorted some_entry in
        rw (done, found_end k e parts ends, set_leaf_same t l) refl

  -- The insertion at a node of either kind.
  abbrev insert_at_node : ℕ → Node → Option (Tree × Option BPlusTreeSplit)
  insert_at_node fuel (leaf_at l) = insert_leaf t l x
  insert_at_node fuel (dir_at n) = insert_record insert_leaf fuel t n x

  insert_child_lem :
      (fuel : ℕ) (c : ℤ)
      → insert_child (λ l. insert_leaf t l x) (λ m. insert_record insert_leaf fuel t m x) c
        ≡ insert_at_node fuel (child_node c)
  insert_child_lem fuel (pos l) = refl
  insert_child_lem fuel (negsuc n) = refl

  insert-Present :
      (h fuel : ℕ) (node : Node)
      → IsSubtree t h node
      → h ≤ fuel
      → Contains t x node
      → insert_at_node fuel node ≡ some (t, none)
  insert-Present h fuel at (leaf l count entry sorted some_entry) enough has =
      into_leaf l count entry sorted some_entry has
  insert-Present h zero at (dir h' n count record_at child_at node children below left right) enough
        has =
      absurd (omega arith)
  insert-Present h (suc fuel) at (dir h' n count record_at child_at node children below left right)
        enough has =
      let (k, found, routes) = search_child_idx-Routes (t.dirs n) x count record_at node in
      let inserted =
        insert-Present h' fuel (child_node (child_at k)) (below k routes.inside) (omega arith) (
          in_child t x n count k record_at child_at node.count_is routes children left right has) in
      insert_record_lem insert_leaf fuel t n x count record_at child_at node children k (t, none)
        routes.inside found (insert_child_lem fuel (child_at k) ∙ inserted)
      ∙ unfold after_child in refl

-- In a tree of height `h`, of sorted leaves that are not empty and inner nodes whose records part their
-- children, the insertion of an entry that the tree below an inner node holds already returns within
-- `h` steps, without a split, and leaves the tree as it was.
pub insert_record-Present :
    (t : Tree) (h n : ℕ) (x : BPlusTreeRecord)
    → IsSubtree t h (dir_at n)
    → Contains t x (dir_at n)
    → insert_record insert_leaf h t n x ≡ some (t, none)
insert_record-Present t h n x tree has = insert-Present t x h h (dir_at n) tree (omega arith) has
