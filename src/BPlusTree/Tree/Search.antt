-- ===== src/BPlusTree/Tree/Search.antt =====
-- `search_leaf` finds what the tree holds.
use mathlib.Core.Path.{subst}
use model_lib.Prelude.{
  ℕ, zero, suc, ◌≤◌, ◌<◌, ◌≡◌, ◌∙◌, refl, ap, sym, true, false, Option, some, arith, dec_lt,
}
use model_lib.Prelude.Int.{ℤ, pos, negsuc}
use model_lib.BPlusTree.{BPlusTreeRecord, BPlusTreeSearchResult, less}
use model_lib.BPlusTree.Order.{less_irrefl}
use model_lib.BPlusTree.Leaf.{search_index}
use model_lib.BPlusTree.Leaf
use model_lib.BPlusTree.Leaf.Search.{IsLeaf, Parts, search_index-Parts}
use model_lib.BPlusTree.Dir.{get_child, get_child_count, search_child_idx}
use model_lib.BPlusTree.Dir.Search.{IsDir, Routes, search_child_idx-Routes}
use model_lib.BPlusTree.Tree.{Tree, search_in_leaf, search_child, search_leaf}

pub data Node : Type 0 where
  leaf_at : ℕ → Node
  dir_at : ℕ → Node

-- What a child's number stands for.
abbrev pub child_node : ℤ → Node
child_node (pos l) = leaf_at l
child_node (negsuc n) = dir_at (suc n)

-- The entry stands in a leaf below the node.
pub data Contains (t : Tree) (x : BPlusTreeRecord) : Node → Type 0 where
  in_leaf :
      (l count i : ℕ)
      → Leaf.get_record_count (t.leaves l) ≡ some (pos count)
      → i < count
      → Leaf.get_record (t.leaves l) (pos i) ≡ some x
      → Contains t x (leaf_at l)
  in_dir :
      (n count j : ℕ) (c : ℤ)
      → get_child_count (t.dirs n) ≡ some (pos (suc count))
      → j ≤ count
      → get_child (t.dirs n) (pos j) ≡ some c
      → Contains t x (child_node c)
      → Contains t x (dir_at n)

-- A tree of height `h`: sorted leaves that are not empty, and above them inner nodes whose records
-- part the entries of their children.
pub data IsSubtree (t : Tree) : ℕ → Node → Type 0 where
  leaf :
      (l count : ℕ) (entry : ℕ → BPlusTreeRecord)
      → IsLeaf (t.leaves l) count entry
      → 0 < count
      → IsSubtree t 0 (leaf_at l)
  dir :
      (h n count : ℕ) (record_at : ℕ → BPlusTreeRecord) (child_at : ℕ → ℤ)
      → IsDir (t.dirs n) count record_at
      → ((j : ℕ) → j ≤ count → get_child (t.dirs n) (pos j) ≡ some (child_at j))
      → ((j : ℕ) → j ≤ count → IsSubtree t h (child_node (child_at j)))
      → ((j : ℕ) (e : BPlusTreeRecord)
          → j < count
          → Contains t e (child_node (child_at j))
          → less e (record_at j) ≡ true)
      → ((j : ℕ) (e : BPlusTreeRecord)
          → j < count
          → Contains t e (child_node (child_at (suc j)))
          → less e (record_at j) ≡ false)
      → IsSubtree t (suc h) (dir_at n)

-- What a leaf contains are its entries.
pub leaf_entry :
    (t : Tree) (x : BPlusTreeRecord) (l count : ℕ) (entry : ℕ → BPlusTreeRecord)
    → IsLeaf (t.leaves l) count entry
    → Contains t x (leaf_at l)
    → (i : ℕ) × (i < count) × (entry i ≡ x)
leaf_entry t x l count entry sorted (in_leaf at count' i counts lt reads) =
    let same : some (pos count') ≡ some (pos count) = sym counts ∙ sorted.count_is in
    let e : count' ≡ count = cc same in
    let inside : i < count = omega arith in
    let here : some (entry i) ≡ some x = sym (sorted.reads i inside) ∙ reads in (i, inside, cc here)

module _ (t : Tree) (x : BPlusTreeRecord) where
  abbrev pub result : ℕ → ℕ → BPlusTreeSearchResult
  result l k = record { leaf_page_number = pos l; pos = pos k }

  -- The index parts the entries of the leaf.
  abbrev pub Divides : ℕ → ℕ → Type 0
  Divides l k =
      (count : ℕ) × (entry : ℕ → BPlusTreeRecord) × IsLeaf (t.leaves l) count entry
      × Parts x count entry k

  abbrev Finds : Node → Option BPlusTreeSearchResult → Type 0
  Finds node o =
      (l : ℕ) × (k : ℕ) × (o ≡ some (result l k))
      × Divides l k
      × (Contains t x node → Leaf.get_record (t.leaves l) (pos k) ≡ some x)

  abbrev search_at : ℕ → Node → Option BPlusTreeSearchResult
  search_at fuel (leaf_at l) = search_in_leaf t l x
  search_at fuel (dir_at n) = search_leaf fuel t n x

  search_child_lem :
      (fuel : ℕ) (c : ℤ)
      → search_child t x (λ m. search_leaf fuel t m x) c ≡ search_at fuel (child_node c)
  search_child_lem fuel (pos l) = refl
  search_child_lem fuel (negsuc n) = refl

  module _ (l count : ℕ) (entry : ℕ → BPlusTreeRecord)
      (sorted : IsLeaf (t.leaves l) count entry) where
    pub at_index : (k : ℕ) → Parts x count entry k → (i : ℕ) → i < count → entry i ≡ x → i ≡ k
    at_index k parts i lt e = elim (dec_lt i k) [
      | yes low ↦ absurd (cc (parts.below i low, e, less_irrefl x))
      | no ge ↦ elim (dec_lt k i) [
        | no le ↦ omega arith
        | yes high ↦
            absurd
              (cc (sorted.sorted k i high lt, e, parts.not_below k (omega arith) (omega arith)))
      ]
    ]

    pub leaf_found :
        (k : ℕ)
        → Parts x count entry k
        → Contains t x (leaf_at l)
        → Leaf.get_record (t.leaves l) (pos k) ≡ some x
    leaf_found k parts has =
        let (i, inside, is_x) = leaf_entry t x l count entry sorted has in
        rw⁻¹ (at_index k parts i inside is_x) (sorted.reads i inside ∙ ap some is_x)

    leaf_search : 0 < count → Finds (leaf_at l) (search_in_leaf t l x)
    unfolding search_in_leaf
    leaf_search h =
        let (k, found, parts) = search_index-Parts (t.leaves l) x count entry sorted h in
        (l, k, rw found refl, (count, entry, sorted, parts), leaf_found k parts)

  -- The child that the search goes to holds the entry, if any does.
  module _ (n count k : ℕ) (record_at : ℕ → BPlusTreeRecord) (child_at : ℕ → ℤ)
      (counts : get_child_count (t.dirs n) ≡ some (pos (suc count)))
      (routes : Routes x count record_at k)
      (children : (j : ℕ) → j ≤ count → get_child (t.dirs n) (pos j) ≡ some (child_at j))
      (left : (j : ℕ) (e : BPlusTreeRecord)
        → j < count
        → Contains t e (child_node (child_at j))
        → less e (record_at j) ≡ true)
      (right : (j : ℕ) (e : BPlusTreeRecord)
        → j < count
        → Contains t e (child_node (child_at (suc j)))
        → less e (record_at j) ≡ false) where
    at_child : (j : ℕ) → j ≤ count → Contains t x (child_node (child_at j)) → j ≡ k
    at_child j le has = elim (dec_lt j k) [
      | yes low ↦
          absurd (cc (left j x (let b = routes.inside in omega arith) has, routes.left j low))
      | no ge ↦ elim (dec_lt k j) [
        | no same ↦ omega arith
        | yes high ↦ absurd (not_right j high le has)
      ]
    ]
      where
        not_right : (j : ℕ) → k < j → j ≤ count → Contains t x (child_node (child_at j)) → ⊥
        not_right zero high le has = omega arith
        not_right (suc j) high le has =
            cc (right j x (omega arith) has, routes.right j (omega arith) (omega arith))

    pub in_child : Contains t x (dir_at n) → Contains t x (child_node (child_at k))
    in_child (in_dir n count' j c counts' le reads has) =
        let same : some (pos (suc count')) ≡ some (pos (suc count)) = sym counts' ∙ counts in
        let e : suc count' ≡ suc count = cc same in
        let inside : j ≤ count = omega arith in
        let child : some (child_at j) ≡ some c = sym (children j inside) ∙ reads in
        let is_c : child_at j ≡ c = cc child in
        let has' : Contains t x (child_node (child_at j)) =
          subst (λ z. Contains t x (child_node z)) (sym is_c) has in
        subst (λ i. Contains t x (child_node (child_at i))) (at_child j inside has') has'

  dir_search :
      (fuel n k : ℕ) (c : ℤ)
      → search_child_idx (t.dirs n) x ≡ some (pos k)
      → get_child (t.dirs n) (pos k) ≡ some c
      → search_leaf (suc fuel) t n x ≡ search_at fuel (child_node c)
  unfolding search_leaf
  dir_search fuel n k c found child = rw (found, child) (search_child_lem fuel c)

  search_at-Finds :
      (h fuel : ℕ) (node : Node) → IsSubtree t h node → h ≤ fuel → Finds node (search_at fuel node)
  search_at-Finds h fuel at (leaf l count entry sorted some_entry) enough =
      leaf_search l count entry sorted some_entry
  search_at-Finds h zero at (dir h' n count record_at child_at node children below left right)
        enough =
      absurd (omega arith)
  search_at-Finds h (suc fuel) at (dir h' n count record_at child_at node children below left right)
        enough =
      let (k, found, routes) = search_child_idx-Routes (t.dirs n) x count record_at node in
      let (l, i, done, divides, holds) =
        search_at-Finds h' fuel (child_node (child_at k)) (below k routes.inside) (omega arith) in
      (
        l,
        i,
        dir_search fuel n k (child_at k) found (children k routes.inside) ∙ done,
        divides,
        λ has.
            holds
              (in_child n count k record_at child_at node.count_is routes children left right has),
      )

-- In a tree of height `h`, of sorted leaves that are not empty and inner nodes whose records part their
-- children, `search_leaf` from an inner node returns within `h` steps a leaf and an index in it; and
-- if the tree below the node holds the entry, then this leaf has it at this index.
pub search_leaf-Finds :
    (t : Tree) (h n : ℕ) (x : BPlusTreeRecord)
    → IsSubtree t h (dir_at n)
    → (l : ℕ) × (k : ℕ) × (search_leaf h t n x ≡ some (result t x l k))
      × (Contains t x (dir_at n) → Leaf.get_record (t.leaves l) (pos k) ≡ some x)
search_leaf-Finds t h n x tree =
    let (l, k, done, divides, holds) = search_at-Finds t x h h (dir_at n) tree (omega arith) in
    (l, k, done, holds)

-- The index that `search_leaf` returns parts the entries of its leaf into those below the entry and
-- the others.
pub search_leaf-Divides :
    (t : Tree) (h n : ℕ) (x : BPlusTreeRecord)
    → IsSubtree t h (dir_at n)
    → (l : ℕ) × (k : ℕ) × (search_leaf h t n x ≡ some (result t x l k)) × Divides t x l k
search_leaf-Divides t h n x tree =
    let (l, k, done, divides, holds) = search_at-Finds t x h h (dir_at n) tree (omega arith) in
    (l, k, done, divides)
