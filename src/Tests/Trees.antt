-- ===== src/Tests/Trees.antt =====
-- A leaf of two entries, and an inner node of two children.
use mathlib.Core.Path.{subst}
use model_lib.Prelude.{
  ap, ◌≤◌, ℕ, zero, suc, ◌+◌, ◌-◌, ◌<◌, ◌≡◌, ◌≢◌, refl, true, false, some, List, [], ◌∷◌, ◌==◌,
  if◌then◌else◌, get_or, arith,
}
use model_lib.Prelude.Int.{ℤ, pos, to_size}
use model_lib.Word.{bytes_int32, bytes_int64, from_bytes, of_pattern}
use model_lib.Page.{Page, load, read_int32, read_int64}
use model_lib.BPlusTree.{rid_less, BPlusTreeRecord, BPlusTreeSplit, IsEntry, less}
use model_lib.BPlusTree.Leaf
use model_lib.BPlusTree.Leaf.{read_entry, InsertEnd, null, search_index}
use model_lib.BPlusTree.Leaf.Search.{IsLeaf, Parts, search_index-Parts}
use model_lib.BPlusTree.Leaf.Insert.{
  Ends, insert_record-empty, insert_record-Ends, insert_record_drops,
}
use model_lib.BPlusTree.Dir
use model_lib.BPlusTree.Dir.{search_child_idx, insert_split}
use model_lib.BPlusTree.Dir.Search.{IsDir, Routes, search_child_idx-Routes}
use model_lib.BPlusTree.Tree.{Tree, search_leaf}
use model_lib.BPlusTree.Tree.Search.{
  dir_at, child_node, Contains, IsSubtree, leaf_entry, result, search_leaf-Finds,
}
use model_lib.BPlusTree.Dir.Sorted.{insert_split-IsDir}
use model_lib.BPlusTree.Dir.Shift.{insert_at}
use model_lib.BPlusTree.Dir.Split.{Holds}

abbrev pub key : ℕ → BPlusTreeRecord
key n = record { encoded_key = pos n; rid = record { page_num = pos 1; dir_slot = pos 2 } }

-- Keys 5 and 9.
abbrev pub entry : ℕ → BPlusTreeRecord
entry i = if i == 0 then key 5 else key 9

abbrev entry_bytes : ℕ → List ℕ → List ℕ
entry_bytes n rest = n ∷ 0 ∷ 0 ∷ 0 ∷ 0 ∷ 0 ∷ 0 ∷ 0 ∷ 1 ∷ 0 ∷ 0 ∷ 0 ∷ 2 ∷ 0 ∷ 0 ∷ 0 ∷ rest

abbrev page_of : List ℕ → Page
page_of bytes = record { bytes = λ k. get_or bytes k 0; dirty = false }

abbrev leaf : Page
leaf = page_of (2 ∷ 0 ∷ 0 ∷ 0 ∷ 0 ∷ 0 ∷ 0 ∷ 0 ∷ entry_bytes 5 (entry_bytes 9 []))

-- A leaf of one entry, with the bytes of another behind it.
abbrev shrunk : Page
shrunk = page_of (1 ∷ 0 ∷ 0 ∷ 0 ∷ 0 ∷ 0 ∷ 0 ∷ 0 ∷ entry_bytes 5 (entry_bytes 9 []))

abbrev empty : Page
empty = page_of []

pub below_one : (P : ℕ → Type 0) → P 0 → (i : ℕ) → i < 1 → P i
below_one P a i lt = let e : 0 ≡ i = omega arith in subst P e a

below_two : (P : ℕ → Type 0) → P 0 → P 1 → (i : ℕ) → i < 2 → P i
below_two P a b zero lt = a
below_two P a b (suc i) lt = subst P (omega arith) b

leaf_sorted : (i j : ℕ) → i < j → j < 2 → less (entry i) (entry j) ≡ true
unfolding less
leaf_sorted i j l lt =
    let e : 0 ≡ i = omega arith in
    let f : 1 ≡ j = omega arith in
    subst (λ a. less (entry a) (entry j) ≡ true) e
      (subst (λ b. less (entry 0) (entry b) ≡ true) f refl)

pub leaf-IsLeaf : IsLeaf leaf 2 entry
unfolding Leaf.get_record_count Leaf.get_record Leaf.record_offset read_entry to_size read_int32
    read_int64 load bytes_int32 bytes_int64 from_bytes of_pattern
leaf-IsLeaf = record {
  count_is = refl;
  fits = omega arith;
  reads = below_two (λ n. Leaf.get_record leaf (pos n) ≡ some (entry n)) refl refl;
  sorted = leaf_sorted;
}

shrunk-IsLeaf : IsLeaf shrunk 1 entry
unfolding Leaf.get_record_count Leaf.get_record Leaf.record_offset read_entry to_size read_int32
    read_int64 load bytes_int32 bytes_int64 from_bytes of_pattern
shrunk-IsLeaf = record {
  count_is = refl;
  fits = omega arith;
  reads = below_one (λ n. Leaf.get_record shrunk (pos n) ≡ some (entry n)) refl;
  sorted = λ i j l lt. absurd (omega arith);
}

search_index-Parts_example :
    (k : ℕ) × (search_index leaf (key 7) ≡ some (pos k)) × Parts (key 7) 2 entry k
search_index-Parts_example = search_index-Parts leaf (key 7) 2 entry leaf-IsLeaf (omega arith)

pub key-IsEntry : (n : ℕ) → n < 1000 → IsEntry (key n)
key-IsEntry n lt = record { key = omega arith; page = omega arith; slot = omega arith }

insert_record-empty_example :
    (q : Page) × (Leaf.insert_record empty (key 7) ≡ some (q, null)) × IsLeaf q 1 (λ i. key 7)
unfolding Leaf.get_record_count read_int32 load bytes_int32 from_bytes of_pattern
insert_record-empty_example = insert_record-empty empty (key 7) (key-IsEntry 7 (omega arith)) refl

insert_record-Ends_example :
    (k : ℕ) × (e : InsertEnd) × Parts (key 7) 2 entry k
    × (Leaf.insert_record leaf (key 7) ≡ some (leaf, e))
    × Ends (key 7) leaf 2 k e
insert_record-Ends_example = insert_record-Ends leaf (key 7) 2 entry leaf-IsLeaf (omega arith)

insert_record_drops_example :
    (Leaf.insert_record shrunk (key 9) ≡ some (shrunk, null)) × ((i : ℕ) → i < 1 → entry i ≢ key 9)
unfolding Leaf.get_record Leaf.record_offset read_entry to_size read_int32 read_int64 load
    bytes_int32 bytes_int64 from_bytes of_pattern less
insert_record_drops_example =
    insert_record_drops shrunk (key 9) 1 entry shrunk-IsLeaf (omega arith) (omega arith)
      (below_one (λ n. less (entry n) (key 9) ≡ true) refl) refl

-- Leaves 1 and 2, parted by the key 5.
abbrev pub dir : Page
dir = record {
  bytes = λ k.
      get_or (2 ∷ 0 ∷ 0 ∷ 0 ∷ 1 ∷ 0 ∷ 0 ∷ 0 ∷ 2 ∷ 0 ∷ 0 ∷ 0 ∷ []) k
        (get_or (entry_bytes 5 []) (k - 824) 0);
  dirty = false;
}

abbrev pub child : ℕ → ℤ
child i = pos (i + 1)

pub dir-IsDir : IsDir dir 1 entry
unfolding Dir.get_child_count Dir.get_record Dir.record_offset read_entry to_size read_int32
    read_int64 load bytes_int32 bytes_int64 from_bytes of_pattern
dir-IsDir = record {
  count_is = refl;
  fits = omega arith;
  reads = below_one (λ n. Dir.get_record dir (pos n) ≡ some (entry n)) refl;
  sorted = λ i j l lt. absurd (omega arith);
}

pub dir-Holds : Holds dir 1 entry child
unfolding Dir.get_child_count Dir.get_record Dir.record_offset Dir.get_child Dir.child_offset
    read_entry to_size read_int32 read_int64 load bytes_int32 bytes_int64 from_bytes of_pattern
dir-Holds = record {
  count = refl;
  records = below_one (λ n. Dir.get_record dir (pos n) ≡ some (entry n)) refl;
  children =
      λ i le. below_two (λ n. Dir.get_child dir (pos n) ≡ some (child n)) refl refl i (omega arith);
}

search_child_idx-Routes_example :
    (k : ℕ) × (search_child_idx dir (key 7) ≡ some (pos k)) × Routes (key 7) 1 entry k
search_child_idx-Routes_example = search_child_idx-Routes dir (key 7) 1 entry dir-IsDir

pub five_not_three : key 5 ≢ key 3
five_not_three e = let keys : pos 5 ≡ pos 3 = ap (λ r. r.encoded_key) e in cc keys

-- Leaf 1 split at the key 3, into itself and leaf 3.
abbrev pub split : BPlusTreeSplit
split = record { record_up = key 3; encoded_page_number = pos 3 }

insert_split-IsDir_example :
    (k : ℕ) × (q : Page) × (search_child_idx dir (key 3) ≡ some (pos k))
    × (insert_split dir (pos 2) (pos k) split ≡ some q)
    × IsDir q 2 (insert_at k (key 3) entry)
    × ((i : ℕ) → i ≤ 2 → Dir.get_child q (pos i) ≡ some (insert_at (k + 1) (pos 3) child i))
insert_split-IsDir_example =
    insert_split-IsDir dir 1 entry child split (omega arith) dir-IsDir dir-Holds
      (below_one (λ n. IsEntry (entry n)) (key-IsEntry 5 (omega arith))) (λ i le. omega arith)
      (key-IsEntry 3 (omega arith)) (omega arith) (below_one (λ n. entry n ≢ key 3) five_not_three)

-- The inner node with a leaf of the key 3 and the leaf above.
abbrev low_leaf : Page
low_leaf = page_of (1 ∷ 0 ∷ 0 ∷ 0 ∷ 2 ∷ 0 ∷ 0 ∷ 0 ∷ entry_bytes 3 [])

abbrev pub tree : Tree
tree = record { dir_count = 1; dirs = λ n. dir; leaves = λ l. if l == 1 then low_leaf else leaf }

low_leaf-IsLeaf : IsLeaf low_leaf 1 (λ i. key 3)
unfolding Leaf.get_record_count Leaf.get_record Leaf.record_offset read_entry to_size read_int32
    read_int64 load bytes_int32 bytes_int64 from_bytes of_pattern
low_leaf-IsLeaf = record {
  count_is = refl;
  fits = omega arith;
  reads = below_one (λ n. Leaf.get_record low_leaf (pos n) ≡ some (key 3)) refl;
  sorted = λ i j l lt. absurd (omega arith);
}

tree_left :
    (j : ℕ) (e : BPlusTreeRecord)
    → j < 1
    → Contains tree e (child_node (child j))
    → less e (entry j) ≡ true
unfolding less
tree_left zero e lt has =
    let (i, inside, same) = leaf_entry tree e 1 1 (λ n. key 3) low_leaf-IsLeaf has in
    subst (λ r. less r (key 5) ≡ true) same refl
tree_left (suc j) e lt has = absurd (omega arith)

tree_right :
    (j : ℕ) (e : BPlusTreeRecord)
    → j < 1
    → Contains tree e (child_node (child (suc j)))
    → less e (entry j) ≡ false
unfolding less rid_less
tree_right zero e lt has =
    let (i, inside, same) = leaf_entry tree e 2 2 entry leaf-IsLeaf has in
    subst (λ r. less r (key 5) ≡ false) same
      (below_two (λ n. less (entry n) (key 5) ≡ false) refl refl i inside)
tree_right (suc j) e lt has = absurd (omega arith)

pub tree-IsSubtree : IsSubtree tree 1 (dir_at 0)
tree-IsSubtree =
    IsSubtree.dir 0 0 1 entry child dir-IsDir dir-Holds.children
      (λ j le.
        below_two (λ n. IsSubtree tree 0 (child_node (child n)))
          (IsSubtree.leaf 1 1 (λ i. key 3) low_leaf-IsLeaf (omega arith))
          (IsSubtree.leaf 2 2 entry leaf-IsLeaf (omega arith)) j (omega arith))
      tree_left tree_right

search_leaf-Finds_example :
    (l : ℕ) × (k : ℕ) × (search_leaf 1 tree 0 (key 9) ≡ some (result tree (key 9) l k))
    × (Contains tree (key 9) (dir_at 0) → Leaf.get_record (tree.leaves l) (pos k) ≡ some (key 9))
search_leaf-Finds_example = search_leaf-Finds tree 1 0 (key 9) tree-IsSubtree
