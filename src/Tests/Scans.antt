-- ===== src/Tests/Scans.antt =====
-- An index of one entry over the page with a record: two leaves, the second of them empty.
use model_lib.Prelude.{
  ℕ, ◌≡◌, refl, true, false, some, List, [], ◌∷◌, ◌==◌, if◌then◌else◌, get_or, arith,
}
use model_lib.Prelude.Int.{pos, to_size}
use model_lib.Word.{bytes_int32, bytes_int64, from_bytes, of_pattern}
use model_lib.Page.{Page, load, read_int32, read_int64}
use model_lib.Value.{Value, int, as_int, datatype}
use model_lib.Value
use model_lib.HeapPage.{init, get_dir_count, get_free_space, get_dir, read_values}
use model_lib.HeapPage
use model_lib.HeapFile.{HeapFile, get_record}
use model_lib.BPlusTree.{IsEntry, less}
use model_lib.BPlusTree.Leaf
use model_lib.BPlusTree.Leaf.{read_entry}
use model_lib.BPlusTree.Leaf.Search.{IsLeaf}
use model_lib.BPlusTree.Dir
use model_lib.BPlusTree.Tree.Search.{dir_at, Contains, IsSubtree}
use model_lib.BPlusTree.Index.{BPlusTree, Bounds, encode_key, get_iter, get_rid_record}
use model_lib.BPlusTree.Index.Iter.{scan}
use model_lib.BPlusTree.Index.Range.{Item, Chain, item, leaf_end, last_leaf, at}
use model_lib.BPlusTree.Index.Update.{insert_record, delete_record, insert_record-indexed}
use model_lib.BPlusTree.Index.Keys.{IsKeyed, Between, bounds_of, scan_range}
use model_lib.Tests.HeapPages.{one_record, types}
use model_lib.Tests.Trees.{below_one}

abbrev bytes_of : List ℕ → Page
bytes_of bytes = record { bytes = λ k. get_or bytes k 0; dirty = false }

-- One entry, of the key 5 and the identifier (0, 0); the next leaf is 2.
abbrev leaf : Page
leaf = bytes_of (1 ∷ 0 ∷ 0 ∷ 0 ∷ 2 ∷ 0 ∷ 0 ∷ 0 ∷ 5 ∷ [])

abbrev empty : Page
empty = bytes_of []

-- One child, leaf 1.
abbrev root : Page
root = bytes_of (1 ∷ 0 ∷ 0 ∷ 0 ∷ 1 ∷ [])

abbrev file : HeapFile
file = record { last_insert_page = 0; page_count = 1; pages = λ n. one_record }

abbrev index : BPlusTree
index = record {
  heap_file = file;
  types = types;
  key_column_idx = 0;
  tree = record { dir_count = 1; dirs = λ n. root; leaves = λ l. if l == 1 then leaf else empty };
  record_buf = [];
}

abbrev five : Item
five = record {
  entry = record { encoded_key = pos 5; rid = record { page_num = pos 0; dir_slot = pos 0 } };
  values = as_int (pos 5) ∷ [];
  key = as_int (pos 5);
}

leaf_reads :
    (Leaf.get_record_count leaf ≡ some (pos 1))
    × (Leaf.get_next_page_number leaf ≡ some (pos 2))
    × (Leaf.get_record leaf (pos 0) ≡ some five.entry)
    × (Leaf.get_record_count empty ≡ some (pos 0))
    × (Leaf.get_next_page_number empty ≡ some (pos 0))
unfolding Leaf.get_record_count Leaf.get_next_page_number Leaf.get_record Leaf.record_offset
    read_entry to_size read_int32 read_int64 load bytes_int32 bytes_int64 from_bytes of_pattern
leaf_reads = (refl, refl, refl, refl, refl)

five_read : get_rid_record index five.entry.rid ≡ some (some five.values)
unfolding get_rid_record get_record HeapPage.get_record init get_dir_count get_free_space get_dir
    read_values to_size read_int32 read_int64 load bytes_int32 bytes_int64 from_bytes of_pattern
    datatype
five_read = refl

chain : Chain index 1 0 3 (five ∷ [])
chain =
    let (count, next, entry, none_left, no_leaf) = leaf_reads in
    item 1 five count (omega arith) entry five_read refl
      (leaf_end 1 1 count (omega arith) next (last_leaf 0 none_left (omega arith) no_leaf))

five-IsEntry : IsEntry five.entry
five-IsEntry = record { key = omega arith; page = omega arith; slot = omega arith }

five-IsKeyed : IsKeyed int five
unfolding encode_key
five-IsKeyed = record { entry = five-IsEntry; encoded = refl; plain = tt }

abbrev range : Bounds
range = bounds_of (as_int (pos 3)) (as_int (pos 7)) (pos 3) (pos 7)

scan_range_example :
    (get_iter index (as_int (pos 3)) (as_int (pos 7)) ≡ some range)
    × ((seen : List (List Value)) × (scan 3 3 index range (at index range 1 0 []) ≡ some seen)
        × Between (as_int (pos 3)) (as_int (pos 7)) (five ∷ []) seen)
    × ((x : Item)
        → IsKeyed int x
        → less x.entry range.min_record ≡ true
        → Value.less x.key (as_int (pos 3)) ≡ true)
unfolding encode_key datatype
scan_range_example =
    scan_range index int (as_int (pos 3)) (as_int (pos 7)) (pos 3) (pos 7) refl refl refl tt tt 3 1
      0 3 (five ∷ []) [] chain (five-IsKeyed, tt) (tt, tt) (omega arith)

leaf-IsLeaf : IsLeaf leaf 1 (λ i. five.entry)
leaf-IsLeaf =
    let (count, next, entry, none_left, no_leaf) = leaf_reads in
    record {
      count_is = count;
      fits = omega arith;
      reads = below_one (λ n. Leaf.get_record leaf (pos n) ≡ some five.entry) entry;
      sorted = λ i j l lt. absurd (omega arith);
    }

root-IsSubtree : IsSubtree index.tree 1 (dir_at 0)
unfolding Dir.get_child_count Dir.get_child Dir.child_offset to_size read_int32 load bytes_int32
    from_bytes of_pattern
root-IsSubtree =
    IsSubtree.dir 0 0 0 (λ i. five.entry) (λ j. pos 1)
      (record {
        count_is = refl;
        fits = omega arith;
        reads = λ i lt. absurd (omega arith);
        sorted = λ i j l lt. absurd (omega arith);
      })
      (λ j le. let e : j ≡ 0 = omega arith in rw e refl)
      (λ j le. IsSubtree.leaf 1 1 (λ i. five.entry) leaf-IsLeaf (omega arith))
      (λ j e lt. absurd (omega arith)) (λ j e lt. absurd (omega arith))

five-Contains : Contains index.tree five.entry (dir_at 0)
unfolding Dir.get_child_count Dir.get_child Dir.child_offset to_size read_int32 load bytes_int32
    from_bytes of_pattern
five-Contains =
    let (count, next, entry, none_left, no_leaf) = leaf_reads in
    Contains.in_dir 0 0 0 (pos 1) refl (omega arith) refl
      (Contains.in_leaf 1 1 0 count (omega arith) entry)

insert_record-indexed_example :
    (insert_record 1 index five.entry.rid ≡ some (record index { record_buf = five.values }))
    × (delete_record index five.entry.rid ≡ some (record index { record_buf = five.values }))
unfolding encode_key datatype
insert_record-indexed_example =
    insert_record-indexed index five.entry.rid five.values five.key int (pos 5) five_read refl refl
      refl 1 root-IsSubtree five-Contains
