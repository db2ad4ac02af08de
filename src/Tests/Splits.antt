-- ===== src/Tests/Splits.antt =====
-- A full root that is split, and insertions into the tree of two leaves.
use model_lib.Prelude.{
  ℕ, ◌+◌, ◌*◌, ◌%◌, ◌^◌, ◌≤◌, ◌<◌, ◌≡◌, ◌≢◌, ◌∙◌, refl, Option, none, some, arith, ◌==◌,
  if◌then◌else◌,
}
use model_lib.Prelude.Int.{pos, to_size}
use model_lib.Word.{bytes_int64, from_bytes, of_pattern}
use model_lib.Page.{Page, size, load, read_int64}
use model_lib.HeapPage.Delete.{zeros, zeros_read}
use model_lib.BPlusTree.{BPlusTreeRecord, BPlusTreeSplit, IsEntry}
use model_lib.BPlusTree.Leaf.{read_entry}
use model_lib.BPlusTree.Dir.{max_records, get_child, get_record, child_offset, record_offset}
use model_lib.BPlusTree.Dir.Access.{
  with_count, get_child_count-with_count, get_child-with_count, get_record-with_count,
}
use model_lib.BPlusTree.Dir.Shift.{insert_at}
use model_lib.BPlusTree.Dir.Split.{Holds}
use model_lib.BPlusTree.Dir.Root.{middle_index, root_split}
use model_lib.BPlusTree.Dir.Root.Divide.{named, root_split-Divides}
use model_lib.BPlusTree.Tree.{Tree}
use model_lib.BPlusTree.Tree.Search.{dir_at, Contains}
use model_lib.BPlusTree.Tree.Insert.{insert_record}
use model_lib.BPlusTree.Tree.Insert.Split.{Takes, insert_record-Takes}
use model_lib.Tests.Trees.{
  below_one, key, key-IsEntry, entry, child, dir-IsDir, dir-Holds, split, tree, five_not_three,
  leaf-IsLeaf,
}

zeros-read_int64 : (off : ℕ) → off + 8 ≤ size → read_int64 zeros off ≡ some (pos 0)
unfolding read_int64 load bytes_int64 from_bytes of_pattern
zeros-read_int64 off h = ground arith

abbrev nothing : BPlusTreeRecord
nothing = record { encoded_key = pos 0; rid = record { page_num = pos 0; dir_slot = pos 0 } }

nothing-IsEntry : IsEntry nothing
nothing-IsEntry = record { key = omega arith; page = omega arith; slot = omega arith }

zeros_child : (i : ℕ) → i ≤ max_records → get_child zeros (pos i) ≡ some (pos 0)
unfolding get_child child_offset to_size
zeros_child i le = zeros_read ((4 + 4 * i) % 2 ^ 64) (omega arith)

zeros_record : (i : ℕ) → i < max_records → get_record zeros (pos i) ≡ some nothing
unfolding get_record record_offset to_size read_entry
zeros_record i lt = rw (
  zeros-read_int64 ((4 + (max_records + 1) * 4 + i * 16) % 2 ^ 64) (omega arith),
  zeros_read ((4 + (max_records + 1) * 4 + i * 16) % 2 ^ 64 + 8) (omega arith),
  zeros_read ((4 + (max_records + 1) * 4 + i * 16) % 2 ^ 64 + 12) (omega arith),
)

-- A root of 205 children, all of them leaf 0.
full_root : Page
full_root = with_count zeros (pos 205)

full_root-Holds : Holds full_root max_records (λ i. nothing) (λ i. pos 0)
unfolding full_root
full_root-Holds = record {
  count = get_child_count-with_count zeros (pos 205) (omega arith);
  records = λ i lt. get_record-with_count zeros (pos 205) i (omega arith) ∙ zeros_record i lt;
  children = λ i le. get_child-with_count zeros (pos 205) i (omega arith) ∙ zeros_child i le;
}

root_split-Divides_example :
    (p' : Page) × (lhs' : Page) × (rhs' : Page) × (root_split full_root zeros zeros 1 2
        (pos 100)
        split
      ≡ some (p', lhs', rhs'))
    × Holds lhs' middle_index
        (insert_at 100 (key 3) (λ i. nothing))
        (insert_at 101 (pos 3) (λ i. pos 0))
    × Holds rhs' middle_index
        (λ i. insert_at 100 (key 3) (λ i. nothing) (middle_index + 1 + i))
        (λ i. insert_at 101 (pos 3) (λ i. pos 0) (middle_index + 1 + i))
    × Holds p' 1
        (λ i. insert_at 100 (key 3) (λ i. nothing) middle_index)
        (λ i. if i == 0 then named 1 else named 2)
root_split-Divides_example =
    root_split-Divides (λ i. nothing) (λ i. pos 0) (λ i lt. nothing-IsEntry) (λ i le. omega arith)
      split (key-IsEntry 3 (omega arith)) (omega arith) full_root zeros zeros 100 1 2
      full_root-Holds (omega arith) (omega arith)

-- A leaf insertion that splits every leaf at the key 3.
abbrev splitting : Tree → ℕ → BPlusTreeRecord → Option (Tree × Option BPlusTreeSplit)
splitting t l r = some (t, some split)

insert_record-Takes_example :
    (t : Tree) × (insert_record splitting 1 tree 0 (key 4) ≡ some (t, none))
    × Takes 0 1 entry child
        (below_one (λ n. IsEntry (entry n)) (key-IsEntry 5 (omega arith)))
        (λ i le. omega arith)
        tree
        (some split)
        t
insert_record-Takes_example =
    insert_record-Takes 0 1 entry child
      (below_one (λ n. IsEntry (entry n)) (key-IsEntry 5 (omega arith))) (λ i le. omega arith)
      splitting 0 tree (key 4) dir-IsDir dir-Holds tree (some split) (λ k found. refl) refl
      (omega arith)
      (key-IsEntry 3 (omega arith), omega arith, below_one (λ n. entry n ≢ key 3) five_not_three)

nine-Contains : Contains tree (key 9) (dir_at 0)
nine-Contains =
    Contains.in_dir 0 1 1 (pos 2) dir-IsDir.count_is (omega arith)
      (dir-Holds.children 1 (omega arith))
      (Contains.in_leaf 2 2 1 leaf-IsLeaf.count_is (omega arith)
        (leaf-IsLeaf.reads 1 (omega arith)))
