-- ===== src/BPlusTree/Index/Update.antt =====
-- `insert_record` and `delete_record` of src/storage/b_plus_tree/b_plus_tree.cc: the entry of a record is
-- put into the tree.
use model_lib.Prelude.{ℕ, ◌≡◌, refl, Option, some, List, get_elem?, ◌>>=◌}
use model_lib.Prelude.Int.{ℤ}
use model_lib.Value.{DataType, Value}
use model_lib.HeapPage.Vacuum.{fill}
use model_lib.BPlusTree.{Rid, BPlusTreeRecord}
use model_lib.BPlusTree.Tree.Search.{dir_at, Contains, IsSubtree}
use model_lib.BPlusTree.Tree.Insert.{insert_leaf}
use model_lib.BPlusTree.Tree.Insert
use model_lib.BPlusTree.Tree.Insert.Present.{insert_record-Present}
use model_lib.BPlusTree.Index.{BPlusTree, encode_key, get_rid_record}

-- What both begin with: the record is read into `record_buf`, and its key gives the entry.
unfoldable pub read_entry_of : BPlusTree → Rid → Option (List Value × BPlusTreeRecord)
read_entry_of b rid = do
  found ← get_rid_record b rid
  let record_buf = fill found b.record_buf
  key ← get_elem? record_buf b.key_column_idx
  key_datatype ← get_elem? b.types b.key_column_idx
  encoded_key ← encode_key key_datatype key
  some (record_buf, record { encoded_key = encoded_key; rid = rid })

-- `fuel` is for the way down the tree.
unfoldable pub insert_record : ℕ → BPlusTree → Rid → Option BPlusTree
insert_record fuel b rid = do
  (record_buf, entry) ← read_entry_of b rid
  (tree, split) ← Insert.insert_record insert_leaf fuel b.tree 0 entry
  some (record b { tree = tree; record_buf = record_buf })

-- `delete_record` of the root is to be written, and does nothing.
unfoldable pub delete_record : BPlusTree → Rid → Option BPlusTree
delete_record b rid = do
  (record_buf, entry) ← read_entry_of b rid
  some (record b { record_buf = record_buf })

module _ (b : BPlusTree) (rid : Rid) (vs : List Value) (key : Value) (type : DataType) (code : ℤ)
    (read : get_rid_record b rid ≡ some (some vs))
    (at_key : get_elem? vs b.key_column_idx ≡ some key)
    (column : get_elem? b.types b.key_column_idx ≡ some type)
    (encoded : encode_key type key ≡ some code) where
  abbrev entry : BPlusTreeRecord
  entry = record { encoded_key = code; rid = rid }

  entry_read : read_entry_of b rid ≡ some (vs, entry)
  unfolding read_entry_of fill
  entry_read = rw (read, at_key, column, encoded) refl

  -- For a record with a key of the column's type, whose entry the index has already: in a tree of
  -- height `h`, of sorted leaves that are not empty and inner nodes whose records part their children,
  -- inserting it again returns, and changes nothing but the buffer, which holds the record; deleting
  -- it does not take the entry out of the tree either.
  pub insert_record-indexed :
      (h : ℕ)
      → IsSubtree b.tree h (dir_at 0)
      → Contains b.tree (record { encoded_key = code; rid = rid }) (dir_at 0)
      → (insert_record h b rid ≡ some (record b { record_buf = vs }))
        × (delete_record b rid ≡ some (record b { record_buf = vs }))
  unfolding insert_record delete_record
  insert_record-indexed h tree has =
      (rw (entry_read, insert_record-Present b.tree h 0 entry tree has) refl, rw entry_read refl)
