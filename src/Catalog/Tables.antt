-- ===== src/Catalog/Tables.antt =====
-- The operations of src/system/catalog.cc on the records of a table: on its heap file and its index.
pub mod Insert
use Prim.Native.Nat.{max}
use model_lib.Prelude.{
  ℕ, zero, suc, Bool, true, false, Option, none, some, List, ◌==◌, map, if◌then◌else◌, ◌>>=◌, ◌+◌,
  ◌-◌,
}
use model_lib.Prelude.Int.{ℤ, pos}
use model_lib.Page.{Page}
use model_lib.Value.{DataType, Value, Cell, default_value, set}
use model_lib.HeapFile.{HeapFile}
use model_lib.HeapFile
use model_lib.HeapFile.Iter.{HeapFileIter, get_record_iter, next}
use model_lib.BPlusTree.{Rid}
use model_lib.BPlusTree.Tree.{Tree}
use model_lib.BPlusTree.Index.{BPlusTree, open_root}
use model_lib.BPlusTree.Index.Update
use model_lib.Catalog.{Catalog, get_table_pos}

-- What `TableInfo` points to, beside the schema. The index keeps a reference to the table's heap file:
-- `with_heap` brings its copy up to date.
pub record Table : Type 0 where
  pub types : List DataType
  pub heap_file : HeapFile
  pub record_buf : List Value
  pub index : Option BPlusTree

-- The catalog with its tables, by their position.
pub record Database : Type 0 where
  pub catalog : Catalog
  pub tables : ℕ → Table

unfoldable pub set_table : Database → ℕ → Table → Database
set_table d i t = record d { tables = λ j. if i == j then t else d.tables j }

unfoldable pub with_heap : HeapFile → BPlusTree → BPlusTree
with_heap f b = record b { heap_file = f }

abbrev pub rid_of : ℕ → ℕ → Rid
rid_of n slot = record { page_num = pos n; dir_slot = pos slot }

-- `index->insert_record(rid)`, if there is an index; `fuel` is for the way down its tree.
unfoldable pub index_insert : ℕ → HeapFile → Option BPlusTree → Rid → Option (Option BPlusTree)
index_insert fuel f none rid = some none
index_insert fuel f (some b) rid = do
  b' ← Update.insert_record fuel (with_heap f b) rid
  some (some b')

unfoldable pub index_delete : HeapFile → Option BPlusTree → Rid → Option (Option BPlusTree)
index_delete f none rid = some none
index_delete f (some b) rid = do b' ← Update.delete_record (with_heap f b) rid; some (some b')

-- `insert_record`, once the table is found.
unfoldable pub insert_into : ℕ → Table → List Cell → Option (Table × ℕ × ℕ)
insert_into fuel t values = do
  vs ← set t.record_buf values
  (f, n, slot) ← HeapFile.insert_record t.heap_file vs
  index ← index_insert fuel f t.index (rid_of n slot)
  some (record t { heap_file = f; record_buf = vs; index = index }, n, slot)

-- The database, and the record's identifier.
unfoldable pub insert_record : ℕ → Database → List ℕ → List Cell → Option (Database × ℕ × ℕ)
insert_record fuel d table_name values = do
  table_pos ← get_table_pos d.catalog table_name
  (t, n, slot) ← insert_into fuel (d.tables table_pos) values
  some (set_table d table_pos t, n, slot)

-- First from the index, then from the table.
unfoldable pub delete_from : Table → ℕ → ℕ → Option Table
delete_from t n slot = do
  index ← index_delete t.heap_file t.index (rid_of n slot)
  f ← HeapFile.delete_record t.heap_file n slot
  some (record t { heap_file = f; index = index })

unfoldable pub delete_record : Database → List ℕ → ℕ → ℕ → Option Database
delete_record d table_name n slot = do
  table_pos ← get_table_pos d.catalog table_name
  t ← delete_from (d.tables table_pos) n slot
  some (set_table d table_pos t)

-- The loop of `create_index` over the iterator; `get_current_RID` is the slot that it has just passed.
-- Fuel that ran out is `none`.
unfoldable pub index_loop :
    ℕ → ℕ → HeapFile → List DataType → HeapFileIter → BPlusTree → Option BPlusTree
index_loop zero fuel f types it b = none
index_loop (suc rounds) fuel f types it b = do
  (it', answer) ← next f types it
  let more = do
    b' ← Update.insert_record fuel b (rid_of it'.page_number (it'.record_pos - 1))
    index_loop rounds fuel f types it' b'
  elim answer [ none ↦ some b | some vs ↦ more ]

-- The key of an index, and its files as the constructor of the index finds them.
unfoldable pub new_index : Table → ℕ → Tree → Option BPlusTree
new_index t key_column_idx files = do
  root ← open_root (files.dirs 0)
  some (record {
    heap_file = t.heap_file;
    types = t.types;
    key_column_idx = key_column_idx;
    tree = record files {
      dir_count = max files.dir_count 1;
      dirs = λ n. if n == 0 then root else files.dirs n;
    };
    record_buf = map default_value t.types;
  })

-- `create_index`, once the table is found; a table that has an index is an exception. `rounds` is for
-- the loop.
unfoldable pub index_table : ℕ → ℕ → Table → ℕ → Tree → Option Table
index_table rounds fuel t key_column_idx files =
    let built = new_index t key_column_idx files >>= (λ empty.
      index_loop rounds fuel t.heap_file t.types (get_record_iter t.heap_file) empty
      >>= (λ b. some (record t { index = some b }))) in
    elim t.index [ none ↦ built | some b ↦ none ]

unfoldable pub create_index : ℕ → ℕ → Database → List ℕ → ℕ → Tree → Option Database
create_index rounds fuel d table_name key_column_idx files = do
  table_pos ← get_table_pos d.catalog table_name
  t ← index_table rounds fuel (d.tables table_pos) key_column_idx files
  some (set_table d table_pos t)
