-- ===== src/BPlusTree/Index.antt =====
-- `class BPlusTree` of src/storage/b_plus_tree/b_plus_tree.cc: the index of a column of a heap file, and
-- its iterator over a range of values.
pub mod Iter
pub mod Range
pub mod Keys
pub mod Update
use model_lib.Prelude.{ℕ, Option, none, some, List, ◌^◌, ◌-◌, get_elem?, if◌then◌else◌, ◌>>=◌}
use model_lib.Prelude.Int.{ℤ, pos, negsuc, eqb_ℤ}
use model_lib.Page.{Page}
use model_lib.Value.{DataType, str, int, Value, as_str, as_int}
use model_lib.HeapFile.{HeapFile, get_record}
use model_lib.BPlusTree.{Rid, BPlusTreeRecord}
use model_lib.BPlusTree.Key.{serialize_string_key}
use model_lib.BPlusTree.Dir.{get_child_count, set_child_count}
use model_lib.BPlusTree.Tree.{Tree}

-- The heap file, the column of the key, and the pages of the tree; the root is page 0 of the inner
-- nodes. `types` are those of the heap file's schema.
pub record BPlusTree : Type 0 where
  pub heap_file : HeapFile
  pub types : List DataType
  pub key_column_idx : ℕ
  pub tree : Tree
  pub record_buf : List Value

-- What the constructor does to the root.
unfoldable pub open_root : Page → Option Page
open_root p = do
  count ← get_child_count p
  if eqb_ℤ count (pos 0) then set_child_count p (pos 1) else some p

-- The integer that stands for a key in the tree, by the type of the column. A value of the other type
-- is `none`, since it would be read from the wrong member of the union.
unfoldable pub encode_key : DataType → Value → Option ℤ
encode_key str (as_str s) = some (serialize_string_key s)
encode_key int (as_int z) = some z
encode_key str (as_int z) = none
encode_key int (as_str s) = none

-- `INT32_MIN` and `INT32_MAX`
abbrev pub lowest_rid : Rid
lowest_rid = record { page_num = negsuc (2 ^ 31 - 1); dir_slot = negsuc (2 ^ 31 - 1) }

abbrev pub highest_rid : Rid
highest_rid = record { page_num = pos (2 ^ 31 - 1); dir_slot = pos (2 ^ 31 - 1) }

-- What the iterator is made with.
pub record Bounds : Type 0 where
  pub min : Value
  pub max : Value
  pub min_record : BPlusTreeRecord
  pub max_record : BPlusTreeRecord

unfoldable pub get_iter : BPlusTree → Value → Value → Option Bounds
get_iter b min max = do
  key_datatype ← get_elem? b.types b.key_column_idx
  encoded_min ← encode_key key_datatype min
  encoded_max ← encode_key key_datatype max
  some (record {
    min = min;
    max = max;
    min_record = record { encoded_key = encoded_min; rid = lowest_rid };
    max_record = record { encoded_key = encoded_max; rid = highest_rid };
  })

-- `heap_file.get_record(rid, ...)`. An identifier with a negative number, which no heap file gives, is
-- `none`.
abbrev pub get_at : BPlusTree → ℤ → ℤ → Option (Option (List Value))
get_at b (pos n) (pos j) = get_record b.heap_file n j b.types
get_at b (pos n) (negsuc j) = none
get_at b (negsuc n) slot = none

unfoldable pub get_rid_record : BPlusTree → Rid → Option (Option (List Value))
get_rid_record b rid = get_at b rid.page_num rid.dir_slot
