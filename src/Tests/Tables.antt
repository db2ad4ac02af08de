-- ===== src/Tests/Tables.antt =====
-- A database of one table with a page and a record.
use model_lib.Prelude.{ℕ, ◌≡◌, ◌≢◌, refl, none, some, [], ◌∷◌, map, arith, if◌then◌else◌}
use model_lib.Prelude.Int.{pos, negsuc}
use model_lib.Value.{as_int, int64, datatype}
use model_lib.Value.Records.{no_values, int_cell}
use model_lib.HeapPage.{record_size}
use model_lib.HeapFile.Insert.{Inserted}
use model_lib.Catalog.{Catalog, tolower, same_string, get_table_pos}
use model_lib.Catalog.Names.{normalize_lem}
use model_lib.Catalog.Tables.{Table, Database, insert_record}
use model_lib.Catalog.Tables.Insert.{insert_record-Reads}
use model_lib.Tests.HeapPages.{types}
use model_lib.Tests.Files.{one_page, one_page-IsHeapFile}

-- The table `u`.
abbrev catalog : Catalog
catalog = record {
  table_name_idx = λ name. if same_string (117 ∷ []) name then some 0 else none;
  tables = [];
}

abbrev table : Table
table = record {
  types = types;
  heap_file = one_page;
  record_buf = as_int (pos 0) ∷ [];
  index = none;
}

abbrev database : Database
database = record { catalog = catalog; tables = λ i. table }

-- By the name `U`.
found : get_table_pos catalog (85 ∷ []) ≡ some 0
unfolding get_table_pos tolower same_string
found = rw (normalize_lem (85 ∷ [])) refl

insert_record-Reads_example :
    (d' : Database) × (n : ℕ) × (slot : ℕ) × (insert_record 1 database
        (85 ∷ [])
        (int64 (negsuc 6) ∷ [])
      ≡ some (d', n, slot))
    × ((d'.tables 0).types ≡ types)
    × (map datatype (d'.tables 0).record_buf ≡ (d'.tables 0).types)
    × ((d'.tables 0).index ≡ none)
    × (d'.catalog ≡ catalog)
    × Inserted types one_page (as_int (negsuc 6) ∷ []) (d'.tables 0).heap_file n slot
    × ((j : ℕ) → j ≢ 0 → d'.tables j ≡ table)
unfolding record_size datatype
insert_record-Reads_example =
    insert_record-Reads 1 database (85 ∷ []) 0 (int64 (negsuc 6)) [] found refl
      (int_cell (negsuc 6) (omega arith) no_values) one_page-IsHeapFile (omega arith) refl
