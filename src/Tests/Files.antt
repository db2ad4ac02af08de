-- ===== src/Tests/Files.antt =====
-- A heap file of one page, one without pages, and a catalog of two tables.
use model_lib.Prelude.{
  Option, ℕ, zero, suc, ◌≡◌, ◌≢◌, refl, none, some, List, [], ◌∷◌, ◌++◌, map, arith, ◌==◌,
  if◌then◌else◌,
}
use model_lib.Prelude.Int.{pos}
use model_lib.Value.{DataType, str, int, Schema, Value, as_int, as_str, datatype}
use model_lib.HeapPage.{record_size}
use model_lib.HeapPage.Delete.{zeros}
use model_lib.HeapFile.{HeapFile, insert_loop, insert_record}
use model_lib.HeapFile.Pages.{IsHeapFile}
use model_lib.HeapFile.Insert.{Inserted, insert_record-Inserted}
use model_lib.HeapFile.Iter.{HeapFileIter, get_record_iter, next}
use model_lib.HeapFile.Iter.Next.{IsIter, Step, next-Steps}
use model_lib.HeapFile.Oversize.{insert_loop_oversize}
use model_lib.Catalog.{TableInfo, Catalog, save, load, tolower, normalize, get_table, create_table}
use model_lib.Catalog.File.{IsTable, load-save}
use model_lib.Catalog.Names.{IsIndexed, normalize_lem, create_table-IsIndexed}
use model_lib.Tests.HeapPages.{one_record, one_record-IsUsed, six, types}

-- The page with a record.
abbrev pub one_page : HeapFile
one_page = record {
  last_insert_page = 0;
  page_count = 1;
  pages = λ n. if n == 0 then one_record else zeros;
}

pub one_page-IsHeapFile : IsHeapFile types one_page
one_page-IsHeapFile = record {
  page = λ n lt. let e : n ≡ 0 = omega arith in rw e one_record-IsUsed;
  fresh = λ n le. ground arith;
  last = omega arith;
}

insert_record-Inserted_example :
    (g : HeapFile) × (n : ℕ) × (slot : ℕ) × (insert_record one_page six ≡ some (g, n, slot))
    × Inserted types one_page six g n slot
unfolding record_size
insert_record-Inserted_example =
    insert_record-Inserted (as_int (pos 6)) [] (omega arith) (omega arith) one_page
      one_page-IsHeapFile

one_page-IsIter : IsIter one_page (get_record_iter one_page)
unfolding get_record_iter
one_page-IsIter = record {
  total = omega arith;
  here = λ e. omega arith;
  bound = omega arith;
  over = λ e. cc e;
}

next-Steps_example :
    (r : HeapFileIter × Option (List Value)) × (next one_page types (get_record_iter one_page)
      ≡ some r)
    × Step one_page types 1 0 0 r
unfolding get_record_iter
next-Steps_example =
    next-Steps types one_page one_page-IsHeapFile (get_record_iter one_page) one_page-IsIter

abbrev no_page : HeapFile
no_page = record { last_insert_page = 0; page_count = 0; pages = λ n. zeros }

-- 16 strings of 255 bytes and an integer.
copies : ℕ → Value → List Value
copies zero v = []
copies (suc n) v = v ∷ copies n v

letters : ℕ → List ℕ
letters zero = []
letters (suc n) = 97 ∷ letters n

no_page-IsHeapFile : (ts : List DataType) → IsHeapFile ts no_page
no_page-IsHeapFile ts = record {
  page = λ n lt. absurd (omega arith);
  fresh = λ n le. refl;
  last = omega arith;
}

insert_loop_oversize_example :
    insert_loop 100 no_page (as_int (pos 1) ∷ copies 16 (as_str (letters 255))) ≡ none
unfolding copies letters record_size
insert_loop_oversize_example =
    insert_loop_oversize 100 no_page (as_int (pos 1)) (copies 16 (as_str (letters 255)))
      (no_page-IsHeapFile (map datatype (as_int (pos 1) ∷ copies 16 (as_str (letters 255)))))
      (omega arith)

abbrev users : TableInfo
users = record {
  name = 117 ∷ 115 ∷ [];
  columns =
      record { name = 105 ∷ 100 ∷ []; datatype = int }
      ∷ record { name = 110 ∷ []; datatype = str }
      ∷ [];
  index = some (pos 0);
}

abbrev empty_table : TableInfo
empty_table = record { name = []; columns = []; index = none }

users-IsTable : IsTable users
users-IsTable = record {
  name = omega arith;
  count = omega arith;
  columns = omega arith;
  index = omega arith;
}

empty_table-IsTable : IsTable empty_table
empty_table-IsTable = record { name = omega arith; count = omega arith; columns = tt; index = tt }

load-save_example :
    load (save (users ∷ empty_table ∷ []) ++ (1 ∷ 2 ∷ [])) ≡ some (users ∷ empty_table ∷ [])
load-save_example =
    load-save (users ∷ empty_table ∷ []) (1 ∷ 2 ∷ []) (omega arith)
      (users-IsTable, (empty_table-IsTable, tt))

-- A digit and a blank.
normalize_lem_example : normalize (85 ∷ 49 ∷ 32 ∷ []) ≡ some (map tolower (85 ∷ 49 ∷ 32 ∷ []))
normalize_lem_example = normalize_lem (85 ∷ 49 ∷ 32 ∷ [])

abbrev no_tables : Catalog
no_tables = record { table_name_idx = λ name. none; tables = [] }

no_tables-IsIndexed : IsIndexed no_tables
no_tables-IsIndexed = record { found = λ name i e. cc e; listed = λ i t e. cc e }

create_table-IsIndexed_example :
    (c' : Catalog) × (create_table no_tables (85 ∷ []) users.columns ≡ some (c', 0))
    × IsIndexed c'
    × ((other : List ℕ)
        → map tolower other ≡ map tolower (85 ∷ [])
        → get_table c' other ≡ some (some (users.columns, 0)))
    × ((other : List ℕ)
        → map tolower other ≢ map tolower (85 ∷ [])
        → get_table c' other ≡ get_table no_tables other)
    × ((other : List ℕ) (schema' : Schema)
        → map tolower other ≡ map tolower (85 ∷ [])
        → create_table c' other schema' ≡ none)
create_table-IsIndexed_example =
    create_table-IsIndexed no_tables no_tables-IsIndexed (85 ∷ []) users.columns refl
