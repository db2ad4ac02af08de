-- ===== src/Catalog.antt =====
-- src/system/catalog.cc and catalog.h, src/relational_model/table_info.h and index.h: the tables by
-- name, and the catalog file. An exception is `none`. Of a table's index only the key column is kept
-- in the file, and the heap file and the index are built from the name.
pub mod File
pub mod Names
pub mod Tables
use Prim.Native.Nat.{bit_or}
use model_lib.Prelude.{
  ℕ, zero, suc, ◌+◌, ◌-◌, ◌*◌, ◌/◌, ◌%◌, ◌^◌, Bool, true, false, not, ◌&&◌, ◌||◌, Option, none,
  some, List, [], ◌∷◌, ◌++◌, map, get_elem?, ltb, leb, ◌==◌, if◌then◌else◌, length, assert, ◌>>=◌,
  ◌>>◌,
}
use model_lib.Prelude.Int.{ℤ, pos, negsuc, pos_part, ltb_ℤ, eqb_ℤ}
use model_lib.Word.{to_pattern, of_pattern}
use model_lib.Value.{DataType, str, int, ColumnInfo, Schema}

-- `struct TableInfo`; the index, if there is one, by its key column.
pub record TableInfo : Type 0 where
  pub name : List ℕ
  pub columns : Schema
  pub index : Option ℤ

-- The loop of `write_int64`: `(n >> shift) & 0xFF`, on the bit pattern of `n`.
unfoldable pub write_loop : ℕ → ℕ → ℕ → List ℕ
write_loop zero shift u = []
write_loop (suc rounds) shift u = u / 2 ^ shift % 256 ∷ write_loop rounds (shift + 8) u

unfoldable pub write_int64 : ℤ → List ℕ
write_int64 n = write_loop 8 0 (to_pattern (2 ^ 63) n)

-- The loop of `read_int64` over the bytes that were read.
unfoldable pub read_loop : List ℕ → ℕ → ℕ → ℕ
read_loop [] shift res = res
read_loop (b ∷ buf) shift res = read_loop buf (shift + 8) (bit_or res (b * 2 ^ shift % 2 ^ 64))

-- `file.read`: the next `n` bytes, and the file behind them; `none` if there are fewer.
unfoldable pub read_bytes : ℕ → List ℕ → Option (List ℕ × List ℕ)
read_bytes zero file = some ([], file)
read_bytes (suc n) [] = none
read_bytes (suc n) (b ∷ file) = do (buf, rest) ← read_bytes n file; some (b ∷ buf, rest)

unfoldable pub read_int64 : List ℕ → Option (ℤ × List ℕ)
read_int64 file = do
  (buf, rest) ← read_bytes 8 file
  some (of_pattern (2 ^ 63) (read_loop buf 0 0), rest)

unfoldable pub write_string : List ℕ → List ℕ
write_string s = write_int64 (pos (length s)) ++ s

-- A negative length cannot be allocated.
unfoldable pub read_string : List ℕ → Option (List ℕ × List ℕ)
read_string file = do
  (len, rest) ← read_int64 file
  assert (not (ltb_ℤ len (pos 0)))
  read_bytes (pos_part len) rest

-- `static_cast<int64_t>(datatype)` and `static_cast<DataType>(n)`; no other number is written.
unfoldable pub datatype_number : DataType → ℤ
datatype_number str = pos 0
datatype_number int = pos 1

unfoldable pub number_datatype : ℤ → Option DataType
number_datatype n = if eqb_ℤ n (pos 0) then some str else if eqb_ℤ n (pos 1) then some int else none

unfoldable pub write_columns : Schema → List ℕ
write_columns [] = []
write_columns (c ∷ cs) =
    write_int64 (datatype_number c.datatype) ++ (write_string c.name ++ write_columns cs)

-- `IndexType::NONE`, or `IndexType::B_PLUS_TREE` and the key column.
unfoldable pub write_index : Option ℤ → List ℕ
write_index none = write_int64 (pos 0)
write_index (some key_column_idx) = write_int64 (pos 1) ++ write_int64 key_column_idx

unfoldable pub write_table : TableInfo → List ℕ
write_table t =
    write_string t.name
    ++ (write_int64 (pos (length t.columns)) ++ (write_columns t.columns ++ write_index t.index))

unfoldable pub write_tables : List TableInfo → List ℕ
write_tables [] = []
write_tables (t ∷ ts) = write_table t ++ write_tables ts

-- The destructor, on the bytes that it writes from the start of the file.
unfoldable pub save : List TableInfo → List ℕ
save tables = write_int64 (pos (length tables)) ++ write_tables tables

unfoldable pub read_columns : ℕ → List ℕ → Option (Schema × List ℕ)
read_columns zero file = some ([], file)
read_columns (suc n) file = do
  (number, rest) ← read_int64 file
  datatype ← number_datatype number
  (name, rest') ← read_string rest
  (columns, rest'') ← read_columns n rest'
  some (record { name = name; datatype = datatype } ∷ columns, rest'')

unfoldable pub read_index : List ℕ → Option (Option ℤ × List ℕ)
read_index file = do
  (index_type, rest) ← read_int64 file
  if eqb_ℤ index_type (pos 1)
      then (do (key_col_idx, rest') ← read_int64 rest; some (some key_col_idx, rest'))
      else some (none, rest)

unfoldable pub read_table : List ℕ → Option (TableInfo × List ℕ)
read_table file = do
  (name, rest) ← read_string file
  (cardinality, rest') ← read_int64 rest
  (columns, rest'') ← read_columns (pos_part cardinality) rest'
  (index, rest''') ← read_index rest''
  some (record { name = name; columns = columns; index = index }, rest''')

unfoldable pub read_tables : ℕ → List ℕ → Option (List TableInfo × List ℕ)
read_tables zero file = some ([], file)
read_tables (suc n) file = do
  (table, rest) ← read_table file
  (tables, rest') ← read_tables n rest
  some (table ∷ tables, rest')

-- The constructor: an empty file is a new catalog.
unfoldable pub load : List ℕ → Option (List TableInfo)
load [] = some []
load (b ∷ file) = do
  (tables_count, rest) ← read_int64 (b ∷ file)
  (tables, rest') ← read_tables (pos_part tables_count) rest
  some tables

-- `std::tolower`, in the C locale.
unfoldable pub tolower : ℕ → ℕ
tolower c = if leb 65 c && leb c 90 then c + 32 else c

-- The value of a `char`, which is signed.
unfoldable pub char_value : ℕ → ℤ
char_value c = if ltb c 128 then pos c else negsuc (255 - c)

-- `c < 'a' && c > 'z' && c != '_'`
unfoldable pub is_refused : ℕ → Bool
is_refused c = ltb_ℤ (char_value c) (pos 97) && ltb_ℤ (pos 122) (char_value c) && not (c == 95)

unfoldable pub check_name : List ℕ → Option (Unit {0})
check_name [] = some tt
check_name (c ∷ res) = if is_refused c then none else check_name res

unfoldable pub normalize : List ℕ → Option (List ℕ)
normalize table_name = do let res = map tolower table_name; check_name res; some res

-- `std::string::operator==`
unfoldable pub same_string : List ℕ → List ℕ → Bool
same_string [] [] = true
same_string [] (b ∷ t) = false
same_string (a ∷ s) [] = false
same_string (a ∷ s) (b ∷ t) = a == b && same_string s t

-- `class Catalog`; the map is a function into the positions of `tables`.
pub record Catalog : Type 0 where
  pub table_name_idx : List ℕ → Option ℕ
  pub tables : List TableInfo

-- An unknown table is an exception.
unfoldable pub get_table_pos : Catalog → List ℕ → Option ℕ
get_table_pos c table_name = do normalized ← normalize table_name; c.table_name_idx normalized

abbrev pub create_at : Catalog → List ℕ → Schema → Option ℕ → Option (Catalog × ℕ)
create_at c normalized schema (some found) = none
create_at c normalized schema none = some (
  record {
    table_name_idx = λ name.
        if same_string normalized name then some (length c.tables) else c.table_name_idx name;
    tables = c.tables ++ (record { name = normalized; columns = schema; index = none } ∷ []);
  },
  length c.tables,
)

-- The catalog with the table, and the table's position.
unfoldable pub create_table : Catalog → List ℕ → Schema → Option (Catalog × ℕ)
create_table c table_name schema = do
  normalized ← normalize table_name
  create_at c normalized schema (c.table_name_idx normalized)

-- The table's schema and its position; the inner `none` is `nullptr`.
unfoldable pub get_table : Catalog → List ℕ → Option (Option (Schema × ℕ))
get_table c table_name = do
  normalized ← normalize table_name
  some (do
    found ← c.table_name_idx normalized
    table ← get_elem? c.tables found
    some (table.columns, found))

unfoldable pub table_exists : Catalog → List ℕ → Option Bool
table_exists c table_name = do
  normalized ← normalize table_name
  some (elim (c.table_name_idx normalized) [ none ↦ false | some found ↦ true ])

-- The first column of the name.
unfoldable pub find_column : Schema → List ℕ → Option DataType
find_column [] col_name = none
find_column (c ∷ cs) col_name =
    if same_string c.name col_name then some c.datatype else find_column cs col_name

unfoldable pub get_datatype : Catalog → List ℕ → List ℕ → Option DataType
get_datatype c table_name col_name = do
  normalized ← normalize table_name
  found ← c.table_name_idx normalized
  table ← get_elem? c.tables found
  find_column table.columns col_name
