-- ===== src/Programs.antt =====
-- src/bin/create_table.cc: a table from the arguments `name:datatype` of the command line. A string
-- is its bytes; what the program prints is the end that it comes to.
pub mod Columns
use model_lib.Prelude.{
  ℕ, Bool, true, false, ◌||◌, Option, none, some, List, [], ◌∷◌, map, ◌⊎◌, inl, inr, ◌==◌,
  if◌then◌else◌, ◌>>=◌,
}
use model_lib.Value.{DataType, str, int, ColumnInfo, Schema}
use model_lib.Catalog.{Catalog, tolower, same_string, get_table, create_table}

-- `str.find(':')` with the two `substr`; `none` is `npos`.
unfoldable pub split_colon : List ℕ → Option (List ℕ × List ℕ)
split_colon [] = none
split_colon (c ∷ s) =
    let later = split_colon s >>= (λ parts. some (c ∷ parts.0, parts.1)) in
    if c == 58 then some ([], s) else later

unfoldable pub is_empty : List ℕ → Bool
is_empty [] = true
is_empty (c ∷ s) = false

-- How an argument is refused.
pub data Refusal : Type 0 where
  malformed unrecognized : Refusal

-- "int" and "str"
abbrev pub datatype_name : DataType → List ℕ
datatype_name int = 105 ∷ 110 ∷ 116 ∷ []
datatype_name str = 115 ∷ 116 ∷ 114 ∷ []

unfoldable pub parse_datatype : List ℕ → List ℕ → Refusal ⊎ ColumnInfo
parse_datatype col_name dt =
    if same_string dt (datatype_name int)
    then inr (record { name = col_name; datatype = int })
    else if same_string dt (datatype_name str)
    then inr (record { name = col_name; datatype = str })
    else inl unrecognized

abbrev pub parse_parts : Option (List ℕ × List ℕ) → Refusal ⊎ ColumnInfo
parse_parts none = inl malformed
parse_parts (some (col_name, dt)) =
    if is_empty col_name || is_empty dt
    then inl malformed
    else parse_datatype col_name (map tolower dt)

-- One round of the loop over the arguments.
unfoldable pub parse_column : List ℕ → Refusal ⊎ ColumnInfo
parse_column arg = parse_parts (split_colon arg)

abbrev pub add_column : Refusal ⊎ ColumnInfo → Refusal ⊎ Schema → Refusal ⊎ Schema
add_column (inl refusal) rest = inl refusal
add_column (inr column) (inl refusal) = inl refusal
add_column (inr column) (inr columns) = inr (column ∷ columns)

unfoldable pub parse_columns : List (List ℕ) → Refusal ⊎ Schema
parse_columns [] = inr []
parse_columns (arg ∷ args) = add_column (parse_column arg) (parse_columns args)

-- What `main` comes to; `exception` is the `catch` clause.
pub data Exit : Type 0 where
  usage exists exception : Exit
  refused : Refusal → Exit
  created : Catalog → ℕ → Exit

abbrev pub created_exit : Option (Catalog × ℕ) → Exit
created_exit none = exception
created_exit (some (c, table)) = created c table

abbrev pub create_exit : Catalog → List ℕ → Schema → Option (Option (Schema × ℕ)) → Exit
create_exit c table_name columns none = exception
create_exit c table_name columns (some (some table)) = exists
create_exit c table_name columns (some none) = created_exit (create_table c table_name columns)

abbrev pub main_columns : Catalog → List ℕ → Refusal ⊎ Schema → Exit
main_columns c table_name (inl refusal) = refused refusal
main_columns c table_name (inr columns) = create_exit c table_name columns (get_table c table_name)

-- On the arguments behind the directory and the table's name.
unfoldable pub main : Catalog → List ℕ → List (List ℕ) → Exit
main c table_name [] = usage
main c table_name (arg ∷ args) = main_columns c table_name (parse_columns (arg ∷ args))
