-- ===== src/Programs/Columns.antt =====
-- The arguments that src/bin/create_table.cc takes, and the table that they make.
use model_lib.Prelude.{
  ℕ, ◌≡◌, ◌≢◌, refl, false, none, some, List, [], ◌∷◌, ◌++◌, map, All, inr, ◌==◌, arith, length,
}
use model_lib.Value.{DataType, str, int, ColumnInfo}
use model_lib.Catalog.{Catalog, tolower, same_string, get_table, create_table}
use model_lib.Catalog.Names.{IsIndexed, create_table-IsIndexed, normalize_lem}
use model_lib.Programs.{
  split_colon, is_empty, datatype_name, parse_datatype, parse_column, parse_columns, main, created,
}

-- An argument for a column, with its datatype in any mix of upper and lower case.
pub record Argument : Type 0 where
  pub column : ColumnInfo
  pub spelling : List ℕ

abbrev pub arg_of : Argument → List ℕ
arg_of a = a.column.name ++ 58 ∷ a.spelling

abbrev pub column_of : Argument → ColumnInfo
column_of a = a.column

-- The name has a character, but no colon, and the datatype is the column's.
pub record IsArgument (a : Argument) : Type 0 where
  pub named : a.column.name ≢ []
  pub no_colon : All (λ c. c ≢ 58) a.column.name
  pub spelled : map tolower a.spelling ≡ datatype_name a.column.datatype

split_colon-append :
    (name dt : List ℕ) → All (λ c. c ≢ 58) name → split_colon (name ++ 58 ∷ dt) ≡ some (name, dt)
unfolding split_colon
split_colon-append [] dt all = refl
split_colon-append (c ∷ name) dt (ne, all) =
    let other : (c == 58) ≡ false = ground arith in rw (other, split_colon-append name dt all) refl

parse_datatype_lem :
    (name : List ℕ) (d : DataType)
    → parse_datatype name (datatype_name d) ≡ inr (record { name = name; datatype = d })
unfolding parse_datatype same_string
parse_datatype_lem name int = refl
parse_datatype_lem name str = refl

is_empty_not : (s : List ℕ) → s ≢ [] → is_empty s ≡ false
unfolding is_empty
is_empty_not [] ne = absurd (ne refl)
is_empty_not (c ∷ s) ne = refl

spelling_some : (d : DataType) (s : List ℕ) → map tolower s ≡ datatype_name d → is_empty s ≡ false
unfolding is_empty
spelling_some int [] e = absurd (cc e)
spelling_some str [] e = absurd (cc e)
spelling_some d (c ∷ s) e = refl

parse_column-arg_of : (a : Argument) → IsArgument a → parse_column (arg_of a) ≡ inr (column_of a)
unfolding parse_column
parse_column-arg_of a is =
    rw
      (
        split_colon-append a.column.name a.spelling is.no_colon,
        is_empty_not a.column.name is.named,
        spelling_some a.column.datatype a.spelling is.spelled,
        is.spelled,
      )
      (parse_datatype_lem a.column.name a.column.datatype)

parse_columns-map :
    (args : List Argument)
    → All IsArgument args
    → parse_columns (map arg_of args) ≡ inr (map column_of args)
unfolding parse_columns
parse_columns-map [] all = refl
parse_columns-map (a ∷ args) (is, all) =
    rw (parse_column-arg_of a is, parse_columns-map args all) refl

main-created :
    (c c' : Catalog) (table_name : List ℕ) (table : ℕ) (a : Argument) (args : List Argument)
    → All IsArgument (a ∷ args)
    → get_table c table_name ≡ some none
    → create_table c table_name (map column_of (a ∷ args)) ≡ some (c', table)
    → main c table_name (map arg_of (a ∷ args)) ≡ created c' table
unfolding main
main-created c c' table_name table a args all new done =
    rw (parse_columns-map (a ∷ args) all, new, done) refl

get_table_new :
    (c : Catalog) (table_name : List ℕ)
    → c.table_name_idx (map tolower table_name) ≡ none
    → get_table c table_name ≡ some none
unfolding get_table
get_table_new c table_name new = rw (normalize_lem table_name, new) refl

-- Over a catalog whose names are indexed, with a table name that is new in lower case and an argument
-- at least, each of a name with no colon, which is not empty, a colon, and `int` or `str` in any mix
-- of upper and lower case: the program creates the table, with the columns in the order of the
-- arguments. The names stay indexed, the table is found under its name in any mix of upper and lower
-- case, and all other names find what they found.
pub main-IsIndexed :
    (c : Catalog) (table_name : List ℕ) (a : Argument) (args : List Argument)
    → IsIndexed c
    → c.table_name_idx (map tolower table_name) ≡ none
    → All IsArgument (a ∷ args)
    → (c' : Catalog) × (main c table_name (map arg_of (a ∷ args)) ≡ created c' (length c.tables))
      × IsIndexed c'
      × ((other : List ℕ)
          → map tolower other ≡ map tolower table_name
          → get_table c' other ≡ some (some (map column_of (a ∷ args), length c.tables)))
      × ((other : List ℕ)
          → map tolower other ≢ map tolower table_name
          → get_table c' other ≡ get_table c other)
main-IsIndexed c table_name a args indexed new all =
    let (c', done, indexed', found, others, _) =
      create_table-IsIndexed c indexed table_name (map column_of (a ∷ args)) new in
    (
      c',
      main-created c c' table_name (length c.tables) a args all (get_table_new c table_name new)
          done,
      indexed',
      found,
      others,
    )
