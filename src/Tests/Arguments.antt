-- ===== src/Tests/Arguments.antt =====
-- The argument `Ab:InT` in an empty catalog.
use model_lib.Prelude.{ℕ, ◌≡◌, ◌≢◌, some, none, List, [], ◌∷◌, map, refl, arith}
use model_lib.Value.{int}
use model_lib.Catalog.{Catalog, tolower, get_table}
use model_lib.Catalog.Names.{IsIndexed}
use model_lib.Programs.{main, created}
use model_lib.Programs.Columns.{Argument, IsArgument, arg_of, column_of, main-IsIndexed}

abbrev no_tables : Catalog
no_tables = record { table_name_idx = λ name. none; tables = [] }

no_tables-IsIndexed : IsIndexed no_tables
no_tables-IsIndexed = record { found = λ name i e. cc e; listed = λ i t e. cc e }

abbrev number : Argument
number = record {
  column = record { name = 65 ∷ 98 ∷ []; datatype = int };
  spelling = 73 ∷ 110 ∷ 84 ∷ [];
}

number-IsArgument : IsArgument number
unfolding tolower
number-IsArgument = record {
  named = λ e. cc e;
  no_colon = ((λ e. absurd (omega arith)), ((λ e. absurd (omega arith)), tt));
  spelled = refl;
}

main-IsIndexed_example :
    (c' : Catalog) × (main no_tables (85 ∷ []) (arg_of number ∷ []) ≡ created c' 0)
    × IsIndexed c'
    × ((other : List ℕ)
        → map tolower other ≡ map tolower (85 ∷ [])
        → get_table c' other ≡ some (some (column_of number ∷ [], 0)))
    × ((other : List ℕ)
        → map tolower other ≢ map tolower (85 ∷ [])
        → get_table c' other ≡ get_table no_tables other)
main-IsIndexed_example =
    main-IsIndexed no_tables (85 ∷ []) number [] no_tables-IsIndexed refl (number-IsArgument, tt)
