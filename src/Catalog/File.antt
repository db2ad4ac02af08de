-- ===== src/Catalog/File.antt =====
-- The catalog file: what the destructor writes, the constructor reads.
use Prim.Native.Nat.{bit_or}
use mathlib.Core.List.{append_assoc}
use native.Mathlib.Nat.{
  add-mul, one-le-pow, pow-le-pow_right, mod-lt, mod-add-div', add-mul-mod_self_left, mod-eq_of_lt,
}
use native.Mathlib.Numerals.{towards_suc}
use model_lib.Prelude.{
  ℕ, zero, suc, ◌+◌, ◌*◌, ◌/◌, ◌%◌, ◌^◌, ◌≤◌, ◌<◌, ◌≡◌, ◌∙◌, refl, ap, sym, Option, none, some,
  List, [], ◌∷◌, ◌++◌, length, arith, All, ◌>>=◌,
}
use model_lib.Prelude.Int.{ℤ, pos, pos_part, IsInt64, le→ltb_ℤ}
use model_lib.Word.{to_pattern, of_pattern}
use model_lib.Word.Laws.{of_pattern-to_pattern, to_pattern-lt}
use model_lib.Word.Bits.{bit_or-eq-add, bit_or_comm}
use model_lib.Value.{DataType, str, int, ColumnInfo, Schema}
use model_lib.Catalog.{
  TableInfo, write_loop, write_int64, read_loop, read_bytes, read_int64, write_string, read_string,
  datatype_number, number_datatype, write_columns, write_index, write_table, write_tables, save,
  read_columns, read_index, read_table, read_tables, load,
}

scaled : (a q b p : ℕ) → a ≡ q + 256 * b → a * p ≡ q * p + p * 256 * b
scaled a q b p e = rw e (add-mul q (256 * b) p ∙ grind arith)

-- The digit above `p`, which counts for `p`, and what is below it.
split : (p u : ℕ) → 0 < p → u / p % 256 * p + u % p ≡ u % (p * 256)
split p u h =
    let whole : u / p * p ≡ u / p % 256 * p + p * 256 * (u / p / 256) =
      scaled (u / p) (u / p % 256) (u / p / 256) p (omega arith) in
    let parts : u ≡ u / p % 256 * p + u % p + p * 256 * (u / p / 256) =
      omega (arith, mod-add-div' u p) in
    let digit : u / p % 256 * p + p ≤ p * 256 = grind arith in
    let low : u % p < p = mod-lt u h in
    sym (
      ap (λ n. n % (p * 256)) parts
      ∙ add-mul-mod_self_left (u / p % 256 * p + u % p) (p * 256) (u / p / 256)
      ∙ mod-eq_of_lt (omega arith))

-- One round of `read_int64` puts a byte above those read before.
round-byte :
    (s u : ℕ) → s + 8 ≤ 64 → bit_or (u % 2 ^ s) (u / 2 ^ s % 256 * 2 ^ s % 2 ^ 64) ≡ u % 2 ^ (s + 8)
round-byte s u h =
    let wide : 2 ^ (s + 8) ≡ 2 ^ s * 256 = simp towards_suc (omega arith) in
    let fits : 2 ^ (s + 8) ≤ 2 ^ 64 =
      pow-le-pow_right {n = 2} (omega arith) {i = s + 8} {j = 64} h in
    let up : 0 < 2 ^ s = one-le-pow s 2 (omega arith) in
    let small : u / 2 ^ s % 256 * 2 ^ s < 2 ^ s * 256 = grind arith in
    let same : u / 2 ^ s % 256 * 2 ^ s % 2 ^ 64 ≡ u / 2 ^ s % 256 * 2 ^ s = omega arith in
    let rest : u % 2 ^ s < 2 ^ s = omega arith in
    rw
      (
        same,
        bit_or_comm (u % 2 ^ s) (u / 2 ^ s % 256 * 2 ^ s),
        bit_or-eq-add s (u / 2 ^ s % 256) (u % 2 ^ s) rest,
        wide,
      )
      (split (2 ^ s) u up)

read_bytes-append : (s rest : List ℕ) → read_bytes (length s) (s ++ rest) ≡ some (s, rest)
unfolding read_bytes
read_bytes-append [] rest = refl
read_bytes-append (b ∷ s) rest = rw (read_bytes-append s rest)

length-write_loop : (k s u : ℕ) → length (write_loop k s u) ≡ k
unfolding write_loop
length-write_loop zero s u = refl
length-write_loop (suc k) s u = ap suc (length-write_loop k (s + 8) u)

length-write_int64 : (n : ℤ) → length (write_int64 n) ≡ 8
unfolding write_int64
length-write_int64 n = length-write_loop 8 0 (to_pattern (2 ^ 63) n)

read_loop-write_loop :
    (k s u : ℕ) → s + 8 * k ≤ 64 → read_loop (write_loop k s u) s (u % 2 ^ s) ≡ u % 2 ^ (s + 8 * k)
unfolding read_loop write_loop
read_loop-write_loop zero s u h = ap (λ n. u % 2 ^ n) (omega arith)
read_loop-write_loop (suc k) s u h =
    ap (read_loop (write_loop k (s + 8) u) (s + 8)) (round-byte s u (omega arith))
    ∙ read_loop-write_loop k (s + 8) u (omega arith)
    ∙ ap (λ n. u % 2 ^ n) (omega arith)

pattern_read : (n : ℤ) → read_loop (write_int64 n) 0 0 ≡ to_pattern (2 ^ 63) n % 2 ^ 64
unfolding write_int64
pattern_read n =
    ap (read_loop (write_loop 8 0 (to_pattern (2 ^ 63) n)) 0) (omega arith)
    ∙ read_loop-write_loop 8 0 (to_pattern (2 ^ 63) n) (omega arith)

read_int64-write_int64 :
    (n : ℤ) (rest : List ℕ) → IsInt64 n → read_int64 (write_int64 n ++ rest) ≡ some (n, rest)
unfolding read_int64
read_int64-write_int64 n rest h =
    rw
      (ap (λ k. read_bytes k (write_int64 n ++ rest)) (sym (length-write_int64 n))
        ∙ read_bytes-append (write_int64 n) rest)
      (ap (λ z. some (z, rest)) value)
  where
    value : of_pattern (2 ^ 63) (read_loop (write_int64 n) 0 0) ≡ n
    value =
        ap (of_pattern (2 ^ 63)) (pattern_read n ∙ omega (arith, to_pattern-lt (2 ^ 63) n h))
        ∙ of_pattern-to_pattern (2 ^ 63) n h

-- What fits the file's integers.
abbrev pub IsShort {ℓ} : {A : Type ℓ} → List A → Type 0
IsShort xs = IsInt64 (pos (length xs))

abbrev pub IsColumn : ColumnInfo → Type 0
IsColumn c = IsShort c.name

abbrev pub IsIndex : Option ℤ → Type 0
IsIndex none = Unit
IsIndex (some key_column_idx) = IsInt64 key_column_idx

pub record IsTable (t : TableInfo) : Type 0 where
  pub name : IsShort t.name
  pub count : IsShort t.columns
  pub columns : All IsColumn t.columns
  pub index : IsIndex t.index

read_string-write_string :
    (s rest : List ℕ) → IsShort s → read_string (write_string s ++ rest) ≡ some (s, rest)
unfolding read_string write_string
read_string-write_string s rest h =
    rw
      (
        append_assoc (write_int64 (pos (length s))) s rest,
        read_int64-write_int64 (pos (length s)) (s ++ rest) h,
        le→ltb_ℤ (length s) 0 (omega arith),
      )
      (read_bytes-append s rest)

number_datatype-datatype_number : (t : DataType) → number_datatype (datatype_number t) ≡ some t
unfolding number_datatype datatype_number
number_datatype-datatype_number str = refl
number_datatype-datatype_number int = refl

datatype_number-IsInt64 : (t : DataType) → IsInt64 (datatype_number t)
unfolding datatype_number
datatype_number-IsInt64 str = omega arith
datatype_number-IsInt64 int = omega arith

read_columns-write_columns :
    (cs : Schema) (rest : List ℕ)
    → All IsColumn cs
    → read_columns (length cs) (write_columns cs ++ rest) ≡ some (cs, rest)
unfolding read_columns write_columns
read_columns-write_columns [] rest h = refl
read_columns-write_columns (c ∷ cs) rest h = rw (
  append_assoc (write_int64 (datatype_number c.datatype)) (write_string c.name ++ write_columns cs)
      rest,
  append_assoc (write_string c.name) (write_columns cs) rest,
  read_int64-write_int64 (datatype_number c.datatype)
      (write_string c.name ++ (write_columns cs ++ rest)) (datatype_number-IsInt64 c.datatype),
  number_datatype-datatype_number c.datatype,
  read_string-write_string c.name (write_columns cs ++ rest) h.0,
  read_columns-write_columns cs rest h.1,
)

read_index-write_index :
    (o : Option ℤ) (rest : List ℕ) → IsIndex o → read_index (write_index o ++ rest) ≡ some (o, rest)
unfolding read_index write_index
read_index-write_index none rest h = rw (read_int64-write_int64 (pos 0) rest (omega arith))
read_index-write_index (some z) rest h = rw (
  append_assoc (write_int64 (pos 1)) (write_int64 z) rest,
  read_int64-write_int64 (pos 1) (write_int64 z ++ rest) (omega arith),
  read_int64-write_int64 z rest h,
)

read_table-write_table :
    (t : TableInfo) (rest : List ℕ)
    → IsTable t
    → read_table (write_table t ++ rest) ≡ some (t, rest)
unfolding read_table write_table
read_table-write_table t rest h =
    let index = write_index t.index in
    let columns = write_columns t.columns in
    let cardinality = write_int64 (pos (length t.columns)) in
    rw (
      append_assoc (write_string t.name) (cardinality ++ (columns ++ index)) rest,
      append_assoc cardinality (columns ++ index) rest,
      append_assoc columns index rest,
      read_string-write_string t.name (cardinality ++ (columns ++ (index ++ rest))) h.name,
      read_int64-write_int64 (pos (length t.columns)) (columns ++ (index ++ rest)) h.count,
      read_columns-write_columns t.columns (index ++ rest) h.columns,
      read_index-write_index t.index rest h.index,
    )

read_tables-write_tables :
    (ts : List TableInfo) (rest : List ℕ)
    → All IsTable ts
    → read_tables (length ts) (write_tables ts ++ rest) ≡ some (ts, rest)
unfolding read_tables write_tables
read_tables-write_tables [] rest h = refl
read_tables-write_tables (t ∷ ts) rest h = rw (
  append_assoc (write_table t) (write_tables ts) rest,
  read_table-write_table t (write_tables ts ++ rest) h.0,
  read_tables-write_tables ts rest h.1,
)

load_filled :
    (file rest : List ℕ) (n : ℤ)
    → read_int64 file ≡ some (n, rest)
    → load file ≡ (read_tables (pos_part n) rest >>= (λ r. some r.0))
unfolding load read_int64 read_bytes
load_filled [] rest n e = cc e
load_filled (b ∷ file) rest n e = rw e refl

-- What the destructor writes over the start of a file, the constructor reads back, if the lengths
-- and the key columns fit an `int64_t`: the tables with their names, columns and key columns,
-- whatever stands in the file behind them.
pub load-save :
    (tables : List TableInfo) (old : List ℕ)
    → IsShort tables
    → All IsTable tables
    → load (save tables ++ old) ≡ some tables
unfolding save
load-save tables old short h =
    let all = write_tables tables in
    load_filled (save tables ++ old) (all ++ old) (pos (length tables)) (
      rw (append_assoc (write_int64 (pos (length tables))) all old)
        (read_int64-write_int64 (pos (length tables)) (all ++ old) short))
    ∙ rw (read_tables-write_tables tables old h) refl
