-- ===== src/Catalog/Tables/Insert.antt =====
-- `Catalog::insert_record` on a table without an index: the new values are in the heap file.
use mathlib.Core.Path.{subst}
use model_lib.Prelude.{
  ℕ, ◌+◌, ◌≤◌, ◌≡◌, ◌≢◌, ◌∙◌, refl, sym, ap, Option, none, some, List, ◌∷◌, map, All, Bool-cases,
  inl, inr, ==_iff, ◌==◌,
}
use model_lib.Page.{size}
use model_lib.Value.{Value, Cell, datatype, IsValue}
use model_lib.Value.Records.{Matches, cell_value, set-IsValue}
use model_lib.HeapPage.{record_size}
use model_lib.HeapFile.Pages.{IsHeapFile}
use model_lib.HeapFile.Insert.{Inserted, insert_record-Inserted}
use model_lib.Catalog.{get_table_pos}
use model_lib.Catalog.Tables.{Table, Database, set_table, index_insert, insert_into, insert_record}

-- The new values: what the cells stand for.
abbrev pub new_values : Cell → List Cell → List Value
new_values c cells = map cell_value (c ∷ cells)

module _ (fuel : ℕ) (t : Table) (c : Cell) (cells : List Cell)
    (typed : map datatype t.record_buf ≡ t.types) (matches : Matches t.record_buf (c ∷ cells))
    (well_formed : IsHeapFile t.types t.heap_file)
    (fits : record_size (new_values c cells) + 12 ≤ size) (no_index : t.index ≡ none) where
  abbrev Reads : Option (Table × ℕ × ℕ) → Type 0
  Reads o =
      (t' : Table) × (n : ℕ) × (slot : ℕ) × (o ≡ some (t', n, slot))
      × (t'.types ≡ t.types)
      × (map datatype t'.record_buf ≡ t'.types)
      × (t'.index ≡ none)
      × Inserted t.types t.heap_file (new_values c cells) t'.heap_file n slot

  insert_into-Reads : Reads (insert_into fuel t (c ∷ cells))
  unfolding insert_into index_insert
  insert_into-Reads =
      let (ws, done, given, valid, types) = set-IsValue t.record_buf (c ∷ cells) matches in
      let all_valid : All IsValue (new_values c cells) = subst (All IsValue) given valid in
      let same_types : map datatype (new_values c cells) ≡ t.types =
        ap (map datatype) (sym given) ∙ types ∙ typed in
      let file : IsHeapFile (map datatype (new_values c cells)) t.heap_file =
        subst (λ ts. IsHeapFile ts t.heap_file) (sym same_types) well_formed in
      let (f, n, slot, inserted, how) =
        insert_record-Inserted (cell_value c) (map cell_value cells) all_valid fits t.heap_file
          file in
      (
        record t { heap_file = f; record_buf = new_values c cells; index = none },
        n,
        slot,
        rw (done, given, inserted, no_index) refl,
        refl,
        same_types,
        refl,
        subst (λ ts. Inserted ts t.heap_file (new_values c cells) f n slot) same_types how,
      )

module _ (d : Database) (i : ℕ) (t : Table) where
  set_table_same : (set_table d i t).tables i ≡ t
  unfolding set_table
  set_table_same = rw ((==_iff i i).1 refl)

  set_table_catalog : (set_table d i t).catalog ≡ d.catalog
  unfolding set_table
  set_table_catalog = refl

  set_table_other : (j : ℕ) → j ≢ i → (set_table d i t).tables j ≡ d.tables j
  unfolding set_table
  set_table_other j ne = elim (Bool-cases (i == j)) [
    | inl e ↦ absurd (ne (sym ((==_iff i j).0 e)))
    | inr e ↦ rw e refl
  ]

-- Inserting values into a table that the catalog knows, which has no index, whose heap file is well
-- formed, and whose buffer has the types of its schema, returns if the values have these types, there
-- is at least one, integers fit an `int64_t`, strings are 255 bytes at most, and the record fits an
-- empty page. The record is then read back from the table's heap file by the identifier that is
-- returned, and all other slots of the file give what they gave. The table keeps its schema, the types
-- of its buffer and a well formed file, and has no index, so that the next insertion finds all that
-- this one asked for; the catalog's names and all other tables are as they were.
pub insert_record-Reads :
    (fuel : ℕ) (d : Database) (table_name : List ℕ) (table_pos : ℕ) (c : Cell) (cells : List Cell)
    → get_table_pos d.catalog table_name ≡ some table_pos
    → map datatype (d.tables table_pos).record_buf ≡ (d.tables table_pos).types
    → Matches (d.tables table_pos).record_buf (c ∷ cells)
    → IsHeapFile (d.tables table_pos).types (d.tables table_pos).heap_file
    → record_size (new_values c cells) + 12 ≤ size
    → (d.tables table_pos).index ≡ none
    → (d' : Database) × (n : ℕ) × (slot : ℕ) × (insert_record fuel d table_name (c ∷ cells)
        ≡ some (d', n, slot))
      × ((d'.tables table_pos).types ≡ (d.tables table_pos).types)
      × (map datatype (d'.tables table_pos).record_buf ≡ (d'.tables table_pos).types)
      × ((d'.tables table_pos).index ≡ none)
      × (d'.catalog ≡ d.catalog)
      × Inserted
          (d.tables table_pos).types
          (d.tables table_pos).heap_file
          (new_values c cells)
          (d'.tables table_pos).heap_file
          n
          slot
      × ((j : ℕ) → j ≢ table_pos → d'.tables j ≡ d.tables j)
unfolding insert_record
insert_record-Reads fuel d table_name table_pos c cells found typed matches well_formed fits
      no_index =
    let (t', n, slot, done, types, typed', plain, how) =
      insert_into-Reads fuel (d.tables table_pos) c cells typed matches well_formed fits no_index in
    let same = set_table_same d table_pos t' in
    (
      set_table d table_pos t',
      n,
      slot,
      rw (found, done) refl,
      ap (λ x. x.types) same ∙ types,
      subst (λ x. map datatype x.record_buf ≡ x.types) (sym same) typed',
      ap (λ x. x.index) same ∙ plain,
      set_table_catalog d table_pos t',
      subst
          (λ x.
            Inserted (d.tables table_pos).types (d.tables table_pos).heap_file (new_values c cells)
              x.heap_file n slot)
          (sym same) how,
      set_table_other d table_pos t',
    )
