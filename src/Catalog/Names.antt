-- ===== src/Catalog/Names.antt =====
-- The tables by name.
use model_lib.Prelude.{
  get_elem?, some-inj, ℕ, zero, suc, ◌≡◌, ◌≢◌, ◌∙◌, ◌↔◌, refl, ap, sym, true, false, none, some,
  List, [], ◌∷◌, ◌++◌, map, length, arith, if◌then◌else◌, Bool-cases, Option-cases, ◌⊎◌, inl, inr,
}
use model_lib.Value.{Schema}
use model_lib.Catalog.{
  TableInfo, Catalog, tolower, char_value, is_refused, check_name, normalize, same_string,
  create_at, create_table, get_table,
}

-- No name is refused: the test that should refuse one holds of no character.
is_refused-false : (c : ℕ) → is_refused c ≡ false
unfolding is_refused char_value
is_refused-false c = ground arith

check_name_lem : (s : List ℕ) → check_name s ≡ some tt
unfolding check_name
check_name_lem [] = refl
check_name_lem (c ∷ s) = rw (is_refused-false c, check_name_lem s)

-- No table name is refused, whatever its characters, since the test that should refuse one holds
-- of none: `normalize` gives the name in lower case.
pub normalize_lem : (s : List ℕ) → normalize s ≡ some (map tolower s)
unfolding normalize
normalize_lem s = rw (check_name_lem (map tolower s)) refl

same_string_iff : (s t : List ℕ) → (same_string s t ≡ true) ↔ (s ≡ t)
unfolding same_string
same_string_iff [] [] = ((λ h. refl), (λ h. refl))
same_string_iff [] (b ∷ t) = ((λ h. cc), (λ h. cc))
same_string_iff (a ∷ s) [] = ((λ h. cc), (λ h. cc))
same_string_iff (a ∷ s) (b ∷ t) = ground (arith, same_string_iff s t)

-- Every name leads to the table of that name, and every table is found by its name.
pub record IsIndexed (c : Catalog) : Type 0 where
  pub found :
      (name : List ℕ) (i : ℕ)
      → c.table_name_idx name ≡ some i
      → (t : TableInfo) × (get_elem? c.tables i ≡ some t) × (t.name ≡ name)
  pub listed :
      (i : ℕ) (t : TableInfo) → get_elem? c.tables i ≡ some t → c.table_name_idx t.name ≡ some i

get_elem_old :
    (ts : List TableInfo) (t u : TableInfo) (i : ℕ)
    → get_elem? ts i ≡ some u
    → get_elem? (ts ++ (t ∷ [])) i ≡ some u
get_elem_old [] t u i h = cc h
get_elem_old (x ∷ ts) t u zero h = h
get_elem_old (x ∷ ts) t u (suc i) h = get_elem_old ts t u i h

get_elem_new :
    (ts : List TableInfo) (t : TableInfo) → get_elem? (ts ++ (t ∷ [])) (length ts) ≡ some t
get_elem_new [] t = refl
get_elem_new (x ∷ ts) t = get_elem_new ts t

get_elem_cases :
    (ts : List TableInfo) (t u : TableInfo) (i : ℕ)
    → get_elem? (ts ++ (t ∷ [])) i ≡ some u
    → (get_elem? ts i ≡ some u) ⊎ ((i ≡ length ts) × (u ≡ t))
get_elem_cases [] t u zero h = inr (refl, cc h)
get_elem_cases [] t u (suc i) h = cc h
get_elem_cases (x ∷ ts) t u zero h = inl h
get_elem_cases (x ∷ ts) t u (suc i) h = elim (get_elem_cases ts t u i h) [
  | inl e ↦ inl e
  | inr (e, f) ↦ inr (ap suc e, f)
]

module _ (c : Catalog) (indexed : IsIndexed c) (table_name : List ℕ) (schema : Schema)
    (new : c.table_name_idx (map tolower table_name) ≡ none) where
  abbrev normalized : List ℕ
  normalized = map tolower table_name

  abbrev table : TableInfo
  table = record { name = normalized; columns = schema; index = none }

  abbrev grown : Catalog
  grown = record {
    table_name_idx = λ name.
        if same_string normalized name then some (length c.tables) else c.table_name_idx name;
    tables = c.tables ++ (table ∷ []);
  }

  created : create_table c table_name schema ≡ some (grown, length c.tables)
  unfolding create_table
  created = rw (normalize_lem table_name) (ap (create_at c normalized schema) new)

  idx_same :
      (name : List ℕ) → normalized ≡ name → grown.table_name_idx name ≡ some (length c.tables)
  idx_same name e = rw ((same_string_iff normalized name).1 e) refl

  idx_other :
      (name : List ℕ)
      → same_string normalized name ≡ false
      → grown.table_name_idx name ≡ c.table_name_idx name
  idx_other name e = rw e refl

  -- A name of an old table is not the new one.
  old_other :
      (name : List ℕ) (i : ℕ) → c.table_name_idx name ≡ some i → same_string normalized name ≡ false
  old_other name i e = elim (Bool-cases (same_string normalized name)) [
    | inr other ↦ other
    | inl same ↦ let at = (same_string_iff normalized name).0 same in absurd (cc (new, e, at))
  ]

  grown-IsIndexed : IsIndexed grown
  grown-IsIndexed = record {
    found = λ name i e. elim (Bool-cases (same_string normalized name)) [
      | inl same ↦
          let last : length c.tables ≡ i =
            some-inj (sym (idx_same name ((same_string_iff normalized name).0 same)) ∙ e) in
          (table, rw⁻¹ last (get_elem_new c.tables table), (same_string_iff normalized name).0 same)
      | inr other ↦
          let (t, at, named) = indexed.found name i (sym (idx_other name other) ∙ e) in
          (t, get_elem_old c.tables table t i at, named)
    ];
    listed = λ i t e. elim (get_elem_cases c.tables table t i e) [
      | inl old ↦ let l = indexed.listed i t old in idx_other t.name (old_other t.name i l) ∙ l
      | inr (last, same) ↦
          idx_same t.name (ap (λ (u : TableInfo). u.name) (sym same)) ∙ ap some (sym last)
    ];
  }

  get_table_same :
      (other : List ℕ)
      → map tolower other ≡ normalized
      → get_table grown other ≡ some (some (schema, length c.tables))
  unfolding get_table
  get_table_same other e =
      rw (normalize_lem other, e, idx_same normalized refl, get_elem_new c.tables table) refl

  get_table_other :
      (other : List ℕ) → map tolower other ≢ normalized → get_table grown other ≡ get_table c other
  unfolding get_table
  get_table_other other ne = elim (Bool-cases (same_string normalized (map tolower other))) [
    | inl same ↦ absurd (ne (sym ((same_string_iff normalized (map tolower other)).0 same)))
    | inr differs ↦
        rw (normalize_lem other, idx_other (map tolower other) differs)
          (elim (Option-cases (c.table_name_idx (map tolower other))) [
            | inl missing ↦ rw missing refl
            | inr (i, at) ↦
                let (t, there, named) = indexed.found (map tolower other) i at in
                rw (at, there, get_elem_old c.tables table t i there) refl
          ])
  ]

  create_again :
      (other : List ℕ) (schema' : Schema)
      → map tolower other ≡ normalized
      → create_table grown other schema' ≡ none
  unfolding create_table
  create_again other schema' e =
      rw (normalize_lem other, e)
        (ap (create_at grown normalized schema') (idx_same normalized refl))

  -- In a catalog whose names are indexed, creating a table under a name that is new in lower case
  -- keeps the names indexed. The table is then found under the name in any mix of upper and lower
  -- case, with its schema; all other names find what they found; and the name cannot be created
  -- again.
  pub create_table-IsIndexed :
      (c' : Catalog) × (create_table c table_name schema ≡ some (c', length c.tables))
      × IsIndexed c'
      × ((other : List ℕ)
          → map tolower other ≡ map tolower table_name
          → get_table c' other ≡ some (some (schema, length c.tables)))
      × ((other : List ℕ)
          → map tolower other ≢ map tolower table_name
          → get_table c' other ≡ get_table c other)
      × ((other : List ℕ) (schema' : Schema)
          → map tolower other ≡ map tolower table_name
          → create_table c' other schema' ≡ none)
  create_table-IsIndexed =
      (grown, created, grown-IsIndexed, get_table_same, get_table_other, create_again)
