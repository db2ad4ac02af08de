-- ===== src/HeapPage/Sound/Reach.antt =====
-- The pages that calls of src/storage/heap_file/heap_file_page.cc make out of a new page.
use model_lib.Prelude.{
  ℕ, ◌-◌, ◌+◌, ◌*◌, length, ◌<◌, ◌≡◌, sym, ap, ◌∙◌, Option, some, List, [], ◌∷◌, map, All, arith,
  some-inj,
}
use mathlib.Core.Path.{subst}
use model_lib.Prelude.Int.{pos}
use model_lib.Page.{Page, Bytes, size}
use model_lib.Value.{DataType, Value, datatype, IsValue}
use model_lib.HeapPage.{get_dir_count, init, try_insert_record, delete_record}
use model_lib.HeapPage.Delete.{zeros, init-zeros}
use model_lib.HeapPage.Vacuum.{vacuum}
use model_lib.HeapPage.Vacuum.Live.{no_slots}
use model_lib.HeapPage.Sound.{sizes, IsSound}
use model_lib.HeapPage.Sound.Slots.{Dropped}
use model_lib.HeapPage.Sound.Steps.{
  InsertEffect, vacuum-IsSound, delete_record-IsSound, try_insert_record-IsSound,
}

-- A call on a page: an insertion of a record of the schema, which has at least one column, with the
-- answer that it got, a deletion in a slot that the page has, or `vacuum`.
pub data Step (types : List DataType) (p q : Page) : Type 0 where
  inserts :
      (v : Value) (vs : List Value) (answer : Option ℕ)
      → map datatype (v ∷ vs) ≡ types
      → All IsValue (v ∷ vs)
      → try_insert_record p (v ∷ vs) ≡ some (q, answer)
      → Step types p q
  deletes :
      (i n : ℕ)
      → get_dir_count p ≡ some (pos n)
      → i < n
      → delete_record p i ≡ some q
      → Step types p q
  vacuums : (raw : Bytes) → vacuum raw types p ≡ some q → Step types p q

-- From a page of zeros, opened by the constructor.
pub data Reached (types : List DataType) : Page → Type 0 where
  opened : (q : Page) → init zeros ≡ some q → Reached types q
  stepped : (p q : Page) → Reached types p → Step types p q → Reached types q

-- What a call does to the page's records; `vacuum` leaves one slot for each, and all the rest free.
abbrev pub Effect :
    {types : List DataType} {p q : Page}
    → Step types p q
    → IsSound types p
    → IsSound types q
    → Type 0
Effect (inserts v vs answer e valid done) s s' =
    InsertEffect (v ∷ vs) answer s.free s.records s'.records
Effect {types} {p} (deletes i n count inside done) s s' = Dropped types p i s.records s'.records
Effect (vacuums raw done) s s' =
    (s'.records ≡ s.records)
    × (s'.count ≡ length s.records)
    × (s'.free + 4 * length s.records + sizes s.records + 8 ≡ size)

typed_insert :
    (types : List DataType) (p : Page) (v : Value) (vs : List Value)
    → map datatype (v ∷ vs) ≡ types
    → All IsValue (v ∷ vs)
    → (s : IsSound types p)
    → (a : Page × Option ℕ) × (try_insert_record p (v ∷ vs) ≡ some a)
      × ((s' : IsSound types a.0) × InsertEffect (v ∷ vs) a.1 s.free s.records s'.records)
typed_insert types p v vs e valid =
    subst
      (λ t.
        (s : IsSound t p)
        → (a : Page × Option ℕ) × (try_insert_record p (v ∷ vs) ≡ some a)
          × ((s' : IsSound t a.0) × InsertEffect (v ∷ vs) a.1 s.free s.records s'.records))
      e (λ s. try_insert_record-IsSound p v vs s valid)

module _ {types : List DataType} {p : Page} (s : IsSound types p) where
  count_lem : (n : ℕ) → get_dir_count p ≡ some (pos n) → n ≡ s.count
  count_lem n e = let same : pos n ≡ pos s.count = some-inj (sym e ∙ s.count_is) in cc same

  -- A call on a sound page leaves a sound page. An insertion that answers with a slot has added its
  -- record to the page's records; one that answers `false` has not changed them, and the free space
  -- was less than the record and a slot. A deletion in a slot that gives a record has removed this
  -- record from them, one in a slot that gives none has not changed them. `vacuum` keeps them all, in
  -- their order, with one slot for each, and all the rest of the page is free.
  pub Step-Effect : (q : Page) (step : Step types p q) → (s' : IsSound types q) × Effect step s s'
  Step-Effect q (inserts v vs answer e valid done) =
      let (a, done', how) = typed_insert types p v vs e valid s in
      let same : a ≡ (q, answer) = some-inj (sym done' ∙ done) in
      subst (λ x. (t : IsSound types x.0) × InsertEffect (v ∷ vs) x.1 s.free s.records t.records)
        same how
  Step-Effect q (deletes i n count inside done) =
      let (q', done', (s', n', how)) =
        delete_record-IsSound types p s i (rw (← count_lem n count) inside) in
      let same : q' ≡ q = some-inj (sym done' ∙ done) in
      subst (λ x. (t : IsSound types x) × Dropped types p i s.records t.records) same (s', how)
  Step-Effect q (vacuums raw done) =
      let (q', done', (t', kept, n', f)) = vacuum-IsSound types p s raw in
      let same : q' ≡ q = some-inj (sym done' ∙ done) in
      subst
        (λ x.
          (t : IsSound types x) × ((t.records ≡ s.records)
            × (t.count ≡ length s.records)
            × (t.free + 4 * length s.records + sizes s.records + 8 ≡ size)))
        same (t', (kept, n', f))

  -- On a sound page no call fails an assert or runs out of fuel.
  pub IsSound-answers :
      ((v : Value) (vs : List Value)
        → map datatype (v ∷ vs) ≡ types
        → All IsValue (v ∷ vs)
        → (a : Page × Option ℕ) × (try_insert_record p (v ∷ vs) ≡ some a))
      × ((i : ℕ) → i < s.count → (q : Page) × (delete_record p i ≡ some q))
      × ((raw : Bytes) → (q : Page) × (vacuum raw types p ≡ some q))
  IsSound-answers = (
    λ v vs e valid. let (a, done, how) = typed_insert types p v vs e valid s in (a, done),
    λ i inside. let (q, done, how) = delete_record-IsSound types p s i inside in (q, done),
    λ raw. let (q, done, how) = vacuum-IsSound types p s raw in (q, done),
  )

zeros-IsSound : (types : List DataType) (q : Page) → init zeros ≡ some q → IsSound types q
zeros-IsSound types q done =
    let (q', done', (laid, n, f)) = init-zeros types in
    let same : q' ≡ q = some-inj (sym done' ∙ done) in
    subst (IsSound types) same (record {
      count = 0;
      free = size - 8;
      records = [];
      count_is = laid.count_is ∙ ap (λ k. some (pos k)) n;
      free_is = laid.free_is ∙ ap (λ k. some (pos k)) f;
      live = no_slots;
      room = unfold sizes in omega arith;
    })

-- Every page that calls make out of a new page is sound: its slots are deleted or point at records,
-- its slots, free space and records fit in it.
pub Reached-IsSound : (types : List DataType) (q : Page) → Reached types q → IsSound types q
Reached-IsSound types q (opened _ done) = zeros-IsSound types q done
Reached-IsSound types q (stepped p _ before step) =
    (Step-Effect (Reached-IsSound types p before) q step).0
