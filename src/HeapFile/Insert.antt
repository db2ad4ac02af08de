-- ===== src/HeapFile/Insert.antt =====
-- `HeapFile::insert_record` on a well formed file.
use mathlib.Core.Path.{subst}
use model_lib.Prelude.{
  some-inj, ℕ, zero, suc, ◌+◌, ◌-◌, ◌≤◌, ◌<◌, ◌≡◌, ◌≢◌, ◌∙◌, ◌⊎◌, refl, ap, sym, Option, none, some,
  List, ◌∷◌, map, All, arith, dec_lt, ℕ_discrete,
}
use model_lib.Prelude.Int.{pos}
use model_lib.Page.{Page, size}
use model_lib.Value.{DataType, Value, datatype, IsValue}
use model_lib.HeapPage.{init, get_dir_count, record_size, try_insert_record}
use model_lib.HeapPage
use model_lib.HeapPage.Layout.{IsLaidOut}
use model_lib.HeapPage.Insert.{Outcome, stored, refused, try_insert_record-Outcome}
use model_lib.HeapFile.{HeapFile, set_page, insert_loop, insert_record, get_record}
use model_lib.HeapFile.Pages.{
  IsUsed, IsHeapFile, HasSlot, Opened, init-IsUsed, open_page, pages_here, pages_there,
  set_page-IsHeapFile, get_record_opened, get_record_congr, passed, passed-IsHeapFile,
}

pos-inj : {a b : ℕ} → some (pos a) ≡ some (pos b) → a ≡ b
pos-inj e = cc e

-- The record stands in the file, and all records that the file had are as before.
pub record Inserted (types : List DataType) (f : HeapFile) (vs : List Value) (g : HeapFile)
    (n slot : ℕ) : Type 0 where
  pub well_formed : IsHeapFile types g
  pub inside : n ≤ f.page_count
  pub reads : get_record g n slot types ≡ some (some vs)
  pub was_vacant : HasSlot f n slot → get_record f n slot types ≡ some none
  pub kept :
      (m j : ℕ)
      → HasSlot f m j
      → (m ≢ n) ⊎ (j ≢ slot)
      → get_record g m j types ≡ get_record f m j types

module _ (v : Value) (vs : List Value) (valid : All IsValue (v ∷ vs))
    (fits : record_size (v ∷ vs) + 12 ≤ size) where
  abbrev types : List DataType
  types = map datatype (v ∷ vs)

  abbrev Inserts : HeapFile → Option (HeapFile × ℕ × ℕ) → Type 0
  Inserts f o =
      (g : HeapFile) × (n : ℕ) × (slot : ℕ) × (o ≡ some (g, n, slot))
      × Inserted types f (v ∷ vs) g n slot

  module _ (f : HeapFile) (h : IsHeapFile types f)
      (open_last : Opened types f f.last_insert_page) where
    abbrev here : ℕ
    here = f.last_insert_page

    here_count : (j : ℕ) → HasSlot f here j → j < open_last.in_use.laid.count
    here_count j s =
        let same : s.page ≡ open_last.page = some-inj (sym s.opened ∙ open_last.done) in
        let count : s.count ≡ open_last.in_use.laid.count =
          pos-inj (sym s.count_is ∙ ap get_dir_count same ∙ open_last.in_use.laid.count_is) in
        omega (arith, s.inside, count)

    record_here : (j : ℕ) → get_record f here j types ≡ HeapPage.get_record open_last.page j types
    record_here j = get_record_opened f here j types open_last.page open_last.done

    record_set :
        (q : Page)
        → IsUsed types q
        → (j : ℕ) → get_record (set_page f here q) here j types ≡ HeapPage.get_record q j types
    record_set q u j =
        get_record_opened (set_page f here q) here j types q
          (ap init (pages_here types f h here h.last q u) ∙ init-IsUsed types q u)

    record_there :
        (q : Page)
        → IsUsed types q
        → (m j : ℕ) → m ≢ here
        → get_record (set_page f here q) m j types ≡ get_record f m j types
    record_there q u m j ne =
        get_record_congr (set_page f here q) f m j types
          (pages_there types f h here h.last q u m ne)

    new_use : (q : Page) (slot : ℕ) (laid : IsLaidOut types q) → slot < laid.count → IsUsed types q
    new_use q slot laid lt = record { laid = laid; used = omega arith }

    record_kept :
        (q : Page) (slot : ℕ) (laid : IsLaidOut types q) (lt : slot < laid.count)
        → ((j : ℕ)
            → j < open_last.in_use.laid.count
            → j ≢ slot
            → HeapPage.get_record q j types ≡ HeapPage.get_record open_last.page j types)
        → (m j : ℕ) → m ≡ here
        → HasSlot f m j
        → j ≢ slot
        → get_record (set_page f here q) m j types ≡ get_record f m j types
    record_kept q slot laid lt kept m j at s ne =
        ap (λ n. get_record (set_page f here q) n j types) at
        ∙ record_set q (new_use q slot laid lt) j
        ∙ kept j (here_count j (subst (λ n. HasSlot f n j) at s)) ne
        ∙ sym (record_here j)
        ∙ ap (λ n. get_record f n j types) (sym at)

    -- The page took the record.
    stored-Inserted :
        (q : Page) (slot : ℕ) (laid : IsLaidOut types q)
        → slot < laid.count
        → HeapPage.get_record q slot types ≡ some (some (v ∷ vs))
        → (slot < open_last.in_use.laid.count
            → HeapPage.get_record open_last.page slot types ≡ some none)
        → ((j : ℕ)
            → j < open_last.in_use.laid.count
            → j ≢ slot
            → HeapPage.get_record q j types ≡ HeapPage.get_record open_last.page j types)
        → Inserted types f (v ∷ vs) (set_page f here q) here slot
    unfolding set_page
    stored-Inserted q slot laid lt reads vacant kept = record {
      well_formed =
          set_page-IsHeapFile types f h here h.last q (new_use q slot laid lt) here (omega arith);
      inside = h.last;
      reads = record_set q (new_use q slot laid lt) slot ∙ reads;
      was_vacant = λ s. record_here slot ∙ vacant (here_count slot s);
      kept = λ m j s ne. elim (ℕ_discrete m here) [
        | no away ↦ record_there q (new_use q slot laid lt) m j away
        | yes at ↦ record_kept q slot laid lt kept m j at s (omega arith)
      ];
    }

    -- The page had no space: the search goes on in a file with the same records.
    passed_record :
        (m j : ℕ) → get_record (passed types f h open_last) m j types ≡ get_record f m j types
    unfolding set_page get_record
    passed_record m j = elim (ℕ_discrete m here) [
      | no away ↦ record_there open_last.page open_last.in_use m j away
      | yes at ↦
          ap (λ n. get_record (passed types f h open_last) n j types) at
          ∙ record_set open_last.page open_last.in_use j
          ∙ sym (record_here j)
          ∙ ap (λ n. get_record f n j types) (sym at)
    ]

    passed_slot : (m j : ℕ) → HasSlot f m j → HasSlot (passed types f h open_last) m j
    passed_slot m j s = elim (ℕ_discrete m here) [
      | no away ↦ record {
        page = s.page;
        count = s.count;
        opened =
            ap init (pages_there types f h here h.last open_last.page open_last.in_use m away)
            ∙ s.opened;
        count_is = s.count_is;
        inside = s.inside;
      }
      | yes at ↦ record {
        page = open_last.page;
        count = open_last.in_use.laid.count;
        opened =
            ap (λ n. init ((passed types f h open_last).pages n)) at
            ∙ ap init (pages_here types f h here h.last open_last.page open_last.in_use)
            ∙ init-IsUsed types open_last.page open_last.in_use;
        count_is = open_last.in_use.laid.count_is;
        inside = here_count j (subst (λ n. HasSlot f n j) at s);
      }
    ]

    -- One round, by the answer of the page.
    round-Inserts :
        (fuel : ℕ) (a : Page × Option ℕ)
        → try_insert_record open_last.page (v ∷ vs) ≡ some a
        → Outcome open_last.page open_last.in_use.laid.count open_last.in_use.laid.free (v ∷ vs) a
        → (here < f.page_count
            → Inserts
                (passed types f h open_last)
                (insert_loop fuel (passed types f h open_last) (v ∷ vs)))
        → Inserts f (insert_loop (suc fuel) f (v ∷ vs))
    unfolding insert_loop set_page
    round-Inserts fuel a tried (stored q slot laid lt reads vacant le kept) next = (
      set_page f here q,
      here,
      slot,
      rw (open_last.done, tried) refl,
      stored-Inserted q slot laid lt reads vacant kept,
    )
    round-Inserts fuel a tried (refused short) next =
        let inside : here < f.page_count = has_room short in
        let (g, n, slot, done, r) = next inside in
        (
          g,
          n,
          slot,
          rw (open_last.done, tried) done,
          record {
            well_formed = r.well_formed;
            inside = omega (arith, r.inside);
            reads = r.reads;
            was_vacant = λ s. sym (passed_record n slot) ∙ r.was_vacant (passed_slot n slot s);
            kept = λ m j s ne. r.kept m j (passed_slot m j s) ne ∙ passed_record m j;
          },
        )
      where
        has_room : open_last.in_use.laid.free < record_size (v ∷ vs) + 4 → here < f.page_count
        has_room short = elim (dec_lt here f.page_count) [
          | yes lt ↦ lt
          | no ge ↦ let free = open_last.new (omega arith) in absurd (omega arith)
        ]

  insert_loop-Inserts :
      (fuel : ℕ) (f : HeapFile)
      → IsHeapFile types f
      → f.page_count - f.last_insert_page < fuel
      → Inserts f (insert_loop fuel f (v ∷ vs))
  insert_loop-Inserts zero f h enough = absurd (omega arith)
  insert_loop-Inserts (suc fuel) f h enough =
      let open_last = open_page types f f.last_insert_page h in
      let (a, tried, outcome) =
        try_insert_record-Outcome open_last.page v vs open_last.in_use.laid valid in
      round-Inserts f h open_last fuel a tried outcome (λ lt.
        insert_loop-Inserts fuel (passed types f h open_last)
          (passed-IsHeapFile types f h open_last) (unfold set_page in omega arith))

  -- Inserting a record, of at least one column and of values that the program can hold, which fits
  -- an empty page, into a well formed heap file returns within one round for each page and two
  -- more. The record is read back by the identifier that is returned, which names a page of the
  -- file or the next one and a slot that held no record; all other slots of the file give what
  -- they gave; and the file is well formed.
  pub insert_record-Inserted :
      (f : HeapFile)
      → IsHeapFile types f
      → (g : HeapFile) × (n : ℕ) × (slot : ℕ) × (insert_record f (v ∷ vs) ≡ some (g, n, slot))
        × Inserted types f (v ∷ vs) g n slot
  unfolding insert_record
  insert_record-Inserted f h = insert_loop-Inserts (suc (suc f.page_count)) f h (omega arith)
