-- ===== src/HeapFile/Vacuum.antt =====
-- `vacuum` of src/storage/heap_file/heap_file.cc: every page of the file in turn.
use model_lib.Prelude.{
  ℕ, zero, suc, ◌+◌, ◌≤◌, ◌<◌, ◌≡◌, ◌≢◌, refl, sym, ◌∙◌, ◌⊎◌, Option, some, List, arith, ◌>>=◌,
  some-inj, ℕ_discrete, length, ◌*◌,
}
use mathlib.Core.Path.{subst}
use model_lib.Page.{Page, Bytes, size}
use model_lib.Value.{DataType}
use model_lib.HeapPage.{init}
use model_lib.HeapPage.Sound.{IsSound, sizes}
use model_lib.HeapPage.Sound.Steps.{vacuum-IsSound, init-IsSound}
use model_lib.HeapPage.Vacuum
use model_lib.HeapFile.{HeapFile, set_page}

-- The loop from page `i` on, of which `n` are left. `raws i` is the memory that page `i` is copied
-- to, as `HeapFilePage::vacuum` finds it.
unfoldable pub vacuum_loop : ℕ → (ℕ → Bytes) → List DataType → HeapFile → ℕ → Option HeapFile
vacuum_loop zero raws types f i = some f
vacuum_loop (suc n) raws types f i = do
  p ← init (f.pages i)
  q ← Vacuum.vacuum (raws i) types p
  vacuum_loop n raws types (set_page f i q) (suc i)

unfoldable pub vacuum : (ℕ → Bytes) → List DataType → HeapFile → Option HeapFile
vacuum raws types f = do
  g ← vacuum_loop f.page_count raws types f 0
  some (record g { last_insert_page = 0 })

-- A sound page that is not taken for a new one.
abbrev pub InUse : List DataType → Page → Type 0
InUse types p = (s : IsSound types p) × (0 < s.count + s.free)

-- The records of the one page are those of the other, in the same order, and fill the page from its
-- first slot on.
abbrev pub SameRecords : List DataType → Page → Page → Type 0
SameRecords types p q =
    (s : IsSound types p)
    → (s' : IsSound types q) × (s'.records ≡ s.records)
      × (s'.count ≡ length s.records)
      × (s'.free + 4 * length s.records + sizes s.records + 8 ≡ size)

module _ (f : HeapFile) (i : ℕ) (q : Page) where
  count_kept : i < f.page_count → (set_page f i q).page_count ≡ f.page_count
  unfolding set_page
  count_kept h = ground arith

  page_here : (set_page f i q).pages i ≡ q
  unfolding set_page
  page_here = ground arith

  page_there : (j : ℕ) → j ≢ i → (set_page f i q).pages j ≡ f.pages j
  unfolding set_page
  page_there j ne = ground arith

module _ (types : List DataType) (p : Page) (raw : Bytes) where
  vacuum_page :
      InUse types p
      → (q : Page) × (init p ≡ some p)
        × (Vacuum.vacuum raw types p ≡ some q)
        × SameRecords types p q
  vacuum_page (s, used) =
      let (q, done, how) = vacuum-IsSound types p s raw in
      (
        q,
        init-IsSound types p s used,
        done,
        λ t.
            let (q', done', how') = vacuum-IsSound types p t raw in
            let same : q' ≡ q = some-inj (sym done' ∙ done) in
            subst
              (λ x.
                (s' : IsSound types x) × (s'.records ≡ t.records)
                × (s'.count ≡ length t.records)
                × (s'.free + 4 * length t.records + sizes t.records + 8 ≡ size))
              same how',
      )

module _ (types : List DataType) (raws : ℕ → Bytes) where
  vacuum_loop_lem :
      (n : ℕ) (f : HeapFile) (i : ℕ)
      → i + n ≤ f.page_count
      → ((j : ℕ) → i ≤ j → j < i + n → InUse types (f.pages j))
      → (g : HeapFile) × (vacuum_loop n raws types f i ≡ some g)
        × (g.page_count ≡ f.page_count)
        × ((j : ℕ) → (j < i) ⊎ (i + n ≤ j) → g.pages j ≡ f.pages j)
        × ((j : ℕ) → i ≤ j → j < i + n → SameRecords types (f.pages j) (g.pages j))
  unfolding vacuum_loop
  vacuum_loop_lem zero f i bound used = (f, refl, refl, λ j h. refl, λ j a b. absurd (omega arith))
  vacuum_loop_lem (suc n) f i bound used =
      let (q, opened, done, same) =
        vacuum_page types (f.pages i) (raws i) (used i (omega arith) (omega arith)) in
      let (g, rest, count, others, pages) =
        vacuum_loop_lem n (set_page f i q) (suc i)
          (let c = count_kept f i q (omega arith) in omega arith)
          (λ j a b. rw (page_there f i q j (omega arith)) (used j (omega arith) (omega arith))) in
      (
        g,
        rw (opened, done) rest,
        count ∙ count_kept f i q (omega arith),
        λ j h. others j (omega arith) ∙ page_there f i q j (omega arith),
        λ j a b. elim (ℕ_discrete j i) [
          | yes e ↦ rw (e, others i (omega arith), page_here f i q) same
          | no ne ↦ rw (← page_there f i q j ne) (pages j (omega arith) (omega arith))
        ],
      )

  -- If every page of the file is sound and holds slots or free space, `vacuum` returns: each page then
  -- has the records that it had, in the same order, from its first slot on, and all the rest of it is
  -- free; the number of pages and what is behind them are as before, and the next insertion starts
  -- at the first page.
  pub vacuum-SameRecords :
      (f : HeapFile)
      → ((j : ℕ) → j < f.page_count → InUse types (f.pages j))
      → (g : HeapFile) × (vacuum raws types f ≡ some g)
        × (g.page_count ≡ f.page_count)
        × (g.last_insert_page ≡ 0)
        × ((j : ℕ) → f.page_count ≤ j → g.pages j ≡ f.pages j)
        × ((j : ℕ) → j < f.page_count → SameRecords types (f.pages j) (g.pages j))
  unfolding vacuum
  vacuum-SameRecords f used =
      let (g, done, count, others, pages) =
        vacuum_loop_lem f.page_count f 0 (omega arith) (λ j a b. used j (omega arith)) in
      (
        record g { last_insert_page = 0 },
        rw done refl,
        count,
        refl,
        λ j h. others j (omega arith),
        λ j lt. pages j (omega arith) (omega arith),
      )
