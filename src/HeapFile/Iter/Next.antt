-- ===== src/HeapFile/Iter/Next.antt =====
-- `HeapFileIter::next` gives the next record, and misses none.
use model_lib.Prelude.{
  ℕ, zero, suc, ◌+◌, ◌-◌, ◌*◌, ◌≤◌, ◌<◌, ◌≡◌, ◌∙◌, ◌⊎◌, inl, inr, refl, ap, sym, true, false,
  Option, none, some, List, arith, dec_lt, ℕ_discrete, Bool-cases,
}
use model_lib.Prelude.Int.{pos, lt→ltb_ℤ, le→ltb_ℤ}
use model_lib.Value.{DataType, Value}
use model_lib.HeapPage.{init, get_dir_count}
use model_lib.HeapPage
use model_lib.HeapPage.Layout.{Slot, vacant, live}
use model_lib.HeapPage.Insert.{get_record_vacant, get_record_live}
use model_lib.HeapFile.{HeapFile, get_record}
use model_lib.HeapFile.Pages.{IsUsed, IsHeapFile, HasSlot, init-IsUsed, get_record_opened}
use model_lib.HeapFile.Iter.{HeapFileIter, next_page, next_slot, next_end, next_loop, next}

-- Slot `(n, j)` comes before slot `(m, i)`.
abbrev pub IsBefore : ℕ → ℕ → ℕ → ℕ → Type 0
IsBefore n j m i = (n < m) ⊎ ((n ≡ m) × (j < i))

-- What a call of `next` may give at slot `pos` of page `page`: the first record from there on, or,
-- when there is none, `false`.
pub data Step (f : HeapFile) (types : List DataType) (total page pos : ℕ)
    : HeapFileIter × Option (List Value) → Type 0 where
  found :
      (n j : ℕ) (vs : List Value)
      → n < total
      → HasSlot f n j
      → get_record f n j types ≡ some (some vs)
      → ¬ (IsBefore n j page pos)
      → ((m i : ℕ)
          → HasSlot f m i
          → ¬ (IsBefore m i page pos)
          → IsBefore m i n j
          → get_record f m i types ≡ some none)
      → Step f types total page pos (
        record { total_pages = total; page_number = n; record_pos = j + 1; at_end = false },
        some vs,
      )
  exhausted :
      (last : HeapFileIter)
      → last.at_end ≡ true
      → ((m i : ℕ)
          → m < total
          → HasSlot f m i
          → ¬ (IsBefore m i page pos)
          → get_record f m i types ≡ some none)
      → Step f types total page pos (last, none)

-- The iterator stands at a page, or behind the last.
pub record IsIter (f : HeapFile) (it : HeapFileIter) : Type 0 where
  pub total : it.total_pages ≤ f.page_count
  pub here : it.at_end ≡ false → it.page_number < it.total_pages
  pub bound : it.record_pos ≤ 1022
  pub over : it.at_end ≡ true → it.total_pages ≤ it.page_number

module _ (types : List DataType) (f : HeapFile) (h : IsHeapFile types f) where
  abbrev Steps : HeapFileIter → Option (HeapFileIter × Option (List Value)) → Type 0
  Steps it o =
      (r : HeapFileIter × Option (List Value)) × (o ≡ some r)
      × Step f types it.total_pages it.page_number it.record_pos r

  module _ (it : HeapFileIter) (on : IsIter f it) (going : it.at_end ≡ false) where
    in_use : IsUsed types (f.pages it.page_number)
    in_use = h.page it.page_number (let a = on.here going in let b = on.total in omega arith)

    opened : init (f.pages it.page_number) ≡ some (f.pages it.page_number)
    opened = init-IsUsed types (f.pages it.page_number) in_use

    abbrev count : ℕ
    count = in_use.laid.count

    slot_inside : (i : ℕ) → HasSlot f it.page_number i → i < count
    slot_inside i s =
        let same : some s.page ≡ some (f.pages it.page_number) = sym s.opened ∙ opened in
        let page : s.page ≡ f.pages it.page_number = cc same in
        let counts : some (pos s.count) ≡ some (pos count) =
          sym s.count_is ∙ ap get_dir_count page ∙ in_use.laid.count_is in
        let e : s.count ≡ count = cc counts in omega (arith, s.inside, e)

    has_slot : (i : ℕ) → i < count → HasSlot f it.page_number i
    has_slot i lt = record {
      page = f.pages it.page_number;
      count = count;
      opened = opened;
      count_is = in_use.laid.count_is;
      inside = lt;
    }

    record_at :
        (i : ℕ)
        → get_record f it.page_number i types ≡ HeapPage.get_record (f.pages it.page_number) i types
    record_at i = get_record_opened f it.page_number i types (f.pages it.page_number) opened

    -- What the slot under the iterator gives.
    answer :
        (i : ℕ)
        → i < count
        → (o : Option (List Value)) × (HeapPage.get_record (f.pages it.page_number) i types
            ≡ some o)
    answer i lt = go (in_use.laid.slots i lt)
      where
        go :
            Slot types (f.pages it.page_number) (8 + 4 * count + in_use.laid.free) i
            → (o : Option (List Value)) × (HeapPage.get_record (f.pages it.page_number) i types
                ≡ some o)
        go (vacant z e n) = (none, get_record_vacant (f.pages it.page_number) i types z e n)
        go (live off vs e up lo r) =
            (some vs, get_record_live (f.pages it.page_number) i types off vs e up r)

    -- A slot without a record, or the end of a page, is passed over.
    module _ (page' pos' : ℕ)
        (on' : (m i : ℕ)
          → ¬ (IsBefore m i page' pos')
          → ¬ (IsBefore m i it.page_number it.record_pos))
        (passed : (m i : ℕ)
          → HasSlot f m i
          → ¬ (IsBefore m i it.page_number it.record_pos)
          → (get_record f m i types ≡ some none) ⊎ (¬ (IsBefore m i page' pos'))) where
      pass-Step :
          (r : HeapFileIter × Option (List Value))
          → Step f types it.total_pages page' pos' r
          → Step f types it.total_pages it.page_number it.record_pos r
      pass-Step r (found n j vs lt slot reads later between) =
          found n j vs lt slot reads (on' n j later) (λ m i s from b. elim (passed m i s from) [
            | inl e ↦ e
            | inr from' ↦ between m i s from' b
          ])
      pass-Step r (exhausted last e none_left) = exhausted last e (λ m i lt s from.
          elim (passed m i s from) [ inl e ↦ e | inr from' ↦ none_left m i lt s from' ])

    slot_passed :
        HeapPage.get_record (f.pages it.page_number) it.record_pos types ≡ some none
        → (m i : ℕ) → HasSlot f m i
        → ¬ (IsBefore m i it.page_number it.record_pos)
        → (get_record f m i types ≡ some none)
          ⊎ (¬ (IsBefore m i it.page_number (it.record_pos + 1)))
    slot_passed e m i s from = elim (ℕ_discrete m it.page_number) [
      | no ne ↦ inr (λ b. from (omega arith))
      | yes at ↦ elim (ℕ_discrete i it.record_pos) [
        | no ne ↦ inr (λ b. from (omega arith))
        | yes here ↦ inl (rw (at, here) (record_at it.record_pos ∙ e))
      ]
    ]

    page_passed :
        count ≤ it.record_pos
        → (m i : ℕ) → HasSlot f m i
        → ¬ (IsBefore m i it.page_number it.record_pos)
        → (get_record f m i types ≡ some none) ⊎ (¬ (IsBefore m i (it.page_number + 1) 0))
    page_passed le m i s from = elim (ℕ_discrete m it.page_number) [
      | no ne ↦ inr (λ b. from (omega arith))
      | yes at ↦ absurd (from (inr (at, (let l = slot_inside i (rw at at s) in omega arith))))
    ]

    next_page-IsIter : IsIter f (next_page it)
    unfolding next_page
    next_page-IsIter = record {
      total = on.total;
      here = λ e. ground arith;
      bound = omega arith;
      over = λ e. ground arith;
    }

    next_slot-IsIter : it.record_pos < count → IsIter f (next_slot it)
    next_slot-IsIter lt = record {
      total = on.total;
      here = on.here;
      bound = let fits = in_use.laid.fits in omega arith;
      over = on.over;
    }

    -- One round.
    at_page_end :
        (fuel : ℕ)
        → count ≤ it.record_pos
        → next_loop (suc fuel) f types it ≡ next_loop fuel f types (next_page it)
    unfolding next_loop
    at_page_end fuel le =
        simp (going, opened, in_use.laid.count_is, le→ltb_ℤ it.record_pos count le) refl

    at_slot :
        (fuel : ℕ)
        → it.record_pos < count
        → (o : Option (List Value))
        → HeapPage.get_record (f.pages it.page_number) it.record_pos types ≡ some o
        → next_loop (suc fuel) f types it
          ≡ next_end (next_slot it) o (next_loop fuel f types (next_slot it))
    unfolding next_loop
    at_slot fuel lt o e =
        simp (going, opened, in_use.laid.count_is, lt→ltb_ℤ it.record_pos count lt, e) refl

    found-Step :
        (vs : List Value)
        → it.record_pos < count
        → HeapPage.get_record (f.pages it.page_number) it.record_pos types ≡ some (some vs)
        → Step f types it.total_pages it.page_number it.record_pos (next_slot it, some vs)
    found-Step vs lt e = rw⁻¹ same (
        found it.page_number it.record_pos vs (on.here going) (has_slot it.record_pos lt)
          (record_at it.record_pos ∙ e) (λ b. omega arith) (λ m i s from b. absurd (from b)))
      where
        same :
            (record {
              total_pages = it.total_pages;
              page_number = it.page_number;
              record_pos = it.record_pos + 1;
              at_end = false;
            })
            ≡ next_slot it
        same =
            ap
              (λ b. record {
                total_pages = it.total_pages;
                page_number = it.page_number;
                record_pos = it.record_pos + 1;
                at_end = b;
              })
              (sym going)

  -- What is left to look at.
  measure : HeapFileIter → ℕ
  measure it = 1024 * (it.total_pages - it.page_number) - it.record_pos

  at_last :
      (fuel : ℕ) (it : HeapFileIter)
      → it.at_end ≡ true
      → next_loop (suc fuel) f types it ≡ some (it, none)
  unfolding next_loop
  at_last fuel it e = simp e refl

  -- A round at a slot, by what the slot gives.
  slot-Steps :
      (fuel : ℕ) (it : HeapFileIter) (on : IsIter f it) (going : it.at_end ≡ false)
      → it.record_pos < count it on going
      → Steps (next_slot it) (next_loop fuel f types (next_slot it))
      → ((o : Option (List Value)) × (HeapPage.get_record
              (f.pages it.page_number)
              it.record_pos
              types
            ≡ some o))
      → Steps it (next_loop (suc fuel) f types it)
  slot-Steps fuel it on going lt rest (some vs, e) = (
    (next_slot it, some vs),
    at_slot it on going fuel lt (some vs) e,
    found-Step it on going vs lt e,
  )
  slot-Steps fuel it on going lt (r, done, step) (none, e) = (
    r,
    at_slot it on going fuel lt none e ∙ done,
    pass-Step it on going it.page_number (it.record_pos + 1) (λ m i from b. from (omega arith))
        (slot_passed it on going e) r step,
  )

  next_loop-Steps :
      (fuel : ℕ) (it : HeapFileIter)
      → IsIter f it
      → measure it < fuel
      → Steps it (next_loop fuel f types it)
  unfolding next_loop measure next_page
  next_loop-Steps zero it on enough = absurd (omega arith)
  next_loop-Steps (suc fuel) it on enough = elim (Bool-cases it.at_end) [
    | inl e ↦ (
      (it, none),
      at_last fuel it e,
      exhausted it e (λ m i lt s from. absurd (from (inl (let o = on.over e in omega arith)))),
    )
    | inr going ↦ elim (dec_lt it.record_pos (count it on going)) [
      | no ge ↦
          let (r, done, step) =
            next_loop-Steps fuel (next_page it) (next_page-IsIter it on going)
              (let b = on.bound in let t = on.here going in omega arith) in
          (
            r,
            at_page_end it on going fuel (omega arith) ∙ done,
            pass-Step it on going (it.page_number + 1) 0 (λ m i from b. from (omega arith))
                (page_passed it on going (omega arith)) r step,
          )
      | yes lt ↦
          slot-Steps fuel it on going lt
            (next_loop-Steps fuel (next_slot it) (next_slot-IsIter it on going lt)
              (let b = on.bound in let t = on.here going in omega arith))
            (answer it on going it.record_pos lt)
    ]
  ]

  -- On a well formed heap file `next` returns, from an iterator that stands at one of its pages or
  -- behind the last: the first record from the iterator's position on, with no record in the slots
  -- from there to it, and the iterator then stands behind it; or, if no slot from the position on
  -- has a record, `false`.
  pub next-Steps : (it : HeapFileIter) → IsIter f it → Steps it (next f types it)
  unfolding next measure
  next-Steps it on =
      next_loop-Steps (suc (1024 * (it.total_pages - it.page_number))) it on (omega arith)
