-- ===== src/HeapPage/Delete.antt =====
-- `delete_record` on a well formed page, and the constructor's initial page.
use model_lib.Prelude.{
  ℕ, ◌+◌, ◌*◌, ◌-◌, ◌≤◌, ◌<◌, ◌≡◌, ◌≢◌, ◌∙◌, ◌⊎◌, inl, refl, sym, ap, false, none, some, List,
  arith, ℕ_discrete,
}
use model_lib.Prelude.Int.{pos, negsuc}
use model_lib.Word.{int32_bytes, bytes_int32, from_bytes, of_pattern}
use model_lib.Word.Laws.{length-int32_bytes}
use model_lib.Page.{Page, size, put, read_int32, load}
use model_lib.Page.Access.{read_int32-Same, put_outside, write_int32_lem, read_int32-put_same}
use model_lib.Value.{DataType}
use model_lib.HeapPage.{
  get_dir_count, get_free_space, get_dir, set_free_space, set_dir, read_values, get_record,
  delete_record, init,
}
use model_lib.HeapPage.Values.{read_values-Same}
use model_lib.HeapPage.Layout.{Slot, vacant, live, IsLaidOut}
use model_lib.HeapPage.Insert.{get_record_vacant, get_record_live}

module _ (types : List DataType) (p : Page) (laid : IsLaidOut types p) (i : ℕ)
    (inside : i < laid.count) where
  open laid use {count, free}

  pub deleted : Page
  deleted = put p (8 + 4 * i) (int32_bytes (negsuc 0))

  pub same : (k : ℕ) → (k < 8 + 4 * i) ⊎ (8 + 4 * i + 4 ≤ k) → deleted.bytes k ≡ p.bytes k
  unfolding deleted
  same k h = put_outside p (8 + 4 * i) (int32_bytes (negsuc 0)) k (rw length-int32_bytes h)

  below_size : 8 + 4 * i + 4 ≤ size
  below_size = let old = laid.fits in omega arith

  pub delete_done : delete_record p i ≡ some deleted
  unfolding delete_record set_dir deleted
  delete_done = write_int32_lem p (8 + 4 * i) (negsuc 0) below_size

  pub dir_deleted : get_dir deleted i ≡ some (negsuc 0)
  unfolding get_dir deleted
  dir_deleted = read_int32-put_same p (8 + 4 * i) (negsuc 0) below_size (omega arith)

  pub dir_kept : (j : ℕ) → j ≢ i → get_dir deleted j ≡ get_dir p j
  unfolding get_dir
  dir_kept j ne = read_int32-Same deleted p (8 + 4 * j) (λ k a b. same k (omega arith))

  values_kept :
      (off : ℕ)
      → 8 + 4 * count + free ≤ off
      → read_values types deleted off ≡ read_values types p off
  values_kept off lo = read_values-Same types deleted p off (λ k a. same k (omega arith))

  Slot-kept :
      (j : ℕ)
      → j ≢ i
      → Slot types p (8 + 4 * count + free) j
      → Slot types deleted (8 + 4 * count + free) j
  Slot-kept j ne (vacant z e n) = vacant z (dir_kept j ne ∙ e) n
  Slot-kept j ne (live off vs e up lo r) =
      live off vs (dir_kept j ne ∙ e) up lo (values_kept off lo ∙ r)

  pub dir_count_kept : get_dir_count deleted ≡ get_dir_count p
  unfolding get_dir_count
  dir_count_kept = read_int32-Same deleted p 0 (λ k a b. same k (omega arith))

  pub free_space_kept : get_free_space deleted ≡ get_free_space p
  unfolding get_free_space
  free_space_kept = read_int32-Same deleted p 4 (λ k a b. same k (omega arith))

  deleted_laid : IsLaidOut types deleted
  deleted_laid = record {
    count = count;
    free = free;
    count_is = dir_count_kept ∙ laid.count_is;
    free_is = free_space_kept ∙ laid.free_is;
    fits = laid.fits;
    slots = λ j lt. elim (ℕ_discrete j i) [
      | yes e ↦ vacant (negsuc 0) (ap (get_dir deleted) e ∙ dir_deleted) refl
      | no ne ↦ Slot-kept j ne (laid.slots j lt)
    ];
  }

  record_kept :
      (j : ℕ)
      → j ≢ i
      → Slot types p (8 + 4 * count + free) j
      → get_record deleted j types ≡ get_record p j types
  record_kept j ne (vacant z e n) =
      get_record_vacant deleted j types z (dir_kept j ne ∙ e) n
      ∙ sym (get_record_vacant p j types z e n)
  record_kept j ne (live off vs e up lo r) =
      get_record_live deleted j types off vs (dir_kept j ne ∙ e) up (values_kept off lo ∙ r)
      ∙ sym (get_record_live p j types off vs e up r)

  -- Deleting a slot of a well formed page succeeds. The page stays well formed, with as many slots
  -- and as much free space, the slot gives no record any more, and every other
  -- slot gives what it gave before.
  pub delete_record-IsLaidOut :
      (q : Page) × (delete_record p i ≡ some q)
      × ((after : IsLaidOut types q) × (after.count ≡ count) × (after.free ≡ free))
      × (get_record q i types ≡ some none)
      × ((j : ℕ) → j < count → j ≢ i → get_record q j types ≡ get_record p j types)
  unfolding deleted_laid
  delete_record-IsLaidOut = (
    deleted,
    delete_done,
    (deleted_laid, refl, refl),
    get_record_vacant deleted i types (negsuc 0) dir_deleted refl,
    λ j lt ne. record_kept j ne (laid.slots j lt),
  )

-- A page of a file that was just extended.
abbrev pub zeros : Page
zeros = record { bytes = λ k. 0; dirty = false }

pub zeros_read : (off : ℕ) → off + 4 ≤ size → read_int32 zeros off ≡ some (pos 0)
unfolding read_int32 load bytes_int32 from_bytes of_pattern
zeros_read off h = ground arith

-- A new page of zeros becomes a well formed page without slots, whose free space is all but the two
-- counts.
pub init-zeros :
    (types : List DataType)
    → (q : Page) × (init zeros ≡ some q)
      × ((laid : IsLaidOut types q) × (laid.count ≡ 0) × (laid.free ≡ size - 8))
unfolding init get_dir_count get_free_space set_free_space
init-zeros types = (
  opened,
  rw (zeros_read 0 (omega arith), zeros_read 4 (omega arith))
      (write_int32_lem zeros 4 (pos (size - 8)) (omega arith)),
  (
    record {
      count = 0;
      free = size - 8;
      count_is =
          read_int32-Same opened zeros 0 (λ k a b. put_outside zeros 4 free_bytes k (inl b))
          ∙ zeros_read 0 (omega arith);
      free_is = read_int32-put_same zeros 4 (pos (size - 8)) (omega arith) (omega arith);
      fits = omega arith;
      slots = λ i lt. absurd (omega arith);
    },
    refl,
    refl,
  ),
)
  where
    free_bytes : List ℕ
    free_bytes = int32_bytes (pos (size - 8))

    opened : Page
    opened = put zeros 4 free_bytes

-- The constructor leaves a page alone that has slots or free space.
pub init_lem :
    (types : List DataType) (p : Page) (laid : IsLaidOut types p)
    → 0 < laid.count + laid.free
    → init p ≡ some p
unfolding init
init_lem types p laid h = rw (laid.count_is, laid.free_is) (ground arith)
