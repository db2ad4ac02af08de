-- ===== src/Buffer/Coherence/GetPage.antt =====
-- `BufferManager::get_page` of src/system/buffer_manager.cc on both of its branches.
use model_lib.Prelude.{
  ℕ, ◌<◌, ◌≡◌, ◌≢◌, ◌∙◌, inl, inr, refl, ap, sym, none, some, arith, Option-cases,
}
use native.Mathlib.Nat.{lt_irrefl}
use model_lib.FileManager.Laws.{disk_byte, last_page, page_id_lem}
use model_lib.Page.{size}
use model_lib.FileManager.{PageId, unassigned, Disk, count_pages}
use model_lib.Buffer.{BufferManager, set_frame, pin, get_page_at, load_page, get_page, append_page}
use model_lib.Buffer.Clock.{get_unused_page-IsUnused}
use model_lib.Buffer.Coherence.{
  IsCoherent, Taken, byte_of, view, SameContents, SameBuffer-SameContents, SameContents-IsCoherent,
  SameContents-view,
}
use model_lib.Buffer.Coherence.Take.{take_frame-Taken}

-- A page that is in a frame.
module _ (d : Disk) (b : BufferManager) (co : IsCoherent d b) (id : PageId) (k : ℕ)
    (at : b.page_map id ≡ some k) where
  abbrev held : BufferManager
  held = set_frame b k (pin (b.frames k))

  held-SameContents : SameContents b held
  unfolding pin
  held-SameContents = record {
    frame_count = refl;
    page_map = refl;
    frames = λ j. record { page_id = ground arith; bytes = ground arith; dirty = ground arith };
  }

  held_pins : 0 < (held.frames k).pins
  unfolding pin
  held_pins = ground arith

  pin-Taken : b.clock < b.frame_count → Taken d b id d held k
  pin-Taken clock =
      let (inside, here, _) = co.sound id k at in
      record {
        inside = inside;
        clock = clock;
        page_id = (held-SameContents.frames k).page_id ∙ here;
        pinned = held_pins;
        mapped = at;
        coherent = SameContents-IsCoherent d b held held-SameContents co;
        view = λ j i l. SameContents-view d b held held-SameContents j i;
      }

get_page_mapped :
    (d : Disk) (b : BufferManager) (id : PageId) (k : ℕ)
    → id.page_number < last_page
    → b.page_map id ≡ some k
    → get_page d b id.file_id id.page_number ≡ some (d, set_frame b k (pin (b.frames k)), k)
unfolding get_page
get_page_mapped d b id k bounded at = rw (page_id_lem id bounded) (ap (get_page_at d b id) at)

get_page_missing :
    (d : Disk) (b : BufferManager) (id : PageId)
    → id.page_number < last_page
    → b.page_map id ≡ none
    → get_page d b id.file_id id.page_number ≡ load_page d b id
unfolding get_page
get_page_missing d b id bounded at = rw (page_id_lem id bounded) (ap (get_page_at d b id) at)

module _ (d : Disk) (b : BufferManager) (co : IsCoherent d b) (id : PageId)
    (assigned : id.file_id ≢ unassigned) (bounded : id.page_number < last_page)
    (clock : b.clock < b.frame_count) (free : ℕ) (inside : free < b.frame_count)
    (unpinned : (b.frames free).pins ≡ 0) where
  load_page-Taken :
      b.page_map id ≡ none
      → (d' : Disk) × (c : BufferManager) × (k : ℕ) × (load_page d b id ≡ some (d', c, k))
        × Taken d b id d' c k
  unfolding load_page
  load_page-Taken missing =
      let (b', found, unused, same) = get_unused_page-IsUnused b free clock inside unpinned in
      let (d', c, k, done, taken) =
        take_frame-Taken d b' id
          (SameContents-IsCoherent d b b' (SameBuffer-SameContents b b' same) co) unused
          (rw same.page_map missing) assigned bounded in
      (
        d',
        c,
        k,
        rw found done,
        record {
          inside = taken.inside;
          clock = taken.clock;
          page_id = taken.page_id;
          pinned = taken.pinned;
          mapped = taken.mapped;
          coherent = taken.coherent;
          view = λ j i l.
              taken.view j i l ∙ SameContents-view d b b' (SameBuffer-SameContents b b' same) j i;
        },
      )

  -- If the buffer is coherent, its clock stands inside it, some frame is not pinned, the page's
  -- file is assigned and its number is below 2 ^ 19 - 1, `get_page` returns, whether the page is
  -- in a frame or not: the page is in the frame returned, pinned, the buffer is coherent with
  -- the disk afterwards, its clock inside, and no byte of any page has changed for a user of the
  -- buffer.
  pub get_page-Taken :
      (d' : Disk) × (c : BufferManager) × (k : ℕ) × (get_page d b id.file_id id.page_number
        ≡ some (d', c, k))
      × Taken d b id d' c k
  get_page-Taken = elim (Option-cases (b.page_map id)) [
    | inl missing ↦
        let (d', c, k, done, taken) = load_page-Taken missing in
        (d', c, k, get_page_missing d b id bounded missing ∙ done, taken)
    | inr (k, at) ↦ (
      d,
      held d b co id k at,
      k,
      get_page_mapped d b id k bounded at,
      pin-Taken d b co id k at clock,
    )
  ]

-- Appending a page.
module _ (d : Disk) (b : BufferManager) (co : IsCoherent d b) (f : ℕ) (assigned : f ≢ unassigned)
    (bounded : count_pages d f < last_page) (clock : b.clock < b.frame_count) (free : ℕ)
    (inside : free < b.frame_count) (unpinned : (b.frames free).pins ≡ 0) where
  abbrev appended : PageId
  appended = record { file_id = f; page_number = count_pages d f }

  new_missing : b.page_map appended ≡ none
  new_missing = elim (Option-cases (b.page_map appended)) [
    | inl e ↦ e
    | inr (k, at) ↦
        let (lt, here, _) = co.sound appended k at in
        let stored = (co.frames k lt).stored (λ u. assigned (sym (ap (λ p. p.file_id) here) ∙ u)) in
        absurd (lt_irrefl (count_pages d f) (rw here at stored))
  ]

  new_zero : (i : ℕ) → view d b appended i ≡ 0
  unfolding view disk_byte
  new_zero i = ap (byte_of d b.frames appended i) new_missing ∙ ground arith

  kept :
      {d' : Disk} {c : BufferManager} {k : ℕ}
      → Taken d b appended d' c k
      → count_pages d f < count_pages d' f
  kept {d'} {c} {k} taken =
      let stored =
        (taken.coherent.frames k taken.inside).stored
          (λ u. assigned (sym (ap (λ p. p.file_id) taken.page_id) ∙ u)) in
      rw taken.page_id at stored

  -- If the buffer is coherent, its clock stands inside it, some frame is not pinned, the file is
  -- assigned and has less than 2 ^ 19 - 1 pages, `append_page` returns the page behind the last
  -- of the file, pinned in a frame: all its bytes are zero, no byte of any page has changed for
  -- a user of the buffer, the buffer is coherent, and the file on disk is longer.
  pub append_page-Taken :
      (d' : Disk) × (c : BufferManager) × (k : ℕ) × (append_page d b f ≡ some (d', c, k))
      × Taken d b appended d' c k
      × ((i : ℕ) → i < size → view d' c appended i ≡ 0)
      × (count_pages d f < count_pages d' f)
  unfolding append_page
  append_page-Taken =
      let (d', c, k, done, taken) =
        get_page-Taken d b co appended assigned bounded clock free inside unpinned in
      (d', c, k, done, taken, λ i l. taken.view appended i l ∙ new_zero i, kept taken)
