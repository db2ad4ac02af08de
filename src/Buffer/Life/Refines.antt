-- ===== src/Buffer/Life/Refines.antt =====
-- The buffer manager of src/system/buffer_manager.cc as its users see it, over any sequence of calls
-- from the constructor on.
use model_lib.Prelude.{
  ℕ, ◌-◌, ◌<◌, ◌≤◌, ◌≡◌, ◌≢◌, ◌∙◌, refl, ap, sym, none, some, arith, Bool-cases, inl, inr, ltb,
  ℕ_discrete,
}
use mathlib.Core.Path.{subst}
use model_lib.Page.{Bytes, size}
use model_lib.FileManager.{PageId, Disk, count_pages}
use model_lib.FileManager.Laws.{IsAligned, disk_byte}
use model_lib.Buffer.{Frame, BufferManager, set_frame, unpin, get_page, append_page, flush}
use model_lib.Buffer.Coherence.{
  IsCoherent, Taken, view, SameContent, SameContents, SameContents-IsCoherent, SameContents-view,
}
use model_lib.Buffer.Coherence.GetPage.{get_page-Taken, append_page-Taken}
use model_lib.Buffer.Coherence.Flush.{flush-IsFlushed}
use model_lib.Buffer.Life.{
  CanTake, open_buffer, write_frame, put_page, Pages, Run, opened, got, appended, written, unpinned,
  flushed,
}
use model_lib.Buffer.Life.Written.{write_frame-IsCoherent, write_frame-view}

-- The buffer shows the pages.
pub record Shows (d : Disk) (b : BufferManager) (s : Pages) : Type 0 where
  pub coherent : IsCoherent d b
  pub clock : b.clock < b.frame_count
  pub view : (j : PageId) (i : ℕ) → i < size → view d b j i ≡ s j i

open_buffer-Shows :
    (d : Disk) (buffer_size : ℕ) (memory : ℕ → Bytes)
    → IsAligned d
    → size ≤ buffer_size
    → Shows d (open_buffer buffer_size memory) (disk_byte d)
unfolding open_buffer view
open_buffer-Shows d n memory aligned fits = record {
  coherent = record {
    aligned = aligned;
    sound = λ id k e. absurd (cc e);
    frames = λ k l. record {
      complete = λ a. absurd (a refl);
      idle = λ u. refl;
      clean = λ a e. absurd (a refl);
      stored = λ a. absurd (a refl);
      bounded = λ a. absurd (a refl);
    };
  };
  clock = omega arith;
  view = λ j i l. refl;
}

Taken-Shows :
    (d : Disk) (b : BufferManager) (s : Pages) (id : PageId) (d' : Disk) (c : BufferManager) (k : ℕ)
    → Shows d b s
    → Taken d b id d' c k
    → Shows d' c s
Taken-Shows d b s id d' c k shows taken = record {
  coherent = taken.coherent;
  clock = taken.clock;
  view = λ j i l. taken.view j i l ∙ shows.view j i l;
}

frame_same : (b : BufferManager) (k : ℕ) (fr : Frame) → (set_frame b k fr).frames k ≡ fr
frame_same b k fr = ground arith

frame_apart :
    (b : BufferManager) (k : ℕ) (fr : Frame) (j : ℕ)
    → k ≢ j
    → (set_frame b k fr).frames j ≡ b.frames j
frame_apart b k fr j ne = ground arith

unpin-SameContent : (fr gr : Frame) → unpin fr ≡ some gr → SameContent gr fr
unfolding unpin
unpin-SameContent fr gr e = elim (Bool-cases (ltb 0 fr.pins)) [
  | inl t ↦
      let found : some (record fr { pins = fr.pins - 1 }) ≡ some gr = rw t at e in
      let same : record fr { pins = fr.pins - 1 } ≡ gr = cc found in
      record {
        page_id = sym (ap (λ (f : Frame). f.page_id) same);
        bytes = sym (ap (λ (f : Frame). f.bytes) same);
        dirty = sym (ap (λ (f : Frame). f.dirty) same);
      }
  | inr f ↦ let stopped : none ≡ some gr = rw f at e in absurd (cc stopped)
]

unpin-SameContents :
    (b : BufferManager) (k : ℕ) (fr : Frame)
    → unpin (b.frames k) ≡ some fr
    → SameContents b (set_frame b k fr)
unpin-SameContents b k fr e = record {
  frame_count = refl;
  page_map = refl;
  frames = λ j. elim (ℕ_discrete k j) [
    | yes at ↦ rw⁻¹ at (rw (frame_same b k fr) (unpin-SameContent (b.frames k) fr e))
    | no ne ↦ rw (frame_apart b k fr j ne) (record { page_id = refl; bytes = refl; dirty = refl })
  ];
}

module _ (d : Disk) (b : BufferManager) (s : Pages) (before : Shows d b s) where
  get_page-Shows :
      (id : PageId) (d' : Disk) (c : BufferManager) (k : ℕ)
      → CanTake b id.file_id id.page_number
      → get_page d b id.file_id id.page_number ≡ some (d', c, k)
      → Shows d' c s
  get_page-Shows id d' c k (assigned, bounded, free, inside, unpinned_at) e =
      let (d2, c2, k2, done, taken) =
        get_page-Taken d b before.coherent id assigned bounded before.clock free inside
          unpinned_at in
      let same : (d2, c2, k2) ≡ (d', c, k) = cc (e, done) in
      subst (λ (a : Disk × BufferManager × ℕ). Shows a.0 a.1 s) same
        (Taken-Shows d b s id d2 c2 k2 before taken)

  append_page-Shows :
      (f : ℕ) (d' : Disk) (c : BufferManager) (k : ℕ)
      → CanTake b f (count_pages d f)
      → append_page d b f ≡ some (d', c, k)
      → Shows d' c s
  append_page-Shows f d' c k (assigned, bounded, free, inside, unpinned_at) e =
      let (d2, c2, k2, done, taken, _, _) =
        append_page-Taken d b before.coherent f assigned bounded before.clock free inside
          unpinned_at in
      let same : (d2, c2, k2) ≡ (d', c, k) = cc (e, done) in
      subst (λ (a : Disk × BufferManager × ℕ). Shows a.0 a.1 s) same
        (Taken-Shows d b s (record { file_id = f; page_number = count_pages d f }) d2 c2 k2 before
          taken)

  write_frame-Shows :
      (id : PageId) (k : ℕ) (bytes : Bytes)
      → b.page_map id ≡ some k
      → Shows d (write_frame b k bytes) (put_page s id bytes)
  write_frame-Shows id k bytes at = record {
    coherent = write_frame-IsCoherent d b before.coherent id k bytes at;
    clock = before.clock;
    view = write_frame-view d b before.coherent id k bytes at s before.view;
  }

  unpin-Shows : (k : ℕ) (fr : Frame) → unpin (b.frames k) ≡ some fr → Shows d (set_frame b k fr) s
  unpin-Shows k fr e =
      let same = unpin-SameContents b k fr e in
      record {
        coherent = SameContents-IsCoherent d b (set_frame b k fr) same before.coherent;
        clock = before.clock;
        view = λ j i l. SameContents-view d b (set_frame b k fr) same j i ∙ before.view j i l;
      }

  flush-Shows :
      (d' : Disk) (c : BufferManager)
      → ((j : ℕ) → j < b.frame_count → (b.frames j).pins ≡ 0)
      → flush d b ≡ some (d', c)
      → Shows d' c s
  flush-Shows d' c free e =
      let (d2, c2, done, r, _) = flush-IsFlushed d b before.coherent free in
      let same : (d2, c2) ≡ (d', c) = cc (e, done) in
      subst (λ (a : Disk × BufferManager). Shows a.0 a.1 s) same
        (record {
          coherent = r.coherent;
          clock = rw (r.clock, r.frame_count) before.clock;
          view = λ j i l. r.view j i l ∙ before.view j i l;
        })

-- After any calls from the constructor on, over files of whole pages and with memory for a frame at
-- least, where a page is only got if its number is below 2 ^ 19 - 1 and some frame is not pinned: the
-- buffer is coherent, its clock stands inside it, and its users see each page as it was written last,
-- or else as the disk had it when the buffer was made.
pub Run-Shows : (d : Disk) (b : BufferManager) (s : Pages) → Run d b s → Shows d b s
Run-Shows _ _ _ (opened d n memory aligned fits) = open_buffer-Shows d n memory aligned fits
Run-Shows _ _ _ (got d b s id d' c k run room e) =
    get_page-Shows d b s (Run-Shows d b s run) id d' c k room e
Run-Shows _ _ _ (appended d b s f d' c k run room e) =
    append_page-Shows d b s (Run-Shows d b s run) f d' c k room e
Run-Shows _ _ _ (written d b s id k bytes run at) =
    write_frame-Shows d b s (Run-Shows d b s run) id k bytes at
Run-Shows _ _ _ (unpinned d b s k fr run e) = unpin-Shows d b s (Run-Shows d b s run) k fr e
Run-Shows _ _ _ (flushed d b s d' c run free e) =
    flush-Shows d b s (Run-Shows d b s run) d' c free e

-- After any such calls (pages are only got if their numbers are below 2 ^ 19 - 1), once no frame is
-- pinned, the destructor's `flush` returns, and the disk has every page as it was written last, or else as it was when the buffer was made.
pub Run-flush :
    (d : Disk) (b : BufferManager) (s : Pages)
    → Run d b s
    → ((j : ℕ) → j < b.frame_count → (b.frames j).pins ≡ 0)
    → (d' : Disk) × (c : BufferManager) × (flush d b ≡ some (d', c))
      × ((j : PageId) (i : ℕ) → i < size → disk_byte d' j i ≡ s j i)
Run-flush d b s run free =
    let before = Run-Shows d b s run in
    let (d', c, done, _, stored) = flush-IsFlushed d b before.coherent free in
    (d', c, done, λ j i l. stored j i l ∙ before.view j i l)
