-- ===== src/Tests/Buffers.antt =====
-- A buffer of one frame, with a page that is not on disk yet.
use model_lib.Prelude.{
  ℕ, Option, ◌<◌, ◌≡◌, ◌≢◌, refl, ap, true, none, some, Bool-cases, inl, inr, ◌==◌, if◌then◌else◌,
  arith,
}
use mathlib.Core.Path.{subst}
use model_lib.Page.{size}
use model_lib.FileManager.{
  page_id, int_product, PageId, Disk, same_id, unassigned, count_pages, read_page,
}
use model_lib.FileManager.Laws.{disk_byte, same_id_iff}
use model_lib.Buffer.{BufferManager, get_unused_page, unused_loop, get_page, append_page, flush}
use model_lib.Buffer.{
  reassign, load_page, take_frame, forget_victim, evict, unpin, Frame, set_frame,
}
use model_lib.Buffer.Life.{
  open_buffer, fake_flush, write_frame, put_page, CanTake, Run, opened, got, written, unpinned,
}
use model_lib.Buffer.Life.Refines.{Shows, Run-Shows, Run-flush}
use model_lib.Buffer.Life.Recovery.{fake_flush-flush}
use model_lib.Buffer.Clock.{IsUnused, SameBuffer, get_unused_page-IsUnused, unused_loop_stuck}
use model_lib.Buffer.Coherence.{IsCoherent, Taken, view}
use model_lib.Buffer.Coherence.GetPage.{get_page-Taken, append_page-Taken}
use model_lib.Buffer.Coherence.Flush.{IsFlushed, flush-IsFlushed}

-- File 3 has one page, all zeros.
abbrev disk : Disk
disk = λ f. record { length = if f == 3 then size else 0; content = λ i. 0 }

abbrev home : PageId
home = record { file_id = 3; page_number = 0 }

abbrev next : PageId
next = record { file_id = 3; page_number = 1 }

-- Its page was changed in the buffer: all bytes are 7.
abbrev buffer : BufferManager
buffer = record {
  clock = 0;
  frame_count = 1;
  frames =
      λ k. record { page_id = home; bytes = λ i. 7; pins = 0; second_chance = true; dirty = true };
  page_map = λ id. if same_id home id then some 0 else none;
}

mapped :
    (id : PageId) (k : ℕ)
    → buffer.page_map id ≡ some k
    → (k < 1) × (home ≡ id) × (id.file_id ≢ unassigned)
mapped id k e = elim (Bool-cases (same_id home id)) [
  | inr other ↦ cc (other, e)
  | inl same ↦
      let at = (same_id_iff home id).0 same in
      let first : some 0 ≡ some k = rw same at e in
      let zero_k : 0 ≡ k = cc first in
      (omega arith, at, λ u. absurd (let f = ap (λ p. p.file_id) at in omega arith))
]

buffer-IsCoherent : IsCoherent disk buffer
buffer-IsCoherent = record {
  aligned = λ f. ground arith;
  sound = λ id k e. mapped id k e;
  frames = λ k lt. record {
    complete = λ a. ap some (omega arith);
    idle = λ u. absurd (omega arith);
    clean = λ a e i l. cc e;
    stored = λ a. unfold count_pages in omega arith;
    bounded = λ a. omega arith;
  };
}

get_unused_page-IsUnused_example :
    (c : BufferManager) × (get_unused_page buffer ≡ some c) × IsUnused c × SameBuffer buffer c
get_unused_page-IsUnused_example =
    get_unused_page-IsUnused buffer 0 (omega arith) (omega arith) refl

-- The changed page has to make room for the next one.
get_page-Taken_example :
    (d' : Disk) × (c : BufferManager) × (k : ℕ) × (get_page disk buffer 3 1 ≡ some (d', c, k))
    × Taken disk buffer next d' c k
get_page-Taken_example =
    get_page-Taken disk buffer buffer-IsCoherent next (omega arith) (omega arith) (omega arith) 0
      (omega arith) refl

append_page-Taken_example :
    (d' : Disk) × (c : BufferManager) × (k : ℕ) × (append_page disk buffer 3 ≡ some (d', c, k))
    × Taken disk buffer (record { file_id = 3; page_number = count_pages disk 3 }) d' c k
    × ((i : ℕ)
        → i < size
        → view d' c (record { file_id = 3; page_number = count_pages disk 3 }) i ≡ 0)
    × (count_pages disk 3 < count_pages d' 3)
append_page-Taken_example =
    append_page-Taken disk buffer buffer-IsCoherent 3 (omega arith)
      (unfold count_pages in omega arith) (omega arith) 0 (omega arith) refl

flush-IsFlushed_example :
    (d' : Disk) × (c : BufferManager) × (flush disk buffer ≡ some (d', c))
    × IsFlushed disk buffer d' c
    × ((j : PageId) (i : ℕ) → i < size → disk_byte d' j i ≡ view disk buffer j i)
flush-IsFlushed_example = flush-IsFlushed disk buffer buffer-IsCoherent (λ j lt. refl)

-- The frame pinned.
abbrev pinned : BufferManager
pinned = record buffer { frames = λ k. record (buffer.frames k) { pins = 1 } }

unused_loop_stuck_example : unused_loop 100 pinned ≡ none
unused_loop_stuck_example = unused_loop_stuck 100 pinned (omega arith) (λ j lt. omega arith)

-- The constructor with memory for one frame, the page of `home`, a write to it, and the call that no
-- longer needs it.
abbrev memory : ℕ → ℕ → ℕ
memory = λ k i. 9

abbrev one_frame : BufferManager
one_frame = open_buffer size memory

opened_run : Run disk one_frame (disk_byte disk)
opened_run = opened disk size memory (λ f. ground arith) (omega arith)

opened_CanTake : CanTake one_frame 3 0
unfolding open_buffer
opened_CanTake = ((λ u. absurd (omega arith)), omega arith, 0, omega arith, refl)

abbrev state_of : Option (Disk × BufferManager × ℕ) → Disk × BufferManager × ℕ
state_of none = (disk, one_frame, 0)
state_of (some a) = a

abbrev got_home : Disk × BufferManager × ℕ
got_home = state_of (get_page disk one_frame 3 0)

got_done : get_page disk one_frame 3 0 ≡ some got_home
unfolding open_buffer get_page load_page get_unused_page unused_loop take_frame forget_victim evict
    reassign read_page page_id int_product
got_done = refl

got_run : Run got_home.0 got_home.1 (disk_byte disk)
got_run =
    got disk one_frame (disk_byte disk) home got_home.0 got_home.1 got_home.2 opened_run
      opened_CanTake got_done

got_map : got_home.1.page_map home ≡ some 0
unfolding open_buffer get_page load_page get_unused_page unused_loop take_frame forget_victim evict
    reassign read_page page_id int_product
got_map = refl

abbrev sevens : ℕ → ℕ
sevens = λ i. 7

abbrev changed : BufferManager
changed = write_frame got_home.1 0 sevens

abbrev changed_pages : PageId → ℕ → ℕ
changed_pages = put_page (disk_byte disk) home sevens

changed_run : Run got_home.0 changed changed_pages
changed_run = written got_home.0 got_home.1 (disk_byte disk) home 0 sevens got_run got_map

abbrev left : Frame
left = record (changed.frames 0) { pins = 0 }

left_done : unpin (changed.frames 0) ≡ some left
unfolding open_buffer get_page load_page get_unused_page unused_loop take_frame forget_victim evict
    reassign read_page page_id int_product unpin
left_done = refl

left_run : Run got_home.0 (set_frame changed 0 left) changed_pages
left_run = unpinned got_home.0 changed changed_pages 0 left changed_run left_done

left_free :
    (j : ℕ)
    → j < (set_frame changed 0 left).frame_count
    → ((set_frame changed 0 left).frames j).pins ≡ 0
unfolding open_buffer get_page load_page get_unused_page unused_loop take_frame forget_victim evict
    reassign read_page page_id int_product
left_free j l =
    let first : 0 ≡ j = omega arith in
    subst (λ n. ((set_frame changed 0 left).frames n).pins ≡ 0) first refl

Run-Shows_example : Shows got_home.0 (set_frame changed 0 left) changed_pages
Run-Shows_example = Run-Shows got_home.0 (set_frame changed 0 left) changed_pages left_run

Run-flush_example :
    (d' : Disk) × (c : BufferManager) × (flush got_home.0 (set_frame changed 0 left) ≡ some (d', c))
    × ((j : PageId) (i : ℕ) → i < size → disk_byte d' j i ≡ changed_pages j i)
Run-flush_example = Run-flush got_home.0 (set_frame changed 0 left) changed_pages left_run left_free

fake_flush-flush_example : (c : BufferManager) × (flush disk (fake_flush buffer) ≡ some (disk, c))
fake_flush-flush_example = fake_flush-flush disk buffer (λ j l. refl)
