-- ===== src/Buffer/Life.antt =====
-- The life of the buffer, src/system/buffer_manager.cc: the constructor, the calls of its users, and
-- the destructor, which is `flush`. Its users see the pages as a map from identifiers to bytes.
pub mod Written
pub mod Refines
pub mod Recovery
use model_lib.Prelude.{
  ℕ, zero, suc, ◌+◌, ◌<◌, ◌≤◌, ◌≡◌, ◌≢◌, ◌/◌, true, false, Option, none, some, if◌then◌else◌,
}
use model_lib.Page.{Bytes, size}
use model_lib.FileManager.{PageId, same_id, unassigned, Disk, count_pages}
use model_lib.FileManager.Laws.{IsAligned, disk_byte, last_page}
use model_lib.Buffer.{Frame, BufferManager, set_frame, unpin, get_page, append_page, flush}

-- `Page::Page`, with the memory that the constructor of the buffer gives it.
abbrev pub new_frame : Bytes → Frame
new_frame bytes = record {
  page_id = record { file_id = unassigned; page_number = 0 };
  bytes = bytes;
  pins = 0;
  second_chance = false;
  dirty = false;
}

-- The constructor; `memory` is what the allocated memory holds.
unfoldable pub open_buffer : ℕ → (ℕ → Bytes) → BufferManager
open_buffer buffer_size memory = record {
  clock = 0;
  frame_count = buffer_size / size;
  frames = λ i. new_frame (memory i);
  page_map = λ id. none;
}

-- One round of `fake_flush`, and its loop, by the rounds left and the index.
abbrev pub forget_changes : BufferManager → ℕ → BufferManager
forget_changes b i = set_frame b i (record (b.frames i) { dirty = false })

unfoldable pub fake_flush_loop : ℕ → ℕ → BufferManager → BufferManager
fake_flush_loop zero i b = b
fake_flush_loop (suc n) i b = fake_flush_loop n (i + 1) (forget_changes b i)

unfoldable pub fake_flush : BufferManager → BufferManager
fake_flush b = fake_flush_loop b.frame_count 0 b

-- A write of a `Page` to its frame: new bytes, which the disk does not have.
abbrev pub write_frame : BufferManager → ℕ → Bytes → BufferManager
write_frame b k bytes = set_frame b k (record (b.frames k) { bytes = bytes; dirty = true })

-- The pages, as its users see them.
abbrev pub Pages : Type 0
Pages = PageId → Bytes

abbrev pub put_page : Pages → PageId → Bytes → Pages
put_page s id bytes j = if same_id id j then bytes else s j

-- A page can be taken in: its file is open, the offsets up to its end are `int`s, and some frame is
-- not pinned.
abbrev pub CanTake : BufferManager → ℕ → ℕ → Type 0
CanTake b file_id page_number =
    (file_id ≢ unassigned)
    × (page_number < last_page)
    × (free : ℕ) × (free < b.frame_count)
    × ((b.frames free).pins ≡ 0)

-- The disk and the buffer after some calls, and what has become of the pages.
pub data Run : Disk → BufferManager → Pages → Type 0 where
  opened :
      (d : Disk) (buffer_size : ℕ) (memory : ℕ → Bytes)
      → IsAligned d
      → size ≤ buffer_size
      → Run d (open_buffer buffer_size memory) (disk_byte d)
  got :
      (d : Disk) (b : BufferManager) (s : Pages) (id : PageId) (d' : Disk) (c : BufferManager)
      (k : ℕ)
      → Run d b s
      → CanTake b id.file_id id.page_number
      → get_page d b id.file_id id.page_number ≡ some (d', c, k)
      → Run d' c s
  appended :
      (d : Disk) (b : BufferManager) (s : Pages) (f : ℕ) (d' : Disk) (c : BufferManager) (k : ℕ)
      → Run d b s
      → CanTake b f (count_pages d f)
      → append_page d b f ≡ some (d', c, k)
      → Run d' c s
  written :
      (d : Disk) (b : BufferManager) (s : Pages) (id : PageId) (k : ℕ) (bytes : Bytes)
      → Run d b s
      → b.page_map id ≡ some k
      → Run d (write_frame b k bytes) (put_page s id bytes)
  unpinned :
      (d : Disk) (b : BufferManager) (s : Pages) (k : ℕ) (fr : Frame)
      → Run d b s
      → unpin (b.frames k) ≡ some fr
      → Run d (set_frame b k fr) s
  flushed :
      (d : Disk) (b : BufferManager) (s : Pages) (d' : Disk) (c : BufferManager)
      → Run d b s
      → ((j : ℕ) → j < b.frame_count → (b.frames j).pins ≡ 0)
      → flush d b ≡ some (d', c)
      → Run d' c s
