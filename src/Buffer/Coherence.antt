-- ===== src/Buffer/Coherence.antt =====
-- Getting a page keeps every page's bytes, whether they are in a frame or on disk.
pub mod Evict
pub mod Take
pub mod GetPage
pub mod Flush
use model_lib.Prelude.{
  ℕ, zero, suc, ◌+◌, ◌≤◌, ◌<◌, ◌≡◌, ◌≢◌, ◌∙◌, refl, ap, sym, Bool, true, false, Option, none, some,
  ◌==◌, if◌then◌else◌, arith,
}
use model_lib.Page.{Bytes, size}
use model_lib.FileManager.{PageId, same_id, unassigned, Disk, count_pages}
use model_lib.FileManager.Laws.{IsAligned, disk_byte, last_page}
use model_lib.Buffer.{Frame, BufferManager}
use model_lib.Buffer.Clock.{SameFrame, SameBuffer, IsUnused}

-- Frame `k` and the disk agree on the page in the frame: the map leads from the page to the frame, a
-- frame that is not dirty holds what the disk holds, and the disk has the page, whose offsets are
-- `int`s.
pub record FrameIsCoherent (d : Disk) (m : PageId → Option ℕ) (k : ℕ) (fr : Frame) : Type 0 where
  pub complete : fr.page_id.file_id ≢ unassigned → m fr.page_id ≡ some k
  pub idle : fr.page_id.file_id ≡ unassigned → fr.dirty ≡ false
  pub clean :
      fr.page_id.file_id ≢ unassigned
      → fr.dirty ≡ false
      → (i : ℕ) → i < size
      → fr.bytes i ≡ disk_byte d fr.page_id i
  pub bounded : fr.page_id.file_id ≢ unassigned → fr.page_id.page_number < last_page
  pub stored :
      fr.page_id.file_id ≢ unassigned → fr.page_id.page_number < count_pages d fr.page_id.file_id

-- So it is for every frame, and the map leads nowhere else.
pub record IsCoherent (d : Disk) (b : BufferManager) : Type 0 where
  pub aligned : IsAligned d
  pub sound :
      (id : PageId) (k : ℕ)
      → b.page_map id ≡ some k
      → (k < b.frame_count) × ((b.frames k).page_id ≡ id) × (id.file_id ≢ unassigned)
  pub frames : (k : ℕ) → k < b.frame_count → FrameIsCoherent d b.page_map k (b.frames k)

-- Byte `i` of a page, as a user of the buffer sees it.
abbrev pub byte_of : Disk → (ℕ → Frame) → PageId → ℕ → Option ℕ → ℕ
byte_of d frames id i none = disk_byte d id i
byte_of d frames id i (some k) = (frames k).bytes i

unfoldable pub view : Disk → BufferManager → PageId → ℕ → ℕ
view d b id i = byte_of d b.frames id i (b.page_map id)

-- What coherence is about: all of a frame but its pins and its second chance.
pub record SameContent (a b : Frame) : Type 0 where
  pub page_id : a.page_id ≡ b.page_id
  pub bytes : a.bytes ≡ b.bytes
  pub dirty : a.dirty ≡ b.dirty

pub record SameContents (b c : BufferManager) : Type 0 where
  pub frame_count : c.frame_count ≡ b.frame_count
  pub page_map : c.page_map ≡ b.page_map
  pub frames : (j : ℕ) → SameContent (c.frames j) (b.frames j)

pub SameBuffer-SameContents : (b c : BufferManager) → SameBuffer b c → SameContents b c
SameBuffer-SameContents b c s = record {
  frame_count = s.frame_count;
  page_map = s.page_map;
  frames = λ j. record {
    page_id = (s.frames j).page_id;
    bytes = (s.frames j).bytes;
    dirty = (s.frames j).dirty;
  };
}

SameContent-FrameIsCoherent :
    (d : Disk) (m : PageId → Option ℕ) (k : ℕ) (fr gr : Frame)
    → SameContent gr fr
    → FrameIsCoherent d m k fr
    → FrameIsCoherent d m k gr
SameContent-FrameIsCoherent d m k fr gr s co = record {
  complete = rw s.page_id co.complete;
  idle = rw (s.page_id, s.dirty) co.idle;
  clean = rw (s.page_id, s.dirty, s.bytes) co.clean;
  stored = rw s.page_id co.stored;
  bounded = rw s.page_id co.bounded;
}

pub SameContents-IsCoherent :
    (d : Disk) (b c : BufferManager) → SameContents b c → IsCoherent d b → IsCoherent d c
SameContents-IsCoherent d b c s co = record {
  aligned = co.aligned;
  sound = λ id k e.
      let (lt, at, a) = co.sound id k (rw s.page_map at e) in
      (rw s.frame_count lt, (s.frames k).page_id ∙ at, a);
  frames = λ k lt. rw s.page_map (
      SameContent-FrameIsCoherent d b.page_map k (b.frames k) (c.frames k) (s.frames k)
        (co.frames k (rw s.frame_count at lt)));
}

byte_of-SameContents :
    (d : Disk) (b c : BufferManager)
    → SameContents b c
    → (id : PageId) (i : ℕ) (o : Option ℕ) → byte_of d c.frames id i o ≡ byte_of d b.frames id i o
byte_of-SameContents d b c s id i none = refl
byte_of-SameContents d b c s id i (some k) = ap (λ (f : Bytes). f i) (s.frames k).bytes

pub SameContents-view :
    (d : Disk) (b c : BufferManager)
    → SameContents b c
    → (id : PageId) (i : ℕ) → view d c id i ≡ view d b id i
unfolding view
SameContents-view d b c s id i = rw s.page_map (byte_of-SameContents d b c s id i (b.page_map id))

-- Page `id` is in frame `k`, pinned, and no page has lost a byte on the way from `d` and `b`.
pub record Taken (d : Disk) (b : BufferManager) (id : PageId) (d' : Disk) (c : BufferManager)
    (k : ℕ) : Type 0 where
  pub inside : k < c.frame_count
  pub clock : c.clock < c.frame_count
  pub page_id : (c.frames k).page_id ≡ id
  pub pinned : 0 < (c.frames k).pins
  pub mapped : c.page_map id ≡ some k
  pub coherent : IsCoherent d' c
  pub view : (j : PageId) (i : ℕ) → i < size → view d' c j i ≡ view d b j i
