-- ===== src/Buffer.antt =====
-- src/system/buffer_manager.{h,cc} and the frame state of src/storage/page.h: the frames, the map from
-- page identifiers to frames, and the clock. Frames are a function of their index, which the code
-- keeps below `frame_count`; `page_map` is a function into the frames' indices. A failed `assert` is
-- `none`. The lock of `get_page` makes each call one step.
pub mod Clock
pub mod Coherence
pub mod Life
pub mod Overflow
use model_lib.Prelude.{
  ℕ, zero, suc, ◌+◌, ◌-◌, ◌*◌, Bool, true, false, not, ◌&&◌, Option, none, some, ltb, ◌==◌,
  if◌then◌else◌, assert, ◌>>=◌, ◌>>◌,
}
use model_lib.Page.{Bytes}
use model_lib.FileManager.{PageId, page_id, same_id, unassigned, Disk, count_pages, read_page}
use model_lib.FileManager

-- `class Page`
pub record Frame : Type 0 where
  pub page_id : PageId
  pub bytes : Bytes
  pub pins : ℕ
  pub second_chance : Bool
  pub dirty : Bool

pub record BufferManager : Type 0 where
  pub clock : ℕ
  pub frame_count : ℕ
  pub frames : ℕ → Frame
  pub page_map : PageId → Option ℕ

abbrev pub set_frame : BufferManager → ℕ → Frame → BufferManager
set_frame b k fr = record b { frames = λ j. if k == j then fr else b.frames j }

-- `page_map.erase`, and `page_map.insert` of a key that is not in the map.
abbrev pub erase : (PageId → Option ℕ) → PageId → PageId → Option ℕ
erase m id j = if same_id id j then none else m j

abbrev pub insert : (PageId → Option ℕ) → PageId → ℕ → PageId → Option ℕ
insert m id k j = if same_id id j then some k else m j

-- `Page::pin` and `Page::unpin`
unfoldable pub pin : Frame → Frame
pin fr = record fr { pins = fr.pins + 1; second_chance = true }

unfoldable pub unpin : Frame → Option Frame
unpin fr = do assert (ltb 0 fr.pins); some (record fr { pins = fr.pins - 1 })

-- `Page::reassign`
unfoldable pub reassign : Frame → PageId → Option Frame
reassign fr id = do
  assert (not fr.dirty)
  assert (fr.pins == 0)
  assert (not fr.second_chance)
  some (record fr { page_id = id; pins = 1; second_chance = true })

-- The frame under the clock loses its second chance.
unfoldable pub clear_chance : BufferManager → BufferManager
clear_chance b = set_frame b b.clock (record (b.frames b.clock) { second_chance = false })

-- `clock++; clock = clock < frame_count ? clock : 0;`
unfoldable pub advance : BufferManager → BufferManager
advance b = record b { clock = if ltb (b.clock + 1) b.frame_count then b.clock + 1 else 0 }

-- The loop of `get_unused_page`, which stops at the frame under the clock; `none` once the fuel ran
-- out.
unfoldable pub unused_loop : ℕ → BufferManager → Option BufferManager
unused_loop zero b = none
unused_loop (suc fuel) b =
    let fr = b.frames b.clock in
    let cleared = unused_loop fuel (advance (clear_chance b)) in
    let next = unused_loop fuel (advance b) in
    if fr.pins == 0 then (if fr.second_chance then cleared else some b) else next

-- Two rounds of the clock, and one step.
unfoldable pub get_unused_page : BufferManager → Option BufferManager
get_unused_page b = unused_loop (b.frame_count + b.frame_count + 1) b

-- A page that is in no frame: the victim leaves the map, is written if it is dirty, and takes the
-- page in.
unfoldable pub evict : Disk → Frame → Option (Disk × Frame)
evict d fr =
    let clean =
      FileManager.flush d fr.page_id fr.bytes >>= (λ d'. some (d', record fr { dirty = false })) in
    if fr.dirty then clean else some (d, fr)

-- The map once the page of the frame under the clock has left it.
unfoldable pub forget_victim : BufferManager → PageId → Option ℕ
forget_victim b =
    let old = (b.frames b.clock).page_id in
    if old.file_id == unassigned then b.page_map else erase b.page_map old

-- The frame under the clock takes the page in.
unfoldable pub take_frame : Disk → BufferManager → PageId → Option (Disk × BufferManager × ℕ)
take_frame d b id = do
  let map' = forget_victim b
  (d', clean) ← evict d (b.frames b.clock)
  taken ← reassign clean id
  (d'', bytes) ← read_page d' id
  let loaded =
      set_frame (record b { page_map = insert map' id b.clock }) b.clock
        (record taken { bytes = bytes })
  some (d'', loaded, b.clock)

unfoldable pub load_page : Disk → BufferManager → PageId → Option (Disk × BufferManager × ℕ)
load_page d b id = do b' ← get_unused_page b; take_frame d b' id

-- A page that is in a frame is pinned there.
abbrev pub get_page_at :
    Disk → BufferManager → PageId → Option ℕ → Option (Disk × BufferManager × ℕ)
get_page_at d b id none = load_page d b id
get_page_at d b id (some k) = some (d, set_frame b k (pin (b.frames k)), k)

unfoldable pub get_page : Disk → BufferManager → ℕ → ℕ → Option (Disk × BufferManager × ℕ)
get_page d b file_id page_number = do
  id ← page_id file_id page_number
  get_page_at d b id (b.page_map id)

unfoldable pub append_page : Disk → BufferManager → ℕ → Option (Disk × BufferManager × ℕ)
append_page d b f = get_page d b f (count_pages d f)

-- One round of `flush`.
unfoldable pub flush_frame : Disk → BufferManager → ℕ → Option (Disk × BufferManager)
flush_frame d b i = do
  assert ((b.frames i).pins == 0)
  (d', fr) ← evict d (b.frames i)
  some (d', set_frame b i fr)

-- `for (i = 0; i < frame_count; i++)`, by the rounds left and the index.
unfoldable pub flush_loop : ℕ → ℕ → Disk → BufferManager → Option (Disk × BufferManager)
flush_loop zero i d b = some (d, b)
flush_loop (suc n) i d b = do (d', b') ← flush_frame d b i; flush_loop n (i + 1) d' b'

unfoldable pub flush : Disk → BufferManager → Option (Disk × BufferManager)
flush d b = flush_loop b.frame_count 0 d b
