-- ===== src/HeapPage/Vacuum.antt =====
-- `vacuum` of src/storage/heap_file/heap_file_page.cc: the records of the slots that are not deleted
-- are copied one after the other into a new page, which then takes the old one's place.
pub mod Live
mod Loop
pub mod Whole
use model_lib.Prelude.{
  ℕ, zero, suc, ◌+◌, ◌*◌, ◌-◌, Bool, Option, none, some, List, map, leb, if◌then◌else◌, length,
  assert, ◌>>=◌, ◌>>◌,
}
use model_lib.Prelude.Int.{ℤ, pos, ◌+ℤ◌, ◌-ℤ◌, ltb_ℤ, pos_part, to_size}
use model_lib.Word.{int32_bytes}
use model_lib.Page.{Page, Bytes, size, load, store, read, write}
use model_lib.Value.{DataType, Value, default_value}
use model_lib.HeapPage.{
  get_dir_count, get_dir, set_dir_count, set_free_space, get_record, record_size,
}

-- The variables of `vacuum` that its loop changes.
pub record Copy : Type 0 where
  pub dir_count : ℕ
  pub free_space : ℤ
  pub page_buf : Bytes
  pub record_buf : List Value

-- What `get_record` leaves in the record that it is given.
unfoldable pub fill : Option (List Value) → List Value → List Value
fill none old = old
fill (some vs) old = vs

-- A write into `page_buf`; one outside of it, which C++ leaves undefined, is `none`.
unfoldable pub copy_in : Bytes → ℕ → List ℕ → Option Bytes
copy_in m off xs = do assert (leb (off + length xs) size); some (store m off xs)

-- The end of a round, for the record that `record_buf` holds then; `d` is its slot.
unfoldable pub copy_record : Page → ℤ → Copy → List Value → Option Copy
copy_record p d c vs = do
  let free = c.free_space -ℤ pos (record_size vs + 4)
  let offset = pos (8 + 4 * (c.dir_count + 1)) +ℤ free
  with_dir ← copy_in c.page_buf (8 + 4 * c.dir_count) (int32_bytes offset)
  bytes ← read p (to_size d) (record_size vs)
  buf ← copy_in with_dir (to_size offset) bytes
  some (record { dir_count = c.dir_count + 1; free_space = free; page_buf = buf; record_buf = vs })

-- One round of the loop, for the slot `i`.
unfoldable pub vacuum_slot : List DataType → Page → ℕ → Copy → Option Copy
vacuum_slot types p i c = do
  d ← get_dir p i
  let kept = do found ← get_record p i types; copy_record p d c (fill found c.record_buf)
  if ltb_ℤ d (pos 0) then some c else kept

-- The loop from the slot `i` on, of which `n` are left.
unfoldable pub vacuum_loop : ℕ → List DataType → Page → ℕ → Copy → Option Copy
vacuum_loop zero types p i c = some c
vacuum_loop (suc n) types p i c = do c' ← vacuum_slot types p i c; vacuum_loop n types p (suc i) c'

-- `raw` is what the memory from `new char[Page::SIZE]` happens to hold.
unfoldable pub vacuum_start : Bytes → List DataType → Copy
vacuum_start raw types = record {
  dir_count = 0;
  free_space = pos (size - 8);
  page_buf = raw;
  record_buf = map default_value types;
}

unfoldable pub vacuum : Bytes → List DataType → Page → Option Page
vacuum raw types p = do
  count ← get_dir_count p
  c ← vacuum_loop (pos_part count) types p 0 (vacuum_start raw types)
  p' ← write p 0 (load c.page_buf 0 size)
  p'' ← set_dir_count p' (pos c.dir_count)
  set_free_space p'' c.free_space
