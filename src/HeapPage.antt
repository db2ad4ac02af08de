-- ===== src/HeapPage.antt =====
-- src/storage/heap_file/heap_file_page.cc: a page of records. The page holds the number of its slots,
-- its free space, the slots, then the free space, and the records up to the end of the page. A slot
-- holds its record's offset, or -1 once the record is deleted. A failed `assert` of the page's reads
-- and writes is `none`. `HeapFilePage` holds nothing but its page, which an operation returns.
pub mod Encoding
mod Values
pub mod Layout
mod Place
mod Search
pub mod Insert
pub mod Delete
pub mod Vacuum
pub mod Sound
use model_lib.Prelude.{
  ℕ, zero, suc, ◌+◌, ◌*◌, ◌-◌, ◌%◌, ◌^◌, Bool, true, false, not, ◌&&◌, ◌||◌, Option, none, some,
  List, [], ◌∷◌, map, ltb, if◌then◌else◌, length, take, assert, ◌>>=◌, ◌>>◌,
}
use model_lib.Prelude.Int.{ℤ, pos, negsuc, ◌+ℤ◌, ◌-ℤ◌, ltb_ℤ, eqb_ℤ, pos_part, times_four, to_size}
use model_lib.Page.{
  Page, Bytes, size, read, read_uint8, read_int32, read_int64, write, write_int8, write_int32,
  write_int64,
}
use model_lib.Value.{DataType, str, int, Value, as_str, as_int, c_str}

unfoldable pub get_dir_count : Page → Option ℤ
get_dir_count p = read_int32 p 0

unfoldable pub get_free_space : Page → Option ℤ
get_free_space p = read_int32 p 4

unfoldable pub get_dir : Page → ℕ → Option ℤ
get_dir p idx = read_int32 p (8 + 4 * idx)

unfoldable pub set_dir_count : Page → ℤ → Option Page
set_dir_count p n = write_int32 p 0 n

unfoldable pub set_free_space : Page → ℤ → Option Page
set_free_space p n = write_int32 p 4 n

unfoldable pub set_dir : Page → ℕ → ℤ → Option Page
set_dir p idx n = write_int32 p (8 + 4 * idx) n

-- The constructor: a page of zeros becomes an empty page of records.
unfoldable pub init : Page → Option Page
init p = do
  count ← get_dir_count p
  free ← get_free_space p
  if eqb_ℤ count (pos 0) && eqb_ℤ free (pos 0) then set_free_space p (pos (size - 8)) else some p

-- The loop of `get_record` over the datatypes of `out`.
unfoldable pub read_values : List DataType → Page → ℕ → Option (List Value)
read_values [] p off = some []
read_values (int ∷ types) p off = do
  z ← read_int64 p off
  rest ← read_values types p (off + 8)
  some (as_int z ∷ rest)
read_values (str ∷ types) p off = do
  len ← read_uint8 p off
  bytes ← read p (off + 1) len
  rest ← read_values types p (off + 1 + len)
  some (as_str (c_str bytes) ∷ rest)

-- The inner `none` is the answer `false`; `out` is then left alone.
unfoldable pub get_record : Page → ℕ → List DataType → Option (Option (List Value))
get_record p dir_pos types = do
  offset ← get_dir p dir_pos
  if not (ltb_ℤ (pos 0) offset)
      then some none
      else do values ← read_values types p (to_size offset); some (some values)

unfoldable pub delete_record : Page → ℕ → Option Page
delete_record p dir_pos = set_dir p dir_pos (negsuc 0)

-- `needed_record_size`: a string takes a byte more, for its length.
unfoldable pub record_size : List Value → ℕ
record_size [] = 0
record_size (as_int z ∷ vs) = 8 + record_size vs
record_size (as_str s ∷ vs) = 1 + length s + record_size vs

-- The search of `try_insert_record` for a slot to reuse: the first that is free, or the count.
-- `none` stands for a failed assert, and for fuel that ran out.
unfoldable pub find_dir : ℕ → Page → ℤ → ℕ → Option ℕ
find_dir zero p count dir_pos = none
find_dir (suc fuel) p count dir_pos = do
  offset ← get_dir p dir_pos
  let next = find_dir fuel p count (dir_pos + 1)
  if ltb_ℤ (pos 0) offset && ltb_ℤ (pos dir_pos) count then next else some dir_pos

-- The loop of `try_insert_record` over the values.
unfoldable pub write_values : List Value → Page → ℕ → Option Page
write_values [] p off = some p
write_values (as_int z ∷ vs) p off = do p' ← write_int64 p off z; write_values vs p' (off + 8)
write_values (as_str s ∷ vs) p off = do
  let len = length s % 256
  p' ← write_int8 p off len
  p'' ← write p' (off + 1) (take len s)
  write_values vs p'' (off + 1 + len)

-- From the moment that the slot and the new counts are known.
unfoldable pub place : Page → ℕ → ℤ → ℤ → List Value → Option Page
place p dir_pos count free vs = do
  p' ← set_free_space p free
  let offset = pos 8 +ℤ times_four count +ℤ free
  p'' ← set_dir p' dir_pos offset
  write_values vs p'' (to_size offset)

-- The branch for a slot to reuse.
unfoldable pub reuse_dir : Page → ℕ → ℤ → ℤ → List Value → Option (Page × Option ℕ)
reuse_dir p dir_pos count free vs =
    if ltb_ℤ free (pos (record_size vs))
    then some (p, none)
    else do p' ← place p dir_pos count (free -ℤ pos (record_size vs)) vs; some (p', some dir_pos)

-- The branch for a new slot, which takes four bytes itself.
unfoldable pub append_dir : Page → ℕ → ℤ → ℤ → List Value → Option (Page × Option ℕ)
append_dir p dir_pos count free vs =
    if ltb_ℤ free (pos (record_size vs + 4)) then some (p, none) else do
      p' ← set_dir_count p (count +ℤ pos 1)
      p'' ← place p' dir_pos (count +ℤ pos 1) (free -ℤ pos (record_size vs + 4)) vs
      some (p'', some dir_pos)

-- The page and the slot of the record, or the page left alone and the answer `false`.
unfoldable pub try_insert_record : Page → List Value → Option (Page × Option ℕ)
try_insert_record p vs = do
  count ← get_dir_count p
  dir_pos ← find_dir (suc (pos_part count)) p count 0
  free ← get_free_space p
  if ltb_ℤ (pos dir_pos) count
      then reuse_dir p dir_pos count free vs
      else append_dir p dir_pos count free vs
