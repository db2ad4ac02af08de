-- ===== src/FileManager.antt =====
-- src/system/file_manager.{h,cc} and src/storage/page_id.h: pages of files on disk. A file is a size
-- and bytes; `lseek`, `read`, `write` and `ftruncate` are taken to succeed. Offsets are computed in
-- `int`: a product that an `int` does not hold has no meaning in the language, and is `none`.
pub mod Laws
use model_lib.Prelude.{
  ℕ, zero, suc, ◌+◌, ◌-◌, ◌*◌, ◌/◌, ◌%◌, ◌^◌, Bool, true, false, ◌&&◌, Option, none, some, ltb, leb,
  ◌==◌, if◌then◌else◌, ◌≡◌, ◌>>=◌,
}
use Prim.Native.Nat.{max}
use model_lib.Page.{Bytes, size}

-- `FileId::UNASSIGNED`
abbrev pub unassigned : ℕ
unassigned = 2 ^ 31 - 1

pub record PageId : Type 0 where
  pub file_id : ℕ
  pub page_number : ℕ

-- `PageId::operator==`
abbrev pub same_id : PageId → PageId → Bool
same_id a b = a.file_id == b.file_id && a.page_number == b.page_number

-- `PageId::PageId`, which narrows the number to an `int32_t`; a number that turns negative, at whose
-- offset no page can be, is `none`.
unfoldable pub page_id : ℕ → ℕ → Option PageId
page_id file_id page_number =
    let narrowed = page_number % 2 ^ 32 in
    if ltb narrowed (2 ^ 31)
    then some (record { file_id = file_id; page_number = narrowed })
    else none

-- A product of two numbers in `int`.
unfoldable pub int_product : ℕ → ℕ → Option ℕ
int_product a b = if ltb (a * b) (2 ^ 31) then some (a * b) else none

pub record DiskFile : Type 0 where
  pub length : ℕ
  pub content : Bytes

-- The files, by their descriptor.
abbrev pub Disk : Type 0
Disk = ℕ → DiskFile

abbrev pub update_file : Disk → ℕ → DiskFile → Disk
update_file d f file g = if f == g then file else d g

-- `write` of one page at an offset: a gap behind the old end reads as zeros.
unfoldable pub write_at : DiskFile → ℕ → Bytes → DiskFile
write_at file off page = record {
  length = max file.length (off + size);
  content = λ i.
      if leb off i && ltb i (off + size)
      then page (i - off)
      else if ltb i file.length
      then file.content i
      else 0;
}

-- `ftruncate` to a greater length.
unfoldable pub truncate : DiskFile → ℕ → DiskFile
truncate file n = record {
  length = n;
  content = λ i. if ltb i file.length then file.content i else 0;
}

unfoldable pub count_pages : Disk → ℕ → ℕ
count_pages d f = (d f).length / size

-- `FileManager::flush`, on the identifier and the bytes of the page.
unfoldable pub flush : Disk → PageId → Bytes → Option Disk
flush d id page = do
  offset ← int_product id.page_number size
  some (update_file d id.file_id (write_at (d id.file_id) offset page))

-- A page behind the end of its file: the file grows, and the bytes are zeros.
unfoldable pub grow : Disk → PageId → Option (Disk × Bytes)
grow d id = do
  length ← int_product size (id.page_number + 1)
  some (update_file d id.file_id (truncate (d id.file_id) length), λ i. 0)

-- `FileManager::read_page`: the disk after it, and the bytes read.
unfoldable pub read_page : Disk → PageId → Option (Disk × Bytes)
read_page d id = do
  offset ← int_product id.page_number size
  let grown = grow d id
  if leb ((d id.file_id).length / size) id.page_number
      then grown
      else some (d, λ i. (d id.file_id).content (offset + i))
