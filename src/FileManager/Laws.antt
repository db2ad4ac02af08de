-- ===== src/FileManager/Laws.antt =====
-- What a saved and a read do to the pages on disk.
use model_lib.Prelude.{
  ℕ, ◌+◌, ◌-◌, ◌*◌, ◌/◌, ◌%◌, ◌^◌, ◌≤◌, ◌<◌, ◌≡◌, ◌↔◌, refl, true, none, some, ltb, leb,
  if◌then◌else◌, arith, Bool-cases, inl, inr,
}
use model_lib.Page.{Bytes, size}
use model_lib.FileManager.{
  PageId, page_id, same_id, Disk, update_file, write_at, truncate, count_pages, int_product, flush,
  grow, read_page,
}

-- Every file is a whole number of pages.
abbrev pub IsAligned : Disk → Type 0
IsAligned d = (f : ℕ) → (d f).length % size ≡ 0

-- Byte `i` of a page, as the disk has it; a page behind the end of its file is all zeros.
unfoldable pub disk_byte : Disk → PageId → ℕ → ℕ
disk_byte d id i =
    if ltb id.page_number (count_pages d id.file_id)
    then (d id.file_id).content (id.page_number * size + i)
    else 0

-- Every offset up to the end of a page with a lower number is an `int`.
abbrev pub last_page : ℕ
last_page = 2 ^ 19 - 1

-- What `flush` and `read_page` do to pages with lower numbers.
unfoldable pub saved : Disk → PageId → Bytes → Disk
saved d id page = update_file d id.file_id (write_at (d id.file_id) (id.page_number * size) page)

unfoldable pub fetched : Disk → PageId → Disk × Bytes
fetched d id =
    if leb ((d id.file_id).length / size) id.page_number
    then (update_file d id.file_id (truncate (d id.file_id) (size * (id.page_number + 1))), λ i. 0)
    else (d, λ i. (d id.file_id).content (id.page_number * size + i))

pub page_id_lem :
    (id : PageId) → id.page_number < last_page → page_id id.file_id id.page_number ≡ some id
unfolding page_id
page_id_lem id h = ground arith

int_product_lem : (a b : ℕ) → a * b < 2 ^ 31 → int_product a b ≡ some (a * b)
unfolding int_product
int_product_lem a b h = ground arith

pub flush-saved :
    (d : Disk) (id : PageId) (page : Bytes)
    → id.page_number < last_page
    → flush d id page ≡ some (saved d id page)
unfolding flush saved
flush-saved d id page h = rw (int_product_lem id.page_number size (omega arith)) refl

pub read_page-fetched :
    (d : Disk) (id : PageId) → id.page_number < last_page → read_page d id ≡ some (fetched d id)
unfolding read_page grow fetched
read_page-fetched d id h =
    rw
      (
        int_product_lem id.page_number size (omega arith),
        int_product_lem size (id.page_number + 1) (omega arith),
      )
      (elim (Bool-cases (leb ((d id.file_id).length / size) id.page_number)) [
        | inl e ↦ rw e refl
        | inr e ↦ rw e refl
      ])

-- From the page 2 ^ 19 on no offset is an `int`.
int_product-none : (a : ℕ) → 2 ^ 19 ≤ a → int_product a size ≡ none
unfolding int_product
int_product-none a h = ground arith

pub flush-none :
    (d : Disk) (id : PageId) (page : Bytes) → 2 ^ 19 ≤ id.page_number → flush d id page ≡ none
unfolding flush
flush-none d id page h = rw (int_product-none id.page_number h) refl

pub read_page-none : (d : Disk) (id : PageId) → 2 ^ 19 ≤ id.page_number → read_page d id ≡ none
unfolding read_page
read_page-none d id h = rw (int_product-none id.page_number h) refl

-- Reading a page gives its bytes.
pub fetched_lem :
    (d : Disk) (id : PageId) (i : ℕ) → i < size → (fetched d id).1 i ≡ disk_byte d id i
unfolding fetched disk_byte count_pages
fetched_lem d id i h = ground arith

pub fetched-IsAligned : (d : Disk) (id : PageId) → IsAligned d → IsAligned (fetched d id).0
unfolding fetched truncate
fetched-IsAligned d id a f = ground (arith, a f)

-- If every file is a whole number of pages, reading a page changes no byte of any page, also when
-- it makes the file longer.
pub disk_byte-fetched :
    (d : Disk) (id j : PageId) (i : ℕ)
    → IsAligned d
    → i < size
    → disk_byte (fetched d id).0 j i ≡ disk_byte d j i
unfolding fetched disk_byte count_pages truncate
disk_byte-fetched d id j i a h = ground (arith, a id.file_id)

-- After it, the file has the page.
pub count_pages-fetched :
    (d : Disk) (id : PageId) → id.page_number < count_pages (fetched d id).0 id.file_id
unfolding fetched count_pages truncate
count_pages-fetched d id = ground arith

pub saved-IsAligned :
    (d : Disk) (id : PageId) (page : Bytes) → IsAligned d → IsAligned (saved d id page)
unfolding saved write_at
saved-IsAligned d id page a f = ground (arith, a f, a id.file_id)

-- If every file is a whole number of pages, flushing a page writes its bytes and changes no other
-- page.
pub disk_byte-saved :
    (d : Disk) (id j : PageId) (page : Bytes) (i : ℕ)
    → IsAligned d
    → i < size
    → disk_byte (saved d id page) j i ≡ (if same_id id j then page i else disk_byte d j i)
unfolding saved disk_byte count_pages write_at
disk_byte-saved d id j page i a h = ground (arith, a id.file_id)

-- No file gets shorter.
pub count_pages-le-saved :
    (d : Disk) (id : PageId) (page : Bytes) (f : ℕ)
    → count_pages d f ≤ count_pages (saved d id page) f
unfolding saved count_pages write_at
count_pages-le-saved d id page f = ground arith

pub count_pages-le-fetched :
    (d : Disk) (id : PageId) (f : ℕ) → count_pages d f ≤ count_pages (fetched d id).0 f
unfolding fetched count_pages truncate
count_pages-le-fetched d id f = ground arith

pub same_id_iff : (a b : PageId) → (same_id a b ≡ true) ↔ (a ≡ b)
same_id_iff a b = ground arith
