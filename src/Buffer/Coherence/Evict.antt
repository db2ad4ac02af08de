-- ===== src/Buffer/Coherence/Evict.antt =====
-- Writing a frame out before it takes another page: `get_page` in src/system/buffer_manager.cc.
use model_lib.Prelude.{
  ℕ, ◌≤◌, ◌<◌, ◌≡◌, ◌∙◌, inl, inr, refl, sym, true, false, some, if◌then◌else◌, arith, Bool-cases,
}
use model_lib.Page.{size}
use model_lib.FileManager.{PageId, same_id, Disk, count_pages}
use model_lib.FileManager.Laws.{
  IsAligned, disk_byte, last_page, saved, flush-saved, saved-IsAligned, disk_byte-saved,
  count_pages-le-saved, same_id_iff,
}
use model_lib.Buffer.{Frame, evict}

-- What it does to a page with `int` offsets.
unfoldable pub cleared : Disk → Frame → Disk × Frame
cleared d fr =
    if fr.dirty then (saved d fr.page_id fr.bytes, record fr { dirty = false }) else (d, fr)

pub evict-cleared :
    (d : Disk) (fr : Frame)
    → (fr.dirty ≡ true → fr.page_id.page_number < last_page)
    → evict d fr ≡ some (cleared d fr)
unfolding evict cleared
evict-cleared d fr bounded = elim (Bool-cases fr.dirty) [
  | inl e ↦ rw (e, flush-saved d fr.page_id fr.bytes (bounded e)) refl
  | inr e ↦ rw e refl
]

-- Writing a frame out.
module _ (d : Disk) (fr : Frame) where
  pub cleared_frame :
      ((cleared d fr).1.page_id ≡ fr.page_id)
      × ((cleared d fr).1.bytes ≡ fr.bytes)
      × ((cleared d fr).1.pins ≡ fr.pins)
      × ((cleared d fr).1.second_chance ≡ fr.second_chance)
      × ((cleared d fr).1.dirty ≡ false)
  unfolding cleared
  cleared_frame = elim (Bool-cases fr.dirty) [
    | inl e ↦ rw e (refl, refl, refl, refl, refl)
    | inr e ↦ rw e (refl, refl, refl, refl, refl)
  ]

  pub cleared-IsAligned : IsAligned d → IsAligned (cleared d fr).0
  unfolding cleared
  cleared-IsAligned a = elim (Bool-cases fr.dirty) [
    | inl e ↦ rw e (saved-IsAligned d fr.page_id fr.bytes a)
    | inr e ↦ rw e a
  ]

  pub count_pages-le-cleared : (f : ℕ) → count_pages d f ≤ count_pages (cleared d fr).0 f
  unfolding cleared
  count_pages-le-cleared f = ground (arith, count_pages-le-saved d fr.page_id fr.bytes f)

  pub cleared_clean : fr.dirty ≡ false → (cleared d fr).0 ≡ d
  unfolding cleared
  cleared_clean e = rw e

  -- Other pages keep their bytes, and the page of the frame has the frame's.
  pub disk_byte-cleared_ne :
      (j : PageId) (i : ℕ)
      → IsAligned d
      → i < size
      → same_id fr.page_id j ≡ false
      → disk_byte (cleared d fr).0 j i ≡ disk_byte d j i
  unfolding cleared
  disk_byte-cleared_ne j i a l ne = elim (Bool-cases fr.dirty) [
    | inl e ↦ rw e (disk_byte-saved d fr.page_id j fr.bytes i a l ∙ rw ne)
    | inr e ↦ rw e
  ]

  pub disk_byte-cleared_same :
      (i : ℕ)
      → IsAligned d
      → i < size
      → (fr.dirty ≡ false → fr.bytes i ≡ disk_byte d fr.page_id i)
      → disk_byte (cleared d fr).0 fr.page_id i ≡ fr.bytes i
  unfolding cleared
  disk_byte-cleared_same i a l same = elim (Bool-cases fr.dirty) [
    | inl e ↦ rw e (
        disk_byte-saved d fr.page_id fr.page_id fr.bytes i a l
        ∙ rw (same_id_iff fr.page_id fr.page_id).1 refl)
    | inr e ↦ rw e (sym (same e))
  ]
