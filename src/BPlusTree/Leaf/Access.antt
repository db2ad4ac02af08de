-- ===== src/BPlusTree/Leaf/Access.antt =====
-- The entries of a node: reads within the page succeed, and a read over a write.
use model_lib.Prelude.{ℕ, ◌+◌, ◌*◌, ◌≤◌, ◌<◌, ◌≡◌, ◌∙◌, ◌⊎◌, some, arith}
use model_lib.Prelude.Int.{pos, to_size}
use model_lib.Word.{int32_bytes, int64_bytes}
use model_lib.Word.Laws.{length-int32_bytes, length-int64_bytes}
use model_lib.Page.{Page, size, put}
use model_lib.Page.Access.{
  Same, read_int32-Same, read_int64-Same, put_outside, write_int32_lem, write_int64_lem,
  read_int32-put_same, read_int64-put_same, read_int32_total, read_int64_total,
}
use model_lib.BPlusTree.{BPlusTreeRecord, IsEntry}
use model_lib.BPlusTree.Leaf.{max_records, record_offset, read_entry, write_entry, get_record}

pub read_entry_total :
    (p : Page) (off : ℕ) → off + 16 ≤ size → (r : BPlusTreeRecord) × (read_entry p off ≡ some r)
unfolding read_entry
read_entry_total p off h =
    let (a, ea) = read_int64_total p off (omega arith) in
    let (b, eb) = read_int32_total p (off + 8) (omega arith) in
    let (c, ec) = read_int32_total p (off + 12) (omega arith) in
    (record { encoded_key = a; rid = record { page_num = b; dir_slot = c } }, rw (ea, eb, ec))

pub read_entry-Same :
    (p q : Page) (off : ℕ) → Same off (off + 16) p q → read_entry p off ≡ read_entry q off
unfolding read_entry
read_entry-Same p q off h = rw (
  read_int64-Same p q off (λ k a b. h k a (omega arith)),
  read_int32-Same p q (off + 8) (λ k a b. h k (omega arith) (omega arith)),
  read_int32-Same p q (off + 12) (λ k a b. h k (omega arith) (omega arith)),
)

-- The page after `write_entry`.
pub put_entry : Page → ℕ → BPlusTreeRecord → Page
put_entry p off r =
    put (put (put p off (int64_bytes r.encoded_key)) (off + 8) (int32_bytes r.rid.page_num))
      (off + 12) (int32_bytes r.rid.dir_slot)

module _ (p : Page) (off : ℕ) (r : BPlusTreeRecord) where
  pub write_entry_lem : off + 16 ≤ size → write_entry p off r ≡ some (put_entry p off r)
  unfolding write_entry put_entry
  write_entry_lem h = rw (
    write_int64_lem p off r.encoded_key (omega arith),
    write_int32_lem (put p off (int64_bytes r.encoded_key)) (off + 8) r.rid.page_num (omega arith),
    write_int32_lem
        (put (put p off (int64_bytes r.encoded_key)) (off + 8) (int32_bytes r.rid.page_num))
        (off + 12) r.rid.dir_slot (omega arith),
  )

  pub put_entry_outside :
      (k : ℕ) → (k < off) ⊎ (off + 16 ≤ k) → (put_entry p off r).bytes k ≡ p.bytes k
  unfolding put_entry
  put_entry_outside k h =
      put_outside
        (put (put p off (int64_bytes r.encoded_key)) (off + 8) (int32_bytes r.rid.page_num))
        (off + 12) (int32_bytes r.rid.dir_slot) k (rw length-int32_bytes (omega arith))
      ∙ put_outside (put p off (int64_bytes r.encoded_key)) (off + 8) (int32_bytes r.rid.page_num) k
          (rw length-int32_bytes (omega arith))
      ∙ put_outside p off (int64_bytes r.encoded_key) k (rw length-int64_bytes (omega arith))

  pub read_entry-put_entry :
      off + 16 ≤ size → IsEntry r → read_entry (put_entry p off r) off ≡ some r
  unfolding read_entry put_entry
  read_entry-put_entry h e =
      let p1 : Page = put p off (int64_bytes r.encoded_key) in
      let p2 : Page = put p1 (off + 8) (int32_bytes r.rid.page_num) in
      let p3 : Page = put p2 (off + 12) (int32_bytes r.rid.dir_slot) in
      rw (
        read_int64-Same p3 p2 off
            (λ k a b. put_outside p2 (off + 12) _ k (rw length-int32_bytes (omega arith))),
        read_int64-Same p2 p1 off
            (λ k a b. put_outside p1 (off + 8) _ k (rw length-int32_bytes (omega arith))),
        read_int64-put_same p off r.encoded_key (omega arith) e.key,
        read_int32-Same p3 p2 (off + 8)
            (λ k a b. put_outside p2 (off + 12) _ k (rw length-int32_bytes (omega arith))),
        read_int32-put_same p1 (off + 8) r.rid.page_num (omega arith) e.page,
        read_int32-put_same p2 (off + 12) r.rid.dir_slot (omega arith) e.slot,
      )

-- An index of the leaf keeps its record within the page.
pub record_offset_lem :
    (i : ℕ) → i < max_records → (record_offset (pos i) ≡ 8 + i * 16) × (8 + i * 16 + 16 ≤ size)
unfolding record_offset to_size
record_offset_lem i h = omega arith

pub get_record_total :
    (p : Page) (i : ℕ) → i < max_records → (r : BPlusTreeRecord) × (get_record p (pos i) ≡ some r)
unfolding get_record
get_record_total p i h =
    let (at, fits) = record_offset_lem i h in rw at (read_entry_total p (8 + i * 16) fits)
