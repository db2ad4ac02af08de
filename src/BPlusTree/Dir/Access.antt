-- ===== src/BPlusTree/Dir/Access.antt =====
-- The children and the records of an inner node: a read over a write of the same index, of another,
-- and of the other kind.
use model_lib.Prelude.{ℕ, ◌+◌, ◌-◌, ◌*◌, ◌≤◌, ◌<◌, ◌≡◌, ◌≢◌, ◌⊎◌, refl, some, arith}
use model_lib.Prelude.Int.{ℤ, pos, negsuc, to_size, IsInt32}
use model_lib.Word.{int32_bytes}
use model_lib.Word.Laws.{length-int32_bytes}
use model_lib.Page.{Page, put}
use model_lib.Page.Access.{read_int32-Same, put_outside, write_int32_lem, read_int32-put_same}
use model_lib.BPlusTree.{BPlusTreeRecord, IsEntry}
use model_lib.BPlusTree.Leaf.Access.{
  put_entry, write_entry_lem, put_entry_outside, read_entry-put_entry, read_entry-Same,
  read_entry_total,
}
use model_lib.BPlusTree.Dir.{
  max_records, max_children, offset_record, child_offset, record_offset, get_child_count,
  set_child_count, get_child, set_child, get_record, set_record,
}

child_offset_lem : (i : ℕ) → i < max_children → child_offset (pos i) ≡ 4 + 4 * i
unfolding child_offset to_size
child_offset_lem i h = omega arith

record_offset_lem : (i : ℕ) → i < max_records → record_offset (pos i) ≡ offset_record + i * 16
unfolding record_offset to_size
record_offset_lem i h = omega arith

-- The offset of the record before the first lies among the children.
record_offset_wraps : record_offset (negsuc 0) ≡ offset_record - 16
unfolding record_offset to_size
record_offset_wraps = refl

pub with_child : Page → ℕ → ℤ → Page
with_child p i c = put p (4 + 4 * i) (int32_bytes c)

pub with_record : Page → ℕ → BPlusTreeRecord → Page
with_record p i r = put_entry p (offset_record + i * 16) r

pub with_count : Page → ℤ → Page
with_count p n = put p 0 (int32_bytes n)

module _ (p : Page) (i : ℕ) (c : ℤ) (inside : i < max_children) where
  pub set_child_lem : set_child p (pos i) c ≡ some (with_child p i c)
  unfolding set_child with_child
  set_child_lem = rw (child_offset_lem i inside) (write_int32_lem p (4 + 4 * i) c (omega arith))

  child_kept :
      (k : ℕ) → (k < 4 + 4 * i) ⊎ (4 + 4 * i + 4 ≤ k) → (with_child p i c).bytes k ≡ p.bytes k
  unfolding with_child
  child_kept k h = put_outside p (4 + 4 * i) (int32_bytes c) k (rw length-int32_bytes h)

  pub get_child-with_child_same : IsInt32 c → get_child (with_child p i c) (pos i) ≡ some c
  unfolding get_child with_child
  get_child-with_child_same r =
      rw (child_offset_lem i inside) (read_int32-put_same p (4 + 4 * i) c (omega arith) r)

  pub get_child-with_child_ne :
      (j : ℕ)
      → j < max_children
      → j ≢ i
      → get_child (with_child p i c) (pos j) ≡ get_child p (pos j)
  unfolding get_child
  get_child-with_child_ne j lt ne =
      rw (child_offset_lem j lt)
        (read_int32-Same (with_child p i c) p (4 + 4 * j) (λ k a b. child_kept k (omega arith)))

  pub get_record-with_child :
      (j : ℕ) → j < max_records → get_record (with_child p i c) (pos j) ≡ get_record p (pos j)
  unfolding get_record
  get_record-with_child j lt = rw (record_offset_lem j lt) (
      read_entry-Same (with_child p i c) p (offset_record + j * 16)
        (λ k a b. child_kept k (omega arith)))

  pub get_child_count-with_child : get_child_count (with_child p i c) ≡ get_child_count p
  unfolding get_child_count
  get_child_count-with_child =
      read_int32-Same (with_child p i c) p 0 (λ k a b. child_kept k (omega arith))

module _ (p : Page) (i : ℕ) (r : BPlusTreeRecord) (inside : i < max_records) where
  pub set_record_lem : set_record p (pos i) r ≡ some (with_record p i r)
  unfolding set_record with_record
  set_record_lem =
      rw (record_offset_lem i inside) (write_entry_lem p (offset_record + i * 16) r (omega arith))

  record_kept :
      (k : ℕ)
      → (k < offset_record + i * 16) ⊎ (offset_record + i * 16 + 16 ≤ k)
      → (with_record p i r).bytes k ≡ p.bytes k
  unfolding with_record
  record_kept k h = put_entry_outside p (offset_record + i * 16) r k h

  pub get_record-with_record_same : IsEntry r → get_record (with_record p i r) (pos i) ≡ some r
  unfolding get_record with_record
  get_record-with_record_same e =
      rw (record_offset_lem i inside)
        (read_entry-put_entry p (offset_record + i * 16) r (omega arith) e)

  pub get_record-with_record_ne :
      (j : ℕ)
      → j < max_records
      → j ≢ i
      → get_record (with_record p i r) (pos j) ≡ get_record p (pos j)
  unfolding get_record
  get_record-with_record_ne j lt ne = rw (record_offset_lem j lt) (
      read_entry-Same (with_record p i r) p (offset_record + j * 16)
        (λ k a b. record_kept k (omega arith)))

  pub get_child-with_record :
      (j : ℕ) → j < max_children → get_child (with_record p i r) (pos j) ≡ get_child p (pos j)
  unfolding get_child
  get_child-with_record j lt =
      rw (child_offset_lem j lt)
        (read_int32-Same (with_record p i r) p (4 + 4 * j) (λ k a b. record_kept k (omega arith)))

  pub get_child_count-with_record : get_child_count (with_record p i r) ≡ get_child_count p
  unfolding get_child_count
  get_child_count-with_record =
      read_int32-Same (with_record p i r) p 0 (λ k a b. record_kept k (omega arith))

module _ (p : Page) (n : ℤ) where
  pub set_child_count_lem : set_child_count p n ≡ some (with_count p n)
  unfolding set_child_count with_count
  set_child_count_lem = write_int32_lem p 0 n (omega arith)

  count_kept : (k : ℕ) → 4 ≤ k → (with_count p n).bytes k ≡ p.bytes k
  unfolding with_count
  count_kept k h = put_outside p 0 (int32_bytes n) k (rw length-int32_bytes (omega arith))

  pub get_child_count-with_count : IsInt32 n → get_child_count (with_count p n) ≡ some n
  unfolding get_child_count with_count
  get_child_count-with_count r = read_int32-put_same p 0 n (omega arith) r

  pub get_child-with_count :
      (j : ℕ) → j < max_children → get_child (with_count p n) (pos j) ≡ get_child p (pos j)
  unfolding get_child
  get_child-with_count j lt =
      rw (child_offset_lem j lt)
        (read_int32-Same (with_count p n) p (4 + 4 * j) (λ k a b. count_kept k (omega arith)))

  pub get_record-with_count :
      (j : ℕ) → j < max_records → get_record (with_count p n) (pos j) ≡ get_record p (pos j)
  unfolding get_record
  get_record-with_count j lt = rw (record_offset_lem j lt) (
      read_entry-Same (with_count p n) p (offset_record + j * 16)
        (λ k a b. count_kept k (omega arith)))

-- `get_record(-1)` reads bytes of the page.
pub get_record_before : (p : Page) → (r : BPlusTreeRecord) × (get_record p (negsuc 0) ≡ some r)
unfolding get_record
get_record_before p = rw record_offset_wraps (read_entry_total p (offset_record - 16) (omega arith))
