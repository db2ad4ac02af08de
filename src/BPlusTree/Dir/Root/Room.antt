-- ===== src/BPlusTree/Dir/Root/Room.antt =====
-- The split of a child among the records and children of a full root.
use mathlib.Core.Path.{ap₂}
use model_lib.Prelude.{ℕ, ◌+◌, ◌-◌, ◌≤◌, ◌<◌, ◌≡◌, ◌∙◌, sym, ap, some, arith, dec_lt}
use model_lib.Prelude.Int.{ℤ, pos, pos_part, ◌-ℤ◌, IsInt32, pos--ℤ, pos-pred, eqb_ne, eqb_same}
use model_lib.Page.{Page}
use model_lib.BPlusTree.{BPlusTreeRecord, BPlusTreeSplit, IsEntry}
use model_lib.BPlusTree.Dir.{max_records, get_child, get_record, shift_right}
use model_lib.BPlusTree.Dir.Shift.{
  insert_at, insert_at_lt, insert_at_eq, insert_at_gt, Shifted, start, shift_right-Shifted,
  put_split, put_split_record, put_split_child, put_split_lem,
}
use model_lib.BPlusTree.Dir.Split.{Holds}
use model_lib.BPlusTree.Dir.Root.{RootRoom, shift_and_insert, make_room}

-- The records `record_at` and children `child_at`, of which the root has all but the last.
pub record HasRoom (room : RootRoom) (record_at : ℕ → BPlusTreeRecord) (child_at : ℕ → ℤ)
    : Type 0 where
  pub records : (i : ℕ) → i < max_records → get_record room.root (pos i) ≡ some (record_at i)
  pub children : (i : ℕ) → i ≤ max_records → get_child room.root (pos i) ≡ some (child_at i)
  pub last_record : room.last_record ≡ record_at max_records
  pub last_child : room.last_child ≡ child_at (max_records + 1)

-- One record less than a full node has.
abbrev n : ℕ
n = max_records - 1

below_max : n < max_records
below_max = omega arith

module _ (record_at : ℕ → BPlusTreeRecord) (child_at : ℕ → ℤ)
    (entries : (i : ℕ) → i < max_records → IsEntry (record_at i))
    (numbers : (i : ℕ) → i ≤ max_records → IsInt32 (child_at i)) (split : BPlusTreeSplit)
    (entry : IsEntry split.record_up) (page_number : IsInt32 split.encoded_page_number) (p : Page)
    (holds : Holds p max_records record_at child_at) (k : ℕ) where
  low_entries : (i : ℕ) → i < n → IsEntry (record_at i)
  low_entries i lt = entries i (omega arith)

  low_numbers : (i : ℕ) → i ≤ n → IsInt32 (child_at i)
  low_numbers i le = numbers i (omega arith)

  abbrev record_after : ℕ → BPlusTreeRecord
  record_after = insert_at k split.record_up record_at

  abbrev child_after : ℕ → ℤ
  child_after = insert_at (k + 1) split.encoded_page_number child_at

  -- The split is the last.
  last-HasRoom :
      k ≡ max_records
      → (room : RootRoom) × (make_room p (pos k) split ≡ some room)
        × HasRoom room record_after child_after
  unfolding make_room
  last-HasRoom e = (
    record { root = p; last_record = split.record_up; last_child = split.encoded_page_number },
    rw (
      holds.records n (omega arith),
      holds.children max_records (omega arith),
      eqb_same k max_records e,
    ),
    record {
      records = λ i lt.
          holds.records i lt
          ∙ ap some (sym (insert_at_lt k split.record_up record_at i (omega arith)));
      children = λ i le.
          holds.children i le
          ∙ ap some (sym (insert_at_lt (k + 1) split.encoded_page_number child_at i (omega arith)));
      last_record = sym (insert_at_eq k split.record_up record_at max_records (omega arith));
      last_child =
          sym (
            insert_at_eq (k + 1) split.encoded_page_number child_at (max_records + 1)
              (omega arith));
    },
  )

  module _ (lt : k < max_records) where
    shifted :
        (q : Page) × (shift_right (pos_part (pos n -ℤ pos k)) (pos n) p ≡ some q)
        × Shifted n record_at child_at below_max low_entries low_numbers q (k + 1)
    shifted =
        let m : ℕ = n - k in
        let whole : k + 1 + m ≡ n + 1 = omega arith in
        let last : pos (k + 1 + m) -ℤ pos 1 ≡ pos n =
          ap (λ u. pos u -ℤ pos 1) whole ∙ pos-pred (n + 1) (omega arith) in
        let rounds : pos_part (pos n -ℤ pos k) ≡ m = ap pos_part (pos--ℤ n k (omega arith)) in
        let (q, done, s) =
          shift_right-Shifted n record_at child_at below_max low_entries low_numbers (k + 1) m p
            (omega arith)
            (rw whole (
              start n record_at child_at below_max low_entries low_numbers p
                (λ i l. holds.records i (omega arith)) (λ i l. holds.children i (omega arith)))) in
        (q, ap₂ (λ r z. shift_right r z p) rounds (sym last) ∙ done, s)

    abbrev after : Page → Page
    after q =
        put_split n record_at child_at below_max low_entries low_numbers k (omega arith) split entry
          page_number q

    after_done :
        (q : Page)
        → shift_right (pos_part (pos n -ℤ pos k)) (pos n) p ≡ some q
        → shift_and_insert p (pos k) split ≡ some (after q)
    unfolding shift_and_insert
    after_done q done = rw done (
        put_split_lem n record_at child_at below_max low_entries low_numbers k (omega arith) split
          entry page_number q)

    shifted-HasRoom :
        (room : RootRoom) × (make_room p (pos k) split ≡ some room)
        × HasRoom room record_after child_after
    unfolding make_room
    shifted-HasRoom =
        let (q, done, s) = shifted in
        (
          record { root = after q; last_record = record_at n; last_child = child_at max_records },
          rw (
            holds.records n (omega arith),
            holds.children max_records (omega arith),
            eqb_ne k max_records lt,
            after_done q done,
          ),
          record {
            records = λ i l.
                put_split_record n record_at child_at below_max low_entries low_numbers k
                  (omega arith) split entry page_number q (k + 1) (omega arith) (omega arith) s i
                  (omega arith);
            children = λ i l.
                put_split_child n record_at child_at below_max low_entries low_numbers k
                  (omega arith) split entry page_number q (k + 1) (omega arith) (omega arith) s i
                  (omega arith);
            last_record = sym (insert_at_gt k split.record_up record_at max_records lt);
            last_child = sym (
                insert_at_gt (k + 1) split.encoded_page_number child_at (max_records + 1)
                  (omega arith));
          },
        )

  pub make_room-HasRoom :
      k ≤ max_records
      → (room : RootRoom) × (make_room p (pos k) split ≡ some room)
        × HasRoom room record_after child_after
  make_room-HasRoom le = elim (dec_lt k max_records) [
    | yes lt ↦ shifted-HasRoom lt
    | no ge ↦ last-HasRoom (omega arith)
  ]
