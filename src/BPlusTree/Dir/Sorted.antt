-- ===== src/BPlusTree/Dir/Sorted.antt =====
-- Case 1 of `BPlusTreeDir::insert_record`: the search for the place of a child's split, and the
-- insertion there.
use model_lib.Prelude.{
  ℕ, suc, ◌+◌, ◌-◌, ◌≤◌, ◌<◌, ◌≡◌, ◌≢◌, ◌∙◌, ap, sym, true, some, arith, dec_lt, ℕ_discrete,
  Bool-cases, inl, inr,
}
use model_lib.Prelude.Int.{ℤ, pos, IsInt32}
use model_lib.Page.{Page}
use model_lib.BPlusTree.{BPlusTreeRecord, BPlusTreeSplit, IsEntry, less}
use model_lib.BPlusTree.Order.{less_total}
use model_lib.BPlusTree.Dir.{
  max_records, max_children, get_child_count, search_child_idx, insert_split,
}
use model_lib.BPlusTree.Dir
use model_lib.BPlusTree.Dir.Search.{IsDir, Routes, search_child_idx-Routes}
use model_lib.BPlusTree.Dir.Shift.{insert_at, insert_at_lt, insert_at_eq, insert_at_gt}
use model_lib.BPlusTree.Dir.Split.{Holds, insert_split-Holds}

module _ (x : BPlusTreeRecord) (n k : ℕ) (record_at : ℕ → BPlusTreeRecord)
    (sorted : (i j : ℕ) → i < j → j < n → less (record_at i) (record_at j) ≡ true)
    (routes : Routes x n record_at k) (other : (i : ℕ) → i < n → record_at i ≢ x) where
  abbrev inserted : ℕ → BPlusTreeRecord
  inserted = insert_at k x record_at

  left_of : (i : ℕ) → i < k → less (record_at i) x ≡ true
  left_of i lt = elim (Bool-cases (less (record_at i) x)) [
    | inl e ↦ e
    | inr e ↦ absurd (
        other i (let b = routes.inside in omega arith)
          (sym (less_total x (record_at i) (routes.left i lt) e)))
  ]

  inserted_before : (i j : ℕ) → i < j → j < suc n → i < k → less (record_at i) (inserted j) ≡ true
  inserted_before i j l lt a = elim (dec_lt j k) [
    | yes b ↦
        rw (insert_at_lt k x record_at j b) (sorted i j l (let r = routes.inside in omega arith))
    | no b ↦ elim (ℕ_discrete j k) [
      | yes e ↦ rw (insert_at_eq k x record_at j e) (left_of i a)
      | no ne ↦
          rw (insert_at_gt k x record_at j (omega arith))
            (sorted i (j - 1) (omega arith) (omega arith))
    ]
  ]

  -- The records stay in order.
  inserted_sorted : (i j : ℕ) → i < j → j < suc n → less (inserted i) (inserted j) ≡ true
  inserted_sorted i j l lt = elim (dec_lt i k) [
    | yes a ↦ rw (insert_at_lt k x record_at i a) (inserted_before i j l lt a)
    | no a ↦ rw (insert_at_gt k x record_at j (omega arith)) (elim (ℕ_discrete i k) [
      | yes e ↦
          rw (insert_at_eq k x record_at i e) (routes.right (j - 1) (omega arith) (omega arith))
      | no ne ↦
          rw (insert_at_gt k x record_at i (omega arith))
            (sorted (i - 1) (j - 1) (omega arith) (omega arith))
    ])
  ]

-- A sorted inner node with room, whose records and children fit their fields, takes in the split
-- of a child: the place that `search_child_idx` finds for the split's record, which the node does
-- not hold yet, is the one where the record keeps the node sorted, and the new page becomes the
-- child right of it.
pub insert_split-IsDir :
    (p : Page) (n : ℕ) (record_at : ℕ → BPlusTreeRecord) (child_at : ℕ → ℤ) (split : BPlusTreeSplit)
    → n < max_records
    → IsDir p n record_at
    → Holds p n record_at child_at
    → ((i : ℕ) → i < n → IsEntry (record_at i))
    → ((i : ℕ) → i ≤ n → IsInt32 (child_at i))
    → IsEntry split.record_up
    → IsInt32 split.encoded_page_number
    → ((i : ℕ) → i < n → record_at i ≢ split.record_up)
    → (k : ℕ) × (q : Page) × (search_child_idx p split.record_up ≡ some (pos k))
      × (insert_split p (pos (suc n)) (pos k) split ≡ some q)
      × IsDir q (suc n) (insert_at k split.record_up record_at)
      × ((i : ℕ)
          → i ≤ suc n
          → Dir.get_child q (pos i) ≡ some (insert_at (k + 1) split.encoded_page_number child_at i))
insert_split-IsDir p n record_at child_at split room dir holds entries numbers entry number other =
    let (k, found, routes) = search_child_idx-Routes p split.record_up n record_at dir in
    let (q, done, grown) =
      insert_split-Holds n k record_at child_at room routes.inside entries numbers split entry
        number p holds in
    (
      k,
      q,
      found,
      done,
      record {
        count_is = grown.count ∙ ap (λ (m : ℕ). some (pos (suc m))) (omega arith);
        fits = omega arith;
        reads = λ i lt. grown.records i (omega arith);
        sorted = inserted_sorted split.record_up n k record_at dir.sorted routes other;
      },
      λ i le. grown.children i (omega arith),
    )
