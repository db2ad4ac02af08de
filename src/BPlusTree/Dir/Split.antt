-- ===== src/BPlusTree/Dir/Split.antt =====
-- Case 1 of `insert_record`: the record and the page of a child's split go into their node.
use mathlib.Core.Path.{ap₂}
use model_lib.Prelude.{ℕ, suc, ◌+◌, ◌-◌, ◌≤◌, ◌<◌, ◌≡◌, ◌∙◌, ap, some, arith}
use model_lib.Prelude.Int.{ℤ, pos, pos_part, ◌+ℤ◌, ◌-ℤ◌, IsInt32, pos-+ℤ}
use model_lib.Page.{Page}
use model_lib.BPlusTree.{BPlusTreeRecord, BPlusTreeSplit, IsEntry}
use model_lib.BPlusTree.Dir.{
  max_records, get_child_count, set_child_count, get_child, get_record, shift_right, insert_split,
}
use model_lib.BPlusTree.Dir.Shift.{
  insert_at, Shifted, start, shift_right-Shifted, put_split, put_split_record, put_split_child,
  put_split_done,
}
use model_lib.BPlusTree.Dir.Access.{
  with_count, set_child_count_lem, get_child_count-with_count, get_child-with_count,
  get_record-with_count,
}

-- The node holds `n` records and one child more.
pub record Holds (p : Page) (n : ℕ) (record_at : ℕ → BPlusTreeRecord) (child_at : ℕ → ℤ)
    : Type 0 where
  pub count : get_child_count p ≡ some (pos (suc n))
  pub records : (i : ℕ) → i < n → get_record p (pos i) ≡ some (record_at i)
  pub children : (i : ℕ) → i ≤ n → get_child p (pos i) ≡ some (child_at i)

rounds_lem : (n k : ℕ) → k ≤ n → pos_part (pos (suc n) -ℤ pos 1 +ℤ pos 1 -ℤ pos k) ≡ n + 1 - k
unfolding ◌-ℤ◌ ◌+ℤ◌
rounds_lem n k h = ground arith

module _ (n k : ℕ) (record_at : ℕ → BPlusTreeRecord) (child_at : ℕ → ℤ) (room : n < max_records)
    (inside : k ≤ n) (entries : (i : ℕ) → i < n → IsEntry (record_at i))
    (numbers : (i : ℕ) → i ≤ n → IsInt32 (child_at i)) where
  module _ (split : BPlusTreeSplit) (entry : IsEntry split.record_up)
      (page_number : IsInt32 split.encoded_page_number) where
    -- The page once the shifted page `q` has the split and the new count.
    filled : Page → Page
    filled q =
        with_count
          (put_split n record_at child_at room entries numbers k inside split entry page_number q)
          (pos (suc n + 1))

    module _ (q : Page) (s : Shifted n record_at child_at room entries numbers q k) where
      abbrev placed : Page
      placed =
          put_split n record_at child_at room entries numbers k inside split entry page_number q

      filled-Holds :
          Holds
            (filled q)
            (n + 1)
            (insert_at k split.record_up record_at)
            (insert_at (k + 1) split.encoded_page_number child_at)
      unfolding filled
      filled-Holds = record {
        count =
            get_child_count-with_count placed (pos (suc n + 1)) (omega arith)
            ∙ ap (λ (m : ℕ). some (pos m)) (omega arith);
        records = λ i lt.
            get_record-with_count placed (pos (suc n + 1)) i (omega arith)
            ∙ put_split_record n record_at child_at room entries numbers k inside split entry
                page_number q k (omega arith) (omega arith) s i lt;
        children = λ i le.
            get_child-with_count placed (pos (suc n + 1)) i (omega arith)
            ∙ put_split_child n record_at child_at room entries numbers k inside split entry
                page_number q k (omega arith) (omega arith) s i le;
      }

    counted :
        (q : Page)
        → set_child_count
            (put_split n record_at child_at room entries numbers k inside split entry page_number q)
            (pos (suc n) +ℤ pos 1)
          ≡ some (filled q)
    unfolding filled
    counted q = rw (pos-+ℤ (suc n) 1) (set_child_count_lem _ (pos (suc n + 1)))

    Shifted-whole :
        (p : Page)
        → Holds p n record_at child_at
        → (q : Page) × (shift_right
              (pos_part (pos (suc n) -ℤ pos 1 +ℤ pos 1 -ℤ pos k))
              (pos (suc n) -ℤ pos 1)
              p
            ≡ some q)
          × Shifted n record_at child_at room entries numbers q k
    Shifted-whole p h =
        let m : ℕ = n + 1 - k in
        let whole : k + m ≡ n + 1 = omega arith in
        let (q, done, s) =
          shift_right-Shifted n record_at child_at room entries numbers k m p (omega arith)
            (rw whole (start n record_at child_at room entries numbers p h.records h.children)) in
        (
          q,
          ap₂ (λ r u. shift_right r (pos u -ℤ pos 1) p) (rounds_lem n k inside) (omega arith)
              ∙ done,
          s,
        )

    -- While an inner node, whose records and children fit their fields, has room, the split of a
    -- child puts its record at the child's index and its page right behind the child; all other
    -- records and children keep their order.
    pub insert_split-Holds :
        (p : Page)
        → Holds p n record_at child_at
        → (q : Page) × (insert_split p (pos (suc n)) (pos k) split ≡ some q)
          × Holds q
              (n + 1)
              (insert_at k split.record_up record_at)
              (insert_at (k + 1) split.encoded_page_number child_at)
    unfolding insert_split
    insert_split-Holds p h =
        let (q, done, s) = Shifted-whole p h in
        (
          filled q,
          rw done (
              put_split_done n record_at child_at room entries numbers k inside split entry
                page_number q (λ p3. set_child_count p3 (pos (suc n) +ℤ pos 1))
              ∙ counted q),
          filled-Holds q s,
        )
