-- ===== src/BPlusTree/Dir/Root/Copy.antt =====
-- The loops that copy a part of a node, in case 3 of `insert_record` of
-- src/storage/b_plus_tree/b_plus_tree_dir.cc.
use model_lib.Prelude.{ℕ, zero, suc, ◌+◌, ◌≤◌, ◌<◌, ◌≡◌, ◌∙◌, refl, ap, some, arith}
use model_lib.Prelude.Int.{ℤ, pos, IsInt32}
use model_lib.Page.{Page}
use model_lib.BPlusTree.{BPlusTreeRecord, IsEntry}
use model_lib.BPlusTree.Dir.{max_records, get_child, get_record}
use model_lib.BPlusTree.Dir.Access.{
  with_child, with_record, set_child_lem, set_record_lem, get_child-with_child_same,
  get_child-with_child_ne, get_record-with_child, get_record-with_record_same,
  get_record-with_record_ne, get_child-with_record,
}
use model_lib.BPlusTree.Dir.Root.{copy_part}

-- From index `j` on, `q'` holds the `m` records and children, and below it those of `q`.
pub record Copied (q q' : Page) (j m : ℕ) (record_at : ℕ → BPlusTreeRecord) (child_at : ℕ → ℤ)
    : Type 0 where
  pub records : (t : ℕ) → t < m → get_record q' (pos (j + t)) ≡ some (record_at t)
  pub children : (t : ℕ) → t < m → get_child q' (pos (j + t)) ≡ some (child_at t)
  pub records_below : (s : ℕ) → s < j → get_record q' (pos s) ≡ get_record q (pos s)
  pub children_below : (s : ℕ) → s < j → get_child q' (pos s) ≡ get_child q (pos s)

-- The part of the node that is copied.
pub record Part (p : Page) (i m : ℕ) (record_at : ℕ → BPlusTreeRecord) (child_at : ℕ → ℤ)
    : Type 0 where
  pub records : (t : ℕ) → t < m → get_record p (pos (i + t)) ≡ some (record_at t)
  pub children : (t : ℕ) → t < m → get_child p (pos (i + t)) ≡ some (child_at t)
  pub entries : (t : ℕ) → t < m → IsEntry (record_at t)
  pub numbers : (t : ℕ) → t < m → IsInt32 (child_at t)

module _ (p : Page) (i m : ℕ) (record_at : ℕ → BPlusTreeRecord) (child_at : ℕ → ℤ)
    (part : Part p i (suc m) record_at child_at) where
  rest-Part : Part p (suc i) m (λ t. record_at (suc t)) (λ t. child_at (suc t))
  rest-Part = record {
    records =
        λ t lt. ap (λ k. get_record p (pos k)) (omega arith) ∙ part.records (suc t) (omega arith);
    children =
        λ t lt. ap (λ k. get_child p (pos k)) (omega arith) ∙ part.children (suc t) (omega arith);
    entries = λ t lt. part.entries (suc t) (omega arith);
    numbers = λ t lt. part.numbers (suc t) (omega arith);
  }

  module _ (q : Page) (j : ℕ) (fits : j + suc m ≤ max_records) where
    -- After the first round.
    first : Page
    first = with_record (with_child q j (child_at 0)) j (record_at 0)

    inside : j < max_records
    inside = omega arith

    copy_step : copy_part (suc m) i j p q ≡ copy_part m (suc i) (suc j) p first
    unfolding copy_part first
    copy_step =
        let child : get_child p (pos i) ≡ some (child_at 0) =
          ap (λ k. get_child p (pos k)) (omega arith) ∙ part.children 0 (omega arith) in
        let r : get_record p (pos i) ≡ some (record_at 0) =
          ap (λ k. get_record p (pos k)) (omega arith) ∙ part.records 0 (omega arith) in
        rw (
          child,
          set_child_lem q j (child_at 0) (omega arith),
          r,
          set_record_lem (with_child q j (child_at 0)) j (record_at 0) inside,
        )

    first_record : get_record first (pos j) ≡ some (record_at 0)
    unfolding first
    first_record =
        get_record-with_record_same (with_child q j (child_at 0)) j (record_at 0) inside
          (part.entries 0 (omega arith))

    first_child : get_child first (pos j) ≡ some (child_at 0)
    unfolding first
    first_child =
        get_child-with_record (with_child q j (child_at 0)) j (record_at 0) inside j (omega arith)
        ∙ get_child-with_child_same q j (child_at 0) (omega arith) (part.numbers 0 (omega arith))

    first_records_below : (s : ℕ) → s < j → get_record first (pos s) ≡ get_record q (pos s)
    unfolding first
    first_records_below s lt =
        get_record-with_record_ne (with_child q j (child_at 0)) j (record_at 0) inside s
          (omega arith) (omega arith)
        ∙ get_record-with_child q j (child_at 0) (omega arith) s (omega arith)

    first_children_below : (s : ℕ) → s < j → get_child first (pos s) ≡ get_child q (pos s)
    unfolding first
    first_children_below s lt =
        get_child-with_record (with_child q j (child_at 0)) j (record_at 0) inside s (omega arith)
        ∙ get_child-with_child_ne q j (child_at 0) (omega arith) s (omega arith) (omega arith)

    -- The first round and the others together.
    first-Copied :
        (q' : Page)
        → Copied first q' (suc j) m (λ t. record_at (suc t)) (λ t. child_at (suc t))
        → Copied q q' j (suc m) record_at child_at
    first-Copied q' c = record {
      records = λ t lt. record_of t lt;
      children = λ t lt. child_of t lt;
      records_below = λ s lt. c.records_below s (omega arith) ∙ first_records_below s lt;
      children_below = λ s lt. c.children_below s (omega arith) ∙ first_children_below s lt;
    }
      where
        record_of : (t : ℕ) → t < suc m → get_record q' (pos (j + t)) ≡ some (record_at t)
        record_of zero lt =
            ap (λ k. get_record q' (pos k)) (omega arith)
            ∙ c.records_below j (omega arith)
            ∙ first_record
        record_of (suc t) lt =
            ap (λ k. get_record q' (pos k)) (omega arith) ∙ c.records t (omega arith)

        child_of : (t : ℕ) → t < suc m → get_child q' (pos (j + t)) ≡ some (child_at t)
        child_of zero lt =
            ap (λ k. get_child q' (pos k)) (omega arith)
            ∙ c.children_below j (omega arith)
            ∙ first_child
        child_of (suc t) lt =
            ap (λ k. get_child q' (pos k)) (omega arith) ∙ c.children t (omega arith)

pub copy_part-Copied :
    (m i j : ℕ) (record_at : ℕ → BPlusTreeRecord) (child_at : ℕ → ℤ) (p q : Page)
    → Part p i m record_at child_at
    → j + m ≤ max_records
    → (q' : Page) × (copy_part m i j p q ≡ some q') × Copied q q' j m record_at child_at
unfolding copy_part
copy_part-Copied zero i j record_at child_at p q part fits = (
  q,
  refl,
  record {
    records = λ t lt. absurd (omega arith);
    children = λ t lt. absurd (omega arith);
    records_below = λ s lt. refl;
    children_below = λ s lt. refl;
  },
)
copy_part-Copied (suc m) i j record_at child_at p q part fits =
    let (q', done, c) =
      copy_part-Copied m (suc i) (suc j) (λ t. record_at (suc t)) (λ t. child_at (suc t)) p
        (first p i m record_at child_at part q j fits) (rest-Part p i m record_at child_at part)
        (omega arith) in
    (
      q',
      copy_step p i m record_at child_at part q j fits ∙ done,
      first-Copied p i m record_at child_at part q j fits q' c,
    )
