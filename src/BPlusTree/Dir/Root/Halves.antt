-- ===== src/BPlusTree/Dir/Root/Halves.antt =====
-- What the split of a full root, case 3 of `insert_record` of
-- src/storage/b_plus_tree/b_plus_tree_dir.cc, leaves in the two new nodes.
use model_lib.Prelude.{ℕ, ◌+◌, ◌≤◌, ◌≡◌, ◌∙◌, ap, some, arith, ℕ_discrete}
use model_lib.Prelude.Int.{ℤ, pos, IsInt32}
use model_lib.Page.{Page}
use model_lib.BPlusTree.{BPlusTreeRecord, IsEntry}
use model_lib.BPlusTree.Dir.{max_records, get_child, get_record}
use model_lib.BPlusTree.Dir.Access.{
  with_child, with_record, with_count, set_child_lem, set_record_lem, set_child_count_lem,
  get_child-with_child_same, get_child-with_child_ne, get_record-with_child,
  get_record-with_record_same, get_record-with_record_ne, get_child-with_record,
  get_child_count-with_count, get_child-with_count, get_record-with_count,
}
use model_lib.BPlusTree.Dir.Split.{Holds}
use model_lib.BPlusTree.Dir.Root.{RootRoom, middle_index, last_index, fill_lhs, fill_rhs}
use model_lib.BPlusTree.Dir.Root.Room.{HasRoom}
use model_lib.BPlusTree.Dir.Root.Copy.{Copied, Part, copy_part-Copied}

module _ (room : RootRoom) (record_at : ℕ → BPlusTreeRecord) (child_at : ℕ → ℤ)
    (has : HasRoom room record_at child_at)
    (entries : (i : ℕ) → i ≤ max_records → IsEntry (record_at i))
    (numbers : (i : ℕ) → i ≤ max_records + 1 → IsInt32 (child_at i)) where
  Part-of :
      (i m : ℕ)
      → i + m ≤ max_records
      → Part room.root i m (λ t. record_at (i + t)) (λ t. child_at (i + t))
  Part-of i m fits = record {
    records = λ t lt. has.records (i + t) (omega arith);
    children = λ t lt. has.children (i + t) (omega arith);
    entries = λ t lt. entries (i + t) (omega arith);
    numbers = λ t lt. numbers (i + t) (omega arith);
  }

  lhs_of : Page → Page
  lhs_of q = with_count (with_child q middle_index (child_at middle_index)) (pos (middle_index + 1))

  lhs-Holds :
      (lhs q : Page)
      → Copied lhs q 0 middle_index (λ t. record_at (0 + t)) (λ t. child_at (0 + t))
      → Holds (lhs_of q) middle_index record_at child_at
  unfolding lhs_of
  lhs-Holds lhs q c =
      let q1 : Page = with_child q middle_index (child_at middle_index) in
      record {
        count = get_child_count-with_count q1 (pos (middle_index + 1)) (omega arith);
        records = λ i lt.
            get_record-with_count q1 (pos (middle_index + 1)) i (omega arith)
            ∙ get_record-with_child q middle_index (child_at middle_index) (omega arith) i
                (omega arith)
            ∙ ap (λ k. get_record q (pos k)) (omega arith)
            ∙ c.records i lt
            ∙ ap (λ k. some (record_at k)) (omega arith);
        children = λ i le.
            get_child-with_count q1 (pos (middle_index + 1)) i (omega arith)
            ∙ elim (ℕ_discrete i middle_index) [
              | yes e ↦ rw e (
                  get_child-with_child_same q middle_index (child_at middle_index) (omega arith)
                    (numbers middle_index (omega arith)))
              | no ne ↦
                  get_child-with_child_ne q middle_index (child_at middle_index) (omega arith) i
                    (omega arith) ne
                  ∙ ap (λ k. get_child q (pos k)) (omega arith)
                  ∙ c.children i (omega arith)
                  ∙ ap (λ k. some (child_at k)) (omega arith)
            ];
      }

  pub fill_lhs-Holds :
      (lhs : Page)
      → (q : Page) × (fill_lhs room.root lhs ≡ some q) × Holds q middle_index record_at child_at
  unfolding fill_lhs lhs_of
  fill_lhs-Holds lhs =
      let (q, done, c) =
        copy_part-Copied middle_index 0 0 (λ t. record_at (0 + t)) (λ t. child_at (0 + t)) room.root
          lhs (Part-of 0 middle_index (omega arith)) (omega arith) in
      (
        lhs_of q,
        rw (
          done,
          has.children middle_index (omega arith),
          set_child_lem q middle_index (child_at middle_index) (omega arith),
          set_child_count_lem (with_child q middle_index (child_at middle_index))
              (pos (middle_index + 1)),
        ),
        lhs-Holds lhs q c,
      )

  -- The last child of the root, then the child and the record that were left over.
  rhs_of : Page → Page
  rhs_of q =
      with_count
        (with_record
          (with_child (with_child q last_index (child_at max_records)) (last_index + 1)
            (child_at (max_records + 1)))
          last_index (record_at max_records))
        (pos (middle_index + 1))

  rhs-Holds :
      (rhs q : Page)
      → Copied rhs q 0 last_index
          (λ t. record_at (middle_index + 1 + t))
          (λ t. child_at (middle_index + 1 + t))
      → Holds
          (rhs_of q)
          middle_index
          (λ i. record_at (middle_index + 1 + i))
          (λ i. child_at (middle_index + 1 + i))
  unfolding rhs_of
  rhs-Holds rhs q c =
      let q1 : Page = with_child q last_index (child_at max_records) in
      let q2 : Page = with_child q1 (last_index + 1) (child_at (max_records + 1)) in
      let q3 : Page = with_record q2 last_index (record_at max_records) in
      record {
        count = get_child_count-with_count q3 (pos (middle_index + 1)) (omega arith);
        records = λ i lt.
            get_record-with_count q3 (pos (middle_index + 1)) i (omega arith)
            ∙ elim (ℕ_discrete i last_index) [
              | yes e ↦ rw e (
                  get_record-with_record_same q2 last_index (record_at max_records) (omega arith)
                    (entries max_records (omega arith)))
              | no ne ↦
                  get_record-with_record_ne q2 last_index (record_at max_records) (omega arith) i
                    (omega arith) ne
                  ∙ get_record-with_child q1 (last_index + 1) (child_at (max_records + 1))
                      (omega arith) i (omega arith)
                  ∙ get_record-with_child q last_index (child_at max_records) (omega arith) i
                      (omega arith)
                  ∙ ap (λ k. get_record q (pos k)) (omega arith)
                  ∙ c.records i (omega arith)
            ];
        children = λ i le.
            get_child-with_count q3 (pos (middle_index + 1)) i (omega arith)
            ∙ get_child-with_record q2 last_index (record_at max_records) (omega arith) i
                (omega arith)
            ∙ elim (ℕ_discrete i (last_index + 1)) [
              | yes e ↦ rw e (
                  get_child-with_child_same q1 (last_index + 1) (child_at (max_records + 1))
                    (omega arith) (numbers (max_records + 1) (omega arith)))
              | no ne ↦
                  get_child-with_child_ne q1 (last_index + 1) (child_at (max_records + 1))
                    (omega arith) i (omega arith) ne
                  ∙ elim (ℕ_discrete i last_index) [
                    | yes e ↦ rw e (
                        get_child-with_child_same q last_index (child_at max_records) (omega arith)
                          (numbers max_records (omega arith)))
                    | no other ↦
                        get_child-with_child_ne q last_index (child_at max_records) (omega arith) i
                          (omega arith) other
                        ∙ ap (λ k. get_child q (pos k)) (omega arith)
                        ∙ c.children i (omega arith)
                  ]
            ];
      }

  pub fill_rhs-Holds :
      (rhs : Page)
      → (q : Page) × (fill_rhs room rhs ≡ some q)
        × Holds q middle_index
            (λ i. record_at (middle_index + 1 + i))
            (λ i. child_at (middle_index + 1 + i))
  unfolding fill_rhs rhs_of
  fill_rhs-Holds rhs =
      let (q, done, c) =
        copy_part-Copied last_index (middle_index + 1) 0 (λ t. record_at (middle_index + 1 + t))
          (λ t. child_at (middle_index + 1 + t)) room.root rhs
          (Part-of (middle_index + 1) last_index (omega arith)) (omega arith) in
      let q1 : Page = with_child q last_index (child_at max_records) in
      let q2 : Page = with_child q1 (last_index + 1) (child_at (max_records + 1)) in
      (
        rhs_of q,
        rw (
          done,
          has.children max_records (omega arith),
          set_child_lem q last_index (child_at max_records) (omega arith),
          has.last_child,
          set_child_lem q1 (last_index + 1) (child_at (max_records + 1)) (omega arith),
          has.last_record,
          set_record_lem q2 last_index (record_at max_records) (omega arith),
          set_child_count_lem (with_record q2 last_index (record_at max_records))
              (pos (middle_index + 1)),
        ),
        rhs-Holds rhs q c,
      )
