-- ===== src/BPlusTree/Dir/Root/Divide.antt =====
-- The split of a full root as a whole, case 3 of `insert_record` of
-- src/storage/b_plus_tree/b_plus_tree_dir.cc.
use mathlib.Core.Path.{subst}
use model_lib.Prelude.{
  ℕ, ◌+◌, ◌-◌, ◌^◌, ◌≤◌, ◌<◌, ◌≡◌, ◌∙◌, refl, sym, some, arith, dec_lt, ℕ_discrete, ◌==◌,
  if◌then◌else◌,
}
use model_lib.Prelude.Int.{ℤ, pos, ◌-ℤ◌, IsInt32}
use model_lib.Page.{Page}
use model_lib.BPlusTree.{BPlusTreeRecord, BPlusTreeSplit, IsEntry}
use model_lib.BPlusTree.Dir.{max_records}
use model_lib.BPlusTree.Dir.Access.{
  with_child, with_record, with_count, set_child_lem, set_record_lem, set_child_count_lem,
  get_child-with_child_same, get_child-with_child_ne, get_record-with_record_same,
  get_child-with_record, get_child_count-with_count, get_child_count-with_child,
  get_child_count-with_record,
}
use model_lib.BPlusTree.Dir.Shift.{insert_at, insert_at_lt, insert_at_eq, insert_at_gt}
use model_lib.BPlusTree.Dir.Split.{Holds}
use model_lib.BPlusTree.Dir.Root.{middle_index, link_root, root_split}
use model_lib.BPlusTree.Dir.Root.Room.{make_room-HasRoom}
use model_lib.BPlusTree.Dir.Root.Halves.{fill_lhs-Holds, fill_rhs-Holds}

-- Minus the number of a page.
abbrev pub named : ℕ → ℤ
named number = pos 0 -ℤ pos number

module _ (p : Page) (lhs_number rhs_number : ℕ) (r : BPlusTreeRecord) (entry : IsEntry r)
    (small : (lhs_number ≤ 2 ^ 31) × (rhs_number ≤ 2 ^ 31)) where
  linked : Page
  linked =
      with_record
        (with_child (with_child (with_count p (pos 2)) 0 (named lhs_number)) 1 (named rhs_number)) 0
        r

  named-IsInt32 : (number : ℕ) → number ≤ 2 ^ 31 → IsInt32 (named number)
  unfolding ◌-ℤ◌
  named-IsInt32 number h = ground arith

  link_root-Holds :
      (q : Page) × (link_root p lhs_number rhs_number r ≡ some q)
      × Holds q 1 (λ i. r) (λ i. if i == 0 then named lhs_number else named rhs_number)
  unfolding link_root linked
  link_root-Holds =
      let q1 : Page = with_count p (pos 2) in
      let q2 : Page = with_child q1 0 (named lhs_number) in
      let q3 : Page = with_child q2 1 (named rhs_number) in
      (
        linked,
        rw (
          set_child_count_lem p (pos 2),
          set_child_lem q1 0 (named lhs_number) (omega arith),
          set_child_lem q2 1 (named rhs_number) (omega arith),
          set_record_lem q3 0 r (omega arith),
        ),
        record {
          count =
              get_child_count-with_record q3 0 r (omega arith)
              ∙ get_child_count-with_child q2 1 (named rhs_number) (omega arith)
              ∙ get_child_count-with_child q1 0 (named lhs_number) (omega arith)
              ∙ get_child_count-with_count p (pos 2) (omega arith);
          records = λ i lt.
              let e : i ≡ 0 = omega arith in
              rw e (get_record-with_record_same q3 0 r (omega arith) entry);
          children = λ i le.
              get_child-with_record q3 0 r (omega arith) i (omega arith) ∙ elim (ℕ_discrete i 0) [
                | yes e ↦ rw e (
                    get_child-with_child_ne q2 1 (named rhs_number) (omega arith) 0 (omega arith)
                      (omega arith)
                    ∙ get_child-with_child_same q1 0 (named lhs_number) (omega arith)
                        (named-IsInt32 lhs_number small.0))
                | no ne ↦
                    let e : i ≡ 1 = omega arith in
                    rw e (
                      get_child-with_child_same q2 1 (named rhs_number) (omega arith)
                        (named-IsInt32 rhs_number small.1))
              ];
        },
      )

-- What holds of `x` and of every index below `n` of a sequence holds of the sequence with `x` put in.
insert_at-all :
    {A : Type 0} (P : A → Type 0) (n k : ℕ) (x : A) (f : ℕ → A)
    → k ≤ n
    → P x
    → ((i : ℕ) → i < n → P (f i))
    → (i : ℕ) → i ≤ n
    → P (insert_at k x f i)
insert_at-all P n k x f inside h all i le = elim (dec_lt i k) [
  | yes lt ↦ subst P (sym (insert_at_lt k x f i lt)) (all i (omega arith))
  | no ge ↦ elim (ℕ_discrete i k) [
    | yes e ↦ subst P (sym (insert_at_eq k x f i e)) h
    | no ne ↦ subst P (sym (insert_at_gt k x f i (omega arith))) (all (i - 1) (omega arith))
  ]
]

module _ (record_at : ℕ → BPlusTreeRecord) (child_at : ℕ → ℤ)
    (entries : (i : ℕ) → i < max_records → IsEntry (record_at i))
    (numbers : (i : ℕ) → i ≤ max_records → IsInt32 (child_at i)) (split : BPlusTreeSplit)
    (entry : IsEntry split.record_up) (page_number : IsInt32 split.encoded_page_number) where
  -- A full root, whose records and children fit their fields, takes in the split of a child at any
  -- index of a child: with the split's record at that index and its page right behind the child, the
  -- left node gets the records before the middle one and the children up to it, the right node the
  -- records and children behind, and the root keeps the middle record between the two nodes, whose
  -- numbers fit an `int32_t`.
  pub root_split-Divides :
      (p lhs rhs : Page) (k lhs_number rhs_number : ℕ)
      → Holds p max_records record_at child_at
      → k ≤ max_records
      → (lhs_number ≤ 2 ^ 31) × (rhs_number ≤ 2 ^ 31)
      → (p' : Page) × (lhs' : Page) × (rhs' : Page) × (root_split p lhs rhs lhs_number rhs_number
            (pos k)
            split
          ≡ some (p', lhs', rhs'))
        × Holds lhs' middle_index
            (insert_at k split.record_up record_at)
            (insert_at (k + 1) split.encoded_page_number child_at)
        × Holds rhs' middle_index
            (λ i. insert_at k split.record_up record_at (middle_index + 1 + i))
            (λ i. insert_at (k + 1) split.encoded_page_number child_at (middle_index + 1 + i))
        × Holds p' 1
            (λ i. insert_at k split.record_up record_at middle_index)
            (λ i. if i == 0 then named lhs_number else named rhs_number)
  unfolding root_split
  root_split-Divides p lhs rhs k lhs_number rhs_number holds inside small =
      let r : ℕ → BPlusTreeRecord = insert_at k split.record_up record_at in
      let c : ℕ → ℤ = insert_at (k + 1) split.encoded_page_number child_at in
      let r_entries : (i : ℕ) → i ≤ max_records → IsEntry (r i) =
        insert_at-all IsEntry max_records k split.record_up record_at inside entry entries in
      let c_numbers : (i : ℕ) → i ≤ max_records + 1 → IsInt32 (c i) =
        insert_at-all IsInt32 (max_records + 1) (k + 1) split.encoded_page_number child_at
          (omega arith) page_number (λ i lt. numbers i (omega arith)) in
      let (room, made, has) =
        make_room-HasRoom record_at child_at entries numbers split entry page_number p holds k
          inside in
      let (lhs', left_done, left) = fill_lhs-Holds room r c has r_entries c_numbers lhs in
      let (rhs', right_done, right) = fill_rhs-Holds room r c has r_entries c_numbers rhs in
      let (p', linked_done, root) =
        link_root-Holds room.root lhs_number rhs_number (r middle_index)
          (r_entries middle_index (omega arith)) small in
      (
        p',
        lhs',
        rhs',
        rw (made, left_done, has.records middle_index (omega arith), right_done, linked_done) refl,
        left,
        right,
        root,
      )
