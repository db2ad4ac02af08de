-- ===== src/BPlusTree/Tree/Insert/Split.antt =====
-- What `insert_record` of an inner node does with the answer of the child that it goes to, on each of its
-- branches.
use mathlib.Core.Path.{subst}
use model_lib.Prelude.{
  ℕ, suc, ◌+◌, ◌^◌, ◌≤◌, ◌<◌, ◌≡◌, ◌≢◌, ◌∙◌, refl, sym, ap, Option, none, some, arith, dec_lt,
  ℕ_discrete, ◌==◌, ==_iff, if◌then◌else◌, gt→eqb,
}
use model_lib.Prelude.Int.{ℤ, pos, ◌-ℤ◌, IsInt32, ltb_ℤ, lt→ltb_ℤ, le→ltb_ℤ, pos-pred}
use model_lib.Page.{Page}
use model_lib.HeapPage.Delete.{zeros}
use model_lib.BPlusTree.{BPlusTreeRecord, BPlusTreeSplit, IsEntry}
use model_lib.BPlusTree.Dir.{max_records, get_child, search_child_idx}
use model_lib.BPlusTree.Dir.Search.{IsDir, search_child_idx-Routes}
use model_lib.BPlusTree.Dir.Shift.{insert_at}
use model_lib.BPlusTree.Dir.Split.{Holds}
use model_lib.BPlusTree.Dir.Sorted.{insert_split-IsDir}
use model_lib.BPlusTree.Dir.Root.{middle_index, root_split}
use model_lib.BPlusTree.Dir.Root.Divide.{named, root_split-Divides}
use model_lib.BPlusTree.Tree.{Tree}
use model_lib.BPlusTree.Tree.Insert.{
  set_dir, split_root, take_split, after_child, InsertLeaf, insert_child, insert_record,
}

count_lem : (count : ℕ) → pos (suc count) -ℤ pos 1 ≡ pos count
count_lem count = pos-pred (suc count) (omega arith) ∙ ap pos (omega arith)

module _ (into_leaf : InsertLeaf) (fuel : ℕ) (t : Tree) (n : ℕ) (r : BPlusTreeRecord) (count : ℕ)
    (record_at : ℕ → BPlusTreeRecord) (child_at : ℕ → ℤ) (dir : IsDir (t.dirs n) count record_at)
    (children : (j : ℕ) → j ≤ count → get_child (t.dirs n) (pos j) ≡ some (child_at j)) where
  -- The child that the insertion goes to.
  searched :
      (k : ℕ)
      → k ≤ count
      → search_child_idx (t.dirs n) r ≡ some (pos k)
      → (if ltb_ℤ (pos 0) (pos count) then search_child_idx (t.dirs n) r else some (pos 0))
        ≡ some (pos k)
  searched k le found = elim (dec_lt 0 count) [
    | yes up ↦ rw (lt→ltb_ℤ 0 count up) found
    | no none_up ↦ rw (le→ltb_ℤ 0 count (omega arith)) (ap (λ (i : ℕ). some (pos i)) (omega arith))
  ]

  pub insert_record_lem :
      (k : ℕ) (answer : Tree × Option BPlusTreeSplit)
      → k ≤ count
      → search_child_idx (t.dirs n) r ≡ some (pos k)
      → insert_child (λ l. into_leaf t l r) (λ m. insert_record into_leaf fuel t m r) (child_at k)
        ≡ some answer
      → insert_record into_leaf (suc fuel) t n r ≡ after_child n (pos (suc count)) answer
  unfolding insert_record
  insert_record_lem k answer le found inserted =
      rw
        (
          dir.count_is,
          le→ltb_ℤ (suc count) 1 (omega arith),
          count_lem count,
          searched k le found,
          children k le,
          inserted,
        )
        refl

split_root_lem :
    (t : Tree) (n k : ℕ) (split : BPlusTreeSplit) (p lhs rhs : Page)
    → n ≡ 0
    → root_split (t.dirs n) zeros zeros t.dir_count (t.dir_count + 1) (pos k) split
      ≡ some (p, lhs, rhs)
    → split_root t (pos k) split
      ≡ some (
          set_dir
            (set_dir
              (set_dir (record t { dir_count = t.dir_count + 2 }) t.dir_count lhs)
              (t.dir_count + 1)
              rhs)
            0
            p)
unfolding split_root
split_root_lem t n k split p lhs rhs at done =
    let root =
      ap (λ m. root_split (t.dirs m) zeros zeros t.dir_count (t.dir_count + 1) (pos k) split)
        (sym at)
      ∙ done in
    rw root refl

-- A node `n` of `t` with `count` records.
module _ (n count : ℕ) (record_at : ℕ → BPlusTreeRecord) (child_at : ℕ → ℤ)
    (entries : (i : ℕ) → i < count → IsEntry (record_at i))
    (numbers : (i : ℕ) → i ≤ count → IsInt32 (child_at i)) where
  -- A split that the node can take: its integers fit, and its record is new.
  abbrev pub IsNew : Option BPlusTreeSplit → Type 0
  IsNew none = Unit
  IsNew (some split) =
      IsEntry split.record_up
      × IsInt32 split.encoded_page_number
      × ((i : ℕ) → i < count → record_at i ≢ split.record_up)

  -- What becomes of the tree `t` that the child has left.
  pub data Takes (t : Tree) : Option BPlusTreeSplit → Tree → Type 0 where
    no_split : Takes t none t
    grows :
        (split : BPlusTreeSplit) (k : ℕ) (q : Page)
        → count < max_records
        → search_child_idx (t.dirs n) split.record_up ≡ some (pos k)
        → IsDir q (suc count) (insert_at k split.record_up record_at)
        → ((i : ℕ)
            → i ≤ suc count
            → get_child q (pos i) ≡ some (insert_at (k + 1) split.encoded_page_number child_at i))
        → Takes t (some split) (set_dir t n q)
    divides :
        (split : BPlusTreeSplit) (k : ℕ) (p lhs rhs : Page)
        → n ≡ 0
        → count ≡ max_records
        → search_child_idx (t.dirs n) split.record_up ≡ some (pos k)
        → Holds lhs middle_index
            (insert_at k split.record_up record_at)
            (insert_at (k + 1) split.encoded_page_number child_at)
        → Holds rhs middle_index
            (λ i. insert_at k split.record_up record_at (middle_index + 1 + i))
            (λ i. insert_at (k + 1) split.encoded_page_number child_at (middle_index + 1 + i))
        → Holds p 1
            (λ i. insert_at k split.record_up record_at middle_index)
            (λ i. if i == 0 then named t.dir_count else named (t.dir_count + 1))
        → Takes t (some split) (
            set_dir
              (set_dir
                (set_dir (record t { dir_count = t.dir_count + 2 }) t.dir_count lhs)
                (t.dir_count + 1)
                rhs)
              0
              p)
    lost : (split : BPlusTreeSplit) → n ≢ 0 → count ≡ max_records → Takes t (some split) t

  module _ (t : Tree) (small : t.dir_count + 1 ≤ 2 ^ 31) (dir : IsDir (t.dirs n) count record_at)
      (holds : Holds (t.dirs n) count record_at child_at) where
    abbrev Taken : BPlusTreeSplit → Option Tree → Type 0
    Taken split o = (t' : Tree) × (o ≡ some t') × Takes t (some split) t'

    module _ (split : BPlusTreeSplit) (entry : IsEntry split.record_up)
        (page_number : IsInt32 split.encoded_page_number)
        (other : (i : ℕ) → i < count → record_at i ≢ split.record_up) where
      grows_lem : count < max_records → Taken split (take_split t n (pos (suc count)) split)
      unfolding take_split
      grows_lem room =
          let (k, q, found, done, is_dir, children) =
            insert_split-IsDir (t.dirs n) count record_at child_at split room dir holds entries
              numbers entry page_number other in
          (
            set_dir t n q,
            rw (found, count_lem count, lt→ltb_ℤ count max_records room, done) refl,
            grows split k q room found is_dir children,
          )

      lost_lem : n ≢ 0 → count ≡ max_records → Taken split (take_split t n (pos (suc count)) split)
      unfolding take_split
      lost_lem ne full =
          let (k, found, routes) =
            search_child_idx-Routes (t.dirs n) split.record_up count record_at dir in
          (
            t,
            rw
                (
                  found,
                  count_lem count,
                  le→ltb_ℤ count max_records (omega arith),
                  gt→eqb n 0 (omega arith),
                )
                refl,
            lost split ne full,
          )

      divides_lem :
          n ≡ 0 → count ≡ max_records → Taken split (take_split t n (pos (suc count)) split)
      unfolding take_split
      divides_lem at full =
          let (k, found, routes) =
            search_child_idx-Routes (t.dirs n) split.record_up count record_at dir in
          let b = routes.inside in
          let (p, lhs, rhs, done, left, right, root) =
            root_split-Divides record_at child_at (λ i lt. entries i (omega arith))
              (λ i le. numbers i (omega arith)) split entry page_number (t.dirs n) zeros zeros k
              t.dir_count (t.dir_count + 1)
              (subst (λ m. Holds (t.dirs n) m record_at child_at) full holds) (omega arith)
              (omega arith) in
          (
            set_dir
                (set_dir (set_dir (record t { dir_count = t.dir_count + 2 }) t.dir_count lhs)
                  (t.dir_count + 1) rhs)
                0 p,
            rw (
              found,
              count_lem count,
              le→ltb_ℤ count max_records (omega arith),
              (==_iff n 0).1 at,
              split_root_lem t n k split p lhs rhs at done,
            ),
            divides split k p lhs rhs at full found left right root,
          )

      take_split-Taken : Taken split (take_split t n (pos (suc count)) split)
      take_split-Taken = elim (dec_lt count max_records) [
        | yes room ↦ grows_lem room
        | no ge ↦
            let full : count ≡ max_records = (let f = dir.fits in omega arith) in
            elim (ℕ_discrete n 0) [ yes at ↦ divides_lem at full | no ne ↦ lost_lem ne full ]
      ]

    after_child-Takes :
        (answer : Option BPlusTreeSplit)
        → IsNew answer
        → (t' : Tree) × (after_child n (pos (suc count)) (t, answer) ≡ some (t', none))
          × Takes t answer t'
    unfolding after_child
    after_child-Takes none new = (t, refl, no_split)
    after_child-Takes (some split) new =
        let (t', done, takes) = take_split-Taken split new.0 new.1 new.2 in
        (t', rw done refl, takes)

  module _ (into_leaf : InsertLeaf) (fuel : ℕ) (t : Tree) (r : BPlusTreeRecord)
      (dir : IsDir (t.dirs n) count record_at)
      (holds : Holds (t.dirs n) count record_at child_at) where
    -- On a sorted node, whose records and children fit their fields: if the child that the search for
    -- the entry leads to takes the entry and answers, leaving this node alone, then `insert_record`
    -- returns no split. Without a split from the child nothing else changes. A split, whose integers
    -- fit and whose record is new, is put in its place, and the node stays sorted, while there is
    -- room; a full root divides itself into two new nodes; and a full node that is not the root goes
    -- on without it.
    pub insert_record-Takes :
        (t' : Tree) (answer : Option BPlusTreeSplit)
        → ((k : ℕ)
            → search_child_idx (t.dirs n) r ≡ some (pos k)
            → insert_child
                (λ l. into_leaf t l r)
                (λ m. insert_record into_leaf fuel t m r)
                (child_at k)
              ≡ some (t', answer))
        → t'.dirs n ≡ t.dirs n
        → t'.dir_count + 1 ≤ 2 ^ 31
        → IsNew answer
        → (t'' : Tree) × (insert_record into_leaf (suc fuel) t n r ≡ some (t'', none))
          × Takes t' answer t''
    insert_record-Takes t' answer inserted same small new =
        let (k, found, routes) = search_child_idx-Routes (t.dirs n) r count record_at dir in
        let dir' : IsDir (t'.dirs n) count record_at =
          subst (λ p. IsDir p count record_at) (sym same) dir in
        let holds' : Holds (t'.dirs n) count record_at child_at =
          subst (λ p. Holds p count record_at child_at) (sym same) holds in
        let (t'', done, takes) = after_child-Takes t' small dir' holds' answer new in
        (
          t'',
          insert_record_lem into_leaf fuel t n r count record_at child_at dir holds.children k
                (t', answer) routes.inside found (inserted k found)
              ∙ done,
          takes,
        )
