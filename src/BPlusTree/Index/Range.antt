-- ===== src/BPlusTree/Index/Range.antt =====
-- `BPlusTreeIter::next` and the loop around it give the records of a range, and miss none.
use model_lib.Prelude.{
  ℕ, zero, suc, ◌≤◌, ◌<◌, ◌≡◌, ◌∙◌, refl, ap, Bool, true, false, Option, some, List, [], ◌∷◌, All,
  arith, get_elem?, if◌then◌else◌, Bool-cases, inl, inr,
}
use model_lib.Prelude.Int.{pos, ◌+ℤ◌, pos-+ℤ, lt→ltb_ℤ, le→ltb_ℤ, pos-ne_zero, to_size}
use model_lib.Value.{Value}
use model_lib.HeapPage.Vacuum.{fill}
use model_lib.BPlusTree.{BPlusTreeRecord, less}
use model_lib.BPlusTree.Order.{less_trans}
use model_lib.BPlusTree.Leaf.{get_record_count, get_next_page_number, get_record}
use model_lib.BPlusTree.Index.{BPlusTree, Bounds, get_rid_record}
use model_lib.BPlusTree.Index.Iter.{BPlusTreeIter, in_range, next_entry, next_leaf, next, scan}

pos-suc : (k : ℕ) → pos k +ℤ pos 1 ≡ pos (suc k)
pos-suc k = pos-+ℤ k 1 ∙ ap pos (omega arith)

-- An entry of the tree, with the record that it leads to and the record's key.
pub record Item : Type 0 where
  pub entry : BPlusTreeRecord
  pub values : List Value
  pub key : Value

-- The entries from index `k` of leaf `l` on, through the leaves that follow it, in `n` steps.
pub data Chain (b : BPlusTree) : ℕ → ℕ → ℕ → List Item → Type 0 where
  last_leaf :
      {l k : ℕ} (count : ℕ)
      → get_record_count (b.tree.leaves l) ≡ some (pos count)
      → count ≤ k
      → get_next_page_number (b.tree.leaves l) ≡ some (pos 0)
      → Chain b l k 1 []
  leaf_end :
      {l k n : ℕ} {items : List Item} (count m : ℕ)
      → get_record_count (b.tree.leaves l) ≡ some (pos count)
      → count ≤ k
      → get_next_page_number (b.tree.leaves l) ≡ some (pos (suc m))
      → Chain b (suc m) 0 n items
      → Chain b l k (suc n) items
  item :
      {l k n : ℕ} {items : List Item} (count : ℕ) (x : Item)
      → get_record_count (b.tree.leaves l) ≡ some (pos count)
      → k < count
      → get_record (b.tree.leaves l) (pos k) ≡ some x.entry
      → get_rid_record b x.entry.rid ≡ some (some x.values)
      → get_elem? x.values b.key_column_idx ≡ some x.key
      → Chain b l (suc k) n items
      → Chain b l k (suc n) (x ∷ items)

unfoldable pub selected : Bounds → List Item → List (List Value)
selected bounds [] = []
selected bounds (x ∷ items) =
    let rest = selected bounds items in if in_range bounds x.key then x.values ∷ rest else rest

-- The entries are in ascending order, and none above the upper bound has a key in the range.
abbrev pub Ready : Bounds → List Item → Type 0
Ready bounds [] = Unit
Ready bounds (x ∷ items) =
    (in_range bounds x.key ≡ true → less bounds.max_record x.entry ≡ false)
    × All (λ y. less x.entry y.entry ≡ true) items
    × Ready bounds items

module _ (b : BPlusTree) (bounds : Bounds) where
  -- Behind an entry above the upper bound.
  none_selected :
      (m : BPlusTreeRecord) (items : List Item)
      → less bounds.max_record m ≡ true
      → All (λ y. less m y.entry ≡ true) items
      → Ready bounds items
      → selected bounds items ≡ []
  unfolding selected
  none_selected m [] over above ready = refl
  none_selected m (y ∷ items) over above ready =
      let higher : less bounds.max_record y.entry ≡ true =
        less_trans bounds.max_record m y.entry over above.0 in
      let rest = none_selected m items over above.1 ready.2 in
      elim (Bool-cases (in_range bounds y.key)) [
        | inl within ↦ absurd (cc (ready.0 within, higher))
        | inr outside ↦ rw (outside, rest)
      ]

  abbrev pub at : ℕ → ℕ → List Value → BPlusTreeIter
  at l k out = record { current_leaf = l; current_leaf_pos = pos k; out = out }

  -- What a call of `next` gives before the entries `items`, in `n` steps.
  pub data Answer (items : List Item) (n : ℕ) : BPlusTreeIter × Bool → Type 0 where
    yields :
        (l k n' : ℕ) (x : Item) (rest : List Item)
        → Chain b l k n' rest
        → Ready bounds rest
        → n' < n
        → in_range bounds x.key ≡ true
        → selected bounds items ≡ x.values ∷ selected bounds rest
        → Answer items n (at l k x.values, true)
    ends : (it : BPlusTreeIter) → selected bounds items ≡ [] → Answer items n (it, false)

  abbrev Answers : List Item → ℕ → Option (BPlusTreeIter × Bool) → Type 0
  Answers items n o = (a : BPlusTreeIter × Bool) × (o ≡ some a) × Answer items n a

  more_steps :
      (items items' : List Item) (n : ℕ) (o : Option (BPlusTreeIter × Bool))
      → selected bounds items' ≡ selected bounds items
      → Answers items n o
      → Answers items' (suc n) o
  more_steps items items' n o same (_, done, yields l k n' x rest chain ready less_n within e) = (
    (at l k x.values, true),
    done,
    yields l k n' x rest chain ready (omega arith) within (same ∙ e),
  )
  more_steps items items' n o same (_, done, ends it e) = ((it, false), done, ends it (same ∙ e))

  -- The rounds of the loop.
  module _ (fuel l k count : ℕ) (out : List Value)
      (c : get_record_count (b.tree.leaves l) ≡ some (pos count)) where
    next_last :
        count ≤ k
        → get_next_page_number (b.tree.leaves l) ≡ some (pos 0)
        → next (suc fuel) b bounds (at l k out) ≡ some (at l k out, false)
    unfolding next next_leaf
    next_last le e = rw (c, le→ltb_ℤ k count le, e) refl

    next_leaf_end :
        (m : ℕ)
        → count ≤ k
        → get_next_page_number (b.tree.leaves l) ≡ some (pos (suc m))
        → next (suc fuel) b bounds (at l k out) ≡ next fuel b bounds (at (suc m) 0 out)
    unfolding next next_leaf to_size
    next_leaf_end m le e = rw (c, le→ltb_ℤ k count le, e, pos-ne_zero (suc m) (omega arith)) refl

    next_item :
        (r : BPlusTreeRecord)
        → k < count
        → get_record (b.tree.leaves l) (pos k) ≡ some r
        → next (suc fuel) b bounds (at l k out)
          ≡ next_entry b bounds (next fuel b bounds) (at l (suc k) out) r
    unfolding next
    next_item r lt e = rw (c, lt→ltb_ℤ k count lt, e, pos-suc k)

  module _ (rest : BPlusTreeIter → Option (BPlusTreeIter × Bool)) (l k : ℕ) (out : List Value)
      (x : Item) where
    entry_above :
        less bounds.max_record x.entry ≡ true
        → next_entry b bounds rest (at l k out) x.entry ≡ some (at l k out, false)
    unfolding next_entry
    entry_above over = rw over

    entry_within :
        less bounds.max_record x.entry ≡ false
        → get_rid_record b x.entry.rid ≡ some (some x.values)
        → get_elem? x.values b.key_column_idx ≡ some x.key
        → next_entry b bounds rest (at l k out) x.entry
          ≡ (if in_range bounds x.key then some (at l k x.values, true) else rest (at l k x.values))
    unfolding next_entry fill
    entry_within under r v = rw (under, r, v)

  item-Answers :
      (fuel l k n : ℕ) (x : Item) (items : List Item) (out : List Value)
      → Chain b l k n items
      → Ready bounds (x ∷ items)
      → get_rid_record b x.entry.rid ≡ some (some x.values)
      → get_elem? x.values b.key_column_idx ≡ some x.key
      → Answers items n (next fuel b bounds (at l k x.values))
      → Answers (x ∷ items) (suc n) (next_entry b bounds (next fuel b bounds) (at l k out) x.entry)
  unfolding selected
  item-Answers fuel l k n x items out chain ready r v rest =
      elim (Bool-cases (less bounds.max_record x.entry)) [
        | inl over ↦
            let outside : in_range bounds x.key ≡ false =
              elim (Bool-cases (in_range bounds x.key)) [
                | inl within ↦ absurd (cc (ready.0 within, over))
                | inr e ↦ e
              ] in
            (
              (at l k out, false),
              entry_above (next fuel b bounds) l k out x over,
              ends (at l k out) (rw outside (none_selected x.entry items over ready.1 ready.2)),
            )
        | inr under ↦
            rw (entry_within (next fuel b bounds) l k out x under r v)
              (elim (Bool-cases (in_range bounds x.key)) [
                | inl within ↦ (
                  (at l k x.values, true),
                  rw within refl,
                  yields l k n x items chain ready.2 (omega arith) within (rw within refl),
                )
                | inr outside ↦ rw outside (
                    more_steps items (x ∷ items) n (next fuel b bounds (at l k x.values))
                      (rw outside refl) rest)
              ])
      ]

  next-Answers :
      (fuel l k n : ℕ) (items : List Item) (out : List Value)
      → Chain b l k n items
      → Ready bounds items
      → n ≤ fuel
      → Answers items n (next fuel b bounds (at l k out))
  next-Answers zero l k n items out (last_leaf count c le e) ready enough = absurd (omega arith)
  next-Answers zero l k n items out (leaf_end count m c le e rest) ready enough =
      absurd (omega arith)
  next-Answers zero l k n items out (item count x c lt e r v rest) ready enough =
      absurd (omega arith)
  next-Answers (suc fuel) l k n items out (last_leaf count c le e) ready enough = (
    (at l k out, false),
    next_last fuel l k count out c le e,
    ends (at l k out) (unfold selected in refl),
  )
  next-Answers (suc fuel) l k (suc n) items out (leaf_end count m c le e rest) ready enough =
      rw (next_leaf_end fuel l k count out c m le e) (
        more_steps items items n (next fuel b bounds (at (suc m) 0 out)) refl
          (next-Answers fuel (suc m) 0 n items out rest ready (omega arith)))
  next-Answers (suc fuel) l k (suc n) (_ ∷ items) out (item count x c lt e r v rest) ready enough =
      rw (next_item fuel l k count out c x.entry lt e) (
        item-Answers fuel l (suc k) n x items out rest ready r v
          (next-Answers fuel l (suc k) n items x.values rest ready.2 (omega arith)))

  scan_yields :
      (steps fuel l k : ℕ) (out : List Value) (it : BPlusTreeIter) (seen : List (List Value))
      → next fuel b bounds (at l k out) ≡ some (it, true)
      → scan steps fuel b bounds it ≡ some seen
      → scan (suc steps) fuel b bounds (at l k out) ≡ some (it.out ∷ seen)
  unfolding scan
  scan_yields steps fuel l k out it seen e f = rw (e, f) refl

  scan_ends :
      (steps fuel l k : ℕ) (out : List Value) (it : BPlusTreeIter)
      → next fuel b bounds (at l k out) ≡ some (it, false)
      → scan (suc steps) fuel b bounds (at l k out) ≡ some []
  unfolding scan
  scan_ends steps fuel l k out it e = rw e refl

  positive : (l k n : ℕ) (items : List Item) → Chain b l k n items → 0 < n
  positive l k n items (last_leaf count c le e) = omega arith
  positive l k n items (leaf_end count m c le e rest) = omega arith
  positive l k n items (item count x c lt e r v rest) = omega arith

  -- From index `k` of leaf `l` on, if the entries from there lead to records, are in ascending order,
  -- and none above the upper bound has a key in the range, the loop around `next` ends within as many
  -- calls as there are steps from there, each of as many rounds at most, and sees exactly the records
  -- whose keys lie in the range, in the order of the entries.
  pub scan-selected :
      (steps fuel l k n : ℕ) (items : List Item) (out : List Value)
      → Chain b l k n items
      → Ready bounds items
      → n ≤ fuel
      → n ≤ steps
      → scan steps fuel b bounds (at l k out) ≡ some (selected bounds items)
  scan-selected zero fuel l k n items out chain ready enough steps_enough =
      absurd (omega (arith, positive l k n items chain))
  scan-selected (suc steps) fuel l k n items out chain ready enough steps_enough =
      go (λ l' k' n' rest seen c r a m. scan-selected steps fuel l' k' n' rest seen c r a m)
        (next-Answers fuel l k n items out chain ready enough)
    where
      go :
          ((l' k' n' : ℕ) (rest : List Item) (seen : List Value)
            → Chain b l' k' n' rest
            → Ready bounds rest
            → n' ≤ fuel
            → n' ≤ steps
            → scan steps fuel b bounds (at l' k' seen) ≡ some (selected bounds rest))
          → Answers items n (next fuel b bounds (at l k out))
          → scan (suc steps) fuel b bounds (at l k out) ≡ some (selected bounds items)
      go later (_, done, yields l' k' n' x rest chain' ready' less_n within e) = rw e (
          scan_yields steps fuel l k out (at l' k' x.values) (selected bounds rest) done
            (later l' k' n' rest x.values chain' ready' (omega arith) (omega arith)))
      go later (_, done, ends it e) = rw e (scan_ends steps fuel l k out it done)
