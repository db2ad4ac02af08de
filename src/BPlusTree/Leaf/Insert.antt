-- ===== src/BPlusTree/Leaf/Insert.antt =====
-- What `insert_record` of a leaf does on each of its branches.
use model_lib.Prelude.{
  ℕ, ◌≤◌, ◌<◌, ◌≡◌, ◌≢◌, ◌∙◌, ◌⊎◌, inl, inr, refl, ap, true, false, some, arith, dec_lt, Bool-cases,
}
use model_lib.Prelude.Int.{pos, lt→ltb_ℤ, le→ltb_ℤ, pos-ne_zero}
use model_lib.Word.{int32_bytes}
use model_lib.Word.Laws.{length-int32_bytes}
use model_lib.Page.{Page, put}
use model_lib.Page.Access.{put_outside, write_int32_lem, read_int32-put_same}
use model_lib.BPlusTree.{BPlusTreeRecord, IsEntry, less, equal}
use model_lib.BPlusTree.Order.{equal_iff, less_irrefl}
use model_lib.BPlusTree.Leaf.{
  max_records, get_record_count, set_record_count, get_record, set_record, InsertEnd, null,
  problema_1, problema_2, is_duplicate, insert_into_empty, insert_record, search_index,
}
use model_lib.BPlusTree.Leaf.Access.{
  get_record_total, record_offset_lem, put_entry, write_entry_lem, read_entry-put_entry,
  read_entry-Same,
}
use model_lib.BPlusTree.Leaf.Search.{IsLeaf, Parts, search_index-Parts}

module _ (p : Page) (x : BPlusTreeRecord) (entered : IsEntry x) where
  first : Page
  first = put_entry p 8 x

  one : Page
  one = put first 0 (int32_bytes (pos 1))

  one_get : get_record one (pos 0) ≡ some x
  unfolding one first get_record
  one_get = rw ((record_offset_lem 0 (omega arith)).0) (
      read_entry-Same one first 8
        (λ k a b. put_outside first 0 (int32_bytes (pos 1)) k (rw length-int32_bytes (omega arith)))
      ∙ read_entry-put_entry p 8 x (omega arith) entered)

  one_count : get_record_count one ≡ some (pos 1)
  unfolding one get_record_count
  one_count = read_int32-put_same first 0 (pos 1) (omega arith) (omega arith)

  one_done : insert_into_empty p x ≡ some (one, null)
  unfolding insert_into_empty set_record set_record_count one first
  one_done = rw (
    (record_offset_lem 0 (omega arith)).0,
    write_entry_lem p 8 x (omega arith),
    write_int32_lem first 0 (pos 1) (omega arith),
  )

  -- Into an empty leaf an entry, whose integers fit their fields, is inserted: the leaf then holds
  -- this entry and no other.
  pub insert_record-empty :
      get_record_count p ≡ some (pos 0)
      → (q : Page) × (insert_record p x ≡ some (q, null)) × IsLeaf q 1 (λ i. x)
  unfolding insert_record
  insert_record-empty empty = (
    one,
    rw empty one_done,
    record {
      count_is = one_count;
      fits = omega arith;
      reads = λ i lt. let e : i ≡ 0 = omega arith in rw e one_get;
      sorted = λ i j l lt. absurd (omega arith);
    },
  )

-- Which end `insert_record` comes to, from the index of the search and the entry that the page
-- holds there (whether or not the count includes that index).
pub data Ends (x : BPlusTreeRecord) (p : Page) (count k : ℕ) : InsertEnd → Type 0 where
  dropped : k < max_records → get_record p (pos k) ≡ some x → Ends x p count k null
  has_room : count < max_records → get_record p (pos k) ≢ some x → Ends x p count k problema_1
  full :
      count ≡ max_records
      → (k < max_records → get_record p (pos k) ≢ some x)
      → Ends x p count k problema_2

module _ (p : Page) (x : BPlusTreeRecord) (count : ℕ) (entry : ℕ → BPlusTreeRecord)
    (leaf : IsLeaf p count entry) where
  equal-false : (r : BPlusTreeRecord) → equal r x ≡ false → r ≢ x
  equal-false r h e = cc (h, (equal_iff r x).1 e)

  -- The guard, by the entry that the page holds at the index.
  guard_cases :
      (k : ℕ)
      → ((is_duplicate p x (pos k) ≡ some true)
          × (k < max_records)
          × (get_record p (pos k) ≡ some x))
        ⊎ ((is_duplicate p x (pos k) ≡ some false)
            × (k < max_records → get_record p (pos k) ≢ some x))
  unfolding is_duplicate
  guard_cases k = elim (dec_lt k max_records) [
    | no out ↦ inr (rw (le→ltb_ℤ k max_records (omega arith)), λ lt. absurd (out lt))
    | yes lt ↦
        let (r, e) = get_record_total p k lt in
        elim (Bool-cases (equal r x)) [
          | inl same ↦
              inl (
                rw (lt→ltb_ℤ k max_records lt, e, same),
                lt,
                rw e (ap some ((equal_iff r x).0 same)),
              )
          | inr other ↦
              inr (rw (lt→ltb_ℤ k max_records lt, e, other), λ l f. equal-false r other (cc (e, f)))
        ]
  ]

  insert_at :
      (k : ℕ)
      → 0 < count
      → search_index p x ≡ some (pos k)
      → k ≤ count
      → (e : InsertEnd) × (insert_record p x ≡ some (p, e)) × Ends x p count k e
  unfolding insert_record
  insert_at k h found le = elim (guard_cases k) [
    | inl (guard, lt, e) ↦
        (null, rw (leaf.count_is, pos-ne_zero count h, found, guard), dropped lt e)
    | inr (guard, ne) ↦ elim (dec_lt count max_records) [
      | yes lt ↦ (
        problema_1,
        rw (leaf.count_is, pos-ne_zero count h, found, guard, lt→ltb_ℤ count max_records lt),
        has_room lt (ne (omega arith)),
      )
      | no ge ↦ (
        problema_2,
        rw (
          leaf.count_is,
          pos-ne_zero count h,
          found,
          guard,
          le→ltb_ℤ count max_records (omega arith),
        ),
        full (let f = leaf.fits in omega arith) ne,
      )
    ]
  ]

  -- On a sorted leaf that is not empty `insert_record` leaves the page as it is on every branch. It
  -- returns when the page holds the entry at the index of the search, and else runs off its end: at
  -- "Problema 1" when there is room for one more entry, at "Problema 2" when the leaf is full.
  pub insert_record-Ends :
      0 < count
      → (k : ℕ) × (e : InsertEnd) × Parts x count entry k
        × (insert_record p x ≡ some (p, e))
        × Ends x p count k e
  insert_record-Ends h =
      let (k, found, parts) = search_index-Parts p x count entry leaf h in
      let (e, done, ends) = insert_at k h found parts.inside in (k, e, parts, done, ends)

  -- An entry greater than all those of a sorted leaf, which is neither empty nor full, is dropped
  -- as a duplicate, though the leaf does not hold it, if its bytes stand in the page behind the
  -- last entry.
  pub insert_record_drops :
      0 < count
      → count < max_records
      → ((i : ℕ) → i < count → less (entry i) x ≡ true)
      → get_record p (pos count) ≡ some x
      → (insert_record p x ≡ some (p, null)) × ((i : ℕ) → i < count → entry i ≢ x)
  unfolding insert_record is_duplicate
  insert_record_drops h room below stale =
      let (k, found, parts) = search_index-Parts p x count entry leaf h in
      let last : k ≡ count = at_end k parts in
      (
        rw (
          leaf.count_is,
          pos-ne_zero count h,
          found,
          last,
          lt→ltb_ℤ count max_records room,
          stale,
          (equal_iff x x).1 refl,
        ),
        λ i lt e. cc (below i lt, less_irrefl x, e),
      )
    where
      at_end : (k : ℕ) → Parts x count entry k → k ≡ count
      at_end k parts = elim (dec_lt k count) [
        | yes lt ↦ absurd (cc (parts.not_below k (omega arith) lt, below k lt))
        | no ge ↦ let i = parts.inside in omega arith
      ]
