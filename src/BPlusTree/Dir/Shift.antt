-- ===== src/BPlusTree/Dir/Shift.antt =====
-- The shift of records and children that makes room for a child's split, in `insert_record` of
-- src/storage/b_plus_tree/b_plus_tree_dir.cc, and the split put there.
use model_lib.Prelude.{
  ℕ, zero, suc, ◌+◌, ◌-◌, ◌≤◌, ◌<◌, ◌≡◌, ◌∙◌, refl, ap, Option, some, arith, ltb, ◌==◌, ==_iff,
  gt→eqb, lt→ltb, le→ltb, if◌then◌else◌, ◌>>=◌, dec_lt, ℕ_discrete,
}
use model_lib.Prelude.Int.{ℤ, pos, negsuc, ◌+ℤ◌, ◌-ℤ◌, IsInt32, pos-+ℤ, pos-pred}
use model_lib.Page.{Page}
use model_lib.BPlusTree.{BPlusTreeRecord, BPlusTreeSplit, IsEntry}
use model_lib.BPlusTree.Dir.{max_records, get_child, set_child, get_record, set_record, shift_right}
use model_lib.BPlusTree.Dir.Access.{
  with_child, with_record, set_child_lem, set_record_lem, get_child-with_child_same,
  get_child-with_child_ne, get_record-with_child, get_record-with_record_same,
  get_record-with_record_ne, get_child-with_record, get_record_before,
}

-- A sequence with `x` put in at index `k`.
abbrev pub insert_at {ℓ} : {A : Type ℓ} → ℕ → A → (ℕ → A) → ℕ → A
insert_at k x f i = if ltb i k then f i else if i == k then x else f (i - 1)

pub insert_at_lt {ℓ} :
    {A : Type ℓ} (k : ℕ) (x : A) (f : ℕ → A) (i : ℕ) → i < k → insert_at k x f i ≡ f i
insert_at_lt k x f i h = rw (lt→ltb i k h)

pub insert_at_eq {ℓ} :
    {A : Type ℓ} (k : ℕ) (x : A) (f : ℕ → A) (i : ℕ) → i ≡ k → insert_at k x f i ≡ x
insert_at_eq k x f i h = rw (le→ltb i k (omega arith), (==_iff i k).1 h)

pub insert_at_gt {ℓ} :
    {A : Type ℓ} (k : ℕ) (x : A) (f : ℕ → A) (i : ℕ) → k < i → insert_at k x f i ≡ f (i - 1)
insert_at_gt k x f i h = rw (le→ltb i k (omega arith), gt→eqb i k h)

before_zero : pos 0 -ℤ pos 1 ≡ negsuc 0
unfolding ◌-ℤ◌
before_zero = refl

back : (i : ℕ) → i + 1 - 1 ≡ i
back i = omega arith

module _ (n : ℕ) (record_at : ℕ → BPlusTreeRecord) (child_at : ℕ → ℤ) (room : n < max_records)
    (entries : (i : ℕ) → i < n → IsEntry (record_at i))
    (numbers : (i : ℕ) → i ≤ n → IsInt32 (child_at i)) where
  -- The node while it is shifted: what stands from index `u` on has moved by one.
  pub record Shifted (p : Page) (u : ℕ) : Type 0 where
    pub low : (j : ℕ) → j < u → j < n → get_record p (pos j) ≡ some (record_at j)
    pub high : (j : ℕ) → u ≤ j → j ≤ n → 0 < j → get_record p (pos j) ≡ some (record_at (j - 1))
    pub child_low : (j : ℕ) → j ≤ u → j ≤ n → get_child p (pos j) ≡ some (child_at j)
    pub child_high : (j : ℕ) → u < j → j ≤ n + 1 → get_child p (pos j) ≡ some (child_at (j - 1))

  -- The page after one round at index `i`, where `r` was read before it.
  round : Page → ℕ → BPlusTreeRecord → Page
  round p i r = with_child (with_record p i r) (i + 1) (child_at i)

  module _ (p : Page) (i : ℕ) (r : BPlusTreeRecord) (le : i ≤ n) (e : 0 < i → r ≡ record_at (i - 1))
      (s : Shifted p (i + 1)) where
    q : Page
    q = with_record p i r

    round_high :
        (j : ℕ)
        → i ≤ j
        → j ≤ n
        → 0 < j
        → get_record (round p i r) (pos j) ≡ some (record_at (j - 1))
    unfolding round
    round_high j ge l up =
        get_record-with_child (with_record p i r) (i + 1) (child_at i) (omega arith) j (omega arith)
        ∙ elim (ℕ_discrete j i) [
          | no ne ↦
              get_record-with_record_ne p i r (omega arith) j (omega arith) ne
              ∙ s.high j (omega arith) l up
          | yes same ↦
              let before : r ≡ record_at (i - 1) = e (omega arith) in
              rw (same, before)
                (get_record-with_record_same p i (record_at (i - 1)) (omega arith)
                  (entries (i - 1) (omega arith)))
        ]

    round_child_high :
        (j : ℕ) → i < j → j ≤ n + 1 → get_child (round p i r) (pos j) ≡ some (child_at (j - 1))
    unfolding round
    round_child_high j gt l = elim (ℕ_discrete j (i + 1)) [
      | no ne ↦
          get_child-with_child_ne (with_record p i r) (i + 1) (child_at i) (omega arith) j
            (omega arith) ne
          ∙ get_child-with_record p i r (omega arith) j (omega arith)
          ∙ s.child_high j (omega arith) l
      | yes same ↦
          let back : i + 1 - 1 ≡ i = omega arith in
          rw (same, back)
            (get_child-with_child_same (with_record p i r) (i + 1) (child_at i) (omega arith)
              (numbers i le))
    ]

    round-Shifted : Shifted (round p i r) i
    unfolding round
    round-Shifted = record {
      low = λ j lt l.
          get_record-with_child (with_record p i r) (i + 1) (child_at i) (omega arith) j
            (omega arith)
          ∙ get_record-with_record_ne p i r (omega arith) j (omega arith) (omega arith)
          ∙ s.low j (omega arith) l;
      high = round_high;
      child_low = λ j lt l.
          get_child-with_child_ne (with_record p i r) (i + 1) (child_at i) (omega arith) j
            (omega arith) (omega arith)
          ∙ get_child-with_record p i r (omega arith) j (omega arith)
          ∙ s.child_low j (omega arith) l;
      child_high = round_child_high;
    }

  -- What a round reads: the record before the index, or at index 0 bytes that are overwritten later.
  record_before :
      (p : Page) (i : ℕ)
      → i ≤ n
      → Shifted p (i + 1)
      → (r : BPlusTreeRecord) × (get_record p (pos i -ℤ pos 1) ≡ some r)
        × (0 < i → r ≡ record_at (i - 1))
  record_before p i le s = elim (dec_lt 0 i) [
    | yes up ↦ (
      record_at (i - 1),
      rw (pos-pred i up) (s.low (i - 1) (omega arith) (omega arith)),
      λ h. refl,
    )
    | no zero_index ↦
        let (r, e) = get_record_before p in
        let at : i ≡ 0 = omega arith in (r, rw (at, before_zero) e, λ up. absurd (omega arith))
  ]

  shift_right_step :
      (m i : ℕ) (p : Page) (r : BPlusTreeRecord)
      → i ≤ n
      → get_record p (pos i -ℤ pos 1) ≡ some r
      → Shifted p (i + 1)
      → shift_right (suc m) (pos (i + 1) -ℤ pos 1) p ≡ shift_right m (pos i -ℤ pos 1) (round p i r)
  unfolding shift_right round
  shift_right_step m i p r le e s = rw (
    pos-pred (i + 1) (omega arith),
    back i,
    e,
    set_record_lem p i r (omega arith),
    get_child-with_record p i r (omega arith) i (omega arith),
    s.child_low i (omega arith) le,
    pos-+ℤ i 1,
    set_child_lem (with_record p i r) (i + 1) (child_at i) (omega arith),
  )

  -- Before the first round.
  pub start :
      (p : Page)
      → ((i : ℕ) → i < n → get_record p (pos i) ≡ some (record_at i))
      → ((i : ℕ) → i ≤ n → get_child p (pos i) ≡ some (child_at i))
      → Shifted p (n + 1)
  start p records children = record {
    low = λ j a b. records j b;
    high = λ j a b c. absurd (omega arith);
    child_low = λ j a b. children j b;
    child_high = λ j a b. absurd (omega arith);
  }

  pub shift_right-Shifted :
      (k m : ℕ) (p : Page)
      → k + m ≤ n + 1
      → Shifted p (k + m)
      → (q : Page) × (shift_right m (pos (k + m) -ℤ pos 1) p ≡ some q) × Shifted q k
  unfolding shift_right
  shift_right-Shifted k zero p le s = let e : k + 0 ≡ k = omega arith in (p, refl, rw e at s)
  shift_right-Shifted k (suc m) p le s =
      let at : k + suc m ≡ k + m + 1 = omega arith in
      let s' : Shifted p (k + m + 1) = (rw at at s) in
      let (r, e, same) = record_before p (k + m) (omega arith) s' in
      let (q, done, shifted) =
        shift_right-Shifted k m (round p (k + m) r) (omega arith)
          (round-Shifted p (k + m) r (omega arith) same s') in
      (
        q,
        ap (λ u. shift_right (suc m) (pos u -ℤ pos 1) p) at
            ∙ shift_right_step m (k + m) p r (omega arith) e s'
            ∙ done,
        shifted,
      )

  module _ (k : ℕ) (inside : k ≤ n) (split : BPlusTreeSplit) (entry : IsEntry split.record_up)
      (page_number : IsInt32 split.encoded_page_number) where
    pub put_split : Page → Page
    put_split q = with_child (with_record q k split.record_up) (k + 1) split.encoded_page_number

    pub put_split_lem :
        (q : Page)
        → (set_record q (pos k) split.record_up
            >>= (λ p2. set_child p2 (pos k +ℤ pos 1) split.encoded_page_number))
          ≡ some (put_split q)
    unfolding put_split
    put_split_lem q = rw (
      set_record_lem q k split.record_up (omega arith),
      pos-+ℤ k 1,
      set_child_lem (with_record q k split.record_up) (k + 1) split.encoded_page_number
          (omega arith),
    )

    -- As a chain of binds, of which more may follow.
    pub put_split_done {ℓ} :
        {A : Type ℓ} (q : Page) (rest : Page → Option A)
        → (set_record q (pos k) split.record_up
            >>= (λ p2. set_child p2 (pos k +ℤ pos 1) split.encoded_page_number >>= rest))
          ≡ rest (put_split q)
    unfolding put_split
    put_split_done q rest = rw (
      set_record_lem q k split.record_up (omega arith),
      pos-+ℤ k 1,
      set_child_lem (with_record q k split.record_up) (k + 1) split.encoded_page_number
          (omega arith),
    )

    pub put_split_record :
        (q : Page) (u : ℕ)
        → k ≤ u
        → u ≤ k + 1
        → Shifted q u
        → (i : ℕ) → i < n + 1
        → get_record (put_split q) (pos i) ≡ some (insert_at k split.record_up record_at i)
    unfolding put_split
    put_split_record q u a b s i lt =
        let q1 : Page = with_record q k split.record_up in
        get_record-with_child q1 (k + 1) split.encoded_page_number (omega arith) i (omega arith)
        ∙ elim (ℕ_discrete i k) [
          | yes e ↦
              rw (insert_at_eq k split.record_up record_at i e, e)
                (get_record-with_record_same q k split.record_up (omega arith) entry)
          | no ne ↦
              get_record-with_record_ne q k split.record_up (omega arith) i (omega arith) ne
              ∙ elim (dec_lt i k) [
                | yes l ↦
                    rw (insert_at_lt k split.record_up record_at i l)
                      (s.low i (omega arith) (omega arith))
                | no g ↦
                    rw (insert_at_gt k split.record_up record_at i (omega arith))
                      (s.high i (omega arith) (omega arith) (omega arith))
              ]
        ]

    pub put_split_child :
        (q : Page) (u : ℕ)
        → k ≤ u
        → u ≤ k + 1
        → Shifted q u
        → (i : ℕ) → i ≤ n + 1
        → get_child (put_split q) (pos i)
          ≡ some (insert_at (k + 1) split.encoded_page_number child_at i)
    unfolding put_split
    put_split_child q u a b s i le =
        let q1 : Page = with_record q k split.record_up in
        elim (ℕ_discrete i (k + 1)) [
          | yes e ↦
              rw (insert_at_eq (k + 1) split.encoded_page_number child_at i e, e)
                (get_child-with_child_same q1 (k + 1) split.encoded_page_number (omega arith)
                  page_number)
          | no ne ↦
              get_child-with_child_ne q1 (k + 1) split.encoded_page_number (omega arith) i
                (omega arith) ne
              ∙ get_child-with_record q k split.record_up (omega arith) i (omega arith)
              ∙ elim (dec_lt i (k + 1)) [
                | yes l ↦
                    rw (insert_at_lt (k + 1) split.encoded_page_number child_at i l)
                      (s.child_low i (omega arith) (omega arith))
                | no g ↦
                    rw (insert_at_gt (k + 1) split.encoded_page_number child_at i (omega arith))
                      (s.child_high i (omega arith) le)
              ]
        ]
