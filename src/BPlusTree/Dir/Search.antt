-- ===== src/BPlusTree/Dir/Search.antt =====
-- `search_child_idx` finds the child whose range holds the entry searched for.
use model_lib.Prelude.{
  ℕ, zero, suc, ◌+◌, ◌-◌, ◌/◌, ◌≤◌, ◌<◌, ◌≡◌, inl, inr, true, false, Option, some, arith, dec_lt,
  Bool-cases,
}
use model_lib.Prelude.Int.{ℤ, pos, ◌+ℤ◌, ◌-ℤ◌, half, pos-pred, pos-+ℤ, eqb_ne, eqb_same}
use model_lib.Page.{Page}
use model_lib.BPlusTree.{BPlusTreeRecord, less}
use model_lib.BPlusTree.Order.{less_trans}
use model_lib.BPlusTree.Dir.{
  max_children, get_child_count, get_record, middle, search_loop, search_child_idx,
}

-- The inner node has `suc count` children, and the records `record_at 0`, … below `count` part them,
-- in ascending order.
pub record IsDir (p : Page) (count : ℕ) (record_at : ℕ → BPlusTreeRecord) : Type 0 where
  pub count_is : get_child_count p ≡ some (pos (suc count))
  pub fits : suc count ≤ max_children
  pub reads : (i : ℕ) → i < count → get_record p (pos i) ≡ some (record_at i)
  pub sorted : (i j : ℕ) → i < j → j < count → less (record_at i) (record_at j) ≡ true

-- `x` belongs under child `k`: the records left of it are not above `x`, those right of it are.
pub record Routes (x : BPlusTreeRecord) (count : ℕ) (record_at : ℕ → BPlusTreeRecord) (k : ℕ)
    : Type 0 where
  pub inside : k ≤ count
  pub left : (i : ℕ) → i < k → less x (record_at i) ≡ false
  pub right : (i : ℕ) → k ≤ i → i < count → less x (record_at i) ≡ true

middle_lem : (f t : ℕ) → f < t → middle (pos f) (pos t) ≡ pos ((f + t + 1) / 2 - 1)
unfolding middle half ◌+ℤ◌ ◌-ℤ◌
middle_lem f t h = ground arith

module _ (p : Page) (x : BPlusTreeRecord) (count : ℕ) (record_at : ℕ → BPlusTreeRecord)
    (dir : IsDir p count record_at) where
  record Inv (from to : ℕ) : Type 0 where
    ordered : from ≤ to
    bounded : to ≤ count
    left : (i : ℕ) → i < from → less x (record_at i) ≡ false
    right : (i : ℕ) → to ≤ i → i < count → less x (record_at i) ≡ true

  abbrev Finds : Option ℤ → Type 0
  Finds o = (k : ℕ) × (o ≡ some (pos k)) × Routes x count record_at k

  right_from :
      (m i : ℕ) → m ≤ i → i < count → less x (record_at m) ≡ true → less x (record_at i) ≡ true
  right_from m i le lt h = elim (dec_lt m i) [
    | yes l ↦ less_trans x (record_at m) (record_at i) h (dir.sorted m i l lt)
    | no n ↦ let e : i ≡ m = omega arith in rw e h
  ]

  left_to :
      (i m : ℕ) → i ≤ m → m < count → less x (record_at m) ≡ false → less x (record_at i) ≡ false
  left_to i m le lt h = elim (Bool-cases (less x (record_at i))) [
    | inr n ↦ n
    | inl y ↦ absurd (cc (right_from i m le lt y, h))
  ]

  module _ (from to : ℕ) (inv : Inv from to) (more : from < to) where
    mid : ℕ
    mid = (from + to + 1) / 2 - 1

    mid_bounds : (from ≤ mid) × (mid < to)
    unfolding mid
    mid_bounds = omega arith

    mid_inside : mid < count
    mid_inside = let b = mid_bounds in let c = inv.bounded in omega arith

    lower-Inv : less x (record_at mid) ≡ true → Inv from mid
    lower-Inv h = record {
      ordered = mid_bounds.0;
      bounded = let m = mid_inside in omega arith;
      left = inv.left;
      right = λ i le lt. right_from mid i le lt h;
    }

    upper-Inv : less x (record_at mid) ≡ false → Inv (mid + 1) to
    upper-Inv h = record {
      ordered = let b = mid_bounds in omega arith;
      bounded = inv.bounded;
      left = λ i lt. left_to i mid (omega arith) mid_inside h;
      right = inv.right;
    }

  search_loop-Finds :
      (fuel from to : ℕ)
      → Inv from to
      → to - from < fuel
      → Finds (search_loop fuel p x (pos from) (pos to))
  unfolding search_loop mid
  search_loop-Finds zero from to inv enough = absurd (omega arith)
  search_loop-Finds (suc fuel) from to inv enough = elim (dec_lt from to) [
    | no last ↦ (
      from,
      rw (eqb_same from to (omega arith)),
      record {
        inside = let o = inv.ordered in let b = inv.bounded in omega arith;
        left = inv.left;
        right = λ i le lt. inv.right i (let o = inv.ordered in omega arith) lt;
      },
    )
    | yes more ↦
        let b = mid_bounds from to inv more in
        rw
          (
            eqb_ne from to (omega arith),
            middle_lem from to more,
            dir.reads (mid from to inv more) (mid_inside from to inv more),
          )
          (elim (Bool-cases (less x (record_at (mid from to inv more)))) [
            | inl lower ↦ rw lower (
                search_loop-Finds fuel from (mid from to inv more)
                  (lower-Inv from to inv more lower) (omega arith))
            | inr upper ↦
                rw (upper, pos-+ℤ (mid from to inv more) 1)
                  (search_loop-Finds fuel (mid from to inv more + 1) to
                    (upper-Inv from to inv more upper) (omega arith))
          ])
  ]

  -- On an inner node with sorted records `search_child_idx` returns, and its result is the index of
  -- the child for the entry: the records before it are not above the entry, and those from it on are.
  pub search_child_idx-Routes :
      (k : ℕ) × (search_child_idx p x ≡ some (pos k)) × Routes x count record_at k
  unfolding search_child_idx
  search_child_idx-Routes =
      rw (dir.count_is, pos-pred (suc count) (omega arith))
        (let e : suc count - 1 ≡ count = omega arith in
          rw e (search_loop-Finds (suc (suc count)) 0 count whole (omega arith)))
    where
      whole : Inv 0 count
      whole = record {
        ordered = omega arith;
        bounded = omega arith;
        left = λ i lt. absurd (omega arith);
        right = λ i le lt. absurd (omega arith);
      }
