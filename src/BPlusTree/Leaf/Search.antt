-- ===== src/BPlusTree/Leaf/Search.antt =====
-- `search_index` finds the lowest entry that is not below the one searched for.
use model_lib.Prelude.{
  ℕ, zero, suc, ◌+◌, ◌-◌, ◌/◌, ◌≤◌, ◌<◌, ◌≡◌, inl, inr, refl, true, false, Option, some, arith, ltb,
  dec_lt, ℕ_discrete, Bool-cases, lt→ltb, le→ltb,
}
use model_lib.Prelude.Int.{ℤ, pos, pos_part, ◌-ℤ◌, ltb_ℤ}
use model_lib.Page.{Page}
use model_lib.BPlusTree.{BPlusTreeRecord, less}
use model_lib.BPlusTree.Order.{less_trans, less_total, less_asymm}
use model_lib.BPlusTree.Leaf.{
  max_records, get_record_count, get_record, search_end, search_loop, search_index,
}

-- The leaf holds the `count` entries `entry 0`, `entry 1`, …, in ascending order.
pub record IsLeaf (p : Page) (count : ℕ) (entry : ℕ → BPlusTreeRecord) : Type 0 where
  pub count_is : get_record_count p ≡ some (pos count)
  pub fits : count ≤ max_records
  pub reads : (i : ℕ) → i < count → get_record p (pos i) ≡ some (entry i)
  pub sorted : (i j : ℕ) → i < j → j < count → less (entry i) (entry j) ≡ true

-- `k` parts the entries into those below `x` and those that are not.
pub record Parts (x : BPlusTreeRecord) (count : ℕ) (entry : ℕ → BPlusTreeRecord) (k : ℕ)
    : Type 0 where
  pub inside : k ≤ count
  pub below : (i : ℕ) → i < k → less (entry i) x ≡ true
  pub not_below : (i : ℕ) → k ≤ i → i < count → less (entry i) x ≡ false

pred_parts : (u : ℕ) → pos_part (pos u -ℤ pos 1) ≡ u - 1
unfolding ◌-ℤ◌
pred_parts u = ground arith

pred_test : (f u : ℕ) → ltb_ℤ (pos f) (pos u -ℤ pos 1) ≡ ltb (f + 1) u
unfolding ◌-ℤ◌
pred_test f u = ground arith

module _ (p : Page) (x : BPlusTreeRecord) (count : ℕ) (entry : ℕ → BPlusTreeRecord)
    (leaf : IsLeaf p count entry) where
  up_to : (i m : ℕ) → i ≤ m → m < count → less (entry m) x ≡ true → less (entry i) x ≡ true
  up_to i m le lt h = elim (dec_lt i m) [
    | yes l ↦ less_trans (entry i) (entry m) x (leaf.sorted i m l lt) h
    | no n ↦ let e : i ≡ m = omega arith in rw e h
  ]

  on_from : (m i : ℕ) → m ≤ i → i < count → less x (entry m) ≡ true → less x (entry i) ≡ true
  on_from m i le lt h = elim (dec_lt m i) [
    | yes l ↦ less_trans x (entry m) (entry i) h (leaf.sorted m i l lt)
    | no n ↦ let e : i ≡ m = omega arith in rw e h
  ]

  -- What the loop keeps, with `u` for `to + 1`.
  record Inv (from u : ℕ) : Type 0 where
    ordered : from ≤ u
    bounded : u ≤ count
    room : from < count
    below : (i : ℕ) → i < from → less (entry i) x ≡ true
    above : (i : ℕ) → u ≤ i → i < count → less x (entry i) ≡ true

  abbrev Finds : Option ℤ → Type 0
  Finds o = (k : ℕ) × (o ≡ some (pos k)) × Parts x count entry k

  search_end-Finds : (from u : ℕ) → Inv from u → u ≤ from + 1 → Finds (search_end p x from)
  unfolding search_end
  search_end-Finds from u inv last = elim (Bool-cases (less (entry from) x)) [
    | inl lower ↦ (
      from + 1,
      rw (leaf.reads from inv.room, lower),
      record {
        inside = let r = inv.room in omega arith;
        below = λ i lt. up_to i from (omega arith) inv.room lower;
        not_below = λ i le lt. less_asymm x (entry i) (inv.above i (omega arith) lt);
      },
    )
    | inr not_lower ↦ (
      from,
      rw (leaf.reads from inv.room, not_lower),
      record {
        inside = let r = inv.room in omega arith;
        below = inv.below;
        not_below = λ i le lt. elim (ℕ_discrete i from) [
          | yes e ↦ rw e not_lower
          | no ne ↦ less_asymm x (entry i) (inv.above i (omega arith) lt)
        ];
      },
    )
  ]

  found-Parts :
      (m : ℕ)
      → m < count
      → less x (entry m) ≡ false
      → less (entry m) x ≡ false
      → Parts x count entry m
  found-Parts m lt a b =
      let same : x ≡ entry m = less_total x (entry m) a b in
      record {
        inside = omega arith;
        below = λ i l. rw same (leaf.sorted i m l lt);
        not_below = λ i le l. elim (ℕ_discrete i m) [
          | yes e ↦ rw e b
          | no ne ↦ rw same (less_asymm (entry m) (entry i) (leaf.sorted m i (omega arith) l))
        ];
      }

  module _ (from u : ℕ) (inv : Inv from u) (more : from + 1 < u) where
    mid : ℕ
    mid = (from + (u - 1)) / 2

    mid_bounds : (from ≤ mid) × (mid + 1 < u)
    unfolding mid
    mid_bounds = omega arith

    lower-Inv : less x (entry mid) ≡ true → Inv from mid
    lower-Inv h = record {
      ordered = mid_bounds.0;
      bounded = let b = mid_bounds in let c = inv.bounded in omega arith;
      room = inv.room;
      below = inv.below;
      above = λ i le lt. on_from mid i le lt h;
    }

    upper-Inv : less (entry mid) x ≡ true → Inv (mid + 1) u
    upper-Inv h = record {
      ordered = let b = mid_bounds in omega arith;
      bounded = inv.bounded;
      room = let b = mid_bounds in let c = inv.bounded in omega arith;
      below = λ i lt.
          up_to i mid (omega arith) (let b = mid_bounds in let c = inv.bounded in omega arith) h;
      above = inv.above;
    }

  search_loop-Finds :
      (fuel from u : ℕ)
      → Inv from u
      → u - from < fuel
      → Finds (search_loop fuel p x from (pos u -ℤ pos 1))
  unfolding search_loop mid
  search_loop-Finds zero from u inv enough = absurd (omega arith)
  search_loop-Finds (suc fuel) from u inv enough = elim (dec_lt (from + 1) u) [
    | no last ↦
        rw (pred_test from u, le→ltb (from + 1) u (omega arith))
          (search_end-Finds from u inv (omega arith))
    | yes more ↦
        let b = mid_bounds from u inv more in
        let inside : mid from u inv more < count = (let c = inv.bounded in omega arith) in
        rw
          (
            pred_test from u,
            lt→ltb (from + 1) u more,
            pred_parts u,
            leaf.reads (mid from u inv more) inside,
          )
          (elim (Bool-cases (less x (entry (mid from u inv more)))) [
            | inl lower ↦ rw lower (
                search_loop-Finds fuel from (mid from u inv more) (lower-Inv from u inv more lower)
                  (omega arith))
            | inr not_lower ↦
                rw not_lower (elim (Bool-cases (less (entry (mid from u inv more)) x)) [
                  | inl upper ↦ rw upper (
                      search_loop-Finds fuel (mid from u inv more + 1) u
                        (upper-Inv from u inv more upper) (omega arith))
                  | inr not_upper ↦ rw not_upper (
                    mid from u inv more,
                    refl,
                    found-Parts (mid from u inv more) inside not_lower not_upper,
                  )
                ])
          ])
  ]

  start-Inv : 0 < count → Inv 0 count
  start-Inv h = record {
    ordered = omega arith;
    bounded = omega arith;
    room = h;
    below = λ i lt. absurd (omega arith);
    above = λ i le lt. absurd (omega arith);
  }

  -- On a sorted leaf that is not empty `search_index` returns, and its result is the index of the
  -- lowest entry that is greater than or equal to the one searched for, or the count if all entries
  -- are lower.
  pub search_index-Parts :
      0 < count → (k : ℕ) × (search_index p x ≡ some (pos k)) × Parts x count entry k
  unfolding search_index
  search_index-Parts h =
      rw leaf.count_is (search_loop-Finds (suc count) 0 count (start-Inv h) (omega arith))
