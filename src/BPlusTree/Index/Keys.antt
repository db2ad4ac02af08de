-- ===== src/BPlusTree/Index/Keys.antt =====
-- `BPlusTree::get_iter`: the integers that stand for the ends of a range, and what a scan between them
-- sees.
use Prim.Native.Nat.{Ordering}
use model_lib.Prelude.{
  ℕ, ◌≤◌, ◌≡◌, refl, Bool, true, false, ◌&&◌, some, List, [], ◌∷◌, All, arith, get_elem?, some-inj,
  Bool-cases, inl, inr,
}
use model_lib.Prelude.Int.{ℤ, ◌<ℤ◌, to_size}
use model_lib.Value.{DataType, str, int, Value, as_str, as_int, strcmp, greater_equal, less_equal}
use model_lib.Value
use model_lib.BPlusTree.{BPlusTreeRecord, IsEntry, rid_less, less}
use model_lib.BPlusTree.Key.{serialize_string_key}
use model_lib.BPlusTree.Key.Order.{IsAscii, serialize_string_key_mono}
use model_lib.BPlusTree.Index.{BPlusTree, Bounds, encode_key, highest_rid, lowest_rid, get_iter}
use model_lib.BPlusTree.Index.Iter.{in_range, reset, scan}
use model_lib.BPlusTree.Tree.Search.{dir_at, IsSubtree, Divides, search_leaf-Divides}
use model_lib.BPlusTree.Index.Range.{Item, Chain, Ready, selected, at, scan-selected}

-- A string of ASCII characters, or an integer.
abbrev pub IsPlain : Value → Type 0
IsPlain (as_int z) = Unit
IsPlain (as_str s) = All IsAscii s

-- The entry is that of the record's key.
pub record IsKeyed (type : DataType) (x : Item) : Type 0 where
  pub entry : IsEntry x.entry
  pub encoded : encode_key type x.key ≡ some x.entry.encoded_key
  pub plain : IsPlain x.key

abbrev pub Ascending : List Item → Type 0
Ascending [] = Unit
Ascending (x ∷ items) = All (λ y. less x.entry y.entry ≡ true) items × Ascending items

-- What of the items lies between two values: the records whose keys are not below the first and not
-- above the second, in their order.
pub data Between (min max : Value) : List Item → List (List Value) → Type 0 where
  no_items : Between min max [] []
  inside :
      {items : List Item} {seen : List (List Value)} (x : Item)
      → Value.less x.key min ≡ false
      → Value.less max x.key ≡ false
      → Between min max items seen
      → Between min max (x ∷ items) (x.values ∷ seen)
  below :
      {items : List Item} {seen : List (List Value)} (x : Item)
      → Value.less x.key min ≡ true
      → Between min max items seen
      → Between min max (x ∷ items) seen
  above :
      {items : List Item} {seen : List (List Value)} (x : Item)
      → Value.less max x.key ≡ true
      → Between min max items seen
      → Between min max (x ∷ items) seen

-- The test of the iterator agrees with it.
selected-Between :
    (bounds : Bounds) (items : List Item)
    → Between bounds.min bounds.max items (selected bounds items)
unfolding selected in_range greater_equal less_equal
selected-Between bounds [] = no_items
selected-Between bounds (x ∷ items) = elim (Bool-cases (Value.less x.key bounds.min)) [
  | inl under ↦ rw under (below x under (selected-Between bounds items))
  | inr not_under ↦ elim (Bool-cases (Value.less bounds.max x.key)) [
    | inl over ↦ rw (not_under, over) (above x over (selected-Between bounds items))
    | inr not_over ↦
        rw (not_under, not_over) (inside x not_under not_over (selected-Between bounds items))
  ]
]

and_false : (a : Bool) → (a && false) ≡ false
and_false true = refl
and_false false = refl

-- An entry above the highest identifier has a higher key.
above_key :
    (r : BPlusTreeRecord) (z : ℤ)
    → IsEntry r
    → less (record { encoded_key = z; rid = highest_rid }) r ≡ true
    → z <ℤ r.encoded_key
unfolding less rid_less
above_key r z e h = let p = e.page in let s = e.slot in ground arith

less_of_keys :
    (type : DataType) (v w : Value) (a c : ℤ)
    → encode_key type v ≡ some a
    → encode_key type w ≡ some c
    → IsPlain v
    → IsPlain w
    → a <ℤ c
    → Value.less v w ≡ true
unfolding encode_key Value.less
less_of_keys int (as_int x) (as_int y) a c e f p q h =
    let same : x ≡ a = some-inj e in let same' : y ≡ c = some-inj f in ground arith
less_of_keys str (as_str s) (as_str t) a c e f p q h =
    let same : serialize_string_key s ≡ a = some-inj e in
    let same' : serialize_string_key t ≡ c = some-inj f in
    let below : strcmp s t ≡ Ordering.lt =
      (serialize_string_key_mono s t p q).1 (rw (same, same') h) in
    rw below refl
less_of_keys int (as_str s) w a c e f p q h = cc e
less_of_keys int (as_int x) (as_str t) a c e f p q h = cc f
less_of_keys str (as_int x) w a c e f p q h = cc e
less_of_keys str (as_str s) (as_int y) a c e f p q h = cc f

-- An entry below the lowest identifier has a lower key.
below_key :
    (r : BPlusTreeRecord) (z : ℤ)
    → IsEntry r
    → less r (record { encoded_key = z; rid = lowest_rid }) ≡ true
    → r.encoded_key <ℤ z
unfolding less rid_less
below_key r z e h = let p = e.page in let s = e.slot in ground arith

-- What `get_iter` returns, by the integers of the ends.
abbrev pub bounds_of : Value → Value → ℤ → ℤ → Bounds
bounds_of min max low high = record {
  min = min;
  max = max;
  min_record = record { encoded_key = low; rid = lowest_rid };
  max_record = record { encoded_key = high; rid = highest_rid };
}

module _ (b : BPlusTree) (type : DataType) (min max : Value) (low high : ℤ)
    (column : get_elem? b.types b.key_column_idx ≡ some type)
    (encoded_min : encode_key type min ≡ some low) (encoded_max : encode_key type max ≡ some high)
    (plain_min : IsPlain min) (plain_max : IsPlain max) where
  get_iter_done : get_iter b min max ≡ some (bounds_of min max low high)
  unfolding get_iter
  get_iter_done = rw (column, encoded_min, encoded_max) refl

  above_range :
      (x : Item)
      → IsKeyed type x
      → less (bounds_of min max low high).max_record x.entry ≡ true
      → in_range (bounds_of min max low high) x.key ≡ false
  unfolding in_range less_equal
  above_range x keyed over =
      let above : Value.less max x.key ≡ true =
        less_of_keys type max x.key high x.entry.encoded_key encoded_max keyed.encoded plain_max
          keyed.plain (above_key x.entry high keyed.entry over) in
      rw above (and_false (greater_equal x.key min))

  below_range :
      (x : Item)
      → IsKeyed type x
      → less x.entry (bounds_of min max low high).min_record ≡ true
      → Value.less x.key min ≡ true
  below_range x keyed under =
      less_of_keys type x.key min x.entry.encoded_key low keyed.encoded encoded_min keyed.plain
        plain_min (below_key x.entry low keyed.entry under)

  Keyed-Ready :
      (items : List Item)
      → All (IsKeyed type) items
      → Ascending items
      → Ready (bounds_of min max low high) items
  Keyed-Ready [] keyed ascending = tt
  Keyed-Ready (x ∷ items) keyed ascending = (
    λ within. elim (Bool-cases (less (bounds_of min max low high).max_record x.entry)) [
      | inl over ↦ absurd (cc (within, above_range x keyed.0 over))
      | inr under ↦ under
    ],
    ascending.0,
    Keyed-Ready items keyed.1 ascending.1,
  )

  -- Over the ends of a range, which are values of the column's type (a string made of ASCII
  -- characters), `get_iter` returns. From the index of a leaf on, if the entries from there lead to
  -- records, carry the keys of their records (a string made of ASCII characters) and are in ascending
  -- order, the loop around `next` sees exactly the records whose keys are not less than the lower end
  -- and not greater than the upper one, in the order of the entries; and an entry below the one that
  -- `reset` searches for has a key that is less than the lower end.
  pub scan_range :
      (steps l k n : ℕ) (items : List Item) (out : List Value)
      → Chain b l k n items
      → All (IsKeyed type) items
      → Ascending items
      → n ≤ steps
      → (get_iter b min max ≡ some (bounds_of min max low high))
        × ((seen : List (List Value)) × (scan steps steps b
                (bounds_of min max low high)
                (at b (bounds_of min max low high) l k out)
              ≡ some seen)
            × Between min max items seen)
        × ((x : Item)
            → IsKeyed type x
            → less x.entry (bounds_of min max low high).min_record ≡ true
            → Value.less x.key min ≡ true)
  scan_range steps l k n items out chain keyed ascending enough = (
    get_iter_done,
    (
      selected (bounds_of min max low high) items,
      scan-selected b (bounds_of min max low high) steps steps l k n items out chain
          (Keyed-Ready items keyed ascending) enough enough,
      selected-Between (bounds_of min max low high) items,
    ),
    below_range,
  )

-- On a tree of height `h`, of sorted leaves that are not empty and inner nodes whose records part their
-- children, `reset` returns: the iterator then stands in a leaf at the first entry that is not below
-- the one for the lower end, or behind the leaf's last.
pub reset-Divides :
    (b : BPlusTree) (bounds : Bounds) (h : ℕ) (out : List Value)
    → IsSubtree b.tree h (dir_at 0)
    → (l : ℕ) × (k : ℕ) × (reset h b bounds out ≡ some (at b bounds l k out))
      × Divides b.tree bounds.min_record l k
unfolding reset to_size
reset-Divides b bounds h out tree =
    let (l, k, done, divides) = search_leaf-Divides b.tree h 0 bounds.min_record tree in
    (l, k, rw done refl, divides)
