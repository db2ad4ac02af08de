-- ===== src/Value/Store/Changes.antt =====
-- What a change of the memory of values keeps: each array has one owner, and other objects have the
-- values that they had.
use model_lib.Prelude.{
  ℕ, suc, ◌≡◌, ◌≢◌, ◌∙◌, refl, sym, ap, Option, none, some, List, ℕ_discrete, arith, ◌==◌,
  if◌then◌else◌,
}
use model_lib.Value.{DataType, str, int, Value}
use model_lib.Value.Store.{
  ValueUnion, pointer, number, Object, Memory, members_value, object_value, value_at,
}
use model_lib.Value.Store.Owned.{
  Owned, Owned-keep, Owned-new, Owned-delete, members_block, object_block, block_of,
}

abbrev pub string : ℕ → Option Object
string p = some (record { datatype = str; value = pointer p })

abbrev pub integer : ValueUnion → Option Object
integer u = some (record { datatype = int; value = u })

-- An object's members belong together.
pub data IsTyped : Option Object → Type 0 where
  absent : IsTyped none
  holds_str : (p : ℕ) → IsTyped (string p)
  holds_int : (u : ValueUnion) → IsTyped (integer u)

pub record IsOwned (m : Memory) : Type 0 where
  pub typed : (o : ℕ) → IsTyped (m.objects o)
  pub owned : Owned (block_of m) m.blocks m.next

-- The values after the change.
abbrev pub Gives : Memory → (ℕ → Option Value) → Type 0
Gives m values = IsOwned m × ((j : ℕ) → value_at m j ≡ values j)

-- An object that kept its array has its value.
members_same :
    (blocks blocks' : ℕ → Option (List ℕ)) (d : DataType) (u : ValueUnion)
    → ((p : ℕ) → members_block d u ≡ some p → blocks' p ≡ blocks p)
    → members_value blocks' d u ≡ members_value blocks d u
members_same blocks blocks' str (pointer p) same = rw (same p refl) refl
members_same blocks blocks' str (number z) same = refl
members_same blocks blocks' int (pointer p) same = refl
members_same blocks blocks' int (number z) same = refl

object_same :
    (blocks blocks' : ℕ → Option (List ℕ)) (x : Option Object)
    → ((p : ℕ) → object_block x ≡ some p → blocks' p ≡ blocks p)
    → object_value blocks' x ≡ object_value blocks x
object_same blocks blocks' none same = refl
object_same blocks blocks' (some x) same = members_same blocks blocks' x.datatype x.value same

module _ (m : Memory) (own : IsOwned m) (m' : Memory) where
  pub value_same :
      (j : ℕ)
      → m'.objects j ≡ m.objects j
      → ((p : ℕ) → block_of m j ≡ some p → m'.blocks p ≡ m.blocks p)
      → value_at m' j ≡ value_at m j
  unfolding value_at
  value_same j at same =
      ap (object_value m'.blocks) at ∙ object_same m.blocks m'.blocks (m.objects j) same

  -- What is set, where all the other objects stay.
  pub IsTyped-set :
      (o : ℕ)
      → IsTyped (m'.objects o)
      → ((j : ℕ) → o ≢ j → m'.objects j ≡ m.objects j)
      → (j : ℕ) → IsTyped (m'.objects j)
  IsTyped-set o there others j = elim (ℕ_discrete o j) [
    | yes at ↦ rw⁻¹ at there
    | no ne ↦ rw (others j ne) (own.typed j)
  ]

  module _ (o : ℕ) (x : Option Object) (here : m'.objects o ≡ x)
      (others : (j : ℕ) → o ≢ j → m'.objects j ≡ m.objects j) where
    block_others : (j : ℕ) → o ≢ j → block_of m' j ≡ block_of m j
    block_others j ne = ap object_block (others j ne)

    values_set :
        ((j p : ℕ) → o ≢ j → block_of m j ≡ some p → m'.blocks p ≡ m.blocks p)
        → (j : ℕ) → value_at m' j ≡ (if o == j then object_value m'.blocks x else value_at m j)
    unfolding value_at
    values_set same j = elim (ℕ_discrete o j) [
      | yes at ↦ rw⁻¹ at (ap (object_value m'.blocks) here ∙ ground arith)
      | no ne ↦ value_same j (others j ne) (λ p e. same j p ne e) ∙ ground arith
    ]

    block_all : object_block x ≡ block_of m o → (j : ℕ) → block_of m' j ≡ block_of m j
    block_all e j = elim (ℕ_discrete o j) [
      | yes at ↦ rw⁻¹ at (ap object_block here ∙ e)
      | no ne ↦ block_others j ne
    ]

    module _ (typed : IsTyped x) where
      all-IsTyped : (j : ℕ) → IsTyped (m'.objects j)
      all-IsTyped = IsTyped-set o (rw here typed) others

      -- Members that own the array that the object had, and no other content.
      pub set-Gives :
          object_block x ≡ block_of m o
          → ((q : ℕ) → m'.blocks q ≡ m.blocks q)
          → m'.next ≡ m.next
          → Gives m' (λ j. if o == j then object_value m'.blocks x else value_at m j)
      set-Gives e same next = (
        record {
          typed = all-IsTyped;
          owned = rw next (
              Owned-keep (block_of m) (block_of m') m.blocks m'.blocks m.next own.owned
                (block_all e) (λ p s at. (s, same p ∙ at)) (λ p s at. (s, sym (same p) ∙ at)));
        },
        values_set (λ j p ne at. same p),
      )

      -- New content for the array that the object had.
      pub write-Gives :
          (p : ℕ) (s s' : List ℕ)
          → object_block x ≡ block_of m o
          → block_of m o ≡ some p
          → m.blocks p ≡ some s
          → m'.blocks p ≡ some s'
          → ((q : ℕ) → p ≢ q → m'.blocks q ≡ m.blocks q)
          → m'.next ≡ m.next
          → Gives m' (λ j. if o == j then object_value m'.blocks x else value_at m j)
      write-Gives p s s' e mine old new same next = (
        record {
          typed = all-IsTyped;
          owned = rw next (
              Owned-keep (block_of m) (block_of m') m.blocks m'.blocks m.next own.owned
                (block_all e)
                (λ q t at. elim (ℕ_discrete p q) [
                  | yes here' ↦ (s', rw⁻¹ here' new)
                  | no ne ↦ (t, same q ne ∙ at)
                ])
                (λ q t at. elim (ℕ_discrete p q) [
                  | yes here' ↦ (s, rw⁻¹ here' old)
                  | no ne ↦ (t, sym (same q ne) ∙ at)
                ]));
        },
        values_set (λ j q ne at. same q (λ e'. ne (own.owned.apart o j q (mine ∙ ap some e') at))),
      )

      -- A new array for an object that had none.
      pub new-Gives :
          (s : List ℕ)
          → block_of m o ≡ none
          → object_block x ≡ some m.next
          → m'.blocks m.next ≡ some s
          → ((q : ℕ) → m.next ≢ q → m'.blocks q ≡ m.blocks q)
          → m'.next ≡ suc m.next
          → Gives m' (λ j. if o == j then object_value m'.blocks x else value_at m j)
      new-Gives s free mine new same next = (
        record {
          typed = all-IsTyped;
          owned = rw next (
              Owned-new (block_of m) (block_of m') m.blocks m'.blocks m.next own.owned o s free
                (ap object_block here ∙ mine) block_others new same);
        },
        values_set (λ j p ne at.
            let (t, old) = own.owned.live j p at in
            same p (λ e. let lt = own.owned.below p t old in omega arith)),
      )

      -- The array of the object is deleted.
      pub delete-Gives :
          (p : ℕ)
          → block_of m o ≡ some p
          → object_block x ≡ none
          → m'.blocks p ≡ none
          → ((q : ℕ) → p ≢ q → m'.blocks q ≡ m.blocks q)
          → m'.next ≡ m.next
          → Gives m' (λ j. if o == j then object_value m'.blocks x else value_at m j)
      delete-Gives p mine gone deleted same next = (
        record {
          typed = all-IsTyped;
          owned = rw next (
              Owned-delete (block_of m) (block_of m') m.blocks m'.blocks m.next own.owned o p mine
                (ap object_block here ∙ gone) block_others deleted same);
        },
        values_set (λ j q ne at. same q (λ e'. ne (own.owned.apart o j q (mine ∙ ap some e') at))),
      )
