-- ===== src/Value/Store/Move.antt =====
-- The moves of src/relational_model/value.cc: an array changes its owner.
use model_lib.Prelude.{
  ℕ, ◌≡◌, ◌≢◌, ◌∙◌, sym, ap, Option, none, some, ℕ_discrete, arith, ◌==◌, if◌then◌else◌,
}
use model_lib.Value.{Value, as_str, as_int}
use model_lib.Value.Store.{pointer, Memory, object_value, value_at}
use model_lib.Value.Store.Owned.{Owned-move, object_block, block_of}
use model_lib.Value.Store.Changes.{
  string, integer, IsTyped, holds_str, holds_int, IsOwned, Gives, value_same,
}

-- Object `o` gets a value.
abbrev pub put : ℕ → Option Value → (ℕ → Option Value) → ℕ → Option Value
put o v values j = if o == j then v else values j

-- What is left of a value that was moved: of a string nothing.
abbrev pub left : Option Value → Option Value
left none = none
left (some (as_str s)) = none
left (some (as_int z)) = some (as_int z)

-- One array goes from object `src` to object `o`, which has none.
module _ (m : Memory) (own : IsOwned m) (m' : Memory) (o src p : ℕ) (apart : o ≢ src)
    (free : block_of m o ≡ none) (at : m.objects src ≡ string p) (here : m'.objects o ≡ string p)
    (there : m'.objects src ≡ integer (pointer p))
    (others : (j : ℕ) → o ≢ j → src ≢ j → m'.objects j ≡ m.objects j)
    (same : (q : ℕ) → m'.blocks q ≡ m.blocks q) (next : m'.next ≡ m.next) where
  moved-IsTyped : (j : ℕ) → IsTyped (m'.objects j)
  moved-IsTyped j = elim (ℕ_discrete o j) [
    | yes e ↦ rw⁻¹ e (rw here (holds_str p))
    | no ne ↦ elim (ℕ_discrete src j) [
      | yes e ↦ rw⁻¹ e (rw there (holds_int (pointer p)))
      | no away ↦ rw (others j ne away) (own.typed j)
    ]
  ]

  string_value : object_value m'.blocks (string p) ≡ value_at m src
  unfolding value_at
  string_value = rw (same p) (sym (ap (object_value m.blocks) at))

  moved_value : (j : ℕ) → value_at m' j ≡ put o (value_at m src) (put src none (value_at m)) j
  unfolding value_at
  moved_value j = elim (ℕ_discrete o j) [
    | yes e ↦ rw⁻¹ e (ap (object_value m'.blocks) here ∙ string_value ∙ ground arith)
    | no ne ↦ elim (ℕ_discrete src j) [
      | yes e ↦ rw⁻¹ e (ap (object_value m'.blocks) there ∙ ground arith)
      | no away ↦ value_same m own m' j (others j ne away) (λ q e. same q) ∙ ground arith
    ]
  ]

  pub move-Gives : Gives m' (put o (value_at m src) (put src none (value_at m)))
  move-Gives = (
    record {
      typed = moved-IsTyped;
      owned = rw next (
          Owned-move (block_of m) (block_of m') m.blocks m'.blocks m.next own.owned o src apart free
            (ap object_block here ∙ sym (ap object_block at)) (ap object_block there)
            (λ j ne away. ap object_block (others j ne away)) same);
    },
    moved_value,
  )
