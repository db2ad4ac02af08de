-- ===== src/Value/Store/Construct.antt =====
-- The constructors of src/relational_model/value.cc from an integer, a string and another object.
use model_lib.Prelude.{
  ℕ, ◌≤◌, ◌≡◌, ◌∙◌, refl, sym, ap, true, Option, none, some, List, inl, inr, arith, length, leb,
}
use model_lib.Prelude.Int.{ℤ}
use model_lib.Value.{as_str, as_int, max_strlen, c_str}
use model_lib.Value.Store.{
  ValueUnion, number, Object, Memory, set_object, new_str, from_int, from_str, copy, object_value,
  value_at,
}
use model_lib.Value.Store.Owned.{object_block, block_of}
use model_lib.Value.Store.Changes.{
  string, integer, IsTyped, holds_str, holds_int, IsOwned, Gives, set-Gives, new-Gives,
}
use model_lib.Value.Store.Move.{put}
use model_lib.Value.Store.Puts.{
  IsPresent, Answers, other_put, own_put, own_block, other_block, Gives-values, put_value,
  members-cases, string_value,
}

module _ (m : Memory) (own : IsOwned m) where
  -- Members without an array, where there was none.
  pub set_plain :
      (o : ℕ) (x : Option Object)
      → IsTyped x
      → object_block x ≡ none
      → block_of m o ≡ none
      → Gives (set_object m o x) (put o (object_value m.blocks x) (value_at m))
  set_plain o x typed plain free =
      set-Gives m own (set_object m o x) o x (own_put m o x) (λ j ne. other_put m o j x ne) typed
        (plain ∙ sym free) (λ q. refl) refl

  pub new_str-Gives :
      (o : ℕ) (s : List ℕ)
      → block_of m o ≡ none
      → Gives (new_str m o s) (put o (some (as_str s)) (value_at m))
  new_str-Gives o s free =
      let new = own_block m m.next (some s) in
      Gives-values (put_value o (value_at m) (string_value (new_str m o s).blocks m.next s new)) (
        new-Gives m own (new_str m o s) o (string m.next) (own_put m o (string m.next))
          (λ j ne. other_put m o j (string m.next) ne) (holds_str m.next) s free refl new
          (λ q ne. other_block m m.next q (some s) ne) refl)

  pub value_at-string :
      (o p : ℕ) (s : List ℕ)
      → m.objects o ≡ string p
      → m.blocks p ≡ some s
      → value_at m o ≡ some (as_str s)
  unfolding value_at
  value_at-string o p s at held = ap (object_value m.blocks) at ∙ string_value m.blocks p s held

  pub value_at-integer :
      (o : ℕ) (u : ValueUnion)
      → m.objects o ≡ integer u
      → value_at m o ≡ object_value m.blocks (integer u)
  unfolding value_at
  value_at-integer o u at = ap (object_value m.blocks) at

  pub held : (o p : ℕ) → m.objects o ≡ string p → (s : List ℕ) × (m.blocks p ≡ some s)
  held o p at = own.owned.live o p (ap object_block at)

  pub from_int-Answers :
      (o : ℕ) (z : ℤ)
      → m.objects o ≡ none
      → Answers (from_int m o z) (put o (some (as_int z)) (value_at m))
  unfolding from_int
  from_int-Answers o z free =
      (_, refl, set_plain o (integer (number z)) (holds_int (number z)) refl (ap object_block free))

  pub from_str-Answers :
      (o : ℕ) (s : List ℕ)
      → m.objects o ≡ none
      → length s ≤ max_strlen
      → Answers (from_str m o s) (put o (some (as_str (c_str s))) (value_at m))
  unfolding from_str
  from_str-Answers o s free fits =
      let short : leb (length s) max_strlen ≡ true = ground arith in
      (_, rw short refl, new_str-Gives o (c_str s) (ap object_block free))

  pub copy-Answers :
      (o src : ℕ)
      → m.objects o ≡ none
      → IsPresent m src
      → Answers (copy m o src) (put o (value_at m src) (value_at m))
  unfolding copy
  copy-Answers o src free (x, at) = elim (members-cases (m.objects src) x (own.typed src) at) [
    | inl (u, e) ↦ (
      set_object m o (integer u),
      rw e refl,
      Gives-values (put_value o (value_at m) (sym (value_at-integer src u e)))
          (set_plain o (integer u) (holds_int u) refl (ap object_block free)),
    )
    | inr (p, e) ↦
        let (s, st) = held src p e in
        (
          new_str m o s,
          rw (e, st) refl,
          Gives-values (put_value o (value_at m) (sym (value_at-string src p s e st)))
              (new_str-Gives o s (ap object_block free)),
        )
  ]
