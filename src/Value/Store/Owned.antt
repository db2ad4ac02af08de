-- ===== src/Value/Store/Owned.antt =====
-- Who deletes an array: each belongs to one object, and each string object has one.
use model_lib.Prelude.{
  ℕ, suc, ◌<◌, ◌≡◌, ◌≢◌, ◌⊎◌, ◌∙◌, sym, ap, Option, none, some, List, arith, ℕ_discrete, inl, inr,
}
use model_lib.Value.{DataType, str, int}
use model_lib.Value.Store.{ValueUnion, pointer, number, Object, Memory}

-- The array of an object.
abbrev pub members_block : DataType → ValueUnion → Option ℕ
members_block str (pointer p) = some p
members_block str (number z) = none
members_block int u = none

abbrev pub object_block : Option Object → Option ℕ
object_block none = none
object_block (some x) = members_block x.datatype x.value

abbrev pub block_of : Memory → ℕ → Option ℕ
block_of m o = object_block (m.objects o)

-- `owner` leads from an object to its array.
pub record Owned (owner : ℕ → Option ℕ) (blocks : ℕ → Option (List ℕ)) (next : ℕ) : Type 0 where
  pub live : (o p : ℕ) → owner o ≡ some p → (s : List ℕ) × (blocks p ≡ some s)
  pub apart : (o o' p : ℕ) → owner o ≡ some p → owner o' ≡ some p → o ≡ o'
  pub no_leak : (p : ℕ) (s : List ℕ) → blocks p ≡ some s → (o : ℕ) × (owner o ≡ some p)
  pub below : (p : ℕ) (s : List ℕ) → blocks p ≡ some s → p < next

module _ (owner owner' : ℕ → Option ℕ) (blocks blocks' : ℕ → Option (List ℕ)) (next : ℕ)
    (owned : Owned owner blocks next) where
  -- The arrays stay where they are; their content may change.
  pub Owned-keep :
      ((j : ℕ) → owner' j ≡ owner j)
      → ((p : ℕ) (s : List ℕ) → blocks p ≡ some s → (s' : List ℕ) × (blocks' p ≡ some s'))
      → ((p : ℕ) (s' : List ℕ) → blocks' p ≡ some s' → (s : List ℕ) × (blocks p ≡ some s))
      → Owned owner' blocks' next
  Owned-keep same to from = record {
    live = λ o p e. let (s, at) = owned.live o p (sym (same o) ∙ e) in to p s at;
    apart = λ o o' p e e'. owned.apart o o' p (sym (same o) ∙ e) (sym (same o') ∙ e');
    no_leak = λ p s' e.
        let (s, at) = from p s' e in let (o, mine) = owned.no_leak p s at in (o, same o ∙ mine);
    below = λ p s' e. let (s, at) = from p s' e in owned.below p s at;
  }

  -- Object `o`, which had no array, gets the new one.
  pub Owned-new :
      (o : ℕ) (s : List ℕ)
      → owner o ≡ none
      → owner' o ≡ some next
      → ((j : ℕ) → o ≢ j → owner' j ≡ owner j)
      → blocks' next ≡ some s
      → ((q : ℕ) → next ≢ q → blocks' q ≡ blocks q)
      → Owned owner' blocks' (suc next)
  Owned-new o s free mine others new same = record {
    live = λ j p e. elim (ℕ_discrete o j) [
      | yes at ↦
          let is_next : some next ≡ some p = sym mine ∙ ap owner' at ∙ e in
          let here : next ≡ p = cc is_next in (s, rw⁻¹ here new)
      | no ne ↦
          let (t, old) = owned.live j p (sym (others j ne) ∙ e) in
          (t, same p (not_next p t old) ∙ old)
    ];
    apart = λ j j' p e e'. elim (ℕ_discrete o j) [
      | yes at ↦ elim (ℕ_discrete o j') [
        | yes at' ↦ sym at ∙ at'
        | no ne' ↦ absurd (not_mine j j' p at ne' e e')
      ]
      | no ne ↦ elim (ℕ_discrete o j') [
        | yes at' ↦ absurd (not_mine j' j p at' ne e' e)
        | no ne' ↦ owned.apart j j' p (sym (others j ne) ∙ e) (sym (others j' ne') ∙ e')
      ]
    ];
    no_leak = λ p t e. elim (ℕ_discrete next p) [
      | yes at ↦ (o, mine ∙ ap some at)
      | no ne ↦
          let (j, its) = owned.no_leak p t (sym (same p ne) ∙ e) in
          (
            j,
            others j (λ at.
                  let gone : none ≡ some p = sym free ∙ ap owner at ∙ its in absurd (cc gone))
                ∙ its,
          )
    ];
    below = λ p t e. elim (ℕ_discrete next p) [
      | yes at ↦ omega arith
      | no ne ↦ let lt = owned.below p t (sym (same p ne) ∙ e) in omega arith
    ];
  }
    where
      not_next : (p : ℕ) (t : List ℕ) → blocks p ≡ some t → next ≢ p
      not_next p t old at = let lt = owned.below p t old in omega arith

      not_mine : (j j' p : ℕ) → o ≡ j → o ≢ j' → owner' j ≡ some p → owner' j' ≡ some p → ⊥
      not_mine j j' p at ne' e e' =
          let (t, old) = owned.live j' p (sym (others j' ne') ∙ e') in
          let is_next : some next ≡ some p = sym mine ∙ ap owner' at ∙ e in
          not_next p t old (cc is_next)

  -- The array of object `o` is deleted.
  pub Owned-delete :
      (o p : ℕ)
      → owner o ≡ some p
      → owner' o ≡ none
      → ((j : ℕ) → o ≢ j → owner' j ≡ owner j)
      → blocks' p ≡ none
      → ((q : ℕ) → p ≢ q → blocks' q ≡ blocks q)
      → Owned owner' blocks' next
  Owned-delete o p had gone others deleted same = record {
    live = λ j q e.
        let ne = still j q e in
        let (t, old) = owned.live j q (sym (others j ne) ∙ e) in
        (t, same q (λ at. ne (owned.apart o j q (had ∙ ap some at) (sym (others j ne) ∙ e))) ∙ old);
    apart = λ j j' q e e'.
        owned.apart j j' q (sym (others j (still j q e)) ∙ e)
          (sym (others j' (still j' q e')) ∙ e');
    no_leak = λ q t e.
        let ne : p ≢ q = there q t e in
        let (j, its) = owned.no_leak q t (sym (same q ne) ∙ e) in
        (
          j,
          others j (λ at. ne (let is_q : some p ≡ some q = sym had ∙ ap owner at ∙ its in cc is_q))
              ∙ its,
        );
    below = λ q t e. owned.below q t (sym (same q (there q t e)) ∙ e);
  }
    where
      still : (j q : ℕ) → owner' j ≡ some q → o ≢ j
      still j q e at = let empty : none ≡ some q = sym gone ∙ ap owner' at ∙ e in absurd (cc empty)

      there : (q : ℕ) (t : List ℕ) → blocks' q ≡ some t → p ≢ q
      there q t e at =
          let empty : none ≡ some t = sym deleted ∙ ap blocks' at ∙ e in absurd (cc empty)

  -- The array of object `src` goes to object `o`, which had none.
  pub Owned-move :
      (o src : ℕ)
      → o ≢ src
      → owner o ≡ none
      → owner' o ≡ owner src
      → owner' src ≡ none
      → ((j : ℕ) → o ≢ j → src ≢ j → owner' j ≡ owner j)
      → ((q : ℕ) → blocks' q ≡ blocks q)
      → Owned owner' blocks' next
  Owned-move o src ne free gets gives others same = record {
    live = λ j q e. elim (origin j q e) [
      | inl (at, had) ↦ let (t, old) = owned.live src q had in (t, same q ∙ old)
      | inr (_, _, had) ↦ let (t, old) = owned.live j q had in (t, same q ∙ old)
    ];
    apart = λ j j' q e e'. elim (origin j q e) [
      | inl (at, had) ↦ elim (origin j' q e') [
        | inl (at', _) ↦ sym at ∙ at'
        | inr (_, away', had') ↦ absurd (away' (owned.apart src j' q had had'))
      ]
      | inr (_, away, had) ↦ elim (origin j' q e') [
        | inl (_, had') ↦ absurd (away (owned.apart src j q had' had))
        | inr (_, _, had') ↦ owned.apart j j' q had had'
      ]
    ];
    no_leak = λ q t e.
        let (j, its) = owned.no_leak q t (sym (same q) ∙ e) in
        elim (ℕ_discrete src j) [
          | yes at ↦ (o, gets ∙ ap owner at ∙ its)
          | no away ↦ (
            j,
            others j
                  (λ at.
                    let gone : none ≡ some q = sym free ∙ ap owner at ∙ its in absurd (cc gone))
                  away
                ∙ its,
          )
        ];
    below = λ q t e. owned.below q t (sym (same q) ∙ e);
  }
    where
      origin :
          (j q : ℕ)
          → owner' j ≡ some q
          → ((o ≡ j) × (owner src ≡ some q)) ⊎ ((o ≢ j) × (src ≢ j) × (owner j ≡ some q))
      origin j q e = elim (ℕ_discrete o j) [
        | yes at ↦ inl (at, sym gets ∙ ap owner' at ∙ e)
        | no other ↦
            let away : src ≢ j =
              λ at. let gone : none ≡ some q = sym gives ∙ ap owner' at ∙ e in absurd (cc gone) in
            inr (other, away, sym (others j other away) ∙ e)
      ]
