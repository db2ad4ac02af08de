-- ===== src/Value/Store/Assign.antt =====
-- The moves, the assignments and the destructor of src/relational_model/value.cc.
use model_lib.Prelude.{
  ℕ, ◌≡◌, ◌≢◌, ◌∙◌, refl, sym, ap, Option, none, some, inl, inr, ℕ_discrete, arith,
}
use model_lib.Value.Store.{
  ValueUnion, pointer, Object, Memory, set_object, set_block, new_str, move, assign, assign_move,
  destroy, object_value, value_at,
}
use model_lib.Value.Store.Owned.{object_block, block_of}
use model_lib.Value.Store.Changes.{
  string, integer, IsTyped, absent, holds_str, holds_int, IsOwned, Gives, write-Gives, delete-Gives,
}
use model_lib.Value.Store.Move.{put, left, move-Gives}
use model_lib.Value.Store.Puts.{
  IsPresent, Answers, other_put, own_put, own_block, other_block, Gives-values, put_value, put_idle,
  put_swap, put_at, put_over, put_after, members-cases, integer_value, left-integer, string_value,
}
use model_lib.Value.Store.Construct.{
  set_plain, new_str-Gives, value_at-string, value_at-integer, held,
}

module _ (m : Memory) (own : IsOwned m) where
  -- An integer that is moved stays.
  stays :
      (o src : ℕ) (u : ValueUnion)
      → m.objects src ≡ integer u
      → (j : ℕ)
      → put src (left (value_at m src)) (put o (value_at m src) (value_at m)) j
        ≡ put o (value_at m src) (value_at m) j
  stays o src u e =
      let same : left (value_at m src) ≡ value_at m src =
        ap left (value_at-integer m own src u e)
        ∙ left-integer m.blocks u
        ∙ sym (value_at-integer m own src u e) in
      put_idle src (left (value_at m src)) (put o (value_at m src) (value_at m))
        (put_at o src (value_at m) ∙ sym same)

  abbrev passed : ℕ → ℕ → ℕ → Memory
  passed o src p = set_object (set_object m o (string p)) src (integer (pointer p))

  passed-Gives :
      (o src p : ℕ)
      → block_of m o ≡ none
      → m.objects src ≡ string p
      → Gives
          (passed o src p)
          (put src (left (value_at m src)) (put o (value_at m src) (value_at m)))
  passed-Gives o src p free e =
      let (s, st) = held m own src p e in
      let v = value_at-string m own src p s e st in
      let apart : o ≢ src = λ at.
        let gone : none ≡ some p = sym free ∙ ap (block_of m) at ∙ ap object_block e in
        absurd (cc gone) in
      Gives-values
        (λ j.
          put_swap o src (value_at m src) none (value_at m) apart j
          ∙ put_value src (put o (value_at m src) (value_at m)) (sym (ap left v)) j)
        (move-Gives m own (passed o src p) o src p apart free e (ground arith) (ground arith)
          (λ j ne away. ground arith) (λ q. refl) refl)

  -- A move to an object without an array.
  pub move-Answers :
      (o src : ℕ)
      → block_of m o ≡ none
      → IsPresent m src
      → Answers
          (move m o src)
          (put src (left (value_at m src)) (put o (value_at m src) (value_at m)))
  unfolding move
  move-Answers o src free (x, at) = elim (members-cases (m.objects src) x (own.typed src) at) [
    | inl (u, e) ↦ (
      set_object m o (integer u),
      rw e refl,
      Gives-values
          (λ j.
            put_value o (value_at m) (sym (value_at-integer m own src u e)) j
            ∙ sym (stays o src u e j))
          (set_plain m own o (integer u) (holds_int u) refl free),
    )
    | inr (p, e) ↦ (passed o src p, rw e refl, passed-Gives o src p free e)
  ]

  deleted-Gives :
      (o p : ℕ) (x : Option Object)
      → m.objects o ≡ string p
      → IsTyped x
      → object_block x ≡ none
      → Gives
          (set_object (set_block m p none) o x)
          (put o (object_value (set_block m p none).blocks x) (value_at m))
  deleted-Gives o p x e typed plain =
      delete-Gives m own (set_object (set_block m p none) o x) o x
        (own_put (set_block m p none) o x) (λ j ne. other_put (set_block m p none) o j x ne) typed p
        (ap object_block e) plain (own_block m p none) (λ q ne. other_block m p q none ne) refl

  pub assign-Answers :
      (o src : ℕ)
      → IsPresent m o
      → IsPresent m src
      → Answers (assign m o src) (put o (value_at m src) (value_at m))
  unfolding assign
  assign-Answers o src (x, here) (y, there) =
      elim (members-cases (m.objects o) x (own.typed o) here) [
        | inl (t, e) ↦ elim (members-cases (m.objects src) y (own.typed src) there) [
          | inl (u, e') ↦ (
            set_object m o (integer u),
            rw (e, e') refl,
            Gives-values (put_value o (value_at m) (sym (value_at-integer m own src u e')))
                (set_plain m own o (integer u) (holds_int u) refl (ap object_block e)),
          )
          | inr (q, e') ↦
              let (s, st) = held m own src q e' in
              (
                new_str m o s,
                rw (e, e', st) refl,
                Gives-values (put_value o (value_at m) (sym (value_at-string m own src q s e' st)))
                    (new_str-Gives m own o s (ap object_block e)),
              )
        ]
        | inr (p, e) ↦
            let (old, at) = held m own o p e in
            elim (members-cases (m.objects src) y (own.typed src) there) [
              | inl (u, e') ↦ (
                set_object (set_block m p none) o (integer u),
                rw (e, e', at) refl,
                Gives-values
                    (put_value o (value_at m) (
                      integer_value (set_block m p none).blocks m.blocks u
                      ∙ sym (value_at-integer m own src u e')))
                    (deleted-Gives o p (integer u) e (holds_int u) refl),
              )
              | inr (q, e') ↦
                  let (s, st) = held m own src q e' in
                  (
                    set_object (set_block m p (some s)) o (string p),
                    rw (e, e', at, st) refl,
                    Gives-values
                        (put_value o (value_at m) (
                          string_value (set_block m p (some s)).blocks p s (own_block m p (some s))
                          ∙ sym (value_at-string m own src q s e' st)))
                        (write-Gives m own (set_object (set_block m p (some s)) o (string p)) o
                          (string p) (own_put (set_block m p (some s)) o (string p))
                          (λ j ne. other_put (set_block m p (some s)) o j (string p) ne)
                          (holds_str p) p old s (sym (ap object_block e)) (ap object_block e) at
                          (own_block m p (some s)) (λ r ne. other_block m p r (some s) ne) refl),
                  )
            ]
      ]

  -- The object had the array `p`, which goes first; then it gets the one of `src`, its own perhaps.
  abbrev replaced : ℕ → ℕ → ℕ → ℕ → Memory
  replaced o src p q =
      set_object (set_object (set_block m p none) o (string q)) src (integer (pointer q))

  replaced_own :
      (o src p q : ℕ)
      → m.objects o ≡ string p
      → m.objects src ≡ string q
      → o ≡ src
      → Gives (replaced o src p q) (put src none (put o (value_at m src) (value_at m)))
  replaced_own o src p q e e' at =
      let both : some p ≡ some q =
        sym (ap object_block e) ∙ ap (block_of m) at ∙ ap object_block e' in
      let same : p ≡ q = cc both in
      Gives-values (put_over o src none (value_at m src) (value_at m) at) (
        delete-Gives m own (replaced o src p q) src (integer (pointer q)) (ground arith)
          (λ j ne. ground arith) (holds_int (pointer q)) q (ap object_block e') refl
          (rw same (own_block m q none)) (λ r ne. rw same (other_block m q r none ne)) refl)

  replaced_other :
      (o src p q : ℕ)
      → m.objects o ≡ string p
      → m.objects src ≡ string q
      → o ≢ src
      → Gives (replaced o src p q) (put src none (put o (value_at m src) (value_at m)))
  replaced_other o src p q e e' ne =
      let m2 = set_object (set_block m p none) o none in
      let (own2, values2) = deleted-Gives o p none e absent refl in
      Gives-values (put_after o src (value_at m2) (value_at m) ne values2) (
        move-Gives m2 own2 (replaced o src p q) o src q ne
          (ap object_block (own_put (set_block m p none) o none))
          (other_put (set_block m p none) o src none ne ∙ e') (ground arith) (ground arith)
          (λ j other away. ground arith) (λ r. refl) refl)

  pub assign_move-Answers :
      (o src : ℕ)
      → IsPresent m o
      → IsPresent m src
      → Answers
          (assign_move m o src)
          (put src (left (value_at m src)) (put o (value_at m src) (value_at m)))
  unfolding assign_move move
  assign_move-Answers o src (x, here) (y, there) =
      elim (members-cases (m.objects o) x (own.typed o) here) [
        | inl (t, e) ↦ rw e (move-Answers o src (ap object_block e) (y, there))
        | inr (p, e) ↦
            let (old, at) = held m own o p e in
            elim (members-cases (m.objects src) y (own.typed src) there) [
              | inl (u, e') ↦ (
                set_object (set_block m p none) o (integer u),
                rw (e, at, e') refl,
                Gives-values
                    (λ j.
                      put_value o (value_at m)
                        (integer_value (set_block m p none).blocks m.blocks u
                          ∙ sym (value_at-integer m own src u e'))
                        j
                      ∙ sym (stays o src u e' j))
                    (deleted-Gives o p (integer u) e (holds_int u) refl),
              )
              | inr (q, e') ↦
                  let (s, st) = held m own src q e' in
                  let nothing : none ≡ left (value_at m src) =
                    sym (ap left (value_at-string m own src q s e' st)) in
                  (
                    replaced o src p q,
                    rw (e, at, e') refl,
                    Gives-values (put_value src (put o (value_at m src) (value_at m)) nothing)
                        (elim (ℕ_discrete o src) [
                          | yes same ↦ replaced_own o src p q e e' same
                          | no ne ↦ replaced_other o src p q e e' ne
                        ]),
                  )
            ]
      ]

  pub destroy-Answers : (o : ℕ) → IsPresent m o → Answers (destroy m o) (put o none (value_at m))
  unfolding destroy
  destroy-Answers o (x, here) = elim (members-cases (m.objects o) x (own.typed o) here) [
    | inl (u, e) ↦
        (set_object m o none, rw e refl, set_plain m own o none absent refl (ap object_block e))
    | inr (p, e) ↦
        let (s, at) = held m own o p e in
        (
          set_object (set_block m p none) o none,
          rw (e, at) refl,
          deleted-Gives o p none e absent refl,
        )
  ]
