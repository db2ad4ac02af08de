-- ===== src/Value/Store/Puts.antt =====
-- Changes of one object's value or one array, for the operations of src/relational_model/value.cc.
use model_lib.Prelude.{
  ℕ, ◌≡◌, ◌≢◌, ◌⊎◌, ◌∙◌, refl, sym, ap, Option, none, some, List, inl, inr, ℕ_discrete, arith,
}
use model_lib.Value.{Value, as_str}
use model_lib.Value.Store.{
  ValueUnion, pointer, number, Object, Memory, set_object, set_block, object_value,
}
use model_lib.Value.Store.Changes.{string, integer, IsTyped, absent, holds_str, holds_int, Gives}
use model_lib.Value.Store.Move.{put, left}

-- The object is constructed.
abbrev pub IsPresent : Memory → ℕ → Type 0
IsPresent m o = (x : Object) × (m.objects o ≡ some x)

-- A call returns, and gives these values.
abbrev pub Answers : Option Memory → (ℕ → Option Value) → Type 0
Answers answer values = (m' : Memory) × (answer ≡ some m') × Gives m' values

pub other_put :
    (m : Memory) (o j : ℕ) (x : Option Object) → o ≢ j → (set_object m o x).objects j ≡ m.objects j
other_put m o j x ne = ground arith

pub own_put : (m : Memory) (o : ℕ) (x : Option Object) → (set_object m o x).objects o ≡ x
own_put m o x = ground arith

pub own_block : (m : Memory) (p : ℕ) (s : Option (List ℕ)) → (set_block m p s).blocks p ≡ s
own_block m p s = ground arith

pub other_block :
    (m : Memory) (p q : ℕ) (s : Option (List ℕ)) → p ≢ q → (set_block m p s).blocks q ≡ m.blocks q
other_block m p q s ne = ground arith

pub Gives-values :
    {m : Memory} {f g : ℕ → Option Value} → ((j : ℕ) → f j ≡ g j) → Gives m f → Gives m g
Gives-values e (own, values) = (own, λ j. values j ∙ e j)

pub put_value :
    (o : ℕ) (values : ℕ → Option Value) {v w : Option Value}
    → v ≡ w
    → (j : ℕ) → put o v values j ≡ put o w values j
put_value o values e j = ap (λ x. put o x values j) e

-- A value that is there.
pub put_idle :
    (o : ℕ) (v : Option Value) (values : ℕ → Option Value)
    → values o ≡ v
    → (j : ℕ) → put o v values j ≡ values j
put_idle o v values e j = elim (ℕ_discrete o j) [
  | yes at ↦ rw⁻¹ at (ground arith ∙ sym e)
  | no ne ↦ ground arith
]

pub put_twice :
    (o : ℕ) (v w : Option Value) (values : ℕ → Option Value) (j : ℕ)
    → put o v (put o w values) j ≡ put o v values j
put_twice o v w values j = ground arith

pub put_swap :
    (o src : ℕ) (v w : Option Value) (values : ℕ → Option Value)
    → o ≢ src
    → (j : ℕ) → put o v (put src w values) j ≡ put src w (put o v values) j
put_swap o src v w values ne j = ground arith

pub put_at : (o src : ℕ) (values : ℕ → Option Value) → put o (values src) values src ≡ values src
put_at o src values = ground arith

pub put_over :
    (o src : ℕ) (v w : Option Value) (values : ℕ → Option Value)
    → o ≡ src
    → (j : ℕ) → put src v values j ≡ put src v (put o w values) j
put_over o src v w values e j = ground arith

-- The value of `src` is read before the one of `o` goes.
pub put_after :
    (o src : ℕ) (f values : ℕ → Option Value)
    → o ≢ src
    → ((j : ℕ) → f j ≡ put o none values j)
    → (j : ℕ) → put o (f src) (put src none f) j ≡ put src none (put o (values src) values) j
put_after o src f values ne gone j = elim (ℕ_discrete o j) [
  | yes at ↦ rw⁻¹ at (ground arith ∙ gone src ∙ ground arith)
  | no other ↦ elim (ℕ_discrete src j) [
    | yes at ↦ ground arith
    | no away ↦ ground arith ∙ gone j ∙ ground arith
  ]
]

-- The two kinds of objects.
pub members-cases :
    (x0 : Option Object) (x : Object)
    → IsTyped x0
    → x0 ≡ some x
    → ((u : ValueUnion) × (x0 ≡ integer u)) ⊎ ((p : ℕ) × (x0 ≡ string p))
members-cases _ x absent e = absurd (cc e)
members-cases _ x (holds_str p) e = inr (p, refl)
members-cases _ x (holds_int u) e = inl (u, refl)

pub integer_value :
    (blocks blocks' : ℕ → Option (List ℕ)) (u : ValueUnion)
    → object_value blocks (integer u) ≡ object_value blocks' (integer u)
integer_value blocks blocks' (pointer p) = refl
integer_value blocks blocks' (number z) = refl

pub left-integer :
    (blocks : ℕ → Option (List ℕ)) (u : ValueUnion)
    → left (object_value blocks (integer u)) ≡ object_value blocks (integer u)
left-integer blocks (pointer p) = refl
left-integer blocks (number z) = refl

pub string_value :
    (blocks : ℕ → Option (List ℕ)) (p : ℕ) (s : List ℕ)
    → blocks p ≡ some s
    → object_value blocks (string p) ≡ some (as_str s)
string_value blocks p s e = rw e refl
