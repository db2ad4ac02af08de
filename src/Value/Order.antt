-- ===== src/Value/Order.antt =====
-- The comparisons of values are one total order.
use Prim.Native.Nat.{compare, Ordering}
use model_lib.Prelude.{ℕ, ◌+◌, ◌≡◌, ◌↔◌, refl, ap, Bool, true, false, List, [], ◌∷◌, arith}
use model_lib.Prelude.Int.{eqb_ℤ→eq, pos_part, neg_part}
use model_lib.Value.{Value, as_str, as_int, strcmp, is_lt, is_eq, less, equal}

strcmp_refl : (s : List ℕ) → strcmp s s ≡ Ordering.eq
unfolding strcmp
strcmp_refl [] = refl
strcmp_refl (a ∷ s) = ground (arith, strcmp_refl s)

pub strcmp-eq : (s t : List ℕ) → strcmp s t ≡ Ordering.eq → s ≡ t
unfolding strcmp
strcmp-eq [] [] h = refl
strcmp-eq [] (b ∷ t) h = cc
strcmp-eq (a ∷ s) [] h = cc
strcmp-eq (a ∷ s) (b ∷ t) h = ground (arith, strcmp-eq s t)

pub strcmp-lt_trans :
    (s t u : List ℕ)
    → strcmp s t ≡ Ordering.lt
    → strcmp t u ≡ Ordering.lt
    → strcmp s u ≡ Ordering.lt
unfolding strcmp
strcmp-lt_trans [] [] u h k = cc
strcmp-lt_trans [] (b ∷ t) [] h k = cc
strcmp-lt_trans [] (b ∷ t) (c ∷ u) h k = refl
strcmp-lt_trans (a ∷ s) [] u h k = cc
strcmp-lt_trans (a ∷ s) (b ∷ t) [] h k = cc
strcmp-lt_trans (a ∷ s) (b ∷ t) (c ∷ u) h k = ground (arith, strcmp-lt_trans s t u)

pub strcmp_swap : (s t : List ℕ) → (strcmp s t ≡ Ordering.lt) ↔ (strcmp t s ≡ Ordering.gt)
unfolding strcmp
strcmp_swap [] [] = ((λ h. cc), (λ h. cc))
strcmp_swap [] (b ∷ t) = ((λ h. refl), (λ h. refl))
strcmp_swap (a ∷ s) [] = ((λ h. cc), (λ h. cc))
strcmp_swap (a ∷ s) (b ∷ t) = ground (arith, strcmp_swap s t)

pub equal_iff : (v w : Value) → (equal v w ≡ true) ↔ (v ≡ w)
unfolding equal
equal_iff (as_int a) (as_int b) = ((λ h. ap as_int (eqb_ℤ→eq a b h)), (λ h. ground arith))
equal_iff (as_str s) (as_str t) = ground (arith, strcmp-eq s t, strcmp_refl s)
equal_iff (as_int a) (as_str t) = ((λ h. cc), (λ h. cc))
equal_iff (as_str s) (as_int b) = ((λ h. cc), (λ h. cc))

less_trans : (u v w : Value) → less u v ≡ true → less v w ≡ true → less u w ≡ true
unfolding less
less_trans (as_int a) (as_int b) (as_int c) h k = ground arith
less_trans (as_int a) (as_int b) (as_str u) h k = ground arith
less_trans (as_int a) (as_str t) w h k = cc
less_trans (as_str s) (as_int b) (as_int c) h k = refl
less_trans (as_str s) (as_int b) (as_str u) h k = cc
less_trans (as_str s) (as_str t) (as_int c) h k = refl
less_trans (as_str s) (as_str t) (as_str u) h k = ground (arith, strcmp-lt_trans s t u)

abbrev is_gt : Ordering → Bool
is_gt Ordering.gt = true
is_gt _ = false

-- Which of `<`, `==` and `>` holds, as one verdict.
abbrev pub Verdict : Value → Value → Ordering → Type 0
Verdict v w o = (less v w ≡ is_lt o) × (equal v w ≡ is_eq o) × (less w v ≡ is_gt o)

verdict : (v w : Value) → (o : Ordering) × Verdict v w o
unfolding less equal
verdict (as_int a) (as_int b) =
    let o = compare (pos_part a + neg_part b) (pos_part b + neg_part a) in
    (o, (ground arith, ground arith, ground arith))
verdict (as_str s) (as_str t) = (strcmp s t, (refl, refl, ground (arith, strcmp_swap t s)))
verdict (as_int a) (as_str t) = (Ordering.gt, (refl, refl, refl))
verdict (as_str s) (as_int b) = (Ordering.lt, (refl, refl, refl))

-- The comparisons of values are one strict total order: of any two values exactly one of `<`, `==`
-- and `>` holds, `==` holds only of a value and itself, and `<` is transitive.
pub less-IsTotalOrder :
    (u v w : Value)
    → ((o : Ordering) × Verdict v w o)
      × ((equal v w ≡ true) ↔ (v ≡ w))
      × (less u v ≡ true → less v w ≡ true → less u w ≡ true)
less-IsTotalOrder u v w = (verdict v w, equal_iff v w, less_trans u v w)
