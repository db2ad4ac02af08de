-- ===== src/Prelude/Int.antt =====
-- Signed integers over the native numbers, under the library's names (its ℤ stands on the unary ℕ),
-- with the bounds of the two's complement types.
use model_lib.Prelude.{
  ℕ, suc, ◌+◌, ◌-◌, ◌*◌, ◌/◌, ◌^◌, ◌≤◌, ◌<◌, ◌≡◌, refl, ◌⊎◌, Bool, true, false, not, ◌&&◌, ◌||◌,
  arith, ltb, leb, ◌==◌, if◌then◌else◌,
}

-- `negsuc n` is -(n + 1).
pub data ℤ : Type 0 where
  pos : ℕ → ℤ
  negsuc : ℕ → ℤ

abbrev pub pos_part : ℤ → ℕ
pos_part (pos n) = n
pos_part (negsuc n) = 0

abbrev pub neg_part : ℤ → ℕ
neg_part (pos n) = 0
neg_part (negsuc n) = suc n

-- a - b, as an integer.
abbrev pub sub_ℕ : ℕ → ℕ → ℤ
sub_ℕ a b = if leb b a then pos (a - b) else negsuc (b - a - 1)

infixl 65 ◌+ℤ◌ ◌-ℤ◌
infix 50 ◌≤ℤ◌ ◌<ℤ◌
unfoldable pub ◌+ℤ◌ : ℤ → ℤ → ℤ
a +ℤ b = sub_ℕ (pos_part a + pos_part b) (neg_part a + neg_part b)

unfoldable pub ◌-ℤ◌ : ℤ → ℤ → ℤ
a -ℤ b = sub_ℕ (pos_part a + neg_part b) (neg_part a + pos_part b)

abbrev pub ◌≤ℤ◌ : ℤ → ℤ → Type 0
a ≤ℤ b = pos_part a + neg_part b ≤ pos_part b + neg_part a

abbrev pub ◌<ℤ◌ : ℤ → ℤ → Type 0
a <ℤ b = pos_part a + neg_part b < pos_part b + neg_part a

abbrev pub ltb_ℤ : ℤ → ℤ → Bool
ltb_ℤ a b = ltb (pos_part a + neg_part b) (pos_part b + neg_part a)

abbrev pub eqb_ℤ : ℤ → ℤ → Bool
eqb_ℤ a b = pos_part a + neg_part b == pos_part b + neg_part a

-- 4 * a
unfoldable pub times_four : ℤ → ℤ
times_four a = a +ℤ a +ℤ (a +ℤ a)

-- The conversion to `size_t`, which the use of an `int32_t` as an offset makes.
unfoldable pub to_size : ℤ → ℕ
to_size (pos n) = n
to_size (negsuc n) = 2 ^ 64 - n - 1

pub +ℤ_parts :
    (a b : ℤ)
    → pos_part (a +ℤ b) + neg_part a + neg_part b ≡ neg_part (a +ℤ b) + pos_part a + pos_part b
unfolding ◌+ℤ◌
+ℤ_parts a b = ground arith

pub -ℤ_parts :
    (a b : ℤ)
    → pos_part (a -ℤ b) + neg_part a + pos_part b ≡ neg_part (a -ℤ b) + pos_part a + neg_part b
unfolding ◌-ℤ◌
-ℤ_parts a b = ground arith

pub eq_of_parts : (a b : ℤ) → pos_part a + neg_part b ≡ pos_part b + neg_part a → a ≡ b
eq_of_parts a b h = ground arith

pub eqb_ℤ→eq : (a b : ℤ) → eqb_ℤ a b ≡ true → a ≡ b
eqb_ℤ→eq a b h = ground arith

pub ruleset int_laws = (arith, +ℤ_parts, -ℤ_parts, eq_of_parts)

-- The values of `int32_t` and of `int64_t`: the bound `h` is 2 ^ 31 and 2 ^ 63.
abbrev pub IsSigned : ℕ → ℤ → Type 0
IsSigned h z = (pos_part z < h) × (neg_part z ≤ h)

abbrev pub IsInt32 : ℤ → Type 0
IsInt32 = IsSigned (2 ^ 31)

abbrev pub IsInt64 : ℤ → Type 0
IsInt64 = IsSigned (2 ^ 63)

pub lt→ltb_ℤ : (a b : ℕ) → a < b → ltb_ℤ (pos a) (pos b) ≡ true
lt→ltb_ℤ a b h = ground arith

pub le→ltb_ℤ : (a b : ℕ) → b ≤ a → ltb_ℤ (pos a) (pos b) ≡ false
le→ltb_ℤ a b h = ground arith

pub pos-+ℤ : (a b : ℕ) → pos a +ℤ pos b ≡ pos (a + b)
unfolding ◌+ℤ◌
pos-+ℤ a b = ground arith

pub pos--ℤ : (a b : ℕ) → b ≤ a → pos a -ℤ pos b ≡ pos (a - b)
unfolding ◌-ℤ◌
pos--ℤ a b h = ground arith

pub pos-ne_zero : (a : ℕ) → 0 < a → eqb_ℤ (pos a) (pos 0) ≡ false
pos-ne_zero a h = ground arith

-- C's division by two, towards zero.
unfoldable pub half : ℤ → ℤ
half (pos n) = pos (n / 2)
half (negsuc n) = pos 0 -ℤ pos (suc n / 2)

pub pos-pred : (a : ℕ) → 0 < a → pos a -ℤ pos 1 ≡ pos (a - 1)
pos-pred a h = pos--ℤ a 1 h

pub eqb_ne : (a b : ℕ) → a < b → eqb_ℤ (pos a) (pos b) ≡ false
eqb_ne a b h = ground arith

pub eqb_same : (a b : ℕ) → a ≡ b → eqb_ℤ (pos a) (pos b) ≡ true
eqb_same a b h = ground arith

pub negsuc-lt : (k a : ℕ) → ltb_ℤ (negsuc k) (pos a) ≡ true
negsuc-lt k a = ground arith

pub lt-negsuc : (k a : ℕ) → ltb_ℤ (pos a) (negsuc k) ≡ false
lt-negsuc k a = ground arith
