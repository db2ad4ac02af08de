-- ===== src/Word/Bits.antt =====
-- `|` on bit patterns: it is a sum where the second operand lies below the bits of the first, and it
-- never clears a bit.
use Prim.Native.Nat.{max, bit_or, digits, bit_or-bitwise}
use mathlib.Core.Path.{ap}
use native.Mathlib.Nat.{pow-suc}
use model_lib.Prelude.{ℕ, zero, suc, ◌+◌, ◌*◌, ◌/◌, ◌%◌, ◌^◌, ◌≤◌, ◌<◌, ◌≡◌, refl, arith}

-- The recursion that the native operation stands for, on `n` binary digits.
abbrev or_digits : ℕ → ℕ → ℕ → ℕ
or_digits n a b = digits (λ y. y) max n a b

-- Any two counts of digits that are enough for `a` give the same.
enough_digits : (a b n m : ℕ) → a ≤ n → a ≤ m → or_digits n a b ≡ or_digits m a b
enough_digits zero b zero zero p q = refl
enough_digits zero b zero (suc m) p q = refl
enough_digits zero b (suc n) zero p q = refl
enough_digits zero b (suc n) (suc m) p q = refl
enough_digits (suc a) b zero m p q = absurd (omega arith)
enough_digits (suc a) b (suc n) zero p q = absurd (omega arith)
enough_digits (suc a) b (suc n) (suc m) p q =
    omega (arith, enough_digits (suc a / 2) (b / 2) n m (omega arith) (omega arith))

pub zero-bit_or : (b : ℕ) → bit_or 0 b ≡ b
zero-bit_or b = bit_or-bitwise 0 b

-- The lowest digit, and the others.
bit_or_digit : (a b : ℕ) → bit_or a b ≡ 2 * bit_or (a / 2) (b / 2) + max (a % 2) (b % 2)
bit_or_digit zero b = omega (arith, zero-bit_or b, zero-bit_or (b / 2))
bit_or_digit (suc a) b = omega (
  arith,
  bit_or-bitwise (suc a) b,
  bit_or-bitwise (suc a / 2) (b / 2),
  enough_digits (suc a / 2) (b / 2) a (suc a / 2) (omega arith) (omega arith),
)

-- Both lemmas by the count of digits of the first operand.
bit_or-zero_below : (n a : ℕ) → a ≤ n → bit_or a 0 ≡ a
bit_or-zero_below n zero h = zero-bit_or 0
bit_or-zero_below zero (suc a) h = absurd (omega arith)
bit_or-zero_below (suc n) (suc a) h =
    omega (arith, bit_or_digit (suc a) 0, bit_or-zero_below n (suc a / 2) (omega arith))

le-bit_or_below : (n a b : ℕ) → a ≤ n → a ≤ bit_or a b
le-bit_or_below n zero b h = omega arith
le-bit_or_below zero (suc a) b h = absurd (omega arith)
le-bit_or_below (suc n) (suc a) b h =
    omega (arith, bit_or_digit (suc a) b, le-bit_or_below n (suc a / 2) (b / 2) (omega arith))

pub le-bit_or : (a b : ℕ) → a ≤ bit_or a b
le-bit_or a b = le-bit_or_below a a b (omega arith)

double_pow : (q k : ℕ) → q * 2 ^ suc k ≡ 2 * (q * 2 ^ k)
double_pow q k = omega (arith, ap (λ (t : ℕ). q * t) (pow-suc 2 k))

-- Fields that share no bit are added.
pub bit_or-eq-add : (k q r : ℕ) → r < 2 ^ k → bit_or (q * 2 ^ k) r ≡ q * 2 ^ k + r
bit_or-eq-add zero q r h =
    let none_left : r ≡ 0 = omega arith in
    let same : q * 1 ≡ q = omega arith in
    rw (none_left, same, bit_or-zero_below q q (omega arith)) (omega arith)
bit_or-eq-add (suc k) q r h =
    let fits : r < 2 * 2 ^ k = omega (arith, pow-suc 2 k) in
    let halved : q * 2 ^ suc k / 2 ≡ q * 2 ^ k = omega (arith, double_pow q k) in
    let even : q * 2 ^ suc k % 2 ≡ 0 = omega (arith, double_pow q k) in
    rw (bit_or_digit (q * 2 ^ suc k) r, halved, even, bit_or-eq-add k q (r / 2) (omega arith))
      (omega (arith, double_pow q k))

bit_or_comm_below : (n a b : ℕ) → a ≤ n → b ≤ n → bit_or a b ≡ bit_or b a
bit_or_comm_below zero a b h k =
    let e : a ≡ 0 = omega arith in let f : b ≡ 0 = omega arith in rw (e, f)
bit_or_comm_below (suc n) a b h k = omega (
  arith,
  bit_or_digit a b,
  bit_or_digit b a,
  bit_or_comm_below n (a / 2) (b / 2) (omega arith) (omega arith),
)

pub bit_or_comm : (a b : ℕ) → bit_or a b ≡ bit_or b a
bit_or_comm a b = bit_or_comm_below (a + b) a b (omega arith) (omega arith)
