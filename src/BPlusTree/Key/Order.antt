-- ===== src/BPlusTree/Key/Order.antt =====
-- The order of keys and the order of strings: they agree on ASCII, and not beyond.
use Prim.Native.Nat.{bit_or, Ordering}
use native.Mathlib.Nat.{pow-suc, one-le-pow, le_trans, pow-le-pow_right}
use native.Mathlib.Numerals.{towards_suc}
use model_lib.Prelude.{
  ℕ, zero, suc, ◌+◌, ◌-◌, ◌*◌, ◌%◌, ◌^◌, ◌≤◌, ◌<◌, ◌≡◌, ◌∙◌, refl, ap, List, [], ◌∷◌, All, arith,
  lt→ltb, le→ltb, dec_lt,
}
use model_lib.Prelude.Int.{pos, ◌≤ℤ◌, ◌<ℤ◌}
use model_lib.Word.{of_pattern}
use model_lib.Word.Bits.{zero-bit_or, bit_or-eq-add, le-bit_or}
use model_lib.Value.{strcmp}
use model_lib.Value.Order.{strcmp-eq, strcmp_swap}
use model_lib.BPlusTree.Key.{byte64, serialize_loop, serialize_string_key}

abbrev pub IsAscii : ℕ → Type 0
IsAscii b = (0 < b) × (b < 128)

-- The first `n` bytes as the digits of a number to the base 256, zeros behind the end.
digits : ℕ → List ℕ → ℕ
digits zero s = 0
digits (suc n) [] = 0
digits (suc n) (b ∷ s) = b * 256 ^ n + digits n s

digits-lt : (n : ℕ) (s : List ℕ) → All IsAscii s → digits n s < 256 ^ n
unfolding digits
digits-lt zero s h = omega arith
digits-lt (suc n) [] h = one-le-pow (suc n) 256 (omega arith)
digits-lt (suc n) (b ∷ s) h =
    let top : b * 256 ^ n + 256 ^ n ≤ 256 * 256 ^ n = grind arith in
    omega (arith, digits-lt n s h.1, pow-suc 256 n)

digits_mono :
    (n : ℕ) (s t : List ℕ)
    → All IsAscii s
    → All IsAscii t
    → strcmp s t ≡ Ordering.lt
    → digits n s ≤ digits n t
unfolding digits strcmp
digits_mono zero s t h k lt = omega arith
digits_mono (suc n) [] t h k lt = omega arith
digits_mono (suc n) (a ∷ s) [] h k lt = cc
digits_mono (suc n) (a ∷ s) (b ∷ t) h k lt = elim (dec_lt a b) [
  | yes l ↦
      let next : a * 256 ^ n + 256 ^ n ≤ b * 256 ^ n = grind arith in
      omega (arith, digits-lt n s h.1)
  | no g ↦
      let same : a ≡ b = ground arith in
      let rest : strcmp s t ≡ Ordering.lt = ground arith in
      rw same (omega (arith, digits_mono n s t h.1 k.1 rest))
]

pow-bytes : (n : ℕ) → 2 ^ (8 * n) ≡ 256 ^ n
pow-bytes zero = refl
pow-bytes (suc n) =
    let bits : 8 * suc n ≡ 8 * n + 8 = omega arith in
    rw (bits, pow-suc 256 n)
      (let step : 2 ^ (8 * n + 8) ≡ 256 * 2 ^ (8 * n) = simp towards_suc (omega arith) in
        omega (arith, step, pow-bytes n))

scale : (q n : ℕ) → q * 256 ^ suc n ≡ 256 * (q * 256 ^ n)
scale q n = omega (arith, ap (λ (t : ℕ). q * t) (pow-suc 256 n))

-- One round adds one digit.
round-digit :
    (n q b : ℕ)
    → n < 8
    → IsAscii b
    → bit_or (q * 256 ^ suc n) (byte64 b * 2 ^ (8 * n) % 2 ^ 64) ≡ (q * 256 + b) * 256 ^ n
unfolding byte64
round-digit n q b le h =
    let small : 256 ^ n ≤ 256 ^ 7 =
      pow-le-pow_right {n = 256} (omega arith) {i = n} {j = 7} (omega arith) in
    let product : b * 256 ^ n ≤ 127 * 256 ^ n = grind arith in
    let fits : b * 256 ^ n % 2 ^ 64 ≡ b * 256 ^ n = omega arith in
    let below : b * 256 ^ n < 2 ^ (8 * suc n) =
      (let top = pow-bytes (suc n) in
        let p = pow-suc 256 n in let u = one-le-pow n 256 (omega arith) in omega arith) in
    let joined = bit_or-eq-add (8 * suc n) q (b * 256 ^ n) below in
    rw (lt→ltb b 128 h.1, pow-bytes n, fits, ← pow-bytes (suc n), joined)
      (omega (arith, ap (λ (t : ℕ). q * t) (pow-bytes (suc n)), scale q n))

-- The loop adds the digits, while the bytes are below 128.
loop-digits :
    (n : ℕ) (s : List ℕ) (q : ℕ)
    → n ≤ 8
    → All IsAscii s
    → serialize_loop n s (8 * n - 8) (q * 256 ^ n) ≡ q * 256 ^ n + digits n s
unfolding serialize_loop digits
loop-digits zero s q le h = omega arith
loop-digits (suc n) [] q le h = omega arith
loop-digits (suc n) (b ∷ s) q le h =
    let shift : 8 * suc n - 8 ≡ 8 * n = omega arith in
    rw (shift, round-digit n q b le h.0, loop-digits n s (q * 256 + b) (omega arith) h.1)
      (omega (arith, scale q n))

digits-lt_signed : (s : List ℕ) → All IsAscii s → digits 8 s < 2 ^ 63
unfolding digits
digits-lt_signed [] h = omega arith
digits-lt_signed (b ∷ s) h = omega (arith, digits-lt 7 s h.1)

key-ascii : (s : List ℕ) → All IsAscii s → serialize_string_key s ≡ pos (digits 8 s)
unfolding serialize_string_key of_pattern
key-ascii s h =
    let sum : serialize_loop 8 s 56 0 ≡ digits 8 s =
      loop-digits 8 s 0 (omega arith) h ∙ omega arith in
    rw (sum, lt→ltb (digits 8 s) (2 ^ 63) (digits-lt_signed s h))

-- On ASCII strings the order of the keys agrees with `strcmp`: a string that is less has a key that
-- is less or equal, and a key that is less belongs to a string that is less.
pub serialize_string_key_mono :
    (s t : List ℕ)
    → All IsAscii s
    → All IsAscii t
    → (strcmp s t ≡ Ordering.lt → serialize_string_key s ≤ℤ serialize_string_key t)
      × (serialize_string_key s <ℤ serialize_string_key t → strcmp s t ≡ Ordering.lt)
serialize_string_key_mono s t h k =
    rw (key-ascii s h, key-ascii t k)
      ((λ l. omega (arith, digits_mono 8 s t h k l)), less_of_key (strcmp s t) refl)
  where
    less_of_key :
        (o : Ordering)
        → strcmp s t ≡ o
        → pos (digits 8 s) <ℤ pos (digits 8 t)
        → strcmp s t ≡ Ordering.lt
    less_of_key Ordering.lt e l = e
    less_of_key Ordering.eq e l = absurd (omega (arith, ap (digits 8) (strcmp-eq s t e)))
    less_of_key Ordering.gt e l =
        absurd (omega (arith, digits_mono 8 t s k h ((strcmp_swap t s).1 e)))

negative-key :
    (n : ℕ) (s : List ℕ) (shift res : ℕ) → 2 ^ 63 ≤ res → 2 ^ 63 ≤ serialize_loop n s shift res
unfolding serialize_loop
negative-key zero s shift res h = h
negative-key (suc n) [] shift res h = h
negative-key (suc n) (b ∷ s) shift res h =
    negative-key n s (shift - 8) (bit_or res (byte64 b * 2 ^ shift % 2 ^ 64))
      (le_trans h (le-bit_or res (byte64 b * 2 ^ shift % 2 ^ 64)))

byte64_high : (b : ℕ) → 128 ≤ b → b < 256 → 2 ^ 63 ≤ byte64 b * 2 ^ 56 % 2 ^ 64
unfolding byte64
byte64_high b lo hi = rw (le→ltb b 128 lo) (omega arith)

loop_high : (b : ℕ) (t : List ℕ) → 128 ≤ b → b < 256 → 2 ^ 63 ≤ serialize_loop 8 (b ∷ t) 56 0
unfolding serialize_loop
loop_high b t lo hi =
    negative-key 7 t 48 (bit_or 0 (byte64 b * 2 ^ 56 % 2 ^ 64))
      (rw (zero-bit_or (byte64 b * 2 ^ 56 % 2 ^ 64)) (byte64_high b lo hi))

of_pattern-negative : (u v : ℕ) → 2 ^ 63 ≤ u → of_pattern (2 ^ 63) u <ℤ pos v
unfolding of_pattern
of_pattern-negative u v h = rw (le→ltb u (2 ^ 63) h) (omega arith)

key_high : (b : ℕ) (t : List ℕ) (v : ℕ) → 128 ≤ b → b < 256 → serialize_string_key (b ∷ t) <ℤ pos v
unfolding serialize_string_key
key_high b t v lo hi = of_pattern-negative (serialize_loop 8 (b ∷ t) 56 0) v (loop_high b t lo hi)

-- A string that begins with a byte from 128 on (as UTF-8 text beyond ASCII does) is greater than
-- every string of ASCII that is not empty, but its key is less.
pub serialize_string_key_reverses :
    (a : ℕ) (s : List ℕ) (b : ℕ) (t : List ℕ)
    → All IsAscii (a ∷ s)
    → 128 ≤ b
    → b < 256
    → (strcmp (a ∷ s) (b ∷ t) ≡ Ordering.lt)
      × (serialize_string_key (b ∷ t) <ℤ serialize_string_key (a ∷ s))
unfolding strcmp
serialize_string_key_reverses a s b t h lo hi =
    (ground arith, rw (key-ascii (a ∷ s) h) (key_high b t (digits 8 (a ∷ s)) lo hi))
