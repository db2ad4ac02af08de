-- ===== src/Page/Laws.antt =====
-- Reads and writes of a page: a read over a write of the same bytes, and of other bytes.
use model_lib.Prelude.{
  sym, ℕ, zero, suc, ◌+◌, ◌-◌, ◌≤◌, ◌<◌, ◌≡◌, refl, ap, ◌⊎◌, List, [], ◌∷◌, length, get_or, arith,
  le→leb, lt→ltb, ◌∙◌,
}
use model_lib.Page.{Bytes, load, store}

-- Two ranges of bytes that share none.
abbrev pub Apart : ℕ → ℕ → ℕ → ℕ → Type 0
Apart a n b m = (a + n ≤ b) ⊎ (b + m ≤ a)

pub load-store-Apart :
    (m : Bytes) (a n b : ℕ) (xs : List ℕ)
    → Apart a n b (length xs)
    → load (store m b xs) a n ≡ load m a n
unfolding load store
load-store-Apart m a zero b xs h = refl
load-store-Apart m a (suc n) b xs h = ground (arith, load-store-Apart m (suc a) n b xs)

-- Memory that agrees with a list, index by index, is that list.
load-get_or :
    (m : Bytes) (a : ℕ) (xs : List ℕ)
    → ((k : ℕ) → k < length xs → m (a + k) ≡ get_or xs k 0)
    → load m a (length xs) ≡ xs
unfolding load
load-get_or m a [] h = refl
load-get_or m a (x ∷ xs) h =
    let first : m a ≡ x = (ap m (omega arith) ∙ h 0 (omega arith)) in
    rw (first, load-get_or m (suc a) xs (λ k lt. ap m (omega arith) ∙ h (suc k) (omega arith)))

store-inside :
    (m : Bytes) (a : ℕ) (xs : List ℕ) (k : ℕ) → k < length xs → store m a xs (a + k) ≡ get_or xs k 0
unfolding store
store-inside m a xs k lt =
    let at : a + k - a ≡ k = omega arith in
    rw (at, le→leb a (a + k) (omega arith), lt→ltb (a + k) (a + length xs) (omega arith))

pub load-store_same :
    (m : Bytes) (a n : ℕ) (xs : List ℕ) → length xs ≡ n → load (store m a xs) a n ≡ xs
load-store_same m a n xs e = rw (← e) (load-get_or (store m a xs) a xs (store-inside m a xs))

-- A write leaves the other bytes alone.
pub store-outside :
    (m : Bytes) (a : ℕ) (xs : List ℕ) (i : ℕ) → (i < a) ⊎ (a + length xs ≤ i) → store m a xs i ≡ m i
unfolding store
store-outside m a xs i h = ground arith

-- What is read depends only on the bytes that are read.
pub load_congr :
    (m m' : Bytes) (a n : ℕ) → ((k : ℕ) → a ≤ k → k < a + n → m k ≡ m' k) → load m a n ≡ load m' a n
unfolding load
load_congr m m' a zero h = refl
load_congr m m' a (suc n) h = rw (
  h a (omega arith) (omega arith),
  load_congr m m' (suc a) n (λ k p q. h k (omega arith) (omega arith)),
)

pub length-load : (m : Bytes) (a n : ℕ) → length (load m a n) ≡ n
unfolding load
length-load m a zero = refl
length-load m a (suc n) = ap suc (length-load m (suc a) n)

get_or-load : (m : Bytes) (a n k : ℕ) → k < n → get_or (load m a n) k 0 ≡ m (a + k)
unfolding load
get_or-load m a zero k lt = absurd (omega arith)
get_or-load m a (suc n) zero lt = ap m (omega arith)
get_or-load m a (suc n) (suc k) lt = get_or-load m (suc a) n k (omega arith) ∙ ap m (omega arith)

-- Memory copied to the place that it has itself.
pub store-load : (m m' : Bytes) (n k : ℕ) → k < n → store m' 0 (load m 0 n) k ≡ m k
store-load m m' n k lt =
    let here : 0 + k ≡ k = omega arith in
    ap (store m' 0 (load m 0 n)) (sym here)
    ∙ store-inside m' 0 (load m 0 n) k (rw (length-load m 0 n) lt)
    ∙ get_or-load m 0 n k lt
    ∙ ap m here
