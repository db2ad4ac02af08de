-- ===== src/HeapPage/Encoding.antt =====
-- The bytes of a record in a page, against which the reads of src/storage/heap_file/heap_file_page.cc
-- are stated.
use model_lib.Prelude.{
  ℕ, zero, suc, ◌+◌, ◌≤◌, ◌<◌, ◌≡◌, refl, sym, ap, ◌∙◌, some, List, [], ◌∷◌, ◌++◌, map, length, All,
  arith, le→leb, length-append,
}
use model_lib.Word.{int64_bytes}
use model_lib.Word.Laws.{length-int64_bytes, bytes_int64-int64_bytes}
use model_lib.Page.{Page, Bytes, size, load, put, read, read_uint8, read_int64}
use model_lib.Page.Laws.{load_congr, load-store_same}
use model_lib.Value.{DataType, Value, as_str, as_int, datatype, c_str, IsChar, IsValue}
use model_lib.HeapPage.{read_values, record_size}

unfoldable pub encode : List Value → List ℕ
encode [] = []
encode (as_int z ∷ vs) = int64_bytes z ++ encode vs
encode (as_str s ∷ vs) = length s ∷ (s ++ encode vs)

pub length-encode : (vs : List Value) → length (encode vs) ≡ record_size vs
unfolding encode record_size
length-encode [] = refl
length-encode (as_int z ∷ vs) =
    length-append (int64_bytes z) (encode vs)
    ∙ omega (arith, length-int64_bytes z, length-encode vs)
length-encode (as_str s ∷ vs) = omega (arith, length-append s (encode vs), length-encode vs)

c_str-IsChar : (s : List ℕ) → All IsChar s → c_str s ≡ s
unfolding c_str
c_str-IsChar [] h = refl
c_str-IsChar (b ∷ s) h = ground (arith, c_str-IsChar s h.1)

-- Memory that holds one list after the other holds each of them.
load_split :
    (m : Bytes) (a n k t : ℕ) (xs ys : List ℕ)
    → length xs ≡ n
    → t ≡ n + k
    → load m a t ≡ xs ++ ys
    → (load m a n ≡ xs) × (load m (a + n) k ≡ ys)
unfolding load
load_split m a zero k t [] ys e f h =
    let here : a + 0 ≡ a = omega arith in let all : k ≡ t = omega arith in (refl, rw (here, all) h)
load_split m a zero k t (x ∷ xs) ys e f h = absurd (omega arith)
load_split m a (suc n) k t [] ys e f h = absurd (omega arith)
load_split m a (suc n) k zero (x ∷ xs) ys e f h = absurd (omega arith)
load_split m a (suc n) k (suc t) (x ∷ xs) ys e f h =
    let first : m a ≡ x = cc h in
    let rest : load m (suc a) t ≡ xs ++ ys = cc h in
    let (l, r) = load_split m (suc a) n k t xs ys (omega arith) (omega arith) rest in
    let next : a + suc n ≡ suc a + n = omega arith in (rw (first, l) refl, rw next r)

pub load_join :
    (m : Bytes) (a n k t : ℕ) (xs ys : List ℕ)
    → t ≡ n + k
    → load m a n ≡ xs
    → load m (a + n) k ≡ ys
    → load m a t ≡ xs ++ ys
unfolding load
load_join m a zero k t xs ys e h h' =
    let here : a + 0 ≡ a = omega arith in
    let all : t ≡ k = omega arith in rw (all, ← h, ← h', here) refl
load_join m a (suc n) k zero xs ys e h h' = absurd (omega arith)
load_join m a (suc n) k (suc t) xs ys e h h' =
    let next : a + suc n ≡ suc a + n = omega arith in
    rw (← h) (
      ap (m a ∷◌)
        (load_join m (suc a) n k t (load m (suc a) n) ys (omega arith) refl (rw (← next) h')))

pub load-put :
    (p : Page) (off : ℕ) (xs : List ℕ) (n : ℕ)
    → length xs ≡ n
    → load (put p off xs).bytes off n ≡ xs
unfolding put
load-put p off xs n e = load-store_same p.bytes off n xs e

-- The record stands at `off` with the bytes of its encoding.
pub record Stored (types : List DataType) (p : Page) (off : ℕ) (vs : List Value) : Type 0 where
  pub typed : map datatype vs ≡ types
  pub valid : All IsValue vs
  pub inside : off + record_size vs ≤ size
  pub bytes : load p.bytes off (record_size vs) ≡ encode vs

pub read_encoded :
    (vs : List Value) (p : Page) (off : ℕ)
    → All IsValue vs
    → off + record_size vs ≤ size
    → load p.bytes off (record_size vs) ≡ encode vs
    → read_values (map datatype vs) p off ≡ some vs
unfolding read_values record_size datatype encode read_int64 read_uint8 read
read_encoded [] p off valid inside h = refl
read_encoded (as_int z ∷ vs) p off valid inside h =
    let (here, rest) =
      load_split p.bytes off 8 (record_size vs) _ (int64_bytes z) (encode vs) (length-int64_bytes z)
        refl h in
    rw (
      le→leb (off + 8) size (omega arith),
      here,
      bytes_int64-int64_bytes z valid.0,
      read_encoded vs p (off + 8) valid.1 (omega arith) rest,
    )
read_encoded (as_str s ∷ vs) p off valid inside h =
    let (len, all) =
      load_split p.bytes off 1 (length s + record_size vs) _ (length s ∷ []) (s ++ encode vs) refl
        (omega arith) h in
    let (here, rest) =
      load_split p.bytes (off + 1) (length s) (record_size vs) _ s (encode vs) refl refl all in
    let first : p.bytes off ≡ length s = unfold load in cc len in
    rw (
      le→leb (off + 1) size (omega arith),
      first,
      le→leb (off + 1 + length s) size (omega arith),
      here,
      read_encoded vs p (off + 1 + length s) valid.1 (omega arith) rest,
      c_str-IsChar s valid.0.1,
    )

pub read_values-Stored :
    (types : List DataType) (p : Page) (off : ℕ) (vs : List Value)
    → Stored types p off vs
    → read_values types p off ≡ some vs
read_values-Stored types p off vs s =
    ap (λ t. read_values t p off) (sym s.typed) ∙ read_encoded vs p off s.valid s.inside s.bytes

pub Stored-Same :
    (types : List DataType) (p q : Page) (off : ℕ) (vs : List Value)
    → ((k : ℕ) → off ≤ k → k < size → q.bytes k ≡ p.bytes k)
    → Stored types p off vs
    → Stored types q off vs
Stored-Same types p q off vs h s =
    let old = s.inside in
    record {
      typed = s.typed;
      valid = s.valid;
      inside = s.inside;
      bytes =
          load_congr q.bytes p.bytes off (record_size vs) (λ k a b. h k a (omega arith)) ∙ s.bytes;
    }
