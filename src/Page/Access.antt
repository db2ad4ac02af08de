-- ===== src/Page/Access.antt =====
-- The integers of a page: when an access passes its assert, and a read over a write.
use model_lib.Prelude.{ℕ, ◌+◌, ◌≤◌, ◌<◌, ◌≡◌, refl, ◌⊎◌, some, List, [], ◌∷◌, length, arith, le→leb}
use model_lib.Prelude.Int.{ℤ, IsInt32, IsInt64}
use model_lib.Word.{int32_bytes, bytes_int32, int64_bytes, bytes_int64}
use model_lib.Word.Laws.{
  length-int32_bytes, length-int64_bytes, bytes_int32-int32_bytes, bytes_int64-int64_bytes,
}
use model_lib.Page.{
  Page, size, load, store, put, read, read_uint8, read_int32, read_int64, write, write_int8,
  write_int32, write_int64,
}
use model_lib.Page.Laws.{Apart, load-store-Apart, load-store_same, store-outside, load_congr}

module _ (p : Page) (off : ℕ) where
  pub write_int32_lem :
      (z : ℤ) → off + 4 ≤ size → write_int32 p off z ≡ some (put p off (int32_bytes z))
  unfolding write_int32
  write_int32_lem z fits = rw (le→leb (off + 4) size fits)

  pub write_int64_lem :
      (z : ℤ) → off + 8 ≤ size → write_int64 p off z ≡ some (put p off (int64_bytes z))
  unfolding write_int64
  write_int64_lem z fits = rw (le→leb (off + 8) size fits)

  pub write_int8_lem : (b : ℕ) → off + 1 ≤ size → write_int8 p off b ≡ some (put p off (b ∷ []))
  unfolding write_int8
  write_int8_lem b fits = rw (le→leb (off + 1) size fits)

  pub write_lem : (xs : List ℕ) → off + length xs ≤ size → write p off xs ≡ some (put p off xs)
  unfolding write
  write_lem xs fits = rw (le→leb (off + length xs) size fits)

  pub read_int32-put_same :
      (z : ℤ) → off + 4 ≤ size → IsInt32 z → read_int32 (put p off (int32_bytes z)) off ≡ some z
  unfolding read_int32 put
  read_int32-put_same z fits r = rw (
    le→leb (off + 4) size fits,
    load-store_same p.bytes off 4 (int32_bytes z) (length-int32_bytes z),
    bytes_int32-int32_bytes z r,
  )

  pub read_int64-put_same :
      (z : ℤ) → off + 8 ≤ size → IsInt64 z → read_int64 (put p off (int64_bytes z)) off ≡ some z
  unfolding read_int64 put
  read_int64-put_same z fits r = rw (
    le→leb (off + 8) size fits,
    load-store_same p.bytes off 8 (int64_bytes z) (length-int64_bytes z),
    bytes_int64-int64_bytes z r,
  )

  pub read_uint8-put_same : (b : ℕ) → off + 1 ≤ size → read_uint8 (put p off (b ∷ [])) off ≡ some b
  unfolding read_uint8 put store
  read_uint8-put_same b fits = ground arith

  pub read-put_same :
      (xs : List ℕ) → off + length xs ≤ size → read (put p off xs) off (length xs) ≡ some xs
  unfolding read put
  read-put_same xs fits =
      rw (le→leb (off + length xs) size fits, load-store_same p.bytes off (length xs) xs refl)

module _ (p : Page) (off b : ℕ) (xs : List ℕ) where
  pub read_int32-put-Apart :
      Apart off 4 b (length xs) → read_int32 (put p b xs) off ≡ read_int32 p off
  unfolding read_int32 put
  read_int32-put-Apart h = rw (load-store-Apart p.bytes off 4 b xs h)

  pub read_int64-put-Apart :
      Apart off 8 b (length xs) → read_int64 (put p b xs) off ≡ read_int64 p off
  unfolding read_int64 put
  read_int64-put-Apart h = rw (load-store-Apart p.bytes off 8 b xs h)

-- Two pages that hold the same bytes from `a` up to `b`.
abbrev pub Same : ℕ → ℕ → Page → Page → Type 0
Same a b p q = (k : ℕ) → a ≤ k → k < b → p.bytes k ≡ q.bytes k

module _ (p q : Page) (off : ℕ) where
  pub read_int32-Same : Same off (off + 4) p q → read_int32 p off ≡ read_int32 q off
  unfolding read_int32
  read_int32-Same h = rw (load_congr p.bytes q.bytes off 4 h)

  pub read_int64-Same : Same off (off + 8) p q → read_int64 p off ≡ read_int64 q off
  unfolding read_int64
  read_int64-Same h = rw (load_congr p.bytes q.bytes off 8 h)

  pub read_uint8-Same : Same off (off + 1) p q → read_uint8 p off ≡ read_uint8 q off
  unfolding read_uint8
  read_uint8-Same h = rw (h off (omega arith) (omega arith))

  pub read-Same : (n : ℕ) → Same off (off + n) p q → read p off n ≡ read q off n
  unfolding read
  read-Same n h = rw (load_congr p.bytes q.bytes off n h)

pub put_outside :
    (p : Page) (off : ℕ) (xs : List ℕ) (k : ℕ)
    → (k < off) ⊎ (off + length xs ≤ k)
    → (put p off xs).bytes k ≡ p.bytes k
unfolding put
put_outside p off xs k h = store-outside p.bytes off xs k h

module _ (p : Page) (off : ℕ) where
  pub read_int32_total : off + 4 ≤ size → (z : ℤ) × (read_int32 p off ≡ some z)
  unfolding read_int32
  read_int32_total h = (bytes_int32 (load p.bytes off 4), rw (le→leb (off + 4) size h))

  pub read_int64_total : off + 8 ≤ size → (z : ℤ) × (read_int64 p off ≡ some z)
  unfolding read_int64
  read_int64_total h = (bytes_int64 (load p.bytes off 8), rw (le→leb (off + 8) size h))
