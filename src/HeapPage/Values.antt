-- ===== src/HeapPage/Values.antt =====
-- The values of one record: the bytes that `try_insert_record` writes.
use model_lib.Prelude.{
  ◌++◌, ℕ, ◌+◌, ◌%◌, ◌≤◌, ◌<◌, ◌≡◌, refl, ◌∙◌, ◌⊎◌, some, List, [], ◌∷◌, length, take_all, All,
  arith, >>=-congr,
}
use model_lib.Prelude.Int.{ℤ}
use model_lib.Word.{int64_bytes}
use model_lib.Word.Laws.{length-int64_bytes}
use model_lib.Page.{Page, size, load, put, read_uint8}
use model_lib.Page.Laws.{load_congr}
use model_lib.HeapPage.Encoding.{encode, load_join, load-put}
use model_lib.Page.Access.{
  read_int64-Same, read_uint8-Same, read-Same, put_outside, write_int64_lem, write_int8_lem,
  write_lem,
}
use model_lib.Value.{DataType, str, int, Value, as_str, as_int, IsValue}
use model_lib.HeapPage.{read_values, write_values, record_size}

-- A record depends only on the bytes from its offset on.
pub read_values-Same :
    (types : List DataType) (p q : Page) (off : ℕ)
    → ((k : ℕ) → off ≤ k → p.bytes k ≡ q.bytes k)
    → read_values types p off ≡ read_values types q off
unfolding read_values
read_values-Same [] p q off h = refl
read_values-Same (int ∷ types) p q off h = rw (
  read_int64-Same p q off (λ k a b. h k a),
  read_values-Same types p q (off + 8) (λ k a. h k (omega arith)),
)
read_values-Same (str ∷ types) p q off h = rw (read_uint8-Same p q off (λ k a b. h k a)) (
    >>=-congr (read_uint8 q off) _ _ (λ len. rw (
      read-Same p q (off + 1) len (λ k a b. h k (omega arith)),
      read_values-Same types p q (off + 1 + len) (λ k a. h k (omega arith)),
    )))

-- The record stands in `q`, and all other bytes are those of `p`.
pub record Written (vs : List Value) (p : Page) (off : ℕ) (q : Page) : Type 0 where
  pub done : write_values vs p off ≡ some q
  pub kept : (k : ℕ) → (k < off) ⊎ (off + record_size vs ≤ k) → q.bytes k ≡ p.bytes k
  pub bytes : load q.bytes off (record_size vs) ≡ encode vs

module _ (p : Page) (off : ℕ) (vs : List Value) (q : Page) where
  int-Written :
      (z : ℤ)
      → IsValue (as_int z)
      → off + 8 ≤ size
      → Written vs (put p off (int64_bytes z)) (off + 8) q
      → Written (as_int z ∷ vs) p off q
  unfolding write_values encode record_size
  int-Written z valid fits w = record {
    done = rw (write_int64_lem p off z fits) w.done;
    kept = λ k h.
        w.kept k (omega arith)
        ∙ put_outside p off (int64_bytes z) k (rw (length-int64_bytes z) (omega arith));
    bytes =
        load_join q.bytes off 8 (record_size vs) _ (int64_bytes z) (encode vs) refl
          (load_congr q.bytes (put p off (int64_bytes z)).bytes off 8
              (λ k a b. w.kept k (omega arith))
            ∙ load-put p off (int64_bytes z) 8 (length-int64_bytes z))
          w.bytes;
  }

  str-Written :
      (s : List ℕ)
      → IsValue (as_str s)
      → off + 1 + length s ≤ size
      → Written vs (put (put p off (length s ∷ [])) (off + 1) s) (off + 1 + length s) q
      → Written (as_str s ∷ vs) p off q
  unfolding write_values encode record_size
  str-Written s valid fits w = record {
    done =
        rw
          (
            len,
            write_int8_lem p off (length s) (omega arith),
            take_all (length s) s refl,
            write_lem (put p off (length s ∷ [])) (off + 1) s fits,
          )
          w.done;
    kept = λ k h.
        w.kept k (omega arith)
        ∙ put_outside (put p off (length s ∷ [])) (off + 1) s k (omega arith)
        ∙ put_outside p off (length s ∷ []) k (omega arith);
    bytes =
        load_join q.bytes off 1 (length s + record_size vs) _ (length s ∷ []) (s ++ encode vs)
          (omega arith)
          (load_congr q.bytes (put p off (length s ∷ [])).bytes off 1 (λ k a b.
              w.kept k (omega arith)
              ∙ put_outside (put p off (length s ∷ [])) (off + 1) s k (omega arith))
            ∙ load-put p off (length s ∷ []) 1 refl)
          (load_join q.bytes (off + 1) (length s) (record_size vs) _ s (encode vs) refl
            (load_congr q.bytes (put (put p off (length s ∷ [])) (off + 1) s).bytes (off + 1)
                (length s) (λ k a b. w.kept k (omega arith))
              ∙ load-put (put p off (length s ∷ [])) (off + 1) s (length s) refl)
            w.bytes);
  }
    where
      len : length s % 256 ≡ length s
      len = let short : length s ≤ 255 = valid.0 in omega arith

pub write_values-Written :
    (vs : List Value) (p : Page) (off : ℕ)
    → All IsValue vs
    → off + record_size vs ≤ size
    → (q : Page) × Written vs p off q
unfolding record_size
write_values-Written [] p off valid fits =
    (p, unfold write_values encode load in record { done = refl; kept = λ k h. refl; bytes = refl })
write_values-Written (as_int z ∷ vs) p off valid fits =
    let (q, w) =
      write_values-Written vs (put p off (int64_bytes z)) (off + 8) valid.1 (omega arith) in
    (q, int-Written p off vs q z valid.0 (omega arith) w)
write_values-Written (as_str s ∷ vs) p off valid fits =
    let (q, w) =
      write_values-Written vs (put (put p off (length s ∷ [])) (off + 1) s) (off + 1 + length s)
        valid.1 (omega arith) in
    (q, str-Written p off vs q s valid.0 (omega arith) w)
