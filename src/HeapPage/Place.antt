-- ===== src/HeapPage/Place.antt =====
-- What `place` leaves in the page: the counts, the slot, the record, and all else as it was.
use model_lib.Prelude.{ℕ, ◌+◌, ◌*◌, ◌≤◌, ◌<◌, ◌≡◌, ◌≢◌, ◌∙◌, ◌⊎◌, some, List, All, arith}
use model_lib.Prelude.Int.{pos, ◌+ℤ◌, times_four, to_size}
use model_lib.Word.{int32_bytes}
use model_lib.Word.Laws.{length-int32_bytes}
use model_lib.Page.{Page, size, load, put}
use model_lib.Page.Access.{read_int32-Same, put_outside, write_int32_lem, read_int32-put_same}
use model_lib.Value.{Value, IsValue}
use model_lib.HeapPage.{
  get_dir_count, get_free_space, get_dir, set_free_space, set_dir, record_size, place,
}
use model_lib.HeapPage.Encoding.{encode}
use model_lib.HeapPage.Values.{Written, write_values-Written}

offset_lem : (c f : ℕ) → pos 8 +ℤ times_four (pos c) +ℤ pos f ≡ pos (8 + 4 * c + f)
unfolding times_four ◌+ℤ◌
offset_lem c f = ground arith

-- The slot `d` and the record, in a page of `c` slots and `f` bytes of free space.
pub record Placed (p : Page) (d c f : ℕ) (vs : List Value) (q : Page) : Type 0 where
  pub done : place p d (pos c) (pos f) vs ≡ some q
  pub count_kept : get_dir_count q ≡ get_dir_count p
  pub free_set : get_free_space q ≡ some (pos f)
  pub dir_set : get_dir q d ≡ some (pos (8 + 4 * c + f))
  pub dir_kept : (j : ℕ) → j ≢ d → j < c → get_dir q j ≡ get_dir p j
  pub record_set : load q.bytes (8 + 4 * c + f) (record_size vs) ≡ encode vs
  pub above : (k : ℕ) → 8 + 4 * c + f + record_size vs ≤ k → q.bytes k ≡ p.bytes k

module _ (p : Page) (d c f : ℕ) (vs : List Value) (inside : d < c)
    (fits : 8 + 4 * c + f + record_size vs ≤ size) where
  with_free : Page
  with_free = put p 4 (int32_bytes (pos f))

  with_dir : Page
  with_dir = put with_free (8 + 4 * d) (int32_bytes (pos (8 + 4 * c + f)))

  -- The two integers written before the record.
  head_kept :
      (k : ℕ)
      → (k < 4) ⊎ ((8 ≤ k) × ((k < 8 + 4 * d) ⊎ (8 + 4 * d + 4 ≤ k)))
      → with_dir.bytes k ≡ p.bytes k
  unfolding with_free with_dir
  head_kept k h =
      put_outside with_free (8 + 4 * d) (int32_bytes (pos (8 + 4 * c + f))) k
        (rw length-int32_bytes (omega arith))
      ∙ put_outside p 4 (int32_bytes (pos f)) k (rw length-int32_bytes (omega arith))

  module _ {q : Page} (w : Written vs with_dir (8 + 4 * c + f) q) where
    kept :
        (k : ℕ)
        → (k < 4) ⊎ ((8 ≤ k) × ((k < 8 + 4 * d) ⊎ (8 + 4 * d + 4 ≤ k)))
        → (k < 8 + 4 * c + f) ⊎ (8 + 4 * c + f + record_size vs ≤ k)
        → q.bytes k ≡ p.bytes k
    kept k h h' = w.kept k h' ∙ head_kept k h

    free_read : get_free_space q ≡ some (pos f)
    unfolding get_free_space with_dir with_free
    free_read = rw (
      read_int32-Same q with_free 4
          (λ k a b. w.kept k (omega arith) ∙ put_outside with_free (8 + 4 * d) _ k (omega arith)),
      read_int32-put_same p 4 (pos f) (omega arith) (omega arith),
    )

    dir_read : get_dir q d ≡ some (pos (8 + 4 * c + f))
    unfolding get_dir with_dir
    dir_read = rw (
      read_int32-Same q with_dir (8 + 4 * d) (λ k a b. w.kept k (omega arith)),
      read_int32-put_same with_free (8 + 4 * d) (pos (8 + 4 * c + f)) (omega arith) (omega arith),
    )

    place_done : place p d (pos c) (pos f) vs ≡ some q
    unfolding place set_free_space set_dir with_dir with_free to_size
    place_done =
        rw
          (
            offset_lem c f,
            write_int32_lem p 4 (pos f) (omega arith),
            write_int32_lem with_free (8 + 4 * d) (pos (8 + 4 * c + f)) (omega arith),
          )
          w.done

    Written-Placed : Placed p d c f vs q
    Written-Placed = record {
      done = place_done;
      count_kept =
          unfold get_dir_count in
          read_int32-Same q p 0 (λ k a b. kept k (omega arith) (omega arith));
      free_set = free_read;
      dir_set = dir_read;
      dir_kept = λ j ne lt.
          unfold get_dir in
          read_int32-Same q p (8 + 4 * j) (λ k a b. kept k (omega arith) (omega arith));
      record_set = w.bytes;
      above = λ k h. kept k (omega arith) (omega arith);
    }

  pub place-Placed : All IsValue vs → (q : Page) × Placed p d c f vs q
  place-Placed valid =
      let (q, w) = write_values-Written vs with_dir (8 + 4 * c + f) valid fits in
      (q, Written-Placed w)
