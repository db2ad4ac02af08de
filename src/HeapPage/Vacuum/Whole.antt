-- ===== src/HeapPage/Vacuum/Whole.antt =====
-- `vacuum` of src/storage/heap_file/heap_file_page.cc as a whole.
use model_lib.Prelude.{
  [], ◌>>=◌, ℕ, ◌+◌, ◌*◌, ◌-◌, ◌≤◌, ◌<◌, ◌≡◌, refl, ◌∙◌, some, List, length, arith,
}
use mathlib.Core.Path.{subst}
use model_lib.Prelude.Int.{pos}
use model_lib.Word.{int32_bytes}
use model_lib.Word.Laws.{length-int32_bytes}
use model_lib.Page.{Page, Bytes, size, load, put, write}
use model_lib.Page.Laws.{length-load, store-load}
use model_lib.Page.Access.{
  put_outside, read_int32-Same, read_int32-put_same, write_lem, write_int32_lem,
}
use model_lib.Value.{DataType, Value}
use model_lib.HeapPage.{get_dir_count, get_free_space, set_dir_count, set_free_space}
use model_lib.HeapPage.Layout.{IsLaidOut}
use model_lib.HeapPage.Vacuum.{Copy, vacuum_start, vacuum}
use model_lib.HeapPage.Vacuum.Live.{Live, no_slots, total, Live-kept, Live-Slot}
use model_lib.HeapPage.Vacuum.Loop.{Packed, page_of, vacuum_loop-Copies}

module _ (types : List DataType) (p : Page) (c : Copy) (rs : List (List Value)) (count free : ℕ)
    (packed : Packed types c rs free) (count_is : c.dir_count ≡ count) where
  abbrev whole : Page
  whole = put p 0 (load c.page_buf 0 size)

  abbrev with_count : Page
  with_count = put whole 0 (int32_bytes (pos count))

  abbrev with_free : Page
  with_free = put with_count 4 (int32_bytes (pos free))

  whole_bytes : (k : ℕ) → k < size → whole.bytes k ≡ c.page_buf k
  unfolding put
  whole_bytes k b = store-load c.page_buf p.bytes size k b

  same : (k : ℕ) → 8 ≤ k → k < size → with_free.bytes k ≡ c.page_buf k
  same k a b =
      put_outside with_count 4 (int32_bytes (pos free)) k (rw length-int32_bytes (omega arith))
      ∙ put_outside whole 0 (int32_bytes (pos count)) k (rw length-int32_bytes (omega arith))
      ∙ whole_bytes k b

  room : 8 + 4 * count + free ≤ size
  room = let r = packed.room in omega (arith, count_is)

  live : Live types with_free (8 + 4 * count + free) 0 count rs
  live =
      Live-kept types (page_of c.page_buf) with_free (8 + 4 * count + free) (8 + 4 * count + free)
        (omega arith) (λ k a b. same k (omega arith) b) 0 count rs
        (λ k a b. same k (omega arith) (let r = room in omega arith))
        (subst (λ n. Live types (page_of c.page_buf) (8 + 4 * n + free) 0 n rs) count_is
          packed.live)

  count_set : get_dir_count with_free ≡ some (pos count)
  unfolding get_dir_count
  count_set =
      let r = room in
      read_int32-Same with_free with_count 0
        (λ k a b. put_outside with_count 4 (int32_bytes (pos free)) k (omega arith))
      ∙ read_int32-put_same whole 0 (pos count) (omega arith) (omega arith)

  free_set : get_free_space with_free ≡ some (pos free)
  unfolding get_free_space
  free_set = let r = room in read_int32-put_same with_count 4 (pos free) (omega arith) (omega arith)

  laid : IsLaidOut types with_free
  laid = record {
    count = count;
    free = free;
    count_is = count_set;
    free_is = free_set;
    fits = room;
    slots = λ i lt.
        Live-Slot types with_free (8 + 4 * count + free) 0 count rs i live (omega arith)
          (omega arith);
  }

  finish :
      (do
        p' ← write p 0 (load c.page_buf 0 size)
        p'' ← set_dir_count p' (pos c.dir_count)
        set_free_space p'' c.free_space)
      ≡ some with_free
  unfolding set_dir_count set_free_space
  finish = rw (
    write_lem p 0 (load c.page_buf 0 size) (rw (length-load c.page_buf 0 size) (omega arith)),
    count_is,
    write_int32_lem whole 0 (pos count) (omega arith),
    packed.free_is,
    write_int32_lem with_count 4 (pos free) (omega arith),
  )

start-Packed :
    (raw : Bytes) (types : List DataType) → Packed types (vacuum_start raw types) [] (size - 8)
unfolding vacuum_start
start-Packed raw types = record { free_is = refl; room = omega arith; live = no_slots }

-- On a page whose slots are deleted or point at records, stored with the bytes of their encoding,
-- that fit an empty page together with four bytes each, `vacuum` answers, whatever the memory held
-- that it copies to. It leaves a well formed page with exactly these records, one slot for each in
-- the order of the slots, and all the rest of the page is free space.
pub vacuum-Live :
    (raw : Bytes) (types : List DataType) (p : Page) (lo count : ℕ) (rs : List (List Value))
    → get_dir_count p ≡ some (pos count)
    → Live types p lo 0 count rs
    → 8 + total rs ≤ size
    → (q : Page) × (vacuum raw types p ≡ some q)
      × ((laid : IsLaidOut types q) × (laid.count ≡ length rs)
          × (laid.free ≡ size - 8 - total rs)
          × Live types q (8 + 4 * length rs + (size - 8 - total rs)) 0 (length rs) rs)
unfolding vacuum laid vacuum_start
vacuum-Live raw types p lo count rs count_is l fits =
    let r =
      vacuum_loop-Copies types p lo 0 count rs l (vacuum_start raw types) [] (size - 8)
        (start-Packed raw types) (omega arith) in
    let n : r.after.dir_count ≡ length rs = omega (arith, r.count_is) in
    (
      with_free types p r.after rs (length rs) (size - 8 - total rs) r.packed n,
      rw (count_is, r.done)
          (finish types p r.after rs (length rs) (size - 8 - total rs) r.packed n),
      (
        laid types p r.after rs (length rs) (size - 8 - total rs) r.packed n,
        refl,
        refl,
        live types p r.after rs (length rs) (size - 8 - total rs) r.packed n,
      ),
    )
