-- ===== src/HeapPage/Vacuum/Loop.antt =====
-- The loop of `vacuum`: what it has copied after each slot.
use model_lib.Prelude.{
  Option, append_nil, ℕ, suc, ◌+◌, ◌*◌, ◌-◌, ◌≤◌, ◌<◌, ◌≡◌, refl, ap, ◌∙◌, true, some, List, [],
  ◌∷◌, ◌++◌, length, arith, le→leb,
}
use mathlib.Core.Path.{subst}
use mathlib.Core.List.{append_assoc}
use model_lib.Prelude.Int.{pos, negsuc, pos-+ℤ, pos--ℤ, to_size, negsuc-lt, le→ltb_ℤ}
use model_lib.Word.{int32_bytes}
use model_lib.Word.Laws.{length-int32_bytes}
use model_lib.Page.{Page, Bytes, size, store, put, read}
use model_lib.Page.Laws.{load-store_same}
use model_lib.Page.Access.{put_outside, read_int32-Same, read_int32-put_same}
use model_lib.Value.{DataType, Value}
use model_lib.HeapPage.{get_dir, record_size}
use model_lib.HeapPage.Insert.{get_record_live}
use model_lib.HeapPage.Vacuum.{Copy, fill, copy_in, copy_record, vacuum_slot, vacuum_loop}
use model_lib.HeapPage.Encoding.{Stored, read_values-Stored, encode, length-encode}
use model_lib.HeapPage.Vacuum.Live.{
  Live, no_slots, deleted_slot, live_slot, total, Live-kept, Live-append,
}

-- The page that a buffer of bytes is written to.
abbrev pub page_of : Bytes → Page
page_of m = record { bytes = m; dirty = true }

-- The buffer holds the records `rs`, and `free` bytes are left between the slots and the records.
pub record Packed (types : List DataType) (c : Copy) (rs : List (List Value)) (free : ℕ)
    : Type 0 where
  pub free_is : c.free_space ≡ pos free
  pub room : 8 + 4 * c.dir_count + free ≤ size
  pub live : Live types (page_of c.page_buf) (8 + 4 * c.dir_count + free) 0 c.dir_count rs

copy_in_lem :
    (m : Bytes) (off : ℕ) (xs : List ℕ)
    → off + length xs ≤ size
    → copy_in m off xs ≡ some (store m off xs)
unfolding copy_in
copy_in_lem m off xs h = rw (le→leb (off + length xs) size h)

module _ (types : List DataType) (c : Copy) (rs : List (List Value)) (free : ℕ)
    (packed : Packed types c rs free) (p : Page) (off : ℕ) (vs : List Value)
    (s : Stored types p off vs) (fits : record_size vs + 4 ≤ free) where
  open c use {dir_count}

  -- Where the record goes.
  abbrev target : ℕ
  target = 8 + 4 * (dir_count + 1) + (free - (record_size vs + 4))

  abbrev with_dir : Page
  with_dir = put (page_of c.page_buf) (8 + 4 * dir_count) (int32_bytes (pos target))

  abbrev with_record : Page
  with_record = put with_dir target (encode vs)

  copied : Copy
  copied = record {
    dir_count = dir_count + 1;
    free_space = pos (free - (record_size vs + 4));
    page_buf = with_record.bytes;
    record_buf = vs;
  }

  copied_count : copied.dir_count ≡ dir_count + 1
  unfolding copied
  copied_count = refl

  below : 8 + 4 * dir_count + free ≤ size
  below = packed.room

  dirs_kept : (k : ℕ) → k < 8 + 4 * dir_count → with_record.bytes k ≡ c.page_buf k
  dirs_kept k h =
      put_outside with_dir target (encode vs) k (omega arith)
      ∙ put_outside (page_of c.page_buf) (8 + 4 * dir_count) (int32_bytes (pos target)) k
          (omega arith)

  records_kept : (k : ℕ) → 8 + 4 * dir_count + free ≤ k → with_record.bytes k ≡ c.page_buf k
  records_kept k h =
      put_outside with_dir target (encode vs) k (rw (length-encode vs) (omega arith))
      ∙ put_outside (page_of c.page_buf) (8 + 4 * dir_count) (int32_bytes (pos target)) k
          (rw length-int32_bytes (omega arith))

  dir_set : get_dir with_record dir_count ≡ some (pos target)
  unfolding get_dir
  dir_set =
      read_int32-Same with_record with_dir (8 + 4 * dir_count)
        (λ k a b. put_outside with_dir target (encode vs) k (omega arith))
      ∙ read_int32-put_same (page_of c.page_buf) (8 + 4 * dir_count) (pos target)
          (let b = below in omega arith) (let b = below in omega arith)

  record_set : Stored types with_record target vs
  unfolding put
  record_set = record {
    typed = s.typed;
    valid = s.valid;
    inside = let b = below in omega arith;
    bytes = load-store_same with_dir.bytes target (record_size vs) (encode vs) (length-encode vs);
  }

  copied-Packed : Packed types copied (rs ++ (vs ∷ [])) (free - (record_size vs + 4))
  unfolding copied put
  copied-Packed = record {
    free_is = refl;
    room = let b = below in omega arith;
    live =
        subst (λ n. Live types with_record target 0 n (rs ++ (vs ∷ []))) (omega arith)
          (Live-append types with_record target 0 dir_count rs target vs
            (Live-kept types (page_of c.page_buf) with_record (8 + 4 * dir_count + free) target
              (omega arith) (λ k a b. records_kept k a) 0 dir_count rs
              (λ k a b. dirs_kept k (omega arith)) packed.live)
            (ap (get_dir with_record) (omega arith) ∙ dir_set) (omega arith) (omega arith)
            record_set);
  }

  copy_record_lem : copy_record p (pos off) c vs ≡ some copied
  unfolding copy_record copied read to_size put
  copy_record_lem =
      let inside = s.inside in
      let b = below in
      rw
        (
          packed.free_is,
          pos--ℤ free (record_size vs + 4) fits,
          pos-+ℤ (8 + 4 * (dir_count + 1)) (free - (record_size vs + 4)),
          copy_in_lem c.page_buf (8 + 4 * dir_count) (int32_bytes (pos target))
              (rw length-int32_bytes (omega arith)),
          le→leb (off + record_size vs) size inside,
          s.bytes,
          copy_in_lem with_dir.bytes target (encode vs) (rw (length-encode vs) (omega arith)),
        )
        refl

-- What a round or the loop does: it goes on with the records `new` copied.
pub record Copies (types : List DataType) (c : Copy) (rs new : List (List Value)) (free : ℕ)
    (o : Option Copy) : Type 0 where
  pub after : Copy
  pub done : o ≡ some after
  pub count_is : after.dir_count ≡ c.dir_count + length new
  pub packed : Packed types after (rs ++ new) (free - total new)

module _ (types : List DataType) (p : Page) (i : ℕ) (c : Copy) where
  slot_deleted : (k : ℕ) → get_dir p i ≡ some (negsuc k) → vacuum_slot types p i c ≡ some c
  unfolding vacuum_slot
  slot_deleted k e = rw (e, negsuc-lt k 0)

  slot_live :
      (off : ℕ) (vs : List Value)
      → get_dir p i ≡ some (pos off)
      → 0 < off
      → Stored types p off vs
      → vacuum_slot types p i c ≡ copy_record p (pos off) c vs
  unfolding vacuum_slot fill
  slot_live off vs e up s = rw (
    get_record_live p i types off vs e up (read_values-Stored types p off vs s),
    e,
    le→ltb_ℤ off 0 (omega arith),
  )

pub vacuum_loop-Copies :
    (types : List DataType) (p : Page) (lo i n : ℕ) (new : List (List Value))
    → Live types p lo i n new
    → (c : Copy) (rs : List (List Value)) (free : ℕ) → Packed types c rs free
    → total new ≤ free
    → Copies types c rs new free (vacuum_loop n types p i c)
unfolding vacuum_loop total
vacuum_loop-Copies types p lo i n new no_slots c rs free packed fits = record {
  after = c;
  done = refl;
  count_is = omega arith;
  packed = rw (append_nil rs) (subst (Packed types c rs) (omega arith) packed);
}
vacuum_loop-Copies types p lo i (suc n) new (deleted_slot k e rest) c rs free packed fits =
    rw (slot_deleted types p i c k e)
      (vacuum_loop-Copies types p lo (suc i) n new rest c rs free packed fits)
vacuum_loop-Copies types p lo i (suc n) (_ ∷ new) (live_slot off vs e up le s rest) c rs free packed
      fits =
    let enough : record_size vs + 4 ≤ free = omega arith in
    let next = copied types c rs free packed p off vs s enough in
    let room : total new ≤ free - (record_size vs + 4) = omega arith in
    let r =
      vacuum_loop-Copies types p lo (suc i) n new rest next (rs ++ (vs ∷ []))
        (free - (record_size vs + 4)) (copied-Packed types c rs free packed p off vs s enough)
        room in
    rw
      (
        slot_live types p i c off vs e up s,
        copy_record_lem types c rs free packed p off vs s enough,
      )
      (record {
        after = r.after;
        done = r.done;
        count_is = omega (arith, r.count_is, copied_count types c rs free packed p off vs s enough);
        packed =
            rw (← append_assoc rs (vs ∷ []) new)
              (subst (Packed types r.after _) (omega arith) r.packed);
      })
