-- ===== src/HeapPage/Sound.antt =====
-- The invariant of a page of records of src/storage/heap_file/heap_file_page.cc, over all that the
-- program does to a page, and the page's records without their places.
pub mod Slots
pub mod Steps
pub mod Reach
use model_lib.Prelude.{
  refl, suc, ℕ, ◌+◌, ◌*◌, ◌≤◌, ◌<◌, ◌≡◌, ap, ◌⊎◌, some, List, [], ◌∷◌, length, arith,
}
use model_lib.Prelude.Int.{pos}
use model_lib.Page.{Page, size}
use model_lib.Value.{DataType, Value}
use model_lib.HeapPage.{get_dir_count, get_free_space, record_size}
use model_lib.HeapPage.Layout.{IsLaidOut}
use model_lib.HeapPage.Vacuum.Live.{Live, no_slots, deleted_slot, live_slot, total, Live-Slot}

-- One list is the other with `vs` somewhere in it.
pub data Added (vs : List Value) : List (List Value) → List (List Value) → Type 0 where
  here : {rs : List (List Value)} → Added vs rs (vs ∷ rs)
  there :
      {rs rs' : List (List Value)} (ws : List Value)
      → Added vs rs rs'
      → Added vs (ws ∷ rs) (ws ∷ rs')

unfoldable pub sizes : List (List Value) → ℕ
sizes [] = 0
sizes (vs ∷ rs) = record_size vs + sizes rs

-- Every slot is deleted or points at a record, stored with the bytes of its encoding, and what the
-- page has behind its free space is enough for all of these records.
pub record IsSound (types : List DataType) (p : Page) : Type 0 where
  pub count : ℕ
  pub free : ℕ
  pub records : List (List Value)
  pub count_is : get_dir_count p ≡ some (pos count)
  pub free_is : get_free_space p ≡ some (pos free)
  pub live : Live types p (8 + 4 * count + free) 0 count records
  pub room : 8 + 4 * count + free + sizes records ≤ size

pub sizes-Added :
    (vs : List Value) (rs rs' : List (List Value))
    → Added vs rs rs'
    → sizes rs' ≡ record_size vs + sizes rs
unfolding sizes
sizes-Added vs rs rs' here = refl
sizes-Added vs _ _ (there ws rest) = omega (arith, sizes-Added vs _ _ rest)

pub total-sizes : (rs : List (List Value)) → total rs ≡ sizes rs + 4 * length rs
unfolding total sizes
total-sizes [] = omega arith
total-sizes (vs ∷ rs) = omega (arith, total-sizes rs)

pub length-Live :
    (types : List DataType) (p : Page) (lo i n : ℕ) (rs : List (List Value))
    → Live types p lo i n rs
    → length rs ≤ n
length-Live types p lo i n rs no_slots = omega arith
length-Live types p lo i (suc n) rs (deleted_slot k e rest) =
    omega (arith, length-Live types p lo (suc i) n rs rest)
length-Live types p lo i (suc n) (_ ∷ rs) (live_slot off vs e up le s rest) =
    omega (arith, length-Live types p lo (suc i) n rs rest)

pub IsSound-IsLaidOut : (types : List DataType) (p : Page) → IsSound types p → IsLaidOut types p
unfolding sizes
IsSound-IsLaidOut types p s =
    let r = s.room in
    record {
      count = s.count;
      free = s.free;
      count_is = s.count_is;
      free_is = s.free_is;
      fits = omega arith;
      slots = λ i lt.
          Live-Slot types p (8 + 4 * s.count + s.free) 0 s.count s.records i s.live (omega arith)
            (omega arith);
    }
