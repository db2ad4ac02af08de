-- ===== src/HeapPage/Sound/Steps.antt =====
-- What `try_insert_record`, `delete_record` and `vacuum` of src/storage/heap_file/heap_file_page.cc do
-- to the records of a page, and the pages that they reach from a new one.
use model_lib.Prelude.{
  ℕ, suc, ◌+◌, ◌*◌, ◌-◌, ◌≤◌, ◌<◌, ◌≡◌, ◌≢◌, false, dec_lt, refl, ap, ◌∙◌, ◌⊎◌, inl, inr, Option,
  none, some, List, [], ◌∷◌, ◌++◌, map, length, All, arith,
}
use mathlib.Core.Path.{subst}
use model_lib.Prelude.Int.{ℤ, pos, ltb_ℤ}
use model_lib.Page.{Page, Bytes, size}
use model_lib.Value.{DataType, Value, datatype, IsValue}
use model_lib.HeapPage.{get_dir_count, get_dir, record_size, init, try_insert_record, delete_record}
use model_lib.HeapPage.Encoding.{Stored}
use model_lib.HeapPage.Layout.{IsLaidOut}
use model_lib.HeapPage.Place.{Placed}
use model_lib.HeapPage.Insert.{Placement, placement, no_room, try_insert_record-Placement}
use model_lib.HeapPage.Delete.{
  init_lem, deleted, same, delete_done, dir_deleted, dir_kept, dir_count_kept, free_space_kept,
}
use model_lib.HeapPage.Vacuum.{vacuum}
use model_lib.HeapPage.Vacuum.Live.{Live, total, Live-append}
use model_lib.HeapPage.Vacuum.Whole.{vacuum-Live}
use model_lib.HeapPage.Sound.{
  Added, here, there, sizes, IsSound, sizes-Added, total-sizes, length-Live, IsSound-IsLaidOut,
}
use model_lib.HeapPage.Sound.Slots.{Dropped, Live-others, Live-add, Live-drop}

-- What an insertion did to the records, by its answer; with `false` the free space was too small.
abbrev pub InsertEffect : List Value → Option ℕ → ℕ → List (List Value) → List (List Value) → Type 0
InsertEffect vs none free rs rs' = (free < record_size vs + 4) × (rs' ≡ rs)
InsertEffect vs (some slot) free rs rs' = Added vs rs rs'

sizes-Dropped :
    (types : List DataType) (p : Page) (i : ℕ) (rs rs' : List (List Value))
    → Dropped types p i rs rs'
    → sizes rs' ≤ sizes rs
sizes-Dropped types p i rs rs' (inl (_, same)) = rw same (omega arith)
sizes-Dropped types p i rs rs' (inr (vs, _, added)) = omega (arith, sizes-Added vs rs' rs added)

Added-append : (vs : List Value) (rs : List (List Value)) → Added vs rs (rs ++ (vs ∷ []))
Added-append vs [] = here
Added-append vs (ws ∷ rs) = there ws (Added-append vs rs)

module _ (types : List DataType) (p : Page) (s : IsSound types p) where
  open s use {count, free, records}

  abbrev laid : IsLaidOut types p
  laid = IsSound-IsLaidOut types p s

  pub init-IsSound : 0 < count + free → init p ≡ some p
  unfolding IsSound-IsLaidOut
  init-IsSound used = init_lem types p laid used

  -- `vacuum` of a sound page.
  pub vacuum-IsSound :
      (raw : Bytes)
      → (q : Page) × (vacuum raw types p ≡ some q)
        × ((s' : IsSound types q) × (s'.records ≡ records)
            × (s'.count ≡ length records)
            × (s'.free + 4 * length records + sizes records + 8 ≡ size))
  vacuum-IsSound raw =
      let r = s.room in
      let few = length-Live types p _ 0 count records s.live in
      let all = total-sizes records in
      let (q, done, (now, n, f, live)) =
        vacuum-Live raw types p _ count records s.count_is s.live (omega arith) in
      (
        q,
        done,
        (
          record {
            count = length records;
            free = size - 8 - total records;
            records = records;
            count_is = now.count_is ∙ ap (λ k. some (pos k)) n;
            free_is = now.free_is ∙ ap (λ k. some (pos k)) f;
            live = live;
            room = omega arith;
          },
          refl,
          refl,
          omega arith,
        ),
      )

  module _ (i : ℕ) (inside : i < count) where
    -- `delete_record` on a sound page.
    pub delete_record-IsSound :
        (q : Page) × (delete_record p i ≡ some q)
        × ((s' : IsSound types q) × (s'.count ≡ count) × Dropped types p i records s'.records)
    unfolding IsSound-IsLaidOut
    delete_record-IsSound =
        let r = s.room in
        let (rs', live, how) =
          Live-drop types p (deleted types p laid i inside) (8 + 4 * count + free)
            (8 + 4 * count + free) i count (omega arith)
            (λ k a b. same types p laid i inside k (omega arith))
            (λ j ne b. dir_kept types p laid i inside j ne) 0 count records 0 (omega arith)
            (omega arith) (omega arith) (dir_deleted types p laid i inside) s.live in
        (
          deleted types p laid i inside,
          delete_done types p laid i inside,
          (
            record {
              count = count;
              free = free;
              records = rs';
              count_is = dir_count_kept types p laid i inside ∙ s.count_is;
              free_is = free_space_kept types p laid i inside ∙ s.free_is;
              live = live;
              room = let less = sizes-Dropped types p i records rs' how in omega arith;
            },
            refl,
            how,
          ),
        )

module _ (p : Page) (vs : List Value) (s : IsSound (map datatype vs) p)
    (valid : All IsValue vs) where
  open s use {count, free, records}

  module _ (p' q : Page) (d c f : ℕ) (dirs : (j : ℕ) → get_dir p' j ≡ get_dir p j)
      (bytes : (k : ℕ) → 8 ≤ k → p'.bytes k ≡ p.bytes k) (count' : get_dir_count p' ≡ some (pos c))
      (grown : (count ≤ c) × (d < c) × ((c ≡ count) ⊎ ((d ≡ count) × (c ≡ count + 1))))
      (space : 8 + 4 * c + f + record_size vs ≡ 8 + 4 * count + free)
      (placed : Placed p' d c f vs q) where
    new_Stored : Stored (map datatype vs) q (8 + 4 * c + f) vs
    new_Stored =
        let r = s.room in
        record { typed = refl; valid = valid; inside = omega arith; bytes = placed.record_set }

    others_kept : (k : ℕ) → 8 + 4 * count + free ≤ k → k < size → q.bytes k ≡ p.bytes k
    others_kept k a b = placed.above k (omega arith) ∙ bytes k (omega arith)

    dirs_kept : (j : ℕ) → j ≢ d → j < count → get_dir q j ≡ get_dir p j
    dirs_kept j ne lt = placed.dir_kept j ne (omega arith) ∙ dirs j

    placed-Live :
        (d < count → (z : ℤ) × (get_dir p d ≡ some z) × (ltb_ℤ (pos 0) z ≡ false))
        → (rs' : List (List Value)) × Live (map datatype vs) q (8 + 4 * c + f) 0 c rs'
          × Added vs records rs'
    placed-Live old = elim (dec_lt d count) [
      | yes lt ↦
          let (z, e, n) = old lt in
          let same : count ≡ c = omega arith in
          let (rs', l, added) =
            Live-add (map datatype vs) p q (8 + 4 * count + free) (8 + 4 * c + f) d count
              (omega arith) others_kept dirs_kept 0 count records (8 + 4 * c + f) vs z (omega arith)
              (omega arith) (omega arith) e n placed.dir_set (omega arith) (omega arith) new_Stored
              s.live in
          (rs', subst (λ n. Live (map datatype vs) q (8 + 4 * c + f) 0 n rs') same l, added)
      | no ge ↦
          let same : suc count ≡ c = omega arith in
          (
            records ++ (vs ∷ []),
            subst (λ n. Live (map datatype vs) q (8 + 4 * c + f) 0 n (records ++ (vs ∷ []))) same
                (Live-append (map datatype vs) q (8 + 4 * c + f) 0 count records (8 + 4 * c + f) vs
                  (Live-others (map datatype vs) p q (8 + 4 * count + free) (8 + 4 * c + f) d count
                    (omega arith) others_kept dirs_kept 0 count records (omega arith) (omega arith)
                    s.live)
                  (ap (get_dir q) (omega arith) ∙ placed.dir_set) (omega arith) (omega arith)
                  new_Stored),
            Added-append vs records,
          )
    ]

    placed-IsSound :
        (d < count → (z : ℤ) × (get_dir p d ≡ some z) × (ltb_ℤ (pos 0) z ≡ false))
        → (s' : IsSound (map datatype vs) q) × Added vs records s'.records
    placed-IsSound old =
        let (rs', live, added) = placed-Live old in
        let r = s.room in
        let grows = sizes-Added vs records rs' added in
        (
          record {
            count = c;
            free = f;
            records = rs';
            count_is = placed.count_kept ∙ count';
            free_is = placed.free_set;
            live = live;
            room = omega arith;
          },
          added,
        )

  -- What an insertion's answer says of the page.
  abbrev Inserts : Page × Option ℕ → Type 0
  Inserts a = (s' : IsSound (map datatype vs) a.0) × InsertEffect vs a.1 free records s'.records

  Placement-Inserts :
      (a : Page × Option ℕ) → Placement p vs (IsSound-IsLaidOut (map datatype vs) p s) a → Inserts a
  unfolding IsSound-IsLaidOut
  Placement-Inserts _ (placement p' q d c f dirs bytes count' grown room placed old) =
      placed-IsSound p' q d c f dirs bytes count' grown room placed old
  Placement-Inserts _ (no_room short) = (s, (short, refl))

pub try_insert_record-IsSound :
    (p : Page) (v : Value) (vs : List Value) (s : IsSound (map datatype (v ∷ vs)) p)
    → All IsValue (v ∷ vs)
    → (a : Page × Option ℕ) × (try_insert_record p (v ∷ vs) ≡ some a)
      × ((s' : IsSound (map datatype (v ∷ vs)) a.0) × InsertEffect
            (v ∷ vs)
            a.1
            s.free
            s.records
            s'.records)
try_insert_record-IsSound p v vs s valid =
    let (a, done, how) =
      try_insert_record-Placement p v vs (IsSound-IsLaidOut (map datatype (v ∷ vs)) p s) valid in
    (a, done, Placement-Inserts p (v ∷ vs) s valid a how)
