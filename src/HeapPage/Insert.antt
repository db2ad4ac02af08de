-- ===== src/HeapPage/Insert.antt =====
-- `try_insert_record` on a well formed page.
use model_lib.Prelude.{
  ℕ, suc, ◌+◌, ◌*◌, ◌-◌, ◌≤◌, ◌<◌, ◌≡◌, ◌≢◌, ◌∙◌, ◌⊎◌, inl, inr, refl, sym, ap, false, Option, none,
  some, List, ◌∷◌, map, All, arith, dec_lt, ℕ_discrete,
}
use model_lib.Prelude.Int.{ℤ, pos, lt→ltb_ℤ, le→ltb_ℤ, pos-+ℤ, pos--ℤ, ltb_ℤ, to_size}
use model_lib.Word.{int32_bytes}
use model_lib.Word.Laws.{length-int32_bytes}
use model_lib.Page.{Page, size, put}
use model_lib.Page.Access.{read_int32-Same, put_outside, write_int32_lem, read_int32-put_same}
use model_lib.Value.{DataType, Value, datatype, IsValue}
use model_lib.HeapPage.{
  get_dir_count, get_dir, set_dir_count, read_values, record_size, get_record, reuse_dir,
  append_dir, find_dir, try_insert_record,
}
use model_lib.HeapPage.Encoding.{read_encoded}
use model_lib.HeapPage.Values.{read_values-Same}
use model_lib.HeapPage.Layout.{Slot, vacant, live, IsLaidOut}
use model_lib.HeapPage.Place.{Placed, place-Placed}
use model_lib.HeapPage.Search.{Ends, find_dir_lem}

pub get_record_vacant :
    (p : Page) (i : ℕ) (types : List DataType) (z : ℤ)
    → get_dir p i ≡ some z
    → ltb_ℤ (pos 0) z ≡ false
    → get_record p i types ≡ some none
unfolding get_record
get_record_vacant p i types z e n = rw (e, n)

pub get_record_live :
    (p : Page) (i : ℕ) (types : List DataType) (off : ℕ) (vs : List Value)
    → get_dir p i ≡ some (pos off)
    → 0 < off
    → read_values types p off ≡ some vs
    → get_record p i types ≡ some (some vs)
unfolding get_record to_size
get_record_live p i types off vs e up r = rw (e, lt→ltb_ℤ 0 off up, r)

-- What an insertion may answer: the record is in a slot that held none, the other slots and their
-- records are as before, and the page is well formed; or there was no space.
pub data Outcome (p : Page) (count free : ℕ) (vs : List Value) : Page × Option ℕ → Type 0 where
  stored :
      (q : Page) (slot : ℕ) (laid : IsLaidOut (map datatype vs) q)
      → slot < laid.count
      → get_record q slot (map datatype vs) ≡ some (some vs)
      → (slot < count → get_record p slot (map datatype vs) ≡ some none)
      → slot ≤ count
      → ((j : ℕ)
          → j < count
          → j ≢ slot
          → get_record q j (map datatype vs) ≡ get_record p j (map datatype vs))
      → Outcome p count free vs (q, some slot)
  refused : free < record_size vs + 4 → Outcome p count free vs (p, none)

module _ (p : Page) (vs : List Value) (laid : IsLaidOut (map datatype vs) p) where
  open laid use {count, free}

  -- From a page `p'` with the slots and records of `p`, once `place` is done.
  module _ (p' q : Page) (d c f : ℕ) (dirs : (j : ℕ) → get_dir p' j ≡ get_dir p j)
      (bytes : (k : ℕ) → 8 ≤ k → p'.bytes k ≡ p.bytes k) (count' : get_dir_count p' ≡ some (pos c))
      (grown : (count ≤ c) × (d < c) × ((c ≡ count) ⊎ ((d ≡ count) × (c ≡ count + 1))))
      (room : 8 + 4 * c + f + record_size vs ≡ 8 + 4 * count + free) (placed : Placed p' d c f vs q)
      (valid : All IsValue vs) where
    pub record_read : read_values (map datatype vs) q (8 + 4 * c + f) ≡ some vs
    record_read =
        let old = laid.fits in
        read_encoded vs q (8 + 4 * c + f) valid (omega arith) placed.record_set

    record_kept :
        (j : ℕ) (off : ℕ)
        → 8 + 4 * count + free ≤ off
        → read_values (map datatype vs) q off ≡ read_values (map datatype vs) p off
    record_kept j off h =
        read_values-Same (map datatype vs) q p off
          (λ k le. placed.above k (omega arith) ∙ bytes k (omega arith))

    dir_kept : (j : ℕ) → j < count → j ≢ d → get_dir q j ≡ get_dir p j
    dir_kept j lt ne = placed.dir_kept j ne (omega arith) ∙ dirs j

    Slot-kept :
        (j : ℕ)
        → j < count
        → j ≢ d
        → Slot (map datatype vs) p (8 + 4 * count + free) j
        → Slot (map datatype vs) q (8 + 4 * c + f) j
    Slot-kept j lt ne (vacant z e n) = vacant z (dir_kept j lt ne ∙ e) n
    Slot-kept j lt ne (live off ws e up lo r) =
        live off ws (dir_kept j lt ne ∙ e) up (omega arith) (record_kept j off lo ∙ r)

    Slot-of : (j : ℕ) → j < c → Slot (map datatype vs) q (8 + 4 * c + f) j
    Slot-of j lt = elim (ℕ_discrete j d) [
      | yes e ↦
          live (8 + 4 * c + f) vs (ap (get_dir q) e ∙ placed.dir_set) (omega arith) (omega arith)
            record_read
      | no ne ↦ Slot-kept j (omega arith) ne (laid.slots j (omega arith))
    ]

    now_laid : IsLaidOut (map datatype vs) q
    now_laid = record {
      count = c;
      free = f;
      count_is = placed.count_kept ∙ count';
      free_is = placed.free_set;
      fits = let old = laid.fits in omega arith;
      slots = Slot-of;
    }

    get_record_kept :
        (j : ℕ)
        → j < count
        → j ≢ d
        → get_record q j (map datatype vs) ≡ get_record p j (map datatype vs)
    get_record_kept j lt ne = go (laid.slots j lt)
      where
        go :
            Slot (map datatype vs) p (8 + 4 * count + free) j
            → get_record q j (map datatype vs) ≡ get_record p j (map datatype vs)
        go (vacant z e n) =
            get_record_vacant q j _ z (dir_kept j lt ne ∙ e) n ∙ sym (get_record_vacant p j _ z e n)
        go (live off ws e up lo r) =
            get_record_live q j _ off ws (dir_kept j lt ne ∙ e) up (record_kept j off lo ∙ r)
            ∙ sym (get_record_live p j _ off ws e up r)

    get_record_new : get_record q d (map datatype vs) ≡ some (some vs)
    get_record_new =
        get_record_live q d _ (8 + 4 * c + f) vs placed.dir_set (omega arith) record_read

    new_Outcome :
        (d < count → get_record p d (map datatype vs) ≡ some none)
        → Outcome p count free vs (q, some d)
    unfolding now_laid
    new_Outcome old =
        stored q d now_laid (omega arith) get_record_new old (omega arith) get_record_kept

  -- How an insertion answers: `place` is done in a page `p'`, which is `p` with the new count.
  pub data Placement : Page × Option ℕ → Type 0 where
    placement :
        (p' q : Page) (d c f : ℕ)
        → ((j : ℕ) → get_dir p' j ≡ get_dir p j)
        → ((k : ℕ) → 8 ≤ k → p'.bytes k ≡ p.bytes k)
        → get_dir_count p' ≡ some (pos c)
        → (count ≤ c) × (d < c) × ((c ≡ count) ⊎ ((d ≡ count) × (c ≡ count + 1)))
        → 8 + 4 * c + f + record_size vs ≡ 8 + 4 * count + free
        → Placed p' d c f vs q
        → (d < count → (z : ℤ) × (get_dir p d ≡ some z) × (ltb_ℤ (pos 0) z ≡ false))
        → Placement (q, some d)
    no_room : free < record_size vs + 4 → Placement (p, none)

  -- Insertion answers, and the answer is right.
  abbrev Answers : Option (Page × Option ℕ) → Type 0
  Answers r = (a : Page × Option ℕ) × (r ≡ some a) × Placement a

  module _ (valid : All IsValue vs) where
    reuse_dir-Answers :
        (d : ℕ)
        → d < count
        → (z : ℤ) × (get_dir p d ≡ some z) × (ltb_ℤ (pos 0) z ≡ false)
        → Answers (reuse_dir p d (pos count) (pos free) vs)
    unfolding reuse_dir
    reuse_dir-Answers d lt old = elim (dec_lt free (record_size vs)) [
      | yes short ↦ ((p, none), rw (lt→ltb_ℤ free (record_size vs) short), no_room (omega arith))
      | no enough ↦
          let (q, placed) =
            place-Placed p d count (free - record_size vs) vs lt
              (let old = laid.fits in omega arith) valid in
          (
            (q, some d),
            rw (
              le→ltb_ℤ free (record_size vs) (omega arith),
              pos--ℤ free (record_size vs) (omega arith),
              placed.done,
            ),
            placement p q d count (free - record_size vs) (λ j. refl) (λ k h. refl) laid.count_is
                (omega arith) (omega arith) placed (λ h. old),
          )
    ]

    -- The page once the new slot is counted.
    counted : Page
    counted = put p 0 (int32_bytes (pos (count + 1)))

    counted_done : set_dir_count p (pos (count + 1)) ≡ some counted
    unfolding set_dir_count counted
    counted_done = write_int32_lem p 0 (pos (count + 1)) (omega arith)

    counted_bytes : (k : ℕ) → 8 ≤ k → counted.bytes k ≡ p.bytes k
    unfolding counted
    counted_bytes k h =
        put_outside p 0 (int32_bytes (pos (count + 1))) k (rw length-int32_bytes (omega arith))

    counted_dir : (j : ℕ) → get_dir counted j ≡ get_dir p j
    unfolding get_dir
    counted_dir j = read_int32-Same counted p (8 + 4 * j) (λ k a b. counted_bytes k (omega arith))

    counted_count : 8 + 4 * count + 4 ≤ size → get_dir_count counted ≡ some (pos (count + 1))
    unfolding counted get_dir_count
    counted_count room = read_int32-put_same p 0 (pos (count + 1)) (omega arith) (omega arith)

    append_dir-Answers :
        8 + 4 * count + 4 ≤ size → Answers (append_dir p count (pos count) (pos free) vs)
    unfolding append_dir
    append_dir-Answers room = elim (dec_lt free (record_size vs + 4)) [
      | yes short ↦ ((p, none), rw (lt→ltb_ℤ free (record_size vs + 4) short), no_room short)
      | no enough ↦
          let (q, placed) =
            place-Placed counted count (count + 1) (free - (record_size vs + 4)) vs (omega arith)
              (let old = laid.fits in omega arith) valid in
          (
            (q, some count),
            rw (
              le→ltb_ℤ free (record_size vs + 4) (omega arith),
              pos-+ℤ count 1,
              counted_done,
              pos--ℤ free (record_size vs + 4) (omega arith),
              placed.done,
            ),
            placement counted q count (count + 1) (free - (record_size vs + 4)) counted_dir
                counted_bytes (counted_count room) (omega arith) (omega arith) placed
                (λ h. absurd (omega arith)),
          )
    ]

    try_insert_at :
        (d : ℕ)
        → find_dir (suc count) p (pos count) 0 ≡ some d
        → Ends p count d
        → Answers (try_insert_record p vs)
    unfolding try_insert_record
    try_insert_at d found (inl (lt, z, e, n)) =
        rw (laid.count_is, found, laid.free_is, lt→ltb_ℤ d count lt)
          (reuse_dir-Answers d lt (z, e, n))
    try_insert_at d found (inr (last, room)) =
        rw (laid.count_is, found, laid.free_is, le→ltb_ℤ d count (omega arith), last)
          (append_dir-Answers room)

    Placement-Outcome : (a : Page × Option ℕ) → Placement a → Outcome p count free vs a
    Placement-Outcome _ (placement p' q d c f dirs bytes count' grown room placed old) =
        new_Outcome p' q d c f dirs bytes count' grown room placed valid
          (λ lt. let (z, e, n) = old lt in get_record_vacant p d (map datatype vs) z e n)
    Placement-Outcome _ (no_room short) = refused short

pub try_insert_record-Placement :
    (p : Page) (v : Value) (vs : List Value) (laid : IsLaidOut (map datatype (v ∷ vs)) p)
    → All IsValue (v ∷ vs)
    → Answers p (v ∷ vs) laid (try_insert_record p (v ∷ vs))
try_insert_record-Placement p v vs laid valid =
    let (d, found, ends) = find_dir_lem (datatype v) (map datatype vs) p laid in
    try_insert_at p (v ∷ vs) laid valid d found ends

-- Inserting a record, of at least one column and of values that the program can hold, into a well
-- formed page always answers. Either the record is then read back from the slot that is returned,
-- which held no record, the page is well formed and all other slots give the records that they
-- gave before; or the answer is `false`, the page is as it was, and its free space is less than
-- the record and a slot.
pub try_insert_record-Outcome :
    (p : Page) (v : Value) (vs : List Value) (laid : IsLaidOut (map datatype (v ∷ vs)) p)
    → All IsValue (v ∷ vs)
    → (a : Page × Option ℕ) × (try_insert_record p (v ∷ vs) ≡ some a)
      × Outcome p laid.count laid.free (v ∷ vs) a
try_insert_record-Outcome p v vs laid valid =
    let (a, done, how) = try_insert_record-Placement p v vs laid valid in
    (a, done, Placement-Outcome p (v ∷ vs) laid valid a how)

-- A well formed page has no space for a record that does not fit an empty page.
pub try_insert_record_oversize :
    (p : Page) (v : Value) (vs : List Value)
    → IsLaidOut (map datatype (v ∷ vs)) p
    → size < record_size (v ∷ vs) + 12
    → try_insert_record p (v ∷ vs) ≡ some (p, none)
unfolding try_insert_record reuse_dir append_dir
try_insert_record_oversize p v vs laid large =
    let (d, found, ends) = find_dir_lem (datatype v) (map datatype vs) p laid in
    let needed = record_size (v ∷ vs) in
    let room = laid.fits in
    elim ends [
      | inl (lt, z, e, n) ↦ rw (
        laid.count_is,
        found,
        laid.free_is,
        lt→ltb_ℤ d laid.count lt,
        lt→ltb_ℤ laid.free needed (omega arith),
      )
      | inr (last, bound) ↦ rw (
        laid.count_is,
        found,
        laid.free_is,
        le→ltb_ℤ d laid.count (omega arith),
        lt→ltb_ℤ laid.free (needed + 4) (omega arith),
      )
    ]
