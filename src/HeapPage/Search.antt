-- ===== src/HeapPage/Search.antt =====
-- The search for a slot: it ends, within its fuel and within the page, at a vacant slot or behind the
-- last.
use model_lib.Prelude.{
  ℕ, zero, suc, ◌+◌, ◌*◌, ◌-◌, ◌≤◌, ◌<◌, ◌≡◌, ◌⊎◌, inl, inr, false, some, List, ◌∷◌, arith, dec_lt,
  le→leb,
}
use model_lib.Prelude.Int.{ℤ, pos, lt→ltb_ℤ, ltb_ℤ}
use model_lib.Word.{bytes_int32}
use model_lib.Page.{Page, size, load, read_int32, read_int64, read_uint8}
use model_lib.Value.{DataType, str, int, Value}
use model_lib.HeapPage.{get_dir, read_values, find_dir}
use model_lib.HeapPage.Layout.{vacant, live, IsLaidOut}

pub get_dir_total : (p : Page) (i : ℕ) → 8 + 4 * i + 4 ≤ size → (z : ℤ) × (get_dir p i ≡ some z)
unfolding get_dir read_int32
get_dir_total p i h = (bytes_int32 (load p.bytes (8 + 4 * i) 4), rw (le→leb (8 + 4 * i + 4) size h))

-- A record with a column takes a byte at least.
read_values_fits :
    (t : DataType) (types : List DataType) (p : Page) (off : ℕ) (vs : List Value)
    → read_values (t ∷ types) p off ≡ some vs
    → off + 1 ≤ size
unfolding read_values read_int64 read_uint8
read_values_fits int types p off vs h = ground arith
read_values_fits str types p off vs h = ground arith

-- Where the search may end.
abbrev pub Ends : Page → ℕ → ℕ → Type 0
Ends p count d =
    ((d < count) × (z : ℤ) × (get_dir p d ≡ some z) × (ltb_ℤ (pos 0) z ≡ false))
    ⊎ ((d ≡ count) × (8 + 4 * count + 4 ≤ size))

module _ (t : DataType) (types : List DataType) (p : Page) (laid : IsLaidOut (t ∷ types) p) where
  open laid use {count, free}

  live_room :
      (off : ℕ) (vs : List Value)
      → 8 + 4 * count + free ≤ off
      → read_values (t ∷ types) p off ≡ some vs
      → 8 + 4 * count + 4 ≤ size
  live_room off vs h r = omega (arith, read_values_fits t types p off vs r)

  at_end : (d : ℕ) → d ≡ count → (0 < d → 8 + 4 * count + 4 ≤ size) → 8 + 4 * count + 4 ≤ size
  at_end d e room = elim (dec_lt 0 d) [ yes up ↦ room up | no zero_slots ↦ omega arith ]

  find_dir_from :
      (fuel d : ℕ)
      → d ≤ count
      → count - d < fuel
      → (0 < d → 8 + 4 * count + 4 ≤ size)
      → (e : ℕ) × (find_dir fuel p (pos count) d ≡ some e) × Ends p count e
  unfolding find_dir
  find_dir_from zero d le enough room = absurd (omega arith)
  find_dir_from (suc fuel) d le enough room = elim (dec_lt d count) [
    | yes inside ↦ elim (laid.slots d inside) [
      | vacant z e n ↦ (d, rw (e, n), inl (inside, z, e, n))
      | live off vs e up lo r ↦
          let (d', found, ends) =
            find_dir_from fuel (d + 1) (omega arith) (omega arith) (λ _. live_room off vs lo r) in
          (d', rw (e, lt→ltb_ℤ 0 off up, lt→ltb_ℤ d count inside) found, ends)
    ]
    | no outside ↦
        let last : d ≡ count = omega arith in
        let space : 8 + 4 * count + 4 ≤ size = at_end d last room in
        let (z, e) = get_dir_total p d (omega arith) in (d, rw e (ground arith), inr (last, space))
  ]

  pub find_dir_lem : (e : ℕ) × (find_dir (suc count) p (pos count) 0 ≡ some e) × Ends p count e
  find_dir_lem = find_dir_from (suc count) 0 (omega arith) (omega arith) (λ h. absurd (omega arith))
