-- ===== src/HeapPage/Sound/Slots.antt =====
-- What a change of one slot of a page does to the records of its slots.
use model_lib.Prelude.{
  ℕ, suc, ◌+◌, ◌≤◌, ◌<◌, ◌≡◌, ◌≢◌, ap, ◌∙◌, ◌⊎◌, inl, inr, refl, true, false, none, some, List, ◌∷◌,
  arith, ℕ_discrete, sym, some-inj,
}
use model_lib.Prelude.Int.{ℤ, pos, negsuc, ltb_ℤ, lt→ltb_ℤ, lt-negsuc}
use model_lib.Page.{Page, size}
use model_lib.Value.{DataType, Value}
use model_lib.HeapPage.{get_dir, get_record}
use model_lib.HeapPage.Insert.{get_record_vacant, get_record_live}
use model_lib.HeapPage.Encoding.{Stored, Stored-Same, read_values-Stored}
use model_lib.HeapPage.Vacuum.Live.{Live, no_slots, deleted_slot, live_slot}
use model_lib.HeapPage.Sound.{Added, here, there}

-- What a deletion in slot `d` takes from the records: the one that the slot gives, if it gives one.
abbrev pub Dropped : List DataType → Page → ℕ → List (List Value) → List (List Value) → Type 0
Dropped types p d rs rs' =
    ((get_record p d types ≡ some none) × (rs' ≡ rs))
    ⊎ ((vs : List Value) × (get_record p d types ≡ some (some vs)) × Added vs rs' rs)

module _ (types : List DataType) (p q : Page) (lo lo' d bound : ℕ) (lower : lo' ≤ lo)
    (records : (k : ℕ) → lo ≤ k → k < size → q.bytes k ≡ p.bytes k)
    (dirs : (j : ℕ) → j ≢ d → j < bound → get_dir q j ≡ get_dir p j) where
  -- The slots that do not change.
  pub Live-others :
      (i n : ℕ) (rs : List (List Value))
      → (d < i) ⊎ (i + n ≤ d)
      → i + n ≤ bound
      → Live types p lo i n rs
      → Live types q lo' i n rs
  Live-others i n rs apart b no_slots = no_slots
  Live-others i (suc n) rs apart b (deleted_slot k e rest) =
      deleted_slot k (dirs i (omega arith) (omega arith) ∙ e)
        (Live-others (suc i) n rs (omega arith) (omega arith) rest)
  Live-others i (suc n) (_ ∷ rs) apart b (live_slot off vs e up le s rest) =
      live_slot off vs (dirs i (omega arith) (omega arith) ∙ e) up (omega arith)
        (Stored-Same types p q off vs (λ k a c. records k (omega arith) c) s)
        (Live-others (suc i) n rs (omega arith) (omega arith) rest)

  -- A slot without a record gets one.
  pub Live-add :
      (i n : ℕ) (rs : List (List Value)) (off : ℕ) (vs : List Value) (z : ℤ)
      → i ≤ d
      → d < i + n
      → i + n ≤ bound
      → get_dir p d ≡ some z
      → ltb_ℤ (pos 0) z ≡ false
      → get_dir q d ≡ some (pos off)
      → 0 < off
      → lo' ≤ off
      → Stored types q off vs
      → Live types p lo i n rs
      → (rs' : List (List Value)) × Live types q lo' i n rs' × Added vs rs rs'
  Live-add i n rs off vs z a b c old free now up le s no_slots = absurd (omega arith)
  Live-add i (suc n) rs off vs z a b c old free now up le s (deleted_slot k e rest) =
      elim (ℕ_discrete i d) [
        | yes at ↦ (
          vs ∷ rs,
          live_slot off vs (ap (get_dir q) at ∙ now) up le s
              (Live-others (suc i) n rs (omega arith) (omega arith) rest),
          here,
        )
        | no ne ↦
            let (rs', l, added) =
              Live-add (suc i) n rs off vs z (omega arith) (omega arith) (omega arith) old free now
                up le s rest in
            (rs', deleted_slot k (dirs i (omega arith) (omega arith) ∙ e) l, added)
      ]
  Live-add i (suc n) (_ ∷ rs) off vs z a b c old free now up le s (live_slot o ws e u l t rest) =
      elim (ℕ_discrete i d) [
        | yes at ↦
            let positive : ltb_ℤ (pos 0) (pos o) ≡ true = lt→ltb_ℤ 0 o u in
            let same : pos o ≡ z = some-inj (sym e ∙ ap (get_dir p) at ∙ old) in
            absurd (cc (positive, same, free))
        | no ne ↦
            let (rs', l', added) =
              Live-add (suc i) n rs off vs z (omega arith) (omega arith) (omega arith) old free now
                up le s rest in
            (
              ws ∷ rs',
              live_slot o ws (dirs i (omega arith) (omega arith) ∙ e) u (omega arith)
                  (Stored-Same types p q o ws (λ k x y. records k (omega arith) y) t) l',
              there ws added,
            )
      ]

  -- A slot is deleted: its record, if it had one, is gone.
  pub Live-drop :
      (i n : ℕ) (rs : List (List Value)) (k : ℕ)
      → i ≤ d
      → d < i + n
      → i + n ≤ bound
      → get_dir q d ≡ some (negsuc k)
      → Live types p lo i n rs
      → (rs' : List (List Value)) × Live types q lo' i n rs' × Dropped types p d rs rs'
  Live-drop i n rs k a b c now no_slots = absurd (omega arith)
  Live-drop i (suc n) rs k a b c now (deleted_slot k' e rest) = elim (ℕ_discrete i d) [
    | yes at ↦ (
      rs,
      deleted_slot k (ap (get_dir q) at ∙ now)
          (Live-others (suc i) n rs (omega arith) (omega arith) rest),
      inl (
        get_record_vacant p d types (negsuc k') (ap (get_dir p) (sym at) ∙ e) (lt-negsuc k' 0),
        refl,
      ),
    )
    | no ne ↦
        let (rs', l, how) =
          Live-drop (suc i) n rs k (omega arith) (omega arith) (omega arith) now rest in
        (rs', deleted_slot k' (dirs i (omega arith) (omega arith) ∙ e) l, how)
  ]
  Live-drop i (suc n) (_ ∷ rs) k a b c now (live_slot o ws e u l t rest) = elim (ℕ_discrete i d) [
    | yes at ↦ (
      rs,
      deleted_slot k (ap (get_dir q) at ∙ now)
          (Live-others (suc i) n rs (omega arith) (omega arith) rest),
      inr (
        ws,
        get_record_live p d types o ws (ap (get_dir p) (sym at) ∙ e) u
            (read_values-Stored types p o ws t),
        here,
      ),
    )
    | no ne ↦
        let (rs', l', how) =
          Live-drop (suc i) n rs k (omega arith) (omega arith) (omega arith) now rest in
        (
          ws ∷ rs',
          live_slot o ws (dirs i (omega arith) (omega arith) ∙ e) u (omega arith)
              (Stored-Same types p q o ws (λ j x y. records j (omega arith) y) t) l',
          elim how [
            | inl (gone, same) ↦ inl (gone, ap (ws ∷◌) same)
            | inr (vs, gives, added) ↦ inr (vs, gives, there ws added)
          ],
        )
  ]
