-- ===== src/HeapPage/Vacuum/Live.antt =====
-- The records that the slots of a page point at, in the order of the slots.
use model_lib.Prelude.{
  ℕ, suc, ◌+◌, ◌*◌, ◌≤◌, ◌<◌, ◌≡◌, ap, ◌∙◌, some, List, [], ◌∷◌, ◌++◌, arith, ℕ_discrete,
}
use model_lib.Prelude.Int.{pos, negsuc, lt-negsuc}
use model_lib.Page.{Page, size}
use model_lib.Page.Access.{read_int32-Same}
use model_lib.Value.{DataType, Value}
use model_lib.HeapPage.{get_dir, record_size}
use model_lib.HeapPage.Layout.{Slot, vacant, live}
use model_lib.HeapPage.Encoding.{Stored, Stored-Same, read_values-Stored}

-- The `n` slots from `i` on are deleted or point at the records of the list, which stand from `lo`
-- on.
pub data Live (types : List DataType) (p : Page) (lo : ℕ) : ℕ → ℕ → List (List Value) → Type 0 where
  no_slots : {i : ℕ} → Live types p lo i 0 []
  deleted_slot :
      {i n : ℕ} {rs : List (List Value)} (k : ℕ)
      → get_dir p i ≡ some (negsuc k)
      → Live types p lo (suc i) n rs
      → Live types p lo i (suc n) rs
  live_slot :
      {i n : ℕ} {rs : List (List Value)} (off : ℕ) (vs : List Value)
      → get_dir p i ≡ some (pos off)
      → 0 < off
      → lo ≤ off
      → Stored types p off vs
      → Live types p lo (suc i) n rs
      → Live types p lo i (suc n) (vs ∷ rs)

-- The bytes of the records, and four for the slot of each.
unfoldable pub total : List (List Value) → ℕ
total [] = 0
total (vs ∷ rs) = record_size vs + 4 + total rs

module _ (types : List DataType) (p q : Page) (lo lo' : ℕ) (lower : lo' ≤ lo)
    (records : (k : ℕ) → lo ≤ k → k < size → q.bytes k ≡ p.bytes k) where
  dir_kept :
      (i n : ℕ)
      → ((k : ℕ) → 8 + 4 * i ≤ k → k < 8 + 4 * (i + suc n) → q.bytes k ≡ p.bytes k)
      → get_dir q i ≡ get_dir p i
  unfolding get_dir
  dir_kept i n slots =
      read_int32-Same q p (8 + 4 * i) (λ j a b. slots j (omega arith) (omega arith))

  -- Slots and records whose bytes another page has too.
  pub Live-kept :
      (i n : ℕ) (rs : List (List Value))
      → ((k : ℕ) → 8 + 4 * i ≤ k → k < 8 + 4 * (i + n) → q.bytes k ≡ p.bytes k)
      → Live types p lo i n rs
      → Live types q lo' i n rs
  Live-kept i n rs slots no_slots = no_slots
  Live-kept i (suc n) rs slots (deleted_slot k e rest) =
      deleted_slot k (dir_kept i n slots ∙ e)
        (Live-kept (suc i) n rs (λ j a b. slots j (omega arith) (omega arith)) rest)
  Live-kept i (suc n) (_ ∷ rs) slots (live_slot off vs e up le s rest) =
      live_slot off vs (dir_kept i n slots ∙ e) up (omega arith)
        (Stored-Same types p q off vs (λ k a b. records k (omega arith) b) s)
        (Live-kept (suc i) n rs (λ j a b. slots j (omega arith) (omega arith)) rest)

module _ (types : List DataType) (p : Page) (lo : ℕ) where
  -- One slot more, behind the last.
  pub Live-append :
      (i n : ℕ) (rs : List (List Value)) (off : ℕ) (vs : List Value)
      → Live types p lo i n rs
      → get_dir p (i + n) ≡ some (pos off)
      → 0 < off
      → lo ≤ off
      → Stored types p off vs
      → Live types p lo i (suc n) (rs ++ (vs ∷ []))
  Live-append i n rs off vs no_slots e up le s =
      live_slot off vs (ap (get_dir p) (omega arith) ∙ e) up le s no_slots
  Live-append i (suc n) rs off vs (deleted_slot k d rest) e up le s =
      deleted_slot k d
        (Live-append (suc i) n rs off vs rest (ap (get_dir p) (omega arith) ∙ e) up le s)
  Live-append i (suc n) (_ ∷ rs) off vs (live_slot o ws d u l t rest) e up le s =
      live_slot o ws d u l t
        (Live-append (suc i) n rs off vs rest (ap (get_dir p) (omega arith) ∙ e) up le s)

  pub Live-Slot :
      (i n : ℕ) (rs : List (List Value)) (j : ℕ)
      → Live types p lo i n rs
      → i ≤ j
      → j < i + n
      → Slot types p lo j
  Live-Slot i n rs j no_slots a b = absurd (omega arith)
  Live-Slot i (suc n) rs j (deleted_slot k e rest) a b = elim (ℕ_discrete i j) [
    | yes at ↦ vacant (negsuc k) (ap (get_dir p) (omega arith) ∙ e) (lt-negsuc k 0)
    | no ne ↦ Live-Slot (suc i) n rs j rest (omega arith) (omega arith)
  ]
  Live-Slot i (suc n) (_ ∷ rs) j (live_slot off vs e up le s rest) a b = elim (ℕ_discrete i j) [
    | yes at ↦
        live off vs (ap (get_dir p) (omega arith) ∙ e) up le (read_values-Stored types p off vs s)
    | no ne ↦ Live-Slot (suc i) n rs j rest (omega arith) (omega arith)
  ]
