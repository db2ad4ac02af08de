-- ===== src/Buffer/Life/Recovery.antt =====
-- `fake_flush` of src/system/buffer_manager.cc, which forgets the changes in the buffer.
use model_lib.Prelude.{
  ℕ, zero, suc, ◌+◌, ◌<◌, ◌≡◌, ◌≢◌, ◌∙◌, refl, ap, false, some, arith, ℕ_discrete,
}
use model_lib.FileManager.{Disk}
use model_lib.Buffer.{Frame, BufferManager, set_frame, evict, flush_frame, flush_loop, flush}
use model_lib.Buffer.Life.{forget_changes, fake_flush_loop, fake_flush}

-- What is left of the frames: they are clean, with the pins that they had.
record Forgot (b c : BufferManager) : Type 0 where
  pub frame_count : c.frame_count ≡ b.frame_count
  pub pins : (j : ℕ) → (c.frames j).pins ≡ (b.frames j).pins

forget_pins :
    (b : BufferManager) (i j : ℕ) → ((forget_changes b i).frames j).pins ≡ (b.frames j).pins
forget_pins b i j = ground arith

forget_dirty :
    (b : BufferManager) (i j : ℕ)
    → (i ≢ j → (b.frames j).dirty ≡ false)
    → ((forget_changes b i).frames j).dirty ≡ false
forget_dirty b i j clean = elim (ℕ_discrete i j) [
  | yes e ↦ rw e (ground arith)
  | no ne ↦ rw (clean ne) (ground arith)
]

fake_flush_loop-Forgot :
    (n i : ℕ) (b : BufferManager)
    → ((j : ℕ) → j < i → (b.frames j).dirty ≡ false)
    → Forgot b (fake_flush_loop n i b)
      × ((j : ℕ) → j < i + n → ((fake_flush_loop n i b).frames j).dirty ≡ false)
unfolding fake_flush_loop
fake_flush_loop-Forgot zero i b clean =
    (record { frame_count = refl; pins = λ j. refl }, λ j l. clean j (omega arith))
fake_flush_loop-Forgot (suc n) i b clean =
    let (rest, done) =
      fake_flush_loop-Forgot n (i + 1) (forget_changes b i)
        (λ j l. forget_dirty b i j (λ ne. clean j (omega arith))) in
    (
      record { frame_count = rest.frame_count; pins = λ j. rest.pins j ∙ forget_pins b i j },
      λ j l. done j (omega arith),
    )

-- A round of `flush` at a clean frame.
record Untouched (b c : BufferManager) : Type 0 where
  pub frame_count : c.frame_count ≡ b.frame_count
  pub frames : (j : ℕ) → c.frames j ≡ b.frames j

flush_frame_clean :
    (d : Disk) (b : BufferManager) (i : ℕ)
    → (b.frames i).pins ≡ 0
    → (b.frames i).dirty ≡ false
    → flush_frame d b i ≡ some (d, set_frame b i (b.frames i))
unfolding flush_frame evict
flush_frame_clean d b i free clean = rw (free, clean) refl

set_frame_own : (b : BufferManager) (i j : ℕ) → (set_frame b i (b.frames i)).frames j ≡ b.frames j
set_frame_own b i j = elim (ℕ_discrete i j) [ yes e ↦ rw e (ground arith) | no ne ↦ ground arith ]

flush_loop_clean :
    (n i : ℕ) (d : Disk) (b : BufferManager)
    → ((j : ℕ) → j < i + n → (b.frames j).pins ≡ 0)
    → ((j : ℕ) → j < i + n → (b.frames j).dirty ≡ false)
    → (c : BufferManager) × (flush_loop n i d b ≡ some (d, c))
unfolding flush_loop
flush_loop_clean zero i d b free clean = (b, refl)
flush_loop_clean (suc n) i d b free clean =
    let (c, done) =
      flush_loop_clean n (i + 1) d (set_frame b i (b.frames i))
        (λ j l. ap (λ (f : Frame). f.pins) (set_frame_own b i j) ∙ free j (omega arith))
        (λ j l. ap (λ (f : Frame). f.dirty) (set_frame_own b i j) ∙ clean j (omega arith)) in
    (c, rw (flush_frame_clean d b i (free i (omega arith)) (clean i (omega arith))) done)

-- After `fake_flush`, with no frame pinned, the destructor returns and writes nothing: the disk stays
-- as it is.
pub fake_flush-flush :
    (d : Disk) (b : BufferManager)
    → ((j : ℕ) → j < b.frame_count → (b.frames j).pins ≡ 0)
    → (c : BufferManager) × (flush d (fake_flush b) ≡ some (d, c))
unfolding flush fake_flush
fake_flush-flush d b free =
    let (forgot, clean) = fake_flush_loop-Forgot b.frame_count 0 b (λ j l. absurd (omega arith)) in
    let after = fake_flush_loop b.frame_count 0 b in
    flush_loop_clean after.frame_count 0 d after
      (λ j l. forgot.pins j ∙ free j (let same = forgot.frame_count in omega arith))
      (λ j l. clean j (let same = forgot.frame_count in omega arith))
