-- ===== src/Buffer/Clock.antt =====
-- The clock finds an unpinned frame, if there is one, within two rounds.
use mathlib.Core.Path.{subst}
use native.Mathlib.Nat.{le_trans}
use model_lib.Prelude.{
  ℕ, zero, suc, ◌+◌, ◌-◌, ◌≤◌, ◌<◌, ◌≡◌, ◌≢◌, ◌∙◌, inl, inr, refl, ap, true, false, Option, none,
  some, ltb, ◌==◌, if◌then◌else◌, arith, ℕ_discrete, Bool-cases, ==_iff,
}
use model_lib.Buffer.{Frame, BufferManager, clear_chance, advance, unused_loop, get_unused_page}

-- Two frames that differ in the second chance at most.
pub record SameFrame (a b : Frame) : Type 0 where
  pub page_id : a.page_id ≡ b.page_id
  pub bytes : a.bytes ≡ b.bytes
  pub pins : a.pins ≡ b.pins
  pub dirty : a.dirty ≡ b.dirty

-- What the clock leaves alone: everything but the second chances of unpinned frames and itself.
pub record SameBuffer (b c : BufferManager) : Type 0 where
  pub frame_count : c.frame_count ≡ b.frame_count
  pub page_map : c.page_map ≡ b.page_map
  pub frames : (j : ℕ) → SameFrame (c.frames j) (b.frames j)
  pub pinned : (j : ℕ) → 0 < (b.frames j).pins → c.frames j ≡ b.frames j

-- The frame under the clock can be taken.
pub record IsUnused (b : BufferManager) : Type 0 where
  pub clock : b.clock < b.frame_count
  pub pins : (b.frames b.clock).pins ≡ 0
  pub second_chance : (b.frames b.clock).second_chance ≡ false

-- The steps from frame `c` on to frame `j`, round `n` frames.
distance : ℕ → ℕ → ℕ → ℕ
distance c j n = if ltb j c then n + j - c else j - c

SameBuffer-refl : (b : BufferManager) → SameBuffer b b
SameBuffer-refl b = record {
  frame_count = refl;
  page_map = refl;
  frames = λ j. record { page_id = refl; bytes = refl; pins = refl; dirty = refl };
  pinned = λ j h. refl;
}

SameBuffer-trans : (a b c : BufferManager) → SameBuffer a b → SameBuffer b c → SameBuffer a c
SameBuffer-trans a b c s t = record {
  frame_count = t.frame_count ∙ s.frame_count;
  page_map = t.page_map ∙ s.page_map;
  frames = λ j. record {
    page_id = (t.frames j).page_id ∙ (s.frames j).page_id;
    bytes = (t.frames j).bytes ∙ (s.frames j).bytes;
    pins = (t.frames j).pins ∙ (s.frames j).pins;
    dirty = (t.frames j).dirty ∙ (s.frames j).dirty;
  };
  pinned = λ j h. t.pinned j (rw (s.pinned j h) h) ∙ s.pinned j h;
}

SameBuffer-advance : (b : BufferManager) → SameBuffer b (advance b)
unfolding advance
SameBuffer-advance b = record {
  frame_count = refl;
  page_map = refl;
  frames = λ j. record { page_id = refl; bytes = refl; pins = refl; dirty = refl };
  pinned = λ j h. refl;
}

SameBuffer-clear : (b : BufferManager) → (b.frames b.clock).pins ≡ 0 → SameBuffer b (clear_chance b)
unfolding clear_chance
SameBuffer-clear b free = record {
  frame_count = refl;
  page_map = refl;
  frames = λ j. record {
    page_id = ground arith;
    bytes = ground arith;
    pins = ground arith;
    dirty = ground arith;
  };
  pinned = λ j h. ground arith;
}

abbrev Finds : BufferManager → Option BufferManager → Type 0
Finds b o = (c : BufferManager) × (o ≡ some c) × IsUnused c × SameBuffer b c

advance_clock : (b : BufferManager) → b.clock < b.frame_count → (advance b).clock < b.frame_count
unfolding advance
advance_clock b h = ground arith

-- One step on comes nearer, unless the frame is there.
distance-advance :
    (b : BufferManager) (j : ℕ)
    → b.clock < b.frame_count
    → j < b.frame_count
    → b.clock ≢ j
    → suc (distance (advance b).clock j b.frame_count) ≤ distance b.clock j b.frame_count
unfolding advance distance
distance-advance b j h l ne = ground arith

distance-lt : (c j n : ℕ) → c < n → j < n → distance c j n < n
unfolding distance
distance-lt c j n h l = ground arith

-- What a search for frame `j` may still take.
potential : BufferManager → ℕ → ℕ
potential b j =
    distance b.clock j b.frame_count + (if (b.frames j).second_chance then b.frame_count else 0)

potential-advance :
    (b : BufferManager) (j : ℕ)
    → b.clock < b.frame_count
    → j < b.frame_count
    → b.clock ≢ j
    → suc (potential (advance b) j) ≤ potential b j
unfolding potential advance
potential-advance b j h l ne = omega (arith, distance-advance b j h l ne)

potential-clear_ne :
    (b : BufferManager) (j : ℕ) → b.clock ≢ j → potential (clear_chance b) j ≡ potential b j
unfolding potential clear_chance
potential-clear_ne b j ne = ground arith

-- Once the frame itself was cleared, less than a round is left.
potential-clear_self :
    (b : BufferManager)
    → b.clock < b.frame_count
    → (b.frames b.clock).second_chance ≡ true
    → suc (potential (advance (clear_chance b)) b.clock) ≤ potential b b.clock
unfolding potential clear_chance advance
potential-clear_self b h e =
    ground (arith, distance-lt (advance b).clock b.clock b.frame_count (advance_clock b h) h)

clear_clock :
    (b : BufferManager)
    → b.clock < b.frame_count
    → (clear_chance b).clock < (clear_chance b).frame_count
unfolding clear_chance
clear_clock b h = h

clear_clock_j : (b : BufferManager) (j : ℕ) → j < b.frame_count → j < (clear_chance b).frame_count
unfolding clear_chance
clear_clock_j b j h = h

clear_ne : (b : BufferManager) (j : ℕ) → b.clock ≢ j → (clear_chance b).clock ≢ j
unfolding clear_chance
clear_ne b j h = h

advance_free : (b : BufferManager) (j : ℕ) → (b.frames j).pins ≡ 0 → ((advance b).frames j).pins ≡ 0
unfolding advance
advance_free b j h = h

advance_j : (b : BufferManager) (j : ℕ) → j < b.frame_count → j < (advance b).frame_count
unfolding advance
advance_j b j h = h

advance_inside :
    (b : BufferManager) → b.clock < b.frame_count → (advance b).clock < (advance b).frame_count
unfolding advance
advance_inside b h = advance_clock b h

clear_pins : (b : BufferManager) (j : ℕ) → ((clear_chance b).frames j).pins ≡ (b.frames j).pins
unfolding clear_chance
clear_pins b j = ground arith

-- The search goes on from the next frame, cleared or not.
module _ (j fuel : ℕ) (b : BufferManager) (c : b.clock < b.frame_count) (l : j < b.frame_count)
    (free : (b.frames j).pins ≡ 0) (enough : potential b j < suc fuel) where
  pass-Finds :
      ((b.frames b.clock).pins == 0) ≡ false
      → (potential (advance b) j < fuel → Finds (advance b) (unused_loop fuel (advance b)))
      → Finds b (unused_loop (suc fuel) b)
  unfolding unused_loop
  pass-Finds pinned rest =
      let elsewhere : b.clock ≢ j = pins_ne pinned in
      let (r, done, unused, same) = rest (omega (arith, potential-advance b j c l elsewhere)) in
      (r, rw pinned done, unused, SameBuffer-trans b (advance b) r (SameBuffer-advance b) same)
    where
      pins_ne : ((b.frames b.clock).pins == 0) ≡ false → b.clock ≢ j
      pins_ne pinned e =
          cc (pinned, (==_iff (b.frames b.clock).pins 0).1 (ap (λ k. (b.frames k).pins) e ∙ free))

  clear-Finds :
      ((b.frames b.clock).pins == 0) ≡ true
      → (b.frames b.clock).second_chance ≡ true
      → (potential (advance (clear_chance b)) j < fuel
          → Finds (advance (clear_chance b)) (unused_loop fuel (advance (clear_chance b))))
      → Finds b (unused_loop (suc fuel) b)
  unfolding unused_loop
  clear-Finds none_pinned chance rest =
      let (r, done, unused, same) = rest nearer in
      (
        r,
        rw (none_pinned, chance) done,
        unused,
        SameBuffer-trans b (advance (clear_chance b)) r
            (SameBuffer-trans b (clear_chance b) (advance (clear_chance b))
              (SameBuffer-clear b ((==_iff (b.frames b.clock).pins 0).0 none_pinned))
              (SameBuffer-advance (clear_chance b)))
            same,
      )
    where
      nearer : potential (advance (clear_chance b)) j < fuel
      nearer = elim (ℕ_discrete b.clock j) [
        | yes e ↦
            le_trans
              (subst (λ k. suc (potential (advance (clear_chance b)) k) ≤ potential b k) e
                (potential-clear_self b c chance))
              (omega arith)
        | no ne ↦ omega (
          arith,
          potential-advance (clear_chance b) j (clear_clock b c) (clear_clock_j b j l)
              (clear_ne b j ne),
          potential-clear_ne b j ne,
        )
      ]

unused_loop-Finds :
    (j fuel : ℕ) (b : BufferManager)
    → b.clock < b.frame_count
    → j < b.frame_count
    → (b.frames j).pins ≡ 0
    → potential b j < fuel
    → Finds b (unused_loop fuel b)
unused_loop-Finds j zero b c l free enough = absurd (omega arith)
unused_loop-Finds j (suc fuel) b c l free enough =
    elim (Bool-cases ((b.frames b.clock).pins == 0)) [
      | inr pinned ↦ pass-Finds j fuel b c l free enough pinned (
          unused_loop-Finds j fuel (advance b) (advance_inside b c) (advance_j b j l)
            (advance_free b j free))
      | inl none_pinned ↦ elim (Bool-cases (b.frames b.clock).second_chance) [
        | inr old ↦ (
          b,
          unfold unused_loop in rw (none_pinned, old) refl,
          record {
            clock = c;
            pins = (==_iff (b.frames b.clock).pins 0).0 none_pinned;
            second_chance = old;
          },
          SameBuffer-refl b,
        )
        | inl chance ↦
            let b' : BufferManager = clear_chance b in
            clear-Finds j fuel b c l free enough none_pinned chance (
              unused_loop-Finds j fuel (advance b') (advance_inside b' (clear_clock b c))
                (advance_j b' j (clear_clock_j b j l)) (advance_free b' j (clear_pins b j ∙ free)))
      ]
    ]

potential-lt :
    (b : BufferManager) (j : ℕ)
    → b.clock < b.frame_count
    → j < b.frame_count
    → potential b j < b.frame_count + b.frame_count + 1
unfolding potential
potential-lt b j h l = ground (arith, distance-lt b.clock j b.frame_count h l)

-- If the clock stands inside the buffer and some frame is not pinned, `get_unused_page` ends
-- within two rounds of the clock. The frame that it stops at is inside the buffer, not pinned and
-- without a second chance; of the other state only the clock and second chances of unpinned frames
-- have changed.
pub get_unused_page-IsUnused :
    (b : BufferManager) (j : ℕ)
    → b.clock < b.frame_count
    → j < b.frame_count
    → (b.frames j).pins ≡ 0
    → (c : BufferManager) × (get_unused_page b ≡ some c) × IsUnused c × SameBuffer b c
unfolding get_unused_page
get_unused_page-IsUnused b j h l free =
    unused_loop-Finds j (b.frame_count + b.frame_count + 1) b h l free (potential-lt b j h l)

-- If the clock stands inside the buffer and every frame is pinned, no number of steps is enough
-- for it to find a frame.
pub unused_loop_stuck :
    (fuel : ℕ) (b : BufferManager)
    → b.clock < b.frame_count
    → ((j : ℕ) → j < b.frame_count → 0 < (b.frames j).pins)
    → unused_loop fuel b ≡ none
unfolding unused_loop
unused_loop_stuck zero b h pinned = refl
unused_loop_stuck (suc fuel) b h pinned = ground (
  arith,
  pinned b.clock h,
  unused_loop_stuck fuel (advance b) (advance_inside b h) (unfold advance in pinned),
)
