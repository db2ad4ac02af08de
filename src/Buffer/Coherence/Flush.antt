-- ===== src/Buffer/Coherence/Flush.antt =====
-- `BufferManager::flush` of src/system/buffer_manager.cc: every page goes to disk.
use model_lib.Prelude.{
  ℕ, zero, suc, ◌+◌, ◌<◌, ◌≡◌, ◌≢◌, ◌∙◌, ◌⊎◌, inl, inr, refl, ap, sym, true, false, none, some,
  arith, Bool-cases, Option-cases, ℕ_discrete, assert, ◌==◌, ◌>>=◌, ◌>>◌,
}
use native.Mathlib.Nat.{le_trans}
use model_lib.Page.{size}
use model_lib.FileManager.{PageId, same_id, unassigned, Disk}
use model_lib.FileManager.Laws.{disk_byte, last_page, same_id_iff}
use model_lib.Buffer.{Frame, BufferManager, set_frame, evict, flush_frame, flush_loop, flush}
use model_lib.Buffer.Coherence.{FrameIsCoherent, IsCoherent, byte_of, view}
use model_lib.Buffer.Coherence.Evict.{
  cleared, evict-cleared, cleared_frame, cleared-IsAligned, count_pages-le-cleared, cleared_clean,
  disk_byte-cleared_ne, disk_byte-cleared_same,
}

-- One frame is written out.
module _ (d : Disk) (b : BufferManager) (co : IsCoherent d b) (k : ℕ)
    (inside : k < b.frame_count) where
  abbrev written : Disk
  written = (cleared d (b.frames k)).0

  abbrev cleaned : Frame
  cleaned = (cleared d (b.frames k)).1

  abbrev flushed : BufferManager
  flushed = set_frame b k cleaned

  same_page : cleaned.page_id ≡ (b.frames k).page_id
  same_page = (cleared_frame d (b.frames k)).0

  same_bytes : cleaned.bytes ≡ (b.frames k).bytes
  same_bytes = (cleared_frame d (b.frames k)).1

  is_clean : cleaned.dirty ≡ false
  is_clean = (cleared_frame d (b.frames k)).4

  -- Two frames hold two pages.
  frames_apart :
      (n : ℕ)
      → n < b.frame_count
      → k ≢ n
      → (b.frames n).page_id.file_id ≢ unassigned
      → same_id (b.frames k).page_id (b.frames n).page_id ≡ false
  frames_apart n l ne a = elim (Bool-cases (same_id (b.frames k).page_id (b.frames n).page_id)) [
    | inr e ↦ e
    | inl e ↦
        let at = (same_id_iff (b.frames k).page_id (b.frames n).page_id).0 e in
        let first = (co.frames k inside).complete (λ u. a (sym (ap (λ p. p.file_id) at) ∙ u)) in
        let both : some k ≡ some n = sym first ∙ ap b.page_map at ∙ (co.frames n l).complete a in
        absurd (ne (cc both))
  ]

  -- A page on disk is as it was, unless it is the page of the frame.
  disk_byte-written :
      (j : PageId) (i : ℕ)
      → i < size
      → ((same_id (b.frames k).page_id j ≡ false) ⊎ ((b.frames k).dirty ≡ false))
      → disk_byte written j i ≡ disk_byte d j i
  disk_byte-written j i l (inl ne) = disk_byte-cleared_ne d (b.frames k) j i co.aligned l ne
  disk_byte-written j i l (inr e) = ap (λ v. disk_byte v j i) (cleared_clean d (b.frames k) e)

  own_byte :
      (i : ℕ)
      → i < size
      → (b.frames k).page_id.file_id ≢ unassigned
      → (b.frames k).bytes i ≡ disk_byte written (b.frames k).page_id i
  own_byte i l a = sym (
      disk_byte-cleared_same d (b.frames k) i co.aligned l
        (λ e. (co.frames k inside).clean a e i l))

  cleaned-FrameIsCoherent : FrameIsCoherent written b.page_map k cleaned
  cleaned-FrameIsCoherent = record {
    complete = rw same_page (co.frames k inside).complete;
    idle = λ u. is_clean;
    clean = rw (same_page, same_bytes) (λ a e i l. own_byte i l a);
    stored = rw same_page (λ a.
        le_trans ((co.frames k inside).stored a)
          (count_pages-le-cleared d (b.frames k) (b.frames k).page_id.file_id));
    bounded = rw same_page (co.frames k inside).bounded;
  }

  other-FrameIsCoherent :
      (n : ℕ) → n < b.frame_count → k ≢ n → FrameIsCoherent written b.page_map n (b.frames n)
  other-FrameIsCoherent n l ne = record {
    complete = (co.frames n l).complete;
    idle = (co.frames n l).idle;
    clean = λ a e i h.
        (co.frames n l).clean a e i h
        ∙ sym (disk_byte-written (b.frames n).page_id i h (inl (frames_apart n l ne a)));
    stored = λ a.
        le_trans ((co.frames n l).stored a)
          (count_pages-le-cleared d (b.frames k) (b.frames n).page_id.file_id);
    bounded = (co.frames n l).bounded;
  }

  -- Frame `n` afterwards.
  frame_here : flushed.frames k ≡ cleaned
  frame_here = ground arith

  frame_there : (n : ℕ) → k ≢ n → flushed.frames n ≡ b.frames n
  frame_there n ne = ground arith

  frame_bytes : (n : ℕ) → (flushed.frames n).bytes ≡ (b.frames n).bytes
  frame_bytes n = elim (ℕ_discrete k n) [
    | yes e ↦ rw⁻¹ e (ap (λ (f : Frame). f.bytes) frame_here ∙ same_bytes)
    | no ne ↦ ap (λ (f : Frame). f.bytes) (frame_there n ne)
  ]

  frame_id : (n : ℕ) → (flushed.frames n).page_id ≡ (b.frames n).page_id
  frame_id n = elim (ℕ_discrete k n) [
    | yes e ↦ rw⁻¹ e (ap (λ (f : Frame). f.page_id) frame_here ∙ same_page)
    | no ne ↦ ap (λ (f : Frame). f.page_id) (frame_there n ne)
  ]

  frame_pins : (n : ℕ) → (flushed.frames n).pins ≡ (b.frames n).pins
  frame_pins n = elim (ℕ_discrete k n) [
    | yes e ↦ rw⁻¹ e (ap (λ (f : Frame). f.pins) frame_here ∙ (cleared_frame d (b.frames k)).2)
    | no ne ↦ ap (λ (f : Frame). f.pins) (frame_there n ne)
  ]

  frame_dirty : (n : ℕ) → (k ≢ n → (b.frames n).dirty ≡ false) → (flushed.frames n).dirty ≡ false
  frame_dirty n clean = elim (ℕ_discrete k n) [
    | yes e ↦ rw⁻¹ e (ap (λ (f : Frame). f.dirty) frame_here ∙ is_clean)
    | no ne ↦ ap (λ (f : Frame). f.dirty) (frame_there n ne) ∙ clean ne
  ]

  flushed-IsCoherent : IsCoherent written flushed
  flushed-IsCoherent = record {
    aligned = cleared-IsAligned d (b.frames k) co.aligned;
    sound = λ j n e. let (lt, at, a) = co.sound j n e in (lt, frame_id n ∙ at, a);
    frames = λ n l. elim (ℕ_discrete k n) [
      | yes e ↦ rw⁻¹ e (rw frame_here cleaned-FrameIsCoherent)
      | no ne ↦ rw (frame_there n ne) (other-FrameIsCoherent n l ne)
    ];
  }

  -- A page that is in no frame is not the frame's.
  not_here :
      (j : PageId)
      → b.page_map j ≡ none
      → (same_id (b.frames k).page_id j ≡ false) ⊎ ((b.frames k).dirty ≡ false)
  not_here j e = elim (ℕ_discrete (b.frames k).page_id.file_id unassigned) [
    | yes u ↦ inr ((co.frames k inside).idle u)
    | no a ↦ inl (elim (Bool-cases (same_id (b.frames k).page_id j)) [
      | inr ne ↦ ne
      | inl same ↦
          let at = (same_id_iff (b.frames k).page_id j).0 same in
          let mapped : none ≡ some k =
            sym e ∙ ap b.page_map (sym at) ∙ (co.frames k inside).complete a in
          absurd (cc mapped)
    ])
  ]

  flushed-view : (j : PageId) (i : ℕ) → i < size → view written flushed j i ≡ view d b j i
  unfolding view
  flushed-view j i l = elim (Option-cases (b.page_map j)) [
    | inl e ↦ rw e (disk_byte-written j i l (not_here j e))
    | inr (n, e) ↦ rw e (ap (λ f. f i) (frame_bytes n))
  ]

  flush_frame_lem : (b.frames k).pins ≡ 0 → flush_frame d b k ≡ some (written, flushed)
  unfolding flush_frame
  flush_frame_lem e =
      ap (λ n. assert (n == 0) >> (evict d (b.frames k) >>= (λ a. some (a.0, set_frame b k a.1)))) e
      ∙ rw (evict-cleared d (b.frames k) bounded) refl
    where
      bounded : (b.frames k).dirty ≡ true → (b.frames k).page_id.page_number < last_page
      bounded e = elim (ℕ_discrete (b.frames k).page_id.file_id unassigned) [
        | yes u ↦ let idle = (co.frames k inside).idle u in absurd (cc (e, idle))
        | no a ↦ (co.frames k inside).bounded a
      ]

-- Every frame is clean, and no page has lost a byte.
pub record IsFlushed (d : Disk) (b : BufferManager) (d' : Disk) (c : BufferManager) : Type 0 where
  pub coherent : IsCoherent d' c
  pub clock : c.clock ≡ b.clock
  pub frame_count : c.frame_count ≡ b.frame_count
  pub view : (j : PageId) (i : ℕ) → i < size → view d' c j i ≡ view d b j i
  pub clean : (k : ℕ) → k < c.frame_count → (c.frames k).dirty ≡ false

flush_loop-IsFlushed :
    (n k : ℕ) (d : Disk) (b : BufferManager)
    → IsCoherent d b
    → k + n ≡ b.frame_count
    → ((j : ℕ) → j < b.frame_count → (b.frames j).pins ≡ 0)
    → ((j : ℕ) → j < k → (b.frames j).dirty ≡ false)
    → (d' : Disk) × (c : BufferManager) × (flush_loop n k d b ≡ some (d', c)) × IsFlushed d b d' c
unfolding flush_loop
flush_loop-IsFlushed zero k d b co all free clean = (
  d,
  b,
  refl,
  record {
    coherent = co;
    clock = refl;
    frame_count = refl;
    view = λ j i l. refl;
    clean = λ j l. clean j (omega arith);
  },
)
flush_loop-IsFlushed (suc n) k d b co all free clean =
    let inside : k < b.frame_count = omega arith in
    let (d', c, done, r) =
      flush_loop-IsFlushed n (k + 1) (written d b co k inside) (flushed d b co k inside)
        (flushed-IsCoherent d b co k inside) (omega arith)
        (λ j l. frame_pins d b co k inside j ∙ free j l)
        (λ j l. frame_dirty d b co k inside j (λ ne. clean j (omega arith))) in
    (
      d',
      c,
      rw (flush_frame_lem d b co k inside (free k inside)) done,
      record {
        coherent = r.coherent;
        clock = r.clock;
        frame_count = r.frame_count;
        view = λ j i l. r.view j i l ∙ flushed-view d b co k inside j i l;
        clean = r.clean;
      },
    )

-- With clean frames, the disk has what a user sees.
byte_of-clean :
    (d : Disk) (b : BufferManager)
    → IsCoherent d b
    → ((k : ℕ) → k < b.frame_count → (b.frames k).dirty ≡ false)
    → (j : PageId) (i : ℕ) → i < size
    → view d b j i ≡ disk_byte d j i
unfolding view
byte_of-clean d b co clean j i l = elim (Option-cases (b.page_map j)) [
  | inl e ↦ rw e refl
  | inr (k, e) ↦
      let (lt, here, a) = co.sound j k e in
      let idle : (b.frames k).page_id.file_id ≢ unassigned =
        λ u. a (sym (ap (λ p. p.file_id) here) ∙ u) in
      ap (byte_of d b.frames j i) e
      ∙ (co.frames k lt).clean idle (clean k lt) i l
      ∙ ap (λ p. disk_byte d p i) here
]

-- If the buffer is coherent, so that the pages in its frames have numbers below 2 ^ 19 - 1, and no
-- frame is pinned, `flush` returns. The buffer is coherent afterwards, every frame is clean, a user sees the same bytes as before, and the disk has every
-- byte that the user saw.
pub flush-IsFlushed :
    (d : Disk) (b : BufferManager)
    → IsCoherent d b
    → ((j : ℕ) → j < b.frame_count → (b.frames j).pins ≡ 0)
    → (d' : Disk) × (c : BufferManager) × (flush d b ≡ some (d', c))
      × IsFlushed d b d' c
      × ((j : PageId) (i : ℕ) → i < size → disk_byte d' j i ≡ view d b j i)
unfolding flush
flush-IsFlushed d b co free =
    let (d', c, done, r) =
      flush_loop-IsFlushed b.frame_count 0 d b co (omega arith) free
        (λ j l. absurd (omega arith)) in
    (d', c, done, r, λ j i l. sym (byte_of-clean d' c r.coherent r.clean j i l) ∙ r.view j i l)
