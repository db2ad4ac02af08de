-- ===== src/Buffer/Life/Written.antt =====
-- A write of a page in a frame of the buffer: it changes this page for its users, and no other.
use model_lib.Prelude.{
  ℕ, ◌<◌, ◌≡◌, ◌≢◌, ◌∙◌, ap, sym, true, false, some, inl, inr, arith, Bool-cases, Option-cases,
  ℕ_discrete,
}
use model_lib.Page.{Bytes, size}
use model_lib.FileManager.{PageId, same_id, unassigned, Disk}
use model_lib.FileManager.Laws.{same_id_iff}
use model_lib.Buffer.{Frame, BufferManager}
use model_lib.Buffer.Coherence.{FrameIsCoherent, IsCoherent, byte_of, view}
use model_lib.Buffer.Life.{write_frame, put_page, Pages}

module _ (d : Disk) (b : BufferManager) (co : IsCoherent d b) (id : PageId) (k : ℕ) (bytes : Bytes)
    (at : b.page_map id ≡ some k) where
  abbrev after : BufferManager
  after = write_frame b k bytes

  inside : k < b.frame_count
  inside = (co.sound id k at).0

  here : (b.frames k).page_id ≡ id
  here = (co.sound id k at).1

  assigned : (b.frames k).page_id.file_id ≢ unassigned
  assigned u = (co.sound id k at).2 (sym (ap (λ p. p.file_id) here) ∙ u)

  same_page : (n : ℕ) → (after.frames n).page_id ≡ (b.frames n).page_id
  same_page n = ground arith

  frame_here : after.frames k ≡ record (b.frames k) { bytes = bytes; dirty = true }
  frame_here = ground arith

  frame_there : (n : ℕ) → k ≢ n → after.frames n ≡ b.frames n
  frame_there n ne = ground arith

  changed-FrameIsCoherent :
      FrameIsCoherent d b.page_map k (record (b.frames k) { bytes = bytes; dirty = true })
  changed-FrameIsCoherent = record {
    complete = (co.frames k inside).complete;
    idle = λ u. absurd (assigned u);
    clean = λ a e. absurd (cc e);
    stored = (co.frames k inside).stored;
    bounded = (co.frames k inside).bounded;
  }

  pub write_frame-IsCoherent : IsCoherent d after
  write_frame-IsCoherent = record {
    aligned = co.aligned;
    sound = λ j n e. let (lt, there, a) = co.sound j n e in (lt, same_page n ∙ there, a);
    frames = λ n l. elim (ℕ_discrete k n) [
      | yes e ↦ rw⁻¹ e (rw frame_here changed-FrameIsCoherent)
      | no ne ↦ rw (frame_there n ne) (co.frames n l)
    ];
  }

  -- Another page is in another frame, or in none.
  other_frame : (j : PageId) (n : ℕ) → same_id id j ≡ false → b.page_map j ≡ some n → k ≢ n
  other_frame j n ne e eq =
      let there = (co.sound j n e).1 in
      let same : id ≡ j = sym here ∙ ap (λ m. (b.frames m).page_id) eq ∙ there in
      let yes : same_id id j ≡ true = (same_id_iff id j).1 same in absurd (cc (yes, ne))

  new_byte : (i : ℕ) → byte_of d after.frames id i (b.page_map id) ≡ bytes i
  new_byte i = ap (byte_of d after.frames id i) at ∙ ap (λ (f : Frame). f.bytes i) frame_here

  pub write_frame-view :
      (s : Pages)
      → ((j : PageId) (i : ℕ) → i < size → view d b j i ≡ s j i)
      → (j : PageId) (i : ℕ) → i < size
      → view d after j i ≡ put_page s id bytes j i
  unfolding view
  write_frame-view s before j i l = elim (Bool-cases (same_id id j)) [
    | inl e ↦ rw e (rw⁻¹ ((same_id_iff id j).0 e) (new_byte i))
    | inr ne ↦ rw ne (elim (Option-cases (b.page_map j)) [
      | inl e ↦
          ap (byte_of d after.frames j i) e ∙ sym (ap (byte_of d b.frames j i) e) ∙ before j i l
      | inr (n, e) ↦
          ap (byte_of d after.frames j i) e
          ∙ ap (λ (f : Frame). f.bytes i) (frame_there n (other_frame j n ne e))
          ∙ sym (ap (byte_of d b.frames j i) e)
          ∙ before j i l
    ])
  ]
