-- ===== src/Buffer/Coherence/Take.antt =====
-- The frame under the clock takes a page in: no byte of any page is lost.
use mathlib.Core.Path.{subst}
use model_lib.Prelude.{
  some-inj, Option-cases, ℕ, ◌≤◌, ◌<◌, ◌≡◌, ◌≢◌, ◌∙◌, inl, inr, refl, ap, sym, Bool, true, false,
  none, some, arith, Bool-cases, ℕ_discrete,
}
use native.Mathlib.Nat.{le_trans}
use model_lib.Page.{size}
use model_lib.FileManager.{PageId, same_id, unassigned, Disk, count_pages}
use model_lib.FileManager.Laws.{
  IsAligned, disk_byte, last_page, fetched, read_page-fetched, fetched_lem, fetched-IsAligned,
  disk_byte-fetched, count_pages-fetched, count_pages-le-fetched, same_id_iff,
}
use model_lib.Buffer.{Frame, BufferManager, set_frame, insert, reassign, forget_victim, take_frame}
use model_lib.Buffer.Clock.{IsUnused}
use model_lib.Buffer.Coherence.{FrameIsCoherent, IsCoherent, Taken, byte_of, view}
use model_lib.Buffer.Coherence.Evict.{
  cleared, evict-cleared, cleared_frame, cleared-IsAligned, count_pages-le-cleared, cleared_clean,
  disk_byte-cleared_ne, disk_byte-cleared_same,
}

not_none : {k : ℕ} → none ≡ some k → ⊥
not_none e = cc e

abbrev file_of : PageId → ℕ
file_of id = id.file_id

module _ (d : Disk) (b : BufferManager) (id : PageId) (co : IsCoherent d b) (unused : IsUnused b)
    (missing : b.page_map id ≡ none) (assigned : id.file_id ≢ unassigned)
    (bounded : id.page_number < last_page) where
  abbrev victim : Frame
  victim = b.frames b.clock

  abbrev evicted : Disk
  evicted = (cleared d victim).0

  after : Disk
  after = (fetched evicted id).0

  loaded : BufferManager
  loaded =
      set_frame (record b { page_map = insert (forget_victim b) id b.clock }) b.clock
        (record {
          page_id = id;
          bytes = (fetched evicted id).1;
          pins = 1;
          second_chance = true;
          dirty = false;
        })

  reassign_done :
      (c : Frame)
      → c.dirty ≡ false
      → c.pins ≡ 0
      → c.second_chance ≡ false
      → reassign c id
        ≡ some (record {
          page_id = id;
          bytes = c.bytes;
          pins = 1;
          second_chance = true;
          dirty = false;
        })
  unfolding reassign
  reassign_done c e p s = rw (e, p, s)

  -- A frame without a page is not dirty.
  victim_bounded : victim.dirty ≡ true → victim.page_id.page_number < last_page
  victim_bounded e = elim (ℕ_discrete victim.page_id.file_id unassigned) [
    | yes u ↦ let idle = (co.frames b.clock unused.clock).idle u in absurd (cc (e, idle))
    | no a ↦ (co.frames b.clock unused.clock).bounded a
  ]

  take_done : take_frame d b id ≡ some (after, loaded, b.clock)
  unfolding take_frame loaded after
  take_done =
      let (_, _, pins, chance, dirty) = cleared_frame d victim in
      rw
        (
          evict-cleared d victim victim_bounded,
          reassign_done (cleared d victim).1 dirty (pins ∙ unused.pins)
              (chance ∙ unused.second_chance),
          read_page-fetched (cleared d victim).0 id bounded,
        )
        refl

  -- The map leads from the page of a frame to the frame.
  page_of_frame :
      (k : ℕ) (j : PageId)
      → k < b.frame_count
      → (b.frames k).page_id.file_id ≢ unassigned
      → (b.frames k).page_id ≡ j
      → b.page_map j ≡ some k
  page_of_frame k j l a at = ap b.page_map (sym at) ∙ (co.frames k l).complete a

  old_other : same_id victim.page_id id ≡ false
  old_other = elim (Bool-cases (same_id victim.page_id id)) [
    | inl e ↦
        let at = (same_id_iff victim.page_id id).0 e in
        absurd (
          not_none (
            sym missing
            ∙ page_of_frame b.clock id unused.clock (λ u. assigned (sym (ap file_of at) ∙ u)) at))
    | inr e ↦ e
  ]

  -- The victim's page has left the map, and all others are where they were.
  forget_victim_same : victim.page_id.file_id ≢ unassigned → forget_victim b victim.page_id ≡ none
  unfolding forget_victim
  forget_victim_same a = ground arith

  forget_victim_ne :
      (j : PageId) → same_id victim.page_id j ≡ false → forget_victim b j ≡ b.page_map j
  unfolding forget_victim
  forget_victim_ne j ne = ground arith

  not_true : {x : Bool} → x ≡ false → x ≡ true → ⊥
  not_true f t = cc (f, t)

  -- A page of the map is not the victim's, unless it is in the victim's frame.
  other_frame :
      (k : ℕ)
      → k < b.frame_count
      → b.clock ≢ k
      → (b.frames k).page_id.file_id ≢ unassigned
      → same_id victim.page_id (b.frames k).page_id ≡ false
  other_frame k l ne a = elim (Bool-cases (same_id victim.page_id (b.frames k).page_id)) [
    | inr e ↦ e
    | inl e ↦
        let at = (same_id_iff victim.page_id (b.frames k).page_id).0 e in
        let first =
          page_of_frame b.clock (b.frames k).page_id unused.clock (λ u. a (sym (ap file_of at) ∙ u))
            at in
        absurd (ne (some-inj (sym first ∙ page_of_frame k (b.frames k).page_id l a refl)))
  ]

  other_new :
      (k : ℕ)
      → k < b.frame_count
      → (b.frames k).page_id.file_id ≢ unassigned
      → same_id id (b.frames k).page_id ≡ false
  other_new k l a = elim (Bool-cases (same_id id (b.frames k).page_id)) [
    | inr e ↦ e
    | inl e ↦
        let at = (same_id_iff id (b.frames k).page_id).0 e in
        absurd (not_none (sym missing ∙ page_of_frame k id l a (sym at)))
  ]

  other_entry :
      (j : PageId) (k : ℕ) → same_id victim.page_id j ≡ false → b.page_map j ≡ some k → b.clock ≢ k
  other_entry j k ne e at =
      not_true ne
        ((same_id_iff victim.page_id j).1 (ap (λ n. (b.frames n).page_id) at ∙ (co.sound j k e).1))

  -- The pages that are not the victim's keep their bytes on disk.
  disk_after :
      (j : PageId) (i : ℕ)
      → i < size
      → same_id victim.page_id j ≡ false
      → disk_byte after j i ≡ disk_byte d j i
  unfolding after
  disk_after j i l ne =
      disk_byte-fetched (cleared d victim).0 id j i (cleared-IsAligned d victim co.aligned) l
      ∙ disk_byte-cleared_ne d victim j i co.aligned l ne

  new_byte : (i : ℕ) → i < size → (fetched evicted id).1 i ≡ disk_byte d id i
  new_byte i l =
      fetched_lem (cleared d victim).0 id i l
      ∙ disk_byte-cleared_ne d victim id i co.aligned l old_other

  pages_after : (f : ℕ) → count_pages d f ≤ count_pages after f
  unfolding after
  pages_after f =
      le_trans (count_pages-le-cleared d victim f)
        (count_pages-le-fetched (cleared d victim).0 id f)

  mapped_id : loaded.page_map id ≡ some b.clock
  unfolding loaded
  mapped_id = ground arith

  mapped_other : (j : PageId) → same_id id j ≡ false → loaded.page_map j ≡ forget_victim b j
  unfolding loaded
  mapped_other j ne = rw ne

  frame_other : (k : ℕ) → b.clock ≢ k → loaded.frames k ≡ b.frames k
  unfolding loaded
  frame_other k ne = ground arith

  frame_new : loaded.frames b.clock ≡ record {
    page_id = id;
    bytes = (fetched evicted id).1;
    pins = 1;
    second_chance = true;
    dirty = false;
  }
  unfolding loaded
  frame_new = ground arith

  frame_count_same : loaded.frame_count ≡ b.frame_count
  unfolding loaded
  frame_count_same = refl

  -- A frame without a page is in no entry.
  map_none : (j : PageId) → j.file_id ≡ unassigned → b.page_map j ≡ none
  map_none j u = elim (Option-cases (b.page_map j)) [
    | inl e ↦ e
    | inr (k, e) ↦ absurd ((co.sound j k e).2 u)
  ]

  forget_victim_idle :
      (j : PageId) → victim.page_id.file_id ≡ unassigned → forget_victim b j ≡ b.page_map j
  unfolding forget_victim
  forget_victim_idle j u = ground arith

  forget_none : (j : PageId) → victim.page_id ≡ j → forget_victim b j ≡ none
  forget_none j at = elim (ℕ_discrete victim.page_id.file_id unassigned) [
    | yes u ↦ forget_victim_idle j u ∙ map_none j (sym (ap file_of at) ∙ u)
    | no a ↦ ap (forget_victim b) (sym at) ∙ forget_victim_same a
  ]

  -- What the new map says, by the page asked for.
  loaded_sound :
      (j : PageId) (k : ℕ)
      → loaded.page_map j ≡ some k
      → (k < b.frame_count) × ((loaded.frames k).page_id ≡ j) × (j.file_id ≢ unassigned)
  loaded_sound j k e = elim (Bool-cases (same_id id j)) [
    | inl here ↦
        let at = (same_id_iff id j).0 here in
        let same : b.clock ≡ k = some-inj (sym mapped_id ∙ ap loaded.page_map at ∙ e) in
        (
          rw same at unused.clock,
          ap (λ n. (loaded.frames n).page_id) (sym same)
              ∙ ap (λ (f : Frame). f.page_id) frame_new
              ∙ at,
          λ u. assigned (ap file_of at ∙ u),
        )
    | inr there ↦ old_sound j k (sym (mapped_other j there) ∙ e)
  ]
    where
      old_sound :
          (j : PageId) (k : ℕ)
          → forget_victim b j ≡ some k
          → (k < b.frame_count) × ((loaded.frames k).page_id ≡ j) × (j.file_id ≢ unassigned)
      old_sound j k e = elim (Bool-cases (same_id victim.page_id j)) [
        | inr ne ↦
            let old = sym (forget_victim_ne j ne) ∙ e in
            let (lt, at, a) = co.sound j k old in
            (lt, ap (λ (f : Frame). f.page_id) (frame_other k (other_entry j k ne old)) ∙ at, a)
        | inl same ↦
            let at = (same_id_iff victim.page_id j).0 same in
            absurd (not_none (sym (forget_none j at) ∙ e))
      ]

  read_same : (i : ℕ) → i < size → (fetched evicted id).1 i ≡ disk_byte after id i
  unfolding after
  read_same i l =
      fetched_lem (cleared d victim).0 id i l
      ∙ sym
          (disk_byte-fetched (cleared d victim).0 id id i (cleared-IsAligned d victim co.aligned) l)

  page_there : id.page_number < count_pages after id.file_id
  unfolding after
  page_there = count_pages-fetched (cleared d victim).0 id

  after-IsAligned : IsAligned after
  unfolding after
  after-IsAligned =
      fetched-IsAligned (cleared d victim).0 id (cleared-IsAligned d victim co.aligned)

  loaded_new : FrameIsCoherent after loaded.page_map b.clock (loaded.frames b.clock)
  loaded_new = rw frame_new (record {
    complete = λ a. mapped_id;
    idle = λ u. absurd (assigned u);
    clean = λ a e i l. read_same i l;
    stored = λ a. page_there;
    bounded = λ a. bounded;
  })

  loaded_other :
      (k : ℕ)
      → k < b.frame_count
      → b.clock ≢ k
      → FrameIsCoherent after loaded.page_map k (loaded.frames k)
  loaded_other k l ne = rw (frame_other k ne) (record {
    complete = λ a.
        mapped_other (b.frames k).page_id (other_new k l a)
        ∙ forget_victim_ne (b.frames k).page_id (other_frame k l ne a)
        ∙ (co.frames k l).complete a;
    idle = (co.frames k l).idle;
    clean = λ a e i h.
        (co.frames k l).clean a e i h
        ∙ sym (disk_after (b.frames k).page_id i h (other_frame k l ne a));
    stored = λ a. le_trans ((co.frames k l).stored a) (pages_after (b.frames k).page_id.file_id);
    bounded = (co.frames k l).bounded;
  })

  loaded-IsCoherent : IsCoherent after loaded
  loaded-IsCoherent = record {
    aligned = after-IsAligned;
    sound = λ j k e. let (lt, at, a) = loaded_sound j k e in (rw frame_count_same lt, at, a);
    frames = λ k l. elim (ℕ_discrete b.clock k) [
      | yes e ↦ rw⁻¹ e loaded_new
      | no ne ↦ loaded_other k (rw frame_count_same at l) ne
    ];
  }

  -- The bytes of a page, by where it is.
  abbrev Keeps : PageId → ℕ → Type 0
  Keeps j i = view after loaded j i ≡ view d b j i

  Keeps-new : (i : ℕ) → i < size → Keeps id i
  unfolding view
  Keeps-new i l =
      ap (byte_of after loaded.frames id i) mapped_id
      ∙ ap (λ (f : Frame). f.bytes i) frame_new
      ∙ new_byte i l
      ∙ ap (byte_of d b.frames id i) (sym missing)

  mapped_away : (j : PageId) → same_id id j ≡ false → victim.page_id ≡ j → loaded.page_map j ≡ none
  mapped_away j ne at = mapped_other j ne ∙ forget_none j at

  Keeps-victim : (i : ℕ) → i < size → same_id id victim.page_id ≡ false → Keeps victim.page_id i
  unfolding view after
  Keeps-victim i l ne =
      ap (byte_of after loaded.frames victim.page_id i) (mapped_away victim.page_id ne refl)
      ∙ disk_byte-fetched (cleared d victim).0 id victim.page_id i
          (cleared-IsAligned d victim co.aligned) l
      ∙ kept
    where
      kept :
          disk_byte evicted victim.page_id i
          ≡ byte_of d b.frames victim.page_id i (b.page_map victim.page_id)
      kept = elim (ℕ_discrete victim.page_id.file_id unassigned) [
        | yes u ↦
            ap (λ e. disk_byte e victim.page_id i)
              (cleared_clean d victim ((co.frames b.clock unused.clock).idle u))
            ∙ ap (byte_of d b.frames victim.page_id i) (sym (map_none victim.page_id u))
        | no a ↦
            disk_byte-cleared_same d victim i co.aligned l
              (λ e. (co.frames b.clock unused.clock).clean a e i l)
            ∙ ap (byte_of d b.frames victim.page_id i)
                (sym ((co.frames b.clock unused.clock).complete a))
      ]

  Keeps-other :
      (j : PageId) (i : ℕ)
      → i < size
      → same_id id j ≡ false
      → same_id victim.page_id j ≡ false
      → Keeps j i
  unfolding view
  Keeps-other j i l new old =
      ap (byte_of after loaded.frames j i) (mapped_other j new ∙ forget_victim_ne j old)
      ∙ elim (Option-cases (b.page_map j)) [
        | inl e ↦ rw e (disk_after j i l old)
        | inr (k, e) ↦ rw e (ap (λ (f : Frame). f.bytes i) (frame_other k (other_entry j k old e)))
      ]

  loaded-view : (j : PageId) (i : ℕ) → i < size → Keeps j i
  loaded-view j i l = elim (Bool-cases (same_id id j)) [
    | inl e ↦ rw⁻¹ ((same_id_iff id j).0 e) (Keeps-new i l)
    | inr new ↦ elim (Bool-cases (same_id victim.page_id j)) [
      | inl e ↦
          subst (λ p. same_id id p ≡ false → Keeps p i) ((same_id_iff victim.page_id j).0 e)
            (Keeps-victim i l) new
      | inr old ↦ Keeps-other j i l new old
    ]
  ]

  pub take_frame-Taken :
      (d' : Disk) × (c : BufferManager) × (k : ℕ) × (take_frame d b id ≡ some (d', c, k))
      × Taken d b id d' c k
  unfolding loaded
  take_frame-Taken = (
    after,
    loaded,
    b.clock,
    take_done,
    record {
      inside = rw frame_count_same unused.clock;
      clock = rw frame_count_same unused.clock;
      page_id = ap (λ (f : Frame). f.page_id) frame_new;
      pinned = rw frame_new (omega arith);
      mapped = mapped_id;
      coherent = loaded-IsCoherent;
      view = loaded-view;
    },
  )
