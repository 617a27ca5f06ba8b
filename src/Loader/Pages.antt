-- ===== src/Loader/Pages.antt =====
-- The loop of the loader over the pages of a program.
use the_loc_os.Base.{
  ℕ, ◌+◌, ◌-◌, ◌*◌, ◌/◌, ◌<◌, ◌≤◌, ◌≡◌, ◌≢◌, ◌⊎◌, inl, inr, refl, sym, ap, ◌∙◌, arith, ◌==◌, ltb,
  if◌then◌else◌, Bool-cases,
}
use mathlib.Core.Path.{subst}
use the_loc_os.Memory.{PhysicalMemory}
use the_loc_os.Memory.Frames.{IsValid, total-le}
use the_loc_os.Memory.Frames.Search.{take_frame, take_frame-IsValid}
use the_loc_os.Memory.PageTable.{PageTableEntry, get_entry}
use the_loc_os.Memory.PageTable.Entry.{
  Fits, get_entry-Fits, get_entry-set_entry, get_entry-ext, set_entry-memory, set_entry-rest,
}
use the_loc_os.Loader.{
  Program, map_page, load_page, code_start_word, code_end_word, data_start_word, data_end_word,
}
use the_loc_os.Loader.Page.{image, load_page-Stores}

abbrev pub frame_of : PhysicalMemory → ℕ → ℕ → ℕ
frame_of pm t i = (get_entry pm t i).frame_number

-- `pm` is `pm0` with the first `n` pages of the program in frames that were free, mapped by the
-- table at word `t`; the words of the frames that were in use are kept, but for the table.
pub record Loaded (program : Program) (t : ℕ) (pm0 : PhysicalMemory) (n : ℕ) (pm : PhysicalMemory)
    : Type 0 where
  pub valid : IsValid pm
  pub total : pm.total_allocated_frames ≡ pm0.total_allocated_frames + n
  pub present : (i : ℕ) → i < n → (get_entry pm t i).present ≡ 1
  pub in_user : (i : ℕ) → i < n → 256 ≤ frame_of pm t i
  pub fresh : (i : ℕ) → i < n → pm0.frame_bitmap (frame_of pm t i) ≡ 0
  pub marked : (i : ℕ) → i < n → pm.frame_bitmap (frame_of pm t i) ≡ 1
  pub distinct : (i j : ℕ) → i < n → j < n → frame_of pm t i ≡ frame_of pm t j → i ≡ j
  pub words :
      (i k : ℕ)
      → i < n
      → k < 1024
      → pm.memory (frame_of pm t i * 1024 + k) ≡ image program (i * 1024 + k)
  pub kept_marks : (f : ℕ) → pm0.frame_bitmap f ≤ pm.frame_bitmap f
  pub kept :
      (a : ℕ) → pm0.frame_bitmap (a / 1024) ≡ 1 → (a < t) ⊎ (t + n ≤ a) → pm.memory a ≡ pm0.memory a
  pub kernel_free : pm.next_kernel_frame ≡ pm0.next_kernel_frame

-- the entry that `map_page` writes
abbrev mapped : PhysicalMemory → ℕ → ℕ → ℕ → PageTableEntry
mapped pm t i frame = record (get_entry pm t i) {
  frame_number = frame;
  present = 1;
  rw_bit = 1;
  user = 1;
}

mapped-Fits : (pm : PhysicalMemory) (t i frame : ℕ) → frame < 4096 → Fits (mapped pm t i frame)
mapped-Fits pm t i frame h = ground (arith, get_entry-Fits pm t i)

module _ (program : Program) (t i frame : ℕ) (pm : PhysicalMemory)
    (hc : code_start_word program.header ≤ code_end_word program.header)
    (hd : data_start_word program.header ≤ data_end_word program.header) (lo : 256 ≤ frame)
    (hi : frame < 4096) where
  load_page-inside :
      (k : ℕ)
      → k < 1024
      → (load_page program t i frame pm).memory (frame * 1024 + k) ≡ image program (i * 1024 + k)
  load_page-inside k l =
      (load_page-Stores program t i frame pm hc hd hi).words (frame * 1024 + k)
      ∙ (let e : frame * 1024 + k - frame * 1024 ≡ k = omega arith in rw e (ground arith))

  load_page-outside :
      (a : ℕ)
      → a / 1024 ≢ frame
      → a ≢ t + i
      → (load_page program t i frame pm).memory a ≡ pm.memory a
  load_page-outside a l l' =
      (load_page-Stores program t i frame pm hc hd hi).words a
      ∙ ground (arith, set_entry-memory pm t i a (mapped pm t i frame) l')

  load_page-entry :
      t + i < 262144
      → let e = get_entry (load_page program t i frame pm) t i in
        (e.frame_number ≡ frame) × (e.present ≡ 1)
  load_page-entry h =
      rw
        (
          get_entry-ext (load_page program t i frame pm) (map_page t i frame pm) t i
              ((load_page-Stores program t i frame pm hc hd hi).words (t + i) ∙ ground arith),
          get_entry-set_entry pm t i (mapped pm t i frame) (mapped-Fits pm t i frame hi),
        )
        (refl, refl)

  load_page-other_entry :
      (j : ℕ)
      → j ≢ i
      → t + j < 262144
      → get_entry (load_page program t i frame pm) t j ≡ get_entry pm t j
  load_page-other_entry j ne h =
      get_entry-ext _ pm t j (load_page-outside (t + j) (omega arith) (omega arith))

  load_page-rest :
      load_page program t i frame pm
      ≡ record pm { memory = (load_page program t i frame pm).memory }
  load_page-rest =
      (load_page-Stores program t i frame pm hc hd hi).rest
      ∙ ap (λ (q : PhysicalMemory). record q { memory = (load_page program t i frame pm).memory })
          (set_entry-rest pm t i (mapped pm t i frame))

IsValid-memory : {pm : PhysicalMemory} (m : ℕ → ℕ) → IsValid pm → IsValid (record pm { memory = m })
IsValid-memory m v = record { bits = v.bits; reserved = v.reserved; counted = v.counted }

module _ {program : Program} {t i : ℕ} {pm0 pm : PhysicalMemory} (frame : ℕ)
    (hc : code_start_word program.header ≤ code_end_word program.header)
    (hd : data_start_word program.header ≤ data_end_word program.header)
    (ld : Loaded program t pm0 i pm) (room : t + i < 262144) (lo : 256 ≤ frame) (hi : frame < 4096)
    (free : pm.frame_bitmap frame ≡ 0) where
  -- the memory with one page more
  abbrev next : PhysicalMemory
  next = load_page program t i frame (take_frame pm frame)

  next-bitmap : (f : ℕ) → next.frame_bitmap f ≡ (if f == frame then 1 else pm.frame_bitmap f)
  next-bitmap f =
      ap (λ (q : PhysicalMemory). q.frame_bitmap f)
        (load_page-rest program t i frame (take_frame pm frame) hc hd lo hi)

  next-entry : (get_entry next t i).frame_number ≡ frame × (get_entry next t i).present ≡ 1
  next-entry = load_page-entry program t i frame (take_frame pm frame) hc hd lo hi room

  old-entry : (j : ℕ) → j < i → get_entry next t j ≡ get_entry pm t j
  old-entry j l =
      load_page-other_entry program t i frame (take_frame pm frame) hc hd lo hi j (omega arith)
        (omega arith)
      ∙ get_entry-ext (take_frame pm frame) pm t j refl

  old-frame : (j : ℕ) → j < i → frame_of pm t j ≢ frame
  old-frame j l e = omega (arith, ap pm.frame_bitmap e, ld.marked j l, free)

  next-memory : (a : ℕ) → a / 1024 ≢ frame → a ≢ t + i → next.memory a ≡ pm.memory a
  next-memory = load_page-outside program t i frame (take_frame pm frame) hc hd lo hi

  -- what holds of the new page and of the old ones holds of all
  each :
      (P : ℕ → ℕ → Type 0)
      → ((j : ℕ) → j < i → P j (frame_of pm t j))
      → P i frame
      → (j : ℕ) → j < i + 1
      → P j (frame_of next t j)
  each P h p j l = elim (Bool-cases (ltb j i)) [
    | inl b ↦
        let lj : j < i = ground arith in
        subst (P j) (ap (λ (e : PageTableEntry). e.frame_number) (sym (old-entry j lj))) (h j lj)
    | inr b ↦
        let e : j ≡ i = ground arith in
        subst (λ m. P m (frame_of next t m)) (sym e) (subst (P i) (sym next-entry.0) p)
  ]

  taken-IsValid : IsValid (take_frame pm frame)
  taken-IsValid = take_frame-IsValid frame ld.valid lo hi free

  next-rest : next ≡ record (take_frame pm frame) { memory = next.memory }
  next-rest = load_page-rest program t i frame (take_frame pm frame) hc hd lo hi

  next-place :
      (j : ℕ)
      → j < i + 1
      → ((j < i) × (frame_of next t j ≡ frame_of pm t j)) ⊎ ((j ≡ i) × (frame_of next t j ≡ frame))
  next-place =
      each (λ j f. ((j < i) × (f ≡ frame_of pm t j)) ⊎ ((j ≡ i) × (f ≡ frame)))
        (λ j l. inl (l, refl)) (inr (refl, refl))

  next-distinct :
      (j j' : ℕ) → j < i + 1 → j' < i + 1 → frame_of next t j ≡ frame_of next t j' → j ≡ j'
  next-distinct j j' l l' e = elim (next-place j l) [
    | inl (k, p) ↦ elim (next-place j' l') [
      | inl (k', p') ↦ ld.distinct j j' k k' (sym p ∙ e ∙ p')
      | inr (k', p') ↦ absurd (old-frame j k (sym p ∙ e ∙ p'))
    ]
    | inr (k, p) ↦ elim (next-place j' l') [
      | inl (k', p') ↦ absurd (old-frame j' k' (sym p' ∙ sym e ∙ p))
      | inr (k', p') ↦ k ∙ sym k'
    ]
  ]

  next-kept :
      (a : ℕ)
      → pm0.frame_bitmap (a / 1024) ≡ 1
      → (a < t) ⊎ (t + (i + 1) ≤ a)
      → next.memory a ≡ pm0.memory a
  next-kept a m h =
      let used : a / 1024 ≢ frame =
        λ e. omega (arith, ap pm.frame_bitmap e, ld.kept_marks (a / 1024), free) in
      next-memory a used (omega arith) ∙ ld.kept a m (omega arith)

  pub next-Loaded : Loaded program t pm0 (i + 1) next
  next-Loaded = record {
    valid = rw next-rest (IsValid-memory next.memory taken-IsValid);
    total =
        ap (λ (q : PhysicalMemory). q.total_allocated_frames) next-rest
        ∙ omega (arith, ld.total, total-le taken-IsValid, total-le ld.valid);
    present = λ j l. elim (Bool-cases (ltb j i)) [
      | inl b ↦ rw (old-entry j (ground arith)) (ld.present j (ground arith))
      | inr b ↦ subst (λ m. (get_entry next t m).present ≡ 1) (ground arith) next-entry.1
    ];
    in_user = each (λ j f. 256 ≤ f) ld.in_user lo;
    fresh = each (λ j f. pm0.frame_bitmap f ≡ 0) ld.fresh (omega (arith, ld.kept_marks frame));
    marked =
        each (λ j f. next.frame_bitmap f ≡ 1)
          (λ j l. ground (arith, next-bitmap (frame_of pm t j), ld.marked j l))
          (ground (arith, next-bitmap frame));
    distinct = next-distinct;
    words = λ j k l lk.
        each (λ j f. next.memory (f * 1024 + k) ≡ image program (j * 1024 + k))
          (λ j l.
            let u = ld.in_user j l in
            let o = old-frame j l in
            next-memory (frame_of pm t j * 1024 + k) (omega arith) (omega arith)
            ∙ ld.words j k l lk)
          (load_page-inside program t i frame (take_frame pm frame) hc hd lo hi k lk) j l;
    kept_marks = λ f. ground (arith, next-bitmap f, ld.kept_marks f, ld.valid.bits f);
    kept = next-kept;
    kernel_free = ap (λ (q : PhysicalMemory). q.next_kernel_frame) next-rest ∙ ld.kernel_free;
  }
