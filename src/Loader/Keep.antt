-- ===== src/Loader/Keep.antt =====
-- What loading a program leaves of the memory: the new address space, and those of the others.
use the_loc_os.Base.{
  ℕ, ◌+◌, ◌*◌, ◌/◌, ◌%◌, ◌<◌, ◌≤◌, ◌≡◌, ◌≢◌, refl, sym, ap, ◌∙◌, arith, inl, inr, ◌⊎◌,
}
use the_loc_os.Memory.{PhysicalMemory}
use the_loc_os.Memory.Frames.{IsValid}
use the_loc_os.Memory.PageTable.{PageTableEntry, get_entry}
use the_loc_os.Memory.PageTable.Entry.{get_entry-ext}
use the_loc_os.Memory.PageTable.Create.{Cleared, reserve}
use the_loc_os.Memory.PageTable.Space.{Space, virtual_word}
use the_loc_os.Loader.{Program}
use the_loc_os.Loader.Page.{image}
use the_loc_os.Loader.Pages.{Loaded, frame_of}

-- The address space with `n` pages at `t` is a process's: its frames are in use, and its table is
-- in the part of kernel space that has been given out.
pub record Owned (pm : PhysicalMemory) (t n : ℕ) : Type 0 where
  pub space : Space pm t n
  pub marked : (i : ℕ) → i < n → pm.frame_bitmap (frame_of pm t i) ≡ 1
  pub below : t + n ≤ pm.next_kernel_frame

-- the memory after `create_page_table` starts the loop in order
pub start-Loaded :
    {program : Program} {pm m : PhysicalMemory} (n : ℕ)
    → IsValid pm
    → Cleared (reserve pm n) pm.next_kernel_frame n m
    → Loaded program pm.next_kernel_frame m 0 m
start-Loaded {program} {pm} {m} n v c = record {
  valid = rw c.rest (record { bits = v.bits; reserved = v.reserved; counted = v.counted });
  total = omega arith;
  present = λ i h. absurd (omega arith);
  in_user = λ i h. absurd (omega arith);
  fresh = λ i h. absurd (omega arith);
  marked = λ i h. absurd (omega arith);
  distinct = λ i j h. absurd (omega arith);
  words = λ i k h. absurd (omega arith);
  kept_marks = λ f. omega arith;
  kept = λ a h o. refl;
  kernel_free = refl;
}

pub Loaded-Owned :
    {program : Program} {t n : ℕ} {pm0 pm : PhysicalMemory}
    → Loaded program t pm0 n pm
    → t + n ≤ pm0.next_kernel_frame
    → pm0.next_kernel_frame ≤ 262144
    → Owned pm t n
Loaded-Owned {program} {t} {n} {pm0} {pm} ld h h' = record {
  space = record {
    in_kernel = omega arith;
    present = ld.present;
    in_user = ld.in_user;
    distinct = ld.distinct;
  };
  marked = ld.marked;
  below = omega (arith, ld.kernel_free);
}

pub Loaded-virtual_word :
    {program : Program} {t n : ℕ} {pm0 pm : PhysicalMemory}
    → Loaded program t pm0 n pm
    → (k : ℕ) → k < n * 1024
    → virtual_word pm t k ≡ image program k
Loaded-virtual_word {program} {t} {n} {pm0} {pm} ld k h =
    let e : 4 * k / 4096 ≡ k / 1024 = omega arith in
    let o : 4 * k % 4096 / 4 ≡ k % 1024 = omega arith in
    let d : k / 1024 * 1024 + k % 1024 ≡ k = omega arith in
    rw (virtual_word, e, o)
      (ld.words (k / 1024) (k % 1024) (omega arith) (omega arith) ∙ ap (image program) d)

-- What a load leaves of the memory `pm`: the words of the frames in use, but for the new table of
-- `n` words at `t`.
pub record Keeps (t n : ℕ) (pm pm' : PhysicalMemory) : Type 0 where
  pub in_kernel : t + n ≤ 262144
  pub words :
      (a : ℕ) → pm.frame_bitmap (a / 1024) ≡ 1 → (a < t) ⊎ (t + n ≤ a) → pm'.memory a ≡ pm.memory a
  pub marks : (f : ℕ) → pm.frame_bitmap f ≤ pm'.frame_bitmap f
  pub kernel_free : pm'.next_kernel_frame ≡ pm.next_kernel_frame + n

pub Loaded-Keeps :
    {program : Program} {n loaded : ℕ} {pm m pm' : PhysicalMemory}
    → pm.next_kernel_frame + n ≤ 262144
    → Cleared (reserve pm n) pm.next_kernel_frame n m
    → loaded ≤ n
    → Loaded program pm.next_kernel_frame m loaded pm'
    → Keeps pm.next_kernel_frame n pm pm'
Loaded-Keeps {program} {n} {loaded} {pm} {m} {pm'} h c few ld =
    let bitmap = λ (f : ℕ). ap (λ (q : PhysicalMemory). q.frame_bitmap f) c.rest in
    record {
      in_kernel = h;
      words = λ a u o. ld.kept a (bitmap (a / 1024) ∙ u) (omega arith) ∙ ground (arith, c.words a);
      marks = λ f. omega (arith, bitmap f, ld.kept_marks f);
      kernel_free = ld.kernel_free ∙ ap (λ (q : PhysicalMemory). q.next_kernel_frame) c.rest;
    }

-- the frames of the loaded pages were free
pub Loaded-free :
    {program : Program} {n : ℕ} {pm m pm' : PhysicalMemory}
    → Cleared (reserve pm n) pm.next_kernel_frame n m
    → Loaded program pm.next_kernel_frame m n pm'
    → (i : ℕ) → i < n
    → pm.frame_bitmap (frame_of pm' pm.next_kernel_frame i) ≡ 0
Loaded-free {program} {n} {pm} {m} {pm'} c ld i l =
    sym (ap (λ (q : PhysicalMemory). q.frame_bitmap (frame_of pm' pm.next_kernel_frame i)) c.rest)
    ∙ ld.fresh i l

-- The spaces of the other processes: they stay what they were, word for word, and the new process
-- has no frame of theirs.
module _ {t n t' n' : ℕ} {pm pm' : PhysicalMemory} (v : IsValid pm) (v' : IsValid pm')
    (k : Keeps t n pm pm') (start : t ≡ pm.next_kernel_frame) (o : Owned pm t' n') where
  same_entry : (i : ℕ) → i < n' → get_entry pm' t' i ≡ get_entry pm t' i
  same_entry i l = get_entry-ext pm' pm t' i (
      k.words (t' + i) (v.reserved _ (omega (arith, o.space.in_kernel)))
        (inl (omega (arith, o.below))))

  pub same_frame : (i : ℕ) → i < n' → frame_of pm' t' i ≡ frame_of pm t' i
  same_frame i l = ap (λ (e : PageTableEntry). e.frame_number) (same_entry i l)

  pub Owned-Keeps : Owned pm' t' n'
  Owned-Keeps = record {
    space = record {
      in_kernel = o.space.in_kernel;
      present = λ i l. rw (same_entry i l) (o.space.present i l);
      in_user = λ i l. rw (same_entry i l) (o.space.in_user i l);
      distinct =
          λ i j l l' e. o.space.distinct i j l l' (sym (same_frame i l) ∙ e ∙ same_frame j l');
    };
    marked = λ i l.
        rw (same_frame i l)
          (omega (arith, k.marks (frame_of pm t' i), v'.bits (frame_of pm t' i), o.marked i l));
    below = omega (arith, o.below, k.kernel_free);
  }

  pub virtual_word-Keeps : (j : ℕ) → j < n' * 1024 → virtual_word pm' t' j ≡ virtual_word pm t' j
  virtual_word-Keeps j l =
      let i = 4 * j / 4096 in
      let h : i < n' = omega arith in
      let a = frame_of pm t' i * 1024 + 4 * j % 4096 / 4 in
      let d : a / 1024 ≡ frame_of pm t' i = omega arith in
      let u = o.space.in_user i h in
      ap (λ f. pm'.memory (f * 1024 + 4 * j % 4096 / 4)) (same_frame i h)
      ∙ k.words a (ap pm.frame_bitmap d ∙ o.marked i h) (inr (omega (arith, k.in_kernel)))

  pub apart :
      ((i : ℕ) → i < n → pm.frame_bitmap (frame_of pm' t i) ≡ 0)
      → (i j : ℕ) → i < n
      → j < n'
      → frame_of pm' t i ≢ frame_of pm t' j
  apart free i j l l' e = omega (arith, free i l, o.marked j l', ap pm.frame_bitmap e)
