-- ===== src/Kernel/Directory.antt =====
-- The processes that the ready queue gets from a directory.
use the_loc_os.Base.{
  ℕ, ◌+◌, ◌-◌, ◌<◌, ◌≤◌, ◌≡◌, ◌≢◌, inl, inr, ◌⊎◌, refl, sym, ap, ◌∙◌, arith, true, some, List, [],
  ◌∷◌, length, Bool-cases, Option-cases, fun_ext,
}
use mathlib.Core.Path.{subst}
use the_loc_os.Queue.{Ptr}
use the_loc_os.Process.{Heap}
use the_loc_os.Loader.{Program}
use the_loc_os.Loader.Elf.{load_program_from_elf}
use the_loc_os.Kernel.{Boot, Entry, file_path, is_elf, load_entry, load_directory}
use the_loc_os.Kernel.Residents.{
  InOrder, Extends, IsMalloc, AllSmall, IsSmall, Resident-Extends, program-Extends,
}

-- The name of the entry is that of a program, and its file is read as this one.
abbrev pub Reads : Entry → Program → Type 0
Reads e program =
    (is_elf e.name ≡ true)
    × (load_program_from_elf e.file (file_path e.name) e.random e.allocated ≡ some program)

-- `n` programs, `f 0` to `f (n - 1)`, are those of entries of the directory, in their order, each
-- entry at most once.
abbrev pub From : List Entry → (ℕ → Program) → ℕ → Type 0
From [] f n = n ≡ 0
From (e ∷ es) f n = From es f n ⊎ ((n ≢ 0) × Reads e (f 0) × From es (λ i. f (i + 1)) (n - 1))

-- every entry has its program, in their order
abbrev pub ReadsAll : List Entry → (ℕ → Program) → Type 0
ReadsAll [] f = Unit
ReadsAll (e ∷ es) f = Reads e (f 0) × ReadsAll es (λ i. f (i + 1))

From-le : (es : List Entry) (f : ℕ → Program) (n : ℕ) → From es f n → n ≤ length es
From-le [] f n h = omega arith
From-le (e ∷ es) f n (inl h) = omega (arith, From-le es f n h)
From-le (e ∷ es) f n (inr (some_left, r, h)) = omega (arith, From-le es (λ i. f (i + 1)) (n - 1) h)

-- As many programs as entries are one for each.
pub From-all :
    (es : List Entry) (f : ℕ → Program) (n : ℕ) → n ≡ length es → From es f n → ReadsAll es f
From-all [] f n e h = tt
From-all (x ∷ es) f n e (inl h) = absurd (omega (arith, From-le es f n h))
From-all (x ∷ es) f n e (inr (some_left, r, h)) =
    (r, From-all es (λ i. f (i + 1)) (n - 1) (omega arith) h)

-- What the loop over a directory leaves: the processes that were in the queue, and behind them those
-- of programs of the directory.
pub record FilledFrom (entries : List Entry) (s : Boot) (program : ℕ → Program) (s' : Boot)
    : Type 0 where
  pub order : InOrder s'
  pub kept : (i : ℕ) → i < s.ready_queue.current_size → order.program i ≡ program i
  pub longer : s.ready_queue.current_size ≤ s'.ready_queue.current_size
  pub new :
      From entries
        (λ j. order.program (s.ready_queue.current_size + j))
        (s'.ready_queue.current_size - s.ready_queue.current_size)

module _ (malloc : Heap → Ptr) (m : IsMalloc malloc) where
  entry-Extends :
      (e : Entry) (s : Boot) (o : InOrder s)
      → IsSmall e
      → Extends s o.program (Reads e) (load_entry malloc e s)
  unfolding load_entry
  entry-Extends e s o small = elim (Bool-cases (is_elf e.name)) [
    | inl b ↦
        rw b
          (elim (Option-cases
            (load_program_from_elf e.file (file_path e.name) e.random e.allocated)) [
              | inl f ↦ rw f (Resident-Extends o.resident (Reads e) refl o.resident)
              | inr (program, f) ↦
                  rw f
                    (program-Extends o.resident malloc m program (small program f) (Reads e) (b, f))
            ])
    | inr b ↦ rw b (Resident-Extends o.resident (Reads e) refl o.resident)
  ]

  -- one entry, and then the others
  FilledFrom-cons :
      (e : Entry) (es : List Entry) (s s1 s2 : Boot) (program : ℕ → Program)
      (x : Extends s program (Reads e) s1)
      → FilledFrom es s1 x.order.program s2
      → FilledFrom (e ∷ es) s program s2
  FilledFrom-cons e es s s1 s2 program x d =
      let n = s.ready_queue.current_size in
      let n1 = s1.ready_queue.current_size in
      let n2 = s2.ready_queue.current_size in
      let f = d.order.program in
      elim x.grown [
        | inl same ↦ record {
          order = d.order;
          kept = λ i h. d.kept i (omega (arith, same)) ∙ x.kept i h;
          longer = omega (arith, same, d.longer);
          new = inl (subst (λ k. From es (λ j. f (k + j)) (n2 - k)) same d.new);
        }
        | inr (more, reads) ↦ record {
          order = d.order;
          kept = λ i h. d.kept i (omega (arith, more)) ∙ x.kept i h;
          longer = omega (arith, more, d.longer);
          new = inr (
            omega (arith, more, d.longer),
            subst (Reads e) (sym (d.kept n (omega (arith, more))) ∙ ap f (omega arith)) reads,
            subst (λ k. From es (λ j. f (n + (j + 1))) k) (omega (arith, more))
                (subst (λ g. From es g (n2 - n1)) (fun_ext (λ j. ap f (omega (arith, more))))
                  d.new),
          );
        }
      ]

  -- While the programs of a directory are loaded, whatever fails on the way, the processes that
  -- were in the ready queue stay, and those behind them are of programs that entries of the
  -- directory are read as, in the order of the entries and each at most once. Each process in the
  -- queue has a PCB that is allocated and a page table of its own, with as many pages as its
  -- program needs, in frames that no other process of the queue has and that hold the words of its
  -- program; the frame bitmap and the queue stay consistent. malloc must return NULL or unused
  -- memory, and the segments of the programs end below word 2 ^ 29.
  pub load_directory-FilledFrom :
      (entries : List Entry) (s : Boot)
      → AllSmall entries
      → (o : InOrder s) → FilledFrom entries s o.program (load_directory malloc entries s)
  unfolding load_directory
  load_directory-FilledFrom [] s small o = record {
    order = o;
    kept = λ i h. refl;
    longer = omega arith;
    new = omega arith;
  }
  load_directory-FilledFrom (e ∷ es) s (small, rest) o =
      let x = entry-Extends e s o small in
      FilledFrom-cons e es s (load_entry malloc e s)
        (load_directory malloc es (load_entry malloc e s)) o.program x
        (load_directory-FilledFrom es (load_entry malloc e s) rest x.order)
