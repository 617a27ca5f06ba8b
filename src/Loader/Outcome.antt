-- ===== src/Loader/Outcome.antt =====
-- What `create_process_from_program` can come to, whatever the room: a process, or NULL; and what
-- it leaves of the other processes.
use the_loc_os.Base.{
  ℕ, ◌+◌, ◌*◌, ◌<◌, ◌≤◌, ◌≡◌, ◌≢◌, ◌⊎◌, inl, inr, refl, ap, ◌∙◌, arith, true, ◌==◌, leb, Bool-cases,
}
use the_loc_os.Queue.{Ptr}
use the_loc_os.Process.{Heap, create_pcb}
use the_loc_os.Memory.{PhysicalMemory}
use the_loc_os.Memory.Frames.{IsValid}
use the_loc_os.Memory.PageTable.Space.{virtual_word}
use the_loc_os.Loader.{Loading, Program, total_pages, create_process_from_program}
use the_loc_os.Loader.Pages.{frame_of}
use the_loc_os.Loader.Keep.{Owned, Keeps, Owned-Keeps, virtual_word-Keeps, same_frame}
use the_loc_os.Loader.Create.{
  Small, Created, total_pages-bounds, create_process-Created, create_process-fails,
  create_process-no_table,
}

-- The address space of a process is the same in both memories.
pub record Survives (pm pm' : PhysicalMemory) (t n : ℕ) : Type 0 where
  pub owned : Owned pm' t n
  pub words : (k : ℕ) → k < n * 1024 → virtual_word pm' t k ≡ virtual_word pm t k
  pub frames : (i : ℕ) → i < n → frame_of pm' t i ≡ frame_of pm t i

pub Keeps-Survives :
    {n t' n' : ℕ} {pm pm' : PhysicalMemory}
    → IsValid pm
    → IsValid pm'
    → Keeps pm.next_kernel_frame n pm pm'
    → Owned pm t' n'
    → Survives pm pm' t' n'
Keeps-Survives v v' k o = record {
  owned = Owned-Keeps v v' k refl o;
  words = virtual_word-Keeps v v' k refl o;
  frames = same_frame v v' k refl o;
}

-- What stays, whatever the outcome; `fresh` is the address that was allocated.
pub record Leaves (fresh : Ptr) (s s' : Loading) : Type 0 where
  pub valid : IsValid s'.pm
  pub kernel : s'.pm.next_kernel_frame ≤ 262144
  pub spaces : (t n : ℕ) → Owned s.pm t n → Survives s.pm s'.pm t n
  pub cells : (p : Ptr) → p ≢ fresh → s'.heap.cell p ≡ s.heap.cell p
  pub lives : (p : Ptr) → p ≢ fresh → s'.heap.live p ≡ s.heap.live p

Owned-Survives : (pm : PhysicalMemory) (t n : ℕ) → Owned pm t n → Survives pm pm t n
Owned-Survives pm t n o = record { owned = o; words = λ k h. refl; frames = λ i h. refl }

module _ (malloc : Heap → Ptr) (s : Loading) (program : Program) (small : Small program.header)
    (v : IsValid s.pm) (kernel : s.pm.next_kernel_frame ≤ 262144) where
  create_process-null :
      malloc s.heap ≡ 0
      → let (pcb, s') = create_process_from_program malloc s program in
        (pcb ≡ 0) × (s'.pm ≡ s.pm) × (s'.heap ≡ s.heap)
  unfolding create_process_from_program create_pcb
  create_process-null e =
      let dead : (malloc s.heap == 0) ≡ true = ground arith in rw dead (refl, refl, refl)

  abbrev after : Loading
  after = (create_process_from_program malloc s program).1

  abbrev returned : Ptr
  returned = (create_process_from_program malloc s program).0

  unchanged :
      after.pm ≡ s.pm
      → ((p : Ptr) → p ≢ malloc s.heap → after.heap.cell p ≡ s.heap.cell p)
      → ((p : Ptr) → p ≢ malloc s.heap → after.heap.live p ≡ s.heap.live p)
      → Leaves (malloc s.heap) s after
  unchanged e cells lives = record {
    valid = rw e v;
    kernel = rw e kernel;
    spaces = λ t n o. rw e (Owned-Survives s.pm t n o);
    cells = cells;
    lives = lives;
  }

  with_room :
      (ok : malloc s.heap ≢ 0)
      → s.pm.next_kernel_frame + total_pages program.header ≤ 262144
      → s.pm.total_allocated_frames + total_pages program.header ≤ 4096
      → Leaves (malloc s.heap) s after
        × ((returned ≡ malloc s.heap)
            × (malloc s.heap ≢ 0)
            × Created s program (total_pages program.header) returned after)
  with_room ok hk ht =
      let (e, c) = create_process-Created malloc s program ok small v hk ht in
      (
        record {
          valid = c.boots.valid;
          kernel = omega (arith, c.boots.keeps.kernel_free);
          spaces = λ t n o. Keeps-Survives v c.boots.valid c.boots.keeps o;
          cells = λ p ne. c.others p (λ q. ne (q ∙ e));
          lives = λ p ne. c.others_live p (λ q. ne (q ∙ e));
        },
        (e, ok, c),
      )

  with_table :
      (ok : malloc s.heap ≢ 0)
      → s.pm.next_kernel_frame + total_pages program.header ≤ 262144
      → 4096 < s.pm.total_allocated_frames + total_pages program.header
      → Leaves (malloc s.heap) s after × (returned ≡ 0)
  with_table ok hk ht =
      let (e, (valid, full), dead, total, keeps, cells, lives) =
        create_process-fails malloc s program ok small v hk ht in
      (
        record {
          valid = valid;
          kernel = omega (arith, keeps.kernel_free);
          spaces = λ t n o. Keeps-Survives v valid keeps o;
          cells = cells;
          lives = lives;
        },
        e,
      )

  with_pcb :
      malloc s.heap ≢ 0
      → Leaves (malloc s.heap) s after
        × (((returned ≡ malloc s.heap)
              × (malloc s.heap ≢ 0)
              × Created s program (total_pages program.header) returned after)
            ⊎ (returned ≡ 0))
  with_pcb ok =
      elim (Bool-cases (leb (s.pm.next_kernel_frame + total_pages program.header) 262144)) [
        | inl e ↦
            elim (Bool-cases
              (leb (s.pm.total_allocated_frames + total_pages program.header) 4096)) [
                | inl f ↦ let (l, c) = with_room ok (ground arith) (ground arith) in (l, inl c)
                | inr f ↦ let (l, n) = with_table ok (ground arith) (ground arith) in (l, inr n)
              ]
        | inr e ↦
            let few = total_pages-bounds program.header small in
            let (n, pm, cells, lives) =
              create_process-no_table malloc s program ok kernel (ground arith)
                (ground (arith, few.2, small.code, small.data_ends)) in
            (unchanged pm cells lives, inr n)
      ]

  pub create_process_cases :
      let (pcb, s') = create_process_from_program malloc s program in
      Leaves (malloc s.heap) s s'
      × (((pcb ≡ malloc s.heap)
            × (malloc s.heap ≢ 0)
            × Created s program (total_pages program.header) pcb s')
          ⊎ (pcb ≡ 0))
  create_process_cases = elim (Bool-cases (malloc s.heap == 0)) [
    | inl e ↦
        let (r, pm, heap) = create_process-null (ground arith) in
        (
          unchanged pm (λ p ne. ap (λ (h : Heap). h.cell p) heap)
              (λ p ne. ap (λ (h : Heap). h.live p) heap),
          inr r,
        )
    | inr e ↦ with_pcb (ground arith)
  ]
