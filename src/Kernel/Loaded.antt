-- ===== src/Kernel/Loaded.antt =====
-- Every program that main counts as loaded is one more process in the ready queue.
use the_loc_os.Base.{◌+◌, ◌≡◌, arith, List, [], ◌∷◌, ◌==◌, Bool-cases, inl, inr, Option-cases}
use the_loc_os.Queue.{Ptr}
use the_loc_os.Queue.Ring.{enqueue_process-answer}
use the_loc_os.Process.{Heap}
use the_loc_os.Loader.{Loading, create_process_from_program}
use the_loc_os.Loader.Elf.{load_program_from_elf}
use the_loc_os.Kernel.{Boot, Entry, file_path, is_elf, enqueue_loaded, load_entry, load_directory}

-- both have grown by as much
abbrev pub Counts : Boot → Boot → Type 0
Counts s s' =
    s'.programs_loaded + s.ready_queue.current_size
    ≡ s.programs_loaded + s'.ready_queue.current_size

enqueue_loaded-Counts :
    (s : Boot) (pcb : Ptr) (loading : Loading) → Counts s (enqueue_loaded s pcb loading)
unfolding enqueue_loaded
enqueue_loaded-Counts s pcb loading = elim (Bool-cases (pcb == 0)) [
  | inl e ↦ rw e (omega arith)
  | inr e ↦ rw e (elim (enqueue_process-answer s.ready_queue pcb) [
    | inl (a, more) ↦ rw a (omega (arith, more))
    | inr (a, same) ↦ rw (a, same) (omega arith)
  ])
]

load_entry-Counts : (malloc : Heap → Ptr) (e : Entry) (s : Boot) → Counts s (load_entry malloc e s)
unfolding load_entry
load_entry-Counts malloc e s = elim (Bool-cases (is_elf e.name)) [
  | inl b ↦
      rw b
        (elim (Option-cases
          (load_program_from_elf e.file (file_path e.name) e.random e.allocated)) [
            | inl f ↦ rw f (omega arith)
            | inr (program, f) ↦
                let (pcb, loading) = create_process_from_program malloc s.loading program in
                rw f (enqueue_loaded-Counts s pcb loading)
          ])
  | inr b ↦ rw b (omega arith)
]

pub load_directory-Counts :
    (malloc : Heap → Ptr) (entries : List Entry) (s : Boot)
    → Counts s (load_directory malloc entries s)
unfolding load_directory
load_directory-Counts malloc [] s = omega arith
load_directory-Counts malloc (e ∷ es) s =
    omega
      (arith, load_entry-Counts malloc e s, load_directory-Counts malloc es (load_entry malloc e s))

pub load_directory-counts :
    (malloc : Heap → Ptr) (entries : List Entry) (s : Boot)
    → s.programs_loaded ≡ s.ready_queue.current_size
    → (load_directory malloc entries s).programs_loaded
      ≡ (load_directory malloc entries s).ready_queue.current_size
load_directory-counts malloc entries s h = omega (arith, h, load_directory-Counts malloc entries s)
