-- ===== src/Kernel/Room.antt =====
-- The loop of main in sys/kernel.c that loads the programs of a directory, where there is room for all.
use the_loc_os.Base.{
  ℕ, ◌+◌, ◌*◌, ◌<◌, ◌≤◌, ◌≡◌, ◌≢◌, refl, arith, true, false, some, List, [], ◌∷◌, ◌==◌, length,
  Each,
}
use the_loc_os.Queue.{Ptr}
use the_loc_os.Queue.Ring.{enqueue_process-room}
use the_loc_os.Process.{Heap}
use the_loc_os.Memory.Frames.{IsValid}
use the_loc_os.Loader.{Program, total_pages, create_process_from_program}
use the_loc_os.Loader.Create.{Small, create_process-Created}
use the_loc_os.Loader.Elf.{load_program_from_elf}
use the_loc_os.Kernel.{
  Boot, Entry, file_path, is_elf, load_program, enqueue_loaded, load_entry, load_directory,
}

-- an entry that the loader reads as a program of at most `pages` pages
pub record Ready (pages : ℕ) (e : Entry) : Type 0 where
  pub named : is_elf e.name ≡ true
  pub program : Program
  pub read : load_program_from_elf e.file (file_path e.name) e.random e.allocated ≡ some program
  pub small : Small program.header
  pub few : total_pages program.header ≤ pages

-- What malloc has left: a number of PCBs that goes down by one at most where one address changes, and
-- while it is not 0 malloc does not return NULL.
pub record Arena (malloc : Heap → Ptr) : Type 0 where
  pub left : Heap → ℕ
  pub spends :
      (h h' : Heap) (p : Ptr) → ((q : Ptr) → q ≢ p → h'.live q ≡ h.live q) → left h ≤ left h' + 1
  pub serves : (h : Heap) → 0 < left h → malloc h ≢ 0

-- room for `n` pages and `count` processes
pub record Room {malloc : Heap → Ptr} (arena : Arena malloc) (n count : ℕ) (s : Boot) : Type 0 where
  pub heap : count ≤ arena.left s.loading.heap
  pub valid : IsValid s.loading.pm
  pub kernel : s.loading.pm.next_kernel_frame + n ≤ 262144
  pub frames : s.loading.pm.total_allocated_frames + n ≤ 4096
  pub queue : s.ready_queue.current_size + count ≤ s.ready_queue.max_capacity

module _ (malloc : Heap → Ptr) (arena : Arena malloc) (pages : ℕ) where
  load_program-Room :
      (n count : ℕ) (s : Boot) (program : Program)
      → Small program.header
      → total_pages program.header ≤ pages
      → Room arena (pages + n) (count + 1) s
      → let s' = load_program malloc s (some program) in
        (s'.programs_loaded ≡ s.programs_loaded + 1) × Room arena n count s'
  unfolding enqueue_loaded
  load_program-Room n count s program small few r =
      let ok = arena.serves s.loading.heap (omega (arith, r.heap)) in
      let (e, c) =
        create_process-Created malloc s.loading program ok small r.valid (omega (arith, r.kernel))
          (omega (arith, r.frames)) in
      let pcb = (create_process_from_program malloc s.loading program).0 in
      let after = (create_process_from_program malloc s.loading program).1 in
      let spent = arena.spends s.loading.heap after.heap pcb c.others_live in
      let alive : (pcb == 0) ≡ false = ground (arith, e, ok) in
      let (answer, size, capacity) =
        enqueue_process-room s.ready_queue pcb (omega (arith, r.queue)) in
      rw (alive, answer)
        (
          refl,
          record {
            heap = omega (arith, r.heap, spent);
            valid = c.boots.valid;
            kernel = omega (arith, r.kernel, c.boots.keeps.kernel_free);
            frames = omega (arith, r.frames, c.boots.total);
            queue = omega (arith, r.queue, size, capacity);
          },
        )

  load_entry-Room :
      (n count : ℕ) (s : Boot) (e : Entry)
      → Ready pages e
      → Room arena (pages + n) (count + 1) s
      → let s' = load_entry malloc e s in
        (s'.programs_loaded ≡ s.programs_loaded + 1) × Room arena n count s'
  unfolding load_entry
  load_entry-Room n count s e ready r =
      rw (ready.named, ready.read)
        (load_program-Room n count s ready.program ready.small ready.few r)

  -- every program is counted, in whatever order the directory has them
  pub load_directory-all :
      (entries : List Entry) (s : Boot)
      → Each (Ready pages) entries
      → Room arena (length entries * pages) (length entries) s
      → (load_directory malloc entries s).programs_loaded ≡ s.programs_loaded + length entries
  unfolding load_directory
  load_directory-all [] s ready r = omega arith
  load_directory-all (e ∷ es) s (first, rest) r =
      let room : Room arena (pages + length es * pages) (length es + 1) s = record {
        heap = omega (arith, r.heap);
        valid = r.valid;
        kernel = omega (arith, r.kernel);
        frames = omega (arith, r.frames);
        queue = omega (arith, r.queue);
      } in
      let (one, r') = load_entry-Room (length es * pages) (length es) s e first room in
      omega (arith, one, load_directory-all es (load_entry malloc e s) rest r')
