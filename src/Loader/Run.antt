-- ===== src/Loader/Run.antt =====
-- From the program to its run: the loader, the hardware thread that takes its process, and the
-- instruction cycle together.
use the_loc_os.Base.{ℕ, ◌+◌, ◌*◌, ◌<◌, ◌≤◌, ◌≡◌, ◌≢◌, refl, sym, ◌∙◌, arith, false}
use the_loc_os.Queue.{Ptr}
use the_loc_os.Process.{Heap}
use the_loc_os.Process.Ttl.{copy_registers_lem}
use the_loc_os.Memory.{PhysicalMemory}
use the_loc_os.Memory.PageTable.Space.{virtual_word}
use the_loc_os.Memory.Frames.{IsValid}
use the_loc_os.Machine.{HardwareThread, load_thread}
use the_loc_os.Machine.Cycle.{World}
use the_loc_os.Machine.Cycle.Isa.{Isa, Simulates}
use the_loc_os.Machine.Cycle.Abstract.{cycles, isa_run, StaysInSpace, cycles_refine}
use the_loc_os.Loader.{Loading, Program, total_pages, create_process_from_program}
use the_loc_os.Loader.Page.{image}
use the_loc_os.Loader.Pages.{frame_of}
use the_loc_os.Loader.Keep.{Owned, Owned-Keeps, virtual_word-Keeps, apart}
use the_loc_os.Loader.Create.{Small, Created, create_process-Created}

-- the abstract machine that starts a program
abbrev pub boot : (ℕ → ℕ) → Program → Isa
boot regs program = record { pc = 0; regs = regs; mem = image program; halted = false }

-- the thread that has taken the new process
abbrev pub started : (HardwareThread) → Ptr → Loading → World
started hw_thread pcb s = record {
  thread = load_thread hw_thread pcb (s.heap.cell pcb);
  heap = s.heap;
  pm = s.pm;
}

started-Simulates :
    {s s' : Loading} {program : Program} {pages : ℕ} (hw_thread : HardwareThread) (pcb : Ptr)
    → pcb ≢ 0
    → Created s program pages pcb s'
    → Simulates s.pm.next_kernel_frame pages
        (started hw_thread pcb s')
        (boot (started hw_thread pcb s').thread.registers program)
unfolding load_thread
started-Simulates hw_thread pcb ne c = record {
  process = ne;
  table = c.fresh.pgb;
  space = c.boots.owned.space;
  pc = ground (arith, c.fresh.pc);
  regs = λ r. refl;
  mem = c.boots.words;
  halted = ground (arith, c.fresh.state);
}

started-registers :
    {s s' : Loading} {program : Program} {pages : ℕ} (hw_thread : HardwareThread) (pcb : Ptr)
    → Created s program pages pcb s'
    → (r : ℕ) → r < 16
    → (started hw_thread pcb s').thread.registers r ≡ 0
unfolding load_thread
started-registers {s} {s'} hw_thread pcb c r h = ground (
  arith,
  copy_registers_lem hw_thread.registers (s'.heap.cell pcb).context.registers r,
  c.fresh.registers r h,
)

-- the program loaded, and its process started on a thread
abbrev pub load_and_start : (Heap → Ptr) → Loading → Program → HardwareThread → World
load_and_start malloc s program hw_thread =
    let (pcb, s') = create_process_from_program malloc s program in started hw_thread pcb s'

-- the abstract machine at that point
abbrev pub boot_loaded : (Heap → Ptr) → Loading → Program → HardwareThread → Isa
boot_loaded malloc s program hw_thread =
    boot (load_and_start malloc s program hw_thread).thread.registers program

-- the address space of another process, beside one that has been loaded
pub record Beside (t n t' n' : ℕ) (pm pm' : PhysicalMemory) : Type 0 where
  pub owned : Owned pm' t' n'
  pub words : (k : ℕ) → k < n' * 1024 → virtual_word pm' t' k ≡ virtual_word pm t' k
  pub apart : (i j : ℕ) → i < n → j < n' → frame_of pm' t i ≢ frame_of pm t' j

module _ (malloc : Heap → Ptr) (s : Loading) (program : Program) (ok : malloc s.heap ≢ 0)
    (small : Small program.header) (v : IsValid s.pm)
    (hk : s.pm.next_kernel_frame + total_pages program.header ≤ 262144)
    (ht : s.pm.total_allocated_frames + total_pages program.header ≤ 4096) where
  created :
      Created s program
        (total_pages program.header)
        (malloc s.heap)
        (create_process_from_program malloc s program).1
  created = let (e, c) = create_process-Created malloc s program ok small v hk ht in rw e at c

  -- A loaded program whose process a hardware thread takes runs as the abstract machine on the
  -- image of the program, from word 0 and with registers 0 to 15 zero: after any number of cycles,
  -- while the machine stays in its pages, the thread stands where the abstract machine stands. The
  -- segments of the header must end below word 2 ^ 29, the PCB be allocated, the bitmap
  -- consistent, and frames and kernel space enough.
  pub program-runs :
      (hw_thread : HardwareThread) (m : ℕ)
      → StaysInSpace (total_pages program.header) m (boot_loaded malloc s program hw_thread)
      → ((r : ℕ) → r < 16 → (boot_loaded malloc s program hw_thread).regs r ≡ 0)
        × Simulates s.pm.next_kernel_frame
            (total_pages program.header)
            (cycles m (load_and_start malloc s program hw_thread))
            (isa_run m (boot_loaded malloc s program hw_thread))
  program-runs hw_thread m l =
      let (e, c) = create_process-Created malloc s program ok small v hk ht in
      let alive : (create_process_from_program malloc s program).0 ≢ 0 = λ z. ok (sym e ∙ z) in
      (started-registers hw_thread _ c, cycles_refine m (started-Simulates hw_thread _ alive c) l)

  -- Loading a program changes no word of the address space of another process, leaves its table in
  -- order, and gives the new process no frame of it. The segments of the header must end below
  -- word 2 ^ 29, the PCB be allocated, the bitmap consistent, and frames and kernel space enough;
  -- the other process has its frames marked and its table in kernel space that was given out.
  pub spaces-create_process :
      (t' n' : ℕ)
      → Owned s.pm t' n'
      → Beside s.pm.next_kernel_frame
          (total_pages program.header)
          t'
          n'
          s.pm
          (create_process_from_program malloc s program).1.pm
  spaces-create_process t' n' o =
      let b = created.boots in
      record {
        owned = Owned-Keeps v b.valid b.keeps refl o;
        words = virtual_word-Keeps v b.valid b.keeps refl o;
        apart = apart v b.valid b.keeps refl o b.free;
      }
