-- ===== src/Machine.antt =====
-- The machine of sys/machine.h and its process slots in sys/machine.c: CPUs, cores, hardware
-- threads. The instruction cycle is in Machine.Cycle.
--
-- The arrays of CPUs and cores are lists, `num_CPUs` and `num_cores` their lengths, which nothing
-- changes after `create_machine`. The arrays of a core are functions of the index, of
-- `num_kernel_threads` entries. A 1 or 0 that a function returns is a Boolean.
pub mod Slots
pub mod Create
pub mod Assign
pub mod Shape
pub mod Shift
pub mod Remove
pub mod Cycle
pub mod Tests
use the_loc_os.Base.{
  ℕ, zero, suc, ◌+◌, ◌-◌, Bool, true, false, not, ◌&&◌, ◌||◌, Option, none, some, List, [], ◌∷◌,
  ltb, ◌==◌, if◌then◌else◌, update, ℤ, eqb_ℤ, for_range, shift_loop,
}
use the_loc_os.Queue.{Ptr, null}
use the_loc_os.Process.{Pcb, Heap, copy_registers, running_state}

abbrev pub tlb_size : ℕ
tlb_size = 16

pub record TlbEntry : Type 0 where
  pub virtual_page : ℕ
  pub physical_frame : ℕ
  pub valid : ℕ

pub record Tlb : Type 0 where
  pub entries : ℕ → TlbEntry
  pub next_replace : ℕ

pub record Mmu : Type 0 where
  pub page_table_base : Option ℕ
  pub enabled : ℕ

pub record HardwareThread : Type 0 where
  pub pc : ℕ
  pub ir : ℕ
  pub ptbr : Option ℕ
  pub registers : ℕ → ℕ
  pub mmu : Mmu
  pub tlb : Tlb
  pub pcb : Ptr

pub record Core : Type 0 where
  pub num_kernel_threads : ℕ
  pub current_pcb_count : ℕ
  pub pcbs : ℕ → Pcb
  pub hw_threads : ℕ → HardwareThread

pub record Cpu : Type 0 where
  pub cores : List Core

pub record Machine : Type 0 where
  pub cpus : List Cpu

abbrev pub has_space : Core → Bool
has_space core = ltb core.current_pcb_count core.num_kernel_threads

abbrev pub can_any_core : List Core → Bool
can_any_core [] = false
can_any_core (core ∷ cores) = has_space core || can_any_core cores

abbrev pub can_any_cpu : List Cpu → Bool
can_any_cpu [] = false
can_any_cpu (cpu ∷ cpus) = can_any_core cpu.cores || can_any_cpu cpus

unfoldable pub can_cpu_execute_process : Machine → Bool
can_cpu_execute_process machine = can_any_cpu machine.cpus

-- The context that `assign_process_to_core` loads into a hardware thread.
unfoldable pub load_thread : HardwareThread → Ptr → Pcb → HardwareThread
load_thread hw_thread pcb p = record {
  pc = if p.context.pc == 0 && not (p.state == running_state) then 0 else p.context.pc;
  ir = p.context.instruction;
  ptbr = p.mm.pgb;
  registers = copy_registers hw_thread.registers p.context.registers;
  mmu = record { page_table_base = p.mm.pgb; enabled = 1 };
  tlb = record {
    entries =
        for_range tlb_size 0 (λ t es. update es t (record (es t) { valid = 0 }))
          hw_thread.tlb.entries;
    next_replace = 0;
  };
  pcb = pcb;
}

-- the body of the loops, in a core with a free slot
pub assign_core : Heap → Ptr → Core → Core
assign_core h pcb core =
    let hw_idx = core.current_pcb_count in
    record core {
      pcbs = update core.pcbs hw_idx (h.cell pcb);
      hw_threads =
          update core.hw_threads hw_idx (load_thread (core.hw_threads hw_idx) pcb (h.cell pcb));
      current_pcb_count = core.current_pcb_count + 1;
    }

pub assign_cores : Heap → Ptr → List Core → Bool × List Core
assign_cores h pcb [] = (false, [])
assign_cores h pcb (core ∷ cores) =
    let (found, cores') = assign_cores h pcb cores in
    if has_space core then (true, assign_core h pcb core ∷ cores) else (found, core ∷ cores')

pub assign_cpus : Heap → Ptr → List Cpu → Bool × List Cpu
assign_cpus h pcb [] = (false, [])
assign_cpus h pcb (cpu ∷ cpus) =
    let (found, cpus') = assign_cpus h pcb cpus in
    let (here, cores') = assign_cores h pcb cpu.cores in
    if here then (true, record { cores = cores' } ∷ cpus) else (found, cpu ∷ cpus')

pub assign_process_to_core : Machine → Ptr → Heap → Bool × Machine
assign_process_to_core machine pcb h =
    if pcb == null
    then (false, machine)
    else let (found, cpus') = assign_cpus h pcb machine.cpus in (found, record { cpus = cpus' })

-- the hardware thread after its process has been taken off it
abbrev pub clear_thread : HardwareThread → HardwareThread
clear_thread hw_thread = record hw_thread {
  pcb = null;
  ptbr = none;
  pc = 0;
  ir = 0;
  mmu = record { page_table_base = none; enabled = 0 };
}

-- "Clear the last": only its PCB and page table.
abbrev pub unlink_thread : HardwareThread → HardwareThread
unlink_thread hw_thread = record hw_thread { pcb = null; ptbr = none }

-- One step of the shift in `remove_process_from_core`: four fields of the thread, and the copy of
-- the PCB where there is one.
abbrev pub shift_step : Heap → ℕ → Core → Core
shift_step h l core =
    let next = core.hw_threads (l + 1) in
    record core {
      hw_threads = update core.hw_threads l (record (core.hw_threads l) {
        pcb = next.pcb;
        ptbr = next.ptbr;
        pc = next.pc;
        ir = next.ir;
      });
      pcbs = if next.pcb == null then core.pcbs else update core.pcbs l (h.cell next.pcb);
    }

abbrev pub clear_at : ℕ → Core → Core
clear_at k core = record core {
  hw_threads = update core.hw_threads k (clear_thread (core.hw_threads k));
}

pub remove_at : Heap → ℕ → Core → Core
remove_at h k core =
    let shifted = for_range (core.current_pcb_count - 1 - k) k (shift_step h) (clear_at k core) in
    let last = core.current_pcb_count - 1 in
    record shifted {
      hw_threads = update shifted.hw_threads last (unlink_thread (shifted.hw_threads last));
      current_pcb_count = core.current_pcb_count - 1;
    }

-- whether thread `k` runs the process `pid`
abbrev pub runs : Heap → ℤ → Core → ℕ → Bool
runs h pid core k =
    not ((core.hw_threads k).pcb == null) && eqb_ℤ (h.cell (core.hw_threads k).pcb).pid pid

-- the first thread from `k` on, of `n`, that runs `pid`
pub find_thread : Heap → ℤ → Core → ℕ → ℕ → Option ℕ
find_thread h pid core zero k = none
find_thread h pid core (suc n) k =
    let rest = find_thread h pid core n (k + 1) in if runs h pid core k then some k else rest

-- what the search in one core leads to: the removal there, or the result for the later cores
abbrev pub take_out : Heap → Core → List Core → Bool × List Core → Option ℕ → Bool × List Core
take_out h core cores later none = (later.0, core ∷ later.1)
take_out h core cores later (some k) = (true, remove_at h k core ∷ cores)

pub remove_cores : Heap → ℤ → List Core → Bool × List Core
remove_cores h pid [] = (false, [])
remove_cores h pid (core ∷ cores) =
    take_out h core cores (remove_cores h pid cores)
      (find_thread h pid core core.current_pcb_count 0)

pub remove_cpus : Heap → ℤ → List Cpu → Bool × List Cpu
remove_cpus h pid [] = (false, [])
remove_cpus h pid (cpu ∷ cpus) =
    let (found, cpus') = remove_cpus h pid cpus in
    let (here, cores') = remove_cores h pid cpu.cores in
    if here then (true, record { cores = cores' } ∷ cpus) else (found, cpu ∷ cpus')

pub remove_process_from_core : Machine → ℤ → Heap → Bool × Machine
remove_process_from_core machine pid h =
    let (found, cpus') = remove_cpus h pid machine.cpus in (found, record { cpus = cpus' })

unfoldable pub count_cores : List Core → ℕ
count_cores [] = 0
count_cores (core ∷ cores) = core.current_pcb_count + count_cores cores

unfoldable pub count_cpus : List Cpu → ℕ
count_cpus [] = 0
count_cpus (cpu ∷ cpus) = count_cores cpu.cores + count_cpus cpus

unfoldable pub count_executing_processes : Machine → ℕ
count_executing_processes machine = count_cpus machine.cpus
