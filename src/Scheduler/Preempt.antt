-- ===== src/Scheduler/Preempt.antt =====
-- `get_lowest_priority_executing` and `preempt_lower_priority_processes` of sys/process.c.
pub mod Victim
pub mod Tests
use the_loc_os.Base.{
  ℕ, zero, suc, ◌+◌, ◌-◌, ◌||◌, ◌&&◌, not, Option, none, some, List, [], ◌∷◌, ◌==◌, if◌then◌else◌,
  ℤ, pos, eqb_ℤ, ltb_ℤ, shift_loop,
}
use the_loc_os.Queue.{Ptr, null}
use the_loc_os.Process.{Pcb, Heap, modify, create_pcb, waiting}
use the_loc_os.Machine.{Core, Cpu, Machine}
use the_loc_os.Scheduler.{Scheduler, preemptive_prio, enqueue_to_scheduler}

-- the indices of a CPU, a core and a thread
pub record Location : Type 0 where
  pub cpu_idx : ℕ
  pub core_idx : ℕ
  pub thread_idx : ℕ

-- `lowest_priority` and where it was found; `none` is the three indices -1.
abbrev pub Lowest : Type 0
Lowest = ℤ × Option Location

-- MAX_PRIORITY + 1
abbrev pub no_priority : ℤ
no_priority = pos 20

unfoldable pub lowest_thread : Core → ℕ → ℕ → ℕ → ℕ → Lowest → Lowest
lowest_thread core i j zero k best = best
lowest_thread core i j (suc n) k best =
    let priority = (core.pcbs k).priority in
    let lower = ltb_ℤ best.0 priority || eqb_ℤ best.0 no_priority in
    lowest_thread core i j n (k + 1) (
      if lower
      then (priority, some (record { cpu_idx = i; core_idx = j; thread_idx = k }))
      else best)

unfoldable pub lowest_core : List Core → ℕ → ℕ → Lowest → Lowest
lowest_core [] i j best = best
lowest_core (core ∷ cores) i j best =
    lowest_core cores i (j + 1) (lowest_thread core i j core.current_pcb_count 0 best)

unfoldable pub lowest_cpu : List Cpu → ℕ → Lowest → Lowest
lowest_cpu [] i best = best
lowest_cpu (cpu ∷ cpus) i best = lowest_cpu cpus (i + 1) (lowest_core cpu.cores i 0 best)

unfoldable pub get_lowest_priority_executing : Machine → Lowest
get_lowest_priority_executing machine = lowest_cpu machine.cpus 0 (no_priority, none)

-- `machine->cpus[i].cores[j]`, read and changed
unfoldable pub core_at : List Core → ℕ → Option Core
core_at [] j = none
core_at (core ∷ cores) zero = some core
core_at (core ∷ cores) (suc j) = core_at cores j

unfoldable pub core_of : List Cpu → ℕ → ℕ → Option Core
core_of [] i j = none
core_of (cpu ∷ cpus) zero j = core_at cpu.cores j
core_of (cpu ∷ cpus) (suc i) j = core_of cpus i j

unfoldable pub change_core : (Core → Core) → List Core → ℕ → List Core
change_core f [] j = []
change_core f (core ∷ cores) zero = f core ∷ cores
change_core f (core ∷ cores) (suc j) = core ∷ change_core f cores j

unfoldable pub change_cpu : (Core → Core) → List Cpu → ℕ → ℕ → List Cpu
change_cpu f [] i j = []
change_cpu f (cpu ∷ cpus) zero j = record { cores = change_core f cpu.cores j } ∷ cpus
change_cpu f (cpu ∷ cpus) (suc i) j = cpu ∷ change_cpu f cpus i j

-- "Remove preempted process from core": the copies move up, the hardware threads stay.
unfoldable pub drop_copy : ℕ → Core → Core
drop_copy k core = record core {
  pcbs = shift_loop (core.current_pcb_count - 1 - k) k core.pcbs;
  current_pcb_count = core.current_pcb_count - 1;
}

-- what the scheduler and its callees read and change
pub record System : Type 0 where
  pub sched : Scheduler
  pub machine : Machine
  pub heap : Heap

-- the fields that the saved PCB takes from the copy in the core
abbrev pub save_fields : Pcb → Pcb → Pcb
save_fields old p = record p {
  state = waiting;
  priority = old.priority;
  ttl = old.ttl;
  initial_ttl = old.initial_ttl;
  quantum_counter = pos 0;
  virtual_deadline = old.virtual_deadline;
}

-- "Save the preempted process state"
unfoldable pub save_preempted : (Heap → Ptr) → Pcb → System → System
save_preempted malloc old s =
    let (saved, h) = create_pcb malloc old.pid s.heap in
    if saved == null
    then record s { heap = h }
    else let h' = modify saved (save_fields old) h in
      record s { heap = h'; sched = (enqueue_to_scheduler s.sched saved h').1 }

abbrev pub preempt_core : (Heap → Ptr) → Location → System → Option Core → System
preempt_core malloc at s none = s
preempt_core malloc at s (some core) =
    let s' = save_preempted malloc (core.pcbs at.thread_idx) s in
    record s' {
      machine = record {
        cpus = change_cpu (drop_copy at.thread_idx) s.machine.cpus at.cpu_idx at.core_idx;
      };
    }

abbrev pub preempt_at : (Heap → Ptr) → System → Option Location → System
preempt_at malloc s none = s
preempt_at malloc s (some at) =
    preempt_core malloc at s (core_of s.machine.cpus at.cpu_idx at.core_idx)

unfoldable pub preempt_lower_priority_processes : (Heap → Ptr) → Ptr → System → System
preempt_lower_priority_processes malloc new_pcb s =
    if new_pcb == null || not (s.sched.policy == preemptive_prio)
    then s
    else let (lowest_prio, at) = get_lowest_priority_executing s.machine in
      if not (eqb_ℤ lowest_prio no_priority) && ltb_ℤ (s.heap.cell new_pcb).priority lowest_prio
      then preempt_at malloc s at
      else s
