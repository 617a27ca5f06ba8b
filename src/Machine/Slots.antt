-- ===== src/Machine/Slots.antt =====
-- The processes on the hardware threads of a machine, as a list, and the room that there is.
use the_loc_os.Base.{
  ◌≤◌, ◌≡◌, arith, List, [], ◌∷◌, ◌++◌, length, length-append, listing, length-listing,
}
use mathlib.Core.List.{Perm, perm_middle}
use mathlib.Core.List.Perm
use the_loc_os.Queue.{Ptr}
use the_loc_os.Machine.{Core, Cpu, Machine, count_cores, count_cpus, count_executing_processes}

-- the PCB pointers of the slots in use
abbrev pub slots : Core → List Ptr
slots core = listing core.current_pcb_count (λ k. (core.hw_threads k).pcb)

abbrev pub slots_cores : List Core → List Ptr
slots_cores [] = []
slots_cores (core ∷ cores) = slots core ++ slots_cores cores

abbrev pub slots_cpus : List Cpu → List Ptr
slots_cpus [] = []
slots_cpus (cpu ∷ cpus) = slots_cores cpu.cores ++ slots_cpus cpus

abbrev pub executing : Machine → List Ptr
executing machine = slots_cpus machine.cpus

-- No core has more processes than threads.
abbrev pub FitsCores : List Core → Type 0
FitsCores [] = Unit
FitsCores (core ∷ cores) = (core.current_pcb_count ≤ core.num_kernel_threads) × FitsCores cores

abbrev pub FitsCpus : List Cpu → Type 0
FitsCpus [] = Unit
FitsCpus (cpu ∷ cpus) = FitsCores cpu.cores × FitsCpus cpus

abbrev pub Fits : Machine → Type 0
Fits machine = FitsCpus machine.cpus

-- `l'` is `l` with one more `p`, somewhere.
abbrev pub Added : Ptr → List Ptr → List Ptr → Type 0
Added p l l' = Perm l' (p ∷ l)

pub Added-right :
    {p : Ptr} {l l' : List Ptr} (r : List Ptr) → Added p l l' → Added p (l ++ r) (l' ++ r)
Added-right r a = Perm.append_right r a

pub Added-left :
    {p : Ptr} {l l' : List Ptr} (r : List Ptr) → Added p l l' → Added p (r ++ l) (r ++ l')
Added-left {p} {l} r a = Perm.trans (Perm.append_left r a) (perm_middle r l)

length-slots_cores : (cores : List Core) → count_cores cores ≡ length (slots_cores cores)
unfolding count_cores
length-slots_cores [] = omega arith
length-slots_cores (core ∷ cores) = omega (
  arith,
  length-append (slots core) (slots_cores cores),
  length-slots_cores cores,
  length-listing core.current_pcb_count (λ k. (core.hw_threads k).pcb),
)

length-slots_cpus : (cpus : List Cpu) → count_cpus cpus ≡ length (slots_cpus cpus)
unfolding count_cpus
length-slots_cpus [] = omega arith
length-slots_cpus (cpu ∷ cpus) = omega (
  arith,
  length-append (slots_cores cpu.cores) (slots_cpus cpus),
  length-slots_cores cpu.cores,
  length-slots_cpus cpus,
)

-- count_executing_processes is the number of processes on the machine's threads.
pub count_executing-length :
    (machine : Machine) → count_executing_processes machine ≡ length (executing machine)
unfolding count_executing_processes
count_executing-length machine = length-slots_cpus machine.cpus
