-- ===== src/Clock/Tick.antt =====
-- What a tick of the clock does to the processes on the machine.
use the_loc_os.Base.{
  ℕ, ◌≡◌, refl, ap, sym, ◌∙◌, arith, ◌==◌, Option, none, some, List, [], ◌∷◌, ◌++◌, for_range_inv,
  listing, listing-ext, Bool-cases, inl, inr, false,
}
use mathlib.Core.Path.{ap₂}
use the_loc_os.Process.{Heap, decrement_pcb_ttl, terminated}
use the_loc_os.Process.Ttl.{decrement-state}
use the_loc_os.Memory.{PhysicalMemory}
use the_loc_os.Machine.{HardwareThread, Core, Cpu}
use the_loc_os.Machine.Slots.{slots, slots_cores, slots_cpus, executing}
use the_loc_os.Machine.Cycle.{World}
use the_loc_os.Machine.Cycle.Slot.{cycle-pcb}
use the_loc_os.Machine.Cycle.Isa.{Isa, isa_step, isa_step-halted, Simulates, InSpace}
use the_loc_os.Machine.Cycle.Abstract.{cycle_refines}
use the_loc_os.Clock.{
  Shared, execute_thread, tick_thread, tick_slot, tick_core, tick_cores, tick_cpus, Clock, tick,
}

execute_thread-pcb :
    (t : HardwareThread) (h : Heap) (pm : Option PhysicalMemory)
    → (execute_thread t h pm).0.pcb ≡ t.pcb
unfolding execute_thread
execute_thread-pcb t h none = refl
execute_thread-pcb t h (some pm) =
    ground (arith, cycle-pcb (record { thread = t; heap = h; pm = pm }))

pub tick_thread-pcb : (t : HardwareThread) (s : Shared) → (tick_thread t s).0.pcb ≡ t.pcb
unfolding tick_thread
tick_thread-pcb t s = elim (Bool-cases (t.pcb == 0)) [
  | inl e ↦ rw e refl
  | inr e ↦ rw e (execute_thread-pcb t _ s.pm)
]

-- the threads of a core hold the processes that they held
pub record SameSlots (core core' : Core) : Type 0 where
  pub pcb : (k : ℕ) → (core'.hw_threads k).pcb ≡ (core.hw_threads k).pcb
  pub count : core'.current_pcb_count ≡ core.current_pcb_count
  pub threads : core'.num_kernel_threads ≡ core.num_kernel_threads

pub tick_core-SameSlots : (core : Core) (s : Shared) → SameSlots core (tick_core core s).0
unfolding tick_core tick_slot
tick_core-SameSlots core s =
    for_range_inv (λ i (p : Core × Shared). SameSlots core p.0) tick_slot
      (λ i p h. record {
        pcb = λ k. ground (arith, h.pcb k, tick_thread-pcb (p.0.hw_threads i) p.1);
        count = h.count;
        threads = h.threads;
      })
      core.num_kernel_threads 0 core.num_kernel_threads (core, s) (omega arith)
      (record { pcb = λ k. refl; count = refl; threads = refl })

slots-tick_core : (core : Core) (s : Shared) → slots (tick_core core s).0 ≡ slots core
slots-tick_core core s =
    let same = tick_core-SameSlots core s in
    ap (λ n. listing n (λ k. ((tick_core core s).0.hw_threads k).pcb)) same.count
    ∙ listing-ext core.current_pcb_count _ _ (λ k h. same.pcb k)

slots_cores-tick :
    (cores : List Core) (s : Shared) → slots_cores (tick_cores cores s).0 ≡ slots_cores cores
unfolding tick_cores
slots_cores-tick [] s = refl
slots_cores-tick (core ∷ cores) s =
    ap₂ (λ a b. a ++ b) (slots-tick_core core s) (slots_cores-tick cores _)

slots_cpus-tick : (cpus : List Cpu) (s : Shared) → slots_cpus (tick_cpus cpus s).0 ≡ slots_cpus cpus
unfolding tick_cpus
slots_cpus-tick [] s = refl
slots_cpus-tick (cpu ∷ cpus) s =
    ap₂ (λ a b. a ++ b) (slots_cores-tick cpu.cores s) (slots_cpus-tick cpus _)

-- A tick of the clock leaves every process on its thread: the processes on the machine are the
-- same, in the same places.
pub executing-tick : (c : Clock) → executing (tick c).machine ≡ executing c.machine
unfolding tick
executing-tick c = slots_cpus-tick c.machine.cpus c.shared

-- the state of a thread with its process and its memory
abbrev pub world : HardwareThread → Heap → PhysicalMemory → World
world t h pm = record { thread = t; heap = h; pm = pm }

decrement-Simulates :
    {b n : ℕ} {t : HardwareThread} {h : Heap} {pm : PhysicalMemory} {s : Isa}
    → Simulates b n (world t h pm) s
    → Simulates b n (world t (decrement_pcb_ttl t.pcb h).1 pm) s
decrement-Simulates {t = t} {h = h} sim = record {
  process = sim.process;
  table = sim.table;
  space = sim.space;
  pc = sim.pc;
  regs = sim.regs;
  mem = sim.mem;
  halted = rw (decrement-state t.pcb h t.pcb) sim.halted;
}

-- what a tick leaves of a thread, with its memory
pub record Steps (b n : ℕ) (s : Isa) (out : HardwareThread × Shared) : Type 0 where
  pub pm : PhysicalMemory
  pub memory : out.1.pm ≡ some pm
  pub simulates : Simulates b n (world out.0 out.1.heap pm) s

-- A tick of the clock, on a thread that runs a process in its own pages, is one step of the
-- abstract machine, or none where the process has terminated; the count of its time to live does
-- not disturb it.
pub tick_thread-Steps :
    {b n : ℕ} {t : HardwareThread} {h : Heap} {pm : PhysicalMemory} {s : Isa}
    → Simulates b n (world t h pm) s
    → InSpace n s
    → Steps b n (isa_step s) (tick_thread t (record { heap = h; pm = some pm }))
unfolding tick_thread execute_thread
tick_thread-Steps {b} {n} {t} {h} {pm} {s} sim l =
    let alive : (t.pcb == 0) ≡ false = ground (arith, sim.process) in
    let ticked = decrement-Simulates sim in
    rw alive (elim (Bool-cases (((decrement_pcb_ttl t.pcb h).1.cell t.pcb).state == terminated)) [
      | inl over ↦
          rw (over, isa_step-halted s (sym ticked.halted ∙ over))
            (record { pm = pm; memory = refl; simulates = ticked })
      | inr alive' ↦
          rw alive' (record { pm = _; memory = refl; simulates = cycle_refines ticked l })
    ])
