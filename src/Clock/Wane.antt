-- ===== src/Clock/Wane.antt =====
-- What a tick of the clock does to the times to live.
use the_loc_os.Base.{
  ℕ, ◌+◌, ◌-◌, ◌<◌, ◌≤◌, ◌≡◌, ◌≢◌, refl, sym, ap, ◌∙◌, arith, ◌==◌, Option, none, some, List, [],
  ◌∷◌, for_range_inv, Bool-cases, inl, inr, pos_part, Has, Has-append, Has-listing,
}
use mathlib.Core.Path.{subst}
use the_loc_os.Queue.{Ptr}
use the_loc_os.Process.{Heap, decrement_pcb_ttl}
use the_loc_os.Process.Ttl.{decrement-ttl, decrement-ttl_self}
use the_loc_os.Memory.{PhysicalMemory}
use the_loc_os.Machine.{HardwareThread, Core, Cpu}
use the_loc_os.Machine.Slots.{slots, slots_cores, slots_cpus, executing, FitsCores, FitsCpus, Fits}
use the_loc_os.Machine.Shape.{SameCores, SameCpus, SameCores-cons, SameCpus-cons}
use the_loc_os.Machine.Cycle.Slot.{cycle-ttl}
use the_loc_os.Clock.{
  Shared, execute_thread, tick_thread, tick_slot, tick_core, tick_cores, tick_cpus, Clock, tick,
}
use the_loc_os.Clock.Tick.{tick_core-SameSlots, tick_thread-pcb}

-- the time to live of a process, 0 where it is negative
abbrev pub left : Heap → Ptr → ℕ
left h p = pos_part (h.cell p).ttl

execute_thread-left :
    (t : HardwareThread) (h : Heap) (pm : Option PhysicalMemory) (p : Ptr)
    → left (execute_thread t h pm).1.heap p ≤ left h p
unfolding execute_thread
execute_thread-left t h none p = omega arith
execute_thread-left t h (some pm) p =
    ground (arith, cycle-ttl (record { thread = t; heap = h; pm = pm }) p)

tick_thread-left :
    (t : HardwareThread) (s : Shared) (p : Ptr) → left (tick_thread t s).1.heap p ≤ left s.heap p
unfolding tick_thread
tick_thread-left t s p = elim (Bool-cases (t.pcb == 0)) [
  | inl e ↦ rw e (omega arith)
  | inr e ↦ rw e (
      omega (
        arith,
        execute_thread-left t (decrement_pcb_ttl t.pcb s.heap).1 s.pm p,
        decrement-ttl t.pcb s.heap p,
      ))
]

tick_thread-left_self :
    (t : HardwareThread) (s : Shared)
    → t.pcb ≢ 0
    → left (tick_thread t s).1.heap t.pcb ≤ left s.heap t.pcb - 1
unfolding tick_thread
tick_thread-left_self t s ne = elim (Bool-cases (t.pcb == 0)) [
  | inl e ↦ absurd (ne (ground arith))
  | inr e ↦ rw e (
      omega (
        arith,
        execute_thread-left t (decrement_pcb_ttl t.pcb s.heap).1 s.pm t.pcb,
        decrement-ttl_self t.pcb s.heap ne,
      ))
]

tick_thread-left_of :
    (t : HardwareThread) (s : Shared) {p : Ptr}
    → t.pcb ≡ p
    → p ≢ 0
    → left (tick_thread t s).1.heap p ≤ left s.heap p - 1
tick_thread-left_of t s e ne =
    subst (λ q. left (tick_thread t s).1.heap q ≤ left s.heap q - 1) e
      (tick_thread-left_self t s (λ z. ne (sym e ∙ z)))

tick_core-left :
    (core : Core) (s : Shared) (p : Ptr) → left (tick_core core s).1.heap p ≤ left s.heap p
unfolding tick_core tick_slot
tick_core-left core s p =
    for_range_inv (λ i (c : Core × Shared). left c.1.heap p ≤ left s.heap p) tick_slot
      (λ i c h. omega (arith, h, tick_thread-left (c.0.hw_threads i) c.1 p)) core.num_kernel_threads
      0 core.num_kernel_threads (core, s) (omega arith) (omega arith)

-- what the loop over the threads of a core keeps for the process on thread `k`
record Ticked (core : Core) (s : Shared) (k i : ℕ) (c : Core × Shared) : Type 0 where
  pcb : (c.0.hw_threads k).pcb ≡ (core.hw_threads k).pcb
  waits : left c.1.heap (core.hw_threads k).pcb ≤ left s.heap (core.hw_threads k).pcb
  over : k < i → left c.1.heap (core.hw_threads k).pcb ≤ left s.heap (core.hw_threads k).pcb - 1

tick_slot-Ticked :
    (core : Core) (s : Shared) (k : ℕ)
    → (core.hw_threads k).pcb ≢ 0
    → (i : ℕ) (c : Core × Shared) → Ticked core s k i c
    → Ticked core s k (i + 1) (tick_slot i c)
unfolding tick_slot
tick_slot-Ticked core s k ne i (c, s') t = record {
  pcb = ground (arith, t.pcb, tick_thread-pcb (c.hw_threads i) s');
  waits = omega (arith, t.waits, tick_thread-left (c.hw_threads i) s' (core.hw_threads k).pcb);
  over = λ lt. elim (Bool-cases (i == k)) [
    | inl e ↦
        let own =
          tick_thread-left_of (c.hw_threads i) s'
            (ap (λ j. (c.hw_threads j).pcb) (ground arith) ∙ t.pcb) ne in
        omega (arith, own, t.waits)
    | inr e ↦
        let before : k < i = ground arith in
        omega (arith, t.over before, tick_thread-left (c.hw_threads i) s' (core.hw_threads k).pcb)
  ];
}

tick_core-left_self :
    (core : Core) (s : Shared) (k : ℕ)
    → k < core.num_kernel_threads
    → (core.hw_threads k).pcb ≢ 0
    → left (tick_core core s).1.heap (core.hw_threads k).pcb
      ≤ left s.heap (core.hw_threads k).pcb - 1
unfolding tick_core
tick_core-left_self core s k lt ne =
    (for_range_inv (Ticked core s k) tick_slot (tick_slot-Ticked core s k ne)
        core.num_kernel_threads 0 core.num_kernel_threads (core, s) (omega arith)
        (record { pcb = refl; waits = omega arith; over = λ lt. absurd (omega arith) })).over
      lt

tick_core-left_of :
    (core : Core) (s : Shared) (k : ℕ) {p : Ptr}
    → k < core.num_kernel_threads
    → (core.hw_threads k).pcb ≡ p
    → p ≢ 0
    → left (tick_core core s).1.heap p ≤ left s.heap p - 1
tick_core-left_of core s k lt e ne =
    subst (λ q. left (tick_core core s).1.heap q ≤ left s.heap q - 1) e
      (tick_core-left_self core s k lt (λ z. ne (sym e ∙ z)))

tick_cores-left :
    (cores : List Core) (s : Shared) (p : Ptr) → left (tick_cores cores s).1.heap p ≤ left s.heap p
unfolding tick_cores
tick_cores-left [] s p = omega arith
tick_cores-left (core ∷ cores) s p =
    let (core', s') = tick_core core s in
    omega (arith, tick_core-left core s p, tick_cores-left cores s' p)

tick_cpus-left :
    (cpus : List Cpu) (s : Shared) (p : Ptr) → left (tick_cpus cpus s).1.heap p ≤ left s.heap p
unfolding tick_cpus
tick_cpus-left [] s p = omega arith
tick_cpus-left (cpu ∷ cpus) s p =
    let (cores', s') = tick_cores cpu.cores s in
    omega (arith, tick_cores-left cpu.cores s p, tick_cpus-left cpus s' p)

-- A tick gives no process more time to live.
pub tick-left : (c : Clock) (p : Ptr) → left (tick c).shared.heap p ≤ left c.shared.heap p
unfolding tick
tick-left c p = tick_cpus-left c.machine.cpus c.shared p

module _ (p : Ptr) (ne : p ≢ 0) where
  abbrev Runs : Ptr → Type 0
  Runs q = q ≡ p

  tick_cores-left_running :
      (cores : List Core) (s : Shared)
      → FitsCores cores
      → Has Runs (slots_cores cores)
      → left (tick_cores cores s).1.heap p ≤ left s.heap p - 1
  unfolding tick_cores
  tick_cores-left_running [] s f h = absurd h
  tick_cores-left_running (core ∷ cores) s f h =
      let (core', s') = tick_core core s in
      elim (Has-append Runs (slots core) (slots_cores cores) h) [
        | inl here ↦
            let (k, lt, e) =
              Has-listing Runs core.current_pcb_count (λ k. (core.hw_threads k).pcb) here in
            omega (
              arith,
              tick_core-left_of core s k (omega (arith, f.0)) e ne,
              tick_cores-left cores s' p,
            )
        | inr later ↦
            omega (arith, tick_core-left core s p, tick_cores-left_running cores s' f.1 later)
      ]

  tick_cpus-left_running :
      (cpus : List Cpu) (s : Shared)
      → FitsCpus cpus
      → Has Runs (slots_cpus cpus)
      → left (tick_cpus cpus s).1.heap p ≤ left s.heap p - 1
  unfolding tick_cpus
  tick_cpus-left_running [] s f h = absurd h
  tick_cpus-left_running (cpu ∷ cpus) s f h =
      let (cores', s') = tick_cores cpu.cores s in
      elim (Has-append Runs (slots_cores cpu.cores) (slots_cpus cpus) h) [
        | inl here ↦
            omega (arith, tick_cores-left_running cpu.cores s f.0 here, tick_cpus-left cpus s' p)
        | inr later ↦
            omega (arith, tick_cores-left cpu.cores s p, tick_cpus-left_running cpus s' f.1 later)
      ]

  -- A process on a thread has one tick less, or none left.
  pub tick-left_running :
      (c : Clock)
      → Fits c.machine
      → Has Runs (executing c.machine)
      → left (tick c).shared.heap p ≤ left c.shared.heap p - 1
  unfolding tick
  tick-left_running c f h = tick_cpus-left_running c.machine.cpus c.shared f h

SameCores-tick : (cores : List Core) (s : Shared) → SameCores cores (tick_cores cores s).0
unfolding tick_cores
SameCores-tick [] s = record { threads = refl; fits = λ f. f }
SameCores-tick (core ∷ cores) s =
    let same = tick_core-SameSlots core s in
    SameCores-cons same.threads (omega (arith, same.count))
      (SameCores-tick cores (tick_core core s).1)

SameCpus-tick_cpus : (cpus : List Cpu) (s : Shared) → SameCpus cpus (tick_cpus cpus s).0
unfolding tick_cpus
SameCpus-tick_cpus [] s = record { threads = refl; fits = λ f. f }
SameCpus-tick_cpus (cpu ∷ cpus) s =
    SameCpus-cons (SameCores-tick cpu.cores s) (SameCpus-tick_cpus cpus (tick_cores cpu.cores s).1)

pub SameCpus-tick : (c : Clock) → SameCpus c.machine.cpus (tick c).machine.cpus
unfolding tick
SameCpus-tick c = SameCpus-tick_cpus c.machine.cpus c.shared
