-- ===== src/Machine/Shape.antt =====
-- The hardware threads of a machine: how many there are, and the machine that is not full.
use the_loc_os.Base.{
  ℕ, ◌+◌, ◌<◌, ◌≤◌, ◌≡◌, ◌≢◌, refl, ap, ◌∙◌, arith, true, List, [], ◌∷◌, ◌++◌, Bool-cases, inl, inr,
  length, empty_of_length, length-append, length-listing, ltb,
}
use mathlib.Core.Path.{ap₂}
use the_loc_os.Queue.{Ptr}
use the_loc_os.Process.{Heap}
use the_loc_os.Machine.{
  Core, Cpu, Machine, has_space, can_any_core, can_any_cpu, can_cpu_execute_process, assign_core,
  assign_cores, assign_cpus, assign_process_to_core,
}
use the_loc_os.Machine.Slots.{slots, slots_cores, slots_cpus, executing, FitsCores, FitsCpus}
use the_loc_os.Machine.Assign.{executing-assign}

abbrev pub threads_cores : List Core → ℕ
threads_cores [] = 0
threads_cores (core ∷ cores) = core.num_kernel_threads + threads_cores cores

abbrev pub threads_cpus : List Cpu → ℕ
threads_cpus [] = 0
threads_cpus (cpu ∷ cpus) = threads_cores cpu.cores + threads_cpus cpus

abbrev pub total_threads : Machine → ℕ
total_threads machine = threads_cpus machine.cpus

-- the same threads, and no core over its capacity if none was
pub record SameCores (cores cores' : List Core) : Type 0 where
  pub threads : threads_cores cores' ≡ threads_cores cores
  pub fits : FitsCores cores → FitsCores cores'

pub record SameCpus (cpus cpus' : List Cpu) : Type 0 where
  pub threads : threads_cpus cpus' ≡ threads_cpus cpus
  pub fits : FitsCpus cpus → FitsCpus cpus'

pub SameCpus-same : (cpus : List Cpu) → SameCpus cpus cpus
SameCpus-same cpus = record { threads = refl; fits = λ f. f }

pub SameCpus-trans : {a b c : List Cpu} → SameCpus a b → SameCpus b c → SameCpus a c
SameCpus-trans s t = record { threads = t.threads ∙ s.threads; fits = λ f. t.fits (s.fits f) }

pub SameCores-cons :
    {core core' : Core} {cores cores' : List Core}
    → core'.num_kernel_threads ≡ core.num_kernel_threads
    → core'.current_pcb_count ≤ core.current_pcb_count
    → SameCores cores cores'
    → SameCores (core ∷ cores) (core' ∷ cores')
SameCores-cons same fewer s = record {
  threads = ap₂ ◌+◌ same s.threads;
  fits = λ f. (omega (arith, f.0, same, fewer), s.fits f.1);
}

pub SameCpus-cons :
    {cpu cpu' : Cpu} {cpus cpus' : List Cpu}
    → SameCores cpu.cores cpu'.cores
    → SameCpus cpus cpus'
    → SameCpus (cpu ∷ cpus) (cpu' ∷ cpus')
SameCpus-cons a s = record {
  threads = ap₂ ◌+◌ a.threads s.threads;
  fits = λ f. (a.fits f.0, s.fits f.1);
}

empty_parts : (xs ys : List Ptr) → xs ++ ys ≡ [] → (xs ≡ []) × (ys ≡ [])
empty_parts xs ys e =
    let sizes = length-append xs ys in
    let total : length (xs ++ ys) ≡ 0 = ap length e in
    (empty_of_length xs (omega arith), empty_of_length ys (omega arith))

-- a machine with threads and no process can take one
free_cores :
    (cores : List Core)
    → slots_cores cores ≡ []
    → 0 < threads_cores cores
    → can_any_core cores ≡ true
free_cores [] e more = absurd (omega arith)
free_cores (core ∷ cores) e more =
    let (here, later) = empty_parts (slots core) (slots_cores cores) e in
    let empty : core.current_pcb_count ≡ 0 = omega (
      arith,
      ap length here,
      length-listing core.current_pcb_count (λ k. (core.hw_threads k).pcb),
    ) in
    elim (Bool-cases (has_space core)) [
      | inl free ↦ rw free refl
      | inr full ↦ rw full (free_cores cores later (ground (arith, empty)))
    ]

free_cpus :
    (cpus : List Cpu) → slots_cpus cpus ≡ [] → 0 < threads_cpus cpus → can_any_cpu cpus ≡ true
free_cpus [] e more = absurd (omega arith)
free_cpus (cpu ∷ cpus) e more =
    let (here, later) = empty_parts (slots_cores cpu.cores) (slots_cpus cpus) e in
    elim (Bool-cases (ltb 0 (threads_cores cpu.cores))) [
      | inl some_thread ↦ rw (free_cores cpu.cores here (ground arith)) refl
      | inr no_thread ↦ let rest = free_cpus cpus later (ground arith) in ground (arith, rest)
    ]

pub idle-can_execute :
    (machine : Machine)
    → executing machine ≡ []
    → 0 < total_threads machine
    → can_cpu_execute_process machine ≡ true
unfolding can_cpu_execute_process
idle-can_execute machine e more = free_cpus machine.cpus e more

threads-assign_cores :
    (h : Heap) (p : Ptr) (cores : List Core)
    → threads_cores (assign_cores h p cores).1 ≡ threads_cores cores
unfolding assign_cores assign_core
threads-assign_cores h p [] = refl
threads-assign_cores h p (core ∷ cores) = ground (arith, threads-assign_cores h p cores)

threads-assign_cpus :
    (h : Heap) (p : Ptr) (cpus : List Cpu)
    → threads_cpus (assign_cpus h p cpus).1 ≡ threads_cpus cpus
unfolding assign_cpus
threads-assign_cpus h p [] = refl
threads-assign_cpus h p (cpu ∷ cpus) =
    ground (arith, threads-assign_cpus h p cpus, threads-assign_cores h p cpu.cores)

pub SameCpus-assign :
    (machine : Machine) (p : Ptr) (h : Heap)
    → p ≢ 0
    → can_cpu_execute_process machine ≡ true
    → SameCpus machine.cpus (assign_process_to_core machine p h).1.cpus
unfolding assign_process_to_core
SameCpus-assign machine p h ne free = record {
  threads = ground (arith, threads-assign_cpus h p machine.cpus);
  fits = λ f. (executing-assign machine p h ne f free).1;
}

threads_of_can_core : (cores : List Core) → can_any_core cores ≡ true → 0 < threads_cores cores
threads_of_can_core [] e = cc
threads_of_can_core (core ∷ cores) e = ground (arith, threads_of_can_core cores)

threads_of_can_cpu : (cpus : List Cpu) → can_any_cpu cpus ≡ true → 0 < threads_cpus cpus
threads_of_can_cpu [] e = cc
threads_of_can_cpu (cpu ∷ cpus) e =
    ground (arith, threads_of_can_core cpu.cores, threads_of_can_cpu cpus)

pub threads_of_can_execute :
    (machine : Machine) → can_cpu_execute_process machine ≡ true → 0 < total_threads machine
unfolding can_cpu_execute_process
threads_of_can_execute machine e = threads_of_can_cpu machine.cpus e
