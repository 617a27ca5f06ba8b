-- ===== src/Machine/Create.antt =====
-- `create_core` and `create_machine` of sys/machine.c. What the allocations answer and what the fresh
-- memory holds are arguments; on a failure the program frees what it has and returns NULL.
use the_loc_os.Base.{
  ℕ, zero, suc, ◌+◌, ◌≡◌, refl, arith, Bool, ◌&&◌, Option, none, some, List, [], ◌∷◌, ltb, update,
  for_range, if◌then◌else◌, ◌>>=◌, Option-cases, Bool-cases, inl, inr,
}
use mathlib.Core.Path.{subst}
use mathlib.Core.Option.{some-injective}
use the_loc_os.Queue.{null}
use the_loc_os.Process.{Pcb}
use the_loc_os.Machine.{
  HardwareThread, Core, Cpu, Machine, can_any_core, can_any_cpu, can_cpu_execute_process,
}
use the_loc_os.Machine.Slots.{slots_cores, slots_cpus, executing, FitsCores, FitsCpus, Fits}

-- the answers of the three allocations of a core and what they hold
pub record CoreMemory : Type 0 where
  pub core_ok : Bool
  pub pcbs_ok : Bool
  pub threads_ok : Bool
  pub pcbs : ℕ → Pcb
  pub hw_threads : ℕ → HardwareThread

-- a thread as the loop of `create_core` leaves it
abbrev pub idle_thread : HardwareThread
idle_thread = record {
  pc = 0;
  ir = 0;
  ptbr = none;
  registers = λ j. 0;
  mmu = record { page_table_base = none; enabled = 0 };
  tlb = record {
    entries = λ j. record { virtual_page = 0; physical_frame = 0; valid = 0 };
    next_replace = 0;
  };
  pcb = null;
}

unfoldable pub create_core : CoreMemory → ℕ → Option Core
create_core m num_kernel_threads =
    if m.core_ok && m.pcbs_ok && m.threads_ok
    then some (record {
      num_kernel_threads = num_kernel_threads;
      current_pcb_count = 0;
      pcbs = m.pcbs;
      hw_threads =
          for_range num_kernel_threads 0 (λ i threads. update threads i idle_thread) m.hw_threads;
    })
    else none

-- the `n` cores from number `j` on
unfoldable pub create_cores : (ℕ → CoreMemory) → ℕ → ℕ → ℕ → Option (List Core)
create_cores m num_kernel_threads zero j = some []
create_cores m num_kernel_threads (suc n) j = do
  core ← create_core (m j) num_kernel_threads
  cores ← create_cores m num_kernel_threads n (j + 1)
  some (core ∷ cores)

-- the answers of the allocations of a machine: of the array of cores of each CPU, and of its cores
pub record MachineMemory : Type 0 where
  pub machine_ok : Bool
  pub cpus_ok : Bool
  pub cores_ok : ℕ → Bool
  pub core : ℕ → ℕ → CoreMemory

-- the `n` CPUs from number `i` on
unfoldable pub create_cpus : MachineMemory → ℕ → ℕ → ℕ → ℕ → Option (List Cpu)
create_cpus m num_cores num_kernel_threads zero i = some []
create_cpus m num_cores num_kernel_threads (suc n) i = do
  cores ← (if m.cores_ok i then create_cores (m.core i) num_kernel_threads num_cores 0 else none)
  cpus ← create_cpus m num_cores num_kernel_threads n (i + 1)
  some (record { cores = cores } ∷ cpus)

unfoldable pub create_machine : MachineMemory → ℕ → ℕ → ℕ → Option Machine
create_machine m num_cpus num_cores num_kernel_threads =
    if m.machine_ok && m.cpus_ok
    then (do
      cpus ← create_cpus m num_cores num_kernel_threads num_cpus 0
      some (record { cpus = cpus }))
    else none

-- cores of `t` threads each, all of them idle
record IdleCores (n t : ℕ) (cores : List Core) : Type 0 where
  idle : slots_cores cores ≡ []
  fits : FitsCores cores
  room : can_any_core cores ≡ (ltb 0 n && ltb 0 t)

IdleCores-cons :
    {n t : ℕ} {cores : List Core} (core : Core)
    → core.current_pcb_count ≡ 0
    → core.num_kernel_threads ≡ t
    → IdleCores n t cores
    → IdleCores (suc n) t (core ∷ cores)
IdleCores-cons core e k i = record {
  idle = rw (e, i.idle) refl;
  fits = (omega arith, i.fits);
  room = ground (arith, i.room);
}

create_core-fields :
    (m : CoreMemory) (t : ℕ) {core : Core}
    → create_core m t ≡ some core
    → (core.current_pcb_count ≡ 0) × (core.num_kernel_threads ≡ t)
unfolding create_core
create_core-fields m t e = ground (arith, e)

create_cores-Idle :
    (m : ℕ → CoreMemory) (t n j : ℕ) {cores : List Core}
    → create_cores m t n j ≡ some cores
    → IdleCores n t cores
unfolding create_cores
create_cores-Idle m t zero j {cores} e =
    subst (IdleCores 0 t) (some-injective _ _ e)
      (record { idle = refl; fits = tt; room = ground arith })
create_cores-Idle m t (suc n) j e = elim (Option-cases (create_core (m j) t)) [
  | inl no_core ↦ let f = rw no_core at e in cc
  | inr (core, made) ↦ elim (Option-cases (create_cores m t n (j + 1))) [
    | inl no_cores ↦ let f = rw (made, no_cores) at e in cc
    | inr (cores, rest) ↦
        let f = rw (made, rest) at e in
        let (none_yet, threads) = create_core-fields (m j) t made in
        subst (IdleCores (suc n) t) (some-injective _ _ f)
          (IdleCores-cons core none_yet threads (create_cores-Idle m t n (j + 1) rest))
  ]
]

-- CPUs of `n` cores of `t` threads each, all of them idle
record IdleCpus (k n t : ℕ) (cpus : List Cpu) : Type 0 where
  idle : slots_cpus cpus ≡ []
  fits : FitsCpus cpus
  room : can_any_cpu cpus ≡ (ltb 0 k && ltb 0 n && ltb 0 t)

IdleCpus-cons :
    {k n t : ℕ} {cores : List Core} {cpus : List Cpu}
    → IdleCores n t cores
    → IdleCpus k n t cpus
    → IdleCpus (suc k) n t (record { cores = cores } ∷ cpus)
IdleCpus-cons c i = record {
  idle = rw (c.idle, i.idle) refl;
  fits = (c.fits, i.fits);
  room = ground (arith, c.room, i.room);
}

cores_of_cpu :
    (m : MachineMemory) (n t i : ℕ) {cores : List Core}
    → (if m.cores_ok i then create_cores (m.core i) t n 0 else none) ≡ some cores
    → IdleCores n t cores
cores_of_cpu m n t i e = elim (Bool-cases (m.cores_ok i)) [
  | inl ok ↦ let f = rw ok at e in create_cores-Idle (m.core i) t n 0 f
  | inr failed ↦ let f = rw failed at e in cc
]

create_cpus-Idle :
    (m : MachineMemory) (n t k i : ℕ) {cpus : List Cpu}
    → create_cpus m n t k i ≡ some cpus
    → IdleCpus k n t cpus
unfolding create_cpus
create_cpus-Idle m n t zero i e =
    subst (IdleCpus 0 n t) (some-injective _ _ e)
      (record { idle = refl; fits = tt; room = ground arith })
create_cpus-Idle m n t (suc k) i e =
    elim (Option-cases (if m.cores_ok i then create_cores (m.core i) t n 0 else none)) [
      | inl no_cores ↦ let f = rw no_cores at e in cc
      | inr (cores, made) ↦ elim (Option-cases (create_cpus m n t k (i + 1))) [
        | inl no_cpus ↦ let f = rw (made, no_cpus) at e in cc
        | inr (cpus, rest) ↦
            let f = rw (made, rest) at e in
            subst (IdleCpus (suc k) n t) (some-injective _ _ f)
              (IdleCpus-cons (cores_of_cpu m n t i made) (create_cpus-Idle m n t k (i + 1) rest))
      ]
    ]

-- no process on the machine, no core over its capacity, and room exactly where there is a thread
pub record IdleMachine (num_cpus num_cores num_kernel_threads : ℕ) (machine : Machine)
    : Type 0 where
  pub idle : executing machine ≡ []
  pub fits : Fits machine
  pub room :
      can_cpu_execute_process machine
      ≡ (ltb 0 num_cpus && ltb 0 num_cores && ltb 0 num_kernel_threads)

-- A machine that create_machine returns has no process on it, has no core over its capacity, and
-- can take a process exactly where it has a CPU, a core and a thread.
pub create_machine-Idle :
    (m : MachineMemory) (num_cpus num_cores num_kernel_threads : ℕ) {machine : Machine}
    → create_machine m num_cpus num_cores num_kernel_threads ≡ some machine
    → IdleMachine num_cpus num_cores num_kernel_threads machine
unfolding create_machine can_cpu_execute_process
create_machine-Idle m k n t {machine} e = elim (Bool-cases (m.machine_ok && m.cpus_ok)) [
  | inr failed ↦ let f = rw failed at e in cc
  | inl ok ↦ elim (Option-cases (create_cpus m n t k 0)) [
    | inl no_cpus ↦ let f = rw (ok, no_cpus) at e in cc
    | inr (cpus, made) ↦
        let f = rw (ok, made) at e in
        let i = create_cpus-Idle m n t k 0 made in
        subst (IdleMachine k n t) (some-injective _ _ f)
          (record { idle = i.idle; fits = i.fits; room = i.room })
  ]
]
