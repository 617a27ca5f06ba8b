-- ===== src/Kernel/Arguments.antt =====
-- The arguments of main in sys/kernel.c: the defaults, the loop that parses the flags, and what main
-- creates from the settings. `atoi` is a parameter; argv[0] is left out. `--help` ends the program
-- before the loop and is not modelled.
pub mod Tests
use the_loc_os.Base.{
  ℕ, ◌+◌, ◌≡◌, refl, sym, ap, ◌∙◌, arith, Bool, true, false, ◌&&◌, Option, none, some, List, [],
  ◌∷◌, ◌==◌, if◌then◌else◌, ℤ, pos, pos_part, neg_part, ltb, ltb_ℤ, leb_ℤ, eqb_ℤ, ◌+ℤ◌, ◌≤ℤ◌,
  Option-cases, inl, inr, Bool-cases,
}
use the_loc_os.Machine.{Machine, can_cpu_execute_process}
use the_loc_os.Machine.Create.{MachineMemory, create_machine, create_machine-Idle}
use the_loc_os.Machine.Slots.{executing, Fits}
use the_loc_os.Loader.Scan.{Line}
use the_loc_os.Kernel.{same_text}

-- the settings, in the order of the flags; the first is CLOCK_FREQUENCY_HZ
pub record Settings : Type 0 where
  pub clock_frequency_hz : ℤ
  pub quantum : ℤ
  pub num_timers : ℤ
  pub timer_interval : ℤ
  pub sched_policy : ℤ
  pub sched_sync : ℤ
  pub ready_queue_size : ℤ
  pub num_cpus : ℤ
  pub num_cores : ℤ
  pub num_threads : ℤ

abbrev pub default_settings : Settings
default_settings = record {
  clock_frequency_hz = pos 1;
  quantum = pos 3;
  num_timers = pos 1;
  timer_interval = pos 5;
  sched_policy = pos 0;
  sched_sync = pos 0;
  ready_queue_size = pos 100;
  num_cpus = pos 1;
  num_cores = pos 2;
  num_threads = pos 4;
}

pub data Flag : Type 0 where
  frequency : Flag
  quantum : Flag
  timers : Flag
  timeri : Flag
  policy : Flag
  sync : Flag
  qsize : Flag
  cpus : Flag
  cores : Flag
  threads : Flag

-- the comparisons of the loop, in their order
unfoldable pub flag_of : Line → Option Flag
flag_of a =
    if same_text a (b'-' ∷ b'f' ∷ [])
    then some frequency
    else if same_text a (b'-' ∷ b'q' ∷ [])
    then some quantum
    else if same_text a (b'-' ∷ b't' ∷ [])
    then some timers
    else if same_text a (b'-' ∷ b't' ∷ b'i' ∷ b'm' ∷ b'e' ∷ b'r' ∷ b'i' ∷ [])
    then some timeri
    else if same_text a (b'-' ∷ b'p' ∷ b'o' ∷ b'l' ∷ b'i' ∷ b'c' ∷ b'y' ∷ [])
    then some policy
    else if same_text a (b'-' ∷ b's' ∷ b'y' ∷ b'n' ∷ b'c' ∷ [])
    then some sync
    else if same_text a (b'-' ∷ b'q' ∷ b's' ∷ b'i' ∷ b'z' ∷ b'e' ∷ [])
    then some qsize
    else if same_text a (b'-' ∷ b'c' ∷ b'p' ∷ b'u' ∷ b's' ∷ [])
    then some cpus
    else if same_text a (b'-' ∷ b'c' ∷ b'o' ∷ b'r' ∷ b'e' ∷ b's' ∷ [])
    then some cores
    else if same_text a (b'-' ∷ b't' ∷ b'h' ∷ b'r' ∷ b'e' ∷ b'a' ∷ b'd' ∷ b's' ∷ [])
    then some threads
    else none

-- `(atoi(argv[i]) > 0) ? atoi(argv[i]) : d`
abbrev pub positive_or : ℤ → ℤ → ℤ
positive_or d v = if ltb_ℤ (pos 0) v then v else d

-- the assignment of a flag, with the number that `atoi` reads
unfoldable pub set_flag : Flag → ℤ → Settings → Settings
set_flag frequency v s = record s { clock_frequency_hz = positive_or (pos 1) v }
set_flag quantum v s = record s { quantum = positive_or (pos 5) v }
set_flag timers v s = record s { num_timers = if leb_ℤ (pos 0) v then v else pos 1 }
set_flag timeri v s = record s { timer_interval = positive_or (pos 5) v }
set_flag policy v s =
    if leb_ℤ (pos 0) v && leb_ℤ v (pos 2) then record s { sched_policy = v } else s
set_flag sync v s = if leb_ℤ (pos 0) v && leb_ℤ v (pos 1) then record s { sched_sync = v } else s
set_flag qsize v s = record s { ready_queue_size = positive_or (pos 100) v }
set_flag cpus v s = record s { num_cpus = positive_or (pos 1) v }
set_flag cores v s = record s { num_cores = positive_or (pos 2) v }
set_flag threads v s = record s { num_threads = positive_or (pos 4) v }

-- The loop: a flag takes the argument behind it; another argument, and the last one, is skipped.
unfoldable pub parse_arguments : (Line → ℤ) → List Line → Settings → Settings
parse_arguments atoi [] s = s
parse_arguments atoi (a ∷ []) s = s
parse_arguments atoi (a ∷ value ∷ args) s = elim (flag_of a) [
  | none ↦ parse_arguments atoi (value ∷ args) s
  | some flag ↦ parse_arguments atoi args (set_flag flag (atoi value) s)
]

-- "Determine how many timers to create"
unfoldable pub timers_to_create : Settings → ℤ
timers_to_create s =
    if eqb_ℤ s.sched_sync (pos 1)
    then if ltb_ℤ s.num_timers (pos 1) then pos 1 else s.num_timers +ℤ pos 1
    else s.num_timers

-- the machine that main creates
abbrev pub create_system_machine : MachineMemory → Settings → Option Machine
create_system_machine memory s =
    create_machine memory (pos_part s.num_cpus) (pos_part s.num_cores) (pos_part s.num_threads)

-- Every setting is in its range.
pub record Usable (s : Settings) : Type 0 where
  pub clock_frequency_hz : pos 1 ≤ℤ s.clock_frequency_hz
  pub quantum : pos 1 ≤ℤ s.quantum
  pub num_timers : pos 0 ≤ℤ s.num_timers
  pub timer_interval : pos 1 ≤ℤ s.timer_interval
  pub policy_low : pos 0 ≤ℤ s.sched_policy
  pub policy_high : s.sched_policy ≤ℤ pos 2
  pub sync_low : pos 0 ≤ℤ s.sched_sync
  pub sync_high : s.sched_sync ≤ℤ pos 1
  pub ready_queue_size : pos 1 ≤ℤ s.ready_queue_size
  pub num_cpus : pos 1 ≤ℤ s.num_cpus
  pub num_cores : pos 1 ≤ℤ s.num_cores
  pub num_threads : pos 1 ≤ℤ s.num_threads

default-Usable : Usable default_settings
default-Usable = ground arith

set_flag-Usable : (flag : Flag) (v : ℤ) (s : Settings) → Usable s → Usable (set_flag flag v s)
unfolding set_flag
set_flag-Usable frequency v s u = ground arith
set_flag-Usable quantum v s u = ground arith
set_flag-Usable timers v s u = ground arith
set_flag-Usable timeri v s u = ground arith
set_flag-Usable policy v s u = ground arith
set_flag-Usable sync v s u = ground arith
set_flag-Usable qsize v s u = ground arith
set_flag-Usable cpus v s u = ground arith
set_flag-Usable cores v s u = ground arith
set_flag-Usable threads v s u = ground arith

parse_arguments-keeps_Usable :
    (atoi : Line → ℤ) (args : List Line) (s : Settings)
    → Usable s
    → Usable (parse_arguments atoi args s)
unfolding parse_arguments
parse_arguments-keeps_Usable atoi [] s u = u
parse_arguments-keeps_Usable atoi (a ∷ []) s u = u
parse_arguments-keeps_Usable atoi (a ∷ value ∷ args) s u = elim (Option-cases (flag_of a)) [
  | inl e ↦ rw (e, parse_arguments) (parse_arguments-keeps_Usable atoi (value ∷ args) s u)
  | inr (flag, e) ↦
      rw (e, parse_arguments)
        (parse_arguments-keeps_Usable atoi args (set_flag flag (atoi value) s)
          (set_flag-Usable flag (atoi value) s u))
]

-- Whatever the arguments are and whatever atoi reads in them, the kernel goes on with settings in
-- their ranges: a clock frequency, a quantum, a timer interval and sizes of at least one, a number
-- of timers that is not negative, and a policy and a synchronisation that the scheduler knows.
pub arguments-Usable :
    (atoi : Line → ℤ) (args : List Line) → Usable (parse_arguments atoi args default_settings)
arguments-Usable atoi args = parse_arguments-keeps_Usable atoi args default_settings default-Usable

-- Whatever the arguments of the kernel are, a machine that main creates from the settings has no
-- process on it, has no core over its capacity, and can take a process.
pub system_machine-idle :
    (memory : MachineMemory) (atoi : Line → ℤ) (args : List Line) {machine : Machine}
    → create_system_machine memory (parse_arguments atoi args default_settings) ≡ some machine
    → (executing machine ≡ []) × Fits machine × (can_cpu_execute_process machine ≡ true)
system_machine-idle memory atoi args e =
    let s = parse_arguments atoi args default_settings in
    let u = arguments-Usable atoi args in
    let i =
      create_machine-Idle memory (pos_part s.num_cpus) (pos_part s.num_cores)
        (pos_part s.num_threads) e in
    let some_cpu : ltb 0 (pos_part s.num_cpus) ≡ true = ground (arith, u.num_cpus) in
    let some_core : ltb 0 (pos_part s.num_cores) ≡ true = ground (arith, u.num_cores) in
    let some_thread : ltb 0 (pos_part s.num_threads) ≡ true = ground (arith, u.num_threads) in
    (i.idle, i.fits, i.room ∙ rw (some_cpu, some_core, some_thread) refl)
