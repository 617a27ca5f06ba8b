-- ===== src/Kernel/Start/Completes.antt =====
-- From the arguments of the kernel to the completion of the programs.
use the_loc_os.Base.{
  ℕ, ◌<◌, ◌≡◌, sym, ap, ◌∙◌, arith, Option, some, List, [], ◌++◌, length, length-listing,
  not-mem-listing, ℤ, pos, pos_part, >>=-eq-some, Bool,
}
use mathlib.Core.Path.{subst}
use mathlib.Core.List.{Mem}
use mathlib.Core.Option.{some-injective}
use the_loc_os.Queue.{Ptr, create_process_queue}
use the_loc_os.Queue.Ring.{entry, create_process_queue-IsValid}
use the_loc_os.Queue.Fifo.{contents}
use the_loc_os.Process.{Heap}
use the_loc_os.Memory.{create_physical_memory}
use the_loc_os.Memory.Frames.Boot.{create_physical_memory-IsFresh}
use the_loc_os.Machine.Slots.{executing, Fits}
use the_loc_os.Machine.Shape.{total_threads, threads_of_can_execute}
use the_loc_os.Scheduler.{create_scheduler_with_policy}
use the_loc_os.Scheduler.Create.{create_scheduler_lem}
use the_loc_os.Runtime.{Runtime, run}
use the_loc_os.Runtime.Life.{processes, life}
use the_loc_os.Runtime.Conserve.{Steady}
use the_loc_os.Runtime.Completes.{run-completes}
use the_loc_os.Loader.{create_loader}
use the_loc_os.Loader.Scan.{Line}
use the_loc_os.Kernel.{Boot, Entry, load_programs, load_directory}
use the_loc_os.Kernel.Arguments.{
  Settings, default_settings, parse_arguments, create_system_machine, arguments-Usable,
  system_machine-idle,
}
use the_loc_os.Kernel.Residents.{InOrder, IsMalloc, AllSmall, empty-InOrder}
use the_loc_os.Kernel.Directory.{load_directory-FilledFrom}
use the_loc_os.Kernel.Loaded.{load_directory-counts}
use the_loc_os.Kernel.Start.{Allocations, Started, when, start_system, runtime_of, boot_system}

when-some {ℓ} : {A : Type ℓ} (b : Bool) (m : Option A) {a : A} → when b m ≡ some a → m ≡ some a
when-some b m e = ground (arith, e)

-- the system before a program is loaded
record Idle (s : Settings) (b : Started) : Type 0 where
  machine : (executing b.machine ≡ []) × Fits b.machine × (0 < total_threads b.machine)
  sched : (b.sched.policy ≡ pos_part s.sched_policy) × (b.sched.total_completed ≡ 0)
  boot : InOrder b.boot
  empty : b.boot.programs_loaded ≡ b.boot.ready_queue.current_size

start_system-Idle :
    (atoi : Line → ℤ) (args : List Line) (a : Allocations) (heap : Heap) {b : Started}
    → start_system a (parse_arguments atoi args default_settings) heap ≡ some b
    → Idle (parse_arguments atoi args default_settings) b
unfolding start_system
start_system-Idle atoi args a heap e =
    let s = parse_arguments atoi args default_settings in
    let u = arguments-Usable atoi args in
    let (pq, queue_made, e1) =
      >>=-eq-some (create_process_queue a.queue_ok a.array_ok a.slots (pos_part s.ready_queue_size))
        _ (when-some a.clock_ok _ e) in
    let (machine, machine_made, e2) = >>=-eq-some (create_system_machine a.machine s) _ e1 in
    let (pm, memory_made, e3) =
      >>=-eq-some (create_physical_memory a.structure_ok a.memory_ok a.bitmap_ok) _ e2 in
    let (sched, sched_made, e4) =
      >>=-eq-some
        (when a.scheduler_ok
          (create_scheduler_with_policy a.garbage s.quantum s.sched_policy s.sched_sync pq))
        _ e3 in
    let (loader, loader_made, e5) =
      >>=-eq-some (when a.timers_ok (create_loader a.loader_ok)) _ e4 in
    let fresh = create_physical_memory-IsFresh a.structure_ok a.memory_ok a.bitmap_ok memory_made in
    let (idle, fits, free) = system_machine-idle a.machine atoi args machine_made in
    let (v, empty, cap) =
      create_process_queue-IsValid a.queue_ok a.array_ok a.slots (pos_part s.ready_queue_size)
        (omega (arith, u.ready_queue_size)) queue_made in
    subst (Idle s) (some-injective _ _ e5) (record {
      machine = (idle, fits, threads_of_can_execute machine free);
      sched =
          create_scheduler_lem a.garbage s.quantum s.sched_policy s.sched_sync pq
            (when-some a.scheduler_ok _ sched_made);
      boot = empty-InOrder _ fresh.valid (omega (arith, fresh.kernel_free)) v empty;
      empty = sym empty;
    })

-- the running system, with the programs of a directory in its ready queue
loaded-Steady :
    (clk : ℤ) (s : Settings) (b : Started) (loaded : Boot)
    → Idle s b
    → s.sched_policy ≡ pos 0
    → InOrder loaded
    → Steady (runtime_of clk b loaded)
loaded-Steady clk s b loaded i policy order =
    let r = order.resident in
    let (idle, fits, threads) = i.machine in
    let queued = contents loaded.ready_queue in
    record {
      ready = record {
        policy = i.sched.0 ∙ ap pos_part policy;
        valid = r.queue;
        no_null =
            subst (λ l. Mem 0 (l ++ queued) → ⊥) (sym idle)
              (not-mem-listing loaded.ready_queue.current_size (entry loaded.ready_queue) 0
                r.exists);
      };
      room = record {
        valid = r.queue;
        room = omega (arith, ap length idle, r.queue.size_in);
        single = λ e. ground (arith, i.sched.0, policy, e);
      };
      fits = fits;
      threads = threads;
    }

loaded_processes :
    (clk : ℤ) {s : Settings} {b : Started} (loaded : Boot)
    → Idle s b
    → length (processes (runtime_of clk b loaded)) ≡ loaded.ready_queue.current_size
loaded_processes clk loaded i =
    ap (λ l. length (l ++ contents loaded.ready_queue)) i.machine.0
    ∙ length-listing loaded.ready_queue.current_size (entry loaded.ready_queue)

-- When the kernel has started, with any arguments that leave it round robin and any directory,
-- every program that it loaded is completed: after more rounds of the scheduler than there are
-- processes and ticks left to live in all, each round after one tick or more, no process is left
-- and as many are counted as completed as programs were loaded. malloc must return NULL or unused
-- memory, and the segments of the programs end below word 2 ^ 29.
pub boot_system-completes :
    (malloc : Heap → Ptr) (atoi : Line → ℤ) (args : List Line) (entries : List Entry)
    (a : Allocations) (heap : Heap) (clk : ℤ) {r : Runtime} {programs_loaded : ℕ} (ns : List ℕ)
    → IsMalloc malloc
    → AllSmall entries
    → (parse_arguments atoi args default_settings).sched_policy ≡ pos 0
    → boot_system malloc atoi args (some entries) a heap clk ≡ some (r, programs_loaded)
    → life r < length ns
    → (processes (run malloc ns r) ≡ [])
      × ((run malloc ns r).sched.total_completed ≡ programs_loaded)
unfolding boot_system load_programs
boot_system-completes malloc atoi args entries a heap clk {r} {programs_loaded} ns m small policy e
      enough =
    let s = parse_arguments atoi args default_settings in
    let (b, started, e') = >>=-eq-some (start_system a s heap) _ e in
    let i = start_system-Idle atoi args a heap started in
    let loaded = load_directory malloc entries b.boot in
    let order = (load_directory-FilledFrom malloc m entries b.boot small i.boot).order in
    let same = some-injective _ _ e' in
    let is_r : runtime_of clk b loaded ≡ r = ap (λ o. o.0) same in
    let count : loaded.programs_loaded ≡ programs_loaded = ap (λ o. o.1) same in
    let steady = loaded-Steady clk s b loaded i policy order in
    let (ended, total) =
      run-completes malloc ns steady (subst (λ r. life r < length ns) (sym is_r) enough) in
    subst
      (λ r.
        (processes (run malloc ns r) ≡ [])
        × ((run malloc ns r).sched.total_completed ≡ programs_loaded))
      is_r
      (
        ended,
        omega (
          arith,
          total,
          i.sched.1,
          loaded_processes clk loaded i,
          load_directory-counts malloc entries b.boot i.empty,
          count,
        ),
      )
