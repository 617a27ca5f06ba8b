-- ===== src/Kernel/Start/Tests.antt =====
-- The kernel started with one CPU of one core of two threads, and a directory with a program in it.
use the_loc_os.Base.{
  ℕ, zero, suc, ◌≡◌, refl, arith, true, false, none, some, List, [], ◌∷◌, length, replicate, pos,
  negsuc,
}
use the_loc_os.Queue.{ProcessQueue, create_process_queue}
use the_loc_os.Memory.{create_physical_memory, boot_memory, kernel_bitmap, kernel_frames}
use the_loc_os.Machine.Create.{create_machine, create_cpus, create_cores, create_core}
use the_loc_os.Machine.Tests.{memory, idle_machine}
use the_loc_os.Scheduler.{create_scheduler_with_policy}
use the_loc_os.Runtime.{Runtime, run}
use the_loc_os.Runtime.Life.{processes, life}
use the_loc_os.Loader.{create_loader}
use the_loc_os.Loader.Tests.{state}
use the_loc_os.Kernel.{Boot, load_directory, load_programs, same_text}
use the_loc_os.Kernel.Arguments.{default_settings, parse_arguments, flag_of, set_flag}
use the_loc_os.Kernel.Arguments.Tests.{atoi, arguments}
use the_loc_os.Kernel.Tests.{
  program_entry, other_entry, two_cells, two_cells-IsMalloc, entries-AllSmall,
}
use the_loc_os.Kernel.Start.{Allocations, Started, start_system, runtime_of, boot_system}
use the_loc_os.Kernel.Start.Completes.{boot_system-completes}

abbrev empty_queue : ProcessQueue
empty_queue = record {
  queue = λ i. 0;
  front = 0;
  rear = negsuc 0;
  max_capacity = 100;
  current_size = 0;
}

abbrev allocations : Allocations
allocations = record {
  clock_ok = true;
  queue_ok = true;
  array_ok = true;
  slots = λ i. 0;
  machine = memory;
  structure_ok = true;
  memory_ok = true;
  bitmap_ok = true;
  scheduler_ok = true;
  garbage = λ i. 0;
  timers_ok = true;
  loader_ok = true;
}

abbrev started : Started
started = record {
  machine = idle_machine;
  sched = record {
    quantum = pos 5;
    policy = 0;
    sync_mode = 0;
    ready_queue = empty_queue;
    priority_queues = none;
    running = false;
    total_completed = 0;
  };
  boot = record {
    loading = record {
      loader = record { next_pid = pos 1; total_loaded = pos 0 };
      heap = state.heap;
      pm = boot_memory (kernel_bitmap kernel_frames);
    };
    ready_queue = empty_queue;
    programs_loaded = 0;
  };
}

starts :
    start_system allocations (parse_arguments atoi arguments default_settings) state.heap
    ≡ some started
unfolding start_system parse_arguments flag_of same_text set_flag create_machine create_cpus
    create_cores create_core create_process_queue create_physical_memory
    create_scheduler_with_policy create_loader
starts = refl

abbrev loaded : Boot
loaded = load_directory two_cells (program_entry ∷ other_entry ∷ []) started.boot

abbrev runtime : Runtime
runtime = runtime_of (pos 0) started loaded

boots :
    boot_system two_cells atoi arguments
      (some (program_entry ∷ other_entry ∷ []))
      allocations
      state.heap
      (pos 0)
    ≡ some (runtime, loaded.programs_loaded)
unfolding boot_system load_programs
boots = rw starts refl

policy : (parse_arguments atoi arguments default_settings).sched_policy ≡ pos 0
unfolding parse_arguments flag_of same_text set_flag
policy = refl

-- a round after every tick, one more than the ticks and processes that there are
abbrev rounds : List ℕ
rounds = replicate (suc (life runtime)) 0

length-replicate : (n : ℕ) → length (replicate {A = ℕ} n 0) ≡ n
length-replicate zero = refl
length-replicate (suc n) = omega (arith, length-replicate n)

boot_system-completes_example :
    (processes (run two_cells rounds runtime) ≡ [])
    × ((run two_cells rounds runtime).sched.total_completed ≡ loaded.programs_loaded)
boot_system-completes_example =
    boot_system-completes two_cells atoi arguments (program_entry ∷ other_entry ∷ []) allocations
      state.heap (pos 0) rounds two_cells-IsMalloc entries-AllSmall policy boots
      (omega (arith, length-replicate (suc (life runtime))))
