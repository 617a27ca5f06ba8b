-- ===== src/Kernel/Start.antt =====
-- What main of sys/kernel.c starts: the parts of the system, in its order, and the programs loaded into
-- the ready queue. Where a part cannot be created main returns 1.
pub mod Completes
pub mod Tests
use the_loc_os.Base.{ℕ, Bool, Option, none, some, List, pos_part, ℤ, ◌>>=◌, if◌then◌else◌}
use the_loc_os.Queue.{Ptr, ProcessQueue, create_process_queue}
use the_loc_os.Process.{Heap}
use the_loc_os.Memory.{create_physical_memory}
use the_loc_os.Machine.{Machine}
use the_loc_os.Machine.Create.{MachineMemory}
use the_loc_os.Scheduler.{Scheduler, create_scheduler_with_policy}
use the_loc_os.Clock.{Clock}
use the_loc_os.Runtime.{Runtime}
use the_loc_os.Loader.{create_loader}
use the_loc_os.Loader.Scan.{Line}
use the_loc_os.Kernel.{Boot, Entry, load_programs}
use the_loc_os.Kernel.Arguments.{Settings, default_settings, parse_arguments, create_system_machine}

-- whether the threads and the allocations succeed, and what fresh arrays hold
pub record Allocations : Type 0 where
  pub clock_ok : Bool
  pub queue_ok : Bool
  pub array_ok : Bool
  pub slots : ℕ → Ptr
  pub machine : MachineMemory
  pub structure_ok : Bool
  pub memory_ok : Bool
  pub bitmap_ok : Bool
  pub scheduler_ok : Bool
  pub garbage : ℕ → Ptr
  pub timers_ok : Bool
  pub loader_ok : Bool

pub record Started : Type 0 where
  pub machine : Machine
  pub sched : Scheduler
  pub boot : Boot

abbrev pub when {ℓ} : {A : Type ℓ} → Bool → Option A → Option A
when b m = if b then m else none

unfoldable pub start_system : Allocations → Settings → Heap → Option Started
start_system a s heap = when a.clock_ok (do
  pq ← create_process_queue a.queue_ok a.array_ok a.slots (pos_part s.ready_queue_size)
  machine ← create_system_machine a.machine s
  pm ← create_physical_memory a.structure_ok a.memory_ok a.bitmap_ok
  sched ←
      when a.scheduler_ok
        (create_scheduler_with_policy a.garbage s.quantum s.sched_policy s.sched_sync pq)
  loader ← when a.timers_ok (create_loader a.loader_ok)
  some (record {
    machine = machine;
    sched = sched;
    boot = record {
      loading = record { loader = loader; heap = heap; pm = pm };
      ready_queue = pq;
      programs_loaded = 0;
    };
  }))

-- The scheduler has the ready queue that the loader fills.
abbrev pub runtime_of : ℤ → Started → Boot → Runtime
runtime_of clk_counter b loaded = record {
  clock = record {
    clk_counter = clk_counter;
    machine = b.machine;
    shared = record { heap = loaded.loading.heap; pm = some loaded.loading.pm };
  };
  sched = record (b.sched) { ready_queue = loaded.ready_queue };
}

-- main up to the start of the scheduler, with the number of programs loaded
unfoldable pub boot_system :
    (malloc : Heap → Ptr) (atoi : Line → ℤ)
    → List Line
    → Option (List Entry)
    → Allocations
    → Heap
    → (clk_counter : ℤ) → Option (Runtime × ℕ)
boot_system malloc atoi args dir a heap clk_counter = do
  b ← start_system a (parse_arguments atoi args default_settings) heap
  let loaded = load_programs malloc dir b.boot
  some (runtime_of clk_counter b loaded, loaded.programs_loaded)
