-- ===== src/Runtime.antt =====
-- The running system: the clock of sys/clock.c and the scheduler of sys/process.c, which take turns
-- under the mutex of the clock. A round of the scheduler follows on a tick (sys/process.c waits for
-- the clock or for a timer), on every tick or after several, as the threads are woken up.
pub mod Conserve
pub mod Life
pub mod Completes
pub mod Tests
use the_loc_os.Base.{ℕ, zero, suc, List, [], ◌∷◌, pos_part}
use the_loc_os.Queue.{Ptr}
use the_loc_os.Process.{Heap}
use the_loc_os.Scheduler.{Scheduler}
use the_loc_os.Scheduler.Preempt.{System}
use the_loc_os.Scheduler.Activation.{activation}
use the_loc_os.Clock.{Clock, tick}

pub record Runtime : Type 0 where
  pub clock : Clock
  pub sched : Scheduler

-- what the scheduler sees
abbrev pub system_of : Runtime → System
system_of r = record { sched = r.sched; machine = r.clock.machine; heap = r.clock.shared.heap }

abbrev pub clock_turn : Runtime → Runtime
clock_turn r = record r { clock = tick r.clock }

abbrev pub with_system : Runtime → System → Runtime
with_system r s = record {
  sched = s.sched;
  clock = record (r.clock) {
    machine = s.machine;
    shared = record (r.clock.shared) { heap = s.heap };
  };
}

abbrev pub scheduler_turn : (Heap → Ptr) → Runtime → Runtime
scheduler_turn malloc r =
    with_system r (activation malloc (pos_part r.clock.clk_counter) (system_of r))

-- one thread or the other takes the mutex
pub data Step (malloc : Heap → Ptr) : Runtime → Runtime → Type 0 where
  ticks : (r : Runtime) → Step malloc r (clock_turn r)
  schedules : (r : Runtime) → Step malloc r (scheduler_turn malloc r)

pub data Reach (malloc : Heap → Ptr) (r : Runtime) : Runtime → Type 0 where
  here : Reach malloc r r
  next : {s t : Runtime} → Reach malloc r s → Step malloc s t → Reach malloc r t

unfoldable pub clock_turns : ℕ → Runtime → Runtime
clock_turns zero r = r
clock_turns (suc n) r = clock_turns n (clock_turn r)

-- rounds of the scheduler, each after `n` + 1 ticks
unfoldable pub run : (Heap → Ptr) → List ℕ → Runtime → Runtime
run malloc [] r = r
run malloc (n ∷ ns) r = run malloc ns (scheduler_turn malloc (clock_turns (suc n) r))
