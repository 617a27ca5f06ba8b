-- ===== src/Runtime/Tests.antt =====
-- The running system with processes 7 and 8 on one core of two threads and 3 and 4 in the ready
-- queue, each with at most five ticks to live.
use the_loc_os.Base.{◌≡◌, refl, arith, none, [], pos, replicate}
use the_loc_os.Scheduler.Activation.Tests.{system, system-Ready, system-Room}
use the_loc_os.Runtime.{Runtime, here, next, ticks, schedules, clock_turn, scheduler_turn, run}
use the_loc_os.Runtime.Life.{processes, life}
use the_loc_os.Runtime.Conserve.{Steady, KeepsAll, Reach-KeepsAll}
use the_loc_os.Runtime.Completes.{run-completes}

abbrev runtime : Runtime
runtime = record {
  clock = record {
    clk_counter = pos 8;
    machine = system.machine;
    shared = record { heap = system.heap; pm = none };
  };
  sched = system.sched;
}

runtime-Steady : Steady runtime
runtime-Steady = record {
  ready = system-Ready;
  room = system-Room;
  fits = omega arith;
  threads = omega arith;
}

life_of_runtime : life runtime ≡ 19
life_of_runtime = refl

Reach-KeepsAll_example :
    KeepsAll runtime (scheduler_turn (λ h. 100) (clock_turn (clock_turn runtime)))
Reach-KeepsAll_example =
    Reach-KeepsAll (λ h. 100) runtime-Steady
      (next (next (next here (ticks runtime)) (ticks (clock_turn runtime)))
        (schedules (clock_turn (clock_turn runtime))))

run-completes_example :
    let r = run (λ h. 100) (replicate 20 0) runtime in
    (processes r ≡ []) × (r.sched.total_completed ≡ 4)
run-completes_example = run-completes (λ h. 100) (replicate 20 0) runtime-Steady (omega arith)
