-- ===== src/Clock/Tests.antt =====
-- The theorems on a tick of the clock, on two processes and on the first instruction of a program.
use the_loc_os.Base.{pos, some}
use the_loc_os.Machine.Tests.{heap, one_core, thread_of}
use the_loc_os.Machine.Cycle.Isa.{isa_step}
use the_loc_os.Machine.Cycle.Tests.{world, isa, world-Simulates, isa-StaysInSpace}
use the_loc_os.Clock.{Clock, tick_thread}
use the_loc_os.Clock.Tick.{Steps, tick_thread-Steps}

abbrev clock : Clock
clock = record {
  clk_counter = pos 0;
  machine = one_core 2;
  shared = record { heap = heap; pm = some (world.pm) };
}

tick_thread-Steps_example :
    Steps 0 1
      (isa_step isa)
      (tick_thread (thread_of 7) (record { heap = heap; pm = some (world.pm) }))
tick_thread-Steps_example = tick_thread-Steps world-Simulates isa-StaysInSpace.0
