-- ===== src/Runtime/Conserve.antt =====
-- No interleaving of the clock and the scheduler loses a process.
use the_loc_os.Base.{◌<◌, sym, arith, pos_part}
use mathlib.Core.Path.{subst}
use the_loc_os.Queue.{Ptr}
use the_loc_os.Process.{Heap}
use the_loc_os.Machine.Slots.{executing, Fits}
use the_loc_os.Machine.Shape.{SameCpus, total_threads}
use the_loc_os.Scheduler.Activation.Thread.{Conserves, Conserves-same}
use the_loc_os.Scheduler.Activation.Conserve.{Room, Room-Conserves, Conserves-trans}
use the_loc_os.Scheduler.Activation.Dispatch.{Ready, Ready-Keeps}
use the_loc_os.Scheduler.Activation.RoundRobin.{activation-Dispatched}
use the_loc_os.Clock.Tick.{executing-tick}
use the_loc_os.Clock.Wane.{SameCpus-tick}
use the_loc_os.Runtime.{
  Runtime, system_of, clock_turn, scheduler_turn, Step, ticks, schedules, Reach, here, next,
}

-- Round robin on a machine with threads, no core of which is over its capacity, with room for all
-- processes in the ready queue.
pub record Steady (r : Runtime) : Type 0 where
  pub ready : Ready (system_of r)
  pub room : Room (executing r.clock.machine) r.sched
  pub fits : Fits r.clock.machine
  pub threads : 0 < total_threads r.clock.machine

-- from one state to another, no process is lost
abbrev pub KeepsAll : Runtime → Runtime → Type 0
KeepsAll r r' = Conserves (executing r.clock.machine) r.sched (executing r'.clock.machine) r'.sched

Steady-KeepsAll :
    {r r' : Runtime}
    → KeepsAll r r'
    → SameCpus r.clock.machine.cpus r'.clock.machine.cpus
    → Steady r
    → Steady r'
Steady-KeepsAll {r} {r'} c shape s = record {
  ready = Ready-Keeps {s = system_of r} {s' = system_of r'} c s.ready;
  room = Room-Conserves c s.room;
  fits = shape.fits s.fits;
  threads = omega (arith, shape.threads, s.threads);
}

clock_turn-KeepsAll : {r : Runtime} → Steady r → KeepsAll r (clock_turn r)
clock_turn-KeepsAll {r} s =
    subst (λ l. Conserves (executing r.clock.machine) r.sched l r.sched)
      (sym (executing-tick r.clock)) (Conserves-same s.ready.valid)

pub clock_turn-Steady : {r : Runtime} → Steady r → Steady (clock_turn r)
clock_turn-Steady {r} s =
    Steady-KeepsAll {r = r} {r' = clock_turn r} (clock_turn-KeepsAll s) (SameCpus-tick r.clock) s

module _ (malloc : Heap → Ptr) where
  pub scheduler_turn-Steady : {r : Runtime} → Steady r → Steady (scheduler_turn malloc r)
  scheduler_turn-Steady {r} s =
      let d = activation-Dispatched malloc (pos_part r.clock.clk_counter) s.ready s.room in
      Steady-KeepsAll {r = r} {r' = scheduler_turn malloc r} d.kept d.shape s

  Step-Steady : {r r' : Runtime} → Step malloc r r' → Steady r → Steady r'
  Step-Steady (ticks r) s = clock_turn-Steady s
  Step-Steady (schedules r) s = scheduler_turn-Steady s

  Step-KeepsAll : {r r' : Runtime} → Step malloc r r' → Steady r → KeepsAll r r'
  Step-KeepsAll (ticks r) s = clock_turn-KeepsAll s
  Step-KeepsAll (schedules r) s =
      (activation-Dispatched malloc (pos_part r.clock.clk_counter) s.ready s.room).kept

  pub Reach-Steady : {r r' : Runtime} → Steady r → Reach malloc r r' → Steady r'
  Reach-Steady s here = s
  Reach-Steady s (next p st) = Step-Steady st (Reach-Steady s p)

  -- However the ticks of the clock and the rounds of the scheduler follow on one another, under
  -- round robin no process is lost: each is on a thread or in the ready queue, or has left and is
  -- counted as completed. The ready queue must be valid and have room for all, the machine must
  -- have a thread and no core over its capacity, and no process may be NULL.
  pub Reach-KeepsAll : {r r' : Runtime} → Steady r → Reach malloc r r' → KeepsAll r r'
  Reach-KeepsAll s here = Conserves-same s.ready.valid
  Reach-KeepsAll s (next p st) =
      Conserves-trans (Reach-KeepsAll s p) (Step-KeepsAll st (Reach-Steady s p))
