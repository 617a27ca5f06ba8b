-- ===== src/Scheduler/Activation/RoundRobin.antt =====
-- One round of the scheduler under round robin.
use the_loc_os.Base.{ℕ, ◌+◌, ◌<◌, ◌≡◌, refl, ap, ◌∙◌, Has, false, ◌==◌, arith}
use the_loc_os.Queue.{Ptr}
use the_loc_os.Machine.Slots.{executing}
use the_loc_os.Process.{Heap}
use the_loc_os.Scheduler.Preempt.{System}
use the_loc_os.Scheduler.Activation.{
  check_machine, transfer_all, activation, waiting_count, dispatch,
}
use the_loc_os.Scheduler.Activation.Conserve.{Room, Conserves-trans}
use the_loc_os.Scheduler.Activation.Inspect.{check_machine-Conserves}
use the_loc_os.Scheduler.Activation.Completed.{
  Expired, SameCpus-check_machine, check_machine-completes,
}
use the_loc_os.Scheduler.Activation.Ttl.{SameTtl, check_machine-SameTtl, dispatch-SameTtl}
use the_loc_os.Machine.Shape.{SameCpus-trans}
use the_loc_os.Scheduler.Activation.Dispatch.{Ready, Ready-Keeps, Dispatched, dispatch-Dispatched}

transfer_all-eq :
    (malloc : Heap → Ptr) (s : System) → s.sched.policy ≡ 0 → transfer_all malloc s ≡ s
transfer_all-eq malloc s e =
    let other : (s.sched.policy == 2) ≡ false = ground arith in rw other refl

pub activation-eq :
    (malloc : Heap → Ptr) (clk : ℕ) (s : System)
    → (check_machine clk s).sched.policy ≡ 0
    → activation malloc clk s
      ≡ dispatch (waiting_count (check_machine clk s).sched + 1) clk (check_machine clk s)
unfolding activation
activation-eq malloc clk s e =
    ap (λ (s' : System). dispatch (waiting_count s'.sched + 1) clk s')
      (transfer_all-eq malloc (check_machine clk s) e)

-- One round under round robin loses no process: each is on a thread or in the ready queue
-- afterwards, or has left and is counted as completed. And it leaves no process waiting while some
-- core has a free thread. The ready queue must be valid and have room for all processes of the
-- machine, and no process may be NULL.
pub activation-Dispatched :
    (malloc : Heap → Ptr) (clk : ℕ) {s : System}
    → Ready s
    → Room (executing s.machine) s.sched
    → Dispatched s (activation malloc clk s)
activation-Dispatched malloc clk {s} r room =
    let checked = check_machine-Conserves clk s room in
    let r' : Ready (check_machine clk s) = Ready-Keeps checked r in
    let rest =
      dispatch-Dispatched (waiting_count (check_machine clk s).sched + 1) clk r' (omega arith) in
    rw (activation-eq malloc clk s r'.policy) (record {
      kept = Conserves-trans checked rest.kept;
      shape = SameCpus-trans (SameCpus-check_machine clk s) rest.shape;
      idle = rest.idle;
    })

-- a process with no time left is counted as completed
pub activation-completes :
    (malloc : Heap → Ptr) (clk : ℕ) {s : System}
    → Ready s
    → Room (executing s.machine) s.sched
    → Has (Expired s.heap) (executing s.machine)
    → s.sched.total_completed < (activation malloc clk s).sched.total_completed
activation-completes malloc clk {s} r room e =
    let r' : Ready (check_machine clk s) = Ready-Keeps (check_machine-Conserves clk s room) r in
    let rest =
      dispatch-Dispatched (waiting_count (check_machine clk s).sched + 1) clk r' (omega arith) in
    rw (activation-eq malloc clk s r'.policy)
      (omega (arith, check_machine-completes clk s e, rest.kept.counted))

pub activation-SameTtl :
    (malloc : Heap → Ptr) (clk : ℕ) {s : System}
    → Ready s
    → Room (executing s.machine) s.sched
    → SameTtl s.heap (activation malloc clk s).heap
activation-SameTtl malloc clk {s} r room p =
    let r' : Ready (check_machine clk s) = Ready-Keeps (check_machine-Conserves clk s room) r in
    rw (activation-eq malloc clk s r'.policy) (
      dispatch-SameTtl (waiting_count (check_machine clk s).sched + 1) clk (check_machine clk s) p
      ∙ check_machine-SameTtl clk s p)
