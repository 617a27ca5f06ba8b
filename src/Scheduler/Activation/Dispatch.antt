-- ===== src/Scheduler/Activation/Dispatch.antt =====
-- The dispatch of round robin: it goes on until no process waits or no thread is free, and loses no
-- process.
use the_loc_os.Base.{
  ℕ, zero, suc, ◌<◌, ◌≡◌, ◌≢◌, ◌⊎◌, refl, ◌∙◌, arith, true, false, ◌&&◌, [], ltb, ◌==◌, Bool-cases,
  inl, inr,
}
use mathlib.Core.List.{Mem, perm_middle, mem-append_right, mem-cons_self}
use mathlib.Core.List.Perm
use the_loc_os.Queue.{Ptr}
use the_loc_os.Queue.Ring.{IsValid, advance, dequeue_process-advance, dequeue_process-IsValid}
use the_loc_os.Queue.Fifo.{contents, contents-advance}
use the_loc_os.Process.{Heap, modify}
use the_loc_os.Machine.{can_cpu_execute_process, assign_process_to_core}
use the_loc_os.Machine.Slots.{executing}
use the_loc_os.Machine.Assign.{Added-assign, assign_iff_can_execute}
use the_loc_os.Machine.Shape.{SameCpus, SameCpus-same, SameCpus-trans, SameCpus-assign}
use the_loc_os.Scheduler.{Scheduler, has_ready_processes}
use the_loc_os.Scheduler.Select.{select_next_process}
use the_loc_os.Scheduler.Preempt.{System}
use the_loc_os.Scheduler.Activation.{start, dispatch_one, dispatch}
use the_loc_os.Scheduler.Activation.Thread.{held, Conserves, Conserves-same}
use the_loc_os.Scheduler.Activation.Conserve.{Conserves-trans}

-- Round robin, with a valid ready queue and no NULL among the processes.
pub record Ready (s : System) : Type 0 where
  pub policy : s.sched.policy ≡ 0
  pub valid : IsValid s.sched.ready_queue
  pub no_null : Mem 0 (held (executing s.machine) s.sched) → ⊥

-- from one state of the system to another
abbrev pub Keeps : System → System → Type 0
Keeps s s' = Conserves (executing s.machine) s.sched (executing s'.machine) s'.sched

pub Ready-Keeps : {s s' : System} → Keeps s s' → Ready s → Ready s'
Ready-Keeps c r = record {
  policy = c.policy ∙ r.policy;
  valid = c.valid;
  no_null = λ m. r.no_null ((Perm.mem_iff c.kept).1 (mem-append_right c.gone m));
}

module _ (clk : ℕ) {s : System} (r : Ready s) (waits : s.sched.ready_queue.current_size ≢ 0) where
  abbrev next : Ptr
  next = s.sched.ready_queue.queue s.sched.ready_queue.front

  abbrev started : Heap
  started =
      modify next (start (record (s.sched) { ready_queue = advance s.sched.ready_queue }) clk)
        s.heap

  abbrev assigned : System
  assigned = record {
    sched = record (s.sched) { ready_queue = advance s.sched.ready_queue };
    machine = (assign_process_to_core s.machine next started).1;
    heap = started;
  }

  next_not_null : next ≢ 0
  next_not_null e = r.no_null (
      mem-append_right (executing s.machine) (rw (contents-advance r.valid waits, e) mem-cons_self))

  select-next :
      select_next_process s.heap s.sched
      ≡ (next, record (s.sched) { ready_queue = advance s.sched.ready_queue })
  unfolding select_next_process
  select-next = rw (r.policy, dequeue_process-advance s.sched.ready_queue waits) refl

  module _ (free : can_cpu_execute_process s.machine ≡ true) where
    dispatch_one-assigned : dispatch_one clk s ≡ (true, assigned)
    unfolding dispatch_one
    dispatch_one-assigned =
        let alive : (next == 0) ≡ false = ground (arith, next_not_null) in
        let found = assign_iff_can_execute s.machine next started next_not_null ∙ free in
        rw (select-next, alive, found) refl

    assigned-Keeps : Keeps s assigned
    assigned-Keeps =
        let v = dequeue_process-IsValid r.valid in
        record {
          gone = [];
          kept = rw (contents-advance r.valid waits) (
              Perm.trans
                (perm_middle (executing s.machine) (contents (advance s.sched.ready_queue)))
                (Perm.symm (
                  Perm.append_right (contents (advance s.sched.ready_queue))
                    (Added-assign s.machine next started next_not_null free))));
          counted = omega arith;
          valid = rw (dequeue_process-advance s.sched.ready_queue waits) at v;
          capacity = refl;
          policy = refl;
        }

    assigned-SameCpus : SameCpus s.machine.cpus assigned.machine.cpus
    assigned-SameCpus = SameCpus-assign s.machine next started next_not_null free

-- The dispatch is over: it has lost no process and no thread, and either none waits or no thread is
-- free.
pub record Dispatched (s s' : System) : Type 0 where
  pub kept : Keeps s s'
  pub shape : SameCpus s.machine.cpus s'.machine.cpus
  pub idle : (s'.sched.ready_queue.current_size ≡ 0) ⊎ (can_cpu_execute_process s'.machine ≡ false)

ready_round_robin :
    (s : Scheduler) → s.policy ≡ 0 → has_ready_processes s ≡ ltb 0 s.ready_queue.current_size
unfolding has_ready_processes
ready_round_robin s e = rw e refl

stops :
    {s : System}
    → Ready s
    → (has_ready_processes s.sched && can_cpu_execute_process s.machine) ≡ false
    → Dispatched s s
stops {s} r e = record {
  kept = Conserves-same r.valid;
  shape = SameCpus-same s.machine.cpus;
  idle = ground (arith, ready_round_robin s.sched r.policy);
}

goes_on :
    {s : System}
    → Ready s
    → (has_ready_processes s.sched && can_cpu_execute_process s.machine) ≡ true
    → (s.sched.ready_queue.current_size ≢ 0) × (can_cpu_execute_process s.machine ≡ true)
goes_on {s} r e = ground (arith, ready_round_robin s.sched r.policy)

pub dispatch-Dispatched :
    (n clk : ℕ) {s : System}
    → Ready s
    → s.sched.ready_queue.current_size < n
    → Dispatched s (dispatch n clk s)
unfolding dispatch
dispatch-Dispatched zero clk r enough = absurd (omega arith)
dispatch-Dispatched (suc n) clk {s} r enough =
    elim (Bool-cases (has_ready_processes s.sched && can_cpu_execute_process s.machine)) [
      | inl e ↦
          let (waits, free) = goes_on r e in
          let one = assigned-Keeps clk r waits free in
          let rest = dispatch-Dispatched n clk (Ready-Keeps one r) (omega arith) in
          rw (e, dispatch_one-assigned clk r waits free)
            (record {
              kept = Conserves-trans one rest.kept;
              shape = SameCpus-trans (assigned-SameCpus clk r waits free) rest.shape;
              idle = rest.idle;
            })
      | inr e ↦ rw e (stops r e)
    ]
