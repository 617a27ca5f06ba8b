-- ===== src/Scheduler/Activation/Inspect.antt =====
-- The inspection of the threads of a whole machine loses no process, where the ready queue is the
-- only queue (round robin and BFS) and has room for all.
use the_loc_os.Base.{
  ℕ, zero, suc, ◌≤◌, ◌<◌, ◌≡◌, refl, arith, false, List, [], ◌∷◌, ◌==◌, Bool-cases, inl, inr,
  length-Perm, pos, ◌+ℤ◌,
}
use mathlib.Core.List.{append_assoc, perm_append_singleton}
use mathlib.Core.List.Perm
use the_loc_os.Queue.{Ptr}
use the_loc_os.Queue.Ring.{put, put-IsValid, enqueue_process-put}
use the_loc_os.Queue.Fifo.{contents, contents-put}
use the_loc_os.Process.{Heap, modify}
use the_loc_os.Machine.{Core, Cpu}
use the_loc_os.Machine.Slots.{slots, slots_cores, slots_cpus, executing, Added}
use the_loc_os.Scheduler.{Scheduler, enqueue_to_scheduler}
use the_loc_os.Scheduler.Preempt.{System}
use the_loc_os.Scheduler.Activation.{
  Round, remove_thread, complete, expire, check_process, check_thread, check_threads, check_cores,
  check_cpus, check_machine, is_complete, quantum_expired,
}
use the_loc_os.Scheduler.Activation.Thread.{
  Conserves, Conserves-same, slots-remove_thread, count-remove_thread,
}
use the_loc_os.Scheduler.Activation.Conserve.{
  Room, Room-Conserves, Room-left, Conserves-trans, Conserves-both,
}

-- one thread of a core, inspected
record Inspected (k : ℕ) (r r' : Round) : Type 0 where
  conserved : Conserves (slots r.core) r.sched (slots r'.core) r'.sched
  left : k ≤ r'.core.current_pcb_count

enqueue_to_ready :
    (sched : Scheduler) (p : Ptr) (h : Heap) {running : List Ptr}
    → Room (p ∷ running) sched
    → (enqueue_to_scheduler sched p h).1 ≡ record sched { ready_queue = put sched.ready_queue p }
unfolding enqueue_to_scheduler
enqueue_to_ready sched p h r =
    let other : (sched.policy == 2) ≡ false = ground (arith, r.single) in
    rw (other, enqueue_process-put r.valid p (omega (arith, r.room))) refl

module _ (clk k : ℕ) (r : Round) (lt : k < r.core.current_pcb_count)
    (room : Room (slots r.core) r.sched) where
  abbrev here : Ptr
  here = (r.core.hw_threads k).pcb

  removed : Added here (slots (remove_thread k r.core)) (slots r.core)
  removed = slots-remove_thread k r.core lt

  remains : k ≤ (remove_thread k r.core).current_pcb_count
  remains = omega (arith, count-remove_thread k r.core)

  complete-Inspected : (h : Heap) → Inspected k r (complete k here (record r { heap = h }))
  unfolding complete
  complete-Inspected h = record {
    conserved = record {
      gone = here ∷ [];
      kept = Perm.append_right (contents r.sched.ready_queue) removed;
      counted = omega arith;
      valid = room.valid;
      capacity = refl;
      policy = refl;
    };
    left = remains;
  }

  Room-removed : Room (here ∷ slots (remove_thread k r.core)) r.sched
  Room-removed = record {
    valid = room.valid;
    room = omega (arith, room.room, length-Perm removed);
    single = room.single;
  }

  put-Conserves :
      Conserves
        (slots r.core)
        r.sched
        (slots (remove_thread k r.core))
        (record (r.sched) { ready_queue = put r.sched.ready_queue here })
  put-Conserves =
      let free : r.sched.ready_queue.current_size < r.sched.ready_queue.max_capacity =
        omega (arith, Room-removed.room) in
      record {
        gone = [];
        kept =
            rw (contents-put room.valid here free, ← append_assoc)
              (Perm.trans (Perm.append_right (contents r.sched.ready_queue) removed)
                (Perm.symm (perm_append_singleton here _)));
        counted = omega arith;
        valid = put-IsValid room.valid here free;
        capacity = refl;
        policy = refl;
      }

  expire-Inspected : (h : Heap) → Inspected k r (expire clk k here (record r { heap = h }))
  unfolding expire
  expire-Inspected h = record {
    conserved = rw (enqueue_to_ready r.sched here _ Room-removed) put-Conserves;
    left = remains;
  }

  unchanged-Inspected : (h : Heap) → Inspected k r (record r { heap = h })
  unchanged-Inspected h = record { conserved = Conserves-same room.valid; left = omega arith }

  check_process-Inspected : Inspected k r (check_process clk k here r)
  unfolding check_process
  check_process-Inspected =
      let h = modify here (λ p. record p { quantum_counter = p.quantum_counter +ℤ pos 1 }) r.heap in
      elim (Bool-cases (is_complete (h.cell here))) [
        | inl e ↦ rw e (complete-Inspected h)
        | inr e ↦ rw e (elim (Bool-cases (quantum_expired r.sched (h.cell here))) [
          | inl q ↦ rw q (expire-Inspected h)
          | inr q ↦ rw q (unchanged-Inspected h)
        ])
      ]

  check_thread-Inspected : Inspected k r (check_thread clk k r)
  unfolding check_thread
  check_thread-Inspected = elim (Bool-cases (here == 0)) [
    | inl e ↦ rw e (unchanged-Inspected r.heap)
    | inr e ↦ rw e check_process-Inspected
  ]

check_threads-Conserves :
    (clk n : ℕ) (r : Round)
    → n ≤ r.core.current_pcb_count
    → Room (slots r.core) r.sched
    → Conserves
        (slots r.core)
        r.sched
        (slots (check_threads clk n r).core)
        (check_threads clk n r).sched
unfolding check_threads
check_threads-Conserves clk zero r le room = Conserves-same room.valid
check_threads-Conserves clk (suc k) r le room =
    let one = check_thread-Inspected clk k r (omega arith) room in
    Conserves-trans one.conserved (
      check_threads-Conserves clk k (check_thread clk k r) one.left
        (Room-Conserves one.conserved room))

check_cores-Conserves :
    (clk : ℕ) (cores : List Core) (s : Scheduler) (h : Heap)
    → Room (slots_cores cores) s
    → let (cores', s', h') = check_cores clk cores s h in
      Conserves (slots_cores cores) s (slots_cores cores') s'
unfolding check_cores
check_cores-Conserves clk [] s h room = Conserves-same room.valid
check_cores-Conserves clk (core ∷ cores) s h room =
    Conserves-both
      (check_threads-Conserves clk core.current_pcb_count
        (record { sched = s; heap = h; core = core }) (omega arith)
        (Room-left (slots_cores cores) room))
      (check_cores-Conserves clk cores _ _) room

check_cpus-Conserves :
    (clk : ℕ) (cpus : List Cpu) (s : Scheduler) (h : Heap)
    → Room (slots_cpus cpus) s
    → let (cpus', s', h') = check_cpus clk cpus s h in
      Conserves (slots_cpus cpus) s (slots_cpus cpus') s'
unfolding check_cpus
check_cpus-Conserves clk [] s h room = Conserves-same room.valid
check_cpus-Conserves clk (cpu ∷ cpus) s h room =
    Conserves-both (check_cores-Conserves clk cpu.cores s h (Room-left (slots_cpus cpus) room))
      (check_cpus-Conserves clk cpus _ _) room

-- Under round robin and BFS, where the ready queue is valid and has room for all processes of the
-- machine, the inspection of all threads loses none: each process is still on a thread or in the
-- ready queue, or has left and is counted as completed.
pub check_machine-Conserves :
    (clk : ℕ) (s : System)
    → Room (executing s.machine) s.sched
    → Conserves
        (executing s.machine)
        s.sched
        (executing (check_machine clk s).machine)
        (check_machine clk s).sched
unfolding check_machine
check_machine-Conserves clk s room = check_cpus-Conserves clk s.machine.cpus s.sched s.heap room
