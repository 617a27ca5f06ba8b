-- ===== src/Scheduler/Activation/Tests.antt =====
-- The theorems on one round of the scheduler: the processes 7 and 8 run, of which 8 has no ticks left
-- and the quantum of 7 is over, and 3 and 4 wait.
use the_loc_os.Base.{
  rem_ℤ, quot_ℤ, ◌+ℤ◌, ◌-ℤ◌, ◌*ℤ◌, ◌+◌, ◌<◌, refl, arith, true, ◌==◌, if◌then◌else◌, pos, List, [],
  ◌∷◌, none, inl, inr,
}
use mathlib.Core.Logic.{∥∥₁_elim}
use mathlib.Core.HLevel.{⊥_prop}
use mathlib.Core.List.{Mem, not-mem-nil, eq-or-mem_of_mem-cons}
use the_loc_os.Queue.{Ptr, enqueue_process, dequeue_process}
use the_loc_os.Process.{new_pcb}
use the_loc_os.Machine.{load_thread, can_cpu_execute_process}
use the_loc_os.Machine.Slots.{executing}
use the_loc_os.Machine.Tests.{one_core, thread_of}
use the_loc_os.Scheduler.Preempt.{
  System, get_lowest_priority_executing, lowest_cpu, lowest_core, lowest_thread, core_at, core_of,
  change_core, change_cpu, drop_copy, save_preempted, preempt_lower_priority_processes,
}
use the_loc_os.Scheduler.Preempt.Tests.{full_system}
use the_loc_os.Scheduler.Activation.{
  transfer, transfer_one, is_complete, quantum_expired, deadline_from, check_machine, activation,
  start, set_deadline, save_context,
}
use the_loc_os.Scheduler.Activation.Transfer.{transfer-fuel}
use the_loc_os.Scheduler.Activation.Thread.{Conserves}
use the_loc_os.Scheduler.Activation.Conserve.{Room}
use the_loc_os.Scheduler.Activation.Inspect.{check_machine-Conserves}
use the_loc_os.Scheduler.Activation.Dispatch.{Ready, Dispatched}
use the_loc_os.Scheduler.Activation.RoundRobin.{activation-Dispatched}
use the_loc_os.Scheduler.Activation.Saved.{Resumes, load_thread-save_context}
use the_loc_os.Base.{◌≡◌}
use the_loc_os.Base.{false}
use the_loc_os.Scheduler.{enqueue_to_scheduler}
use the_loc_os.Scheduler.{count_processes_in_priority_queues}
use the_loc_os.Scheduler.{count_queues}
use the_loc_os.Process.{create_pcb}

abbrev pub system : System
system = record {
  sched = record {
    quantum = pos 2;
    policy = 0;
    sync_mode = 0;
    ready_queue = record {
      queue = λ i. i + 3;
      front = 0;
      rear = pos 1;
      max_capacity = 4;
      current_size = 2;
    };
    priority_queues = none;
    running = true;
    total_completed = 0;
  };
  machine = one_core 2;
  heap = record {
    cell = λ p. record (new_pcb (pos p) (λ r. p)) {
      ttl = if p == 8 then pos 0 else pos 5;
      quantum_counter = pos 1;
    };
    live = λ p. true;
  };
}

abbrev Positive : List Ptr → Type 0
Positive [] = Unit
Positive (p ∷ l) = (0 < p) × Positive l

no_null : (l : List Ptr) → Positive l → Mem 0 l → ⊥
no_null [] h m = not-mem-nil m
no_null (p ∷ l) h m =
    ∥∥₁_elim (eq-or-mem_of_mem-cons m) ⊥_prop
      (λ o. elim o [ inl e ↦ omega (arith, h.0) | inr m' ↦ no_null l h.1 m' ])

pub system-Ready : Ready system
system-Ready = record {
  policy = refl;
  valid = ground arith;
  no_null =
      no_null (7 ∷ 8 ∷ 3 ∷ 4 ∷ []) (omega arith, (omega arith, (omega arith, (omega arith, tt))));
}

pub system-Room : Room (executing system.machine) system.sched
system-Room = record { valid = ground arith; room = omega arith; single = omega arith }

check_machine-Conserves_example :
    Conserves
      (7 ∷ 8 ∷ [])
      system.sched
      (executing (check_machine 9 system).machine)
      (check_machine 9 system).sched
check_machine-Conserves_example = check_machine-Conserves 9 system system-Room

activation-Dispatched_example : Dispatched system (activation (λ h. 100) 9 system)
activation-Dispatched_example = activation-Dispatched (λ h. 100) 9 system-Ready system-Room

load_thread-save_context_example : Resumes (thread_of 7) (system.heap.cell 7) (
    load_thread (thread_of 0) 7 (
      start system.sched 12
        (set_deadline system.sched 9 (save_context (thread_of 7) (system.heap.cell 7)))))
load_thread-save_context_example =
    load_thread-save_context (thread_of 7) (thread_of 0) system.sched 9 12 7 (system.heap.cell 7)

-- the arrived process, the preempted one and the one that waited are in the priority queues
transferred :
    let s = transfer 1 (λ h. 100) full_system in
    (s.sched.ready_queue.current_size ≡ 0) × (count_processes_in_priority_queues s.sched ≡ 3)
unfolding transfer transfer_one preempt_lower_priority_processes get_lowest_priority_executing
    lowest_cpu lowest_core lowest_thread core_of core_at change_cpu change_core drop_copy
    save_preempted can_cpu_execute_process enqueue_to_scheduler enqueue_process dequeue_process
    create_pcb count_processes_in_priority_queues count_queues rem_ℤ ◌+ℤ◌ ◌-ℤ◌
transferred = (refl, refl)

-- a process with a TTL whose quantum of two ticks is over, and its next deadline
quantum_over :
    let p = record (system.heap.cell 7) { quantum_counter = pos 2; priority = pos 50 } in
    (is_complete p ≡ false)
    × (quantum_expired system.sched p ≡ true)
    × (deadline_from system.sched 9 p.priority ≡ pos 10)
unfolding is_complete quantum_expired deadline_from quot_ℤ ◌*ℤ◌ ◌+ℤ◌
quantum_over = (refl, refl, refl)

transfer-fuel_example : transfer 1 (λ h. 100) full_system ≡ transfer 5 (λ h. 100) full_system
transfer-fuel_example = transfer-fuel 1 5 (λ h. 100) full_system refl (omega arith) (omega arith)
