-- ===== src/Scheduler/Preempt/Tests.antt =====
-- A preemption and a transfer, on a full core: the processes 7 and 8 run with the priorities 7 and 8,
-- and the process 30 arrives with the priority 0.
use the_loc_os.Base.{◌+◌, ◌≡◌, refl, arith, ◌==◌, if◌then◌else◌, pos, true, [], ◌∷◌, some, none}
use the_loc_os.Process.{Heap, new_pcb}
use the_loc_os.Machine.{Machine, Core}
use the_loc_os.Machine.Slots.{executing}
use the_loc_os.Machine.Tests.{thread_of}
use the_loc_os.Scheduler.{
  Scheduler, create_scheduler_with_policy, create_scheduler, queue_capacity,
  count_processes_in_priority_queues, count_queues, has_ready_processes, any_queue,
}
use the_loc_os.Scheduler.Preempt.{
  System, get_lowest_priority_executing, lowest_cpu, lowest_core, lowest_thread, core_at, core_of,
  change_core, change_cpu, drop_copy, save_preempted, preempt_at, preempt_lower_priority_processes,
}
use the_loc_os.Scheduler.Preempt.Victim.{Preempted, preempt_at-Preempted}

abbrev core : Core
core = record {
  num_kernel_threads = 2;
  current_pcb_count = 2;
  pcbs = λ k. record (new_pcb (pos (k + 7)) (λ r. 0)) { priority = pos (k + 7) };
  hw_threads = λ k. thread_of (k + 7);
}

abbrev machine : Machine
machine = record { cpus = record { cores = core ∷ [] } ∷ [] }

-- queue 20, of priority 0, holds one process
abbrev scheduler : Scheduler
scheduler = record {
  quantum = pos 2;
  policy = 2;
  sync_mode = 0;
  ready_queue = record {
    queue = λ i. 30;
    front = 0;
    rear = pos 0;
    max_capacity = 80;
    current_size = 1;
  };
  priority_queues = some (λ i. record {
    queue = λ j. 20;
    front = 0;
    rear = pos 0;
    max_capacity = 2;
    current_size = if i == 20 then 1 else 0;
  });
  running = true;
  total_completed = 0;
}

abbrev heap : Heap
heap = record { cell = λ p. new_pcb (pos p) (λ r. 0); live = λ p. true }

abbrev pub full_system : System
full_system = record { sched = scheduler; machine = machine; heap = heap }

capacity : queue_capacity 80 ≡ 2
unfolding queue_capacity
capacity = refl

bad_policy :
    create_scheduler_with_policy (λ i. 0) (pos 2) (pos 3) (pos 0) scheduler.ready_queue ≡ none
unfolding create_scheduler_with_policy
bad_policy = refl

bad_quantum : create_scheduler (λ i. 0) (pos 0) scheduler.ready_queue ≡ none
unfolding create_scheduler create_scheduler_with_policy
bad_quantum = refl

one_waits : count_processes_in_priority_queues scheduler ≡ 1
unfolding count_processes_in_priority_queues count_queues
one_waits = refl

ready : has_ready_processes scheduler ≡ true
unfolding has_ready_processes any_queue
ready = refl

lowest :
    get_lowest_priority_executing machine
    ≡ (pos 8, some (record { cpu_idx = 0; core_idx = 0; thread_idx = 1 }))
unfolding get_lowest_priority_executing lowest_cpu lowest_core lowest_thread
lowest = refl

preempted : executing (preempt_lower_priority_processes (λ h. 100) 30 full_system).machine ≡ 7 ∷ []
unfolding preempt_lower_priority_processes get_lowest_priority_executing lowest_cpu lowest_core
    lowest_thread core_of core_at change_cpu change_core drop_copy save_preempted
preempted = refl

core_there : core_of full_system.machine.cpus 0 0 ≡ some core
unfolding core_of core_at
core_there = refl

-- the victim on thread 0 stays there, thread 1 is counted no more
preempt_at-Preempted_example :
    Preempted full_system
      (preempt_at
        (λ h. 100)
        full_system
        (some (record { cpu_idx = 0; core_idx = 0; thread_idx = 0 })))
      (record { cpu_idx = 0; core_idx = 0; thread_idx = 0 })
      core
preempt_at-Preempted_example =
    preempt_at-Preempted (λ h. 100) full_system
      (record { cpu_idx = 0; core_idx = 0; thread_idx = 0 }) core core_there (omega arith)
