-- ===== src/Generator/Tests.antt =====
-- The process generator on a ready queue for three processes, with a process of pid 7 at address 5.
use the_loc_os.Base.{◌==◌, ◌≡◌, refl, arith, true, false, none, some, pos, negsuc, ◌+ℤ◌, ◌-ℤ◌}
use the_loc_os.Queue.{ProcessQueue, enqueue_process}
use the_loc_os.Queue.Ring
use the_loc_os.Process.{new_pcb, create_pcb, set_pcb_ttl, destroy_pcb}
use the_loc_os.Machine.{count_executing_processes, count_cpus, count_cores}
use the_loc_os.Machine.Tests.{one_core}
use the_loc_os.Scheduler.{count_processes_in_priority_queues, count_queues}
use the_loc_os.Scheduler.Preempt.Tests.{full_system}
use the_loc_os.Generator.{
  ProcessGenerator, Generating, create_process_generator, random_between, make_pending,
  offer_pending, generator_round, end_generator,
}
use the_loc_os.Generator.Round.{
  Bounded, Produced, IsConfigured, generator_round-Bounded, generator_round-Produced,
}

abbrev settings : ProcessGenerator
settings = record {
  min_interval = pos 3;
  max_interval = pos 6;
  min_ttl = pos 10;
  max_ttl = pos 20;
  max_processes = pos 2;
  running = true;
  next_pid = pos 7;
  total_generated = pos 0;
}

-- one process waits, at address 9
abbrev queue : ProcessQueue
queue = record { queue = λ i. 9; front = 0; rear = pos 0; max_capacity = 3; current_size = 1 }

abbrev first_round : Generating
first_round = record {
  pg = settings;
  next_generation_tick = pos 4;
  pending_pcb = 0;
  heap = record { cell = λ p. new_pcb (pos 1) (λ r. 0); live = λ p. p == 9 };
  ready_queue = queue;
}

abbrev second_round : Generating
second_round = generator_round (λ h. 5) 26 3 9 none none (pos 4) first_round

settings-IsConfigured : IsConfigured settings
settings-IsConfigured = ground arith

queue-IsValid : Ring.IsValid queue
queue-IsValid = ground arith

refused : create_process_generator true (pos 3) (pos 2) (pos 10) (pos 20) (pos 2) (pos 7) ≡ none
unfolding create_process_generator
refused = refl

-- a time to live of 10 + 26 % 11, a priority of -20 + 3, and a wait of 3 + 9 % 4 ticks
first_process :
    ((second_round.heap.cell 5).pid ≡ pos 7)
    × ((second_round.heap.cell 5).ttl ≡ pos 14)
    × ((second_round.heap.cell 5).priority ≡ negsuc 16)
    × (second_round.next_generation_tick ≡ pos 8)
    × (second_round.ready_queue.current_size ≡ 2)
unfolding generator_round make_pending offer_pending random_between create_pcb set_pcb_ttl
    enqueue_process ◌+ℤ◌ ◌-ℤ◌
first_process = (refl, refl, refl, refl, refl)

-- the limit of two processes is reached
at_limit : generator_round (λ h. 6) 0 0 0 none none (pos 8) second_round ≡ second_round
unfolding generator_round make_pending offer_pending random_between create_pcb set_pcb_ttl
    enqueue_process ◌+ℤ◌ ◌-ℤ◌
at_limit = refl

-- a process that is pending when the thread ends is freed
freed : (end_generator (record first_round { pending_pcb = 9 })).heap.live 9 ≡ false
unfolding end_generator destroy_pcb
freed = refl

-- beside the queue, one process on a thread and one in a priority queue: a fourth is let in
abbrev busy_round : Generating
busy_round = record first_round { pg = record settings { max_processes = pos 4 } }

abbrev fourth_round : Generating
fourth_round =
    generator_round (λ h. 5) 26 3 9 (some (one_core 1)) (some full_system.sched) (pos 4) busy_round

let_in : fourth_round.ready_queue.current_size ≡ 2
unfolding generator_round make_pending offer_pending random_between create_pcb set_pcb_ttl
    enqueue_process count_executing_processes count_cpus count_cores
    count_processes_in_priority_queues count_queues ◌+ℤ◌ ◌-ℤ◌
let_in = refl

generator_round-Bounded_example :
    Bounded (some (one_core 1)) (some full_system.sched) busy_round fourth_round
generator_round-Bounded_example =
    generator_round-Bounded (λ h. 5) 26 3 9 (some (one_core 1)) (some full_system.sched) (pos 4)
      busy_round queue-IsValid

generator_round-Produced_example : Produced first_round second_round (pos 4) 5
generator_round-Produced_example =
    generator_round-Produced (λ h. 5) 26 3 9 none none (pos 4) first_round settings-IsConfigured
      queue-IsValid refl (omega arith) (ground arith) (ground arith) (omega arith)
