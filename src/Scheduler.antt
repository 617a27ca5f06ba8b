-- ===== src/Scheduler.antt =====
-- The scheduler of sys/process.h and sys/process.c: its state, its creation and its queues. Children:
-- Select (the choice of the next process), Preempt, Activation (one round of the scheduler thread).
--
-- The machine and the ready queue that `sched->machine` and `sched->ready_queue` point to exist, so
-- they are values. The mutex, the condition variable and the thread handle are not modelled.
pub mod Create
pub mod Select
pub mod Preempt
pub mod Activation
use the_loc_os.Base.{
  ℕ, ◌+◌, ◌/◌, Bool, true, false, ◌&&◌, ◌||◌, Option, none, some, ltb, leb, ◌==◌, if◌then◌else◌,
  update, ℤ, pos, negsuc, pos_part, ltb_ℤ, ◌-ℤ◌, zero, suc,
}
use the_loc_os.Queue.{Ptr, ProcessQueue, create_process_queue, enqueue_process}
use the_loc_os.Process.{Heap, min_priority, max_priority, num_priority_levels}

abbrev pub round_robin : ℕ
round_robin = 0

abbrev pub bfs : ℕ
bfs = 1

abbrev pub preemptive_prio : ℕ
preemptive_prio = 2

abbrev pub sync_clock : ℕ
sync_clock = 0

abbrev pub sync_timer : ℕ
sync_timer = 1

-- `priority_queues` is NULL or 40 queues; none of these is NULL (`create_scheduler_with_policy`).
pub record Scheduler : Type 0 where
  pub quantum : ℤ
  pub policy : ℕ
  pub sync_mode : ℕ
  pub ready_queue : ProcessQueue
  pub priority_queues : Option (ℕ → ProcessQueue)
  pub running : Bool
  pub total_completed : ℕ

-- `queue_capacity` of `create_scheduler_with_policy`
pub queue_capacity : ℕ → ℕ
queue_capacity max_capacity =
    let capacity = max_capacity / num_priority_levels in if ltb capacity 2 then 2 else capacity

-- `create_scheduler_with_policy`, where every allocation succeeds; `garbage` is what the arrays of
-- the priority queues hold.
unfoldable pub create_scheduler_with_policy :
    (garbage : ℕ → Ptr) (quantum policy sync_mode : ℤ) (ready_queue : ProcessQueue)
    → Option Scheduler
create_scheduler_with_policy garbage quantum policy sync_mode ready_queue =
    if ltb_ℤ quantum (pos 1)
    then none
    else if ltb_ℤ policy (pos 0) || ltb_ℤ (pos 2) policy
    then none
    else if ltb_ℤ sync_mode (pos 0) || ltb_ℤ (pos 1) sync_mode
    then none
    else some (record {
      quantum = quantum;
      policy = pos_part policy;
      sync_mode = pos_part sync_mode;
      ready_queue = ready_queue;
      priority_queues =
          if pos_part policy == preemptive_prio
          then some (λ i. record {
            queue = garbage;
            front = 0;
            rear = negsuc 0;
            max_capacity = queue_capacity ready_queue.max_capacity;
            current_size = 0;
          })
          else none;
      running = false;
      total_completed = 0;
    })

-- `create_scheduler`
pub create_scheduler : (ℕ → Ptr) → ℤ → ProcessQueue → Option Scheduler
create_scheduler garbage quantum ready_queue =
    create_scheduler_with_policy garbage quantum (pos 0) (pos 0) ready_queue

-- whether one of the `n` queues from `i` on holds a process
pub any_queue : ℕ → ℕ → (ℕ → ProcessQueue) → Bool
any_queue zero i queues = false
any_queue (suc n) i queues = ltb 0 (queues i).current_size || any_queue n (i + 1) queues

abbrev pub has_priority_processes : Option (ℕ → ProcessQueue) → Bool
has_priority_processes none = false
has_priority_processes (some queues) = any_queue num_priority_levels 0 queues

pub has_ready_processes : Scheduler → Bool
has_ready_processes sched =
    if sched.policy == preemptive_prio
    then has_priority_processes sched.priority_queues
    else ltb 0 sched.ready_queue.current_size

-- the priority queue of a priority in range
abbrev pub queue_index : ℤ → ℕ
queue_index priority = pos_part (priority -ℤ min_priority)

abbrev pub enqueue_priority : Scheduler → Ptr → ℤ → Option (ℕ → ProcessQueue) → ℤ × Scheduler
enqueue_priority sched pcb priority none = (negsuc 0, sched)
enqueue_priority sched pcb priority (some queues) =
    if ltb_ℤ priority min_priority || ltb_ℤ max_priority priority
    then (negsuc 0, sched)
    else let (answer, pq) = enqueue_process (queues (queue_index priority)) pcb in
      (answer, record sched { priority_queues = some (update queues (queue_index priority) pq) })

pub enqueue_to_scheduler : Scheduler → Ptr → Heap → ℤ × Scheduler
enqueue_to_scheduler sched pcb h =
    if sched.policy == preemptive_prio
    then enqueue_priority sched pcb (h.cell pcb).priority sched.priority_queues
    else let (answer, pq) = enqueue_process sched.ready_queue pcb in
      (answer, record sched { ready_queue = pq })

-- the sizes of the `n` queues from `i` on
unfoldable pub count_queues : ℕ → ℕ → (ℕ → ProcessQueue) → ℕ
count_queues zero i queues = 0
count_queues (suc n) i queues = (queues i).current_size + count_queues n (i + 1) queues

abbrev pub count_option : Option (ℕ → ProcessQueue) → ℕ
count_option none = 0
count_option (some queues) = count_queues num_priority_levels 0 queues

unfoldable pub count_processes_in_priority_queues : Scheduler → ℕ
count_processes_in_priority_queues sched = count_option sched.priority_queues
