-- ===== src/Scheduler/Select.antt =====
-- `select_next_process` of sys/process.c: the next process of each policy.
pub mod Gap
pub mod Deadline
pub mod Priority
pub mod Tests
use the_loc_os.Base.{
  ℕ, zero, suc, ◌+◌, ◌-◌, ◌%◌, Bool, ◌||◌, Option, none, some, ltb, ◌==◌, if◌then◌else◌, update, ℤ,
  pos, negsuc, eqb_ℤ, ltb_ℤ, ◌+ℤ◌, ◌-ℤ◌, rem_ℤ,
}
use the_loc_os.Queue.{Ptr, null, ProcessQueue, dequeue_process}
use the_loc_os.Process.{Heap, num_priority_levels}
use the_loc_os.Scheduler.{Scheduler, round_robin, bfs, preemptive_prio}

-- The scan of the BFS policy: `n` more slots from `idx` on, with the least deadline so far (-1 for
-- none) and its slot. `none` is a `min_idx` of -1.
pub scan : Heap → ProcessQueue → ℕ → ℕ → ℤ → Option ℕ → Option ℕ
scan h pq zero idx min_deadline min_idx = min_idx
scan h pq (suc n) idx min_deadline min_idx =
    let deadline = (h.cell (pq.queue idx)).virtual_deadline in
    let better = eqb_ℤ min_deadline (negsuc 0) || ltb_ℤ deadline min_deadline in
    scan h pq n ((idx + 1) % pq.max_capacity) (if better then deadline else min_deadline)
      (if better then some idx else min_idx)

-- "Shift elements to fill the gap": `n` moves round the ring from `current_idx` on.
pub close_gap : ℕ → ℕ → ℕ → (ℕ → Ptr) → ℕ → Ptr
close_gap zero cap current_idx queue = queue
close_gap (suc n) cap current_idx queue =
    let next_idx = (current_idx + 1) % cap in
    close_gap n cap next_idx (update queue current_idx (queue next_idx))

-- the removal of the process in slot `min_idx`
pub remove_slot : ProcessQueue → ℕ → ProcessQueue
remove_slot pq min_idx = record pq {
  queue = close_gap (pq.current_size - 1) pq.max_capacity min_idx pq.queue;
  current_size = pq.current_size - 1;
  rear = rem_ℤ (pq.rear -ℤ pos 1 +ℤ pos pq.max_capacity) pq.max_capacity;
}

abbrev pub take_slot : ProcessQueue → Option ℕ → Ptr × ProcessQueue
take_slot pq none = (null, pq)
take_slot pq (some min_idx) = (pq.queue min_idx, remove_slot pq min_idx)

pub select_deadline : Heap → ProcessQueue → Ptr × ProcessQueue
select_deadline h pq =
    if pq.current_size == 0
    then (null, pq)
    else take_slot pq (scan h pq pq.current_size pq.front (negsuc 0) none)

-- the first of the `n` queues from `i` on that holds a process
pub select_priority : ℕ → ℕ → (ℕ → ProcessQueue) → Ptr × (ℕ → ProcessQueue)
select_priority zero i queues = (null, queues)
select_priority (suc n) i queues =
    let rest = select_priority n (i + 1) queues in
    if ltb 0 (queues i).current_size
    then ((dequeue_process (queues i)).0, update queues i (dequeue_process (queues i)).1)
    else rest

abbrev pub select_from : Scheduler → Option (ℕ → ProcessQueue) → Ptr × Scheduler
select_from sched none = (null, sched)
select_from sched (some queues) =
    let (pcb, queues') = select_priority num_priority_levels 0 queues in
    (pcb, record sched { priority_queues = some queues' })

abbrev pub select_fifo : Scheduler → Ptr × Scheduler
select_fifo sched =
    let (pcb, pq) = dequeue_process sched.ready_queue in (pcb, record sched { ready_queue = pq })

abbrev pub select_bfs : Heap → Scheduler → Ptr × Scheduler
select_bfs h sched =
    let (pcb, pq) = select_deadline h sched.ready_queue in (pcb, record sched { ready_queue = pq })

-- The default case of the switch is that of round robin.
unfoldable pub select_next_process : Heap → Scheduler → Ptr × Scheduler
select_next_process h sched =
    if sched.policy == bfs
    then select_bfs h sched
    else if sched.policy == preemptive_prio
    then select_from sched sched.priority_queues
    else select_fifo sched
