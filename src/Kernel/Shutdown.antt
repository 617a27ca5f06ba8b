-- ===== src/Kernel/Shutdown.antt =====
-- The loops of `cleanup_system` in sys/kernel.c and of `destroy_scheduler` in sys/process.c: the
-- processes that are still in the queues, and the count of the frames in use.
pub mod Frees
pub mod Tests
use the_loc_os.Base.{ℕ, zero, suc, ◌+◌, ◌==◌, if◌then◌else◌, Option, none, some, for_range}
use the_loc_os.Queue.{null, ProcessQueue, dequeue_process}
use the_loc_os.Process.{Heap, destroy_pcb, num_priority_levels}
use the_loc_os.Memory.{PhysicalMemory, is_frame_allocated, total_frames}

-- while ((pcb = dequeue_process(queue)) != NULL) destroy_pcb(pcb), on fuel
unfoldable pub drain : ℕ → ProcessQueue → Heap → ProcessQueue × Heap
drain zero pq h = (pq, h)
drain (suc n) pq h =
    let (pcb, pq') = dequeue_process pq in
    let rest = drain n pq' (destroy_pcb pcb h) in if pcb == null then (pq', h) else rest

-- As many rounds as there are processes, and the one that finds none.
abbrev pub drain_queue : ProcessQueue → Heap → ProcessQueue × Heap
drain_queue pq h = drain (pq.current_size + 1) pq h

-- the `n` priority queues from number `i` on
unfoldable pub drain_queues : ℕ → ℕ → (ℕ → ProcessQueue) → Heap → Heap
drain_queues zero i queues h = h
drain_queues (suc n) i queues h = drain_queues n (i + 1) queues (drain_queue (queues i) h).1

abbrev pub drain_priority_queues : Option (ℕ → ProcessQueue) → Heap → Heap
drain_priority_queues none h = h
drain_priority_queues (some queues) h = drain_queues num_priority_levels 0 queues h

-- the loop of the statistics
unfoldable pub used_frames : PhysicalMemory → ℕ
used_frames pm =
    for_range total_frames 0 (λ i used. if is_frame_allocated pm i == 0 then used else used + 1) 0
