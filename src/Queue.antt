-- ===== src/Queue.antt =====
-- The process queue of sys/process.h and sys/process.c: a ring of PCB pointers. The functions are
-- called with a queue that exists, so it is a value here.
pub mod Ring
pub mod Fifo
pub mod Tests
use the_loc_os.Base.{
  ℕ, zero, suc, ◌+◌, ◌-◌, ◌%◌, ◌≡◌, Bool, true, false, Option, none, some, leb, ◌==◌, if◌then◌else◌,
  update, ℤ, pos, negsuc, pos_part, ◌+ℤ◌, rem_ℤ,
}

-- `PCB*`; 0 is NULL.
abbrev pub Ptr : Type 0
Ptr = ℕ

abbrev pub null : Ptr
null = 0

-- `queue` is the array of `max_capacity` pointers, as a function of the index. `rear` starts at -1.
pub record ProcessQueue : Type 0 where
  pub queue : ℕ → Ptr
  pub front : ℕ
  pub rear : ℤ
  pub max_capacity : ℕ
  pub current_size : ℕ

-- The Booleans say whether the two allocations succeed, `garbage` is what the fresh array holds.
unfoldable pub create_process_queue : Bool → Bool → (ℕ → Ptr) → ℕ → Option ProcessQueue
create_process_queue false array_ok garbage capacity = none
create_process_queue true false garbage capacity = none
create_process_queue true true garbage capacity = some (record {
  queue = garbage;
  front = 0;
  rear = negsuc 0;
  max_capacity = capacity;
  current_size = 0;
})

-- 0 for success, -1 where the queue is full. The index `rear` is never negative when it is used
-- (`Ring.IsValid`), so its `pos_part` is the index.
unfoldable pub enqueue_process : ProcessQueue → Ptr → ℤ × ProcessQueue
enqueue_process pq pcb =
    if leb pq.max_capacity pq.current_size
    then (negsuc 0, pq)
    else let rear' = rem_ℤ (pq.rear +ℤ pos 1) pq.max_capacity in
      (
        pos 0,
        record pq {
          queue = update pq.queue (pos_part rear') pcb;
          rear = rear';
          current_size = pq.current_size + 1;
        },
      )

unfoldable pub dequeue_process : ProcessQueue → Ptr × ProcessQueue
dequeue_process pq = if pq.current_size == 0 then (null, pq) else (
  pq.queue pq.front,
  record pq { front = (pq.front + 1) % pq.max_capacity; current_size = pq.current_size - 1 },
)
