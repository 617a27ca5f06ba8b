-- ===== src/Queue/Ring.antt =====
-- The ring's representation: its indices and the entries in the order of the queue.
use the_loc_os.Base.{
  ℕ, zero, suc, ◌+◌, ◌-◌, ◌%◌, ◌≤◌, ◌<◌, ◌≡◌, ◌≢◌, arith, ltb, if◌then◌else◌, update, ℤ, pos, eqb_ℤ,
  true, false, ◌⊎◌, inl, inr, negsuc, pos_part, neg_part, ◌+ℤ◌, rem_ℤ, Bool, some,
}
use native.Mathlib.Decide.{dec_lt}
use native.Mathlib.Nat.{mod-eq_of_lt, mod-eq-sub-mod}
use the_loc_os.Queue.{Ptr, ProcessQueue, create_process_queue, enqueue_process, dequeue_process}

-- the remainder of a number below twice the capacity
abbrev pub wrap : ℕ → ℕ → ℕ
wrap cap x = if ltb x cap then x else x - cap

pub mod-wrap : (x cap : ℕ) → x < cap + cap → x % cap ≡ wrap cap x
mod-wrap x cap h = grind (arith, mod-eq_of_lt, mod-eq-sub-mod)

-- `rear` is the slot before the one that the next process will be put into.
pub record IsValid (pq : ProcessQueue) : Type 0 where
  pub front_in : pq.front < pq.max_capacity
  pub size_in : pq.current_size ≤ pq.max_capacity
  pub rear_low : neg_part pq.rear ≤ 1
  pub rear_high : pos_part pq.rear < pq.max_capacity
  pub rear_next :
      wrap pq.max_capacity (pos_part pq.rear + 1 - neg_part pq.rear)
      ≡ wrap pq.max_capacity (pq.front + pq.current_size)

-- the entry `i` places behind the front
abbrev pub entry : ProcessQueue → ℕ → Ptr
entry pq i = pq.queue (wrap pq.max_capacity (pq.front + i))

-- the new value of `rear`
next_rear :
    (r : ℤ) (cap : ℕ)
    → neg_part r ≤ 1
    → pos_part r < cap
    → rem_ℤ (r +ℤ pos 1) cap ≡ pos (wrap cap (pos_part r + 1 - neg_part r))
unfolding rem_ℤ ◌+ℤ◌
next_rear (pos n) cap lo hi = ground (arith, mod-wrap (n + 1) cap)
next_rear (negsuc zero) cap lo hi = ground (arith, mod-wrap 0 cap)
next_rear (negsuc (suc n)) cap lo hi = absurd (omega arith)

-- A queue fresh from create_process_queue with room for a process is valid and empty.
pub create_process_queue-IsValid :
    {pq : ProcessQueue} (queue_ok array_ok : Bool) (garbage : ℕ → Ptr) (capacity : ℕ)
    → 0 < capacity
    → create_process_queue queue_ok array_ok garbage capacity ≡ some pq
    → IsValid pq × (pq.current_size ≡ 0) × (pq.max_capacity ≡ capacity)
unfolding create_process_queue
create_process_queue-IsValid queue_ok array_ok garbage capacity h e = ground arith

-- what `enqueue_process` does where there is room
abbrev pub put : ProcessQueue → Ptr → ProcessQueue
put pq pcb =
    let slot = wrap pq.max_capacity (pq.front + pq.current_size) in
    record pq {
      queue = update pq.queue slot pcb;
      rear = pos slot;
      current_size = pq.current_size + 1;
    }

-- what `dequeue_process` leaves of a queue that is not empty
abbrev pub advance : ProcessQueue → ProcessQueue
advance pq = record pq {
  front = (pq.front + 1) % pq.max_capacity;
  current_size = pq.current_size - 1;
}

pub dequeue_process-advance :
    (pq : ProcessQueue) → pq.current_size ≢ 0 → dequeue_process pq ≡ (pq.queue pq.front, advance pq)
unfolding dequeue_process
dequeue_process-advance pq h = ground arith

pub dequeue_process-empty : (pq : ProcessQueue) → pq.current_size ≡ 0 → dequeue_process pq ≡ (0, pq)
unfolding dequeue_process
dequeue_process-empty pq h = ground arith

pub enqueue_process-full :
    (pq : ProcessQueue) (pcb : Ptr)
    → pq.max_capacity ≤ pq.current_size
    → enqueue_process pq pcb ≡ (negsuc 0, pq)
unfolding enqueue_process
enqueue_process-full pq pcb full = ground arith

module _ {pq : ProcessQueue} (v : IsValid pq) where
  pub enqueue_process-put :
      (pcb : Ptr) → pq.current_size < pq.max_capacity → enqueue_process pq pcb ≡ (pos 0, put pq pcb)
  unfolding enqueue_process
  enqueue_process-put pcb room =
      rw (next_rear pq.rear pq.max_capacity v.rear_low v.rear_high, v.rear_next) (ground arith)

  pub put-IsValid : (pcb : Ptr) → pq.current_size < pq.max_capacity → IsValid (put pq pcb)
  put-IsValid pcb room = ground arith

  -- dequeue_process keeps the queue valid, empty or not.
  pub dequeue_process-IsValid : IsValid (dequeue_process pq).1
  unfolding dequeue_process
  dequeue_process-IsValid = ground (arith, mod-wrap (pq.front + 1) pq.max_capacity)

-- enqueue_process keeps the queue valid, whether or not there is room.
pub enqueue_process-IsValid :
    {pq : ProcessQueue} (pcb : Ptr) → IsValid pq → IsValid (enqueue_process pq pcb).1
enqueue_process-IsValid {pq} pcb v = elim (dec_lt pq.current_size pq.max_capacity) [
  | yes room ↦ rw (enqueue_process-put v pcb room) (put-IsValid v pcb room)
  | no full ↦ rw (enqueue_process-full pq pcb (omega arith)) v
]

-- the answer, valid or not
pub enqueue_process-answer :
    (pq : ProcessQueue) (pcb : Ptr)
    → ((eqb_ℤ (enqueue_process pq pcb).0 (pos 0) ≡ true)
        × ((enqueue_process pq pcb).1.current_size ≡ pq.current_size + 1))
      ⊎ ((eqb_ℤ (enqueue_process pq pcb).0 (pos 0) ≡ false) × ((enqueue_process pq pcb).1 ≡ pq))
unfolding enqueue_process
enqueue_process-answer pq pcb = elim (dec_lt pq.current_size pq.max_capacity) [
  | yes room ↦ inl (ground arith)
  | no full ↦ inr (ground arith)
]

pub enqueue_process-room :
    (pq : ProcessQueue) (pcb : Ptr)
    → pq.current_size < pq.max_capacity
    → (eqb_ℤ (enqueue_process pq pcb).0 (pos 0) ≡ true)
      × ((enqueue_process pq pcb).1.current_size ≡ pq.current_size + 1)
      × ((enqueue_process pq pcb).1.max_capacity ≡ pq.max_capacity)
unfolding enqueue_process
enqueue_process-room pq pcb room = ground arith
