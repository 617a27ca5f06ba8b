-- ===== src/Scheduler/Activation/Thread.antt =====
-- What the inspection of one hardware thread does with its process, where the ready queue is the
-- only queue (round robin and BFS).
use the_loc_os.Base.{
  ℕ, ◌+◌, ◌-◌, ◌<◌, ◌≡◌, refl, ap, ◌∙◌, arith, List, [], ◌++◌, length, leb, if◌then◌else◌, update,
  listing, listing-erase_at, shift_loop_lem,
}
use mathlib.Core.List.{Perm}
use mathlib.Core.List.Perm
use the_loc_os.Queue.{Ptr}
use the_loc_os.Queue.Ring.{IsValid}
use the_loc_os.Queue.Fifo.{contents}
use the_loc_os.Machine.{Core, clear_thread}
use the_loc_os.Machine.Slots.{slots, Added}
use the_loc_os.Machine.Shift.{Added-listing}
use the_loc_os.Scheduler.{Scheduler}
use the_loc_os.Scheduler.Activation.{remove_thread}

pcb-remove_thread :
    (k : ℕ) (core : Core) (j : ℕ)
    → k < core.current_pcb_count
    → j < core.current_pcb_count - 1
    → ((remove_thread k core).hw_threads j).pcb
      ≡ (if leb k j then (core.hw_threads (j + 1)).pcb else (core.hw_threads j).pcb)
unfolding remove_thread
pcb-remove_thread k core j lt m = ground (
  arith,
  shift_loop_lem (core.current_pcb_count - 1 - k) k
      (update core.hw_threads k (clear_thread (core.hw_threads k))) j,
)

pub count-remove_thread :
    (k : ℕ) (core : Core) → (remove_thread k core).current_pcb_count ≡ core.current_pcb_count - 1
unfolding remove_thread
count-remove_thread k core = refl

-- The process of thread `k` is taken out of the slots; the others stay, in their order.
pub slots-remove_thread :
    (k : ℕ) (core : Core)
    → k < core.current_pcb_count
    → Added (core.hw_threads k).pcb (slots (remove_thread k core)) (slots core)
slots-remove_thread k core lt =
    rw
      (ap (λ n. listing n (λ j. ((remove_thread k core).hw_threads j).pcb))
          (count-remove_thread k core)
        ∙ listing-erase_at core.current_pcb_count k (λ j. (core.hw_threads j).pcb)
            (λ j. ((remove_thread k core).hw_threads j).pcb) lt
            (λ j m. ground (arith, pcb-remove_thread k core j))
            (λ j m q. ground (arith, pcb-remove_thread k core j)))
      (Added-listing core.current_pcb_count k (λ j. (core.hw_threads j).pcb) lt)

-- the processes on some threads and in the ready queue
abbrev pub held : List Ptr → Scheduler → List Ptr
held running sched = running ++ contents sched.ready_queue

-- From one state to another, the processes `gone` have left and are counted as completed; all others
-- are still on a thread or in the ready queue.
pub record Conserves (running : List Ptr) (sched : Scheduler) (running' : List Ptr)
    (sched' : Scheduler) : Type 0 where
  pub gone : List Ptr
  pub kept : Perm (held running sched) (gone ++ held running' sched')
  pub counted : sched'.total_completed ≡ sched.total_completed + length gone
  pub valid : IsValid sched'.ready_queue
  pub capacity : sched'.ready_queue.max_capacity ≡ sched.ready_queue.max_capacity
  pub policy : sched'.policy ≡ sched.policy

pub Conserves-same :
    {running : List Ptr} {sched : Scheduler}
    → IsValid sched.ready_queue
    → Conserves running sched running sched
Conserves-same v = record {
  gone = [];
  kept = Perm.refl _;
  counted = omega arith;
  valid = v;
  capacity = refl;
  policy = refl;
}
