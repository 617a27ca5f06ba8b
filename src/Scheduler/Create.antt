-- ===== src/Scheduler/Create.antt =====
-- What `create_scheduler_with_policy` returns.
use the_loc_os.Base.{ℤ, pos_part, ◌≡◌, arith, ℕ, some}
use the_loc_os.Queue.{Ptr, ProcessQueue}
use the_loc_os.Scheduler.{Scheduler, create_scheduler_with_policy}

pub create_scheduler_lem :
    (garbage : ℕ → Ptr) (quantum policy sync_mode : ℤ) (ready_queue : ProcessQueue)
    {sched : Scheduler}
    → create_scheduler_with_policy garbage quantum policy sync_mode ready_queue ≡ some sched
    → (sched.policy ≡ pos_part policy) × (sched.total_completed ≡ 0)
unfolding create_scheduler_with_policy
create_scheduler_lem garbage quantum policy sync_mode ready_queue e = ground (arith, e)
