-- ===== src/Scheduler/Activation/Conserve.antt =====
-- Steps that lose no process, one after the other and side by side.
use the_loc_os.Base.{
  ◌+◌, ◌-◌, ◌≤◌, ◌≡◌, ◌≢◌, sym, ◌∙◌, arith, List, ◌++◌, length, length-append, length-Perm,
  perm_frame_left, perm_frame_right, length-listing,
}
use mathlib.Core.List.{append_assoc}
use mathlib.Core.List.Perm
use the_loc_os.Queue.{Ptr}
use the_loc_os.Queue.Ring.{IsValid, entry}
use the_loc_os.Queue.Fifo.{contents}
use the_loc_os.Scheduler.{Scheduler}
use the_loc_os.Scheduler.Activation.Thread.{held, Conserves}

-- The ready queue is valid and has room for the processes that run, and it is the only queue.
pub record Room (running : List Ptr) (sched : Scheduler) : Type 0 where
  pub valid : IsValid sched.ready_queue
  pub room : length running + sched.ready_queue.current_size ≤ sched.ready_queue.max_capacity
  pub single : sched.policy ≢ 2

module _ {a b : List Ptr} {s t : Scheduler} where
  size-Conserves :
      Conserves a s b t
      → length a + s.ready_queue.current_size
        ≡ length b + t.ready_queue.current_size + (t.total_completed - s.total_completed)
  size-Conserves c = omega (
    arith,
    length-Perm c.kept,
    length-append a (contents s.ready_queue),
    length-append c.gone (held b t),
    length-append b (contents t.ready_queue),
    length-listing s.ready_queue.current_size (entry s.ready_queue),
    length-listing t.ready_queue.current_size (entry t.ready_queue),
    c.counted,
  )

  pub Room-Conserves : Conserves a s b t → Room a s → Room b t
  Room-Conserves c r = record {
    valid = c.valid;
    room = omega (arith, size-Conserves c, c.capacity, r.room);
    single = λ e. r.single (sym c.policy ∙ e);
  }

  pub Conserves-trans :
      {d : List Ptr} {u : Scheduler} → Conserves a s b t → Conserves b t d u → Conserves a s d u
  Conserves-trans c k = record {
    gone = c.gone ++ k.gone;
    kept = Perm.trans c.kept (rw append_assoc (Perm.append_left c.gone k.kept));
    counted = omega (arith, c.counted, k.counted, length-append c.gone k.gone);
    valid = k.valid;
    capacity = k.capacity ∙ c.capacity;
    policy = k.policy ∙ c.policy;
  }

  -- processes on other threads
  pub Conserves-right : (r : List Ptr) → Conserves a s b t → Conserves (a ++ r) s (b ++ r) t
  Conserves-right r c = record {
    gone = c.gone;
    kept = perm_frame_right a b _ _ c.gone r c.kept;
    counted = c.counted;
    valid = c.valid;
    capacity = c.capacity;
    policy = c.policy;
  }

  pub Conserves-left : (r : List Ptr) → Conserves a s b t → Conserves (r ++ a) s (r ++ b) t
  Conserves-left r c = record {
    gone = c.gone;
    kept = perm_frame_left a b _ _ c.gone r c.kept;
    counted = c.counted;
    valid = c.valid;
    capacity = c.capacity;
    policy = c.policy;
  }

-- room for some of the threads
Room-right : (a : List Ptr) {b : List Ptr} {s : Scheduler} → Room (a ++ b) s → Room b s
Room-right a {b} r = record {
  valid = r.valid;
  room = omega (arith, r.room, length-append a b);
  single = r.single;
}

pub Room-left : {a : List Ptr} (b : List Ptr) {s : Scheduler} → Room (a ++ b) s → Room a s
Room-left {a} b r = record {
  valid = r.valid;
  room = omega (arith, r.room, length-append a b);
  single = r.single;
}

-- two parts of a machine, the first before the second
pub Conserves-both :
    {a a' b b' : List Ptr} {s t u : Scheduler}
    → Conserves a s a' t
    → (Room b t → Conserves b t b' u)
    → Room (a ++ b) s
    → Conserves (a ++ b) s (a' ++ b') u
Conserves-both {a} {a'} {b} {b'} c k room =
    let first = Conserves-right b c in
    Conserves-trans first (Conserves-left a' (k (Room-right a' (Room-Conserves first room))))
