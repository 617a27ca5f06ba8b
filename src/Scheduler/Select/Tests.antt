-- ===== src/Scheduler/Select/Tests.antt =====
-- The theorems on the choice of the next process, on ready queues of three or four processes.
use the_loc_os.Base.{
  ℕ, ◌+◌, ◌-◌, ◌≤◌, ◌<◌, ◌≡◌, ◌⊎◌, refl, arith, ◌==◌, if◌then◌else◌, pos, negsuc, true,
}
use the_loc_os.Queue.{ProcessQueue}
use the_loc_os.Queue.Ring.{IsValid, entry}
use the_loc_os.Process.{Heap, new_pcb}
use the_loc_os.Scheduler.Select.{scan, remove_slot, select_deadline, select_priority}
use the_loc_os.Scheduler.Select.Gap.{remove_slot-overwrites}
use the_loc_os.Scheduler.Select.Priority.{TakesFrom, select_priority_cases}

-- `n` processes 1, 2, … from slot 0 on, in an array of `cap` slots
abbrev ready : ℕ → ℕ → ProcessQueue
ready cap n = record {
  queue = λ i. i + 1;
  front = 0;
  rear = pos (n - 1);
  max_capacity = cap;
  current_size = n;
}

-- the deadlines 30, 10, 20, 40 of the processes 1 to 4
abbrev deadlines : Heap
deadlines = record {
  cell = λ p. record (new_pcb (pos p) (λ r. 0)) {
    virtual_deadline =
        if p == 1 then pos 30 else if p == 2 then pos 10 else if p == 3 then pos 20 else pos 40;
  };
  live = λ p. true;
}

-- the first process has the deadline -1
abbrev minus_one : Heap
minus_one = record {
  cell = λ p. record (new_pcb (pos p) (λ r. 0)) {
    virtual_deadline = if p == 1 then negsuc 0 else pos 1000;
  };
  live = λ p. true;
}

four-IsValid : IsValid (ready 4 4)
four-IsValid = ground arith

two-IsValid : IsValid (ready 4 2)
two-IsValid = ground arith

chooses_second : (select_deadline deadlines (ready 4 3)).0 ≡ 2
unfolding select_deadline scan
chooses_second = refl

remove_slot-overwrites_example : entry (remove_slot (ready 4 4) 2) 0 ≡ 2
remove_slot-overwrites_example = remove_slot-overwrites 2 four-IsValid (omega arith) (omega arith)

-- 40 queues of which the one of index 5 and the last hold processes
abbrev queues : ℕ → ProcessQueue
queues i = ready 4 (if i == 5 then 2 else if i == 39 then 1 else 0)

select_priority_cases_example :
    TakesFrom 40 0 queues (select_priority 40 0 queues)
    ⊎ (((j : ℕ) → 0 ≤ j → j < 0 + 40 → (queues j).current_size ≡ 0)
        × (select_priority 40 0 queues ≡ (0, queues)))
select_priority_cases_example = select_priority_cases 40 0 queues
