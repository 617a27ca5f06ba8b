-- ===== src/Generator.antt =====
-- The process generator of sys/process.h and sys/process.c: its creation and one round of its thread
-- under the mutex of the clock. What `rand` returns is an argument, and so is malloc. The machine
-- and the scheduler are shared with the rest of the system and can be NULL. The flag
-- `waiting_for_space` only decides on messages, which are not modelled.
pub mod Round
pub mod Tests
use the_loc_os.Base.{
  ℕ, ◌+◌, ◌-◌, ◌%◌, Bool, true, false, ◌||◌, Option, none, some, ◌==◌, if◌then◌else◌, ℤ, pos,
  pos_part, ltb_ℤ, leb_ℤ, eqb_ℤ, ◌+ℤ◌, ◌-ℤ◌,
}
use the_loc_os.Queue.{Ptr, null, ProcessQueue, enqueue_process}
use the_loc_os.Process.{Heap, modify, create_pcb, set_pcb_ttl, destroy_pcb, min_priority}
use the_loc_os.Machine.{Machine, count_executing_processes}
use the_loc_os.Scheduler.{Scheduler, count_processes_in_priority_queues}

pub record ProcessGenerator : Type 0 where
  pub min_interval : ℤ
  pub max_interval : ℤ
  pub min_ttl : ℤ
  pub max_ttl : ℤ
  pub max_processes : ℤ
  pub running : Bool
  pub next_pid : ℤ
  pub total_generated : ℤ

-- `create_process_generator`, where its allocation succeeds or not; the ready queue exists.
unfoldable pub create_process_generator :
    Bool
    → (min_interval max_interval min_ttl max_ttl max_processes start_pid : ℤ)
    → Option ProcessGenerator
create_process_generator allocated min_interval max_interval min_ttl max_ttl max_processes
      start_pid =
    if ltb_ℤ min_interval (pos 1)
      || ltb_ℤ max_interval min_interval
      || ltb_ℤ min_ttl (pos 1)
      || ltb_ℤ max_ttl min_ttl
      || ltb_ℤ max_processes (pos 1)
    then none
    else if allocated
    then some (record {
      min_interval = min_interval;
      max_interval = max_interval;
      min_ttl = min_ttl;
      max_ttl = max_ttl;
      max_processes = max_processes;
      running = false;
      next_pid = start_pid;
      total_generated = pos 0;
    })
    else none

-- the variables of the thread, and what it shares
pub record Generating : Type 0 where
  pub pg : ProcessGenerator
  pub next_generation_tick : ℤ
  pub pending_pcb : Ptr
  pub heap : Heap
  pub ready_queue : ProcessQueue

abbrev pub executing_count : Option Machine → ℕ
executing_count none = 0
executing_count (some machine) = count_executing_processes machine

abbrev pub priority_queues_count : Option Scheduler → ℕ
priority_queues_count none = 0
priority_queues_count (some sched) = count_processes_in_priority_queues sched

abbrev pub total_processes : Option Machine → Option Scheduler → ProcessQueue → ℕ
total_processes machine sched queue =
    queue.current_size + executing_count machine + priority_queues_count sched

-- `low`, and `rand() % (high - low + 1)` more where `high` is larger
unfoldable pub random_between : ℤ → ℤ → ℕ → ℤ
random_between low high random =
    if ltb_ℤ low high then low +ℤ pos (random % pos_part (high -ℤ low +ℤ pos 1)) else low

-- "Generate new process only if we don't have a pending one": the new PCB, with the numbers drawn
-- for its time to live and its priority.
unfoldable pub make_pending : (Heap → Ptr) → ℕ → ℕ → Generating → Generating
make_pending malloc random_ttl random_priority s =
    let (pcb, heap) = create_pcb malloc s.pg.next_pid s.heap in
    if pcb == null then s else record s {
      pg = record (s.pg) { next_pid = s.pg.next_pid +ℤ pos 1 };
      pending_pcb = pcb;
      heap =
          modify pcb (λ p. record p { priority = min_priority +ℤ pos (random_priority % 40) })
            (set_pcb_ttl pcb (random_between s.pg.min_ttl s.pg.max_ttl random_ttl) heap);
    }

-- "Try to add pending PCB to ready queue"
unfoldable pub offer_pending : ℕ → ℤ → Generating → Generating
offer_pending random_interval clk_counter s =
    let (result, queue) = enqueue_process s.ready_queue s.pending_pcb in
    if eqb_ℤ result (pos 0)
    then record s {
      pg = record (s.pg) { total_generated = s.pg.total_generated +ℤ pos 1 };
      ready_queue = queue;
      pending_pcb = null;
      next_generation_tick =
          clk_counter +ℤ random_between s.pg.min_interval s.pg.max_interval random_interval;
    }
    else record s { ready_queue = queue }

-- One round of the loop, at a tick at which the thread is awake. Before its next generation tick it
-- only goes on waiting.
unfoldable pub generator_round :
    (malloc : Heap → Ptr) (random_ttl random_priority random_interval : ℕ)
    → Option Machine
    → Option Scheduler
    → (clk_counter : ℤ) → Generating
    → Generating
generator_round malloc random_ttl random_priority random_interval machine sched clk_counter s =
    let s' =
      if s.pending_pcb == null then make_pending malloc random_ttl random_priority s else s in
    if ltb_ℤ clk_counter s.next_generation_tick
    then s
    else if leb_ℤ s.pg.max_processes (pos (total_processes machine sched s.ready_queue))
    then s
    else if s'.pending_pcb == null
    then s'
    else offer_pending random_interval clk_counter s'

-- "Cleanup pending PCB if any", when the thread ends
unfoldable pub end_generator : Generating → Generating
end_generator s =
    if s.pending_pcb == null then s else record s { heap = destroy_pcb s.pending_pcb s.heap }
