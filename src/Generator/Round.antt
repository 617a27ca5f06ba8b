-- ===== src/Generator/Round.antt =====
-- What a round of the process generator does.
use the_loc_os.Base.{
  ℕ, zero, suc, List, [], ◌++◌, length, length-append, length-listing, ◌+◌, ◌%◌, ◌<◌, ◌≤◌, ◌≡◌, ◌≢◌,
  ◌⊎◌, inl, inr, refl, sym, ap, ◌∙◌, arith, Bool, true, false, Option, none, some, ◌==◌,
  if◌then◌else◌, ltb, ℤ, pos, ◌≤ℤ◌, ◌<ℤ◌, ltb_ℤ, leb_ℤ, ◌+ℤ◌, ◌-ℤ◌, Bool-cases, update, ==_self,
}
use mathlib.Core.Path.{subst}
use the_loc_os.Queue.{Ptr, null, ProcessQueue}
use the_loc_os.Queue.Ring
use the_loc_os.Queue.Fifo.{contents}
use the_loc_os.Queue.Ring.{entry, put, put-IsValid, enqueue_process-put, enqueue_process-full}
use the_loc_os.Process.{
  create_pcb, set_pcb_ttl, new_pcb, modify, Pcb, Heap, min_priority, max_priority,
}
use the_loc_os.Machine.{Machine}
use the_loc_os.Machine.Slots.{executing, count_executing-length}
use the_loc_os.Scheduler.{Scheduler, count_queues, count_option, count_processes_in_priority_queues}
use the_loc_os.Generator.{
  ProcessGenerator, Generating, create_process_generator, executing_count, priority_queues_count,
  total_processes, random_between, make_pending, offer_pending, generator_round,
}

-- A generator that `create_process_generator` hands out.
pub record IsConfigured (pg : ProcessGenerator) : Type 0 where
  pub interval : pos 1 ≤ℤ pg.min_interval
  pub intervals : pg.min_interval ≤ℤ pg.max_interval
  pub ttl : pos 1 ≤ℤ pg.min_ttl
  pub ttls : pg.min_ttl ≤ℤ pg.max_ttl
  pub processes : pos 1 ≤ℤ pg.max_processes

create_process_generator-IsConfigured :
    (allocated : Bool) (a b c d e f : ℤ) {pg : ProcessGenerator}
    → create_process_generator allocated a b c d e f ≡ some pg
    → IsConfigured pg
unfolding create_process_generator
create_process_generator-IsConfigured allocated a b c d e f h = ground arith

random_between-range :
    (low high : ℤ) (random : ℕ)
    → low ≤ℤ high
    → (low ≤ℤ random_between low high random) × (random_between low high random ≤ℤ high)
unfolding random_between ◌+ℤ◌ ◌-ℤ◌
random_between-range low high random h = ground arith

drawn_priority :
    (random : ℕ)
    → (min_priority ≤ℤ (min_priority +ℤ pos (random % 40)))
      × ((min_priority +ℤ pos (random % 40)) ≤ℤ max_priority)
unfolding ◌+ℤ◌
drawn_priority random = ground arith

add_le : (c a b : ℤ) → a ≤ℤ b → (c +ℤ a) ≤ℤ (c +ℤ b)
unfolding ◌+ℤ◌
add_le c a b h = ground arith

update_self : (p : Ptr) (cell : Ptr → Pcb) (c : Pcb) → update cell p c p ≡ c
update_self p cell c = rw (==_self p) refl

modify_self : (p : Ptr) (f : Pcb → Pcb) (h : Heap) → (modify p f h).cell p ≡ f (h.cell p)
modify_self p f h = rw (==_self p) refl

abbrev pub on_threads : Option Machine → List Ptr
on_threads none = []
on_threads (some machine) = executing machine

-- the contents of the `n` queues from number `i` on
abbrev pub waiting_in : ℕ → ℕ → (ℕ → ProcessQueue) → List Ptr
waiting_in zero i queues = []
waiting_in (suc n) i queues = contents (queues i) ++ waiting_in n (i + 1) queues

abbrev pub waiting_at : Option (ℕ → ProcessQueue) → List Ptr
waiting_at none = []
waiting_at (some queues) = waiting_in 40 0 queues

abbrev pub with_priority_queues : Option Scheduler → List Ptr
with_priority_queues none = []
with_priority_queues (some sched) = waiting_at sched.priority_queues

-- the processes in the system: those in the ready queue, on the threads and in the priority queues
abbrev pub in_system : Option Machine → Option Scheduler → ProcessQueue → List Ptr
in_system machine sched queue = contents queue ++ (on_threads machine ++ with_priority_queues sched)

executing_count-length :
    (machine : Option Machine) → executing_count machine ≡ length (on_threads machine)
executing_count-length none = refl
executing_count-length (some machine) = count_executing-length machine

length-contents : (pq : ProcessQueue) → length (contents pq) ≡ pq.current_size
length-contents pq = length-listing pq.current_size (entry pq)

count_queues-length :
    (n i : ℕ) (queues : ℕ → ProcessQueue) → count_queues n i queues ≡ length (waiting_in n i queues)
unfolding count_queues
count_queues-length zero i queues = refl
count_queues-length (suc n) i queues = omega (
  arith,
  length-append (contents (queues i)) (waiting_in n (i + 1) queues),
  length-contents (queues i),
  count_queues-length n (i + 1) queues,
)

waiting-length :
    (queues : Option (ℕ → ProcessQueue)) → count_option queues ≡ length (waiting_at queues)
waiting-length none = refl
waiting-length (some queues) = count_queues-length 40 0 queues

priority_queues_count-length :
    (sched : Option Scheduler) → priority_queues_count sched ≡ length (with_priority_queues sched)
unfolding count_processes_in_priority_queues
priority_queues_count-length none = refl
priority_queues_count-length (some sched) = waiting-length sched.priority_queues

total_processes-length :
    (machine : Option Machine) (sched : Option Scheduler) (queue : ProcessQueue)
    → total_processes machine sched queue ≡ length (in_system machine sched queue)
total_processes-length machine sched queue = omega (
  arith,
  length-append (contents queue) (on_threads machine ++ with_priority_queues sched),
  length-append (on_threads machine) (with_priority_queues sched),
  length-contents queue,
  executing_count-length machine,
  priority_queues_count-length sched,
)

-- The number of processes after a round: as before, or one more, within the limit.
pub record Bounded (machine : Option Machine) (sched : Option Scheduler) (s s' : Generating)
    : Type 0 where
  pub queue : Ring.IsValid s'.ready_queue
  pub total :
      (s'.ready_queue ≡ s.ready_queue)
      ⊎ ((length (in_system machine sched s'.ready_queue)
            ≡ length (in_system machine sched s.ready_queue) + 1)
          × (pos (length (in_system machine sched s'.ready_queue)) ≤ℤ s.pg.max_processes))

-- A process that has been put into the queue.
pub record Produced (s s' : Generating) (clk : ℤ) (pcb : Ptr) : Type 0 where
  pub queue : s'.ready_queue ≡ put s.ready_queue pcb
  pub pid : (s'.heap.cell pcb).pid ≡ s.pg.next_pid
  pub next_pid : s'.pg.next_pid ≡ s.pg.next_pid +ℤ pos 1
  pub generated : s'.pg.total_generated ≡ s.pg.total_generated +ℤ pos 1
  pub ttl_low : s.pg.min_ttl ≤ℤ (s'.heap.cell pcb).ttl
  pub ttl_high : (s'.heap.cell pcb).ttl ≤ℤ s.pg.max_ttl
  pub priority_low : min_priority ≤ℤ (s'.heap.cell pcb).priority
  pub priority_high : (s'.heap.cell pcb).priority ≤ℤ max_priority
  pub no_pending : s'.pending_pcb ≡ 0
  pub next_low : clk +ℤ s.pg.min_interval ≤ℤ s'.next_generation_tick
  pub next_high : s'.next_generation_tick ≤ℤ clk +ℤ s.pg.max_interval
  pub others : (p : Ptr) → p ≢ pcb → s'.heap.cell p ≡ s.heap.cell p

module _ (malloc : Heap → Ptr) (random_ttl random_priority random_interval : ℕ)
    (machine : Option Machine) (sched : Option Scheduler) (clk : ℤ) (s : Generating) where
  abbrev after : Generating
  after = generator_round malloc random_ttl random_priority random_interval machine sched clk s

  offer-put :
      (r : Generating)
      → Ring.IsValid r.ready_queue
      → r.ready_queue.current_size < r.ready_queue.max_capacity
      → offer_pending random_interval clk r ≡ record r {
        pg = record (r.pg) { total_generated = r.pg.total_generated +ℤ pos 1 };
        ready_queue = put r.ready_queue r.pending_pcb;
        pending_pcb = 0;
        next_generation_tick =
            clk +ℤ random_between r.pg.min_interval r.pg.max_interval random_interval;
      }
  unfolding offer_pending
  offer-put r v room = rw (enqueue_process-put v r.pending_pcb room) refl

  offer-full :
      (r : Generating)
      → r.ready_queue.max_capacity ≤ r.ready_queue.current_size
      → offer_pending random_interval clk r ≡ r
  unfolding offer_pending
  offer-full r full = rw (enqueue_process-full r.ready_queue r.pending_pcb full) refl

  -- the state with a pending process, if it was possible to make one
  abbrev prepared : Generating
  prepared = if s.pending_pcb == null then make_pending malloc random_ttl random_priority s else s

  prepared-queue : prepared.ready_queue ≡ s.ready_queue
  unfolding make_pending
  prepared-queue = ground arith

  round-rests : (ltb_ℤ clk s.next_generation_tick ≡ true) → after ≡ s
  unfolding generator_round
  round-rests e = rw e refl

  round-limit :
      leb_ℤ s.pg.max_processes (pos (total_processes machine sched s.ready_queue)) ≡ true
      → after ≡ s
  unfolding generator_round
  round-limit e = ground (arith, e)

  round-offers :
      ltb_ℤ clk s.next_generation_tick ≡ false
      → leb_ℤ s.pg.max_processes (pos (total_processes machine sched s.ready_queue)) ≡ false
      → after ≡ (
          if prepared.pending_pcb == null
          then prepared
          else offer_pending random_interval clk prepared)
  unfolding generator_round
  round-offers e f = rw (e, f) refl

  offered :
      Ring.IsValid s.ready_queue
      → leb_ℤ s.pg.max_processes (pos (total_processes machine sched s.ready_queue)) ≡ false
      → Bounded machine sched s (offer_pending random_interval clk prepared)
  offered v f =
      let v' = subst Ring.IsValid (sym prepared-queue) v in
      elim (Bool-cases (ltb s.ready_queue.current_size s.ready_queue.max_capacity)) [
        | inl b ↦
            let room : s.ready_queue.current_size < s.ready_queue.max_capacity = ground arith in
            let room' = subst (λ q. q.current_size < q.max_capacity) (sym prepared-queue) room in
            let before = total_processes-length machine sched s.ready_queue in
            let behind =
              total_processes-length machine sched (put s.ready_queue prepared.pending_pcb) in
            rw (offer-put prepared v' room', prepared-queue)
              (record {
                queue = put-IsValid v prepared.pending_pcb room;
                total = inr (
                  omega (arith, before, behind),
                  subst (λ n. pos n ≤ℤ s.pg.max_processes) behind (ground arith),
                );
              })
        | inr b ↦
            let full : s.ready_queue.max_capacity ≤ s.ready_queue.current_size = ground arith in
            let full' = subst (λ q. q.max_capacity ≤ q.current_size) (sym prepared-queue) full in
            rw (offer-full prepared full') (record { queue = v'; total = inl prepared-queue })
      ]

  -- A round of the process generator keeps the ready queue valid, and either leaves it as it is or
  -- brings the processes in the system, those in the queues and on the threads, to one more, which
  -- is no more than max_processes.
  pub generator_round-Bounded : Ring.IsValid s.ready_queue → Bounded machine sched s after
  generator_round-Bounded v =
      let same : Bounded machine sched s s = record { queue = v; total = inl refl } in
      elim (Bool-cases (ltb_ℤ clk s.next_generation_tick)) [
        | inl e ↦ subst (Bounded machine sched s) (sym (round-rests e)) same
        | inr e ↦
            elim (Bool-cases
              (leb_ℤ s.pg.max_processes (pos (total_processes machine sched s.ready_queue)))) [
                | inl f ↦ subst (Bounded machine sched s) (sym (round-limit f)) same
                | inr f ↦
                    subst (Bounded machine sched s) (sym (round-offers e f))
                      (elim (Bool-cases (prepared.pending_pcb == 0)) [
                        | inl z ↦ rw z (record {
                          queue = subst Ring.IsValid (sym prepared-queue) v;
                          total = inl prepared-queue;
                        })
                        | inr z ↦ rw z (offered v f)
                      ])
              ]
      ]

  abbrev new_cell : Pcb
  new_cell = new_pcb s.pg.next_pid (s.heap.cell (malloc s.heap)).context.registers

  abbrev created : Heap
  created = record {
    cell = update s.heap.cell (malloc s.heap) new_cell;
    live = update s.heap.live (malloc s.heap) true;
  }

  abbrev with_ttl : Pcb → Pcb
  with_ttl p = record p {
    ttl = random_between s.pg.min_ttl s.pg.max_ttl random_ttl;
    initial_ttl = random_between s.pg.min_ttl s.pg.max_ttl random_ttl;
  }

  abbrev with_priority : Pcb → Pcb
  with_priority p = record p { priority = min_priority +ℤ pos (random_priority % 40) }

  -- the state with the new process
  abbrev made : Generating
  made = record s {
    pg = record (s.pg) { next_pid = s.pg.next_pid +ℤ pos 1 };
    pending_pcb = malloc s.heap;
    heap = modify (malloc s.heap) with_priority (modify (malloc s.heap) with_ttl created);
  }

  made_cell : made.heap.cell (malloc s.heap) ≡ with_priority (with_ttl new_cell)
  made_cell =
      let p = malloc s.heap in
      modify_self p with_priority (modify p with_ttl created)
      ∙ ap with_priority
          (modify_self p with_ttl created ∙ ap with_ttl (update_self p s.heap.cell new_cell))

  make_pending-made : malloc s.heap ≢ 0 → make_pending malloc random_ttl random_priority s ≡ made
  unfolding make_pending create_pcb set_pcb_ttl
  make_pending-made ok =
      let alive : (malloc s.heap == 0) ≡ false = ground arith in rw (alive, alive) refl

  prepared-made : s.pending_pcb ≡ 0 → malloc s.heap ≢ 0 → prepared ≡ made
  prepared-made none_pending ok =
      let empty : (s.pending_pcb == 0) ≡ true = ground arith in
      ap (λ b. if b then make_pending malloc random_ttl random_priority s else s) empty
      ∙ make_pending-made ok

  -- the state with the new process in the queue
  abbrev queued : Generating
  queued = record made {
    pg = record (made.pg) { total_generated = s.pg.total_generated +ℤ pos 1 };
    ready_queue = put s.ready_queue (malloc s.heap);
    pending_pcb = 0;
    next_generation_tick =
        clk +ℤ random_between s.pg.min_interval s.pg.max_interval random_interval;
  }

  queued-Produced : IsConfigured s.pg → Produced s queued clk (malloc s.heap)
  queued-Produced c =
      let ttl = random_between-range s.pg.min_ttl s.pg.max_ttl random_ttl c.ttls in
      let next =
        random_between-range s.pg.min_interval s.pg.max_interval random_interval c.intervals in
      let e = made_cell in
      record {
        queue = refl;
        pid = ap (λ c. c.pid) e;
        next_pid = refl;
        generated = refl;
        ttl_low = subst (λ c. s.pg.min_ttl ≤ℤ c.ttl) (sym e) ttl.0;
        ttl_high = subst (λ c. c.ttl ≤ℤ s.pg.max_ttl) (sym e) ttl.1;
        priority_low = subst (λ c. min_priority ≤ℤ c.priority) (sym e) (drawn_priority _).0;
        priority_high = subst (λ c. c.priority ≤ℤ max_priority) (sym e) (drawn_priority _).1;
        no_pending = refl;
        next_low = add_le clk _ _ next.0;
        next_high = add_le clk _ _ next.1;
        others = λ p ne. ground arith;
      }

  -- At or after its next tick, below the limit and with room in the ready queue, a round of the
  -- generator with no pending process puts a process with the next pid behind the queue, with a
  -- time to live and a priority in their ranges, counts it, sets the next tick by the intervals,
  -- and changes no other PCB. The settings are those of a created generator, and malloc does not
  -- fail.
  pub generator_round-Produced :
      IsConfigured s.pg
      → Ring.IsValid s.ready_queue
      → s.pending_pcb ≡ 0
      → malloc s.heap ≢ 0
      → s.next_generation_tick ≤ℤ clk
      → pos (total_processes machine sched s.ready_queue) <ℤ s.pg.max_processes
      → s.ready_queue.current_size < s.ready_queue.max_capacity
      → Produced s after clk (malloc s.heap)
  generator_round-Produced c v none_pending ok due below room =
      let ready : ltb_ℤ clk s.next_generation_tick ≡ false = ground arith in
      let space : leb_ℤ s.pg.max_processes (pos (total_processes machine sched s.ready_queue))
          ≡ false =
        ground arith in
      let alive : (malloc s.heap == 0) ≡ false = ground arith in
      subst (λ q. Produced s q clk (malloc s.heap))
        (sym (
          round-offers ready space
          ∙ ap (λ q. if q.pending_pcb == 0 then q else offer_pending random_interval clk q)
              (prepared-made none_pending ok)
          ∙ ap (λ b. if b then made else offer_pending random_interval clk made) alive
          ∙ offer-put made v room))
        (queued-Produced c)

  -- a queue that is full
  pub generator_round-retries :
      s.pending_pcb ≢ 0 → s.ready_queue.max_capacity ≤ s.ready_queue.current_size → after ≡ s
  unfolding generator_round
  generator_round-retries pending full =
      let some_pcb : (s.pending_pcb == 0) ≡ false = ground arith in
      rw some_pcb (ground (arith, offer-full s full))
