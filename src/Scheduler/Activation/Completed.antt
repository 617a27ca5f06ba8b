-- ===== src/Scheduler/Activation/Completed.antt =====
-- A process whose time to live has run out leaves the machine in the next round of the scheduler.
use the_loc_os.Base.{
  ℕ, zero, suc, ◌-◌, ◌<◌, ◌≤◌, ◌≡◌, ◌≢◌, refl, ap, ◌∙◌, arith, true, false, List, [], ◌∷◌, ◌==◌,
  ltb, Bool-cases, inl, inr, pos, pos_part, ◌+ℤ◌, shift_loop_lem, update, Has, Has-append,
  Has-listing, Has-map,
}
use the_loc_os.Queue.{Ptr}
use the_loc_os.Process.{Heap, modify}
use the_loc_os.Machine.{Core, Cpu, clear_thread}
use the_loc_os.Machine.Slots.{slots, slots_cores, slots_cpus, executing}
use the_loc_os.Machine.Shape.{SameCores, SameCpus, SameCores-cons, SameCpus-cons}
use the_loc_os.Scheduler.{Scheduler, enqueue_to_scheduler}
use the_loc_os.Scheduler.Preempt.{System}
use the_loc_os.Scheduler.Activation.{
  Round, remove_thread, complete, expire, is_complete, quantum_expired, check_process, check_thread,
  check_threads, check_cores, check_cpus, check_machine,
}
use the_loc_os.Scheduler.Activation.Ttl.{
  SameTtl, check_thread-SameTtl, check_threads-SameTtl, check_cores-SameTtl,
}

-- a process with no time left
abbrev pub Expired : Heap → Ptr → Type 0
Expired h p = (p ≢ 0) × (pos_part (h.cell p).ttl ≡ 0)

Expired-SameTtl : (h h' : Heap) → SameTtl h h' → (p : Ptr) → Expired h p → Expired h' p
Expired-SameTtl h h' same p e = (e.0, ap pos_part (same p) ∙ e.1)

enqueue_completed :
    (s : Scheduler) (p : Ptr) (h : Heap)
    → (enqueue_to_scheduler s p h).1.total_completed ≡ s.total_completed
unfolding enqueue_to_scheduler
enqueue_completed s p h = ground arith

remove_thread-below :
    (k : ℕ) (core : Core) (j : ℕ)
    → k < core.current_pcb_count
    → j < k
    → ((remove_thread k core).hw_threads j).pcb ≡ (core.hw_threads j).pcb
unfolding remove_thread
remove_thread-below k core j lt m = ground (
  arith,
  shift_loop_lem (core.current_pcb_count - 1 - k) k
      (update core.hw_threads k (clear_thread (core.hw_threads k))) j,
)

-- what the inspection of thread `k` leaves alone
record Below (k : ℕ) (r r' : Round) : Type 0 where
  pcb : (j : ℕ) → j < k → (r'.core.hw_threads j).pcb ≡ (r.core.hw_threads j).pcb
  count : k ≤ r'.core.current_pcb_count
  fewer : r'.core.current_pcb_count ≤ r.core.current_pcb_count
  threads : r'.core.num_kernel_threads ≡ r.core.num_kernel_threads
  completed : r.sched.total_completed ≤ r'.sched.total_completed

removed-Below :
    (k : ℕ) (r : Round) (sched : Scheduler) (h : Heap)
    → k < r.core.current_pcb_count
    → r.sched.total_completed ≤ sched.total_completed
    → Below k r (record { sched = sched; heap = h; core = remove_thread k r.core })
unfolding remove_thread
removed-Below k r sched h lt more = record {
  pcb = λ j m. remove_thread-below k r.core j lt m;
  count = omega arith;
  fewer = omega arith;
  threads = refl;
  completed = more;
}

complete-Below :
    (k : ℕ) (p : Ptr) (r : Round)
    → k < r.core.current_pcb_count
    → Below k r (complete k p r)
      × (r.sched.total_completed < (complete k p r).sched.total_completed)
unfolding complete
complete-Below k p r lt = (removed-Below k r _ _ lt (omega arith), omega arith)

expire-Below :
    (clk k : ℕ) (p : Ptr) (r : Round) → k < r.core.current_pcb_count → Below k r (expire clk k p r)
unfolding expire
expire-Below clk k p r lt = removed-Below k r _ _ lt (omega (arith, enqueue_completed r.sched p _))

same-Below :
    (k : ℕ) (r : Round) (h : Heap)
    → k < r.core.current_pcb_count
    → Below k r (record r { heap = h })
same-Below k r h lt = record {
  pcb = λ j m. refl;
  count = omega arith;
  fewer = omega arith;
  threads = refl;
  completed = omega arith;
}

module _ (clk k : ℕ) (r : Round) (lt : k < r.core.current_pcb_count) where
  abbrev counted : Ptr → Round
  counted p = record r {
    heap = modify p (λ p. record p { quantum_counter = p.quantum_counter +ℤ pos 1 }) r.heap;
  }

  from_counted : (p : Ptr) (r' : Round) → Below k (counted p) r' → Below k r r'
  from_counted p r' b = record {
    pcb = b.pcb;
    count = b.count;
    fewer = b.fewer;
    threads = b.threads;
    completed = b.completed;
  }

  check_process-Below : (p : Ptr) → Below k r (check_process clk k p r)
  unfolding check_process
  check_process-Below p = elim (Bool-cases (is_complete ((counted p).heap.cell p))) [
    | inl e ↦ rw e (from_counted p _ (complete-Below k p (counted p) lt).0)
    | inr e ↦ rw e (elim (Bool-cases (quantum_expired r.sched ((counted p).heap.cell p))) [
      | inl q ↦ rw q (from_counted p _ (expire-Below clk k p (counted p) lt))
      | inr q ↦ rw q (same-Below k r _ lt)
    ])
  ]

  check_thread-Below : Below k r (check_thread clk k r)
  unfolding check_thread
  check_thread-Below = elim (Bool-cases ((r.core.hw_threads k).pcb == 0)) [
    | inl e ↦ rw e (same-Below k r r.heap lt)
    | inr e ↦ rw e (check_process-Below (r.core.hw_threads k).pcb)
  ]

  completes-expired :
      (p : Ptr) → pos_part (r.heap.cell p).ttl ≡ 0 → is_complete ((counted p).heap.cell p) ≡ true
  unfolding is_complete
  completes-expired p e = ground arith

  check_thread-completes :
      Expired r.heap (r.core.hw_threads k).pcb
      → r.sched.total_completed < (check_thread clk k r).sched.total_completed
  unfolding check_thread check_process
  check_thread-completes e =
      let p = (r.core.hw_threads k).pcb in
      let alive : (p == 0) ≡ false = ground (arith, e.0) in
      rw (alive, completes-expired p e.1) (complete-Below k p (counted p) lt).1

-- what the inspection of a core leaves
pub record Inspects (r r' : Round) : Type 0 where
  pub fewer : r'.core.current_pcb_count ≤ r.core.current_pcb_count
  pub threads : r'.core.num_kernel_threads ≡ r.core.num_kernel_threads
  pub completed : r.sched.total_completed ≤ r'.sched.total_completed

pub check_threads-Inspects :
    (clk n : ℕ) (r : Round) → n ≤ r.core.current_pcb_count → Inspects r (check_threads clk n r)
unfolding check_threads
check_threads-Inspects clk zero r le = record {
  fewer = omega arith;
  threads = refl;
  completed = omega arith;
}
check_threads-Inspects clk (suc k) r le =
    let one = check_thread-Below clk k r (omega arith) in
    let rest = check_threads-Inspects clk k (check_thread clk k r) one.count in
    record {
      fewer = omega (arith, one.fewer, rest.fewer);
      threads = rest.threads ∙ one.threads;
      completed = omega (arith, one.completed, rest.completed);
    }

check_threads-completes :
    (clk n : ℕ) (r : Round) (k : ℕ)
    → n ≤ r.core.current_pcb_count
    → k < n
    → Expired r.heap (r.core.hw_threads k).pcb
    → r.sched.total_completed < (check_threads clk n r).sched.total_completed
unfolding check_threads
check_threads-completes clk zero r k le lt e = absurd (omega arith)
check_threads-completes clk (suc m) r k le lt e =
    let one = check_thread-Below clk m r (omega arith) in
    let later = check_threads-Inspects clk m (check_thread clk m r) one.count in
    elim (Bool-cases (ltb k m)) [
      | inl below ↦
          let under : k < m = ground arith in
          let still : Expired (check_thread clk m r).heap
              ((check_thread clk m r).core.hw_threads k).pcb =
            rw (one.pcb k under) (
              Expired-SameTtl r.heap (check_thread clk m r).heap (check_thread-SameTtl clk m r)
                (r.core.hw_threads k).pcb e) in
          omega (
            arith,
            one.completed,
            check_threads-completes clk m (check_thread clk m r) k one.count under still,
          )
      | inr last ↦
          let same : k ≡ m = ground arith in
          let e' : Expired r.heap (r.core.hw_threads m).pcb = rw (← same) e in
          omega (arith, later.completed, check_thread-completes clk m r (omega arith) e')
    ]

-- what the inspection of several cores leaves
record InspectsCores (cores : List Core) (s : Scheduler) (out : List Core × Scheduler × Heap)
    : Type 0 where
  shape : SameCores cores out.0
  completed : s.total_completed ≤ out.1.total_completed

check_cores-Inspects :
    (clk : ℕ) (cores : List Core) (s : Scheduler) (h : Heap)
    → InspectsCores cores s (check_cores clk cores s h)
unfolding check_cores
check_cores-Inspects clk [] s h = record {
  shape = record { threads = refl; fits = λ f. f };
  completed = omega arith;
}
check_cores-Inspects clk (core ∷ cores) s h =
    let r : Round = record { sched = s; heap = h; core = core } in
    let r' = check_threads clk core.current_pcb_count r in
    let one = check_threads-Inspects clk core.current_pcb_count r (omega arith) in
    let rest = check_cores-Inspects clk cores r'.sched r'.heap in
    record {
      shape = SameCores-cons one.threads one.fewer rest.shape;
      completed = omega (arith, one.completed, rest.completed);
    }

check_cores-completes :
    (clk : ℕ) (cores : List Core) (s : Scheduler) (h : Heap)
    → Has (Expired h) (slots_cores cores)
    → s.total_completed < (check_cores clk cores s h).1.total_completed
unfolding check_cores
check_cores-completes clk [] s h e = absurd e
check_cores-completes clk (core ∷ cores) s h e =
    let r : Round = record { sched = s; heap = h; core = core } in
    let r' = check_threads clk core.current_pcb_count r in
    let one = check_threads-Inspects clk core.current_pcb_count r (omega arith) in
    let rest = check_cores-Inspects clk cores r'.sched r'.heap in
    elim (Has-append (Expired h) (slots core) (slots_cores cores) e) [
      | inl here ↦
          let (k, lt, x) =
            Has-listing (Expired h) core.current_pcb_count (λ k. (core.hw_threads k).pcb) here in
          omega (
            arith,
            check_threads-completes clk core.current_pcb_count r k (omega arith) lt x,
            rest.completed,
          )
      | inr later ↦
          let still =
            Has-map (Expired h) (Expired r'.heap)
              (Expired-SameTtl h r'.heap (check_threads-SameTtl clk core.current_pcb_count r))
              (slots_cores cores) later in
          omega (arith, one.completed, check_cores-completes clk cores r'.sched r'.heap still)
    ]

record InspectsCpus (cpus : List Cpu) (s : Scheduler) (out : List Cpu × Scheduler × Heap)
    : Type 0 where
  shape : SameCpus cpus out.0
  completed : s.total_completed ≤ out.1.total_completed

check_cpus-Inspects :
    (clk : ℕ) (cpus : List Cpu) (s : Scheduler) (h : Heap)
    → InspectsCpus cpus s (check_cpus clk cpus s h)
unfolding check_cpus
check_cpus-Inspects clk [] s h = record {
  shape = record { threads = refl; fits = λ f. f };
  completed = omega arith;
}
check_cpus-Inspects clk (cpu ∷ cpus) s h =
    let (cores', s', h') = check_cores clk cpu.cores s h in
    let one = check_cores-Inspects clk cpu.cores s h in
    let rest = check_cpus-Inspects clk cpus s' h' in
    record {
      shape = SameCpus-cons one.shape rest.shape;
      completed = omega (arith, one.completed, rest.completed);
    }

check_cpus-completes :
    (clk : ℕ) (cpus : List Cpu) (s : Scheduler) (h : Heap)
    → Has (Expired h) (slots_cpus cpus)
    → s.total_completed < (check_cpus clk cpus s h).1.total_completed
unfolding check_cpus
check_cpus-completes clk [] s h e = absurd e
check_cpus-completes clk (cpu ∷ cpus) s h e =
    let (cores', s', h') = check_cores clk cpu.cores s h in
    let one = check_cores-Inspects clk cpu.cores s h in
    let rest = check_cpus-Inspects clk cpus s' h' in
    elim (Has-append (Expired h) (slots_cores cpu.cores) (slots_cpus cpus) e) [
      | inl here ↦ omega (arith, check_cores-completes clk cpu.cores s h here, rest.completed)
      | inr later ↦
          let still =
            Has-map (Expired h) (Expired h')
              (Expired-SameTtl h h' (check_cores-SameTtl clk cpu.cores s h)) (slots_cpus cpus)
              later in
          omega (arith, one.completed, check_cpus-completes clk cpus s' h' still)
    ]

pub SameCpus-check_machine :
    (clk : ℕ) (s : System) → SameCpus s.machine.cpus (check_machine clk s).machine.cpus
unfolding check_machine
SameCpus-check_machine clk s = (check_cpus-Inspects clk s.machine.cpus s.sched s.heap).shape

-- The inspection counts a process that has no time left as completed.
pub check_machine-completes :
    (clk : ℕ) (s : System)
    → Has (Expired s.heap) (executing s.machine)
    → s.sched.total_completed < (check_machine clk s).sched.total_completed
unfolding check_machine
check_machine-completes clk s e = check_cpus-completes clk s.machine.cpus s.sched s.heap e
