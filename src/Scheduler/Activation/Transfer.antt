-- ===== src/Scheduler/Activation/Transfer.antt =====
-- The transfer loop of the preemptive policy ends within its fuel.
use the_loc_os.Base.{
  ℤ, ℕ, zero, suc, ◌-◌, ◌≤◌, ◌≡◌, ◌≢◌, refl, ap, ◌∙◌, arith, Bool, true, false, ltb, ◌==◌,
  if◌then◌else◌, Option, some, none, Bool-cases, inl, inr, eqb_ℤ, ltb_ℤ, pos, not, ◌||◌, ◌&&◌,
}
use the_loc_os.Queue.{Ptr, ProcessQueue, enqueue_process}
use the_loc_os.Queue.Ring.{dequeue_process-advance, advance}
use the_loc_os.Process.{Heap, Pcb, create_pcb}
use the_loc_os.Machine.{Core, can_cpu_execute_process}
use the_loc_os.Scheduler.{Scheduler, enqueue_to_scheduler, enqueue_priority}
use the_loc_os.Scheduler.Preempt.{
  System, Location, save_preempted, preempt_core, preempt_at, preempt_lower_priority_processes,
  get_lowest_priority_executing,
}
use the_loc_os.Scheduler.Activation.{transfer_one, transfer}

-- the policy stays preemptive, and the ready queue as it is
record SameReady (s s' : Scheduler) : Type 0 where
  policy : s'.policy ≡ 2
  ready : s'.ready_queue ≡ s.ready_queue

enqueue_priority-SameReady :
    (s : Scheduler) (p : Ptr) (priority : ℤ) (q : Option (ℕ → ProcessQueue))
    → s.policy ≡ 2
    → SameReady s (enqueue_priority s p priority q).1
enqueue_priority-SameReady s p priority none e = record { policy = e; ready = refl }
enqueue_priority-SameReady s p priority (some queues) e = record {
  policy = ground arith;
  ready = ground arith;
}

enqueue-SameReady :
    (s : Scheduler) (p : Ptr) (h : Heap) → s.policy ≡ 2 → SameReady s (enqueue_to_scheduler s p h).1
unfolding enqueue_to_scheduler
enqueue-SameReady s p h e =
    let two : (s.policy == 2) ≡ true = ground arith in
    rw two (enqueue_priority-SameReady s p (h.cell p).priority s.priority_queues e)

save-SameReady :
    (malloc : Heap → Ptr) (old : Pcb) (s : System)
    → s.sched.policy ≡ 2
    → SameReady s.sched (save_preempted malloc old s).sched
unfolding save_preempted
save-SameReady malloc old s e = elim (Bool-cases ((create_pcb malloc old.pid s.heap).0 == 0)) [
  | inl failed ↦ rw failed (record { policy = e; ready = refl })
  | inr done ↦ rw done (enqueue-SameReady s.sched _ _ e)
]

preempt_core-SameReady :
    (malloc : Heap → Ptr) (at : Location) (s : System) (core : Option Core)
    → s.sched.policy ≡ 2
    → SameReady s.sched (preempt_core malloc at s core).sched
preempt_core-SameReady malloc at s none e = record { policy = e; ready = refl }
preempt_core-SameReady malloc at s (some core) e = save-SameReady malloc _ s e

preempt_at-SameReady :
    (malloc : Heap → Ptr) (s : System) (at : Option Location)
    → s.sched.policy ≡ 2
    → SameReady s.sched (preempt_at malloc s at).sched
preempt_at-SameReady malloc s none e = record { policy = e; ready = refl }
preempt_at-SameReady malloc s (some at) e = preempt_core-SameReady malloc at s _ e

preempt-SameReady :
    (malloc : Heap → Ptr) (p : Ptr) (s : System)
    → s.sched.policy ≡ 2
    → SameReady s.sched (preempt_lower_priority_processes malloc p s).sched
unfolding preempt_lower_priority_processes
preempt-SameReady malloc p s e =
    let keep : SameReady s.sched s.sched = record { policy = e; ready = refl } in
    let lowest = get_lowest_priority_executing s.machine in
    elim (Bool-cases (p == 0 || not (s.sched.policy == 2))) [
      | inl no_need ↦ rw no_need keep
      | inr b ↦
          rw b
            (elim (Bool-cases
              (not (eqb_ℤ lowest.0 (pos 20)) && ltb_ℤ (s.heap.cell p).priority lowest.0)) [
                | inl lower ↦ rw lower (preempt_at-SameReady malloc s lowest.1 e)
                | inr c ↦ rw c keep
              ])
    ]

-- The policy is preemptive, and if the loop goes on, `n` processes are left in the ready queue.
record Left (n : ℕ) (out : Bool × System) : Type 0 where
  policy : out.1.sched.policy ≡ 2
  size : out.0 ≡ true → out.1.sched.ready_queue.current_size ≡ n

enqueue-Left :
    (p : Ptr) (s : System)
    → s.sched.policy ≡ 2
    → Left s.sched.ready_queue.current_size (
        let (answer, sched) = enqueue_to_scheduler s.sched p s.heap in
        if eqb_ℤ answer (pos 0) then (true, record s { sched = sched }) else (
          false,
          record s {
            sched = record sched { ready_queue = (enqueue_process sched.ready_queue p).1 };
          },
        ))
enqueue-Left p s e =
    let same = enqueue-SameReady s.sched p s.heap e in
    elim (Bool-cases (eqb_ℤ (enqueue_to_scheduler s.sched p s.heap).0 (pos 0))) [
      | inl ok ↦ rw ok (record {
        policy = same.policy;
        size = λ go. ap (λ (q : ProcessQueue). q.current_size) same.ready;
      })
      | inr full ↦ rw full (record { policy = same.policy; size = λ go. cc })
    ]

Left-same : {n m : ℕ} {out : Bool × System} → m ≡ n → Left m out → Left n out
Left-same e l = record { policy = l.policy; size = λ go. l.size go ∙ e }

transfer_one-Left :
    (malloc : Heap → Ptr) (s : System)
    → s.sched.policy ≡ 2
    → s.sched.ready_queue.current_size ≢ 0
    → Left (s.sched.ready_queue.current_size - 1) (transfer_one malloc s)
unfolding transfer_one
transfer_one-Left malloc s e left =
    let x = s.sched.ready_queue.queue s.sched.ready_queue.front in
    let s1 : System = record s {
      sched = record (s.sched) { ready_queue = advance s.sched.ready_queue };
    } in
    rw (dequeue_process-advance s.sched.ready_queue left) (elim (Bool-cases (x == 0)) [
      | inl n ↦ rw n (record { policy = e; size = λ go. cc })
      | inr n ↦ rw n (elim (Bool-cases (can_cpu_execute_process s.machine)) [
        | inl can ↦ rw can (enqueue-Left x s1 e)
        | inr busy ↦
            let same = preempt-SameReady malloc x s1 e in
            rw busy (
              Left-same (ap (λ (q : ProcessQueue). q.current_size) same.ready)
                (enqueue-Left x (preempt_lower_priority_processes malloc x s1) same.policy))
      ])
    ])

-- Under the preemptive policy the transfer loop ends: as many rounds as there are processes in the
-- ready queue are enough, since any more rounds give the same result.
pub transfer-fuel :
    (n m : ℕ) (malloc : Heap → Ptr) (s : System)
    → s.sched.policy ≡ 2
    → s.sched.ready_queue.current_size ≤ n
    → s.sched.ready_queue.current_size ≤ m
    → transfer n malloc s ≡ transfer m malloc s
unfolding transfer
transfer-fuel zero zero malloc s e h k = refl
transfer-fuel zero (suc m) malloc s e h k =
    let empty : ltb 0 s.sched.ready_queue.current_size ≡ false = ground arith in rw empty refl
transfer-fuel (suc n) zero malloc s e h k =
    let empty : ltb 0 s.sched.ready_queue.current_size ≡ false = ground arith in rw empty refl
transfer-fuel (suc n) (suc m) malloc s e h k =
    elim (Bool-cases (ltb 0 s.sched.ready_queue.current_size)) [
      | inr empty ↦ rw empty refl
      | inl some_left ↦
          let one = transfer_one-Left malloc s e (ground arith) in
          rw some_left (elim (Bool-cases (transfer_one malloc s).0) [
            | inr stop ↦ rw stop refl
            | inl go ↦ rw go (
                transfer-fuel n m malloc (transfer_one malloc s).1 one.policy
                  (omega (arith, one.size go)) (omega (arith, one.size go)))
          ])
    ]
