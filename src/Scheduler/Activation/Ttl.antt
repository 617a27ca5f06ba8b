-- ===== src/Scheduler/Activation/Ttl.antt =====
-- A round of the scheduler leaves the time to live of every process alone.
use the_loc_os.Base.{ℕ, zero, suc, ◌≡◌, refl, ◌∙◌, arith, List, [], ◌∷◌, pos, ◌+ℤ◌}
use the_loc_os.Queue.{Ptr}
use the_loc_os.Process.{Heap, modify, Pcb, destroy_pcb}
use the_loc_os.Machine.{Core, Cpu, HardwareThread}
use the_loc_os.Scheduler.{Scheduler}
use the_loc_os.Scheduler.Preempt.{System}
use the_loc_os.Scheduler.Activation.{
  Round, complete, expire, check_process, check_thread, check_threads, check_cores, check_cpus,
  check_machine, save_context, set_deadline, start, dispatch_one, dispatch,
}

abbrev pub SameTtl : Heap → Heap → Type 0
SameTtl h h' = (p : Ptr) → (h'.cell p).ttl ≡ (h.cell p).ttl

modify-SameTtl :
    (q : Ptr) (f : Pcb → Pcb) (h : Heap)
    → (f (h.cell q)).ttl ≡ (h.cell q).ttl
    → SameTtl h (modify q f h)
modify-SameTtl q f h e p = ground arith

expired_ttl :
    (sched : Scheduler) (clk : ℕ) (t : HardwareThread) (p : Pcb)
    → (set_deadline sched clk (save_context t p)).ttl ≡ p.ttl
unfolding save_context
expired_ttl sched clk t p = ground arith

start_ttl : (sched : Scheduler) (clk : ℕ) (p : Pcb) → (start sched clk p).ttl ≡ p.ttl
start_ttl sched clk p = ground arith

complete-SameTtl : (k : ℕ) (q : Ptr) (r : Round) → SameTtl r.heap (complete k q r).heap
unfolding complete destroy_pcb
complete-SameTtl k q r p = ground arith

expire-SameTtl : (clk k : ℕ) (q : Ptr) (r : Round) → SameTtl r.heap (expire clk k q r).heap
unfolding expire
expire-SameTtl clk k q r =
    modify-SameTtl q (λ p. set_deadline r.sched clk (save_context (r.core.hw_threads k) p)) r.heap
      (expired_ttl r.sched clk (r.core.hw_threads k) (r.heap.cell q))

check_process-SameTtl :
    (clk k : ℕ) (q : Ptr) (r : Round) → SameTtl r.heap (check_process clk k q r).heap
unfolding check_process
check_process-SameTtl clk k q r p =
    let f = λ (p : Pcb). record p { quantum_counter = p.quantum_counter +ℤ pos 1 } in
    let h = modify q f r.heap in
    let first : SameTtl r.heap h = modify-SameTtl q f r.heap refl in
    ground (
      arith,
      first p,
      complete-SameTtl k q (record r { heap = h }) p,
      expire-SameTtl clk k q (record r { heap = h }) p,
    )

pub check_thread-SameTtl : (clk k : ℕ) (r : Round) → SameTtl r.heap (check_thread clk k r).heap
unfolding check_thread
check_thread-SameTtl clk k r p =
    ground (arith, check_process-SameTtl clk k (r.core.hw_threads k).pcb r p)

pub check_threads-SameTtl : (clk n : ℕ) (r : Round) → SameTtl r.heap (check_threads clk n r).heap
unfolding check_threads
check_threads-SameTtl clk zero r p = refl
check_threads-SameTtl clk (suc k) r p =
    check_threads-SameTtl clk k (check_thread clk k r) p ∙ check_thread-SameTtl clk k r p

pub check_cores-SameTtl :
    (clk : ℕ) (cores : List Core) (s : Scheduler) (h : Heap)
    → SameTtl h (check_cores clk cores s h).2
unfolding check_cores
check_cores-SameTtl clk [] s h p = refl
check_cores-SameTtl clk (core ∷ cores) s h p =
    let r =
      check_threads clk core.current_pcb_count (record { sched = s; heap = h; core = core }) in
    check_cores-SameTtl clk cores r.sched r.heap p
    ∙ check_threads-SameTtl clk core.current_pcb_count (record { sched = s; heap = h; core = core })
        p

check_cpus-SameTtl :
    (clk : ℕ) (cpus : List Cpu) (s : Scheduler) (h : Heap) → SameTtl h (check_cpus clk cpus s h).2
unfolding check_cpus
check_cpus-SameTtl clk [] s h p = refl
check_cpus-SameTtl clk (cpu ∷ cpus) s h p =
    let (cores', s', h') = check_cores clk cpu.cores s h in
    check_cpus-SameTtl clk cpus s' h' p ∙ check_cores-SameTtl clk cpu.cores s h p

pub check_machine-SameTtl : (clk : ℕ) (s : System) → SameTtl s.heap (check_machine clk s).heap
unfolding check_machine
check_machine-SameTtl clk s = check_cpus-SameTtl clk s.machine.cpus s.sched s.heap

dispatch_one-SameTtl : (clk : ℕ) (s : System) → SameTtl s.heap (dispatch_one clk s).1.heap
unfolding dispatch_one
dispatch_one-SameTtl clk s p = ground arith

pub dispatch-SameTtl : (n clk : ℕ) (s : System) → SameTtl s.heap (dispatch n clk s).heap
unfolding dispatch
dispatch-SameTtl zero clk s p = refl
dispatch-SameTtl (suc n) clk s p =
    ground (arith, dispatch_one-SameTtl clk s p, dispatch-SameTtl n clk (dispatch_one clk s).1 p)
