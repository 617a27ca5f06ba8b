-- ===== src/Scheduler/Activation.antt =====
-- One round of `scheduler_function` in sys/process.c, from the wake-up to the release of the clock's
-- mutex, under which it runs. The global `running` and `sched->running` are 1 throughout: another
-- thread may clear them, and the round then ends early, after which the system stops. The waits for
-- the clock or the timer, the broadcast on `clk_cond` and the messages are not modelled.
pub mod Thread
pub mod Conserve
pub mod Inspect
pub mod Dispatch
pub mod RoundRobin
pub mod Ttl
pub mod Completed
pub mod Saved
pub mod Transfer
pub mod Tests
use the_loc_os.Base.{
  ℕ, zero, suc, ◌+◌, ◌-◌, Bool, true, false, ◌||◌, ◌&&◌, not, Option, none, some, List, [], ◌∷◌,
  ltb, ◌==◌, if◌then◌else◌, update, ℤ, pos, eqb_ℤ, leb_ℤ, ltb_ℤ, ◌+ℤ◌, ◌*ℤ◌, quot_ℤ, shift_loop,
}
use the_loc_os.Queue.{Ptr, null, enqueue_process, dequeue_process}
use the_loc_os.Process.{
  Pcb, Heap, modify, destroy_pcb, copy_registers, terminated, waiting, running_state,
}
use the_loc_os.Machine.{
  HardwareThread, Core, Cpu, Machine, clear_thread, unlink_thread, can_cpu_execute_process,
  assign_process_to_core,
}
use the_loc_os.Scheduler.{
  Scheduler, bfs, preemptive_prio, sync_clock, sync_timer, has_ready_processes,
  enqueue_to_scheduler, count_processes_in_priority_queues,
}
use the_loc_os.Scheduler.Select.{select_next_process}
use the_loc_os.Scheduler.Preempt.{System, preempt_lower_priority_processes}

-- The hardware thread `k` is cleared, the ones behind it move up whole with the copies, and the last
-- is unlinked.
pub remove_thread : ℕ → Core → Core
remove_thread k core =
    let last = core.current_pcb_count - 1 in
    let threads =
      shift_loop (last - k) k (update core.hw_threads k (clear_thread (core.hw_threads k))) in
    record core {
      hw_threads = update threads last (unlink_thread (threads last));
      pcbs = shift_loop (last - k) k core.pcbs;
      current_pcb_count = last;
    }

-- the scheduler, the PCBs and the core at hand
pub record Round : Type 0 where
  pub sched : Scheduler
  pub heap : Heap
  pub core : Core

-- deadline = T_actual + quantum * priority / 100
pub deadline_from : Scheduler → ℕ → ℤ → ℤ
deadline_from sched clk_counter priority = pos clk_counter +ℤ quot_ℤ (sched.quantum *ℤ priority) 100

-- the context of a thread, saved in its PCB, which goes back to waiting
pub save_context : HardwareThread → Pcb → Pcb
save_context hw_thread p = record p {
  context = record {
    pc = hw_thread.pc;
    instruction = hw_thread.ir;
    registers = copy_registers p.context.registers hw_thread.registers;
  };
  state = waiting;
  quantum_counter = pos 0;
}

abbrev pub set_deadline : Scheduler → ℕ → Pcb → Pcb
set_deadline sched clk_counter p =
    if sched.policy == bfs
    then record p { virtual_deadline = deadline_from sched clk_counter p.priority }
    else p

-- the process on thread `k` is complete
pub complete : ℕ → Ptr → Round → Round
complete k pcb r = record {
  sched = record (r.sched) { total_completed = r.sched.total_completed + 1 };
  heap = destroy_pcb pcb (modify pcb (λ p. record p { mm = record (p.mm) { pgb = none } }) r.heap);
  core = remove_thread k r.core;
}

-- its quantum has expired: it goes back to a queue, whatever the queue answers
pub expire : ℕ → ℕ → Ptr → Round → Round
expire clk_counter k pcb r =
    let heap =
      modify pcb (λ p. set_deadline r.sched clk_counter (save_context (r.core.hw_threads k) p))
        r.heap in
    record {
      sched = (enqueue_to_scheduler r.sched pcb heap).1;
      heap = heap;
      core = remove_thread k r.core;
    }

pub quantum_expired : Scheduler → Pcb → Bool
quantum_expired sched p =
    sched.sync_mode == sync_timer && leb_ℤ (pos 1) p.quantum_counter
    || sched.sync_mode == sync_clock && leb_ℤ sched.quantum p.quantum_counter

pub is_complete : Pcb → Bool
is_complete p = p.state == terminated || leb_ℤ p.ttl (pos 0)

-- the body of the inner loop for a thread that runs `pcb`
pub check_process : ℕ → ℕ → Ptr → Round → Round
check_process clk_counter k pcb r =
    let r' = record r {
      heap = modify pcb (λ p. record p { quantum_counter = p.quantum_counter +ℤ pos 1 }) r.heap;
    } in
    if is_complete (r'.heap.cell pcb)
    then complete k pcb r'
    else if quantum_expired r'.sched (r'.heap.cell pcb)
    then expire clk_counter k pcb r'
    else r'

pub check_thread : ℕ → ℕ → Round → Round
check_thread clk_counter k r =
    if (r.core.hw_threads k).pcb == null
    then r
    else check_process clk_counter k (r.core.hw_threads k).pcb r

-- the threads n - 1 down to 0 of a core
pub check_threads : ℕ → ℕ → Round → Round
check_threads clk_counter zero r = r
check_threads clk_counter (suc k) r = check_threads clk_counter k (check_thread clk_counter k r)

-- the scheduler, the PCBs and the cores gone through
pub check_cores : ℕ → List Core → Scheduler → Heap → List Core × Scheduler × Heap
check_cores clk_counter [] sched h = ([], sched, h)
check_cores clk_counter (core ∷ cores) sched h =
    let r =
      check_threads clk_counter core.current_pcb_count
        (record { sched = sched; heap = h; core = core }) in
    let (cores', sched', h') = check_cores clk_counter cores r.sched r.heap in
    (r.core ∷ cores', sched', h')

pub check_cpus : ℕ → List Cpu → Scheduler → Heap → List Cpu × Scheduler × Heap
check_cpus clk_counter [] sched h = ([], sched, h)
check_cpus clk_counter (cpu ∷ cpus) sched h =
    let (cores', sched', h') = check_cores clk_counter cpu.cores sched h in
    let (cpus', sched'', h'') = check_cpus clk_counter cpus sched' h' in
    (record { cores = cores' } ∷ cpus', sched'', h'')

pub check_machine : ℕ → System → System
check_machine clk_counter s =
    let (cpus', sched', h') = check_cpus clk_counter s.machine.cpus s.sched s.heap in
    record { sched = sched'; machine = record { cpus = cpus' }; heap = h' }

-- The transfer of one arrived process to its priority queue; the Boolean says whether to go on.
pub transfer_one : (Heap → Ptr) → System → Bool × System
transfer_one malloc s =
    let (pcb, ready) = dequeue_process s.sched.ready_queue in
    let s1 = record s { sched = record (s.sched) { ready_queue = ready } } in
    if pcb == null
    then (false, s1)
    else let s2 =
        if can_cpu_execute_process s1.machine
        then s1
        else preempt_lower_priority_processes malloc pcb s1 in
      let (answer, sched) = enqueue_to_scheduler s2.sched pcb s2.heap in
      if eqb_ℤ answer (pos 0) then (true, record s2 { sched = sched }) else (
        false,
        record s2 {
          sched = record sched { ready_queue = (enqueue_process sched.ready_queue pcb).1 };
        },
      )

-- the loop, on as much fuel as there are processes in the ready queue
pub transfer : ℕ → (Heap → Ptr) → System → System
transfer zero malloc s = s
transfer (suc n) malloc s =
    let next = transfer n malloc (transfer_one malloc s).1 in
    if ltb 0 s.sched.ready_queue.current_size
    then (if (transfer_one malloc s).0 then next else (transfer_one malloc s).1)
    else s

-- the PCB of a process that is about to run
abbrev pub start : Scheduler → ℕ → Pcb → Pcb
start sched clk_counter p =
    let p' = record p { state = running_state; quantum_counter = pos 0 } in
    if sched.policy == bfs && eqb_ℤ p.virtual_deadline (pos 0)
    then record p' { virtual_deadline = deadline_from sched clk_counter p.priority }
    else p'

-- one round of the assignment loop; the Boolean says whether to go on
pub dispatch_one : ℕ → System → Bool × System
dispatch_one clk_counter s =
    let (pcb, sched) = select_next_process s.heap s.sched in
    if pcb == null
    then (false, record s { sched = sched })
    else let h = modify pcb (start sched clk_counter) s.heap in
      let (done, machine) = assign_process_to_core s.machine pcb h in
      if done then (true, record { sched = sched; machine = machine; heap = h }) else (
        false,
        record { sched = (enqueue_to_scheduler sched pcb h).1; machine = machine; heap = h },
      )

-- the loop, on fuel: each round but the last takes a process out of a queue
pub dispatch : ℕ → ℕ → System → System
dispatch zero clk_counter s = s
dispatch (suc n) clk_counter s =
    let next = dispatch n clk_counter (dispatch_one clk_counter s).1 in
    if has_ready_processes s.sched && can_cpu_execute_process s.machine
    then (if (dispatch_one clk_counter s).0 then next else (dispatch_one clk_counter s).1)
    else s

-- the processes that wait in a queue
abbrev pub waiting_count : Scheduler → ℕ
waiting_count sched = sched.ready_queue.current_size + count_processes_in_priority_queues sched

abbrev pub transfer_all : (Heap → Ptr) → System → System
transfer_all malloc s =
    if s.sched.policy == preemptive_prio
    then transfer s.sched.ready_queue.current_size malloc s
    else s

-- one round
pub activation : (Heap → Ptr) → ℕ → System → System
activation malloc clk_counter s =
    let s' = transfer_all malloc (check_machine clk_counter s) in
    dispatch (waiting_count s'.sched + 1) clk_counter s'
