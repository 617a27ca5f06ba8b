-- ===== src/Clock.antt =====
-- One tick of `clock_function` in sys/clock.c, under the mutex. The sleep, the handshake with the
-- timers and the messages are not modelled; the machine reference is set before the clock starts.
pub mod Tick
pub mod Wane
pub mod Tests
use the_loc_os.Base.{
  ℕ, ◌+◌, ◌==◌, if◌then◌else◌, Option, none, some, List, [], ◌∷◌, update, for_range, ℤ, pos, ◌+ℤ◌,
}
use the_loc_os.Queue.{null}
use the_loc_os.Process.{Heap, terminated, decrement_pcb_ttl}
use the_loc_os.Memory.{PhysicalMemory}
use the_loc_os.Machine.{HardwareThread, Core, Cpu, Machine}
use the_loc_os.Machine.Cycle.{World, execute_instruction_cycle}

-- what the threads share: the PCBs and the memory, which is NULL until it is set
pub record Shared : Type 0 where
  pub heap : Heap
  pub pm : Option PhysicalMemory

-- the instruction cycle of a thread, where there is a memory and the process has not terminated
pub execute_thread : HardwareThread → Heap → Option PhysicalMemory → HardwareThread × Shared
execute_thread hw_thread h none = (hw_thread, record { heap = h; pm = none })
execute_thread hw_thread h (some pm) =
    let w = execute_instruction_cycle (record { thread = hw_thread; heap = h; pm = pm }) in
    if (h.cell hw_thread.pcb).state == terminated
    then (hw_thread, record { heap = h; pm = some pm })
    else (w.thread, record { heap = w.heap; pm = some w.pm })

-- the body of the loops
pub tick_thread : HardwareThread → Shared → HardwareThread × Shared
tick_thread hw_thread s =
    if hw_thread.pcb == null
    then (hw_thread, s)
    else execute_thread hw_thread (decrement_pcb_ttl hw_thread.pcb s.heap).1 s.pm

pub tick_slot : ℕ → Core × Shared → Core × Shared
tick_slot k (core, s) =
    let (hw_thread, s') = tick_thread (core.hw_threads k) s in
    (record core { hw_threads = update core.hw_threads k hw_thread }, s')

-- all threads of a core, in use or not
pub tick_core : Core → Shared → Core × Shared
tick_core core s = for_range core.num_kernel_threads 0 tick_slot (core, s)

pub tick_cores : List Core → Shared → List Core × Shared
tick_cores [] s = ([], s)
tick_cores (core ∷ cores) s =
    let (core', s') = tick_core core s in
    let (cores', s'') = tick_cores cores s' in (core' ∷ cores', s'')

pub tick_cpus : List Cpu → Shared → List Cpu × Shared
tick_cpus [] s = ([], s)
tick_cpus (cpu ∷ cpus) s =
    let (cores', s') = tick_cores cpu.cores s in
    let (cpus', s'') = tick_cpus cpus s' in (record { cores = cores' } ∷ cpus', s'')

pub record Clock : Type 0 where
  pub clk_counter : ℤ
  pub machine : Machine
  pub shared : Shared

pub tick : Clock → Clock
tick c =
    let (cpus', s') = tick_cpus c.machine.cpus c.shared in
    record { clk_counter = c.clk_counter +ℤ pos 1; machine = record { cpus = cpus' }; shared = s' }
