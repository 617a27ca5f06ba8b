-- ===== src/Process.antt =====
-- The process control block of sys/process.h and its functions in sys/process.c. PCBs are shared by
-- pointer between the queues and the hardware threads, so they stand in a heap: what each address
-- holds, and which addresses are allocated. `malloc` is not the program's: it is the argument
-- `malloc` of the functions that allocate.
pub mod Ttl
pub mod Tests
use the_loc_os.Base.{
  ℕ, ◌+◌, ◌-◌, Bool, true, false, Option, none, some, ◌==◌, if◌then◌else◌, update, ℤ, pos, negsuc,
  ltb_ℤ, ◌-ℤ◌, for_range,
}
use the_loc_os.Queue.{Ptr, null}

abbrev pub running_state : ℕ
running_state = 0

abbrev pub waiting : ℕ
waiting = 1

abbrev pub terminated : ℕ
terminated = 2

abbrev pub min_priority : ℤ
min_priority = negsuc 19

abbrev pub max_priority : ℤ
max_priority = pos 19

abbrev pub num_priority_levels : ℕ
num_priority_levels = 40

-- `code` and `data` hold virtual addresses; `pgb` is NULL or the word at which the page table starts.
pub record MemoryManagement : Type 0 where
  pub code : ℕ
  pub data_start : ℕ
  pub pgb : Option ℕ

pub record ExecutionContext : Type 0 where
  pub pc : ℕ
  pub instruction : ℕ
  pub registers : ℕ → ℕ

pub record Pcb : Type 0 where
  pub pid : ℤ
  pub state : ℕ
  pub priority : ℤ
  pub ttl : ℤ
  pub initial_ttl : ℤ
  pub quantum_counter : ℤ
  pub virtual_deadline : ℤ
  pub mm : MemoryManagement
  pub context : ExecutionContext

pub record Heap : Type 0 where
  pub cell : Ptr → Pcb
  pub live : Ptr → Bool

-- `*p = f(*p)`
abbrev pub modify : Ptr → (Pcb → Pcb) → Heap → Heap
modify p f h = record h { cell = update h.cell p (f (h.cell p)) }

-- for (r = 0; r < 16; r++) to[r] = from[r]
pub copy_registers : (ℕ → ℕ) → (ℕ → ℕ) → ℕ → ℕ
copy_registers to from = for_range 16 0 (λ r regs. update regs r (from r)) to

-- what `create_pcb` fills in; `garbage` is what the registers held
abbrev pub new_pcb : ℤ → (ℕ → ℕ) → Pcb
new_pcb pid garbage = record {
  pid = pid;
  state = waiting;
  priority = pos 0;
  ttl = pos 0;
  initial_ttl = pos 0;
  quantum_counter = pos 0;
  virtual_deadline = pos 0;
  mm = record { code = 0; data_start = 0; pgb = none };
  context = record {
    pc = 0;
    instruction = 0;
    registers = for_range 16 0 (λ i regs. update regs i 0) garbage;
  };
}

unfoldable pub create_pcb : (Heap → Ptr) → ℤ → Heap → Ptr × Heap
create_pcb malloc pid h =
    let p = malloc h in
    if p == null then (null, h) else (
      p,
      record {
        cell = update h.cell p (new_pcb pid (h.cell p).context.registers);
        live = update h.live p true;
      },
    )

unfoldable pub set_pcb_priority : Ptr → ℤ → Heap → Heap
set_pcb_priority pcb priority h =
    if pcb == null then h else modify pcb (λ p. record p { priority = priority }) h

unfoldable pub set_pcb_ttl : Ptr → ℤ → Heap → Heap
set_pcb_ttl pcb ttl h =
    if pcb == null then h else modify pcb (λ p. record p { ttl = ttl; initial_ttl = ttl }) h

pub get_pcb_ttl : Ptr → Heap → ℤ
get_pcb_ttl pcb h = if pcb == null then negsuc 0 else (h.cell pcb).ttl

pub decrement_pcb_ttl : Ptr → Heap → ℤ × Heap
decrement_pcb_ttl pcb h =
    let h' =
      if pcb == null
      then h
      else if ltb_ℤ (pos 0) (h.cell pcb).ttl
      then modify pcb (λ p. record p { ttl = p.ttl -ℤ pos 1 }) h
      else h in
    (if pcb == null then negsuc 0 else (h'.cell pcb).ttl, h')

pub reset_pcb_ttl : Ptr → Heap → Heap
reset_pcb_ttl pcb h =
    if pcb == null then h else modify pcb (λ p. record p { ttl = p.initial_ttl }) h

unfoldable pub destroy_pcb : Ptr → Heap → Heap
destroy_pcb pcb h = if pcb == null then h else record h { live = update h.live pcb false }
