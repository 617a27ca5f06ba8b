-- ===== src/Machine/Cycle.antt =====
-- The instruction cycle of sys/machine.c: decoding and execution on a hardware thread, the PCBs and
-- the physical memory. `pm` is never NULL here, and messages are not modelled.
pub mod Isa
pub mod Slot
pub mod Abstract
pub mod Straight
pub mod Tests
use the_loc_os.Base.{
  ℕ, ◌+◌, ◌-◌, ◌*◌, ◌/◌, ◌%◌, ◌^◌, Option, none, some, ◌==◌, if◌then◌else◌, update, ℤ, pos,
}
use the_loc_os.Queue.{Ptr, null}
use the_loc_os.Process.{Pcb, Heap, modify, terminated}
use the_loc_os.Memory.{PhysicalMemory}
use the_loc_os.Memory.PageTable.{mmu_read_word, mmu_write_word}
use the_loc_os.Machine.{HardwareThread}

abbrev pub op_ld : ℕ
op_ld = 0

abbrev pub op_st : ℕ
op_st = 1

abbrev pub op_add : ℕ
op_add = 2

abbrev pub op_exit : ℕ
op_exit = 15

-- `(x >> k) & 0xF` and `x & 0xFFFFFF`
abbrev pub extract_opcode : ℕ → ℕ
extract_opcode instruction = instruction / 2 ^ 28 % 16

abbrev pub extract_reg : ℕ → ℕ
extract_reg instruction = instruction / 2 ^ 24 % 16

abbrev pub extract_address : ℕ → ℕ
extract_address instruction = instruction % 2 ^ 24

abbrev pub extract_reg_src1 : ℕ → ℕ
extract_reg_src1 instruction = instruction / 2 ^ 20 % 16

abbrev pub extract_reg_src2 : ℕ → ℕ
extract_reg_src2 instruction = instruction / 2 ^ 16 % 16

-- what a cycle reads and changes
pub record World : Type 0 where
  pub thread : HardwareThread
  pub heap : Heap
  pub pm : PhysicalMemory

pub execute_ld : World → ℕ → World
execute_ld w instruction =
    let value = mmu_read_word w.pm w.thread.ptbr (extract_address instruction) in
    record w {
      thread = record (w.thread) {
        registers = update w.thread.registers (extract_reg instruction) value;
      };
    }

pub execute_st : World → ℕ → World
execute_st w instruction =
    let value = w.thread.registers (extract_reg instruction) in
    record w { pm = mmu_write_word w.pm w.thread.ptbr (extract_address instruction) value }

-- The sum of two `int32_t`, stored as `uint32_t`: signed overflow, undefined in C, wraps here as it
-- does on two's complement machines.
pub execute_add : World → ℕ → World
execute_add w instruction =
    let val1 = w.thread.registers (extract_reg_src1 instruction) in
    let val2 = w.thread.registers (extract_reg_src2 instruction) in
    record w {
      thread = record (w.thread) {
        registers = update w.thread.registers (extract_reg instruction) ((val1 + val2) % 2 ^ 32);
      };
    }

pub execute_exit : World → World
execute_exit w = if w.thread.pcb == null then w else record w {
  heap = modify w.thread.pcb (λ p. record p { state = terminated; ttl = pos 0 }) w.heap;
}

-- `hw_thread->PC += 4`
abbrev pub next_pc : World → World
next_pc w = record w { thread = record (w.thread) { pc = (w.thread.pc + 4) % 2 ^ 32 } }

-- an unknown opcode
pub execute_unknown : World → World
execute_unknown w = record w {
  heap = modify w.thread.pcb (λ p. record p { state = terminated }) w.heap;
}

pub execute : World → ℕ → World
execute w instruction =
    let opcode = extract_opcode instruction in
    if opcode == op_ld
    then next_pc (execute_ld w instruction)
    else if opcode == op_st
    then next_pc (execute_st w instruction)
    else if opcode == op_add
    then next_pc (execute_add w instruction)
    else if opcode == op_exit
    then execute_exit w
    else execute_unknown w

-- fetch, decode and execute with a page table
pub fetch_and_execute : World → World
fetch_and_execute w =
    let instruction = mmu_read_word w.pm w.thread.ptbr w.thread.pc in
    execute (record w { thread = record (w.thread) { ir = instruction } }) instruction

pub execute_instruction_cycle : World → World
execute_instruction_cycle w =
    if w.thread.pcb == null
    then w
    else if (w.heap.cell w.thread.pcb).state == terminated
    then w
    else elim (w.thread.ptbr) [ none ↦ w | some t ↦ fetch_and_execute w ]
