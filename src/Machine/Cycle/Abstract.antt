-- ===== src/Machine/Cycle/Abstract.antt =====
-- A hardware thread whose page table maps its program is the abstract machine of Isa.
use the_loc_os.Base.{
  ℕ, zero, suc, ◌+◌, ◌/◌, ◌%◌, ◌^◌, ◌<◌, ◌≡◌, ap, ◌∙◌, arith, true, false, inl, inr, ◌==◌, update,
  Bool-cases,
}
use the_loc_os.Memory.PageTable.{mmu_read_word}
use the_loc_os.Memory.PageTable.Space.{mmu_read-word, virtual_word-mmu_write, Space-mmu_write}
use the_loc_os.Machine.Cycle.{
  World, extract_opcode, extract_reg, extract_address, extract_reg_src1, extract_reg_src2,
  execute_ld, execute_st, execute_add, execute_exit, execute_unknown, execute, fetch_and_execute,
  execute_instruction_cycle, next_pc,
}
use the_loc_os.Machine.Cycle.Isa.{
  Isa, isa_execute, isa_step, Simulates, InSpace, isa_step-halted, isa_step-running,
}

module _ {t n : ℕ} {w : World} {s : Isa} (sim : Simulates t n w s) where
  fetched : InSpace n s → mmu_read_word w.pm w.thread.ptbr w.thread.pc ≡ s.mem (s.pc / 4)
  fetched l =
      rw (sim.table, sim.pc)
        (mmu_read-word sim.space s.pc l.fetch ∙ sim.mem (s.pc / 4) (omega (arith, l.fetch)))

  ld-Simulates :
      (i : ℕ)
      → extract_address i / 4096 < n
      → Simulates t n (next_pc (execute_ld w i)) (record s {
        pc = (s.pc + 4) % 2 ^ 32;
        regs = update s.regs (extract_reg i) (s.mem (extract_address i / 4));
      })
  unfolding execute_ld
  ld-Simulates i l = record {
    process = sim.process;
    table = sim.table;
    space = sim.space;
    pc = ap (λ p. (p + 4) % 2 ^ 32) sim.pc;
    regs = λ r. rw sim.table (
        ground (
          arith,
          sim.regs r,
          mmu_read-word sim.space (extract_address i) l,
          sim.mem (extract_address i / 4) (omega (arith, l)),
        ));
    mem = sim.mem;
    halted = sim.halted;
  }

  st-Simulates :
      (i : ℕ)
      → extract_address i / 4096 < n
      → Simulates t n (next_pc (execute_st w i)) (record s {
        pc = (s.pc + 4) % 2 ^ 32;
        mem = update s.mem (extract_address i / 4) (s.regs (extract_reg i));
      })
  unfolding execute_st
  st-Simulates i l = record {
    process = sim.process;
    table = sim.table;
    space = rw sim.table (Space-mmu_write sim.space (extract_address i) _ l);
    pc = ap (λ p. (p + 4) % 2 ^ 32) sim.pc;
    regs = sim.regs;
    mem = λ k h.
        rw (sim.table, virtual_word-mmu_write sim.space (extract_address i) _ k l h)
          (ground (arith, sim.mem k h, sim.regs (extract_reg i)));
    halted = sim.halted;
  }

  add-Simulates :
      (i : ℕ)
      → Simulates t n (next_pc (execute_add w i)) (record s {
        pc = (s.pc + 4) % 2 ^ 32;
        regs =
            update s.regs
              (extract_reg i)
              ((s.regs (extract_reg_src1 i) + s.regs (extract_reg_src2 i)) % 2 ^ 32);
      })
  unfolding execute_add
  add-Simulates i = record {
    process = sim.process;
    table = sim.table;
    space = sim.space;
    pc = ap (λ p. (p + 4) % 2 ^ 32) sim.pc;
    regs = λ r.
        ground (arith, sim.regs r, sim.regs (extract_reg_src1 i), sim.regs (extract_reg_src2 i));
    mem = sim.mem;
    halted = sim.halted;
  }

  exit-Simulates : Simulates t n (execute_exit w) (record s { halted = true })
  unfolding execute_exit
  exit-Simulates =
      let alive : (w.thread.pcb == 0) ≡ false = ground (arith, sim.process) in
      rw alive (record {
        process = sim.process;
        table = sim.table;
        space = sim.space;
        pc = sim.pc;
        regs = sim.regs;
        mem = sim.mem;
        halted = ground arith;
      })

  unknown-Simulates : Simulates t n (execute_unknown w) (record s { halted = true })
  unfolding execute_unknown
  unknown-Simulates = record {
    process = sim.process;
    table = sim.table;
    space = sim.space;
    pc = sim.pc;
    regs = sim.regs;
    mem = sim.mem;
    halted = ground arith;
  }

  execute-Simulates :
      (i : ℕ)
      → (extract_opcode i < 2 → extract_address i / 4096 < n)
      → Simulates t n (execute w i) (isa_execute s i)
  unfolding execute
  execute-Simulates i legal = elim (Bool-cases (extract_opcode i == 0)) [
    | inl ld ↦ rw ld (ld-Simulates i (legal (ground arith)))
    | inr e0 ↦ rw e0 (elim (Bool-cases (extract_opcode i == 1)) [
      | inl st ↦ rw st (st-Simulates i (legal (ground arith)))
      | inr e1 ↦ rw e1 (elim (Bool-cases (extract_opcode i == 2)) [
        | inl add ↦ rw add (add-Simulates i)
        | inr e2 ↦ rw e2 (elim (Bool-cases (extract_opcode i == 15)) [
          | inl exit ↦ rw exit exit-Simulates
          | inr e3 ↦ rw e3 unknown-Simulates
        ])
      ])
    ])
  ]

  halted-cycle : s.halted ≡ true → execute_instruction_cycle w ≡ w
  unfolding execute_instruction_cycle
  halted-cycle h = ground (arith, sim.process, sim.halted)

  running-cycle : s.halted ≡ false → execute_instruction_cycle w ≡ fetch_and_execute w
  unfolding execute_instruction_cycle
  running-cycle h = ground (arith, sim.process, sim.halted, sim.table)

with_ir-Simulates :
    {t n : ℕ} {w : World} {s : Isa} (i : ℕ)
    → Simulates t n w s
    → Simulates t n (record w { thread = record (w.thread) { ir = i } }) s
with_ir-Simulates i sim = record {
  process = sim.process;
  table = sim.table;
  space = sim.space;
  pc = sim.pc;
  regs = sim.regs;
  mem = sim.mem;
  halted = sim.halted;
}

fetch-Simulates :
    {t n : ℕ} {w : World} {s : Isa}
    → Simulates t n w s
    → InSpace n s
    → Simulates t n (fetch_and_execute w) (isa_execute s (s.mem (s.pc / 4)))
unfolding fetch_and_execute
fetch-Simulates sim l = rw (fetched sim l) (execute-Simulates (with_ir-Simulates _ sim) _ l.operand)

-- One instruction cycle of a thread is one step of the abstract machine, for every opcode, a
-- terminated process included, where the next instruction and the operand of a load or store lie
-- in the pages of the process.
pub cycle_refines :
    {t n : ℕ} {w : World} {s : Isa}
    → Simulates t n w s
    → InSpace n s
    → Simulates t n (execute_instruction_cycle w) (isa_step s)
cycle_refines {t} {n} {w} {s} sim l = elim (Bool-cases s.halted) [
  | inl e ↦ rw (halted-cycle sim e, isa_step-halted s e) sim
  | inr e ↦ rw (running-cycle sim e, isa_step-running s e) (fetch-Simulates sim l)
]

-- `n` cycles of a thread, and `n` steps of the abstract machine
unfoldable pub cycles : ℕ → World → World
cycles zero w = w
cycles (suc n) w = cycles n (execute_instruction_cycle w)

unfoldable pub isa_run : ℕ → Isa → Isa
isa_run zero s = s
isa_run (suc n) s = isa_run n (isa_step s)

-- Every one of the first `m` states of the abstract machine stays in the space.
abbrev pub StaysInSpace : ℕ → ℕ → Isa → Type 0
StaysInSpace n zero s = Unit
StaysInSpace n (suc m) s = InSpace n s × StaysInSpace n m (isa_step s)

-- Any number of instruction cycles of a hardware thread is that number of steps of an abstract
-- machine with a flat memory of words, registers and a halt flag, while the program stays in its
-- pages.
pub cycles_refine :
    {t n : ℕ} (m : ℕ) {w : World} {s : Isa}
    → Simulates t n w s
    → StaysInSpace n m s
    → Simulates t n (cycles m w) (isa_run m s)
unfolding cycles isa_run
cycles_refine zero sim l = sim
cycles_refine (suc m) sim l = cycles_refine m (cycle_refines sim l.0) l.1
