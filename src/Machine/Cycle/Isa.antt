-- ===== src/Machine/Cycle/Isa.antt =====
-- The instruction set as a machine of its own, with a flat memory of words, and the states of a
-- hardware thread that stand for its states.
use the_loc_os.Base.{
  ℕ, ◌+◌, ◌*◌, ◌/◌, ◌%◌, ◌^◌, ◌<◌, ◌≡◌, ◌≢◌, ap, arith, Bool, true, false, ◌==◌, if◌then◌else◌,
  some, update,
}
use the_loc_os.Process.{terminated}
use the_loc_os.Memory.PageTable.Space.{Space, virtual_word}
use the_loc_os.Machine.Cycle.{
  World, extract_opcode, extract_reg, extract_address, extract_reg_src1, extract_reg_src2,
}

pub record Isa : Type 0 where
  pub pc : ℕ
  pub regs : ℕ → ℕ
  pub mem : ℕ → ℕ
  pub halted : Bool

-- The effect of one instruction: 0 loads, 1 stores, 2 adds, all others halt.
abbrev pub isa_execute : Isa → ℕ → Isa
isa_execute s i =
    let next = (s.pc + 4) % 2 ^ 32 in
    let r = extract_reg i in
    if extract_opcode i == 0
    then record s { pc = next; regs = update s.regs r (s.mem (extract_address i / 4)) }
    else if extract_opcode i == 1
    then record s { pc = next; mem = update s.mem (extract_address i / 4) (s.regs r) }
    else if extract_opcode i == 2
    then record s {
      pc = next;
      regs = update s.regs r ((s.regs (extract_reg_src1 i) + s.regs (extract_reg_src2 i)) % 2 ^ 32);
    }
    else record s { halted = true }

unfoldable pub isa_step : Isa → Isa
isa_step s = if s.halted then s else isa_execute s (s.mem (s.pc / 4))

-- The thread runs a process whose table at word `t` maps `n` pages, and it stands where the
-- abstract machine stands.
pub record Simulates (t n : ℕ) (w : World) (s : Isa) : Type 0 where
  pub process : w.thread.pcb ≢ 0
  pub table : w.thread.ptbr ≡ some t
  pub space : Space w.pm t n
  pub pc : w.thread.pc ≡ s.pc
  pub regs : (r : ℕ) → w.thread.registers r ≡ s.regs r
  pub mem : (k : ℕ) → k < n * 1024 → virtual_word w.pm t k ≡ s.mem k
  pub halted : ((w.heap.cell w.thread.pcb).state == terminated) ≡ s.halted

-- The next instruction lies in the space, and so does the operand if it loads or stores.
pub record InSpace (n : ℕ) (s : Isa) : Type 0 where
  pub fetch : s.pc / 4096 < n
  pub operand :
      extract_opcode (s.mem (s.pc / 4)) < 2 → extract_address (s.mem (s.pc / 4)) / 4096 < n

pub isa_step-halted : (s : Isa) → s.halted ≡ true → isa_step s ≡ s
unfolding isa_step
isa_step-halted s e = ground arith

pub isa_step-running : (s : Isa) → s.halted ≡ false → isa_step s ≡ isa_execute s (s.mem (s.pc / 4))
unfolding isa_step
isa_step-running s e = ap (λ b. if b then s else isa_execute s (s.mem (s.pc / 4))) e
