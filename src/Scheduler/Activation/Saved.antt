-- ===== src/Scheduler/Activation/Saved.antt =====
-- The context of a process whose quantum expires, from its thread through its PCB to the next thread.
use the_loc_os.Base.{ℕ, ◌<◌, ◌≡◌, refl, arith}
use the_loc_os.Queue.{Ptr}
use the_loc_os.Process.{Pcb, copy_registers}
use the_loc_os.Process.Ttl.{copy_registers_lem}
use the_loc_os.Machine.{HardwareThread, load_thread}
use the_loc_os.Scheduler.{Scheduler}
use the_loc_os.Scheduler.Activation.{save_context, set_deadline, start}

-- The thread `new` goes on where the thread `old` stopped, in the address space of `p`.
pub record Resumes (old : HardwareThread) (p : Pcb) (new : HardwareThread) : Type 0 where
  pub pc : new.pc ≡ old.pc
  pub ir : new.ir ≡ old.ir
  pub registers : (r : ℕ) → r < 16 → new.registers r ≡ old.registers r
  pub ptbr : new.ptbr ≡ p.mm.pgb
  pub page_table : new.mmu.page_table_base ≡ p.mm.pgb
  pub enabled : new.mmu.enabled ≡ 1

-- A process whose quantum expires on one thread, and that the scheduler starts again later on any
-- thread, has the program counter, the instruction and the 16 registers that it had, and its page
-- table.
pub load_thread-save_context :
    (old new : HardwareThread) (sched : Scheduler) (clk clk' : ℕ) (pcb : Ptr) (p : Pcb)
    → Resumes old p
        (load_thread new pcb (start sched clk' (set_deadline sched clk (save_context old p))))
unfolding load_thread save_context
load_thread-save_context old new sched clk clk' pcb p = record {
  pc = ground arith;
  ir = ground arith;
  registers = λ r h. ground (
    arith,
    copy_registers_lem new.registers (copy_registers p.context.registers old.registers) r,
    copy_registers_lem p.context.registers old.registers r,
  );
  ptbr = ground arith;
  page_table = ground arith;
  enabled = refl;
}
