-- ===== src/Machine/Cycle/Tests.antt =====
-- The theorems on the instruction cycle, on a program of three words.
use the_loc_os.Base.{refl, arith, false, ◌==◌, if◌then◌else◌}
use the_loc_os.Memory.PageTable.Tests.{two_tables, two_tables-Space, two_tables-target}
use the_loc_os.Machine.Tests.{heap, thread_of}
use the_loc_os.Machine.Cycle.{World}
use the_loc_os.Machine.Cycle.Isa.{Isa, isa_step, Simulates}
use the_loc_os.Machine.Cycle.Abstract.{cycles, isa_run, StaysInSpace, cycles_refine}

-- LD r1 from address 8; ADD r2 = r1 + r1; EXIT, which is the word that the first instruction loads
abbrev pub world : World
world = record { thread = thread_of 7; heap = heap; pm = two_tables 16777224 571539456 4026531840 }

abbrev pub isa : Isa
isa = record {
  pc = 0;
  regs = λ r. 0;
  mem = λ k.
      if k == 0 then 16777224 else if k == 1 then 571539456 else if k == 2 then 4026531840 else 0;
  halted = false;
}

pub world-Simulates : Simulates 0 1 world isa
world-Simulates = record {
  process = omega arith;
  table = refl;
  space = two_tables-Space 16777224 571539456 4026531840;
  pc = refl;
  regs = λ r. refl;
  mem = λ k h. rw (two_tables-target 16777224 571539456 4026531840 k h) (ground arith);
  halted = refl;
}

pub isa-StaysInSpace : StaysInSpace 1 3 isa
unfolding isa_step
isa-StaysInSpace = (
  record { fetch = omega arith; operand = λ h. omega arith },
  (
    record { fetch = omega arith; operand = λ h. omega arith },
    (record { fetch = omega arith; operand = λ h. omega arith }, tt),
  ),
)

cycles_refine_example : Simulates 0 1 (cycles 3 world) (isa_run 3 isa)
cycles_refine_example = cycles_refine 3 world-Simulates isa-StaysInSpace
