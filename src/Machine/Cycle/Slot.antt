-- ===== src/Machine/Cycle/Slot.antt =====
-- What an instruction cycle leaves alone on its thread, and the time to live.
use the_loc_os.Base.{ℕ, ◌≤◌, pos_part, ◌≡◌, refl, arith, ◌==◌, Bool-cases, inl, inr, Option-cases}
use the_loc_os.Queue.{Ptr}
use the_loc_os.Process.{terminated}
use the_loc_os.Machine.Cycle.{
  World, execute_ld, execute_st, execute_add, execute_exit, execute_unknown, execute,
  fetch_and_execute, execute_instruction_cycle,
}

execute-pcb : (w : World) (i : ℕ) → (execute w i).thread.pcb ≡ w.thread.pcb
unfolding execute execute_ld execute_st execute_add execute_exit execute_unknown
execute-pcb w i = ground arith

pub cycle-pcb : (w : World) → (execute_instruction_cycle w).thread.pcb ≡ w.thread.pcb
unfolding execute_instruction_cycle fetch_and_execute
cycle-pcb w = elim (Bool-cases (w.thread.pcb == 0)) [
  | inl e ↦ rw e refl
  | inr e ↦ rw e (elim (Bool-cases ((w.heap.cell w.thread.pcb).state == terminated)) [
    | inl t ↦ rw t refl
    | inr t ↦ rw t (elim (Option-cases w.thread.ptbr) [
      | inl n ↦ rw n refl
      | inr (b, n) ↦ rw n (execute-pcb _ _)
    ])
  ])
]

execute-ttl :
    (w : World) (i : ℕ) (p : Ptr)
    → pos_part ((execute w i).heap.cell p).ttl ≤ pos_part (w.heap.cell p).ttl
unfolding execute execute_ld execute_st execute_add execute_exit execute_unknown
execute-ttl w i p = ground arith

-- an instruction cycle gives no process more time to live
pub cycle-ttl :
    (w : World) (p : Ptr)
    → pos_part ((execute_instruction_cycle w).heap.cell p).ttl ≤ pos_part (w.heap.cell p).ttl
unfolding execute_instruction_cycle fetch_and_execute
cycle-ttl w p = elim (Bool-cases (w.thread.pcb == 0)) [
  | inl e ↦ rw e (omega arith)
  | inr e ↦ rw e (elim (Bool-cases ((w.heap.cell w.thread.pcb).state == terminated)) [
    | inl t ↦ rw t (omega arith)
    | inr t ↦ rw t (elim (Option-cases w.thread.ptbr) [
      | inl n ↦ rw n (omega arith)
      | inr (b, n) ↦ rw n (execute-ttl _ _ p)
    ])
  ])
]
