-- ===== src/Process/Ttl.antt =====
-- The time to live of a process, and the copying of registers.
use the_loc_os.Base.{
  ℤ, pos_part, ◌≤◌, refl, ◌∙◌, ℕ, ◌-◌, ◌≡◌, ◌≢◌, arith, ltb, if◌then◌else◌, update, pos, ◌-ℤ◌,
  for_range_inv, zero, suc,
}
use the_loc_os.Queue.{Ptr}
use the_loc_os.Process.{
  Heap, copy_registers, decrement_pcb_ttl, get_pcb_ttl, set_pcb_ttl, reset_pcb_ttl,
}

-- The loop copies the 16 registers and leaves the rest of the target alone.
pub copy_registers_lem :
    (to from : ℕ → ℕ) (j : ℕ) → copy_registers to from j ≡ (if ltb j 16 then from j else to j)
unfolding copy_registers
copy_registers_lem to from j =
    for_range_inv (λ r regs. regs j ≡ (if ltb j r then from j else to j))
      (λ r regs. update regs r (from r)) (λ r regs h. ground arith) 16 0 16 to (omega arith)
      (ground arith)

-- `n` ticks of the clock, as far as a process sees them
unfoldable pub tick_ttl : ℕ → Ptr → Heap → Heap
tick_ttl zero pcb h = h
tick_ttl (suc n) pcb h = tick_ttl n pcb (decrement_pcb_ttl pcb h).1

decrement-eq :
    (p : Ptr) (h : Heap) (k : ℕ)
    → p ≢ 0
    → (h.cell p).ttl ≡ pos k
    → ((decrement_pcb_ttl p h).1.cell p).ttl ≡ pos (k - 1)
unfolding decrement_pcb_ttl ◌-ℤ◌
decrement-eq p h k ne e = ground arith

-- A process given k ticks to live has k - n left after n calls of decrement_pcb_ttl, and never
-- less than none.
pub ttl-tick_ttl :
    (n : ℕ) (p : Ptr) (h : Heap) (k : ℕ)
    → p ≢ 0
    → (h.cell p).ttl ≡ pos k
    → ((tick_ttl n p h).cell p).ttl ≡ pos (k - n)
unfolding tick_ttl
ttl-tick_ttl zero p h k ne e = ground arith
ttl-tick_ttl (suc n) p h k ne e =
    ground (arith, ttl-tick_ttl n p (decrement_pcb_ttl p h).1 (k - 1) ne (decrement-eq p h k ne e))

-- a tick of the TTL leaves the state of every process
pub decrement-state :
    (p : Ptr) (h : Heap) (q : Ptr) → ((decrement_pcb_ttl p h).1.cell q).state ≡ (h.cell q).state
unfolding decrement_pcb_ttl
decrement-state p h q = ground arith

decrement-initial_ttl :
    (p : Ptr) (h : Heap) → ((decrement_pcb_ttl p h).1.cell p).initial_ttl ≡ (h.cell p).initial_ttl
unfolding decrement_pcb_ttl
decrement-initial_ttl p h = ground arith

tick-initial_ttl :
    (n : ℕ) (p : Ptr) (h : Heap) → ((tick_ttl n p h).cell p).initial_ttl ≡ (h.cell p).initial_ttl
unfolding tick_ttl
tick-initial_ttl zero p h = refl
tick-initial_ttl (suc n) p h =
    tick-initial_ttl n p (decrement_pcb_ttl p h).1 ∙ decrement-initial_ttl p h

-- A process that was given a time to live has it again when it is reset, however many ticks have
-- passed.
pub get-reset-tick_ttl :
    (n : ℕ) (p : Ptr) (t : ℤ) (h : Heap)
    → p ≢ 0
    → get_pcb_ttl p (reset_pcb_ttl p (tick_ttl n p (set_pcb_ttl p t h))) ≡ t
unfolding get_pcb_ttl reset_pcb_ttl set_pcb_ttl
get-reset-tick_ttl n p t h ne = ground (arith, tick-initial_ttl n p (set_pcb_ttl p t h))

-- The time to live of no process grows by a call of decrement_pcb_ttl, and that of its own goes down
-- by one unless it is used up.
pub decrement-ttl :
    (p : Ptr) (h : Heap) (q : Ptr)
    → pos_part ((decrement_pcb_ttl p h).1.cell q).ttl ≤ pos_part (h.cell q).ttl
unfolding decrement_pcb_ttl ◌-ℤ◌
decrement-ttl p h q = ground arith

pub decrement-ttl_self :
    (p : Ptr) (h : Heap)
    → p ≢ 0
    → pos_part ((decrement_pcb_ttl p h).1.cell p).ttl ≤ pos_part (h.cell p).ttl - 1
unfolding decrement_pcb_ttl ◌-ℤ◌
decrement-ttl_self p h ne = ground arith
