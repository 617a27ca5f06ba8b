-- ===== src/Scheduler/Preempt/Victim.antt =====
-- Which process a preemption takes off the hardware threads.
use the_loc_os.Base.{
  ℕ, zero, suc, ◌-◌, ◌<◌, ◌≡◌, ◌≢◌, ◌⊎◌, inl, inr, refl, ap, ◌∙◌, arith, List, [], ◌∷◌, ◌++◌, some,
  listing, listing-snoc, listing-erase_at, erase_at, shift_loop, shift_loop_lem,
}
use mathlib.Core.Option
use the_loc_os.Process.{Heap}
use the_loc_os.Queue.{Ptr}
use the_loc_os.Machine.{Core, Cpu}
use the_loc_os.Machine.Slots.{slots}
use the_loc_os.Scheduler.Preempt.{
  Location, System, core_at, core_of, change_core, change_cpu, drop_copy, preempt_at,
}

slots-drop_copy :
    (k : ℕ) (core : Core)
    → 0 < core.current_pcb_count
    → slots core
      ≡ slots (drop_copy k core) ++ ((core.hw_threads (core.current_pcb_count - 1)).pcb ∷ [])
unfolding drop_copy
slots-drop_copy k core h =
    let size : core.current_pcb_count ≡ suc (core.current_pcb_count - 1) = omega arith in
    ap (λ n. listing n (λ j. (core.hw_threads j).pcb)) size
    ∙ listing-snoc (core.current_pcb_count - 1) (λ j. (core.hw_threads j).pcb)

-- A core whose copy `k` was removed: the other copies close up, the hardware threads stay as they are,
-- and the last of those in use is counted no more.
pub record Dropped (k : ℕ) (core core' : Core) : Type 0 where
  pub copies :
      listing core'.current_pcb_count core'.pcbs
      ≡ erase_at (listing core.current_pcb_count core.pcbs) k
  pub threads : core'.hw_threads ≡ core.hw_threads
  pub in_use : slots core ≡ slots core' ++ ((core.hw_threads (core.current_pcb_count - 1)).pcb ∷ [])

drop_copy-Dropped :
    (k : ℕ) (core : Core) → k < core.current_pcb_count → Dropped k core (drop_copy k core)
unfolding drop_copy
drop_copy-Dropped k core h =
    let n = core.current_pcb_count in
    let moved = shift_loop_lem (n - 1 - k) k core.pcbs in
    record {
      copies =
          listing-erase_at n k core.pcbs (shift_loop (n - 1 - k) k core.pcbs) h
            (λ i l. moved i ∙ ground arith) (λ i l l'. moved i ∙ ground arith);
      threads = refl;
      in_use = slots-drop_copy k core (omega arith);
    }

module _ (f : Core → Core) where
  core_at-change_core :
      (cores : List Core) (j : ℕ) {core : Core}
      → core_at cores j ≡ some core
      → core_at (change_core f cores j) j ≡ some (f core)
  unfolding core_at change_core
  core_at-change_core [] j e = cc
  core_at-change_core (c ∷ cores) zero e = ap (λ o. Option.map f o) e
  core_at-change_core (c ∷ cores) (suc j) e = core_at-change_core cores j e

  core_at-other :
      (cores : List Core) (j j' : ℕ)
      → j' ≢ j
      → core_at (change_core f cores j) j' ≡ core_at cores j'
  unfolding core_at change_core
  core_at-other [] j j' ne = refl
  core_at-other (c ∷ cores) zero zero ne = absurd (ne refl)
  core_at-other (c ∷ cores) zero (suc j') ne = refl
  core_at-other (c ∷ cores) (suc j) zero ne = refl
  core_at-other (c ∷ cores) (suc j) (suc j') ne = core_at-other cores j j' (λ e. ne (ap suc e))

  core_of-change_cpu :
      (cpus : List Cpu) (i j : ℕ) {core : Core}
      → core_of cpus i j ≡ some core
      → core_of (change_cpu f cpus i j) i j ≡ some (f core)
  unfolding core_of change_cpu
  core_of-change_cpu [] i j e = cc
  core_of-change_cpu (c ∷ cpus) zero j e = core_at-change_core c.cores j e
  core_of-change_cpu (c ∷ cpus) (suc i) j e = core_of-change_cpu cpus i j e

  core_of-other :
      (cpus : List Cpu) (i j i' j' : ℕ)
      → (i' ≢ i) ⊎ (j' ≢ j)
      → core_of (change_cpu f cpus i j) i' j' ≡ core_of cpus i' j'
  unfolding core_of change_cpu
  core_of-other [] i j i' j' ne = refl
  core_of-other (c ∷ cpus) zero j zero j' (inl ne) = absurd (ne refl)
  core_of-other (c ∷ cpus) zero j zero j' (inr ne) = core_at-other c.cores j j' ne
  core_of-other (c ∷ cpus) zero j (suc i') j' ne = refl
  core_of-other (c ∷ cpus) (suc i) j zero j' ne = refl
  core_of-other (c ∷ cpus) (suc i) j (suc i') j' (inl ne) =
      core_of-other cpus i j i' j' (inl (λ e. ne (ap suc e)))
  core_of-other (c ∷ cpus) (suc i) j (suc i') j' (inr ne) = core_of-other cpus i j i' j' (inr ne)

-- The machine after the core at a place has dropped copy `k`: all other cores are as they were.
pub record Preempted (s s' : System) (at : Location) (core : Core) : Type 0 where
  pub changed : Core
  pub there : core_of s'.machine.cpus at.cpu_idx at.core_idx ≡ some changed
  pub dropped : Dropped at.thread_idx core changed
  pub others :
      (i j : ℕ)
      → (i ≢ at.cpu_idx) ⊎ (j ≢ at.core_idx)
      → core_of s'.machine.cpus i j ≡ core_of s.machine.cpus i j

-- The preemption at a place of the machine takes the copy of the victim out of its core, where the
-- other copies close up in their order; no other core changes. The hardware threads of the core
-- keep all their processes, the victim too, and it is the last thread in use that is counted no
-- more. The core must exist, and the victim be one of its copies.
pub preempt_at-Preempted :
    (malloc : Heap → Ptr) (s : System) (at : Location) (core : Core)
    → core_of s.machine.cpus at.cpu_idx at.core_idx ≡ some core
    → at.thread_idx < core.current_pcb_count
    → Preempted s (preempt_at malloc s (some at)) at core
preempt_at-Preempted malloc s at core e h =
    let f = drop_copy at.thread_idx in
    rw e (record {
      changed = f core;
      there = core_of-change_cpu f s.machine.cpus at.cpu_idx at.core_idx e;
      dropped = drop_copy-Dropped at.thread_idx core h;
      others = core_of-other f s.machine.cpus at.cpu_idx at.core_idx;
    })
