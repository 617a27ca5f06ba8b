-- ===== src/Machine/Shift.antt =====
-- `remove_at` and `find_thread`: the search for a thread and the shift that takes it out.
use the_loc_os.Base.{
  ℕ, zero, suc, ◌+◌, ◌-◌, ◌≤◌, ◌<◌, ◌≡◌, refl, ap, ◌∙◌, arith, true, false, ◌&&◌, none, some, ltb,
  leb, if◌then◌else◌, listing, listing-erase_at, erase_at, for_range, for_range_inv, ℤ,
}
use mathlib.Core.List.Perm
use native.Mathlib.Numerals.{add-one}
use the_loc_os.Queue.{Ptr}
use the_loc_os.Process.{Heap}
use the_loc_os.Machine.{Core, shift_step, remove_at, clear_at, runs, find_thread}
use the_loc_os.Machine.Slots.{slots, Added}

-- The threads from `k` to before `i` hold what the next one held.
record Shifted (core : Core) (k i : ℕ) (c : Core) : Type 0 where
  pcb :
      (j : ℕ)
      → (c.hw_threads j).pcb
        ≡ (if leb k j && ltb j i then (core.hw_threads (j + 1)).pcb else (core.hw_threads j).pcb)
  count : c.current_pcb_count ≡ core.current_pcb_count
  threads : c.num_kernel_threads ≡ core.num_kernel_threads

shift_step-Shifted :
    (h : Heap) (core : Core) (k i : ℕ) (c : Core)
    → Shifted core k i c
    → k ≤ i
    → Shifted core k (i + 1) (shift_step h i c)
shift_step-Shifted h core k i c s le = record {
  pcb = λ j. ground (arith, s.pcb j, s.pcb (i + 1));
  count = s.count;
  threads = s.threads;
}

shift-Shifted :
    (h : Heap) (core : Core) (k n : ℕ) → Shifted core k (k + n) (for_range n k (shift_step h) core)
shift-Shifted h core k n =
    (for_range_inv (λ i c. Shifted core k i c × (k ≤ i)) (shift_step h)
      (λ i c p. (shift_step-Shifted h core k i c p.0 p.1, omega arith)) n k (k + n) core
      (omega arith)
      (record { pcb = λ j. ground arith; count = refl; threads = refl }, omega arith)).0

pcb-remove_at :
    (h : Heap) (k : ℕ) (core : Core) (j : ℕ)
    → k < core.current_pcb_count
    → j < core.current_pcb_count - 1
    → ((remove_at h k core).hw_threads j).pcb
      ≡ (if leb k j then (core.hw_threads (j + 1)).pcb else (core.hw_threads j).pcb)
unfolding remove_at
pcb-remove_at h k core j lt m =
    let s = shift-Shifted h (clear_at k core) k (core.current_pcb_count - 1 - k) in
    ground (arith, s.pcb j)

pub counts-remove_at :
    (h : Heap) (k : ℕ) (core : Core)
    → ((remove_at h k core).current_pcb_count ≡ core.current_pcb_count - 1)
      × ((remove_at h k core).num_kernel_threads ≡ core.num_kernel_threads)
unfolding remove_at
counts-remove_at h k core =
    (refl, (shift-Shifted h (clear_at k core) k (core.current_pcb_count - 1 - k)).threads)

-- Thread `k` of the core is taken out; the processes behind it move up.
pub slots-remove_at :
    (h : Heap) (k : ℕ) (core : Core)
    → k < core.current_pcb_count
    → slots (remove_at h k core) ≡ erase_at (slots core) k
slots-remove_at h k core lt =
    ap (λ n. listing n (λ j. ((remove_at h k core).hw_threads j).pcb)) (counts-remove_at h k core).0
    ∙ listing-erase_at core.current_pcb_count k (λ j. (core.hw_threads j).pcb)
        (λ j. ((remove_at h k core).hw_threads j).pcb) lt
        (λ j m. ground (arith, pcb-remove_at h k core j))
        (λ j m q. ground (arith, pcb-remove_at h k core j))

-- the thread that is found runs the process and is in use
pub find_thread-runs :
    (h : Heap) (pid : ℤ) (core : Core) (n k j : ℕ)
    → find_thread h pid core n k ≡ some j
    → (runs h pid core j ≡ true) × (j < k + n)
unfolding find_thread
find_thread-runs h pid core zero k j e = cc
find_thread-runs h pid core (suc n) k j e = ground (arith, find_thread-runs h pid core n (k + 1) j)

-- none runs it
pub find_thread-none :
    (h : Heap) (pid : ℤ) (core : Core) (n k j : ℕ)
    → find_thread h pid core n k ≡ none
    → k ≤ j
    → j < k + n
    → runs h pid core j ≡ false
unfolding find_thread
find_thread-none h pid core zero k j e lo hi = absurd (omega arith)
find_thread-none h pid core (suc n) k j e lo hi =
    ground (arith, find_thread-none h pid core n (k + 1) j)

pub Added-listing :
    (n k : ℕ) (f : ℕ → Ptr) → k < n → Added (f k) (erase_at (listing n f) k) (listing n f)
Added-listing zero k f h = elim h [ ]
Added-listing (suc n) zero f h = Perm.refl _
Added-listing (suc n) (suc k) f h =
    let rest = Added-listing n k (λ i. f (i + 1)) (omega arith) in
    Perm.trans (Perm.cons (f 0) (rw (add-one k) at rest)) (Perm.swap _ _ _)

pub slots-remove_at-Added :
    (h : Heap) (k : ℕ) (core : Core)
    → k < core.current_pcb_count
    → Added (core.hw_threads k).pcb (slots (remove_at h k core)) (slots core)
slots-remove_at-Added h k core lt =
    rw (slots-remove_at h k core lt)
      (Added-listing core.current_pcb_count k (λ j. (core.hw_threads j).pcb) lt)
