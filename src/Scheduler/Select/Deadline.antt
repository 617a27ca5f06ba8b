-- ===== src/Scheduler/Select/Deadline.antt =====
-- The BFS policy: the process with the least virtual deadline, the first of these in the queue.
use the_loc_os.Base.{
  ℕ, zero, suc, ◌+◌, ◌-◌, ◌%◌, ◌<◌, ◌≡◌, ◌≢◌, refl, sym, ◌∙◌, arith, false, none, some,
  if◌then◌else◌, ℤ, negsuc, ◌≤ℤ◌, ◌<ℤ◌, eqb_ℤ, ltb_ℤ, eq_of_parts, Bool-cases, inl, inr, ltb→lt,
  ltb→le, erase_at,
}
use mathlib.Core.Path.{ap₂}
use native.Mathlib.Decide.{ℕ_discrete}
use the_loc_os.Queue.{Ptr, ProcessQueue}
use the_loc_os.Queue.Ring.{IsValid, entry, wrap, mod-wrap}
use the_loc_os.Queue.Fifo.{contents}
use the_loc_os.Process.{Heap}
use the_loc_os.Scheduler.Select.{scan}
use the_loc_os.Scheduler.Select.Gap.{next_offset}

eqb_of_ne : (a b : ℤ) → a ≢ b → eqb_ℤ a b ≡ false
eqb_of_ne a b ne = ground (arith, eq_of_parts a b)

-- Among the first `k` of some deadlines the one at `m` is least, and less than those before it.
pub record Best (deadline : ℕ → ℤ) (k m : ℕ) : Type 0 where
  pub within : m < k
  pub least : (i : ℕ) → i < k → deadline m ≤ℤ deadline i
  pub first : (i : ℕ) → i < m → deadline m <ℤ deadline i

Best-next :
    (deadline : ℕ → ℤ) (k m : ℕ)
    → Best deadline k m
    → Best deadline (k + 1) (if ltb_ℤ (deadline k) (deadline m) then k else m)
Best-next deadline k m b = elim (Bool-cases (ltb_ℤ (deadline k) (deadline m))) [
  | inl lower ↦ rw lower (record {
    within = omega arith;
    least = λ i h. elim (ℕ_discrete i k) [
      | yes e ↦ rw e (omega arith)
      | no ne ↦ omega (arith, ltb→lt _ _ lower, b.least i (omega arith))
    ];
    first = λ i h. omega (arith, ltb→lt _ _ lower, b.least i h);
  })
  | inr not_lower ↦ rw not_lower (record {
    within = omega (arith, b.within);
    least = λ i h. elim (ℕ_discrete i k) [
      | yes e ↦ rw e (omega (arith, ltb→le _ _ not_lower))
      | no ne ↦ b.least i (omega arith)
    ];
    first = b.first;
  })
]

module _ (h : Heap) {pq : ProcessQueue} (v : IsValid pq) where
  -- the deadline of the process `i` places behind the front
  abbrev pub deadline_at : ℕ → ℤ
  deadline_at i = (h.cell (entry pq i)).virtual_deadline

  abbrev slot_at : ℕ → ℕ
  slot_at i = wrap pq.max_capacity (pq.front + i)

  slot-next : (k : ℕ) → k < pq.max_capacity → (slot_at k + 1) % pq.max_capacity ≡ slot_at (k + 1)
  slot-next k l =
      mod-wrap (slot_at k + 1) pq.max_capacity (ground (arith, v.front_in))
      ∙ next_offset pq.max_capacity pq.front k v.front_in l

  module _ (usable : (i : ℕ) → i < pq.current_size → deadline_at i ≢ negsuc 0) where
    scan-Best :
        (n k m : ℕ)
        → k + n ≡ pq.current_size
        → Best deadline_at k m
        → (m' : ℕ) × Best deadline_at pq.current_size m'
          × (scan h pq n (slot_at k) (deadline_at m) (some (slot_at m)) ≡ some (slot_at m'))
    unfolding scan
    scan-Best zero k m e b = let e' : k ≡ pq.current_size = omega arith in (m, rw (← e') b, refl)
    scan-Best (suc n) k m e b =
        rw
          (
            slot-next k (omega (arith, v.size_in)),
            eqb_of_ne (deadline_at m) (negsuc 0) (usable m (omega (arith, b.within))),
          )
          (elim (Bool-cases (ltb_ℤ (deadline_at k) (deadline_at m))) [
            | inl lower ↦
                let better = Best-next deadline_at k m b in
                rw lower (scan-Best n (k + 1) k (omega arith) (rw lower at better))
            | inr not_lower ↦
                let better = Best-next deadline_at k m b in
                rw not_lower (scan-Best n (k + 1) m (omega arith) (rw not_lower at better))
          ])

    scan-start :
        (n : ℕ)
        → suc n ≡ pq.current_size
        → (m : ℕ) × Best deadline_at pq.current_size m
          × (scan h pq (suc n) (slot_at 0) (negsuc 0) none ≡ some (slot_at m))
    unfolding scan
    scan-start n e = rw (slot-next 0 (omega (arith, v.size_in))) (
        scan-Best n 1 0 (omega arith) (record {
          within = omega arith;
          least = λ i l. let z : i ≡ 0 = omega arith in rw z (omega arith);
          first = λ i l. absurd (omega arith);
        }))

    -- With a process in the queue, the scan finds the slot of the least deadline, the first of these.
    pub scan_lem :
        0 < pq.current_size
        → (m : ℕ) × Best deadline_at pq.current_size m
          × (scan h pq pq.current_size pq.front (negsuc 0) none ≡ some (slot_at m))
    scan_lem left =
        let size : suc (pq.current_size - 1) ≡ pq.current_size = omega arith in
        let start : slot_at 0 ≡ pq.front = ground (arith, v.front_in) in
        let (m, b, e) = scan-start (pq.current_size - 1) size in
        (m, b, ap₂ (λ n i. scan h pq n i (negsuc 0) none) (sym size) (sym start) ∙ e)

  -- what the BFS choice takes out of the queue: the process of the least deadline
  pub record Chooses (out : Ptr × ProcessQueue) : Type 0 where
    pub place : ℕ
    pub best : Best deadline_at pq.current_size place
    pub chosen : out.0 ≡ entry pq place
    pub rest : contents out.1 ≡ erase_at (contents pq) place

  -- With two processes in the queue of which the first has the deadline -1, the scan chooses the
  -- second, however late its deadline is.
  pub scan-minus_one :
      pq.current_size ≡ 2
      → deadline_at 0 ≡ negsuc 0
      → scan h pq pq.current_size pq.front (negsuc 0) none ≡ some (slot_at 1)
  unfolding scan
  scan-minus_one two e =
      let start : slot_at 0 ≡ pq.front = ground (arith, v.front_in) in
      ap₂ (λ n i. scan h pq n i (negsuc 0) none) two (sym start)
      ∙ rw (slot-next 0 (omega (arith, v.size_in)), e)
