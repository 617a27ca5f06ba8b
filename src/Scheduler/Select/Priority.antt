-- ===== src/Scheduler/Select/Priority.antt =====
-- The preemptive policy: the first process of the most urgent queue that is not empty.
use the_loc_os.Base.{
  ℕ, zero, suc, ◌+◌, ◌≤◌, ◌<◌, ◌≡◌, ◌⊎◌, inl, inr, refl, arith, Bool-cases, ltb, ltb→lt, ltb→le,
  update,
}
use native.Mathlib.Decide.{ℕ_discrete}
use the_loc_os.Queue.{Ptr, ProcessQueue, dequeue_process}
use the_loc_os.Scheduler.Select.{select_priority}

-- Queue `index`, of the `n` from `i` on, is the first that is not empty; its front is taken out and
-- no other queue changes.
pub record TakesFrom (n i : ℕ) (queues : ℕ → ProcessQueue) (out : Ptr × (ℕ → ProcessQueue))
    : Type 0 where
  pub index : ℕ
  pub low : i ≤ index
  pub high : index < i + n
  pub busy : 0 < (queues index).current_size
  pub more_urgent : (j : ℕ) → i ≤ j → j < index → (queues j).current_size ≡ 0
  pub process : out.0 ≡ (dequeue_process (queues index)).0
  pub left : out.1 ≡ update queues index (dequeue_process (queues index)).1

-- The choice among the priority queues takes the front of the first queue that is not empty, so
-- that no process of a more urgent priority waits; where all are empty it returns NULL and changes
-- nothing.
pub select_priority_cases :
    (n i : ℕ) (queues : ℕ → ProcessQueue)
    → TakesFrom n i queues (select_priority n i queues)
      ⊎ (((j : ℕ) → i ≤ j → j < i + n → (queues j).current_size ≡ 0)
          × (select_priority n i queues ≡ (0, queues)))
unfolding select_priority
select_priority_cases zero i queues = inr (λ j h k. absurd (omega arith), refl)
select_priority_cases (suc n) i queues = elim (Bool-cases (ltb 0 (queues i).current_size)) [
  | inl e ↦ rw e (
      inl (record {
        index = i;
        low = omega arith;
        high = omega arith;
        busy = ltb→lt _ _ e;
        more_urgent = λ j h k. absurd (omega arith);
        process = refl;
        left = refl;
      }))
  | inr e ↦ rw e (elim (select_priority_cases n (i + 1) queues) [
    | inl t ↦ inl (record {
      index = t.index;
      low = omega (arith, t.low);
      high = omega (arith, t.high);
      busy = t.busy;
      more_urgent = λ j h k. elim (ℕ_discrete j i) [
        | yes same ↦ rw same (omega (arith, ltb→le _ _ e))
        | no ne ↦ t.more_urgent j (omega arith) k
      ];
      process = t.process;
      left = t.left;
    })
    | inr (none_left, same) ↦ inr (
      λ j h k. elim (ℕ_discrete j i) [
        | yes here ↦ rw here (omega (arith, ltb→le _ _ e))
        | no ne ↦ none_left j (omega arith) (omega arith)
      ],
      same,
    )
  ])
]
