-- ===== src/Runtime/Completes.antt =====
-- Every process is completed in the end: after each tick and round the processes and the ticks that
-- they have left to live are fewer.
use the_loc_os.Base.{
  ℕ, zero, suc, ◌+◌, ◌-◌, ◌<◌, ◌≤◌, ◌≡◌, ◌⊎◌, inl, inr, sym, ap, arith, List, [], ◌∷◌, length,
  empty_of_length, length-append, length-Perm, Has, Has-map, weigh, length-le-weigh, ◌==◌,
  Bool-cases,
}
use mathlib.Core.Path.{subst}
use the_loc_os.Queue.{Ptr}
use the_loc_os.Process.{Heap}
use the_loc_os.Machine.Slots.{executing}
use the_loc_os.Scheduler.Activation.Completed.{Expired}
use the_loc_os.Clock.Wane.{left}
use the_loc_os.Runtime.{
  Runtime, clock_turn, scheduler_turn, clock_turns, run, Reach, here, next, ticks, schedules,
}
use the_loc_os.Runtime.Life.{
  processes, life, Busy, running_not_null, clock_turns-life, clock_turn-life_running,
  scheduler_turn-life, turn-life-Expired, scheduler_turn-Busy, clock_turns-Steady,
  clock_turns-executing, clock_turns-left,
}
use the_loc_os.Runtime.Conserve.{Steady, KeepsAll, scheduler_turn-Steady, Reach-KeepsAll}

module _ (malloc : Heap → Ptr) (n : ℕ) {r : Runtime} (s : Steady r) where
  abbrev ticked : Runtime
  ticked = clock_turns (suc n) r

  abbrev next_round : Runtime
  next_round = scheduler_turn malloc ticked

  ticked-Steady : Steady ticked
  ticked-Steady = clock_turns-Steady (suc n) s

  ticked-life : life ticked ≤ life r
  ticked-life = clock_turns-life (suc n) r

  round-life : life next_round ≤ life r
  round-life = omega (arith, scheduler_turn-life malloc ticked-Steady, ticked-life)

  round-life-Expired :
      (p : Ptr)
      → Has (λ q. q ≡ p) (executing r.clock.machine)
      → left r.clock.shared.heap p ≡ 0
      → life next_round < life r
  round-life-Expired p h e =
      let gone : Expired ticked.clock.shared.heap p =
        (running_not_null s h, omega (arith, clock_turns-left (suc n) r p)) in
      let on_thread = subst (Has (λ q. q ≡ p)) (sym (clock_turns-executing (suc n) r)) h in
      omega (
        arith,
        ticked-life,
        turn-life-Expired malloc ticked-Steady (
            Has-map (λ q. q ≡ p) (Expired ticked.clock.shared.heap)
              (λ q e. subst (Expired ticked.clock.shared.heap) (sym e) gone)
              (executing ticked.clock.machine) on_thread),
      )

  round-life_running :
      (p : Ptr)
      → Has (λ q. q ≡ p) (executing r.clock.machine)
      → 0 < left r.clock.shared.heap p
      → life next_round < life r
  unfolding clock_turns
  round-life_running p h some_left = omega (
    arith,
    clock_turn-life_running p s h some_left,
    clock_turns-life n (clock_turn r),
    scheduler_turn-life malloc ticked-Steady,
  )

  -- Where no process was left waiting with free threads, each tick and round brings the end nearer.
  round-life-Busy : (processes r ≡ []) ⊎ Busy r → life next_round ≤ life r - 1
  round-life-Busy (inl e) =
      let empty : life r ≡ 0 = ap (weigh (λ p. suc (left r.clock.shared.heap p))) e in
      omega (arith, round-life, empty)
  round-life-Busy (inr (p, h)) = elim (Bool-cases (left r.clock.shared.heap p == 0)) [
    | inl e ↦ omega (arith, round-life-Expired p h (ground arith))
    | inr e ↦ omega (arith, round-life_running p h (ground arith))
  ]

no_life : (r : Runtime) → life r ≡ 0 → processes r ≡ []
no_life r e = empty_of_length (processes r) (
    omega (
      arith,
      e,
      length-le-weigh (λ p. suc (left r.clock.shared.heap p)) (λ p. omega arith) (processes r),
    ))

run-ends :
    (malloc : Heap → Ptr) (ns : List ℕ) {r : Runtime}
    → Steady r
    → (processes r ≡ []) ⊎ Busy r
    → life r ≤ length ns
    → processes (run malloc ns r) ≡ []
unfolding run
run-ends malloc [] {r} s b enough = no_life r (omega arith)
run-ends malloc (n ∷ ns) {r} s b enough =
    run-ends malloc ns (scheduler_turn-Steady malloc (clock_turns-Steady (suc n) s))
      (scheduler_turn-Busy malloc (clock_turns-Steady (suc n) s))
      (omega (arith, round-life-Busy malloc n s b))

-- the first round may find threads free
run-ends_later :
    (malloc : Heap → Ptr) (n : ℕ) (ns : List ℕ) {r : Runtime}
    → Steady r
    → life r < length (n ∷ ns)
    → processes (run malloc (n ∷ ns) r) ≡ []
unfolding run
run-ends_later malloc n ns s enough =
    run-ends malloc ns (scheduler_turn-Steady malloc (clock_turns-Steady (suc n) s))
      (scheduler_turn-Busy malloc (clock_turns-Steady (suc n) s))
      (omega (arith, round-life malloc n s))

clock_turns-Reach :
    (malloc : Heap → Ptr) (n : ℕ) {q r : Runtime}
    → Reach malloc q r
    → Reach malloc q (clock_turns n r)
unfolding clock_turns
clock_turns-Reach malloc zero p = p
clock_turns-Reach malloc (suc n) {q} {r} p = clock_turns-Reach malloc n (next p (ticks r))

run-Reach :
    (malloc : Heap → Ptr) (ns : List ℕ) {q r : Runtime}
    → Reach malloc q r
    → Reach malloc q (run malloc ns r)
unfolding run
run-Reach malloc [] p = p
run-Reach malloc (n ∷ ns) {q} {r} p =
    run-Reach malloc ns
      (next (clock_turns-Reach malloc (suc n) p) (schedules (clock_turns (suc n) r)))

-- Under round robin every process is completed: after more rounds of the scheduler than there are
-- processes and ticks left to live in all, each round after one tick of the clock or more, no
-- process is on a thread or in the ready queue, and all are counted as completed. The ready queue
-- must be valid and have room for all, the machine must have a thread and no core over its
-- capacity, and no process may be NULL.
pub run-completes :
    (malloc : Heap → Ptr) (ns : List ℕ) {r : Runtime}
    → Steady r
    → life r < length ns
    → (processes (run malloc ns r) ≡ [])
      × ((run malloc ns r).sched.total_completed ≡ r.sched.total_completed + length (processes r))
run-completes malloc [] s enough = absurd (omega arith)
run-completes malloc (n ∷ ns) {r} s enough =
    let r' = run malloc (n ∷ ns) r in
    let ended = run-ends_later malloc n ns s enough in
    let c : KeepsAll r r' = Reach-KeepsAll malloc s (run-Reach malloc (n ∷ ns) here) in
    (
      ended,
      omega (
        arith,
        c.counted,
        length-Perm c.kept,
        length-append c.gone (processes r'),
        ap length ended,
      ),
    )
