-- ===== src/Runtime/Life.antt =====
-- The processes of the running system and the ticks that they have left to live, as the clock and the
-- scheduler take their turns.
use the_loc_os.Base.{
  ℕ, zero, suc, ◌+◌, ◌<◌, ◌≤◌, ◌≡◌, ◌≢◌, ◌⊎◌, inl, inr, refl, sym, ap, ◌∙◌, fun_ext, arith,
  pos_part, List, [], ◌∷◌, ◌++◌, listing, Has, weigh, weigh-append, weigh-Perm, weigh-le, weigh-lt,
  length-le-weigh,
}
use mathlib.Core.Path.{subst}
use mathlib.Core.List.{Mem, mem-append_left, mem-cons_self, mem-cons_of_mem}
use the_loc_os.Queue.{Ptr}
use the_loc_os.Queue.Ring.{entry}
use the_loc_os.Queue.Fifo.{contents}
use the_loc_os.Process.{Heap}
use the_loc_os.Machine.Slots.{executing}
use the_loc_os.Machine.Shape.{idle-can_execute}
use the_loc_os.Scheduler.Activation.Thread.{held}
use the_loc_os.Scheduler.Activation.Dispatch.{Dispatched}
use the_loc_os.Scheduler.Activation.RoundRobin.{
  activation-Dispatched, activation-SameTtl, activation-completes,
}
use the_loc_os.Scheduler.Activation.Completed.{Expired}
use the_loc_os.Clock.Tick.{executing-tick}
use the_loc_os.Clock.Wane.{left, tick-left, tick-left_running}
use the_loc_os.Runtime.{Runtime, system_of, clock_turn, scheduler_turn, clock_turns}
use the_loc_os.Runtime.Conserve.{Steady, clock_turn-Steady, scheduler_turn-Steady}

-- the processes in the system
abbrev pub processes : Runtime → List Ptr
processes r = held (executing r.clock.machine) r.sched

-- their number and the ticks that they have left to live
abbrev pub life : Runtime → ℕ
life r = weigh (λ p. suc (left r.clock.shared.heap p)) (processes r)

-- some process is on a thread
abbrev pub Busy : Runtime → Type 0
Busy r = (p : Ptr) × Has (λ q. q ≡ p) (executing r.clock.machine)

mem_of_Has : {p : Ptr} (xs : List Ptr) → Has (λ q. q ≡ p) xs → Mem p xs
mem_of_Has {p} [] h = absurd h
mem_of_Has {p} (x ∷ xs) (inl e) = subst (λ q. Mem q (x ∷ xs)) e mem-cons_self
mem_of_Has {p} (x ∷ xs) (inr h) = mem-cons_of_mem x (mem_of_Has xs h)

pub running_not_null :
    {r : Runtime} {p : Ptr} → Steady r → Has (λ q. q ≡ p) (executing r.clock.machine) → p ≢ 0
running_not_null {r} {p} s h e = s.ready.no_null (
    subst (λ q. Mem q (processes r)) e
      (mem-append_left (contents r.sched.ready_queue) (mem_of_Has (executing r.clock.machine) h)))

weaken : {a b : ℕ} → a ≤ b → suc a ≤ suc b
weaken h = omega arith

clock_turn-life : (r : Runtime) → life (clock_turn r) ≤ life r
clock_turn-life r =
    subst
      (λ l.
        weigh (λ p. suc (left (clock_turn r).clock.shared.heap p))
          (l ++ contents r.sched.ready_queue)
        ≤ life r)
      (sym (executing-tick r.clock))
      (weigh-le _ _ (λ p. omega (arith, tick-left r.clock p)) (processes r))

-- a process on a thread with time left has less of it
pub clock_turn-life_running :
    {r : Runtime} (p : Ptr)
    → Steady r
    → Has (λ q. q ≡ p) (executing r.clock.machine)
    → 0 < left r.clock.shared.heap p
    → life (clock_turn r) < life r
clock_turn-life_running {r} p s h some_left =
    let f = λ (q : Ptr). suc (left (clock_turn r).clock.shared.heap q) in
    let g = λ (q : Ptr). suc (left r.clock.shared.heap q) in
    let less = λ (q : Ptr). weaken (tick-left r.clock q) in
    let on = executing r.clock.machine in
    let queued = contents r.sched.ready_queue in
    let own = tick-left_running p (running_not_null s h) r.clock s.fits h in
    let lighter : weigh f on < weigh g on =
      weigh-lt f g less (λ q. q ≡ p) (λ q e. subst (λ x. f x < g x) (sym e) (omega arith)) on h in
    subst (λ l. weigh f (l ++ queued) < life r) (sym (executing-tick r.clock))
      (omega (
        arith,
        lighter,
        weigh-append f on queued,
        weigh-append g on queued,
        weigh-le f g less queued,
      ))

pub clock_turns-life : (n : ℕ) (r : Runtime) → life (clock_turns n r) ≤ life r
unfolding clock_turns
clock_turns-life zero r = omega arith
clock_turns-life (suc n) r = omega (arith, clock_turn-life r, clock_turns-life n (clock_turn r))

module _ (malloc : Heap → Ptr) {r : Runtime} (s : Steady r) where
  abbrev after : Runtime
  after = scheduler_turn malloc r

  turn : Dispatched (system_of r) (system_of after)
  turn = activation-Dispatched malloc (pos_part r.clock.clk_counter) s.ready s.room

  abbrev weight : Ptr → ℕ
  weight p = suc (left r.clock.shared.heap p)

  turn-life : life after + weigh weight turn.kept.gone ≡ life r
  turn-life =
      let same = activation-SameTtl malloc (pos_part r.clock.clk_counter) s.ready s.room in
      let kept_weight : life after ≡ weigh weight (processes after) =
        ap (λ f. weigh f (processes after)) (fun_ext (λ p. ap (λ t. suc (pos_part t)) (same p))) in
      omega (
        arith,
        kept_weight,
        weigh-Perm weight turn.kept.kept,
        weigh-append weight turn.kept.gone (processes after),
      )

  pub scheduler_turn-life : life after ≤ life r
  scheduler_turn-life = omega (arith, turn-life)

  -- a process with no time left goes
  pub turn-life-Expired :
      Has (Expired r.clock.shared.heap) (executing r.clock.machine) → life after < life r
  turn-life-Expired e =
      let more = activation-completes malloc (pos_part r.clock.clk_counter) s.ready s.room e in
      omega (
        arith,
        more,
        turn.kept.counted,
        turn-life,
        length-le-weigh weight (λ p. omega arith) turn.kept.gone,
      )

  no_waiting : after.sched.ready_queue.current_size ≡ 0 → contents after.sched.ready_queue ≡ []
  no_waiting e = ap (λ n. listing n (entry after.sched.ready_queue)) e

  idle_or_Busy :
      (l : List Ptr) → executing after.clock.machine ≡ l → (processes after ≡ []) ⊎ Busy after
  idle_or_Busy [] e =
      let free = idle-can_execute after.clock.machine e (scheduler_turn-Steady malloc s).threads in
      let waits_not : after.sched.ready_queue.current_size ≡ 0 = elim turn.idle [
        | inl none_waits ↦ none_waits
        | inr full ↦ cc
      ] in
      inl (ap (λ l. l ++ contents after.sched.ready_queue) e ∙ no_waiting waits_not)
  idle_or_Busy (p ∷ l) e = inr (p, subst (Has (λ q. q ≡ p)) (sym e) (inl refl))

  pub scheduler_turn-Busy : (processes after ≡ []) ⊎ Busy after
  scheduler_turn-Busy = idle_or_Busy (executing after.clock.machine) refl

pub clock_turns-Steady : (n : ℕ) {r : Runtime} → Steady r → Steady (clock_turns n r)
unfolding clock_turns
clock_turns-Steady zero s = s
clock_turns-Steady (suc n) s = clock_turns-Steady n (clock_turn-Steady s)

pub clock_turns-executing :
    (n : ℕ) (r : Runtime) → executing (clock_turns n r).clock.machine ≡ executing r.clock.machine
unfolding clock_turns
clock_turns-executing zero r = refl
clock_turns-executing (suc n) r = clock_turns-executing n (clock_turn r) ∙ executing-tick r.clock

pub clock_turns-left :
    (n : ℕ) (r : Runtime) (p : Ptr)
    → left (clock_turns n r).clock.shared.heap p ≤ left r.clock.shared.heap p
unfolding clock_turns
clock_turns-left zero r p = omega arith
clock_turns-left (suc n) r p =
    omega (arith, tick-left r.clock p, clock_turns-left n (clock_turn r) p)
