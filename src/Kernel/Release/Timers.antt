-- ===== src/Kernel/Release/Timers.antt =====
-- The timers in the start of main, and what is left where one cannot be created.
use the_loc_os.Base.{
  ℕ, zero, suc, ◌+◌, ◌≤◌, ◌≡◌, refl, ◌∙◌, arith, Bool, true, false, ◌&&◌, if◌then◌else◌,
  for_range_inv, update, ltb, Bool-cases, inl, inr,
}
use mathlib.Core.Path.{subst}
use the_loc_os.Kernel.Release.{
  Held, Outcomes, nothing, destroy_parts, destroy_timers, without_timers, create_timers,
  start_timers,
}

-- the parts besides the timers
pub record SameParts (h h' : Held) : Type 0 where
  pub clock : h'.clock ≡ h.clock
  pub ready_queue : h'.ready_queue ≡ h.ready_queue
  pub machine : h'.machine ≡ h.machine
  pub hw_threads : h'.hw_threads ≡ h.hw_threads
  pub memory : h'.memory ≡ h.memory
  pub scheduler : h'.scheduler ≡ h.scheduler
  pub timer_array : h'.timer_array ≡ h.timer_array
  pub loader : h'.loader ≡ h.loader

pub record Destroyed (n : ℕ) (h h' : Held) : Type 0 where
  pub parts : SameParts h h'
  pub timer : (j : ℕ) → h'.timer j ≡ (if ltb j n then false else h.timer j)

pub destroy_timers-Destroyed : (n : ℕ) (h : Held) → Destroyed n h (destroy_timers n h)
unfolding destroy_timers
destroy_timers-Destroyed n h =
    for_range_inv (λ i h'. Destroyed i h h') (λ j h. record h { timer = update h.timer j false })
      (λ i h' d. record {
        parts = record {
          clock = d.parts.clock;
          ready_queue = d.parts.ready_queue;
          machine = d.parts.machine;
          hw_threads = d.parts.hw_threads;
          memory = d.parts.memory;
          scheduler = d.parts.scheduler;
          timer_array = d.parts.timer_array;
          loader = d.parts.loader;
        };
        timer = λ j. ground (arith, d.timer j);
      })
      n 0 n h (omega arith)
      (record {
        parts = record {
          clock = refl;
          ready_queue = refl;
          machine = refl;
          hw_threads = refl;
          memory = refl;
          scheduler = refl;
          timer_array = refl;
          loader = refl;
        };
        timer = λ j. ground arith;
      })

-- nothing is held but perhaps the memory, the hardware threads of the cores left aside
pub record AllBut (left : Bool) (h : Held) : Type 0 where
  pub clock : h.clock ≡ false
  pub ready_queue : h.ready_queue ≡ false
  pub machine : h.machine ≡ false
  pub memory : h.memory ≡ left
  pub scheduler : h.scheduler ≡ false
  pub timer_array : h.timer_array ≡ false
  pub timer : (j : ℕ) → h.timer j ≡ false
  pub loader : h.loader ≡ false

-- the first `i` timers, and every part before the loader
pub record Timed (i : ℕ) (h : Held) : Type 0 where
  pub memory : h.memory ≡ true
  pub loader : h.loader ≡ false
  pub timer : (j : ℕ) → i ≤ j → h.timer j ≡ false

without_timers-AllBut : (i : ℕ) (h : Held) → Timed i h → AllBut true (without_timers i h)
without_timers-AllBut i h t =
    let d = destroy_timers-Destroyed i h in
    record {
      clock = refl;
      ready_queue = refl;
      machine = refl;
      memory = d.parts.memory ∙ t.memory;
      scheduler = refl;
      timer_array = refl;
      timer = λ j. ground (arith, d.timer j, t.timer j);
      loader = d.parts.loader ∙ t.loader;
    }

-- whether the timers from number `i` on can be created, `n` of them
abbrev pub every_timer : Outcomes → ℕ → ℕ → Bool
every_timer o zero i = true
every_timer o (suc n) i = o.timer i && every_timer o n (i + 1)

abbrev pub all_timers : Outcomes → ℕ → Bool
all_timers o n = if ltb 0 n then o.timer_array && every_timer o n 0 else true

-- a start of timers that succeeds or not, with the timers below `n`
pub record TimersStarted (n : ℕ) (ok : Bool) (out : Bool × Held) : Type 0 where
  pub answer : out.0 ≡ ok
  pub success : ok ≡ true → Timed n out.1
  pub failure : ok ≡ false → AllBut true out.1

create_timers-TimersStarted :
    (o : Outcomes) (n i : ℕ) (h : Held)
    → Timed i h
    → TimersStarted (i + n) (every_timer o n i) (create_timers o n i h)
unfolding create_timers
create_timers-TimersStarted o zero i h t = record {
  answer = refl;
  success =
      λ e. record { memory = t.memory; loader = t.loader; timer = λ j le. t.timer j (omega arith) };
  failure = λ e. cc;
}
create_timers-TimersStarted o (suc n) i h t = elim (Bool-cases (o.timer i)) [
  | inl e ↦
      let h' : Held = record h { timer = update h.timer i true } in
      let t' : Timed (i + 1) h' = record {
        memory = t.memory;
        loader = t.loader;
        timer = λ j le. ground (arith, t.timer j);
      } in
      let rest = create_timers-TimersStarted o n (i + 1) h' t' in
      rw e (record {
        answer = rest.answer;
        success = λ z.
            subst (λ k. Timed k (create_timers o n (i + 1) h').1) (omega arith) (rest.success z);
        failure = rest.failure;
      })
  | inr e ↦
      rw e (record { answer = refl; success = λ z. cc; failure = λ z. without_timers-AllBut i h t })
]

-- what main holds before it creates the timers
abbrev pub before_timers : Held
before_timers = record nothing {
  clock = true;
  ready_queue = true;
  machine = true;
  hw_threads = true;
  memory = true;
  scheduler = true;
}

pub no_array-AllBut : AllBut true (destroy_parts (record before_timers { scheduler = false }))
no_array-AllBut = record {
  clock = refl;
  ready_queue = refl;
  machine = refl;
  memory = refl;
  scheduler = refl;
  timer_array = refl;
  timer = λ j. refl;
  loader = refl;
}

with_array-TimersStarted :
    (o : Outcomes) (n : ℕ)
    → TimersStarted n
        (every_timer o n 0)
        (create_timers o n 0 (record before_timers { timer_array = true }))
with_array-TimersStarted o n =
    let h : Held = record before_timers { timer_array = true } in
    subst (λ k. TimersStarted k (every_timer o n 0) (create_timers o n 0 h)) (omega arith)
      (create_timers-TimersStarted o n 0 h
        (record { memory = refl; loader = refl; timer = λ j le. refl }))

pub start_timers-TimersStarted :
    (o : Outcomes) (n : ℕ) → TimersStarted n (all_timers o n) (start_timers o n before_timers)
unfolding start_timers
start_timers-TimersStarted o n = elim (Bool-cases (ltb 0 n)) [
  | inr none_wanted ↦ rw none_wanted (record {
    answer = refl;
    success = λ e. record { memory = refl; loader = refl; timer = λ j le. refl };
    failure = λ e. cc;
  })
  | inl some_wanted ↦
      rw some_wanted
        (elim (o.timer_array)
          as (λ b. TimersStarted n (b && every_timer o n 0) (
            if b
            then create_timers o n 0 (record before_timers { timer_array = true })
            else (false, destroy_parts (record before_timers { scheduler = false })))) [
              | true ↦ with_array-TimersStarted o n
              | false ↦ record { answer = refl; success = λ z. cc; failure = λ z. no_array-AllBut }
            ])
]

without_timers-hw_threads : (i : ℕ) (h : Held) → (without_timers i h).hw_threads ≡ h.hw_threads
without_timers-hw_threads i h = (destroy_timers-Destroyed i h).parts.hw_threads

create_timers-hw_threads :
    (o : Outcomes) (n i : ℕ) (h : Held) → (create_timers o n i h).1.hw_threads ≡ h.hw_threads
unfolding create_timers
create_timers-hw_threads o zero i h = refl
create_timers-hw_threads o (suc n) i h = elim (Bool-cases (o.timer i)) [
  | inl e ↦ rw e (create_timers-hw_threads o n (i + 1) _)
  | inr e ↦ rw e (without_timers-hw_threads i h)
]

-- two ways on, with the same hardware threads
pub either-hw_threads :
    (b : Bool) (out out' : Bool × Held) (t : Bool)
    → out.1.hw_threads ≡ t
    → out'.1.hw_threads ≡ t
    → (if b then out else out').1.hw_threads ≡ t
either-hw_threads true out out' t e e' = e
either-hw_threads false out out' t e e' = e'

-- The hardware threads stay allocated.
pub start_timers-hw_threads :
    (o : Outcomes) (n : ℕ) (h : Held) → (start_timers o n h).1.hw_threads ≡ h.hw_threads
unfolding start_timers
start_timers-hw_threads o n h =
    either-hw_threads (ltb 0 n) _ _ _
      (either-hw_threads o.timer_array _ _ _
        (create_timers-hw_threads o n 0 (record h { timer_array = true })) refl)
      refl
