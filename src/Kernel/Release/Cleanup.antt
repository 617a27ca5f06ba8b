-- ===== src/Kernel/Release/Cleanup.antt =====
-- What the clean-up of main leaves.
use the_loc_os.Base.{ℕ, ◌≤◌, ◌≡◌, refl, ◌∙◌, arith, Bool, true, false, ◌&&◌, not, if◌then◌else◌}
use the_loc_os.Kernel.Release.Timers.{
  destroy_timers-Destroyed, AllBut, Timed, TimersStarted, all_timers, before_timers,
  no_array-AllBut, start_timers-TimersStarted,
}
use the_loc_os.Kernel.Release.{Held, Outcomes, nothing, start_timers, start_loader, start_parts}

-- where the loader cannot be created, the memory goes too
loader_failed-AllBut :
    (o : Outcomes) (n : ℕ) (h : Held)
    → o.loader ≡ false
    → Timed n h
    → AllBut false (start_loader o n h).1
unfolding start_loader
loader_failed-AllBut o n h e t =
    let h' : Held = record h {
      scheduler = false;
      memory = false;
      machine = false;
      ready_queue = false;
    } in
    let d = destroy_timers-Destroyed n h' in
    rw e (record {
      clock = refl;
      ready_queue = d.parts.ready_queue;
      machine = d.parts.machine;
      memory = d.parts.memory;
      scheduler = d.parts.scheduler;
      timer_array = refl;
      timer = λ j. ground (arith, d.timer j, t.timer j);
      loader = d.parts.loader ∙ t.loader;
    })

nothing-AllBut : AllBut false nothing
nothing-AllBut = record {
  clock = refl;
  ready_queue = refl;
  machine = refl;
  memory = refl;
  scheduler = refl;
  timer_array = refl;
  timer = λ j. refl;
  loader = refl;
}

-- where the memory cannot be created, the hardware threads stay
no_memory-AllBut : AllBut false (record nothing { hw_threads = true })
no_memory-AllBut = record {
  clock = refl;
  ready_queue = refl;
  machine = refl;
  memory = refl;
  scheduler = refl;
  timer_array = refl;
  timer = λ j. refl;
  loader = refl;
}

-- how the start ends: all is there, or all has been given back but perhaps the memory
record Ended (ok left : Bool) (n : ℕ) (out : Bool × Held) : Type 0 where
  answer : out.0 ≡ ok
  success : ok ≡ true → (j : ℕ) → n ≤ j → out.1.timer j ≡ false
  failure : ok ≡ false → AllBut left out.1

start_loader-Ended :
    (o : Outcomes) (n : ℕ) (h : Held) → Timed n h → Ended o.loader false n (start_loader o n h)
unfolding start_loader
start_loader-Ended o n h t = record {
  answer = ground arith;
  success = λ e j le. ground (arith, t.timer j le);
  failure = λ e. loader_failed-AllBut o n h e t;
}

timed-Ended :
    (o : Outcomes) (n : ℕ) (ok : Bool) (out : Bool × Held)
    → TimersStarted n ok out
    → Ended (ok && o.loader) (not ok) n (if out.0 then start_loader o n out.1 else (false, out.1))
timed-Ended o n true (b, h) t = rw t.answer (start_loader-Ended o n h (t.success refl))
timed-Ended o n false (b, h) t =
    rw t.answer (record { answer = refl; success = λ e. cc; failure = λ e. t.failure refl })

-- a path that gives all back
gives_back : (n : ℕ) (left : Bool) (h : Held) → AllBut left h → Ended false left n (false, h)
gives_back n left h b = record { answer = refl; success = λ e. cc; failure = λ e. b }

-- a creation that ends the start if it fails, with all given back
creation-Ended :
    (b ok left : Bool) (n : ℕ) (out : Bool × Held) (h : Held)
    → AllBut false h
    → Ended ok left n out
    → Ended (b && ok) (b && left) n (if b then out else (false, h))
creation-Ended true ok left n out h none_left e = e
creation-Ended false ok left n out h none_left e = gives_back n false h none_left

scheduler-Ended :
    (b timers ok : Bool) (n : ℕ) (out : Bool × Held) (h : Held)
    → AllBut true h
    → Ended ok (not timers) n out
    → Ended (b && ok) (not (b && timers)) n (if b then out else (false, h))
scheduler-Ended true timers ok n out h memory_left e = e
scheduler-Ended false timers ok n out h memory_left e = gives_back n true h memory_left

abbrev pub starts : Outcomes → ℕ → Bool
starts o n =
    o.clock
    && (o.ready_queue && (o.machine && (o.memory && (o.scheduler && (all_timers o n && o.loader)))))

-- the memory is there and a part between it and the loader fails
abbrev pub leaks : Outcomes → ℕ → Bool
leaks o n =
    o.clock && (o.ready_queue && (o.machine && (o.memory && not (o.scheduler && all_timers o n))))

start_parts-Ended : (o : Outcomes) (n : ℕ) → Ended (starts o n) (leaks o n) n (start_parts o n)
unfolding start_parts
start_parts-Ended o n =
    let out = start_timers o n before_timers in
    let last = timed-Ended o n (all_timers o n) out (start_timers-TimersStarted o n) in
    creation-Ended o.clock _ _ n _ _ nothing-AllBut (
      creation-Ended o.ready_queue _ _ n _ _ nothing-AllBut (
        creation-Ended o.machine _ _ n _ _ nothing-AllBut (
          creation-Ended o.memory _ _ n _ _ no_memory-AllBut
            (scheduler-Ended o.scheduler (all_timers o n) _ n _ _ no_array-AllBut last))))

pub start_parts-starts : (o : Outcomes) (n : ℕ) → (start_parts o n).0 ≡ starts o n
start_parts-starts o n = (start_parts-Ended o n).answer
