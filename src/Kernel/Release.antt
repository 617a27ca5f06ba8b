-- ===== src/Kernel/Release.antt =====
-- What main of sys/kernel.c holds while it starts, and for what it calls the clean-up on the paths on
-- which a part cannot be created. A part is held from its creation until the call of the function that
-- stops or destroys it, but for the hardware threads of the cores: create_machine allocates them, and
-- destroy_machine does not free them. Within its creation each part gives back by itself what it cannot
-- finish.
pub mod Timers
pub mod Cleanup
pub mod Tests
use the_loc_os.Base.{ℕ, zero, suc, ◌+◌, Bool, true, false, if◌then◌else◌, for_range, update, ltb}

pub record Held : Type 0 where
  pub clock : Bool
  pub ready_queue : Bool
  pub machine : Bool
  pub hw_threads : Bool
  pub memory : Bool
  pub scheduler : Bool
  pub timer_array : Bool
  pub timer : ℕ → Bool
  pub loader : Bool

-- which of the creations succeed
pub record Outcomes : Type 0 where
  pub clock : Bool
  pub ready_queue : Bool
  pub machine : Bool
  pub memory : Bool
  pub scheduler : Bool
  pub timer_array : Bool
  pub timer : ℕ → Bool
  pub loader : Bool

abbrev pub nothing : Held
nothing = record {
  clock = false;
  ready_queue = false;
  machine = false;
  hw_threads = false;
  memory = false;
  scheduler = false;
  timer_array = false;
  timer = λ i. false;
  loader = false;
}

-- destroy_machine, destroy_process_queue and stop_clock, with which every path of main ends
abbrev pub destroy_parts : Held → Held
destroy_parts h = record h { machine = false; ready_queue = false; clock = false }

-- the loop that destroys the first `n` timers
unfoldable pub destroy_timers : ℕ → Held → Held
destroy_timers n h = for_range n 0 (λ j h. record h { timer = update h.timer j false }) h

-- the clean-up where timer `i` cannot be created
abbrev pub without_timers : ℕ → Held → Held
without_timers i h =
    destroy_parts (record (destroy_timers i h) { timer_array = false; scheduler = false })

-- "Create all timers": `n` of them from number `i` on
unfoldable pub create_timers : Outcomes → ℕ → ℕ → Held → Bool × Held
create_timers o zero i h = (true, h)
create_timers o (suc n) i h =
    let rest = create_timers o n (i + 1) (record h { timer = update h.timer i true }) in
    if o.timer i then rest else (false, without_timers i h)

-- the array of timers and the timers, where there are any
unfoldable pub start_timers : Outcomes → ℕ → Held → Bool × Held
start_timers o n h =
    if ltb 0 n
    then (if o.timer_array
        then create_timers o n 0 (record h { timer_array = true })
        else (false, destroy_parts (record h { scheduler = false })))
    else (true, h)

-- the loader, the last part
unfoldable pub start_loader : Outcomes → ℕ → Held → Bool × Held
start_loader o n h = if o.loader then (true, record h { loader = true }) else (
  false,
  record (destroy_timers n
      (record h { scheduler = false; memory = false; machine = false; ready_queue = false })) {
        timer_array = false;
        clock = false;
      },
)

-- The parts in the order of main; the Boolean says whether main goes on or returns 1. `n` is the
-- number of timers.
unfoldable pub start_parts : Outcomes → ℕ → Bool × Held
start_parts o n =
    let h = record nothing { clock = true } in
    let h' = record h { ready_queue = true; machine = true; hw_threads = true } in
    let (timed, h'') = start_timers o n (record h' { memory = true; scheduler = true }) in
    if o.clock
    then (if o.ready_queue
        then (if o.machine
            then (if o.memory
                then (if o.scheduler
                    then (if timed then start_loader o n h'' else (false, h''))
                    else (false, destroy_parts (record h' { memory = true })))
                else (false, destroy_parts h'))
            else (false, record h { ready_queue = false; clock = false }))
        else (false, record h { clock = false }))
    else (false, nothing)
