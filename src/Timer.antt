-- ===== src/Timer.antt =====
-- The timer of sys/timer.h and sys/timer.c: its creation and one round of its thread, at a tick of the
-- clock. `S` is what the callback and its user_data change. The waiting for the clock, the signals
-- and the messages are not modelled.
pub mod Rounds
pub mod Tests
use the_loc_os.Base.{Bool, true, false, Option, none, some, if◌then◌else◌, ℤ, leb_ℤ, ◌-ℤ◌}

pub record Timer (S : Type 0) : Type 0 where
  pub id : ℤ
  pub interval : ℤ
  pub last_tick : ℤ
  pub running : Bool
  pub callback : Option (ℤ → S → S)

-- `create_timer`, where its allocation and the start of its thread succeed or not
unfoldable pub create_timer :
    {S : Type 0} (allocated started : Bool) (clk_counter id interval : ℤ)
    → Option (ℤ → S → S)
    → Option (Timer S)
create_timer allocated started clk_counter id interval callback =
    if allocated
    then if started
      then some (record {
        id = id;
        interval = interval;
        last_tick = clk_counter;
        running = true;
        callback = callback;
      })
      else none
    else none

-- "Execute callback if provided"
unfoldable pub call_back : {S : Type 0} → Option (ℤ → S → S) → ℤ → S → S
call_back none id s = s
call_back (some callback) id s = callback id s

-- One round of `timer_function`, which has woken up at a tick, while the system runs; a timer that was
-- stopped ends.
unfoldable pub timer_round : {S : Type 0} → (clk_counter : ℤ) → Timer S → S → Timer S × S
timer_round clk_counter timer s =
    if timer.running
    then if leb_ℤ timer.interval (clk_counter -ℤ timer.last_tick)
      then (record timer { last_tick = clk_counter }, call_back timer.callback timer.id s)
      else (timer, s)
    else (timer, s)
