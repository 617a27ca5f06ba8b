-- ===== src/Timer/Tests.antt =====
-- A timer of three ticks whose callback counts its interruptions, created at tick 5.
use the_loc_os.Base.{ℕ, ◌+◌, ◌≡◌, refl, true, false, none, some, pos, ◌+ℤ◌, ◌-ℤ◌, arith}
use the_loc_os.Timer.{Timer, create_timer, timer_round, call_back}
use the_loc_os.Timer.Rounds.{rounds, rounds-callback}

abbrev three_ticks : Timer ℕ
three_ticks = record {
  id = pos 1;
  interval = pos 3;
  last_tick = pos 5;
  running = true;
  callback = some (λ id count. count + 1);
}

created :
    (create_timer true true (pos 5) (pos 1) (pos 3) (some (λ id count. count + 1))
      ≡ some three_ticks)
    × (create_timer {S = ℕ} true false (pos 5) (pos 1) (pos 3) none ≡ none)
unfolding create_timer
created = (refl, refl)

-- it has interrupted at the ticks 8 and 11
eight_ticks : rounds 8 (pos 5) (three_ticks, 0) ≡ (record three_ticks { last_tick = pos 11 }, 2)
unfolding rounds timer_round call_back ◌+ℤ◌ ◌-ℤ◌
eight_ticks = refl

-- a timer that was stopped does nothing
stopped :
    (s : ℕ)
    → timer_round (pos 9) (record three_ticks { running = false }) s
      ≡ (record three_ticks { running = false }, s)
unfolding timer_round
stopped s = refl

rounds-callback_example : (rounds 8 (pos 5) (three_ticks, 0)).1 ≡ 2
unfolding call_back ◌+ℤ◌
rounds-callback_example =
    rounds-callback 3 8 2 2 0 (pos 5) three_ticks 0 refl refl refl (omega arith) refl (omega arith)
