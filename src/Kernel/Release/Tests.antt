-- ===== src/Kernel/Release/Tests.antt =====
-- The start of the kernel with three timers, of which the last cannot be created, and with two.
use the_loc_os.Base.{true, false, ◌≡◌, refl, ltb, for_range}
use the_loc_os.Kernel.Release.{
  Outcomes, start_parts, start_timers, create_timers, destroy_timers, start_loader,
}

abbrev two_timers : Outcomes
two_timers = record {
  clock = true;
  ready_queue = true;
  machine = true;
  memory = true;
  scheduler = true;
  timer_array = true;
  timer = λ i. ltb i 2;
  loader = true;
}

-- the memory is held, the second timer is not
left_behind :
    ((start_parts two_timers 3).1.memory ≡ true) × ((start_parts two_timers 3).1.timer 1 ≡ false)
unfolding start_parts start_timers create_timers destroy_timers for_range
left_behind = (refl, refl)

both_created : (start_parts two_timers 2).0 ≡ true
unfolding start_parts start_timers create_timers start_loader
both_created = refl
