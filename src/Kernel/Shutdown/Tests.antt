-- ===== src/Kernel/Shutdown/Tests.antt =====
-- The clean-up on a queue with processes 8 and 9, and on a memory fresh from its creation.
use the_loc_os.Base.{◌==◌, if◌then◌else◌, ◌≡◌, arith, true, pos}
use the_loc_os.Queue.{ProcessQueue}
use the_loc_os.Queue.Ring.{IsValid}
use the_loc_os.Process.{Heap, new_pcb}
use the_loc_os.Memory.Frames.Tests.{fresh_memory, fresh-IsValid}
use the_loc_os.Kernel.Shutdown.{drain_queue, used_frames}
use the_loc_os.Kernel.Shutdown.Frees.{Drained, drain_queue-Drained, used_frames-eq}

abbrev two_left : ProcessQueue
two_left = record {
  queue = λ i. if i == 2 then 8 else 9;
  front = 2;
  rear = pos 0;
  max_capacity = 3;
  current_size = 2;
}

abbrev heap : Heap
heap = record { cell = λ p. new_pcb (pos p) (λ r. 0); live = λ p. true }

two_left-IsValid : IsValid two_left
two_left-IsValid = ground arith

drain_queue-Drained_example : Drained two_left heap (drain_queue two_left heap)
drain_queue-Drained_example =
    drain_queue-Drained two_left heap two_left-IsValid (omega arith, (omega arith, tt))

used_frames-eq_example : used_frames fresh_memory ≡ 256
used_frames-eq_example = used_frames-eq fresh_memory fresh-IsValid
