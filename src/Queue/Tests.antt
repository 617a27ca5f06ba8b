-- ===== src/Queue/Tests.antt =====
-- The theorems on the process queue, on a queue for three processes that has gone round its ring.
use the_loc_os.Base.{
  ◌==◌, if◌then◌else◌, ◌≡◌, refl, arith, true, some, pos, negsuc, List, [], ◌∷◌, rem_ℤ, ◌+ℤ◌,
}
use the_loc_os.Queue.{ProcessQueue, create_process_queue, enqueue_process, dequeue_process}
use the_loc_os.Queue.Ring.{IsValid}
use the_loc_os.Queue.Fifo.{
  contents, Call, arrive, request, status, process, run, run_fifo, run_refines,
}

abbrev empty_queue : ProcessQueue
empty_queue = record {
  queue = λ i. 0;
  front = 0;
  rear = negsuc 0;
  max_capacity = 3;
  current_size = 0;
}

-- 8, then 9, round the end of the array
abbrev wrapped : ProcessQueue
wrapped = record {
  queue = λ i. if i == 2 then 8 else 9;
  front = 2;
  rear = pos 0;
  max_capacity = 3;
  current_size = 2;
}

abbrev script : List Call
script = arrive 5 ∷ arrive 6 ∷ request ∷ request ∷ request ∷ request ∷ []

created : create_process_queue true true (λ i. 0) 3 ≡ some empty_queue
unfolding create_process_queue
created = refl

wrapped-IsValid : IsValid wrapped
wrapped-IsValid = ground arith

contents-wrapped : contents wrapped ≡ 8 ∷ 9 ∷ []
contents-wrapped = refl

replies :
    run wrapped script
    ≡ status (pos 0) ∷ status (negsuc 0) ∷ process 8 ∷ process 9 ∷ process 5 ∷ process 0 ∷ []
unfolding run enqueue_process dequeue_process rem_ℤ ◌+ℤ◌
replies = refl

run_refines_example : run wrapped script ≡ run_fifo 3 (8 ∷ 9 ∷ []) script
run_refines_example = run_refines script wrapped-IsValid
