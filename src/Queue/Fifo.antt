-- ===== src/Queue/Fifo.antt =====
-- A valid ring is the bounded first-in first-out queue of the pointers that it holds.
use the_loc_os.Base.{
  ℕ, ◌+◌, ◌-◌, ◌%◌, ◌<◌, ◌≡◌, ◌≢◌, refl, ap, ◌∙◌, arith, leb, if◌then◌else◌, ℤ, pos, negsuc, List,
  [], ◌∷◌, ◌++◌, length, listing, length-listing, listing-ext, listing-snoc, listing-cons,
}
use mathlib.Core.Path.{ap₂}
use native.Mathlib.Decide.{dec_lt, ℕ_discrete}
use native.Mathlib.Numerals.{add-one}
use the_loc_os.Queue.{Ptr, null, ProcessQueue, enqueue_process, dequeue_process}
use the_loc_os.Queue.Ring.{
  IsValid, entry, wrap, mod-wrap, put, advance, dequeue_process-empty, dequeue_process-advance,
  enqueue_process-put, enqueue_process-full, enqueue_process-IsValid, dequeue_process-IsValid,
}

-- the pointers in the queue, the front first
abbrev pub contents : ProcessQueue → List Ptr
contents pq = listing pq.current_size (entry pq)

-- What a queue of at most `cap` processes answers to an arrival and to a request.
pub push : ℕ → List Ptr → Ptr → ℤ × List Ptr
push cap q x = if leb cap (length q) then (negsuc 0, q) else (pos 0, q ++ (x ∷ []))

pub pop : List Ptr → Ptr × List Ptr
pop [] = (null, [])
pop (x ∷ q) = (x, q)

module _ {pq : ProcessQueue} (v : IsValid pq) where
  pub contents-put :
      (pcb : Ptr)
      → pq.current_size < pq.max_capacity
      → contents (put pq pcb) ≡ contents pq ++ (pcb ∷ [])
  contents-put pcb room =
      ap (λ k. listing k (entry (put pq pcb))) (add-one pq.current_size)
      ∙ listing-snoc pq.current_size (entry (put pq pcb))
      ∙ ap₂ (λ l x. l ++ (x ∷ [])) (listing-ext pq.current_size _ _ (λ i h. ground arith))
          (ground arith)

  advanced :
      pq.current_size ≢ 0
      → (i : ℕ) → i < pq.current_size - 1
      → pq.queue (wrap pq.max_capacity ((pq.front + 1) % pq.max_capacity + i)) ≡ entry pq (i + 1)
  advanced left i h = ap pq.queue (ground (arith, mod-wrap (pq.front + 1) pq.max_capacity))

  -- `enqueue_process` answers as the queue of the contents does, and leaves the ring with its contents.
  pub enqueue_process_refines :
      (pcb : Ptr)
      → let (answer, pq') = enqueue_process pq pcb in
        (answer, contents pq') ≡ push pq.max_capacity (contents pq) pcb
  unfolding push
  enqueue_process_refines pcb = elim (dec_lt pq.current_size pq.max_capacity) [
    | yes room ↦
        rw (enqueue_process-put v pcb room, contents-put pcb room)
          (ground (arith, length-listing pq.current_size (entry pq)))
    | no full ↦
        rw (enqueue_process-full pq pcb (omega arith))
          (ground (arith, length-listing pq.current_size (entry pq)))
  ]

  -- `dequeue_process` returns the front of the queue, NULL if there is none, and leaves the rest.
  pub dequeue_process_refines :
      let (pcb, pq') = dequeue_process pq in (pcb, contents pq') ≡ pop (contents pq)
  unfolding pop
  dequeue_process_refines = elim (ℕ_discrete pq.current_size 0) [
    | yes empty ↦
        rw (dequeue_process-empty pq empty, ap (λ n. pop (listing n (entry pq))) empty)
          (ap (λ n. (null, listing n (entry pq))) empty)
    | no left ↦
        rw (dequeue_process-advance pq left, listing-cons pq.current_size (entry pq) left)
          (ap₂ (λ x l. (x, l)) (ap pq.queue (ground (arith, v.front_in)))
            (listing-ext (pq.current_size - 1) _ _ (advanced left)))
  ]

pop-cons : (l : List Ptr) {r : List Ptr} {x : Ptr} → 0 < length l → (x, r) ≡ pop l → l ≡ x ∷ r
unfolding pop
pop-cons [] h e = absurd (omega arith)
pop-cons (y ∷ l) h e = cc

-- the front and what `dequeue_process` leaves
pub contents-advance :
    {pq : ProcessQueue}
    → IsValid pq
    → pq.current_size ≢ 0
    → contents pq ≡ pq.queue pq.front ∷ contents (advance pq)
contents-advance {pq} v left =
    let e = dequeue_process_refines v in
    pop-cons (contents pq) (omega (arith, length-listing pq.current_size (entry pq)))
      (rw (dequeue_process-advance pq left) at e)

-- A client's calls of one queue, and what each answers.
pub data Call : Type 0 where
  arrive : Ptr → Call
  request : Call

pub data Reply : Type 0 where
  status : ℤ → Reply
  process : Ptr → Reply

unfoldable pub run : ProcessQueue → List Call → List Reply
run pq [] = []
run pq (arrive pcb ∷ calls) =
    let (answer, pq') = enqueue_process pq pcb in status answer ∷ run pq' calls
run pq (request ∷ calls) = let (pcb, pq') = dequeue_process pq in process pcb ∷ run pq' calls

pub run_fifo : ℕ → List Ptr → List Call → List Reply
run_fifo cap q [] = []
run_fifo cap q (arrive pcb ∷ calls) =
    let (answer, q') = push cap q pcb in status answer ∷ run_fifo cap q' calls
run_fifo cap q (request ∷ calls) = let (pcb, q') = pop q in process pcb ∷ run_fifo cap q' calls

capacity-enqueue :
    (pq : ProcessQueue) (pcb : Ptr) → (enqueue_process pq pcb).1.max_capacity ≡ pq.max_capacity
unfolding enqueue_process
capacity-enqueue pq pcb = ground arith

capacity-dequeue : (pq : ProcessQueue) → (dequeue_process pq).1.max_capacity ≡ pq.max_capacity
unfolding dequeue_process
capacity-dequeue pq = ground arith

-- No sequence of arrivals and requests tells a valid ring of processes from the bounded first-in
-- first-out queue of its contents.
pub run_refines :
    (calls : List Call) {pq : ProcessQueue}
    → IsValid pq
    → run pq calls ≡ run_fifo pq.max_capacity (contents pq) calls
unfolding run run_fifo
run_refines [] v = refl
run_refines (arrive pcb ∷ calls) {pq} v = rw (
  run_refines calls (enqueue_process-IsValid pcb v),
  ← enqueue_process_refines v pcb,
  capacity-enqueue,
)
run_refines (request ∷ calls) {pq} v =
    rw
      (run_refines calls (dequeue_process-IsValid v), ← dequeue_process_refines v, capacity-dequeue)
