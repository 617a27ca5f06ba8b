-- ===== src/Kernel/Shutdown/Frees.antt =====
-- What the clean-up frees, and what the statistics count.
use the_loc_os.Base.{
  ℕ, zero, suc, ◌+◌, ◌<◌, ◌≤◌, ◌≡◌, ◌≢◌, refl, sym, ap, ◌∙◌, arith, Bool, false, ◌||◌, List, [],
  ◌∷◌, ◌==◌, if◌then◌else◌, for_range_inv, listing,
}
use mathlib.Core.Path.{subst}
use native.Mathlib.Decide.{ℕ_discrete}
use the_loc_os.Queue.{Ptr, ProcessQueue}
use the_loc_os.Queue.Ring
use the_loc_os.Queue.Ring.{
  entry, advance, dequeue_process-advance, dequeue_process-empty, dequeue_process-IsValid,
}
use the_loc_os.Queue.Fifo.{contents, contents-advance}
use the_loc_os.Process.{Heap, destroy_pcb}
use the_loc_os.Memory.{PhysicalMemory, is_frame_allocated}
use the_loc_os.Memory.Frames.{
  IsValid, count_used, count_used-zero, count_used-suc, is_frame_allocated_lem,
}
use the_loc_os.Kernel.Shutdown.{drain, drain_queue, drain_queues, used_frames}

abbrev pub member : Ptr → List Ptr → Bool
member p [] = false
member p (q ∷ l) = p == q || member p l

abbrev pub NoNull : List Ptr → Type 0
NoNull [] = Unit
NoNull (p ∷ l) = (p ≢ 0) × NoNull l

destroyed :
    (q p : Ptr) (h : Heap) → q ≢ 0 → (destroy_pcb q h).live p ≡ (if p == q then false else h.live p)
unfolding destroy_pcb
destroyed q p h ne = ground arith

-- the queue is empty, and exactly its processes are freed
pub record Drained (pq : ProcessQueue) (h : Heap) (out : ProcessQueue × Heap) : Type 0 where
  pub empty : out.0.current_size ≡ 0
  pub freed : (p : Ptr) → out.1.live p ≡ (if member p (contents pq) then false else h.live p)

no_contents : (pq : ProcessQueue) → pq.current_size ≡ 0 → contents pq ≡ []
no_contents pq e = ap (λ n. listing n (entry pq)) e

drain-Drained :
    (n : ℕ) (pq : ProcessQueue) (h : Heap)
    → Ring.IsValid pq
    → NoNull (contents pq)
    → pq.current_size < n
    → Drained pq h (drain n pq h)
unfolding drain
drain-Drained zero pq h v ok enough = absurd (omega arith)
drain-Drained (suc n) pq h v ok enough = elim (ℕ_discrete pq.current_size 0) [
  | yes none_left ↦ rw (dequeue_process-empty pq none_left) (record {
    empty = none_left;
    freed = λ p. ap (λ l. if member p l then false else h.live p) (sym (no_contents pq none_left));
  })
  | no some_left ↦
      let front = pq.queue pq.front in
      let parts = contents-advance v some_left in
      let (ne, later) : NoNull (front ∷ contents (advance pq)) = subst NoNull parts ok in
      let alive : (front == 0) ≡ false = ground (arith, ne) in
      let v' =
        subst (λ (out : Ptr × ProcessQueue). Ring.IsValid out.1)
          (dequeue_process-advance pq some_left) (dequeue_process-IsValid v) in
      let rest = drain-Drained n (advance pq) (destroy_pcb front h) v' later (omega arith) in
      rw (dequeue_process-advance pq some_left, alive)
        (record {
          empty = rest.empty;
          freed = λ p. rest.freed p ∙ rw parts (ground (arith, destroyed front p h ne));
        })
]

-- The clean-up of a valid queue without NULL ends with the queue empty and frees exactly the
-- processes that were in it.
pub drain_queue-Drained :
    (pq : ProcessQueue) (h : Heap)
    → Ring.IsValid pq
    → NoNull (contents pq)
    → Drained pq h (drain_queue pq h)
drain_queue-Drained pq h v ok = drain-Drained (pq.current_size + 1) pq h v ok (omega arith)

-- whether a process is in one of the `n` queues from number `i` on
abbrev pub member_queues : Ptr → ℕ → ℕ → (ℕ → ProcessQueue) → Bool
member_queues p zero i queues = false
member_queues p (suc n) i queues =
    member p (contents (queues i)) || member_queues p n (i + 1) queues

pub drain_queues-live :
    (n i : ℕ) (queues : ℕ → ProcessQueue) (h : Heap)
    → ((k : ℕ) → Ring.IsValid (queues k))
    → ((k : ℕ) → NoNull (contents (queues k)))
    → (p : Ptr)
    → (drain_queues n i queues h).live p ≡ (if member_queues p n i queues then false else h.live p)
unfolding drain_queues
drain_queues-live zero i queues h v ok p = refl
drain_queues-live (suc n) i queues h v ok p =
    let one = drain_queue-Drained (queues i) h (v i) (ok i) in
    ground
      (arith, one.freed p, drain_queues-live n (i + 1) queues (drain_queue (queues i) h).1 v ok p)

-- Where the frame bitmap is consistent, the frames that the statistics of cleanup_system count are
-- the frames that the memory counts as allocated.
pub used_frames-eq : (pm : PhysicalMemory) → IsValid pm → used_frames pm ≡ pm.total_allocated_frames
unfolding used_frames
used_frames-eq pm v =
    for_range_inv (λ i used. i ≤ 4096 → used ≡ count_used i pm.frame_bitmap)
      (λ i used. if is_frame_allocated pm i == 0 then used else used + 1)
      (λ i used same le. ground (
        arith,
        same (omega arith),
        is_frame_allocated_lem pm i,
        count_used-suc i pm.frame_bitmap,
        v.bits i,
      ))
      4096 0 4096 0 (omega arith) (λ le. sym (count_used-zero pm.frame_bitmap)) (omega arith)
    ∙ sym v.counted
