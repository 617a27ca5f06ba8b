-- ===== src/Process/Tests.antt =====
-- The theorems on PCBs, on a heap with one process at address 1 that has ten ticks to live.
use the_loc_os.Base.{true, false, negsuc, ◌≡◌, refl, ◌==◌, pos, ◌-ℤ◌}
use the_loc_os.Process.{Heap, new_pcb, create_pcb, set_pcb_priority, destroy_pcb, decrement_pcb_ttl}
use the_loc_os.Process.Ttl.{tick_ttl}

abbrev one_process : Heap
one_process = record {
  cell = λ p. record (new_pcb (pos 7) (λ r. 0)) { ttl = pos 10; initial_ttl = pos 10 };
  live = λ p. p == 1;
}

twelve_ticks : ((tick_ttl 12 1 one_process).cell 1).ttl ≡ pos 0
unfolding tick_ttl decrement_pcb_ttl ◌-ℤ◌
twelve_ticks = refl

-- a new process is waiting and allocated, and NULL if `malloc` fails
created :
    let (p, h) = create_pcb (λ g. 5) (pos 9) one_process in
    (p ≡ 5) × ((h.cell 5).state ≡ 1) × ((h.cell 5).pid ≡ pos 9) × (h.live 5 ≡ true)
unfolding create_pcb
created = (refl, refl, refl, refl)

not_created : create_pcb (λ g. 0) (pos 9) one_process ≡ (0, one_process)
unfolding create_pcb
not_created = refl

prioritized : ((set_pcb_priority 1 (negsuc 4) one_process).cell 1).priority ≡ negsuc 4
unfolding set_pcb_priority
prioritized = refl

destroyed : (destroy_pcb 1 one_process).live 1 ≡ false
unfolding destroy_pcb
destroyed = refl
