-- ===== src/Machine/Assign.antt =====
-- `assign_process_to_core`: when it finds a slot, and what it changes.
use the_loc_os.Base.{
  ℕ, ◌≤◌, ◌≡◌, ◌≢◌, refl, ap, ◌∙◌, arith, Bool, true, false, List, [], ◌∷◌, ◌++◌, Bool-cases, inl,
  inr, ◌⊎◌, listing, listing-ext, listing-snoc,
}
use mathlib.Core.Path.{ap₂}
use mathlib.Core.List.{Perm, perm_append_singleton}
use native.Mathlib.Numerals.{add-one}
use the_loc_os.Queue.{Ptr}
use the_loc_os.Process.{Heap}
use the_loc_os.Machine.{
  Core, Cpu, Machine, has_space, can_any_core, can_any_cpu, can_cpu_execute_process, load_thread,
  assign_core, assign_cores, assign_cpus, assign_process_to_core,
}
use the_loc_os.Machine.Slots.{
  slots, slots_cores, slots_cpus, executing, FitsCores, FitsCpus, Fits, Added, Added-left,
  Added-right,
}

slots-assign_core :
    (h : Heap) (p : Ptr) (core : Core) → slots (assign_core h p core) ≡ slots core ++ (p ∷ [])
unfolding assign_core load_thread
slots-assign_core h p core =
    let f = λ (k : ℕ). ((assign_core h p core).hw_threads k).pcb in
    ap (λ n. listing n f) (add-one core.current_pcb_count)
    ∙ listing-snoc core.current_pcb_count f
    ∙ ap₂ (λ l x. l ++ (x ∷ []))
        (listing-ext core.current_pcb_count f (λ k. (core.hw_threads k).pcb) (λ i m. ground arith))
        (ground arith)

fits-assign_core :
    (h : Heap) (p : Ptr) (core : Core)
    → has_space core ≡ true
    → (assign_core h p core).current_pcb_count ≤ (assign_core h p core).num_kernel_threads
unfolding assign_core
fits-assign_core h p core e = ground arith

module _ (h : Heap) (p : Ptr) where
  record AssignsCores (cores : List Core) (out : Bool × List Core) : Type 0 where
    answer : out.0 ≡ true
    space : can_any_core cores ≡ true
    added : Added p (slots_cores cores) (slots_cores out.1)
    fits : FitsCores cores → FitsCores out.1

  assign_cores-cases :
      (cores : List Core)
      → AssignsCores cores (assign_cores h p cores)
        ⊎ ((can_any_core cores ≡ false) × (assign_cores h p cores ≡ (false, cores)))
  unfolding assign_cores
  assign_cores-cases [] = inr (refl, refl)
  assign_cores-cases (core ∷ cores) = elim (Bool-cases (has_space core)) [
    | inl e ↦ rw e (
        inl (record {
          answer = refl;
          space = rw e;
          added =
              rw (slots-assign_core h p core)
                (Added-right (slots_cores cores) (perm_append_singleton p (slots core)));
          fits = λ f. (fits-assign_core h p core e, f.1);
        }))
    | inr e ↦ rw e (elim (assign_cores-cases cores) [
      | inl a ↦ inl (record {
        answer = a.answer;
        space = ground (arith, a.space);
        added = Added-left (slots core) a.added;
        fits = λ f. (f.0, a.fits f.1);
      })
      | inr (full, same) ↦
          inr (ground (arith, full), ap (λ (o : Bool × List Core). (o.0, core ∷ o.1)) same)
    ])
  ]

  record AssignsCpus (cpus : List Cpu) (out : Bool × List Cpu) : Type 0 where
    answer : out.0 ≡ true
    space : can_any_cpu cpus ≡ true
    added : Added p (slots_cpus cpus) (slots_cpus out.1)
    fits : FitsCpus cpus → FitsCpus out.1

  assign_cpus-cases :
      (cpus : List Cpu)
      → AssignsCpus cpus (assign_cpus h p cpus)
        ⊎ ((can_any_cpu cpus ≡ false) × (assign_cpus h p cpus ≡ (false, cpus)))
  unfolding assign_cpus
  assign_cpus-cases [] = inr (refl, refl)
  assign_cpus-cases (cpu ∷ cpus) = elim (assign_cores-cases cpu.cores) [
    | inl a ↦ rw a.answer (
        inl (record {
          answer = refl;
          space = rw a.space;
          added = Added-right (slots_cpus cpus) a.added;
          fits = λ f. (a.fits f.0, f.1);
        }))
    | inr (full, same) ↦ rw same (elim (assign_cpus-cases cpus) [
      | inl a ↦ inl (record {
        answer = a.answer;
        space = rw full a.space;
        added = Added-left (slots_cores cpu.cores) a.added;
        fits = λ f. (f.0, a.fits f.1);
      })
      | inr (full', same') ↦
          inr (rw full full', ap (λ (o : Bool × List Cpu). (o.0, cpu ∷ o.1)) same')
    ])
  ]

module _ (machine : Machine) (p : Ptr) (h : Heap) where
  assign-eq :
      p ≢ 0
      → assign_process_to_core machine p h
        ≡ ((assign_cpus h p machine.cpus).0, record { cpus = (assign_cpus h p machine.cpus).1 })
  unfolding assign_process_to_core
  assign-eq ne = ground arith

  -- assign_process_to_core succeeds exactly when can_cpu_execute_process says that some core has a
  -- free thread.
  pub assign_iff_can_execute :
      p ≢ 0 → (assign_process_to_core machine p h).0 ≡ can_cpu_execute_process machine
  unfolding assign_process_to_core can_cpu_execute_process
  assign_iff_can_execute ne = ground (arith, assign_cpus-cases h p machine.cpus)

  pub Added-assign :
      p ≢ 0
      → can_cpu_execute_process machine ≡ true
      → Added p (executing machine) (executing (assign_process_to_core machine p h).1)
  unfolding can_cpu_execute_process
  Added-assign ne e =
      rw (assign-eq ne)
        (elim (assign_cpus-cases h p machine.cpus) [ inl a ↦ a.added | inr (full, same) ↦ cc ])

  -- with a free thread
  pub executing-assign :
      p ≢ 0
      → Fits machine
      → can_cpu_execute_process machine ≡ true
      → Perm (executing (assign_process_to_core machine p h).1) (p ∷ executing machine)
        × Fits (assign_process_to_core machine p h).1
  unfolding can_cpu_execute_process
  executing-assign ne fits e = rw (assign-eq ne) (elim (assign_cpus-cases h p machine.cpus) [
    | inl a ↦ (a.added, a.fits fits)
    | inr (full, same) ↦ cc
  ])

  -- When no core has a free thread, assign_process_to_core fails and changes nothing.
  pub assign-full :
      can_cpu_execute_process machine ≡ false
      → assign_process_to_core machine p h ≡ (false, machine)
  unfolding assign_process_to_core can_cpu_execute_process
  assign-full e = ground (arith, assign_cpus-cases h p machine.cpus)

  -- assign_process_to_core of a process that is not NULL, on a machine with no core over its
  -- capacity: where some core has a free thread it succeeds, the processes on the machine are
  -- those that were there and the new one, and still no core is over its capacity; where none has,
  -- it fails and changes nothing.
  pub assign_cases :
      p ≢ 0
      → Fits machine
      → let (answer, machine') = assign_process_to_core machine p h in
        ((can_cpu_execute_process machine ≡ true)
          × (answer ≡ true)
          × Perm (executing machine') (p ∷ executing machine)
          × Fits machine')
        ⊎ ((can_cpu_execute_process machine ≡ false) × (answer ≡ false) × (machine' ≡ machine))
  assign_cases ne fits = elim (Bool-cases (can_cpu_execute_process machine)) [
    | inl e ↦
        let (added, fits') = executing-assign ne fits e in
        inl (e, assign_iff_can_execute ne ∙ e, added, fits')
    | inr e ↦ inr (e, ap (λ o. o.0) (assign-full e), ap (λ o. o.1) (assign-full e))
  ]
