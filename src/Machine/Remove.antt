-- ===== src/Machine/Remove.antt =====
-- `remove_process_from_core`: which process it takes off the machine.
use the_loc_os.Base.{
  ℕ, ◌<◌, ◌≡◌, ◌≢◌, refl, ap, arith, Bool, true, false, List, [], ◌∷◌, inl, inr, ◌⊎◌, ℤ, eqb_ℤ,
  Option-cases,
}
use mathlib.Core.List.{Perm}
use the_loc_os.Queue.{Ptr}
use the_loc_os.Process.{Heap}
use the_loc_os.Machine.{
  Core, Cpu, Machine, runs, find_thread, remove_cores, remove_cpus, remove_process_from_core,
}
use the_loc_os.Machine.Slots.{
  slots, slots_cores, slots_cpus, executing, FitsCores, FitsCpus, Added, Added-left, Added-right,
}
use the_loc_os.Machine.Shift.{
  counts-remove_at, find_thread-runs, find_thread-none, slots-remove_at-Added,
}

module _ (h : Heap) (pid : ℤ) where
  -- `p` is the process that a removal took out
  abbrev Removed : Ptr → Type 0
  Removed p = (p ≢ 0) × (eqb_ℤ (h.cell p).pid pid ≡ true)

  record RemovesCores (cores : List Core) (out : Bool × List Core) : Type 0 where
    answer : out.0 ≡ true
    process : Ptr
    named : Removed process
    taken : Added process (slots_cores out.1) (slots_cores cores)
    fits : FitsCores cores → FitsCores out.1

  -- no thread in use runs the process
  abbrev pub AbsentCores : List Core → Type 0
  AbsentCores [] = Unit
  AbsentCores (core ∷ cores) =
      ((k : ℕ) → k < core.current_pcb_count → runs h pid core k ≡ false) × AbsentCores cores

  abbrev pub AbsentCpus : List Cpu → Type 0
  AbsentCpus [] = Unit
  AbsentCpus (cpu ∷ cpus) = AbsentCores cpu.cores × AbsentCpus cpus

  remove_cores-cases :
      (cores : List Core)
      → RemovesCores cores (remove_cores h pid cores)
        ⊎ (AbsentCores cores × (remove_cores h pid cores ≡ (false, cores)))
  unfolding remove_cores
  remove_cores-cases [] = inr (tt, refl)
  remove_cores-cases (core ∷ cores) =
      elim (Option-cases (find_thread h pid core core.current_pcb_count 0)) [
        | inl e ↦ rw e (elim (remove_cores-cases cores) [
          | inl a ↦ inl (record {
            answer = a.answer;
            process = a.process;
            named = a.named;
            taken = Added-left (slots core) a.taken;
            fits = λ f. (f.0, a.fits f.1);
          })
          | inr (out, same) ↦ inr (
            (
              λ k lt.
                  find_thread-none h pid core core.current_pcb_count 0 k e (omega arith)
                    (omega arith),
              out,
            ),
            ap (λ (o : Bool × List Core). (o.0, core ∷ o.1)) same,
          )
        ])
        | inr (k, e) ↦
            let (run, lt) = find_thread-runs h pid core core.current_pcb_count 0 k e in
            rw e (
              inl (record {
                answer = refl;
                process = (core.hw_threads k).pcb;
                named = ground arith;
                taken =
                    Added-right (slots_cores cores) (slots-remove_at-Added h k core (omega arith));
                fits = λ f. (
                  omega (arith, (counts-remove_at h k core).0, (counts-remove_at h k core).1),
                  f.1,
                );
              }))
      ]

  record RemovesCpus (cpus : List Cpu) (out : Bool × List Cpu) : Type 0 where
    answer : out.0 ≡ true
    process : Ptr
    named : Removed process
    taken : Added process (slots_cpus out.1) (slots_cpus cpus)
    fits : FitsCpus cpus → FitsCpus out.1

  remove_cpus-cases :
      (cpus : List Cpu)
      → RemovesCpus cpus (remove_cpus h pid cpus)
        ⊎ (AbsentCpus cpus × (remove_cpus h pid cpus ≡ (false, cpus)))
  unfolding remove_cpus
  remove_cpus-cases [] = inr (tt, refl)
  remove_cpus-cases (cpu ∷ cpus) = elim (remove_cores-cases cpu.cores) [
    | inl a ↦ rw a.answer (
        inl (record {
          answer = refl;
          process = a.process;
          named = a.named;
          taken = Added-right (slots_cpus cpus) a.taken;
          fits = λ f. (a.fits f.0, f.1);
        }))
    | inr (out, same) ↦ rw same (elim (remove_cpus-cases cpus) [
      | inl a ↦ inl (record {
        answer = a.answer;
        process = a.process;
        named = a.named;
        taken = Added-left (slots_cores cpu.cores) a.taken;
        fits = λ f. (f.0, a.fits f.1);
      })
      | inr (out', same') ↦ inr ((out, out'), ap (λ (o : Bool × List Cpu). (o.0, cpu ∷ o.1)) same')
    ])
  ]

  -- One process with the pid has been taken off the machine, and no other.
  pub record Takes (machine : Machine) (out : Bool × Machine) : Type 0 where
    pub answer : out.0 ≡ true
    pub process : Ptr
    pub not_null : process ≢ 0
    pub named : eqb_ℤ (h.cell process).pid pid ≡ true
    pub taken : Perm (executing machine) (process ∷ executing out.1)

  -- remove_process_from_core takes exactly one process with the pid off the machine, whose other
  -- processes stay; or no thread in use runs such a process, and it fails and changes nothing.
  pub remove_cases :
      (machine : Machine)
      → Takes machine (remove_process_from_core machine pid h)
        ⊎ (AbsentCpus machine.cpus × (remove_process_from_core machine pid h ≡ (false, machine)))
  unfolding remove_process_from_core
  remove_cases machine = elim (remove_cpus-cases machine.cpus) [
    | inl a ↦ inl (record {
      answer = a.answer;
      process = a.process;
      not_null = a.named.0;
      named = a.named.1;
      taken = a.taken;
    })
    | inr (out, same) ↦ inr (out, ap (λ (o : Bool × List Cpu). (o.0, record { cpus = o.1 })) same)
  ]
