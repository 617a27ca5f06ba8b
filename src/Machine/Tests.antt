-- ===== src/Machine/Tests.antt =====
-- The theorems on the slots of a machine, on one of a single core with two threads.
use the_loc_os.Base.{
  for_range, update, ℕ, ◌+◌, ◌≡◌, ◌⊎◌, refl, arith, true, false, pos, some, none, [], ◌∷◌,
}
use mathlib.Core.List.{Perm}
use the_loc_os.Process.{Heap, new_pcb}
use the_loc_os.Machine.{
  assign_core, load_thread, HardwareThread, Machine, assign_process_to_core,
  can_cpu_execute_process, remove_process_from_core, assign_cpus, assign_cores,
}
use the_loc_os.Machine.Create.{
  MachineMemory, idle_thread, create_core, create_cores, create_cpus, create_machine,
}
use the_loc_os.Machine.Slots.{executing, Fits}
use the_loc_os.Machine.Assign.{assign_cases}
use the_loc_os.Machine.Remove.{Takes, AbsentCpus, remove_cases}

-- the process at address p has the pid p
abbrev pub heap : Heap
heap = record { cell = λ p. new_pcb (pos p) (λ r. 0); live = λ p. true }

abbrev pub thread_of : ℕ → HardwareThread
thread_of p = record {
  pc = 0;
  ir = 0;
  ptbr = some 0;
  registers = λ r. 0;
  mmu = record { page_table_base = none; enabled = 0 };
  tlb = record {
    entries = λ i. record { virtual_page = 0; physical_frame = 0; valid = 0 };
    next_replace = 0;
  };
  pcb = p;
}

-- one core of two threads, `n` of which are in use, by the processes 7 and 8
abbrev pub one_core : ℕ → Machine
one_core n = record {
  cpus =
      record {
        cores =
            record {
              num_kernel_threads = 2;
              current_pcb_count = n;
              pcbs = λ k. new_pcb (pos (k + 7)) (λ r. 0);
              hw_threads = λ k. thread_of (k + 7);
            }
            ∷ [];
      }
      ∷ [];
}

half_full : can_cpu_execute_process (one_core 1) ≡ true
unfolding can_cpu_execute_process
half_full = refl

full : can_cpu_execute_process (one_core 2) ≡ false
unfolding can_cpu_execute_process
full = refl

executing_two : executing (one_core 2) ≡ 7 ∷ 8 ∷ []
executing_two = refl

executing_after : executing (assign_process_to_core (one_core 1) 5 heap).1 ≡ 7 ∷ 5 ∷ []
unfolding assign_process_to_core assign_cpus assign_cores assign_core load_thread
executing_after = refl

assign_cases_example :
    let (answer, machine') = assign_process_to_core (one_core 1) 5 heap in
    ((can_cpu_execute_process (one_core 1) ≡ true)
      × (answer ≡ true)
      × Perm (executing machine') (5 ∷ 7 ∷ [])
      × Fits machine')
    ⊎ ((can_cpu_execute_process (one_core 1) ≡ false) × (answer ≡ false) × (machine' ≡ one_core 1))
assign_cases_example = assign_cases (one_core 1) 5 heap (omega arith) ((omega arith, tt), tt)

remove_cases_example :
    Takes heap (pos 8) (one_core 2) (remove_process_from_core (one_core 2) (pos 8) heap)
    ⊎ (AbsentCpus heap (pos 8) (one_core 2).cpus
        × (remove_process_from_core (one_core 2) (pos 8) heap ≡ (false, one_core 2)))
remove_cases_example = remove_cases heap (pos 8) (one_core 2)

abbrev pub memory : MachineMemory
memory = record {
  machine_ok = true;
  cpus_ok = true;
  cores_ok = λ i. true;
  core = λ i j. record {
    core_ok = true;
    pcbs_ok = true;
    threads_ok = true;
    pcbs = λ k. new_pcb (pos k) (λ r. 0);
    hw_threads = thread_of;
  };
}

-- one core of two threads
abbrev pub idle_machine : Machine
idle_machine = record {
  cpus =
      record {
        cores =
            record {
              num_kernel_threads = 2;
              current_pcb_count = 0;
              pcbs = λ k. new_pcb (pos k) (λ r. 0);
              hw_threads = for_range 2 0 (λ i threads. update threads i idle_thread) thread_of;
            }
            ∷ [];
      }
      ∷ [];
}

created : create_machine memory 1 1 2 ≡ some idle_machine
unfolding create_machine create_cpus create_cores create_core
created = refl
