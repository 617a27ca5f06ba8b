-- ===== src/Kernel/Arguments/Tests.antt =====
-- The arguments `-cpus 1 -cores 1 -q 0 -threads 2 -x`, with an `atoi` that reads decimal digits.
use the_loc_os.Base.{ℕ, ◌+◌, ◌*◌, ◌-◌, ◌≡◌, refl, some, List, [], ◌∷◌, ℤ, pos, ◌+ℤ◌}
use the_loc_os.Loader.Scan.{Line}
use the_loc_os.Kernel.{same_text}
use the_loc_os.Machine.Create.{create_machine, create_cpus, create_cores, create_core}
use the_loc_os.Machine.Tests.{memory, idle_machine}
use the_loc_os.Kernel.Arguments.{
  Usable, default_settings, flag_of, set_flag, parse_arguments, timers_to_create,
  create_system_machine, arguments-Usable,
}

abbrev pub digits : Line → ℕ → ℕ
digits [] n = n
digits (c ∷ s) n = digits s (10 * n + (c - 48))

abbrev pub atoi : Line → ℤ
atoi s = pos (digits s 0)

abbrev pub arguments : List Line
arguments =
    (b'-' ∷ b'c' ∷ b'p' ∷ b'u' ∷ b's' ∷ [])
    ∷ (b'1' ∷ [])
    ∷ (b'-' ∷ b'c' ∷ b'o' ∷ b'r' ∷ b'e' ∷ b's' ∷ [])
    ∷ (b'1' ∷ [])
    ∷ (b'-' ∷ b'q' ∷ [])
    ∷ (b'0' ∷ [])
    ∷ (b'-' ∷ b't' ∷ b'h' ∷ b'r' ∷ b'e' ∷ b'a' ∷ b'd' ∷ b's' ∷ [])
    ∷ (b'2' ∷ [])
    ∷ (b'-' ∷ b'x' ∷ [])
    ∷ []

settings :
    parse_arguments atoi arguments default_settings
    ≡ record default_settings { num_cores = pos 1; quantum = pos 5; num_threads = pos 2 }
unfolding parse_arguments flag_of same_text set_flag
settings = refl

-- the scheduler has a timer of its own where it does not follow the clock
timers :
    (timers_to_create default_settings ≡ pos 1)
    × (timers_to_create (record default_settings { sched_sync = pos 1 }) ≡ pos 2)
unfolding timers_to_create ◌+ℤ◌
timers = (refl, refl)

created :
    create_system_machine memory (parse_arguments atoi arguments default_settings)
    ≡ some idle_machine
unfolding parse_arguments flag_of same_text set_flag create_machine create_cpus create_cores
    create_core
created = refl

arguments-Usable_example : Usable (parse_arguments atoi arguments default_settings)
arguments-Usable_example = arguments-Usable atoi arguments
