-- ===== src/Prometheus/Tests.antt =====
-- The theorems on generated programs, on one of a single round.
use the_loc_os.Base.{
  ℕ, ◌≡◌, refl, arith, ◌+◌, ◌≤◌, ◌≢◌, if◌then◌else◌, ◌-◌, ◌^◌, true, none, some, ℤ, pos, Each,
  listing, map, List, [], ◌∷◌, length,
}
use the_loc_os.Process.{terminated}
use the_loc_os.Memory.Frames.Tests.{fresh-IsValid}
use the_loc_os.Machine.Tests.{thread_of}
use the_loc_os.Machine.Cycle.Abstract.{cycles}
use the_loc_os.Loader.{Program, total_pages, calculate_pages_needed}
use the_loc_os.Loader.Run.{load_and_start}
use the_loc_os.Loader.Tests.{state}
use the_loc_os.Loader.Scan.{Line, head, put_digits, print_hex}
use the_loc_os.Loader.Elf.{load_program_from_elf}
use the_loc_os.Loader.Elf.Listing.{Lists}
use the_loc_os.Prometheus.Decimal.{decimal_width, put_decimal, print_int}
use the_loc_os.Prometheus.Files.{
  Choice, first, help, lines, programs, Configuration, default_configuration, configure, set_option,
  file_name, file_text, finished, prometheus, prog_name_default,
}
use the_loc_os.Kernel.Room.{Arena, Room}
use the_loc_os.Process.{Heap}
use the_loc_os.Queue.{Ptr}
use the_loc_os.Prometheus.Names.{Distinct, Readable, prometheus-Readable}
use the_loc_os.Prometheus.{
  code_start, random_size, data_start_of, next_offset, access_line, code_lines, generate_program,
}
use the_loc_os.Prometheus.Words.{code_words, data_words}
use the_loc_os.Prometheus.Run.{
  all_ok, words, data_start, load_program-generate_program, generated_program-halts,
}

-- every number drawn is 5, so that the program has 4 + 5 % 4 = 5 lines of code and of data
abbrev rand : ℕ → ℕ
rand n = 5

abbrev file : List Line
file = (generate_program rand 4 0).0

-- 05000014, a load of the word at byte 20 into register 5
first_load : access_line 0 5 20 ≡ b'0' ∷ b'5' ∷ b'0' ∷ b'0' ∷ b'0' ∷ b'0' ∷ b'1' ∷ b'4' ∷ b'\n' ∷ []
unfolding access_line put_digits print_hex
first_load = refl

wraps : next_offset 5 16 ≡ 0
unfolding next_offset
wraps = refl

pub generated :
    (program : Program) × (load_program_from_elf (some file) [] 7 (all_ok (λ i. 0)) ≡ some program)
    × Lists code_start
        (data_start rand 4 0 (omega arith) (omega arith))
        (words rand 4 0 (omega arith) (omega arith))
        program
generated = load_program-generate_program rand 4 0 (omega arith) (omega arith) [] 7 (λ i. 0)

load_program-generate_program_example :
    (program : Program) × (load_program_from_elf (some file) [] 7 (all_ok (λ i. 0)) ≡ some program)
    × Lists code_start
        (data_start rand 4 0 (omega arith) (omega arith))
        (words rand 4 0 (omega arith) (omega arith))
        program
load_program-generate_program_example =
    load_program-generate_program rand 4 0 (omega arith) (omega arith) [] 7 (λ i. 0)

abbrev program : Program
program = generated.0

one_page : total_pages program.header ≡ 1
unfolding total_pages calculate_pages_needed code_words data_words random_size data_start_of
    code_start code_lines
one_page =
    let l = generated.2 in ground (arith, l.code_size, l.data_size, l.text_address, l.data_address)

generated_program-halts_example :
    let w = cycles 5 (load_and_start (λ h. 5) state program (thread_of 0)) in
    (w.heap.cell w.thread.pcb).state ≡ terminated
unfolding random_size
generated_program-halts_example =
    generated_program-halts rand 4 0 (omega arith) (omega arith) [] 7 (λ i. 0) (λ h. 5) state
      (thread_of 0) generated.1 (omega arith) fresh-IsValid (omega (arith, one_page))
      (omega (arith, one_page))

-- "-l4 -p3 -f8", where atoi reads the first digit
abbrev atoi : Line → ℤ
atoi s = pos (head s - b'0')

abbrev options : List (Choice × Line)
options = (lines, b'4' ∷ []) ∷ (programs, b'3' ∷ []) ∷ (first, b'8' ∷ []) ∷ []

abbrev configured : Configuration
configured = record {
  max_lines = 4;
  prog_name = prog_name_default;
  first_number = 8;
  how_many = 3;
  seed = pos 0;
}

options_set : configure atoi options default_configuration ≡ some configured
unfolding configure set_option
options_set = refl

-- prog010.elf
third_name :
    file_name prog_name_default 10
    ≡ some (b'p' ∷ b'r' ∷ b'o' ∷ b'g' ∷ b'0' ∷ b'1' ∷ b'0' ∷ b'.' ∷ b'e' ∷ b'l' ∷ b'f' ∷ [])
unfolding file_name file_text print_int decimal_width put_decimal
third_name = refl

-- prog-01.elf, for 2 ^ 32 - 1
last_name :
    file_name prog_name_default (2 ^ 32 - 1)
    ≡ some (b'p' ∷ b'r' ∷ b'o' ∷ b'g' ∷ b'-' ∷ b'0' ∷ b'1' ∷ b'.' ∷ b'e' ∷ b'l' ∷ b'f' ∷ [])
unfolding file_name file_text print_int decimal_width put_decimal
last_name = refl

-- a name of 13 characters has no room for three digits
long_name : file_name (listing 13 (λ i. b'p')) 10 ≡ none
unfolding file_name file_text print_int decimal_width put_decimal
long_name = refl

help_ends : configure atoi ((help, []) ∷ options) default_configuration ≡ none
unfolding configure set_option
help_ends = refl

prometheus-Readable_example :
    (files : List (Line × List Line)) × (prometheus (λ name. true) atoi (λ seed. rand) options
      ≡ some (files, finished))
    × (length (map (λ f. f.0) files) ≡ 3)
    × Distinct (map (λ f. f.0) files)
    × Each Readable files
prometheus-Readable_example =
    prometheus-Readable (λ name. true) atoi (λ seed. rand) options configured 3 options_set
      (λ name. refl) (omega arith) (omega arith) (omega arith) (omega arith) (omega arith)
      (omega arith)

-- the least address that is free of 5, 6 and 7, or NULL
abbrev three_cells : Heap → ℕ
three_cells h = if h.live 5 then (if h.live 6 then (if h.live 7 then 0 else 7) else 6) else 5

abbrev free_cell : Heap → ℕ → ℕ
free_cell h p = if h.live p then 0 else 1

abbrev cells_left : Heap → ℕ
cells_left h = free_cell h 5 + free_cell h 6 + free_cell h 7

cells_left-spends :
    (h h' : Heap) (p : Ptr)
    → ((q : Ptr) → q ≢ p → h'.live q ≡ h.live q)
    → cells_left h ≤ cells_left h' + 1
cells_left-spends h h' p same = ground (arith, same 5, same 6, same 7)

three_cells-Arena : Arena three_cells
three_cells-Arena = record {
  left = cells_left;
  spends = cells_left-spends;
  serves = λ h some_left. ground (arith, some_left);
}
