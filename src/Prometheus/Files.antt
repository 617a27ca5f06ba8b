-- ===== src/Prometheus/Files.antt =====
-- The command line of programs/prometheus/prometheus.c and the loop of its main over the files. The
-- options are those that `getopt_long` finds, each with its argument; `atoi`, what `rand` returns for
-- a seed, and whether a file can be opened are parameters.
use the_loc_os.Base.{
  ℕ, zero, suc, ◌+◌, ◌-◌, ◌%◌, ◌^◌, Bool, Option, none, some, List, [], ◌∷◌, ◌++◌, length, ltb, ℤ,
  pos, negsuc, ◌>>=◌, if◌then◌else◌,
}
use the_loc_os.Loader.Scan.{Line}
use the_loc_os.Prometheus.{generate_program}
use the_loc_os.Prometheus.Decimal.{print_int}

abbrev pub how_many_default : ℕ
how_many_default = 50

abbrev pub max_lines_default : ℕ
max_lines_default = 20

abbrev pub first_number_default : ℕ
first_number_default = 0

abbrev pub prog_name_default : Line
prog_name_default = b'p' ∷ b'r' ∷ b'o' ∷ b'g' ∷ []

-- the fields that the options set, and the seed
pub record Configuration : Type 0 where
  pub max_lines : ℕ
  pub prog_name : Line
  pub first_number : ℕ
  pub how_many : ℕ
  pub seed : ℤ

abbrev pub default_configuration : Configuration
default_configuration = record {
  max_lines = max_lines_default;
  prog_name = prog_name_default;
  first_number = first_number_default;
  how_many = how_many_default;
  seed = pos 0;
}

-- what `getopt_long` returns; `other` is an option that lacks its argument
pub data Choice : Type 0 where
  first : Choice
  help : Choice
  lines : Choice
  name : Choice
  programs : Choice
  seed : Choice
  other : Choice

-- an int that is stored in an unsigned int
abbrev pub to_unsigned : ℤ → ℕ
to_unsigned (pos n) = n % 2 ^ 32
to_unsigned (negsuc n) = 2 ^ 32 - 1 - n % 2 ^ 32

-- the cases of the switch; the help and an unknown option end the program
unfoldable pub set_option : (Line → ℤ) → Choice → Line → Configuration → Option Configuration
set_option atoi first optarg conf = some (record conf { first_number = to_unsigned (atoi optarg) })
set_option atoi help optarg conf = none
set_option atoi lines optarg conf = some (record conf { max_lines = to_unsigned (atoi optarg) })
set_option atoi name optarg conf = some (record conf { prog_name = optarg })
set_option atoi programs optarg conf = some (record conf { how_many = to_unsigned (atoi optarg) })
set_option atoi seed optarg conf = some (record conf { seed = atoi optarg })
set_option atoi other optarg conf = none

unfoldable pub configure : (Line → ℤ) → List (Choice × Line) → Configuration → Option Configuration
configure atoi [] conf = some conf
configure atoi ((choice, optarg) ∷ options) conf =
    set_option atoi choice optarg conf >>= configure atoi options

abbrev pub elf_extension : Line
elf_extension = b'.' ∷ b'e' ∷ b'l' ∷ b'f' ∷ []

abbrev pub max_line_length : ℕ
max_line_length = 20

-- `"%s%03d.elf"`
unfoldable pub file_text : Line → ℕ → Line
file_text prog_name pnum = prog_name ++ print_int pnum elf_extension

-- The array that sprintf writes it into has 20 bytes, the last for the zero at the end; `none` where
-- sprintf writes behind the array.
unfoldable pub file_name : Line → ℕ → Option Line
file_name prog_name pnum =
    let text = file_text prog_name pnum in
    if ltb (length text) max_line_length then some text else none

-- how the loop ends; after `overflowed` C does not say what the program does
pub data Ending : Type 0 where
  finished : Ending
  not_opened : Ending
  overflowed : Ending

-- one file before the rest; the program ends where it cannot be opened
abbrev pub put_file :
    (fopen : Line → Bool)
    → List Line
    → List (Line × List Line) × Ending
    → Option Line
    → List (Line × List Line) × Ending
put_file fopen file rest none = ([], overflowed)
put_file fopen file rest (some text) =
    if fopen text then ((text, file) ∷ rest.0, rest.1) else ([], not_opened)

-- the loop over the numbers, with what is written into each file
unfoldable pub write_files :
    (fopen : Line → Bool) (rand : ℕ → ℕ)
    → Configuration
    → (rounds pnum n : ℕ) → List (Line × List Line) × Ending
write_files fopen rand conf zero pnum n = ([], finished)
write_files fopen rand conf (suc rounds) pnum n =
    let (file, n') = generate_program rand conf.max_lines n in
    let rest = write_files fopen rand conf rounds (pnum + 1) n' in
    put_file fopen file rest (file_name conf.prog_name pnum)

-- how often the loop goes on, whose bound is an unsigned int
abbrev pub rounds_of : Configuration → ℕ
rounds_of conf = (conf.first_number + conf.how_many) % 2 ^ 32 - conf.first_number

-- main: the files that it writes, in order, and how it ends
unfoldable pub prometheus :
    (fopen : Line → Bool) (atoi : Line → ℤ) (rand : ℤ → ℕ → ℕ)
    → List (Choice × Line)
    → Option (List (Line × List Line) × Ending)
prometheus fopen atoi rand options = do
  conf ← configure atoi options default_configuration
  some (write_files fopen (rand conf.seed) conf (rounds_of conf) conf.first_number 0)
