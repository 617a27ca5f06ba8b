-- ===== src/Prometheus.antt =====
-- The program generator of programs/prometheus/prometheus.c with programs/prometheus/defines.h: what
-- it writes into a file. `rand n` is the n-th number that the C library's `rand` returns, and the
-- functions pass on how many have been drawn. A file is the list of the lines that are put into it.
-- Files has the command line and the loop over the files. The banner is not modelled.
pub mod Words
pub mod Code
pub mod Run
pub mod Decimal
pub mod Files
pub mod Names
pub mod Loaded
pub mod Tests
use the_loc_os.Base.{ℕ, zero, suc, ◌+◌, ◌-◌, ◌*◌, ◌/◌, ◌%◌, ◌^◌, List, [], ◌∷◌, ◌++◌}
use the_loc_os.Loader.Scan.{Line, put_digits, print_hex}
use the_loc_os.Loader.Scan.RoundTrip.{newline}
use the_loc_os.Loader.Elf.{text_directive, data_directive}

abbrev pub page_size_bits : ℕ
page_size_bits = 8

abbrev pub user_lowest_address : ℕ
user_lowest_address = 0

-- the number of values that a datum can have
abbrev pub value_range : ℕ
value_range = 400

-- `user_lowest & ~conf.offset_mask`
pub code_start : ℕ
code_start = user_lowest_address / 2 ^ page_size_bits * 2 ^ page_size_bits

-- `4 + (rand() % conf.max_lines)`
pub random_size : ℕ → ℕ → ℕ
random_size max_lines random = (4 + random % max_lines) % 2 ^ 32

-- `(code_start + ((code_size >> 2) << 2) + 1) << 2`
pub data_start_of : ℕ → ℕ
data_start_of code_size = (code_start + code_size / 4 * 4 + 1) * 4 % 2 ^ 32

-- `(((var_offset >> 2) + 1) % data_size) << 2`
pub next_offset : ℕ → ℕ → ℕ
next_offset data_size var_offset = (var_offset / 4 + 1) % data_size * 4 % 2 ^ 32

abbrev pub address : ℕ → ℕ → ℕ
address data_start var_offset = (data_start + var_offset) % 2 ^ 32

-- `"0%1X%06X\n"` and `"1%1X%06X\n"`: ld and st
pub access_line : ℕ → ℕ → ℕ → Line
access_line opcode reg at = put_digits 1 opcode (put_digits 1 reg (print_hex 6 at newline))

-- `"2%1X%1X%1X0000\n"`
pub add_line : ℕ → ℕ → ℕ → Line
add_line reg3 reg1 reg2 =
    put_digits 1 2
      (put_digits 1 reg3 (put_digits 1 reg1 (put_digits 1 reg2 (put_digits 4 0 newline))))

-- `"F0000000\n"`
pub exit_line : Line
exit_line = put_digits 8 (15 * 2 ^ 28) newline

-- the four lines of a round of the loop over the code, with the register and the offset drawn
pub block : ℕ → ℕ → ℕ → ℕ → List Line
block data_start data_size reg1 offset1 =
    let reg2 = (reg1 + 1) % 16 in
    let reg3 = (reg1 + 2) % 16 in
    let offset2 = next_offset data_size offset1 in
    let offset3 = next_offset data_size offset2 in
    access_line 0 reg1 (address data_start offset1)
    ∷ access_line 0 reg2 (address data_start offset2)
    ∷ add_line reg3 reg1 reg2
    ∷ access_line 1 reg3 (address data_start offset3)
    ∷ []

pub code_lines : (ℕ → ℕ) → ℕ → ℕ → ℕ → ℕ → List Line × ℕ
code_lines rand data_start data_size zero n = ([], n)
code_lines rand data_start data_size (suc rounds) n =
    let (lines, n') = code_lines rand data_start data_size rounds (n + 2) in
    (block data_start data_size (rand n % 16) (rand (n + 1) % data_size * 4 % 2 ^ 32) ++ lines, n')

-- `(rand() % VALUE) - (VALUE >> 1)`, stored in an `unsigned int`
pub random_datum : ℕ → ℕ
random_datum random = (2 ^ 32 - value_range / 2 + random % value_range) % 2 ^ 32

pub data_lines : (ℕ → ℕ) → ℕ → ℕ → List Line × ℕ
data_lines rand zero n = ([], n)
data_lines rand (suc size) n =
    let (lines, n') = data_lines rand size (n + 1) in
    (print_hex 8 (random_datum (rand n)) newline ∷ lines, n')

-- `".text %06X\n"` and `".data %06X\n"`
pub directive_line : Line → ℕ → Line
directive_line directive at = directive ++ (b' ' ∷ print_hex 6 at newline)

-- the file of one program
pub generate_program : (ℕ → ℕ) → ℕ → ℕ → List Line × ℕ
generate_program rand max_lines n =
    let code_size = random_size max_lines (rand n) in
    let data_start = data_start_of code_size in
    let data_size = random_size max_lines (rand (n + 1)) in
    let (code, n') = code_lines rand data_start data_size (code_size / 4) (n + 2) in
    let (words, n'') = data_lines rand data_size n' in
    (
      directive_line text_directive code_start
          ∷ directive_line data_directive data_start
          ∷ (code ++ (exit_line ∷ words)),
      n'',
    )
