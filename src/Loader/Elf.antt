-- ===== src/Loader/Elf.antt =====
-- `load_program_from_elf` of sys/loader.c. A file is the list of the lines that `fgets` returns, or
-- `none` where it cannot be opened; what `rand` returns and which allocations succeed are arguments,
-- and so is what the array `full_program` holds before it is written. The calls that seed `rand`
-- and the messages are not modelled.
pub mod Passes
pub mod Listing
pub mod Tests
use the_loc_os.Base.{
  ℕ, zero, suc, ◌+◌, ◌-◌, ◌*◌, ◌/◌, ◌%◌, ◌^◌, Bool, true, false, not, ◌&&◌, ◌||◌, Option, none,
  some, List, [], ◌∷◌, ltb, leb, ◌==◌, if◌then◌else◌, update, ℤ, pos, negsuc, ltb_ℤ,
}
use the_loc_os.Memory.{word_size}
use the_loc_os.Loader.{Program, ProgramHeader, max_program_name, to_int}
use the_loc_os.Loader.Scan.{Line, head, drop, starts_with, scan_hex}

abbrev pub text_directive : Line
text_directive = b'.' ∷ b't' ∷ b'e' ∷ b'x' ∷ b't' ∷ []

abbrev pub data_directive : Line
data_directive = b'.' ∷ b'd' ∷ b'a' ∷ b't' ∷ b'a' ∷ []

-- `sscanf(line, ".text %x", &address)` on a line that starts with the directive: the address keeps
-- its value where no number follows.
abbrev pub scan_address : Line → ℕ → ℕ
scan_address line address = elim (scan_hex (drop 5 line)) [ none ↦ address | some a ↦ a ]

-- The variables of the first pass. `text_address` and `data_address` of the header start at 0 and
-- are assigned together with `text_addr` and `data_addr`, so that they are the same.
pub record FirstPass : Type 0 where
  pub text_addr : ℕ
  pub data_addr : ℕ
  pub found_text : Bool
  pub found_data : Bool
  pub total_words : ℕ

-- the body of the first loop
pub first_line : Line → FirstPass → FirstPass
first_line line s =
    if starts_with text_directive line
    then record s { text_addr = scan_address line s.text_addr; found_text = true }
    else if starts_with data_directive line
    then record s { data_addr = scan_address line s.data_addr; found_data = true }
    else if s.found_text && not (head line == b'.') && not (head line == b'\n')
    then elim (scan_hex line) [
      | none ↦ s
      | some dummy ↦ record s { total_words = (s.total_words + 1) % 2 ^ 32 }
    ]
    else s

pub first_pass : List Line → FirstPass → FirstPass
first_pass [] s = s
first_pass (line ∷ lines) s = first_pass lines (first_line line s)

abbrev pub first_start : FirstPass
first_start = record {
  text_addr = 0;
  data_addr = 0;
  found_text = false;
  found_data = false;
  total_words = 0;
}

abbrev pub has_data : FirstPass → Bool
has_data s = s.found_data && ltb s.text_addr s.data_addr

pub code_size_of : FirstPass → ℕ
code_size_of s = if has_data s then (s.data_addr - s.text_addr) / word_size else s.total_words

-- The difference of two `uint32_t`.
pub data_size_of : FirstPass → ℕ
data_size_of s = if has_data s then (s.total_words + (2 ^ 32 - code_size_of s)) % 2 ^ 32 else 0

-- `MIN_PRIORITY + (rand() % NUM_PRIORITY_LEVELS)`, stored in a word
pub random_priority : ℕ → ℕ
random_priority random = (2 ^ 32 - 20 + random % 40) % 2 ^ 32

-- The product is a word, and is assigned to an `int`.
pub estimated_ttl : ℕ → ℤ
estimated_ttl code_size =
    let estimate = to_int (code_size * 3 % 2 ^ 32) in
    let raised = if ltb_ℤ estimate (pos 10) then pos 10 else estimate in
    if ltb_ℤ (pos 100) raised then pos 100 else raised

-- an `int` as a word
abbrev pub of_int : ℤ → ℕ
of_int (pos n) = n % 2 ^ 32
of_int (negsuc n) = 2 ^ 32 - 1 - n

-- the variables of the second pass
pub record SecondPass : Type 0 where
  pub word_idx : ℕ
  pub in_sections : Bool
  pub full_program : ℕ → ℕ

-- "Skip directive lines"
pub second_line : ℕ → Line → SecondPass → SecondPass
second_line total_size line s =
    if head line == b'.'
    then record s { in_sections = true }
    else if s.in_sections && not (head line == b'\n')
    then elim (scan_hex line) [
      | none ↦ s
      | some word_value ↦
          if ltb s.word_idx total_size
          then record s {
            full_program = update s.full_program s.word_idx word_value;
            word_idx = s.word_idx + 1;
          }
          else s
    ]
    else s

pub second_pass : ℕ → List Line → SecondPass → SecondPass
second_pass total_size [] s = s
second_pass total_size (line ∷ lines) s =
    second_pass total_size lines (second_line total_size line s)

-- what follows the last '/' of the file's name, or all of it
pub after_slash : Line → Line → Line
after_slash [] name = name
after_slash (c ∷ s) name = after_slash s (if c == b'/' then s else name)

abbrev pub take : ℕ → Line → Line
take zero s = []
take (suc n) [] = []
take (suc n) (c ∷ s) = c ∷ take n s

-- which of the allocations succeed, and what is in the array
pub record ElfMemory : Type 0 where
  pub program_ok : Bool
  pub full_ok : Bool
  pub code_ok : Bool
  pub data_ok : Bool
  pub garbage : ℕ → ℕ

pub header_of : Line → FirstPass → ℕ → ProgramHeader
header_of filename s random = record {
  program_name = take (max_program_name - 1) (after_slash filename filename);
  code_size = code_size_of s;
  data_size = data_size_of s;
  text_address = s.text_addr;
  data_address = s.data_addr;
  entry_point = 0;
  priority = random_priority random;
  ttl = of_int (estimated_ttl (code_size_of s));
}

-- the second pass and the split into the two segments
pub read_segments : ElfMemory → List Line → ProgramHeader → Option Program
read_segments allocated lines header =
    let total_size = (header.code_size + header.data_size) % 2 ^ 32 in
    let full =
      (second_pass total_size lines (record {
        word_idx = 0;
        in_sections = false;
        full_program = allocated.garbage;
      })).full_program in
    if not allocated.code_ok || ltb 0 header.data_size && not allocated.data_ok
    then none
    else some (record {
      header = header;
      code_segment = full;
      data_segment = λ i. full (header.code_size + i);
    })

unfoldable pub load_program_from_elf : Option (List Line) → Line → ℕ → ElfMemory → Option Program
load_program_from_elf none filename random allocated = none
load_program_from_elf (some lines) filename random allocated =
    let s = first_pass lines first_start in
    if not allocated.program_ok
    then none
    else if not s.found_text
    then none
    else if not allocated.full_ok
    then none
    else read_segments allocated lines (header_of filename s random)
