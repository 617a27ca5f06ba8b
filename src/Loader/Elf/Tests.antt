-- ===== src/Loader/Elf/Tests.antt =====
-- The theorems on reading a file, on one with a word of code and a word of data.
use the_loc_os.Base.{◌≡◌, refl, arith, true, some, [], ◌∷◌, pos}
use the_loc_os.Loader.{Program}
use the_loc_os.Loader.Scan.{
  Line, scan_hex, scan_unsigned, scan_digits, skip_spaces, skip_prefix, starts_with,
}
use the_loc_os.Loader.Scan.RoundTrip.{newline}
use the_loc_os.Loader.Elf.{
  ElfMemory, text_directive, data_directive, load_program_from_elf, after_slash, random_priority,
  estimated_ttl, of_int,
}
use the_loc_os.Loader.Elf.Passes.{Directive, Words}
use the_loc_os.Loader.Elf.Listing.{Lists, load_program-Lists}

-- " -0x10" is 2 ^ 32 - 16.
scan_negative : scan_hex (b' ' ∷ b'-' ∷ b'0' ∷ b'x' ∷ b'1' ∷ b'0' ∷ newline) ≡ some 4294967280
unfolding scan_hex scan_unsigned scan_digits skip_spaces skip_prefix
scan_negative = refl

path : after_slash (b'p' ∷ b'/' ∷ b'a' ∷ []) [] ≡ b'a' ∷ []
unfolding after_slash
path = refl

lowest_priority : of_int (pos 19) ≡ random_priority 39
unfolding random_priority
lowest_priority = refl

ttl_of_twenty : estimated_ttl 20 ≡ pos 60
unfolding estimated_ttl
ttl_of_twenty = refl

abbrev pub text_line : Line
text_line = b'.' ∷ b't' ∷ b'e' ∷ b'x' ∷ b't' ∷ b' ' ∷ b'0' ∷ newline

abbrev pub data_line : Line
data_line = b'.' ∷ b'd' ∷ b'a' ∷ b't' ∷ b'a' ∷ b' ' ∷ b'4' ∷ newline

abbrev pub exit_word : Line
exit_word = b'F' ∷ b'0' ∷ b'0' ∷ b'0' ∷ b'0' ∷ b'0' ∷ b'0' ∷ b'0' ∷ newline

abbrev pub datum : Line
datum = b'1' ∷ b'9' ∷ newline

abbrev pub allocated : ElfMemory
allocated = record {
  program_ok = true;
  full_ok = true;
  code_ok = true;
  data_ok = true;
  garbage = λ i. 99;
}

pub text_line-Directive : Directive text_directive text_line 0
unfolding starts_with scan_hex scan_unsigned scan_digits skip_spaces skip_prefix
text_line-Directive = record { starts = refl; scanned = refl }

pub data_line-Directive : Directive data_directive data_line 4
unfolding starts_with scan_hex scan_unsigned scan_digits skip_spaces skip_prefix
data_line-Directive = record { starts = refl; scanned = refl }

pub two-Words : Words (exit_word ∷ datum ∷ []) (4026531840 ∷ 25 ∷ [])
unfolding scan_hex scan_unsigned scan_digits skip_spaces skip_prefix
two-Words = (
  record { no_directive = omega arith; not_blank = omega arith; scanned = refl },
  (record { no_directive = omega arith; not_blank = omega arith; scanned = refl }, tt),
)

pub file_read :
    (program : Program) × (load_program_from_elf
        (some (text_line ∷ data_line ∷ exit_word ∷ datum ∷ []))
        []
        7
        allocated
      ≡ some program)
    × Lists 0 4 (4026531840 ∷ 25 ∷ []) program
file_read =
    load_program-Lists text_line data_line (exit_word ∷ datum ∷ []) 0 4 (4026531840 ∷ 25 ∷ [])
      text_line-Directive data_line-Directive [] 7 allocated two-Words (omega arith) (omega arith)
      (omega arith) (omega arith) refl refl refl refl
