-- ===== src/Kernel/Tests.antt =====
-- The theorem on the loading of a directory, on one with a program and a file that is none.
use the_loc_os.Base.{
  negsuc, Bool-cases, inl, inr, ℕ, ◌≡◌, refl, sym, ◌∙◌, arith, true, false, none, some, [], ◌∷◌,
  if◌then◌else◌,
}
use mathlib.Core.Option.{some-injective}
use mathlib.Core.Path.{subst}
use the_loc_os.Process.{Heap}
use the_loc_os.Loader.{Program}
use the_loc_os.Loader.Create.{Small}
use the_loc_os.Loader.Tests.{state}
use the_loc_os.Loader.Elf.{load_program_from_elf}
use the_loc_os.Loader.Elf.Listing.{Lists, load_program-Lists}
use the_loc_os.Loader.Elf.Tests.{
  allocated, text_line, data_line, exit_word, datum, text_line-Directive, data_line-Directive,
  two-Words,
}
use the_loc_os.Memory.Frames.Tests.{fresh-IsValid}
use the_loc_os.Kernel.{Boot, Entry, file_path, is_elf, same_text, load_directory, load_programs}
use the_loc_os.Queue.Ring
use the_loc_os.Kernel.Residents.{InOrder, IsMalloc, AllSmall, empty-InOrder}
use the_loc_os.Kernel.Directory.{FilledFrom, load_directory-FilledFrom}

elf_name : is_elf (b'p' ∷ b'.' ∷ b'e' ∷ b'l' ∷ b'f' ∷ []) ≡ true
unfolding is_elf same_text
elf_name = refl

-- a file whose name is the suffix alone is left out
bare_suffix : is_elf (b'.' ∷ b'e' ∷ b'l' ∷ b'f' ∷ []) ≡ false
unfolding is_elf
bare_suffix = refl

abbrev pub program_entry : Entry
program_entry = record {
  name = b'p' ∷ b'.' ∷ b'e' ∷ b'l' ∷ b'f' ∷ [];
  file = some (text_line ∷ data_line ∷ exit_word ∷ datum ∷ []);
  random = 7;
  allocated = allocated;
}

abbrev pub other_entry : Entry
other_entry = record { name = b'.' ∷ []; file = none; random = 0; allocated = allocated }

abbrev pub boot : Boot
boot = record {
  loading = state;
  ready_queue = record {
    queue = λ i. 0;
    front = 0;
    rear = negsuc 0;
    max_capacity = 100;
    current_size = 0;
  };
  programs_loaded = 0;
}

boot-IsValid : Ring.IsValid boot.ready_queue
boot-IsValid = record {
  front_in = omega arith;
  size_in = omega arith;
  rear_low = omega arith;
  rear_high = omega arith;
  rear_next = refl;
}

pub boot-InOrder : InOrder boot
boot-InOrder = empty-InOrder boot fresh-IsValid (omega arith) boot-IsValid refl

-- the least address that is free among 5 and 6, or NULL
abbrev pub two_cells : Heap → ℕ
two_cells h = if h.live 5 then (if h.live 6 then 0 else 6) else 5

pub two_cells-IsMalloc : IsMalloc two_cells
two_cells-IsMalloc h ok = elim (Bool-cases (h.live 5)) [
  | inl a ↦ elim (Bool-cases (h.live 6)) [
    | inl b ↦ absurd (ground (arith, a, b, ok))
    | inr b ↦ rw (a, b, b) refl
  ]
  | inr a ↦ rw (a, a) refl
]

Lists-Small : (program : Program) → Lists 0 4 (4026531840 ∷ 25 ∷ []) program → Small program.header
Lists-Small program l = record {
  code = omega (arith, l.text_address, l.code_size);
  data_ends = omega (arith, l.data_address, l.data_size);
}

pub entries-AllSmall : AllSmall (program_entry ∷ other_entry ∷ [])
unfolding load_program_from_elf
entries-AllSmall = (
  λ program e.
      let (read, e', l) =
        load_program-Lists text_line data_line (exit_word ∷ datum ∷ []) 0 4 (4026531840 ∷ 25 ∷ [])
          text_line-Directive data_line-Directive (file_path program_entry.name) 7 allocated
          two-Words (omega arith) (omega arith) (omega arith) (omega arith) refl refl refl refl in
      Lists-Small program
        (subst (Lists 0 4 (4026531840 ∷ 25 ∷ [])) (some-injective _ _ (sym e' ∙ e)) l),
  (λ program e. absurd (cc), tt),
)

not_opened : load_programs two_cells none boot ≡ boot
unfolding load_programs
not_opened = refl

load_directory-FilledFrom_example :
    FilledFrom
      (program_entry ∷ other_entry ∷ [])
      boot
      boot-InOrder.program
      (load_directory two_cells (program_entry ∷ other_entry ∷ []) boot)
load_directory-FilledFrom_example =
    load_directory-FilledFrom two_cells two_cells-IsMalloc (program_entry ∷ other_entry ∷ []) boot
      entries-AllSmall boot-InOrder
