-- ===== src/Prometheus/Names.antt =====
-- The files that programs/prometheus/prometheus.c writes: their names, and what sys/kernel.c and
-- sys/loader.c make of them.
use the_loc_os.Base.{
  ℕ, zero, suc, ◌+◌, ◌-◌, ◌^◌, ◌<◌, ◌≤◌, ◌≡◌, refl, sym, ap, ◌∙◌, arith, Bool, true, none, some,
  ◌⊎◌, ℤ, List, [], ◌∷◌, ◌++◌, Each, length, length-append, ltb, lt→ltb, map, listing, listing-ext,
  length-listing, not-mem-listing, Bool-cases, inl, inr,
}
use mathlib.Core.Path.{ap₂, subst}
use mathlib.Core.List.{Mem, append_cancel_left, append_assoc}
use the_loc_os.Loader.{Program}
use the_loc_os.Loader.Scan.{Line, drop}
use the_loc_os.Loader.Elf.{load_program_from_elf}
use the_loc_os.Kernel.{is_elf, same_text}
use the_loc_os.Prometheus.{generate_program}
use the_loc_os.Prometheus.Decimal.{
  print_int, print_int-append, print_int-injective, length-print_int,
}
use the_loc_os.Prometheus.Run.{all_ok, load_program-generate_program}
use the_loc_os.Prometheus.Files.{
  Choice, Configuration, default_configuration, configure, prometheus, finished, file_text,
  file_name, write_files, rounds_of, elf_extension,
}

pub file_text-injective :
    (prog_name : Line) (p p' : ℕ)
    → p < 2 ^ 31
    → p' < 2 ^ 31
    → file_text prog_name p ≡ file_text prog_name p'
    → p ≡ p'
unfolding file_text
file_text-injective prog_name p p' h h' e =
    print_int-injective p p' (b'e' ∷ b'l' ∷ b'f' ∷ []) h h' (append_cancel_left prog_name _ _ e)

drop-append : (s t : Line) → drop (length s) (s ++ t) ≡ t
drop-append [] t = refl
drop-append (c ∷ s) t = drop-append s t

is_elf-append : (s : Line) → 1 ≤ length s → is_elf (s ++ elf_extension) ≡ true
unfolding is_elf same_text
is_elf-append s h =
    let len = length-append s elf_extension in
    let long : ltb 4 (length (s ++ elf_extension)) ≡ true = lt→ltb _ _ (omega (arith, len)) in
    let ttt : length (s ++ elf_extension) - 4 ≡ length s = omega (arith, len) in
    rw (long, ttt, drop-append s elf_extension) refl

-- The kernel takes each name for that of a program.
pub file_text-elf : (prog_name : Line) (pnum : ℕ) → is_elf (file_text prog_name pnum) ≡ true
unfolding file_text
file_text-elf prog_name pnum =
    let (digits, some_digits, e) = print_int-append pnum elf_extension in
    rw e (
      sym (ap is_elf (append_assoc prog_name digits elf_extension))
      ∙ is_elf-append (prog_name ++ digits) (omega (arith, length-append prog_name digits)))

-- a file that the kernel takes for a program and that the loader reads
abbrev pub Readable : Line × List Line → Type 0
Readable (name, file) =
    (is_elf name ≡ true)
    × ((filename : Line) (random : ℕ) (garbage : ℕ → ℕ)
        → (program : Program) × (load_program_from_elf (some file) filename random (all_ok garbage)
            ≡ some program))

-- What holds of the files of all numbers holds of those that are written.
file_name-cases :
    (prog_name : Line) (pnum : ℕ)
    → (file_name prog_name pnum ≡ none)
      ⊎ (file_name prog_name pnum ≡ some (file_text prog_name pnum))
unfolding file_name
file_name-cases prog_name pnum = elim (Bool-cases (ltb (length (file_text prog_name pnum)) 20)) [
  | inl e ↦ inr (rw e refl)
  | inr e ↦ inl (rw e refl)
]

-- A name that leaves room for the digits of all numbers up to 10 ^ k fits the array.
record FitsArray (conf : Configuration) (pnum k : ℕ) : Type 0 where
  digits : 3 ≤ k
  number : pnum < 10 ^ k
  int : pnum < 2 ^ 31
  room : length conf.prog_name + k ≤ 15

file_name-fits :
    (conf : Configuration) (pnum k : ℕ)
    → FitsArray conf pnum k
    → file_name conf.prog_name pnum ≡ some (file_text conf.prog_name pnum)
unfolding file_name file_text
file_name-fits conf pnum k f =
    let short : ltb (length (conf.prog_name ++ print_int pnum elf_extension)) 20 ≡ true =
      lt→ltb _ _ (
        omega (
          arith,
          length-append conf.prog_name (print_int pnum elf_extension),
          length-print_int pnum k elf_extension f.digits f.number f.int,
          f.room,
        )) in
    rw short refl

pub write_files-Each :
    (P : Line × List Line → Type 0) (fopen : Line → Bool) (rand : ℕ → ℕ) (conf : Configuration)
    → ((pnum n : ℕ) → P (file_text conf.prog_name pnum, (generate_program rand conf.max_lines n).0))
    → (rounds pnum n : ℕ) → Each P (write_files fopen rand conf rounds pnum n).0
unfolding write_files
write_files-Each P fopen rand conf h zero pnum n = tt
write_files-Each P fopen rand conf h (suc rounds) pnum n =
    elim (file_name-cases conf.prog_name pnum) [
      | inl over ↦ rw over tt
      | inr named ↦ rw named (elim (Bool-cases (fopen (file_text conf.prog_name pnum))) [
        | inl e ↦ rw e (h pnum n, write_files-Each P fopen rand conf h rounds (pnum + 1) _)
        | inr e ↦ rw e tt
      ])
    ]

generated-Readable :
    (rand : ℕ → ℕ) (conf : Configuration) (pnum n : ℕ)
    → 0 < conf.max_lines
    → conf.max_lines ≤ 2 ^ 20
    → Readable (file_text conf.prog_name pnum, (generate_program rand conf.max_lines n).0)
generated-Readable rand conf pnum n h h' = (
  file_text-elf conf.prog_name pnum,
  λ filename random garbage.
      (let (program, read, lists) =
          load_program-generate_program rand conf.max_lines n h h' filename random garbage in
        (program, read)),
)

-- the names of the files, in order, and the end of the loop
write_files-names :
    (fopen : Line → Bool) (rand : ℕ → ℕ) (conf : Configuration) (k rounds pnum n : ℕ)
    → ((name : Line) → fopen name ≡ true)
    → 3 ≤ k
    → pnum + rounds ≤ 10 ^ k
    → pnum + rounds ≤ 2 ^ 31
    → length conf.prog_name + k ≤ 15
    → let (files, ending) = write_files fopen rand conf rounds pnum n in
      (ending ≡ finished)
      × (map (λ f. f.0) files ≡ listing rounds (λ i. file_text conf.prog_name (pnum + i)))
unfolding write_files
write_files-names fopen rand conf k zero pnum n opens h l l' r = (refl, refl)
write_files-names fopen rand conf k (suc rounds) pnum n opens h l l' r =
    let named =
      file_name-fits conf pnum k
        (record { digits = h; number = omega arith; int = omega arith; room = r }) in
    let (ends, names) =
      write_files-names fopen rand conf k rounds (pnum + 1)
        (generate_program rand conf.max_lines n).1 opens h (omega arith) (omega arith) r in
    rw (named, opens (file_text conf.prog_name pnum))
      (
        ends,
        ap₂ ◌∷◌ (ap (file_text conf.prog_name) (omega arith))
            (names ∙ listing-ext rounds _ _ (λ i h. ap (file_text conf.prog_name) (omega arith))),
      )

-- No element stands in the list again.
abbrev pub Distinct : List Line → Type 0
Distinct [] = Unit
Distinct (name ∷ names) = (¬ Mem name names) × Distinct names

listing-Distinct :
    (prog_name : Line) (count pnum : ℕ)
    → pnum + count ≤ 2 ^ 31
    → Distinct (listing count (λ i. file_text prog_name (pnum + i)))
listing-Distinct prog_name zero pnum h = tt
listing-Distinct prog_name (suc count) pnum h = (
  not-mem-listing count _ _ (λ i lt e.
      (let same = file_text-injective prog_name _ _ (omega arith) (omega arith) e in
        omega (arith, same))),
  subst Distinct (listing-ext count _ _ (λ i lt. ap (file_text prog_name) (omega arith)))
      (listing-Distinct prog_name count (pnum + 1) (omega arith)),
)

pub write_files-Distinct :
    (fopen : Line → Bool) (rand : ℕ → ℕ) (conf : Configuration) (k : ℕ)
    → ((name : Line) → fopen name ≡ true)
    → 3 ≤ k
    → conf.first_number + conf.how_many ≤ 10 ^ k
    → conf.first_number + conf.how_many ≤ 2 ^ 31
    → length conf.prog_name + k ≤ 15
    → let (files, ending) = write_files fopen rand conf (rounds_of conf) conf.first_number 0 in
      (ending ≡ finished)
      × (length (map (λ f. f.0) files) ≡ conf.how_many)
      × Distinct (map (λ f. f.0) files)
write_files-Distinct fopen rand conf k opens h l l' r =
    let all : rounds_of conf ≡ conf.how_many = omega arith in
    let (ends, names) =
      write_files-names fopen rand conf k (rounds_of conf) conf.first_number 0 opens h (omega arith)
        (omega arith) r in
    (
      ends,
      rw (names, all) (length-listing conf.how_many _),
      rw (names, all) (listing-Distinct conf.prog_name conf.how_many conf.first_number l'),
    )

-- Options that give at least one and at most 2 ^ 20 lines, numbers up to 10 ^ k and 2 ^ 31, k at
-- least three, and a name that leaves room for k digits in the array of 20 bytes make the
-- generator finish with as many files as they ask for, where all can be opened; no two have the
-- same name, the kernel takes each for a program by its name, and the loader reads each if its
-- allocations succeed.
pub prometheus-Readable :
    (fopen : Line → Bool) (atoi : Line → ℤ) (rand : ℤ → ℕ → ℕ) (options : List (Choice × Line))
    (conf : Configuration) (k : ℕ)
    → configure atoi options default_configuration ≡ some conf
    → ((name : Line) → fopen name ≡ true)
    → 0 < conf.max_lines
    → conf.max_lines ≤ 2 ^ 20
    → 3 ≤ k
    → conf.first_number + conf.how_many ≤ 10 ^ k
    → conf.first_number + conf.how_many ≤ 2 ^ 31
    → length conf.prog_name + k ≤ 15
    → (files : List (Line × List Line)) × (prometheus fopen atoi rand options
        ≡ some (files, finished))
      × (length (map (λ f. f.0) files) ≡ conf.how_many)
      × Distinct (map (λ f. f.0) files)
      × Each Readable files
unfolding prometheus
prometheus-Readable fopen atoi rand options conf k e opens h h' d l l' r =
    let (ends, count, distinct) =
      write_files-Distinct fopen (rand conf.seed) conf k opens d l l' r in
    let out = write_files fopen (rand conf.seed) conf (rounds_of conf) conf.first_number 0 in
    (
      out.0,
      rw e (ap (λ x. some (out.0, x)) ends),
      count,
      distinct,
      write_files-Each Readable fopen (rand conf.seed) conf
          (λ pnum n. generated-Readable (rand conf.seed) conf pnum n h h') (rounds_of conf)
          conf.first_number 0,
    )
