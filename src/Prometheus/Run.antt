-- ===== src/Prometheus/Run.antt =====
-- The generated programs, read by the loader and run by the machine.
use the_loc_os.Base.{
  ℕ, suc, ◌+◌, ◌-◌, ◌*◌, ◌/◌, ◌%◌, ◌^◌, ◌<◌, ◌≤◌, ◌≡◌, ◌≢◌, refl, sym, ap, ◌∙◌, arith, true, some,
  List, ◌∷◌, ◌++◌, length, length-append,
}
use mathlib.Core.Option.{some-injective}
use mathlib.Core.Path.{subst}
use the_loc_os.Queue.{Ptr}
use the_loc_os.Process.{Heap, terminated}
use the_loc_os.Memory.Frames.{IsValid}
use the_loc_os.Machine.{HardwareThread}
use the_loc_os.Machine.Cycle.Abstract.{cycles}
use the_loc_os.Machine.Cycle.Straight.{IsStraight, straight-halts}
use the_loc_os.Loader.{Program, Loading, span_words, total_pages}
use the_loc_os.Loader.Page.{image}
use the_loc_os.Loader.Create.{Small, total_pages-bounds}
use the_loc_os.Loader.Run.{boot_loaded, load_and_start, program-runs}
use the_loc_os.Loader.Scan.{Line, starts_with, print_hex}
use the_loc_os.Loader.Scan.RoundTrip.{newline, scan_hex-space, scan_hex-print_hex}
use the_loc_os.Loader.Elf.{text_directive, data_directive, ElfMemory, load_program_from_elf}
use the_loc_os.Loader.Elf.Passes.{Directive, nth}
use the_loc_os.Loader.Elf.Listing.{Lists, load_program-Lists, image-Lists}
use the_loc_os.Prometheus.{
  code_start, random_size, data_start_of, code_lines, directive_line, generate_program,
}
use the_loc_os.Prometheus.Words.{
  Fits, code_words, data_words, code_lines-Words, data_lines-Words, exit_line-WordLine,
  Words-append,
}
use the_loc_os.Prometheus.Code.{
  nth-append, code_words-IsPlain, length-code_words, length-data_words,
}

-- the allocations of the loader all succeed
abbrev pub all_ok : (ℕ → ℕ) → ElfMemory
all_ok garbage = record {
  program_ok = true;
  full_ok = true;
  code_ok = true;
  data_ok = true;
  garbage = garbage;
}

text-Directive :
    (at : ℕ) → at < 2 ^ 32 → Directive text_directive (directive_line text_directive at) at
unfolding directive_line starts_with
text-Directive at h = record {
  starts = refl;
  scanned = scan_hex-space (print_hex 6 at newline) ∙ scan_hex-print_hex 4 at h;
}

data-Directive :
    (at : ℕ) → at < 2 ^ 32 → Directive data_directive (directive_line data_directive at) at
unfolding directive_line starts_with
data-Directive at h = record {
  starts = refl;
  scanned = scan_hex-space (print_hex 6 at newline) ∙ scan_hex-print_hex 4 at h;
}

module _ (rand : ℕ → ℕ) (max_lines n : ℕ) (some_lines : 0 < max_lines)
    (few_lines : max_lines ≤ 2 ^ 20) where
  -- how many rounds the loop over the code makes
  abbrev pub rounds : ℕ
  rounds = random_size max_lines (rand n) / 4

  abbrev pub data_start : ℕ
  data_start = data_start_of (random_size max_lines (rand n))

  abbrev pub data_size : ℕ
  data_size = random_size max_lines (rand (n + 1))

  abbrev pub data_drawn : ℕ
  data_drawn = (code_lines rand data_start data_size rounds (n + 2)).1

  abbrev pub words : List ℕ
  words =
      code_words rand data_start data_size rounds (n + 2)
      ++ ((15 * 2 ^ 28) ∷ data_words rand data_size data_drawn)

  sizes :
      (code_start ≡ 0)
      × (data_start ≡ 4 * (4 * rounds + 1))
      × (rounds ≤ 2 ^ 18)
      × (0 < data_size)
      × (data_size ≤ 2 ^ 20 + 3)
  unfolding code_start data_start_of random_size
  sizes =
      let r = rand n % max_lines in
      let r' = rand (n + 1) % max_lines in
      let h : r < max_lines = omega arith in
      let h' : r' < max_lines = omega arith in
      (omega arith, omega arith, omega arith, omega arith, omega arith)

  sizes-few : 4 * rounds + data_size ≤ 2 * max_lines + 6
  unfolding random_size
  sizes-few =
      let r = rand n % max_lines in
      let r' = rand (n + 1) % max_lines in
      let h : r < max_lines = omega arith in let h' : r' < max_lines = omega arith in omega arith

  fits : Fits data_start data_size
  fits = let (z, d, r, s, l) = sizes in record { some_data = s; low = omega arith }

  length-words : length words ≡ 4 * rounds + (1 + data_size)
  length-words =
      length-append (code_words rand data_start data_size rounds (n + 2)) _
      ∙ omega (
        arith,
        length-code_words rand data_start data_size rounds (n + 2),
        length-data_words rand data_size data_drawn,
      )

  code_ends : (data_start - code_start) / 4 ≡ 4 * rounds + 1
  code_ends = let (z, d, r, s, l) = sizes in omega arith

  -- Where all allocations succeed and at least one and at most 2 ^ 20 lines are asked for, the
  -- loader reads a generated file back as the program that it lists: the generated instructions
  -- with their EXIT as code, the generated data behind it, and a time to live from 10 to 100.
  pub load_program-generate_program :
      (filename : Line) (random : ℕ) (garbage : ℕ → ℕ)
      → (program : Program) × (load_program_from_elf
            (some (generate_program rand max_lines n).0)
            filename
            random
            (all_ok garbage)
          ≡ some program)
        × Lists code_start data_start words program
  unfolding generate_program
  load_program-generate_program filename random garbage =
      let (z, d, r, s, l) = sizes in
      load_program-Lists _ _ _ code_start data_start words (text-Directive code_start (omega arith))
        (data-Directive data_start (omega arith)) filename random (all_ok garbage)
        (Words-append (code_lines rand data_start data_size rounds (n + 2)).0 _
          (code_words rand data_start data_size rounds (n + 2)) _
          (code_lines-Words rand data_start data_size rounds (n + 2) fits)
          (exit_line-WordLine, data_lines-Words rand data_size data_drawn))
        (omega arith) (omega arith) (omega (arith, code_ends, length-words))
        (omega (arith, length-words)) refl refl refl refl

  module _ {program : Program} (l : Lists code_start data_start words program) where
    pub generated-Small : Small program.header
    generated-Small =
        let (z, d, r, s, q) = sizes in
        record {
          code = omega (arith, l.text_address, l.code_size);
          data_ends = omega (arith, l.data_address, l.data_size, length-words, code_ends);
        }

    generated-image : (i : ℕ) → i < length words → image program i ≡ nth words i
    generated-image i h =
        let (z, d, r, s, q) = sizes in
        let e : code_start / 4 + i ≡ i = omega arith in
        sym (ap (image program) e)
        ∙ image-Lists i l (omega arith) (omega arith) (omega arith)
            (omega (arith, code_ends, length-words)) (omega (arith, length-words)) h

    -- the space holds the data
    generated-pages : data_start + 4 * data_size ≤ total_pages program.header * 4096
    generated-pages =
        let (z, d, r, s, q) = sizes in
        let (p, p', p'') = total_pages-bounds program.header generated-Small in
        omega (arith, l.data_address, l.data_size, length-words, code_ends)

    -- the pages that hold twice as many words as lines are asked for, and a few
    pub generated-few : total_pages program.header * 1024 < 2 * max_lines + 1031
    generated-few =
        let (z, d, r, s, q) = sizes in
        let (p, p', p'') = total_pages-bounds program.header generated-Small in
        let ends : span_words program.header ≤ 4 * rounds + 1 + data_size = ground (
          arith, l.text_address, l.data_address, l.code_size, l.data_size, length-words, code_ends,
          z, d,
        ) in
        omega (arith, sizes-few)

    code_word :
        (k : ℕ)
        → k < 4 * rounds
        → image program k ≡ nth (code_words rand data_start data_size rounds (n + 2)) k
    code_word k h =
        let len = length-code_words rand data_start data_size rounds (n + 2) in
        generated-image k (omega (arith, length-words))
        ∙ nth-append (code_words rand data_start data_size rounds (n + 2)) _ k
        ∙ ground (arith, len)

    exit_word : image program (4 * rounds) ≡ 15 * 2 ^ 28
    exit_word =
        let len = length-code_words rand data_start data_size rounds (n + 2) in
        generated-image (4 * rounds) (omega (arith, length-words))
        ∙ nth-append (code_words rand data_start data_size rounds (n + 2)) _ (4 * rounds)
        ∙ rw len (ground arith)

    pub generated-IsStraight : IsStraight (4 * rounds) (total_pages program.header) (image program)
    generated-IsStraight =
        let (z, d, r, s, q) = sizes in
        record {
          plain = λ k h. rw (code_word k h) (
              code_words-IsPlain (4 * rounds) (total_pages program.header) data_start data_size fits
                (omega arith) generated-pages rand rounds (n + 2) k h);
          ends = rw exit_word refl;
          in_space = omega (arith, generated-pages);
          short = omega arith;
        }

    module _ (malloc : Heap → Ptr) (s : Loading) (ok : malloc s.heap ≢ 0) (v : IsValid s.pm)
        (hk : s.pm.next_kernel_frame + total_pages program.header ≤ 262144)
        (ht : s.pm.total_allocated_frames + total_pages program.header ≤ 4096)
        (hw_thread : HardwareThread) where
      -- Loaded and started, it comes to its EXIT and is terminated.
      listed-halts :
          let w = cycles (suc (4 * rounds)) (load_and_start malloc s program hw_thread) in
          (w.heap.cell w.thread.pcb).state ≡ terminated
      listed-halts =
          let (stays, halts) =
            straight-halts (boot_loaded malloc s program hw_thread) (4 * rounds) 0
              generated-IsStraight (omega arith) refl (omega arith) in
          let (regs, sim) =
            program-runs malloc s program ok generated-Small v hk ht hw_thread (suc (4 * rounds))
              stays in
          ground (arith, sim.halted, halts)

  -- A program that the generator wrote, with at least one and at most 2 ^ 20 lines asked for, once
  -- the loader has read its file and made a process of it and a hardware thread has taken the
  -- process, is terminated after as many instruction cycles as its code has instructions, the EXIT
  -- included. The PCB must be allocated, the bitmap consistent, and frames and kernel space enough
  -- for the pages.
  pub generated_program-halts :
      {program : Program} (filename : Line) (random : ℕ) (garbage : ℕ → ℕ) (malloc : Heap → Ptr)
      (s : Loading) (hw_thread : HardwareThread)
      → load_program_from_elf
          (some (generate_program rand max_lines n).0)
          filename
          random
          (all_ok garbage)
        ≡ some program
      → malloc s.heap ≢ 0
      → IsValid s.pm
      → s.pm.next_kernel_frame + total_pages program.header ≤ 262144
      → s.pm.total_allocated_frames + total_pages program.header ≤ 4096
      → let w = cycles (suc (4 * rounds)) (load_and_start malloc s program hw_thread) in
        (w.heap.cell w.thread.pcb).state ≡ terminated
  generated_program-halts {program} filename random garbage malloc s hw_thread e ok v hk ht =
      let (read, e', l) = load_program-generate_program filename random garbage in
      let same : read ≡ program = some-injective _ _ (sym e' ∙ e) in
      listed-halts (subst (λ p. Lists code_start data_start words p) same l) malloc s ok v hk ht
        hw_thread
