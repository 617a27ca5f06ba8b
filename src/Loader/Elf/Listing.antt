-- ===== src/Loader/Elf/Listing.antt =====
-- What is read from a file that lists words behind its two directives.
use the_loc_os.Base.{
  ℕ, ◌+◌, ◌-◌, ◌/◌, ◌%◌, ◌^◌, ◌<◌, ◌≤◌, ◌≡◌, refl, ap, ◌∙◌, arith, true, false, some, List, ◌∷◌,
  ltb, length, Bool-cases, inl, inr,
}
use the_loc_os.Loader.{Program, ProgramHeader}
use the_loc_os.Loader.Scan.{Line}
use the_loc_os.Loader.Elf.{
  FirstPass, SecondPass, ElfMemory, text_directive, data_directive, first_pass, first_start,
  second_pass, load_program_from_elf, estimated_ttl, read_segments, header_of, code_size_of,
  data_size_of,
}
use the_loc_os.Loader.Page.{image}
use the_loc_os.Loader.Elf.Passes.{
  nth, Words, Directive, starts_with-head, second_line-dot, first_line-text, first_line-data,
  first_pass-Words, second_pass-Words,
}

-- A program that the file lists: the words from the address of the code on, split at the address of
-- the data.
pub record Lists (t d : ℕ) (ws : List ℕ) (program : Program) : Type 0 where
  pub text_address : program.header.text_address ≡ t
  pub data_address : program.header.data_address ≡ d
  pub code_size : program.header.code_size ≡ (d - t) / 4
  pub data_size : program.header.data_size ≡ length ws - (d - t) / 4
  pub ttl_low : 10 ≤ program.header.ttl
  pub ttl_high : program.header.ttl ≤ 100
  pub code : (i : ℕ) → i < length ws → program.code_segment i ≡ nth ws i
  pub data_words :
      (i : ℕ) → (d - t) / 4 + i < length ws → program.data_segment i ≡ nth ws ((d - t) / 4 + i)

module _ (text dat : Line) (lines : List Line) (t d : ℕ) (ws : List ℕ)
    (dt : Directive text_directive text t) (dd : Directive data_directive dat d) (filename : Line)
    (random : ℕ) (allocated : ElfMemory) (ls : Words lines ws) (after : t < d) (small : d < 2 ^ 32)
    (enough : (d - t) / 4 ≤ length ws) (short : length ws < 2 ^ 32) where
  abbrev counted : FirstPass
  counted = record {
    text_addr = t;
    data_addr = d;
    found_text = true;
    found_data = true;
    total_words = length ws;
  }

  first_pass-listing : first_pass (text ∷ dat ∷ lines) first_start ≡ counted
  unfolding first_pass
  first_pass-listing =
      rw (first_line-text text t first_start dt, first_line-data dat d _ dd)
        (first_pass-Words lines ws _ ls refl (omega arith)
          ∙ ap (λ n. record counted { total_words = n }) (omega arith))

  abbrev listed : ProgramHeader
  listed = header_of filename counted random

  full : ℕ → ℕ
  full =
      (second_pass (length ws) (text ∷ dat ∷ lines) (record {
        word_idx = 0;
        in_sections = false;
        full_program = allocated.garbage;
      })).full_program

  second_pass-directives :
      (s : SecondPass)
      → second_pass (length ws) (text ∷ dat ∷ lines) s
        ≡ second_pass (length ws) lines (record s { in_sections = true })
  unfolding second_pass
  second_pass-directives s =
      rw
        (
          second_line-dot (length ws) text s (starts_with-head _ text dt.starts),
          second_line-dot (length ws) dat _ (starts_with-head _ dat dd.starts),
        )
        refl

  full-nth : (i : ℕ) → i < length ws → full i ≡ nth ws i
  unfolding full
  full-nth i h =
      ap (λ (r : SecondPass). r.full_program i) (second_pass-directives _)
      ∙ second_pass-Words (length ws) lines ws _ i ls refl (omega arith)
      ∙ ground arith

  sizes : (listed.code_size ≡ (d - t) / 4) × (listed.data_size ≡ length ws - (d - t) / 4)
  unfolding header_of code_size_of data_size_of
  sizes = ground (arith, after, enough, short, small)

  ttl_bounds : (10 ≤ listed.ttl) × (listed.ttl ≤ 100)
  unfolding header_of estimated_ttl
  ttl_bounds = ground arith

  the_program : Program
  the_program = record {
    header = listed;
    code_segment = full;
    data_segment = λ i. full (listed.code_size + i);
  }

  the_program-Lists : Lists t d ws the_program
  unfolding the_program header_of
  the_program-Lists = record {
    text_address = refl;
    data_address = refl;
    code_size = sizes.0;
    data_size = sizes.1;
    ttl_low = ttl_bounds.0;
    ttl_high = ttl_bounds.1;
    code = full-nth;
    data_words = λ i h. ap (λ n. full (n + i)) sizes.0 ∙ full-nth ((d - t) / 4 + i) h;
  }

  read_segments-listing :
      allocated.code_ok ≡ true
      → allocated.data_ok ≡ true
      → read_segments allocated (text ∷ dat ∷ lines) listed ≡ some the_program
  unfolding read_segments the_program full
  read_segments-listing c e =
      let n : (listed.code_size + listed.data_size) % 2 ^ 32 ≡ length ws =
        omega (arith, sizes.0, sizes.1, enough, short) in
      rw (c, e, n)
        (elim (Bool-cases (ltb 0 listed.data_size)) [ inl u ↦ rw u refl | inr u ↦ rw u refl ])

  -- A file that starts with a text address and a larger data address and then lists, one on a
  -- line, at least as many words as lie between the two is read as the program of these words,
  -- split at the data address, with a time to live from 10 to 100, where all allocations succeed.
  pub load_program-Lists :
      allocated.program_ok ≡ true
      → allocated.full_ok ≡ true
      → allocated.code_ok ≡ true
      → allocated.data_ok ≡ true
      → (program : Program) × (load_program_from_elf
            (some (text ∷ dat ∷ lines))
            filename
            random
            allocated
          ≡ some program)
        × Lists t d ws program
  unfolding load_program_from_elf read_segments the_program full
  load_program-Lists a b c e =
      (the_program, rw (a, b, first_pass-listing) (read_segments-listing c e), the_program-Lists)

-- The image of a program read from such a list, with addresses divisible by four, is the listed
-- words one after the other from the text address on.
pub image-Lists :
    {t d : ℕ} {ws : List ℕ} {program : Program} (i : ℕ)
    → Lists t d ws program
    → t % 4 ≡ 0
    → d % 4 ≡ 0
    → t < d
    → (d - t) / 4 ≤ length ws
    → t / 4 + length ws < 2 ^ 32
    → i < length ws
    → image program (t / 4 + i) ≡ nth ws i
unfolding image
image-Lists {t} {d} {ws} {program} i l ht hd after enough small h =
    rw (l.text_address, l.data_address, l.code_size, l.data_size)
      (elim (Bool-cases (ltb i ((d - t) / 4))) [
        | inl e ↦
            let c : program.code_segment (t / 4 + i - t / 4) ≡ nth ws i =
              ap program.code_segment (omega arith) ∙ l.code i h in
            ground (arith, c)
        | inr e ↦
            let j : (d - t) / 4 + (t / 4 + i - d / 4) ≡ i = ground arith in
            let c : program.data_segment (t / 4 + i - d / 4) ≡ nth ws i =
              l.data_words (t / 4 + i - d / 4) (omega arith) ∙ ap (nth ws) j in
            ground (arith, c)
      ])
