-- ===== src/Loader/Elf/Passes.antt =====
-- The two passes over the lines of a file that lists words behind its two directives.
use the_loc_os.Base.{
  ℕ, ◌+◌, ◌-◌, ◌%◌, ◌^◌, ◌<◌, ◌≤◌, ◌≡◌, ◌≢◌, refl, ap, ◌∙◌, arith, true, false, ◌&&◌, some, List,
  [], ◌∷◌, ltb, leb, ◌==◌, if◌then◌else◌, update, length,
}
use the_loc_os.Loader.Scan.{Line, head, drop, starts_with, scan_hex}
use the_loc_os.Loader.Elf.{
  FirstPass, SecondPass, text_directive, data_directive, first_line, first_pass, second_line,
  second_pass, scan_address,
}

-- the word `i` of a list
abbrev pub nth : List ℕ → ℕ → ℕ
nth [] i = 0
nth (w ∷ ws) i = if i == 0 then w else nth ws (i - 1)

-- a line that both passes read as the word `w`
pub record WordLine (line : Line) (w : ℕ) : Type 0 where
  pub no_directive : head line ≢ b'.'
  pub not_blank : head line ≢ b'\n'
  pub scanned : scan_hex line ≡ some w

-- the lines read as the words, one by one
abbrev pub Words : List Line → List ℕ → Type 0
Words [] [] = Unit
Words [] (w ∷ ws) = ⊥
Words (l ∷ ls) [] = ⊥
Words (l ∷ ls) (w ∷ ws) = WordLine l w × Words ls ws

-- a directive with its address
pub record Directive (directive : Line) (line : Line) (address : ℕ) : Type 0 where
  pub starts : starts_with directive line ≡ true
  pub scanned : scan_hex (drop 5 line) ≡ some address

starts_with-dot : (p : Line) (line : Line) → head line ≢ b'.' → starts_with (b'.' ∷ p) line ≡ false
unfolding starts_with
starts_with-dot p [] h = refl
starts_with-dot p (c ∷ line) h = ground arith

pub first_line-text :
    (line : Line) (t : ℕ) (s : FirstPass)
    → Directive text_directive line t
    → first_line line s ≡ record s { text_addr = t; found_text = true }
unfolding first_line
first_line-text line t s dt = rw (dt.starts, scan_address, dt.scanned) refl

-- no line starts with both directives
starts_with-other :
    (line : Line) → starts_with data_directive line ≡ true → starts_with text_directive line ≡ false
unfolding starts_with
starts_with-other [] h = refl
starts_with-other (c ∷ []) h = ground arith
starts_with-other (c ∷ c' ∷ s) h = ground arith

pub first_line-data :
    (line : Line) (d : ℕ) (s : FirstPass)
    → Directive data_directive line d
    → first_line line s ≡ record s { data_addr = d; found_data = true }
unfolding first_line
first_line-data line d s dd =
    rw (starts_with-other line dd.starts, dd.starts, scan_address, dd.scanned) refl

pub starts_with-head :
    (p : Line) (line : Line) → starts_with (b'.' ∷ p) line ≡ true → head line ≡ b'.'
unfolding starts_with
starts_with-head p [] h = cc
starts_with-head p (c ∷ line) h = ground arith

pub second_line-dot :
    (total : ℕ) (line : Line) (s : SecondPass)
    → head line ≡ b'.'
    → second_line total line s ≡ record s { in_sections = true }
unfolding second_line
second_line-dot total line s h = ground arith

first_line-WordLine :
    (line : Line) (w : ℕ) (s : FirstPass)
    → WordLine line w
    → s.found_text ≡ true
    → first_line line s ≡ record s { total_words = (s.total_words + 1) % 2 ^ 32 }
unfolding first_line
first_line-WordLine line w s l found =
    rw (starts_with-dot _ line l.no_directive, starts_with-dot _ line l.no_directive, l.scanned)
      (ground (arith, l.no_directive, l.not_blank))

second_line-WordLine :
    (total : ℕ) (line : Line) (w : ℕ) (s : SecondPass)
    → WordLine line w
    → s.in_sections ≡ true
    → s.word_idx < total
    → second_line total line s
      ≡ record s { full_program = update s.full_program s.word_idx w; word_idx = s.word_idx + 1 }
unfolding second_line
second_line-WordLine total line w s l found room =
    rw l.scanned (ground (arith, l.no_directive, l.not_blank))

pub first_pass-Words :
    (lines : List Line) (ws : List ℕ) (s : FirstPass)
    → Words lines ws
    → s.found_text ≡ true
    → s.total_words + length ws < 2 ^ 32
    → first_pass lines s ≡ record s { total_words = s.total_words + length ws }
unfolding first_pass
first_pass-Words [] [] s l found small = ap (λ n. record s { total_words = n }) (omega arith)
first_pass-Words [] (w ∷ ws) s l found small = elim l [ ]
first_pass-Words (x ∷ xs) [] s l found small = elim l [ ]
first_pass-Words (x ∷ xs) (w ∷ ws) s (l, ls) found small = rw (first_line-WordLine x w s l found) (
    first_pass-Words xs ws _ ls found (omega arith)
    ∙ ap (λ n. record s { total_words = n }) (omega arith))

nth-next :
    (ws : List ℕ) (w : ℕ) (full : ℕ → ℕ) (i j : ℕ)
    → (if leb (i + 1) j && ltb j (i + 1 + length ws)
        then nth ws (j - (i + 1))
        else update full i w j)
      ≡ (if leb i j && ltb j (i + length (w ∷ ws)) then nth (w ∷ ws) (j - i) else full j)
nth-next ws w full i j =
    let e : nth ws (j - (i + 1)) ≡ nth ws (j - i - 1) = ap (nth ws) (omega arith) in
    ground (arith, e)

pub second_pass-Words :
    (total : ℕ) (lines : List Line) (ws : List ℕ) (s : SecondPass) (j : ℕ)
    → Words lines ws
    → s.in_sections ≡ true
    → s.word_idx + length ws ≤ total
    → (second_pass total lines s).full_program j ≡ (
        if leb s.word_idx j && ltb j (s.word_idx + length ws)
        then nth ws (j - s.word_idx)
        else s.full_program j)
unfolding second_pass
second_pass-Words total [] [] s j l found room = ground arith
second_pass-Words total [] (w ∷ ws) s j l found room = elim l [ ]
second_pass-Words total (x ∷ xs) [] s j l found room = elim l [ ]
second_pass-Words total (x ∷ xs) (w ∷ ws) s j (l, ls) found room =
    ap (λ r. (second_pass total xs r).full_program j)
      (second_line-WordLine total x w s l found (omega arith))
    ∙ second_pass-Words total xs ws _ j ls found (omega arith)
    ∙ nth-next ws w s.full_program s.word_idx j
