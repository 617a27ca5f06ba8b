-- ===== src/Prometheus/Words.antt =====
-- The words that the generated lines are read as.
use the_loc_os.Base.{
  ℕ, zero, suc, ◌+◌, ◌*◌, ◌/◌, ◌%◌, ◌^◌, ◌<◌, ◌≤◌, ◌≡◌, ◌≢◌, sym, ap, ◌∙◌, arith, false, some, List,
  [], ◌∷◌, ◌++◌,
}
use the_loc_os.Loader.Scan.{Line, head, scan_hex, scan_digits, put_digits, print_hex, to_word}
use the_loc_os.Loader.Scan.RoundTrip.{
  newline, scan_digits-put_digits, scan_digits-newline, scan_hex-digit, scan_hex-print_hex,
}
use the_loc_os.Loader.Elf.Passes.{WordLine, Words}
use the_loc_os.Prometheus.{
  next_offset, address, access_line, add_line, exit_line, block, code_lines, random_datum,
  data_lines,
}

-- A line of digits.
digits-WordLine :
    (d w : ℕ) (s : Line)
    → d < 16
    → head s ≢ b'x'
    → head s ≢ b'X'
    → scan_digits (put_digits 1 d s) 0 ≡ w
    → w < 2 ^ 32
    → WordLine (put_digits 1 d s) w
unfolding put_digits
digits-WordLine d w s h hx hX e small = record {
  no_directive = ground arith;
  not_blank = ground arith;
  scanned =
      scan_hex-digit (d / 1 % 16) s (omega arith) hx hX
      ∙ ap (λ n. some (to_word false n)) e
      ∙ ground (arith, small);
}

-- two lists of digits, one behind the other, at the end of a line
head-digits :
    (w v : ℕ) (s : Line)
    → (head (put_digits (suc w) v s) ≢ b'x') × (head (put_digits (suc w) v s) ≢ b'X')
unfolding put_digits
head-digits w v s = ground arith

print_hex-six : (at : ℕ) → at < 2 ^ 24 → print_hex 6 at newline ≡ put_digits 6 at newline
unfolding print_hex
print_hex-six at h = ground arith

access_line-WordLine :
    (op reg at : ℕ)
    → op < 16
    → reg < 16
    → at < 2 ^ 24
    → WordLine (access_line op reg at) (op * 2 ^ 28 + reg * 2 ^ 24 + at)
unfolding access_line
access_line-WordLine op reg at ho hr ha = rw (print_hex-six at ha) (
    digits-WordLine op _ (put_digits 1 reg (put_digits 6 at newline)) ho (head-digits 0 reg _).0
      (head-digits 0 reg _).1
      (scan_digits-put_digits 1 op 0 (put_digits 1 reg (put_digits 6 at newline))
        ∙ scan_digits-put_digits 1 reg _ (put_digits 6 at newline)
        ∙ scan_digits-put_digits 6 at _ newline
        ∙ scan_digits-newline _
        ∙ omega arith)
      (omega arith))

add_line-WordLine :
    (r3 r1 r2 : ℕ)
    → r3 < 16
    → r1 < 16
    → r2 < 16
    → WordLine (add_line r3 r1 r2) (2 * 2 ^ 28 + r3 * 2 ^ 24 + r1 * 2 ^ 20 + r2 * 2 ^ 16)
unfolding add_line
add_line-WordLine r3 r1 r2 h3 h1 h2 =
    digits-WordLine 2 _
      (put_digits 1 r3 (put_digits 1 r1 (put_digits 1 r2 (put_digits 4 0 newline)))) (omega arith)
      (head-digits 0 r3 _).0 (head-digits 0 r3 _).1
      (scan_digits-put_digits 1 2 0 _
        ∙ scan_digits-put_digits 1 r3 _ _
        ∙ scan_digits-put_digits 1 r1 _ _
        ∙ scan_digits-put_digits 1 r2 _ _
        ∙ scan_digits-put_digits 4 0 _ newline
        ∙ scan_digits-newline _
        ∙ omega arith)
      (omega arith)

print_hex-eight : (v : ℕ) → v < 2 ^ 32 → print_hex 8 v newline ≡ put_digits 8 v newline
unfolding print_hex
print_hex-eight v h = ground arith

eight-head :
    (v : ℕ) → (head (put_digits 8 v newline) ≢ b'.') × (head (put_digits 8 v newline) ≢ b'\n')
unfolding put_digits
eight-head v = ground arith

eight-WordLine : (v : ℕ) → v < 2 ^ 32 → WordLine (put_digits 8 v newline) v
eight-WordLine v h = record {
  no_directive = (eight-head v).0;
  not_blank = (eight-head v).1;
  scanned = ap scan_hex (sym (print_hex-eight v h)) ∙ scan_hex-print_hex 6 v h;
}

pub exit_line-WordLine : WordLine exit_line (15 * 2 ^ 28)
unfolding exit_line
exit_line-WordLine = eight-WordLine (15 * 2 ^ 28) (omega arith)

pub random_datum-lt : (random : ℕ) → random_datum random < 2 ^ 32
unfolding random_datum
random_datum-lt random = omega arith

datum-WordLine :
    (random : ℕ) → WordLine (print_hex 8 (random_datum random) newline) (random_datum random)
datum-WordLine random =
    let h = random_datum-lt random in rw (print_hex-eight _ h) (eight-WordLine _ h)

-- the words of a round
abbrev pub block_words : ℕ → ℕ → ℕ → ℕ → List ℕ
block_words data_start data_size reg1 offset1 =
    let reg2 = (reg1 + 1) % 16 in
    let reg3 = (reg1 + 2) % 16 in
    let offset2 = next_offset data_size offset1 in
    let offset3 = next_offset data_size offset2 in
    (0 * 2 ^ 28 + reg1 * 2 ^ 24 + address data_start offset1)
    ∷ (0 * 2 ^ 28 + reg2 * 2 ^ 24 + address data_start offset2)
    ∷ (2 * 2 ^ 28 + reg3 * 2 ^ 24 + reg1 * 2 ^ 20 + reg2 * 2 ^ 16)
    ∷ (1 * 2 ^ 28 + reg3 * 2 ^ 24 + address data_start offset3)
    ∷ []

-- the words of the code
unfoldable pub code_words : (ℕ → ℕ) → ℕ → ℕ → ℕ → ℕ → List ℕ
code_words rand data_start data_size zero n = []
code_words rand data_start data_size (suc rounds) n =
    block_words data_start data_size (rand n % 16) (rand (n + 1) % data_size * 4 % 2 ^ 32)
    ++ code_words rand data_start data_size rounds (n + 2)

unfoldable pub data_words : (ℕ → ℕ) → ℕ → ℕ → List ℕ
data_words rand zero n = []
data_words rand (suc size) n = random_datum (rand n) ∷ data_words rand size (n + 1)

-- The data lie below 2 ^ 24 bytes.
pub record Fits (data_start data_size : ℕ) : Type 0 where
  pub some_data : 0 < data_size
  pub low : data_start + 4 * data_size ≤ 2 ^ 24

pub next_offset-lt : (size o : ℕ) → 0 < size → size ≤ 2 ^ 22 → next_offset size o < 4 * size
unfolding next_offset
next_offset-lt size o h k = omega arith

pub Words-append :
    (ls ls' : List Line) (ws ws' : List ℕ)
    → Words ls ws
    → Words ls' ws'
    → Words (ls ++ ls') (ws ++ ws')
Words-append [] ls' [] ws' w w' = w'
Words-append [] ls' (x ∷ ws) ws' w w' = elim w [ ]
Words-append (l ∷ ls) ls' [] ws' w w' = elim w [ ]
Words-append (l ∷ ls) ls' (x ∷ ws) ws' (h, w) w' = (h, Words-append ls ls' ws ws' w w')

block-Words :
    (data_start data_size reg1 o : ℕ)
    → Fits data_start data_size
    → reg1 < 16
    → o < 4 * data_size
    → Words (block data_start data_size reg1 o) (block_words data_start data_size reg1 o)
unfolding block
block-Words data_start data_size reg1 o f hr ho =
    let two = next_offset-lt data_size o f.some_data (omega (arith, f.low)) in
    let three =
      next_offset-lt data_size (next_offset data_size o) f.some_data (omega (arith, f.low)) in
    let low = f.low in
    (
      access_line-WordLine 0 reg1 _ (omega arith) hr (omega arith),
      (
        access_line-WordLine 0 _ _ (omega arith) (omega arith) (omega arith),
        (
          add_line-WordLine _ reg1 _ (omega arith) hr (omega arith),
          (access_line-WordLine 1 _ _ (omega arith) (omega arith) (omega arith), tt),
        ),
      ),
    )

pub code_lines-Words :
    (rand : ℕ → ℕ) (data_start data_size rounds n : ℕ)
    → Fits data_start data_size
    → Words
        (code_lines rand data_start data_size rounds n).0
        (code_words rand data_start data_size rounds n)
unfolding code_lines code_words
code_lines-Words rand data_start data_size zero n f = tt
code_lines-Words rand data_start data_size (suc rounds) n f =
    Words-append (block data_start data_size (rand n % 16) (rand (n + 1) % data_size * 4 % 2 ^ 32))
      (code_lines rand data_start data_size rounds (n + 2)).0 _ _
      (block-Words data_start data_size (rand n % 16) _ f (omega arith)
        (let s = f.some_data in omega (arith, f.low)))
      (code_lines-Words rand data_start data_size rounds (n + 2) f)

pub data_lines-Words :
    (rand : ℕ → ℕ) (size n : ℕ) → Words (data_lines rand size n).0 (data_words rand size n)
unfolding data_lines data_words
data_lines-Words rand zero n = tt
data_lines-Words rand (suc size) n = (datum-WordLine (rand n), data_lines-Words rand size (n + 1))
