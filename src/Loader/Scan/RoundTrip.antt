-- ===== src/Loader/Scan/RoundTrip.antt =====
-- A number that was printed is read back.
use the_loc_os.Base.{
  ℕ, zero, suc, ◌+◌, ◌*◌, ◌/◌, ◌%◌, ◌^◌, ◌<◌, ◌≡◌, ◌≢◌, refl, sym, ap, ◌∙◌, arith, true, false,
  some, [], ◌∷◌, ltb, ◌==◌, Bool-cases, inl, inr, ltb→lt,
}
use native.Mathlib.Nat.{pow-suc, mod-eq_of_lt, mod-add-div, div-div-eq-div-mul}
use the_loc_os.Loader.Scan.{
  Line, head, starts_with_digit, digit_value, skip_spaces, scan_digits, skip_prefix, scan_unsigned,
  scan_hex, hex_digit, put_digits, print_hex, to_word,
}

digit_value-hex_digit : (d : ℕ) → d < 16 → digit_value (hex_digit d) ≡ some d
digit_value-hex_digit d h = ground arith

scan_digits-digit :
    (d n : ℕ) (s : Line) → d < 16 → scan_digits (hex_digit d ∷ s) n ≡ scan_digits s (n * 16 + d)
unfolding scan_digits
scan_digits-digit d n s h = rw (scan_digits, digit_value-hex_digit d h) refl

-- a digit more, to base `b`
pub next_digit : (b p v n : ℕ) → (n * b + v / p % b) * p + v % p ≡ n * (p * b) + v % (p * b)
next_digit b p v n =
    let q = v / p in
    let split : p * q ≡ p * (b * (q / b) + q % b) =
      ap (λ x. p * x) (omega (arith, mod-add-div q b)) in
    omega (
      arith,
      mod-add-div v p,
      mod-add-div v (p * b),
      div-div-eq-div-mul v p b,
      ap (λ x. p * b * x) (div-div-eq-div-mul v p b),
      split,
    )

pub scan_digits-put_digits :
    (w v n : ℕ) (s : Line)
    → scan_digits (put_digits w v s) n ≡ scan_digits s (n * 16 ^ w + v % 16 ^ w)
unfolding put_digits
scan_digits-put_digits zero v n s = ap (scan_digits s) (omega arith)
scan_digits-put_digits (suc w) v n s =
    scan_digits-digit (v / 16 ^ w % 16) n (put_digits w v s) (omega arith)
    ∙ scan_digits-put_digits w v (n * 16 + v / 16 ^ w % 16) s
    ∙ ap (scan_digits s) (next_digit 16 (16 ^ w) v n)
    ∙ ap (λ p. scan_digits s (n * p + v % p)) (sym (pow-suc 16 w))

skip_spaces-digit : (d : ℕ) (s : Line) → d < 16 → skip_spaces (hex_digit d ∷ s) ≡ hex_digit d ∷ s
unfolding skip_spaces
skip_spaces-digit d s h = ground arith

skip_prefix-digit :
    (d : ℕ) (s : Line)
    → head s ≢ b'x'
    → head s ≢ b'X'
    → skip_prefix (hex_digit d ∷ s) ≡ hex_digit d ∷ s
unfolding skip_prefix
skip_prefix-digit d s hx hX = ground arith

-- A line that starts with an upper-case digit is read as digits.
pub scan_hex-digit :
    (d : ℕ) (s : Line)
    → d < 16
    → head s ≢ b'x'
    → head s ≢ b'X'
    → scan_hex (hex_digit d ∷ s) ≡ some (to_word false (scan_digits (hex_digit d ∷ s) 0))
unfolding scan_hex scan_unsigned
scan_hex-digit d s h hx hX =
    let first : starts_with_digit (hex_digit d ∷ s) ≡ true =
      rw (starts_with_digit, digit_value-hex_digit d h) refl in
    let plus : (hex_digit d == b'+') ≡ false = ground arith in
    let minus : (hex_digit d == b'-') ≡ false = ground arith in
    rw (skip_spaces-digit d s h, minus, plus, skip_prefix-digit d s hx hX, first) refl

-- the end of a line
abbrev pub newline : Line
newline = b'\n' ∷ []

pub scan_digits-newline : (n : ℕ) → scan_digits newline n ≡ n
unfolding scan_digits
scan_digits-newline n = refl

head-put_digits :
    (w v : ℕ) (s : Line) (c : ℕ)
    → c ≢ hex_digit (v / 16 ^ w % 16)
    → head (put_digits (suc w) v s) ≢ c
unfolding put_digits
head-put_digits w v s c h e = h (sym e)

-- the digits of a number, on a line of their own
pub scan_hex-put_digits :
    (w v : ℕ)
    → v < 16 ^ suc (suc w)
    → v < 2 ^ 32
    → scan_hex (put_digits (suc (suc w)) v newline) ≡ some v
unfolding put_digits
scan_hex-put_digits w v h small =
    scan_hex-digit (v / 16 ^ suc w % 16) (put_digits (suc w) v newline) (omega arith) (ground arith)
      (ground arith)
    ∙ ap (λ n. some (to_word false n))
        (scan_digits-put_digits (suc (suc w)) v 0 newline ∙ scan_digits-newline _)
    ∙ (let e : 0 * 16 ^ suc (suc w) + v % 16 ^ suc (suc w) ≡ v = omega (arith, mod-eq_of_lt h) in
        rw e (ground arith))

-- What `%06X` and `%08X` print of a 32-bit number, sscanf reads back.
pub scan_hex-print_hex :
    (w v : ℕ) → v < 2 ^ 32 → scan_hex (print_hex (suc (suc w)) v newline) ≡ some v
unfolding print_hex
scan_hex-print_hex w v h = elim (Bool-cases (ltb v (16 ^ suc (suc w)))) [
  | inl e ↦ rw e (scan_hex-put_digits w v (ltb→lt _ _ e) h)
  | inr e ↦ rw e (elim (Bool-cases (ltb v (16 ^ 7))) [
    | inl f ↦ rw f (scan_hex-put_digits 5 v (ltb→lt _ _ f) h)
    | inr f ↦ rw f (scan_hex-put_digits 6 v h h)
  ])
]

pub scan_hex-space : (s : Line) → scan_hex (b' ' ∷ s) ≡ scan_hex s
unfolding scan_hex skip_spaces
scan_hex-space s = refl
