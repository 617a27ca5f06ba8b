-- ===== src/Prometheus/Decimal.antt =====
-- `%03d` of sprintf, in the names of the files that programs/prometheus/prometheus.c writes.
use the_loc_os.Base.{
  ℕ, zero, suc, ◌+◌, ◌-◌, ◌*◌, ◌/◌, ◌%◌, ◌^◌, ◌<◌, ◌≤◌, ◌≡◌, ◌≢◌, refl, sym, ap, ◌∙◌, arith, Bool,
  true, false, ◌&&◌, [], ◌∷◌, ◌++◌, length, length-append, ltb, leb, if◌then◌else◌, Bool-cases, inl,
  inr, ltb→lt, lt→ltb,
}
use mathlib.Core.Path.{subst}
use native.Mathlib.Nat.{pow-suc, mod-eq_of_lt}
use the_loc_os.Loader.Scan.{Line}
use the_loc_os.Loader.Scan.RoundTrip.{next_digit}

-- the last `w` digits of `v`, before the rest of the text
unfoldable pub put_decimal : ℕ → ℕ → Line → Line
put_decimal zero v rest = rest
put_decimal (suc w) v rest = (b'0' + v / 10 ^ w % 10) ∷ put_decimal w v rest

-- how many digits `v` needs: `w` at least, and `n` more at most
unfoldable pub decimal_width : ℕ → ℕ → ℕ → ℕ
decimal_width zero w v = w
decimal_width (suc n) w v =
    let wider = decimal_width n (w + 1) v in if ltb v (10 ^ w) then w else wider

-- `%03d` of a 32-bit number, which it reads as an int
unfoldable pub print_int : ℕ → Line → Line
print_int v rest =
    if ltb v (2 ^ 31)
    then put_decimal (decimal_width 7 3 v) v rest
    else b'-' ∷ put_decimal (decimal_width 8 2 (2 ^ 32 - v)) (2 ^ 32 - v) rest

abbrev is_digit : ℕ → Bool
is_digit c = leb b'0' c && leb c b'9'

-- the number that the digits at the front make, after `n`
unfoldable scan_decimal : Line → ℕ → ℕ
scan_decimal [] n = n
scan_decimal (c ∷ s) n =
    let rest = scan_decimal s (n * 10 + (c - b'0')) in if is_digit c then rest else n

scan_decimal-digit :
    (d n : ℕ) (s : Line) → d < 10 → scan_decimal ((b'0' + d) ∷ s) n ≡ scan_decimal s (n * 10 + d)
unfolding scan_decimal
scan_decimal-digit d n s h =
    let digit : is_digit (b'0' + d) ≡ true = ground arith in
    rw digit (ap (λ k. scan_decimal s (n * 10 + k)) (omega arith))

scan_decimal-put_decimal :
    (w v n : ℕ) (s : Line)
    → scan_decimal (put_decimal w v s) n ≡ scan_decimal s (n * 10 ^ w + v % 10 ^ w)
unfolding put_decimal
scan_decimal-put_decimal zero v n s = ap (scan_decimal s) (omega arith)
scan_decimal-put_decimal (suc w) v n s =
    scan_decimal-digit (v / 10 ^ w % 10) n (put_decimal w v s) (omega arith)
    ∙ scan_decimal-put_decimal w v (n * 10 + v / 10 ^ w % 10) s
    ∙ ap (scan_decimal s) (next_digit 10 (10 ^ w) v n)
    ∙ ap (λ p. scan_decimal s (n * p + v % p)) (sym (pow-suc 10 w))

below-decimal_width : (n w v : ℕ) → v < 10 ^ (w + n) → v < 10 ^ decimal_width n w v
unfolding decimal_width
below-decimal_width zero w v h = subst (λ k. v < 10 ^ k) (omega arith) h
below-decimal_width (suc n) w v h = elim (Bool-cases (ltb v (10 ^ w))) [
  | inl e ↦ rw e (ltb→lt _ _ e)
  | inr e ↦ rw e (below-decimal_width n (w + 1) v (subst (λ k. v < 10 ^ k) (omega arith) h))
]

-- A number that is printed before a character that is no digit is read back.
scan_decimal-print_int :
    (v c : ℕ) (s : Line)
    → v < 2 ^ 31
    → is_digit c ≡ false
    → scan_decimal (print_int v (c ∷ s)) 0 ≡ v
unfolding print_int scan_decimal
scan_decimal-print_int v c s h e =
    let below = below-decimal_width 7 3 v (omega arith) in
    rw (lt→ltb v (2 ^ 31) h) (
      scan_decimal-put_decimal (decimal_width 7 3 v) v 0 (c ∷ s)
      ∙ rw e (omega (arith, mod-eq_of_lt below)))

-- Different numbers are printed differently.
pub print_int-injective :
    (v v' : ℕ) (s : Line)
    → v < 2 ^ 31
    → v' < 2 ^ 31
    → print_int v (b'.' ∷ s) ≡ print_int v' (b'.' ∷ s)
    → v ≡ v'
print_int-injective v v' s h h' e =
    sym (scan_decimal-print_int v b'.' s h refl)
    ∙ ap (λ l. scan_decimal l 0) e
    ∙ scan_decimal-print_int v' b'.' s h' refl

put_decimal-append : (w v : ℕ) (s : Line) → put_decimal w v s ≡ put_decimal w v [] ++ s
unfolding put_decimal
put_decimal-append zero v s = refl
put_decimal-append (suc w) v s = ap (λ l. (b'0' + v / 10 ^ w % 10) ∷ l) (put_decimal-append w v s)

length-put_decimal : (w v : ℕ) → length (put_decimal w v []) ≡ w
unfolding put_decimal
length-put_decimal zero v = refl
length-put_decimal (suc w) v = ap suc (length-put_decimal w v)

decimal_width-least : (n w v : ℕ) → w ≤ decimal_width n w v
unfolding decimal_width
decimal_width-least zero w v = omega arith
decimal_width-least (suc n) w v = elim (Bool-cases (ltb v (10 ^ w))) [
  | inl e ↦ rw e (omega arith)
  | inr e ↦ rw e (omega (arith, decimal_width-least n (w + 1) v))
]

-- What is printed stands before the rest, and is three characters or more.
pub print_int-append :
    (v : ℕ) (s : Line) → (digits : Line) × (3 ≤ length digits) × (print_int v s ≡ digits ++ s)
unfolding print_int
print_int-append v s = elim (Bool-cases (ltb v (2 ^ 31))) [
  | inl e ↦ rw e (
      let w = decimal_width 7 3 v in
      (
        put_decimal w v [],
        omega (arith, length-put_decimal w v, decimal_width-least 7 3 v),
        put_decimal-append w v s,
      ))
  | inr e ↦ rw e (
      let v' = 2 ^ 32 - v in
      let w = decimal_width 8 2 v' in
      (
        b'-' ∷ put_decimal w v' [],
        omega (arith, length-put_decimal w v', decimal_width-least 8 2 v'),
        ap (λ l. b'-' ∷ l) (put_decimal-append w v' s),
      ))
]

decimal_width-most : (n w v k : ℕ) → w ≤ k → v < 10 ^ k → decimal_width n w v ≤ k
unfolding decimal_width
decimal_width-most zero w v k h l = h
decimal_width-most (suc n) w v k h l = elim (Bool-cases (ltb v (10 ^ w))) [
  | inl e ↦ rw e h
  | inr e ↦
      let other : w ≢ k =
        λ q. (let small = subst (λ x. v < 10 ^ x) (sym q) l in absurd (ground (arith, e, small))) in
      rw e (decimal_width-most n (w + 1) v k (omega arith) l)
]

-- how long a number below 10 ^ k is when it is printed, for k of three or more
pub length-print_int :
    (v k : ℕ) (s : Line) → 3 ≤ k → v < 10 ^ k → v < 2 ^ 31 → length (print_int v s) ≤ k + length s
unfolding print_int
length-print_int v k s h l h' =
    let w = decimal_width 7 3 v in
    rw (lt→ltb v (2 ^ 31) h', put_decimal-append w v s, length-append (put_decimal w v []) s)
      (omega (arith, length-put_decimal w v, decimal_width-most 7 3 v k h l))
