-- ===== src/Loader/Scan.antt =====
-- What the loader and the program generator use of the C library's formatted text: `%x` of sscanf,
-- `%X` of sprintf with leading zeros, and strncmp, on lists of bytes.
pub mod RoundTrip
use the_loc_os.Base.{
  ℕ, zero, suc, ◌+◌, ◌-◌, ◌*◌, ◌/◌, ◌%◌, ◌^◌, Bool, true, false, ◌&&◌, ◌||◌, Option, none, some,
  List, [], ◌∷◌, ltb, leb, ◌==◌, if◌then◌else◌,
}

abbrev pub Line : Type 0
Line = List ℕ

-- `line[0]`; a line that `fgets` returns is not empty
abbrev pub head : Line → ℕ
head [] = 0
head (c ∷ s) = c

abbrev pub drop : ℕ → Line → Line
drop zero s = s
drop (suc n) [] = []
drop (suc n) (c ∷ s) = drop n s

-- `strncmp(line, prefix, strlen(prefix)) == 0`
unfoldable pub starts_with : Line → Line → Bool
starts_with [] s = true
starts_with (p ∷ ps) [] = false
starts_with (p ∷ ps) (c ∷ s) = p == c && starts_with ps s

abbrev is_space : ℕ → Bool
is_space c = c == 32 || leb 9 c && leb c 13

abbrev pub digit_value : ℕ → Option ℕ
digit_value c =
    if leb b'0' c && leb c b'9'
    then some (c - b'0')
    else if leb b'A' c && leb c b'F'
    then some (c - b'A' + 10)
    else if leb b'a' c && leb c b'f'
    then some (c - b'a' + 10)
    else none

unfoldable pub skip_spaces : Line → Line
skip_spaces [] = []
skip_spaces (c ∷ s) = let rest = skip_spaces s in if is_space c then rest else c ∷ s

-- the number that the digits at the front make, after `n`
unfoldable pub scan_digits : Line → ℕ → ℕ
scan_digits [] n = n
scan_digits (c ∷ s) n = elim (digit_value c) [ none ↦ n | some d ↦ scan_digits s (n * 16 + d) ]

abbrev pub starts_with_digit : Line → Bool
starts_with_digit s = elim (digit_value (head s)) [ none ↦ false | some d ↦ true ]

-- the optional `0x`
unfoldable pub skip_prefix : Line → Line
skip_prefix s =
    if head s == b'0' && (head (drop 1 s) == b'x' || head (drop 1 s) == b'X') then drop 2 s else s

-- `%x` is read as `strtoul` reads it, into 64 bits, and stored in 32.
abbrev pub to_word : Bool → ℕ → ℕ
to_word negative n =
    if leb (2 ^ 64) n then 2 ^ 32 - 1 else if negative then (2 ^ 64 - n) % 2 ^ 32 else n % 2 ^ 32

unfoldable pub scan_unsigned : Bool → Line → Option ℕ
scan_unsigned negative s =
    let digits = skip_prefix s in
    if starts_with_digit digits then some (to_word negative (scan_digits digits 0)) else none

-- `sscanf(s, "%x", &word)`: the word where the conversion succeeds
unfoldable pub scan_hex : Line → Option ℕ
scan_hex line =
    let s = skip_spaces line in
    if head s == b'-'
    then scan_unsigned true (drop 1 s)
    else if head s == b'+'
    then scan_unsigned false (drop 1 s)
    else scan_unsigned false s

abbrev pub hex_digit : ℕ → ℕ
hex_digit d = if ltb d 10 then b'0' + d else b'A' + (d - 10)

-- the last `w` digits of `v`, before the rest of the text
unfoldable pub put_digits : ℕ → ℕ → Line → Line
put_digits zero v rest = rest
put_digits (suc w) v rest = hex_digit (v / 16 ^ w % 16) ∷ put_digits w v rest

-- `%0wX` of a 32-bit number: `w` digits, or as many as it needs
unfoldable pub print_hex : ℕ → ℕ → Line → Line
print_hex w v rest =
    put_digits (if ltb v (16 ^ w) then w else if ltb v (16 ^ 7) then 7 else 8) v rest
