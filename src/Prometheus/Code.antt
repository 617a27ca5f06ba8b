-- ===== src/Prometheus/Code.antt =====
-- The generated code: loads, additions and stores on the data, and then EXIT.
use the_loc_os.Base.{
  ℕ, zero, suc, ◌+◌, ◌-◌, ◌*◌, ◌%◌, ◌^◌, ◌<◌, ◌≤◌, ◌≡◌, refl, ap, ◌∙◌, arith, true, List, [], ◌∷◌,
  ◌++◌, length, ltb, if◌then◌else◌, ◌==◌, Bool-cases, inl, inr,
}
use the_loc_os.Machine.Cycle.Straight.{IsPlain}
use the_loc_os.Loader.Elf.Passes.{nth}
use the_loc_os.Prometheus.{next_offset, address}
use the_loc_os.Prometheus.Words.{Fits, next_offset-lt, block_words, code_words, data_words}

pub nth-append :
    (xs ys : List ℕ) (i : ℕ)
    → nth (xs ++ ys) i ≡ (if ltb i (length xs) then nth xs i else nth ys (i - length xs))
nth-append [] ys i = ground arith
nth-append (x ∷ xs) ys i = elim (Bool-cases (i == 0)) [
  | inl e ↦ rw e (ground arith)
  | inr e ↦
      let l : nth ys (i - 1 - length xs) ≡ nth ys (i - suc (length xs)) =
        ap (nth ys) (omega arith) in
      rw e (nth-append xs ys (i - 1) ∙ ground (arith, e, l))
]

module _ (c n data_start data_size : ℕ) (f : Fits data_start data_size)
    (before : 4 * c + 4 ≤ data_start) (pages : data_start + 4 * data_size ≤ n * 4096) where
  access-IsPlain :
      (op reg o : ℕ)
      → op < 2
      → reg < 16
      → o < 4 * data_size
      → IsPlain c n (op * 2 ^ 28 + reg * 2 ^ 24 + address data_start o)
  access-IsPlain op reg o ho hr h =
      let low = f.low in
      record { opcode = omega arith; operand = λ k. omega arith; kept = λ k. omega arith }

  add-IsPlain :
      (r3 r1 r2 : ℕ)
      → r3 < 16
      → r1 < 16
      → r2 < 16
      → IsPlain c n (2 * 2 ^ 28 + r3 * 2 ^ 24 + r1 * 2 ^ 20 + r2 * 2 ^ 16)
  add-IsPlain r3 r1 r2 h3 h1 h2 = record {
    opcode = omega arith;
    operand = λ k. absurd (omega arith);
    kept = λ k. absurd (omega arith);
  }

  block-IsPlain :
      (reg o k : ℕ)
      → reg < 16
      → o < 4 * data_size
      → k < 4
      → IsPlain c n (nth (block_words data_start data_size reg o) k)
  block-IsPlain reg o k hr ho hk =
      let two = next_offset-lt data_size o f.some_data (omega (arith, f.low)) in
      let three =
        next_offset-lt data_size (next_offset data_size o) f.some_data (omega (arith, f.low)) in
      elim (Bool-cases (k == 0)) [
        | inl e ↦ rw e (access-IsPlain 0 reg o (omega arith) hr ho)
        | inr e ↦ rw e (elim (Bool-cases (k - 1 == 0)) [
          | inl e ↦ rw e (access-IsPlain 0 _ _ (omega arith) (omega arith) two)
          | inr e ↦ rw e (elim (Bool-cases (k - 1 - 1 == 0)) [
            | inl e ↦ rw e (add-IsPlain _ reg _ (omega arith) hr (omega arith))
            | inr e ↦
                let last : (k - 1 - 1 - 1 == 0) ≡ true = ground arith in
                rw (e, last) (access-IsPlain 1 _ _ (omega arith) (omega arith) three)
          ])
        ])
      ]

  pub code_words-IsPlain :
      (rand : ℕ → ℕ) (rounds m k : ℕ)
      → k < 4 * rounds
      → IsPlain c n (nth (code_words rand data_start data_size rounds m) k)
  unfolding code_words
  code_words-IsPlain rand zero m k h = absurd (omega arith)
  code_words-IsPlain rand (suc rounds) m k h =
      let block =
        block_words data_start data_size (rand m % 16) (rand (m + 1) % data_size * 4 % 2 ^ 32) in
      let rest = code_words rand data_start data_size rounds (m + 2) in
      let o : rand (m + 1) % data_size * 4 % 2 ^ 32 < 4 * data_size =
        (let s = f.some_data in omega (arith, f.low)) in
      rw (nth-append block rest k) (elim (Bool-cases (ltb k 4)) [
        | inl e ↦ rw e (block-IsPlain _ _ k (omega arith) o (ground arith))
        | inr e ↦ rw e (code_words-IsPlain rand rounds (m + 2) (k - 4) (ground arith))
      ])

pub length-code_words :
    (rand : ℕ → ℕ) (data_start data_size rounds m : ℕ)
    → length (code_words rand data_start data_size rounds m) ≡ 4 * rounds
unfolding code_words
length-code_words rand data_start data_size zero m = refl
length-code_words rand data_start data_size (suc rounds) m =
    omega (arith, length-code_words rand data_start data_size rounds (m + 2))

pub length-data_words : (rand : ℕ → ℕ) (size m : ℕ) → length (data_words rand size m) ≡ size
unfolding data_words
length-data_words rand zero m = refl
length-data_words rand (suc size) m = ap suc (length-data_words rand size (m + 1))
