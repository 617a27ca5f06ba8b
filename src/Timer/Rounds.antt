-- ===== src/Timer/Rounds.antt =====
-- How often a timer interrupts.
use the_loc_os.Base.{
  ℕ, zero, suc, ◌+◌, ◌*◌, ◌<◌, ◌≡◌, refl, sym, ap, ◌∙◌, arith, true, false, ℤ, pos, leb, leb_ℤ,
  ◌-ℤ◌, ◌+ℤ◌, Bool-cases, inl, inr,
}
use the_loc_os.Timer.{Timer, timer_round, call_back}

-- the rounds at the `n` ticks behind `clk_counter`
unfoldable pub rounds : {S : Type 0} → ℕ → ℤ → Timer S × S → Timer S × S
rounds zero clk p = p
rounds (suc n) clk (timer, s) = rounds n (clk +ℤ pos 1) (timer_round (clk +ℤ pos 1) timer s)

-- a function, `n` times
abbrev pub times : {S : Type 0} → ℕ → (S → S) → S → S
times zero f s = s
times (suc n) f s = times n f (f s)

due_cases :
    (i r : ℕ) (last clk : ℤ)
    → clk ≡ last +ℤ pos r
    → leb_ℤ (pos i) ((clk +ℤ pos 1) -ℤ last) ≡ leb i (r + 1)
unfolding ◌+ℤ◌ ◌-ℤ◌
due_cases i r last clk e = ground (arith, e)

next_tick : (r : ℕ) (last clk : ℤ) → clk ≡ last +ℤ pos r → clk +ℤ pos 1 ≡ last +ℤ pos (r + 1)
unfolding ◌+ℤ◌
next_tick r last clk e = ground (arith, e)

same_tick : (clk : ℤ) → clk ≡ clk +ℤ pos 0
unfolding ◌+ℤ◌
same_tick clk = ground arith

waits :
    {S : Type 0} (now : ℤ) (timer : Timer S) (s : S)
    → leb_ℤ timer.interval (now -ℤ timer.last_tick) ≡ false
    → timer_round now timer s ≡ (timer, s)
unfolding timer_round
waits now timer s e = elim (Bool-cases timer.running) [ inl on ↦ simp (on, e) | inr off ↦ simp off ]

fires :
    {S : Type 0} (now : ℤ) (timer : Timer S) (s : S)
    → timer.running ≡ true
    → leb_ℤ timer.interval (now -ℤ timer.last_tick) ≡ true
    → timer_round now timer s
      ≡ (record timer { last_tick = now }, call_back timer.callback timer.id s)
unfolding timer_round
fires now timer s on e = simp (on, e)

suc_times : (q i : ℕ) → suc q * i ≡ i + q * i
suc_times q i = omega arith

abbrev Positive : ℕ → Type 0
Positive q = (p : ℕ) × (q ≡ suc p)

rounds_left : (q n k r i : ℕ) → r + suc n ≡ q * i + k → r + 1 ≡ i → k < i → Positive q
rounds_left zero n k r i sum end rest = absurd (omega (arith, sum, end, rest))
rounds_left (suc q) n k r i sum end rest = (q, refl)

module _ {S : Type 0} (i : ℕ) where
  -- While it runs, a timer calls its callback once per interval: over n ticks, r ticks after its
  -- last interruption, as often as the interval i goes into r + n. With k the remainder: r + n is
  -- q times i and k, and r and k are below i.
  pub rounds-callback :
      (n q k r : ℕ) (clk : ℤ) (timer : Timer S) (s : S)
      → timer.running ≡ true
      → timer.interval ≡ pos i
      → clk ≡ timer.last_tick +ℤ pos r
      → r < i
      → r + n ≡ q * i + k
      → k < i
      → (rounds n clk (timer, s)).1 ≡ times q (call_back timer.callback timer.id) s
  unfolding rounds
  rounds-callback zero zero k r clk timer s on e now early sum rest = refl
  rounds-callback zero (suc q) k r clk timer s on e now early sum rest =
      let sum' : r + 0 ≡ i + q * i + k = sum ∙ ap (λ x. x + k) (suc_times q i) in
      absurd (omega (arith, sum', early))
  rounds-callback (suc n) q k r clk timer s on e now early sum rest =
      let due : leb_ℤ timer.interval ((clk +ℤ pos 1) -ℤ timer.last_tick) ≡ leb i (r + 1) =
        ap (λ x. leb_ℤ x ((clk +ℤ pos 1) -ℤ timer.last_tick)) e
        ∙ due_cases i r timer.last_tick clk now in
      elim (Bool-cases (leb i (r + 1))) [
        | inr wait ↦
            ap (λ p. (rounds n (clk +ℤ pos 1) p).1) (waits (clk +ℤ pos 1) timer s (due ∙ wait))
            ∙ rounds-callback n q k (r + 1) (clk +ℤ pos 1) timer s on e
                (next_tick r timer.last_tick clk now) (ground (arith, wait)) (omega (arith, sum))
                rest
        | inl fire ↦
            let end : r + 1 ≡ i = ground (arith, fire, early) in
            let fewer : Positive q = rounds_left q n k r i sum end rest in
            let sum' : 0 + n ≡ fewer.0 * i + k =
              omega (arith, sum, end, ap (λ x. x * i) fewer.1, suc_times fewer.0 i) in
            ap (λ p. (rounds n (clk +ℤ pos 1) p).1) (fires (clk +ℤ pos 1) timer s on (due ∙ fire))
            ∙ rounds-callback n fewer.0 k 0 (clk +ℤ pos 1)
                (record timer { last_tick = clk +ℤ pos 1 }) (call_back timer.callback timer.id s) on
                e (same_tick (clk +ℤ pos 1)) (omega (arith, early)) sum' rest
            ∙ ap (λ x. times x (call_back timer.callback timer.id) s) (sym fewer.1)
      ]
