-- ===== src/Machine/Cycle/Straight.antt =====
-- Programs without jumps on the abstract machine: they come to their EXIT.
use the_loc_os.Base.{
  ℕ, zero, suc, ◌+◌, ◌-◌, ◌*◌, ◌/◌, ◌^◌, ◌<◌, ◌≤◌, ◌≡◌, refl, ap, ◌∙◌, arith, true, false, ltb,
  Bool-cases, inl, inr,
}
use the_loc_os.Machine.Cycle.{extract_opcode, extract_address}
use the_loc_os.Machine.Cycle.Isa.{Isa, isa_execute, isa_step, InSpace, isa_step-running}
use the_loc_os.Machine.Cycle.Abstract.{isa_run, StaysInSpace}

-- An instruction that loads from, stores into or adds beside a program of `c` instructions and its
-- EXIT, in a space of `n` pages.
pub record IsPlain (c n i : ℕ) : Type 0 where
  pub opcode : extract_opcode i ≤ 2
  pub operand : extract_opcode i < 2 → extract_address i / 4096 < n
  pub kept : extract_opcode i ≡ 1 → c < extract_address i / 4

-- `c` such instructions and then EXIT
pub record IsStraight (c n : ℕ) (mem : ℕ → ℕ) : Type 0 where
  pub plain : (k : ℕ) → k < c → IsPlain c n (mem k)
  pub ends : extract_opcode (mem c) ≡ 15
  pub in_space : c / 1024 < n
  pub short : 4 * c < 2 ^ 32 - 4

IsStraight-same :
    {c n : ℕ} {mem : ℕ → ℕ} (mem' : ℕ → ℕ)
    → IsStraight c n mem
    → ((k : ℕ) → k ≤ c → mem' k ≡ mem k)
    → IsStraight c n mem'
IsStraight-same {c} mem' p e = record {
  plain = λ k h. rw (e k (omega arith)) (p.plain k h);
  ends = rw (e c (omega arith)) p.ends;
  in_space = p.in_space;
  short = p.short;
}

module _ {c n : ℕ} (s : Isa) (p : IsStraight c n s.mem) (k : ℕ) (at : s.pc ≡ 4 * k)
    (live : s.halted ≡ false) where
  step_at : isa_step s ≡ isa_execute s (s.mem k)
  step_at =
      let next : s.pc / 4 ≡ k = omega (arith, at) in
      isa_step-running s live ∙ ap (λ j. isa_execute s (s.mem j)) next

  plain_step :
      k < c
      → IsStraight c n (isa_step s).mem
        × ((isa_step s).pc ≡ 4 * (k + 1))
        × ((isa_step s).halted ≡ false)
  plain_step h =
      let i = p.plain k h in
      let short = p.short in
      rw step_at (
        IsStraight-same _ p (λ j l. ground (arith, i.kept, i.opcode)),
        ground (arith, at, i.opcode),
        ground (arith, live, i.opcode),
      )

  exit_step : k ≡ c → (isa_step s).halted ≡ true
  exit_step h = let e : extract_opcode (s.mem k) ≡ 15 = rw h p.ends in rw (step_at, e) refl

  straight-InSpace : k ≤ c → InSpace n s
  straight-InSpace h =
      let next : s.pc / 4 ≡ k = omega (arith, at) in
      record {
        fetch = omega (arith, at, p.in_space);
        operand = rw next (elim (Bool-cases (ltb k c)) [
          | inl l ↦ (p.plain k (ground arith)).operand
          | inr l ↦ λ o. let q : k ≡ c = ground arith in absurd (omega (arith, ap s.mem q, p.ends))
        ]);
      }

pub straight-halts :
    {c n : ℕ} (s : Isa) (m k : ℕ)
    → IsStraight c n s.mem
    → s.pc ≡ 4 * k
    → s.halted ≡ false
    → k + m ≡ c
    → StaysInSpace n (suc m) s × ((isa_run (suc m) s).halted ≡ true)
unfolding isa_run
straight-halts s zero k p at live e =
    ((straight-InSpace s p k at live (omega arith), tt), exit_step s p k at live (omega arith))
straight-halts s (suc m) k p at live e =
    let (p', at', live') = plain_step s p k at live (omega arith) in
    let (stays, halts) = straight-halts (isa_step s) m (k + 1) p' at' live' (omega arith) in
    ((straight-InSpace s p k at live (omega arith), stays), halts)
