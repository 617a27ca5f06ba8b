-- ===== src/Base/Loops.antt =====
-- Counted loops, and arrays as functions from the index.
use Prim.Native.Nat.{ℕ, zero, suc, ◌+◌}
use mathlib.Core.Path.{◌≡◌}
use mathlib.Core.Bool.{◌&&◌}
use native.Mathlib.Omega.{arith}
use the_loc_os.Base.Tests.{ltb, leb, ◌==◌, if◌then◌else◌}

module _ {ℓ} {S : Type ℓ} where
  -- A loop on an index that goes up from `first`, with the number of its rounds.
  unfoldable pub for_range : ℕ → ℕ → (ℕ → S → S) → S → S
  for_range zero first step state = state
  for_range (suc rounds) first step state = for_range rounds (first + 1) step (step first state)

  module _ {κ} (Inv : ℕ → S → Type κ) (step : ℕ → S → S)
      (keeps : (k : ℕ) (state : S) → Inv k state → Inv (k + 1) (step k state)) where
    -- What every round keeps, with the index, holds at the end with the last index.
    pub for_range_inv :
        (rounds first last : ℕ) (state : S)
        → first + rounds ≡ last
        → Inv first state
        → Inv last (for_range rounds first step state)
    unfolding for_range
    for_range_inv zero first last state ends start =
        let same : first ≡ last = omega arith in rw same at start
    for_range_inv (suc rounds) first last state ends start =
        for_range_inv rounds (first + 1) last (step first state) (omega arith)
          (keeps first state start)

-- `a[i] = v`
abbrev pub update {ℓ} : {A : Type ℓ} → (ℕ → A) → ℕ → A → ℕ → A
update a i v j = if j == i then v else a j

-- for (l = k; l < k + n; l++) a[l] = a[l + 1]
unfoldable pub shift_loop {ℓ} : {A : Type ℓ} → ℕ → ℕ → (ℕ → A) → ℕ → A
shift_loop zero k a = a
shift_loop (suc n) k a = shift_loop n (k + 1) (update a k (a (k + 1)))

-- The loop moves the `n` entries after `k` down by one and touches nothing else.
pub shift_loop_lem {ℓ} :
    {A : Type ℓ} (n k : ℕ) (a : ℕ → A) (j : ℕ)
    → shift_loop n k a j ≡ (if leb k j && ltb j (k + n) then a (j + 1) else a j)
unfolding shift_loop
shift_loop_lem zero k a j = ground arith
shift_loop_lem (suc n) k a j = ground (arith, shift_loop_lem n (k + 1) (update a k (a (k + 1))) j)
