-- ===== src/Base/Weigh.antt =====
-- The sum of the weights of the elements of a list.
use Prim.Native.Nat.{ℕ, ◌+◌, ◌<◌, ◌≤◌}
use mathlib.Core.Path.{◌≡◌}
use mathlib.Core.Logic.{inl, inr}
use mathlib.Core.List.{List, [], ◌∷◌, ◌++◌, Perm, foldr}
use mathlib.Core.List.Perm
use native.Mathlib.Omega.{arith}
use the_loc_os.Base.Lists.{length}
use the_loc_os.Base.Search.{Has}

abbrev pub weigh {ℓ} : {A : Type ℓ} → (A → ℕ) → List A → ℕ
weigh f = foldr (λ a n. f a + n) 0

module _ {ℓ} {A : Type ℓ} (f : A → ℕ) where
  pub weigh-append : (xs ys : List A) → weigh f (xs ++ ys) ≡ weigh f xs + weigh f ys
  weigh-append [] ys = omega arith
  weigh-append (x ∷ xs) ys = omega (arith, weigh-append xs ys)

  pub weigh-Perm : {xs ys : List A} → Perm xs ys → weigh f xs ≡ weigh f ys
  weigh-Perm p = Perm.foldr-eq (hlevel) (λ a n. f a + n) (λ a b n. omega arith) p 0

  module _ (g : A → ℕ) (less : (a : A) → f a ≤ g a) where
    pub weigh-le : (xs : List A) → weigh f xs ≤ weigh g xs
    weigh-le [] = omega arith
    weigh-le (x ∷ xs) = omega (arith, less x, weigh-le xs)

    -- one of the elements weighs less
    pub weigh-lt :
        (P : A → Type 0)
        → ((a : A) → P a → f a < g a)
        → (xs : List A) → Has P xs
        → weigh f xs < weigh g xs
    weigh-lt P lighter [] h = absurd h
    weigh-lt P lighter (x ∷ xs) (inl e) = omega (arith, lighter x e, weigh-le xs)
    weigh-lt P lighter (x ∷ xs) (inr h) = omega (arith, less x, weigh-lt P lighter xs h)

  pub length-le-weigh : ((a : A) → 0 < f a) → (xs : List A) → length xs ≤ weigh f xs
  length-le-weigh more [] = omega arith
  length-le-weigh more (x ∷ xs) = omega (arith, more x, length-le-weigh more xs)
