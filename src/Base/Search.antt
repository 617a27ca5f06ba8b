-- ===== src/Base/Search.antt =====
-- A list that has an element with a property, or has only such elements, by recursion.
use Prim.Native.Nat.{ℕ, zero, suc, ◌+◌, ◌<◌}
use mathlib.Core.Logic.{◌⊎◌, inl, inr}
use mathlib.Core.List.{List, [], ◌∷◌, ◌++◌, map}
use native.Mathlib.Omega.{arith}
use the_loc_os.Base.Listing.{listing}

module _ {ℓ} {A : Type ℓ} (P : A → Type 0) where
  abbrev pub Has : List A → Type 0
  Has [] = ⊥
  Has (x ∷ xs) = P x ⊎ Has xs

  pub Has-append : (xs ys : List A) → Has (xs ++ ys) → Has xs ⊎ Has ys
  Has-append [] ys h = inr h
  Has-append (x ∷ xs) ys (inl p) = inl (inl p)
  Has-append (x ∷ xs) ys (inr h) = elim (Has-append xs ys h) [ inl a ↦ inl (inr a) | inr b ↦ inr b ]

  pub Has-listing : (n : ℕ) (f : ℕ → A) → Has (listing n f) → (k : ℕ) × (k < n) × P (f k)
  Has-listing zero f h = absurd h
  Has-listing (suc n) f (inl p) = (0, omega arith, p)
  Has-listing (suc n) f (inr h) =
      let (k, lt, p) = Has-listing n (λ i. f (i + 1)) h in (k + 1, omega arith, p)

pub Has-map {ℓ} :
    {A : Type ℓ} (P Q : A → Type 0) (f : (a : A) → P a → Q a) (xs : List A) → Has P xs → Has Q xs
Has-map P Q f [] h = absurd h
Has-map P Q f (x ∷ xs) (inl p) = inl (f x p)
Has-map P Q f (x ∷ xs) (inr h) = inr (Has-map P Q f xs h)

abbrev pub Each {ℓ} : {A : Type ℓ} → (A → Type 0) → List A → Type 0
Each P [] = Unit
Each P (x ∷ xs) = P x × Each P xs

pub Each-map {ℓ κ} :
    {A : Type ℓ} {B : Type κ} (P : A → Type 0) (Q : B → Type 0) (f : A → B)
    → ((a : A) → P a → Q (f a))
    → (xs : List A) → Each P xs
    → Each Q (map f xs)
Each-map P Q f h [] e = tt
Each-map P Q f h (x ∷ xs) (p, e) = (h x p, Each-map P Q f h xs e)
