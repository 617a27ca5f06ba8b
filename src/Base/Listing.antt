-- ===== src/Base/Listing.antt =====
-- The list of the values of a function at 0 to n - 1.
use Prim.Native.Nat.{ℕ, zero, suc, ◌+◌, ◌-◌, ◌<◌, ◌≤◌}
use mathlib.Core.Path.{◌≡◌, refl, sym, ap, ap₂, ◌∙◌}
use mathlib.Core.Logic.{◌≢◌, inl, inr}
use mathlib.Core.Logic.{∥∥₁_elim}
use mathlib.Core.HLevel.{⊥_prop}
use mathlib.Core.List.{List, [], ◌∷◌, ◌++◌, Mem, not-mem-nil, eq-or-mem_of_mem-cons}
use native.Mathlib.Numerals.{add-one}
use native.Mathlib.Omega.{arith}
use the_loc_os.Base.Lists.{length, erase_at}

-- f 0 to f (n - 1)
abbrev pub listing {ℓ} : {A : Type ℓ} → ℕ → (ℕ → A) → List A
listing zero f = []
listing (suc n) f = f 0 ∷ listing n (λ i. f (i + 1))

pub length-listing {ℓ} : {A : Type ℓ} (n : ℕ) (f : ℕ → A) → length (listing n f) ≡ n
length-listing zero f = refl
length-listing (suc n) f = ap suc (length-listing n (λ i. f (i + 1)))

pub listing-ext {ℓ} :
    {A : Type ℓ} (n : ℕ) (f g : ℕ → A) → ((i : ℕ) → i < n → f i ≡ g i) → listing n f ≡ listing n g
listing-ext zero f g h = refl
listing-ext (suc n) f g h =
    ap₂ ◌∷◌ (h 0 (omega arith)) (listing-ext n _ _ (λ i k. h (i + 1) (omega arith)))

pub listing-snoc {ℓ} :
    {A : Type ℓ} (n : ℕ) (f : ℕ → A) → listing (suc n) f ≡ listing n f ++ (f n ∷ [])
listing-snoc zero f = refl
listing-snoc (suc n) f =
    ap (λ l. f 0 ∷ l)
      (listing-snoc n (λ i. f (i + 1))
        ∙ ap (λ k. listing n (λ i. f (i + 1)) ++ (f k ∷ [])) (add-one n))

pub listing-cons {ℓ} :
    {A : Type ℓ} (n : ℕ) (f : ℕ → A) → n ≢ 0 → listing n f ≡ f 0 ∷ listing (n - 1) (λ i. f (i + 1))
listing-cons zero f h = absurd (h refl)
listing-cons (suc n) f h = ap (λ k. f 0 ∷ listing k (λ i. f (i + 1))) (omega arith)

-- Leaving out place `k` moves the values behind it down by one.
pub listing-erase_at {ℓ} :
    {A : Type ℓ} (n k : ℕ) (f g : ℕ → A)
    → k < n
    → ((i : ℕ) → i < k → g i ≡ f i)
    → ((i : ℕ) → k ≤ i → i < n - 1 → g i ≡ f (i + 1))
    → listing (n - 1) g ≡ erase_at (listing n f) k
listing-erase_at zero k f g h low high = elim h [ ]
listing-erase_at (suc n) zero f g h low high =
    ap (λ m. listing m g) (omega arith)
    ∙ listing-ext n g (λ i. f (i + 1)) (λ i m. high i (omega arith) (omega arith))
listing-erase_at (suc n) (suc k) f g h low high =
    listing-cons (suc n - 1) g (omega arith)
    ∙ ap₂ ◌∷◌ (low 0 (omega arith)) (
        ap (λ m. listing (m - 1) (λ i. g (i + 1))) (omega arith)
        ∙ listing-erase_at n k (λ i. f (i + 1)) (λ i. g (i + 1)) (omega arith)
            (λ i m. low (i + 1) (omega arith)) (λ i m q. high (i + 1) (omega arith) (omega arith)))

pub not-mem-listing {ℓ} :
    {A : Type ℓ} (n : ℕ) (f : ℕ → A) (a : A) → ((i : ℕ) → i < n → f i ≢ a) → Mem a (listing n f) → ⊥
not-mem-listing zero f a h m = not-mem-nil m
not-mem-listing (suc n) f a h m = ∥∥₁_elim (eq-or-mem_of_mem-cons m) ⊥_prop (λ o. elim o [
  | inl e ↦ h 0 (omega arith) (sym e)
  | inr m' ↦ not-mem-listing n (λ i. f (i + 1)) a (λ i lt. h (i + 1) (omega arith)) m'
])
