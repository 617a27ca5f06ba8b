-- ===== src/Base/Perms.antt =====
-- Rearranged lists: their lengths, and the moves of a middle part.
use Prim.Native.Nat.{suc}
use mathlib.Core.Path.{◌≡◌, refl, ap}
use mathlib.Core.List.{
  List, [], ◌∷◌, ◌++◌, Perm, perm_append_comm, perm_append_singleton, append_assoc,
}
use mathlib.Core.List.Perm
use mathlib.Core.List as Peano
use the_loc_os.Base.Lists.{length}

module _ {ℓ} {A : Type ℓ} where
  length_of : (xs ys : List A) → Peano.length xs ≡ Peano.length ys → length xs ≡ length ys
  length_of [] [] e = refl
  length_of [] (y ∷ ys) e = cc
  length_of (x ∷ xs) [] e = cc
  length_of (x ∷ xs) (y ∷ ys) e = ap (λ n. suc n) (length_of xs ys cc)

  pub length-Perm : {xs ys : List A} → Perm xs ys → length xs ≡ length ys
  length-Perm {xs} {ys} p = length_of xs ys (Perm.length-eq p)

  pub perm_swap_right : (xs ys zs : List A) → Perm ((xs ++ ys) ++ zs) ((xs ++ zs) ++ ys)
  perm_swap_right xs ys zs =
      rw (append_assoc, append_assoc) (Perm.append_left xs (perm_append_comm ys zs))

  pub perm_swap_left : (xs ys zs : List A) → Perm (xs ++ (ys ++ zs)) (ys ++ (xs ++ zs))
  perm_swap_left xs ys zs =
      rw (← append_assoc, ← append_assoc) (Perm.append_right zs (perm_append_comm xs ys))

  -- lists that stand beside
  pub perm_frame_right :
      (a b q q' g r : List A)
      → Perm (a ++ q) (g ++ (b ++ q'))
      → Perm ((a ++ r) ++ q) (g ++ ((b ++ r) ++ q'))
  perm_frame_right a b q q' g r p = Perm.trans (perm_swap_right a r q) (
      Perm.trans (Perm.append_right r p)
        (rw (append_assoc g (b ++ q') r) (Perm.append_left g (perm_swap_right b q' r))))

  pub perm_frame_left :
      (a b q q' g r : List A)
      → Perm (a ++ q) (g ++ (b ++ q'))
      → Perm ((r ++ a) ++ q) (g ++ ((r ++ b) ++ q'))
  perm_frame_left a b q q' g r p =
      rw (append_assoc r a q, append_assoc r b q')
        (Perm.trans (Perm.append_left r p) (perm_swap_left r g (b ++ q')))
