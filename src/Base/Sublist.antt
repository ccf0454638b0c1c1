-- ===== src/Base/Sublist.antt =====
-- Lists that leave out some of the elements of another one.
use Prim.Native.Nat.{ℕ, zero, suc, ◌≤◌}
use mathlib.Core.Path.{◌≡◌, refl, ap}
use mathlib.Core.List.{List, [], ◌∷◌, ◌++◌}
use native.Mathlib.Omega.{arith}
use liveforge.Base.Lists.{length, take}

pub data IsSublist {ℓ} {A : Type ℓ} : List A → List A → Type ℓ where
  done : IsSublist [] []
  skip : {xs ys : List A} (y : A) → IsSublist xs ys → IsSublist xs (y ∷ ys)
  keep : {xs ys : List A} (x : A) → IsSublist xs ys → IsSublist (x ∷ xs) (x ∷ ys)

module _ {ℓ} {A : Type ℓ} where
  pub IsSublist-empty : (ys : List A) → IsSublist [] ys
  IsSublist-empty [] = done
  IsSublist-empty (y ∷ ys) = skip y (IsSublist-empty ys)

  pub IsSublist-self : (xs : List A) → IsSublist xs xs
  IsSublist-self [] = done
  IsSublist-self (x ∷ xs) = keep x (IsSublist-self xs)

  pub IsSublist-append :
      {xs ys us vs : List A} → IsSublist xs ys → IsSublist us vs → IsSublist (xs ++ us) (ys ++ vs)
  IsSublist-append done q = q
  IsSublist-append (skip y p) q = skip y (IsSublist-append p q)
  IsSublist-append (keep x p) q = keep x (IsSublist-append p q)

  pub IsSublist-append_left :
      {xs ys : List A} → IsSublist xs ys → (zs : List A) → IsSublist xs (ys ++ zs)
  IsSublist-append_left done zs = IsSublist-empty zs
  IsSublist-append_left (skip y p) zs = skip y (IsSublist-append_left p zs)
  IsSublist-append_left (keep x p) zs = keep x (IsSublist-append_left p zs)

  pub IsSublist-trans :
      {ys zs : List A} → IsSublist ys zs → {xs : List A} → IsSublist xs ys → IsSublist xs zs
  IsSublist-trans done p = p
  IsSublist-trans (skip z q) p = skip z (IsSublist-trans q p)
  IsSublist-trans (keep x q) (skip _ p) = skip x (IsSublist-trans q p)
  IsSublist-trans (keep x q) (keep _ p) = keep x (IsSublist-trans q p)

  pub IsSublist-length : {xs ys : List A} → IsSublist xs ys → length xs ≤ length ys
  IsSublist-length done = omega arith
  IsSublist-length (skip y p) = omega (arith, IsSublist-length p)
  IsSublist-length (keep x p) = omega (arith, IsSublist-length p)

  -- One that is as long as the list is the list.
  pub IsSublist-full : {xs ys : List A} → IsSublist xs ys → length ys ≤ length xs → xs ≡ ys
  IsSublist-full done h = refl
  IsSublist-full (skip y p) h = absurd (omega (arith, IsSublist-length p))
  IsSublist-full (keep x p) h = ap (λ l. x ∷ l) (IsSublist-full p (omega arith))

  pub take-IsSublist : (n : ℕ) (xs : List A) → IsSublist (take n xs) xs
  take-IsSublist zero xs = IsSublist-empty xs
  take-IsSublist (suc n) [] = done
  take-IsSublist (suc n) (x ∷ xs) = keep x (take-IsSublist n xs)
