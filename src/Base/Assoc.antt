-- ===== src/Base/Assoc.antt =====
-- Go's maps as association lists. A read of a missing key of a map into int gives 0.
use Prim.Native.Nat.{ℕ, ◌+◌, ◌<◌}
use Prim.Native.String.{String}
use mathlib.Core.Path.{◌≡◌, refl}
use mathlib.Core.Logic.{◌↔◌}
use mathlib.Core.Bool.{Bool, true}
use mathlib.Core.Option.{Option, none, some}
use mathlib.Core.List.{List, [], ◌∷◌}
use native.Mathlib.Omega.{arith}
use text.Mathlib.Text.{◌==◌ as str_eq}
use text.Mathlib.TextEquality.{eq_iff as str_eq_iff}
use liveforge.Base.Tests.{◌==◌, ==_iff, if◌then◌else◌}

-- the keys that a map can have
pub record Key (K : Type 0) : Type 0 where
  pub beq : K → K → Bool
  pub beq_iff : (a b : K) → (beq a b ≡ true) ↔ (a ≡ b)

instance abbrev pub string_key : Key String
string_key = record { beq = str_eq; beq_iff = str_eq_iff }

instance abbrev pub number_key : Key ℕ
number_key = record { beq = ◌==◌; beq_iff = ==_iff }

module _ {K : Type 0} ⦃e : Key K⦄ {V : Type 0} where
  unfoldable pub lookup : K → List (K × V) → Option V
  lookup k [] = none
  lookup k ((j, v) ∷ m) = if e.beq j k then some v else lookup k m

  unfoldable pub insert : K → V → List (K × V) → List (K × V)
  insert k v [] = (k, v) ∷ []
  insert k v ((j, w) ∷ m) = if e.beq j k then (k, v) ∷ m else (j, w) ∷ insert k v m

  unfoldable pub delete : K → List (K × V) → List (K × V)
  delete k [] = []
  delete k ((j, w) ∷ m) = let rest = delete k m in if e.beq j k then rest else (j, w) ∷ rest

  pub lookup-insert :
      (k j : K) (v : V) (m : List (K × V))
      → lookup j (insert k v m) ≡ (if e.beq k j then some v else lookup j m)
  unfolding lookup insert
  lookup-insert k j v [] = refl
  lookup-insert k j v ((i, w) ∷ m) =
      ground (arith, e.beq_iff k j, e.beq_iff i k, e.beq_iff i j, lookup-insert k j v m)

  pub lookup-delete :
      (k j : K) (m : List (K × V))
      → lookup j (delete k m) ≡ (if e.beq k j then none else lookup j m)
  unfolding lookup delete
  lookup-delete k j [] = ground arith
  lookup-delete k j ((i, w) ∷ m) =
      ground (arith, lookup-delete k j m, e.beq_iff i k, e.beq_iff i j, e.beq_iff k j)

-- `m[k]` of a map into int
abbrev pub at_zero : Option ℕ → ℕ
at_zero none = 0
at_zero (some n) = n

module _ {K : Type 0} ⦃e : Key K⦄ where
  unfoldable pub count : K → List (K × ℕ) → ℕ
  unfolding lookup
  count k m = at_zero (lookup k m)

  abbrev pub total : List (K × ℕ) → ℕ
  total [] = 0
  total ((k, v) ∷ m) = v + total m

  -- every key stands once, with a count above 0
  abbrev pub IsCount : List (K × ℕ) → Type 0
  IsCount [] = Unit
  IsCount ((k, v) ∷ m) = (0 < v) × (lookup k m ≡ none) × IsCount m

  pub total-insert :
      (k : K) (v : ℕ) (m : List (K × ℕ)) → total (insert k v m) + count k m ≡ total m + v
  unfolding insert count
  total-insert k v [] = omega arith
  total-insert k v ((j, w) ∷ m) = ground (arith, total-insert k v m)

  delete_missing : (k : K) (m : List (K × ℕ)) → lookup k m ≡ none → delete k m ≡ m
  unfolding lookup delete
  delete_missing k [] h = refl
  delete_missing k ((j, w) ∷ m) h = ground (arith, delete_missing k m)

  pub total-delete :
      (k : K) (m : List (K × ℕ)) → IsCount m → total (delete k m) + count k m ≡ total m
  unfolding delete count
  total-delete k [] h = omega arith
  total-delete k ((j, w) ∷ m) h =
      ground (arith, total-delete k m, delete_missing j m h.1, e.beq_iff j k)

  pub insert-IsCount :
      (k : K) (v : ℕ) (m : List (K × ℕ)) → 0 < v → IsCount m → IsCount (insert k v m)
  unfolding insert lookup
  insert-IsCount k v [] p h = (p, refl, tt)
  insert-IsCount k v ((j, w) ∷ m) p h =
      ground (arith, h, insert-IsCount k v m p, e.beq_iff j k, e.beq_iff k j, lookup-insert k j v m)

  pub delete-IsCount : (k : K) (m : List (K × ℕ)) → IsCount m → IsCount (delete k m)
  unfolding delete
  delete-IsCount k [] h = tt
  delete-IsCount k ((j, w) ∷ m) h =
      ground (arith, h, delete-IsCount k m, e.beq_iff j k, e.beq_iff k j, lookup-delete k j m)
