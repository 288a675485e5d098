-- ===== src/Prelude/Maps.antt =====
-- A Go map as an association list. Reads take the first entry of a key, a write replaces it or
-- adds one at the end, and a delete removes every entry of the key.
use mathlib.Core.Path.{◌≡◌, refl}
use mathlib.Core.Bool.{Bool, true, false}
use mathlib.Core.List.{List, [], ◌∷◌}
use mathlib.Core.Option.{Option, none, some}
use native.Mathlib.Omega.{arith}
use scale_operator.Prelude.Tests.{if◌then◌else◌}
use scale_operator.Prelude.Equality.{Eq, ◌==◌, ==_iff}

abbrev pub Dict {ℓ κ} : Type ℓ → Type κ → Type (ℓ ⊔ κ)
Dict K V = List (K × V)

abbrev pub is_some {ℓ} : {A : Type ℓ} → Option A → Bool
is_some none = false
is_some (some _) = true

module _ {ℓ κ} {K : Type ℓ} {V : Type κ} where
  abbrev pub keys : Dict K V → List K
  keys [] = []
  keys ((k, _) ∷ m) = k ∷ keys m

module _ {ℓ κ} {K : Type ℓ} {V : Type κ} ⦃e : Eq K⦄ where
  abbrev pub erase : K → Dict K V → Dict K V
  erase gone [] = []
  erase gone ((key, value) ∷ rest) =
      if key == gone then erase gone rest else (key, value) ∷ erase gone rest

  abbrev pub insert : K → V → Dict K V → Dict K V
  insert at new [] = (at, new) ∷ []
  insert at new ((key, value) ∷ rest) =
      if key == at then (at, new) ∷ rest else (key, value) ∷ insert at new rest

  abbrev pub lookup : K → Dict K V → Option V
  lookup wanted [] = none
  lookup wanted ((key, value) ∷ rest) = if key == wanted then some value else lookup wanted rest

  pub lookup-insert :
      (at wanted : K) (new : V) (entries : Dict K V)
      → lookup wanted (insert at new entries)
        ≡ (if at == wanted then some new else lookup wanted entries)
  lookup-insert at wanted new [] = refl
  lookup-insert at wanted new ((key, value) ∷ rest) =
      ground (
        arith,
        ==_iff at wanted,
        ==_iff key at,
        ==_iff key wanted,
        lookup-insert at wanted new rest,
      )

  pub lookup-erase :
      (k j : K) (m : Dict K V) → lookup j (erase k m) ≡ (if k == j then none else lookup j m)
  lookup-erase k j [] = ground arith
  lookup-erase k j ((i, w) ∷ m) =
      ground (arith, ==_iff k j, ==_iff i k, ==_iff i j, lookup-erase k j m)
