-- ===== src/Prelude/Equality.antt =====
-- Types with a Boolean equality, Go's `==` on comparable values and `reflect.DeepEqual`.
use mathlib.Core.List.{List, [], ◌∷◌, ◌++◌}
use mathlib.Core.Bool.{Bool, true, false, ◌||◌}
use mathlib.Core.Logic.{◌↔◌}
use mathlib.Core.Path.{◌≡◌, refl}
use native.Mathlib.Omega.{arith}
use text.Mathlib.TextEquality.{eq_iff}
use text.Mathlib.Text.{◌==◌ as equal_text}
use Prim.Native.Nat.{ℕ, suc}
use Prim.Native.String.{String}
use scale_operator.Prelude.Tests.{if◌then◌else◌, nat_beq, nat_beq_iff}

pub record Eq {ℓ} (T : Type ℓ) : Type ℓ where
  pub same : T → T → Bool
  pub same_iff : (x y : T) → (same x y ≡ true) ↔ (x ≡ y)

instance abbrev pub nat_eq : Eq ℕ
nat_eq = record { same = nat_beq; same_iff = nat_beq_iff }

instance abbrev pub string_eq : Eq String
string_eq = record { same = equal_text; same_iff = eq_iff }

module _ {ℓ} {T : Type ℓ} ⦃comparable : Eq T⦄ where
  infix 50 ◌==◌
  abbrev pub ◌==◌ : T → T → Bool
  ◌==◌ = comparable.same

  pub ==_iff : (x y : T) → ((x == y) ≡ true) ↔ (x ≡ y)
  ==_iff x y = comparable.same_iff x y

  pub ==_refl : (x : T) → (x == x) ≡ true
  ==_refl x = (==_iff x x).1 refl

  -- How often a value occurs in a list, and whether it does.
  abbrev pub count : T → List T → ℕ
  count wanted [] = 0
  count wanted (y ∷ ys) = if wanted == y then suc (count wanted ys) else count wanted ys

  abbrev pub contains : List T → T → Bool
  contains [] wanted = false
  contains (y ∷ ys) wanted = if wanted == y then true else contains ys wanted

  pub contains-append :
      (xs ys : List T) (a : T) → contains (xs ++ ys) a ≡ (contains xs a || contains ys a)
  contains-append [] ys a = refl
  contains-append (x ∷ xs) ys a = ground (arith, contains-append xs ys a)
