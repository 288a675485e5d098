-- ===== src/Helper/Slices.antt =====
-- pkg/helper/slice_string_utils.go, over any type with an equality. A Go map that is used as a
-- set is the list of its keys, and `diff` of `StringSliceEqualWithoutOrder` is a dictionary.
pub mod Laws
pub mod Unordered
use scale_operator.Prelude.{
  ℕ, suc, ◌-◌, Bool, true, false, not, Option, none, some, List, [], ◌∷◌, nat_beq, if◌then◌else◌,
  length, select, Eq, ◌==◌, nat_eq, string_eq, contains, Dict, lookup, insert, erase, int_eq,
}

module _ {ℓ} {A : Type ℓ} ⦃e : Eq A⦄ where
  unfoldable pub array_string_difference : List A → List A → List A
  array_string_difference a b = select (λ x. not (contains b x)) a

  unfoldable pub array_string_intersection : List A → List A → List A
  array_string_intersection a b = select (contains b) a

  unfoldable pub array_find : List A → A → ℕ
  array_find [] x = 0
  array_find (n ∷ a) x = if x == n then 0 else suc (array_find a x)

  unfoldable pub array_contains : List A → A → Bool
  array_contains [] x = false
  array_contains (n ∷ a) x = if x == n then true else array_contains a x

  -- A missing key reads as 0.
  abbrev pub amount : A → Dict A ℕ → ℕ
  amount a diff = elim (lookup a diff) [ none ↦ 0 | some n ↦ n ]

  -- `diff[_x]++`
  increment : A → Dict A ℕ → Dict A ℕ
  increment x diff = insert x (suc (amount x diff)) diff

  tally : List A → Dict A ℕ → Dict A ℕ
  unfolding increment
  tally [] diff = diff
  tally (x ∷ xs) diff = tally xs (increment x diff)

  -- `diff[_y]--`, and the entry is deleted when it reaches 0.
  decrement : A → ℕ → Dict A ℕ → Dict A ℕ
  decrement y n diff = if nat_beq (n - 1) 0 then erase y diff else insert y (n - 1) diff

  -- The second loop; `none` is its early `return false`.
  consume : List A → Dict A ℕ → Option (Dict A ℕ)
  unfolding decrement
  consume [] diff = some diff
  consume (y ∷ ys) diff = elim (lookup y diff) [
    | none ↦ none
    | some n ↦ consume ys (decrement y n diff)
  ]

  unfoldable pub string_slice_equal_without_order : List A → List A → Bool
  unfolding tally consume
  string_slice_equal_without_order x y =
      if not (nat_beq (length x) (length y))
      then false
      else elim (consume y (tally x [])) [ none ↦ false | some diff ↦ nat_beq (length diff) 0 ]
