-- ===== src/Helper/Slices/Laws.antt =====
-- The set operations on slices.
use scale_operator.Prelude.{
  ◌≤◌, ◌≡◌, refl, ◌↔◌, Bool, false, not, ◌&&◌, none, some, List, [], ◌∷◌, arith, if◌then◌else◌,
  length, get_elem?, select, Eq, ==_iff, nat_eq, string_eq, contains, int_eq,
}
use scale_operator.Helper.Slices.{
  array_string_difference, array_string_intersection, array_find, array_contains,
}

module _ {ℓ} {A : Type ℓ} ⦃e : Eq A⦄ where
  contains-select :
      (p : A → Bool) (xs : List A) (a : A) → contains (select p xs) a ≡ (p a && contains xs a)
  contains-select p [] a = ground arith
  contains-select p (x ∷ xs) a = ground (arith, contains-select p xs a, ==_iff a x)

  pub contains-difference :
      (xs ys : List A) (a : A)
      → contains (array_string_difference xs ys) a ≡ (not (contains ys a) && contains xs a)
  unfolding array_string_difference
  contains-difference xs ys a = contains-select (λ x. not (contains ys x)) xs a

  pub contains-intersection :
      (xs ys : List A) (a : A)
      → contains (array_string_intersection xs ys) a ≡ (contains ys a && contains xs a)
  unfolding array_string_intersection
  contains-intersection xs ys a = contains-select (contains ys) xs a

  pub array_contains-eq-contains : (xs : List A) (a : A) → array_contains xs a ≡ contains xs a
  unfolding array_contains
  array_contains-eq-contains [] a = refl
  array_contains-eq-contains (x ∷ xs) a = ground (arith, array_contains-eq-contains xs a)

  -- The index that `ArrayFind` returns holds the value, or is the length if the value is absent,
  -- and it is at most the length.
  pub array_find_lem :
      (xs : List A) (a : A)
      → (array_find xs a ≤ length xs)
        × (get_elem? xs (array_find xs a) ≡ (if contains xs a then some a else none))
        × ((contains xs a ≡ false) ↔ (array_find xs a ≡ length xs))
  unfolding array_find
  array_find_lem [] a = ground arith
  array_find_lem (x ∷ xs) a = ground (arith, array_find_lem xs a, ==_iff a x)
