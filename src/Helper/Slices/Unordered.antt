-- ===== src/Helper/Slices/Unordered.antt =====
-- `StringSliceEqualWithoutOrder` decides whether two slices hold the same values, as often.
use scale_operator.Prelude.{
  ℕ, suc, ◌+◌, ◌-◌, ◌<◌, ◌≡◌, refl, ◌≢◌, ◌↔◌, inl, inr, true, none, some, List, [], ◌∷◌, arith,
  nat_beq, if◌then◌else◌, Option-cases, length, Eq, ◌==◌, ==_iff, nat_eq, string_eq, count, Dict,
  lookup, lookup-insert, lookup-erase, int_eq,
}
use scale_operator.Helper.Slices.{
  amount, increment, tally, decrement, consume, string_slice_equal_without_order,
}

module _ {ℓ} {A : Type ℓ} ⦃e : Eq A⦄ where
  -- No value is expected 0 times.
  abbrev Positive : Dict A ℕ → Type ℓ
  Positive d = (a : A) → lookup a d ≢ some 0

  amount-increment :
      (x a : A) (d : Dict A ℕ)
      → amount a (increment x d) ≡ (if x == a then suc (amount a d) else amount a d)
  unfolding increment
  amount-increment x a d = ground (arith, lookup-insert x a (suc (amount x d)) d, ==_iff x a)

  increment-Positive : (x : A) (d : Dict A ℕ) → Positive d → Positive (increment x d)
  unfolding increment
  increment-Positive x d p a h =
      ground (arith, lookup-insert x a (suc (amount x d)) d, ==_iff x a, p a)

  amount-tally :
      (xs : List A) (a : A) (d : Dict A ℕ) → amount a (tally xs d) ≡ count a xs + amount a d
  unfolding tally
  amount-tally [] a d = omega arith
  amount-tally (x ∷ xs) a d =
      ground
        (arith, amount-tally xs a (increment x d), amount-increment x a d, ==_iff x a, ==_iff a x)

  tally-Positive : (xs : List A) (d : Dict A ℕ) → Positive d → Positive (tally xs d)
  unfolding tally
  tally-Positive [] d p = p
  tally-Positive (x ∷ xs) d p = tally-Positive xs (increment x d) (increment-Positive x d p)

  amount-decrement :
      (y a : A) (n : ℕ) (d : Dict A ℕ)
      → lookup y d ≡ some n
      → n ≢ 0
      → (if y == a then suc (amount a (decrement y n d)) else amount a (decrement y n d))
        ≡ amount a d
  unfolding decrement
  amount-decrement y a n d h ne =
      ground (arith, lookup-insert y a (n - 1) d, lookup-erase y a d, ==_iff y a)

  decrement-Positive : (y : A) (n : ℕ) (d : Dict A ℕ) → Positive d → Positive (decrement y n d)
  unfolding decrement
  decrement-Positive y n d p a h =
      ground (arith, lookup-insert y a (n - 1) d, lookup-erase y a d, ==_iff y a, p a)

  consume-some :
      (ys : List A) (d : Dict A ℕ) {d' : Dict A ℕ}
      → Positive d
      → consume ys d ≡ some d'
      → Positive d' × ((a : A) → amount a d ≡ count a ys + amount a d')
  unfolding consume
  consume-some [] d {d'} p h =
      let same : d ≡ d' = cc in (λ a z. p a (rw same z), λ a. rw same (omega arith))
  consume-some (y ∷ ys) d {d'} p h = elim (Option-cases (lookup y d)) [
    | inl missing ↦ cc
    | inr (n, found) ↦
        let next : consume ys (decrement y n d) ≡ some d' = ground arith in
        let rest = consume-some ys (decrement y n d) (decrement-Positive y n d p) next in
        (
          rest.0,
          λ a.
              ground (arith, rest.1 a, amount-decrement y a n d found, p y, ==_iff y a, ==_iff a y),
        )
  ]

  consume-none :
      (ys : List A) (d : Dict A ℕ)
      → Positive d
      → consume ys d ≡ none
      → (a : A) × (amount a d < count a ys)
  unfolding consume
  consume-none [] d p h = cc
  consume-none (y ∷ ys) d p h = elim (Option-cases (lookup y d)) [
    | inl missing ↦ (y, ground (arith, ==_iff y y))
    | inr (n, found) ↦
        let next : consume ys (decrement y n d) ≡ none = ground arith in
        let rest = consume-none ys (decrement y n d) (decrement-Positive y n d p) next in
        (
          rest.0,
          ground (
            arith,
            rest.1,
            amount-decrement y rest.0 n d found,
            p y,
            ==_iff y rest.0,
            ==_iff rest.0 y,
          ),
        )
  ]

  remove_one : A → List A → List A
  remove_one a [] = []
  remove_one a (x ∷ xs) = if a == x then xs else x ∷ remove_one a xs

  remove_one_lem :
      (a b : A) (xs : List A)
      → count a xs ≢ 0
      → (length xs ≡ suc (length (remove_one a xs)))
        × (count b xs
            ≡ (if b == a then suc (count b (remove_one a xs)) else count b (remove_one a xs)))
  unfolding remove_one
  remove_one_lem a b [] h = absurd (h refl)
  remove_one_lem a b (x ∷ xs) h =
      ground (arith, remove_one_lem a b xs, ==_iff a x, ==_iff b x, ==_iff b a)

  length-eq_of_count :
      (xs ys : List A) → ((a : A) → count a xs ≡ count a ys) → length xs ≡ length ys
  length-eq_of_count [] [] h = refl
  length-eq_of_count [] (y ∷ ys) h = ground (arith, h y, ==_iff y y)
  length-eq_of_count (x ∷ xs) ys h =
      let present : count x ys ≢ 0 = ground (arith, h x, ==_iff x x) in
      let rest =
        length-eq_of_count xs (remove_one x ys)
          (λ a. ground (arith, h a, remove_one_lem x a ys present)) in
      ground (arith, rest, remove_one_lem x x ys present)

  nothing_expected : (d : Dict A ℕ) → Positive d → ((a : A) → amount a d ≡ 0) → d ≡ []
  nothing_expected [] p h = refl
  nothing_expected ((k, n) ∷ d) p h = ground (arith, p k, h k, ==_iff k k)

  nil_of_length : (d : Dict A ℕ) → nat_beq (length d) 0 ≡ true → d ≡ []
  nil_of_length [] h = refl
  nil_of_length (x ∷ d) h = absurd (ground arith)

  counts_of_true :
      (x y : List A) → string_slice_equal_without_order x y ≡ true → (a : A) → count a x ≡ count a y
  unfolding string_slice_equal_without_order
  counts_of_true x y h a = elim (Option-cases (consume y (tally x []))) [
    | inl early ↦ absurd (ground arith)
    | inr (d, done) ↦
        let empty : d ≡ [] = nil_of_length d (ground arith) in
        let left = consume-some y (tally x []) (tally-Positive x [] (λ b z. cc)) done in
        ground (arith, left.1 a, amount-tally x a [], empty)
  ]

  true_of_counts :
      (x y : List A)
      → ((a : A) → count a x ≡ count a y)
      → string_slice_equal_without_order x y ≡ true
  unfolding string_slice_equal_without_order
  true_of_counts x y h = elim (Option-cases (consume y (tally x []))) [
    | inl early ↦
        let (a, short) = consume-none y (tally x []) (tally-Positive x [] (λ b z. cc)) early in
        absurd (ground (arith, short, h a, amount-tally x a []))
    | inr (d, done) ↦
        let (positive, amounts) =
          consume-some y (tally x []) (tally-Positive x [] (λ b z. cc)) done in
        let empty : d ≡ [] =
          nothing_expected d positive (λ a. ground (arith, amounts a, h a, amount-tally x a [])) in
        ground (arith, length-eq_of_count x y h, done, empty)
  ]

  -- The comparison succeeds exactly when every value occurs equally often in both slices.
  pub string_slice_equal_without_order_lem :
      (x y : List A)
      → (string_slice_equal_without_order x y ≡ true) ↔ ((a : A) → count a x ≡ count a y)
  string_slice_equal_without_order_lem x y = (counts_of_true x y, true_of_counts x y)
