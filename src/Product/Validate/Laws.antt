-- ===== src/Product/Validate/Laws.antt =====
-- `Validate` accepts a spec exactly when the spec satisfies an independent list of conditions.
use scale_operator.Prelude.{
  ℕ, suc, String, ◌≡◌, refl, ◌↔◌, Bool, true, false, ◌||◌, List, [], ◌∷◌, ◌++◌, map, arith, All,
  nat_eq, string_eq, contains, Dict, is_some, keys, lookup, ℤ, pos, negsuc, ◌≤ℤ◌, int_eq,
}
use scale_operator.Product.Types.{
  entries, MappingRuleSpec, LimitSpec, PricingRuleSpec, ApplicationPlanSpec, ProductSpec,
  find_metric_or_method,
}
use scale_operator.Product.Overlap.Laws.{is_negative}
use scale_operator.Product.Validate.{
  FieldError, check_unique, check_mapping_rules, errors_at, limit_key, check_periods, each_plan,
  check_ranges, overlap_error,
}

pub append-eq-nil {ℓ} : {A : Type ℓ} (xs ys : List A) → (xs ++ ys ≡ []) ↔ ((xs ≡ []) × (ys ≡ []))
append-eq-nil [] ys = (λ h. (refl, h), λ h. h.1)
append-eq-nil (x ∷ xs) ys = (λ h. cc, λ h. cc h.0)

-- Each value differs from the ones seen before it and from those of the list before it.
abbrev pub AreFresh : List String → List String → Type 0
AreFresh seen [] = Unit
AreFresh seen (x ∷ xs) = (contains seen x ≡ false) × AreFresh (x ∷ seen) xs

-- Each name of a map differs from the keys seen before it and from those of the entries before it.
abbrev pub NamesFresh : {V : Type 0} → (V → String) → List String → Dict String V → Type 0
NamesFresh name seen [] = Unit
NamesFresh name seen ((k, v) ∷ m) = (contains seen (name v) ≡ false) × NamesFresh name (k ∷ seen) m

abbrev pub seen_keys : {V : Type 0} → List String → Dict String V → List String
seen_keys seen [] = seen
seen_keys seen ((k, _) ∷ m) = seen_keys (k ∷ seen) m

pub names_lem :
    {V : Type 0} (name : V → String) (err : String → FieldError) (seen : List String)
    (m : Dict String V)
    → (((check_unique (λ _ v. name v) err seen m).0 ≡ []) ↔ NamesFresh name seen m)
      × (NamesFresh name seen m → (check_unique (λ _ v. name v) err seen m).1 ≡ seen_keys seen m)
unfolding check_unique
names_lem name err seen [] = ((λ _. tt, λ _. refl), λ _. refl)
names_lem name err seen ((k, v) ∷ m) = ground (arith, names_lem name err (k ∷ seen) m)

pub keys_lem :
    {V : Type 0} (err : String → FieldError) (seen : List String) (m : Dict String V)
    → (((check_unique (λ k _. k) err seen m).0 ≡ []) ↔ AreFresh seen (keys m))
      × (AreFresh seen (keys m) → (check_unique (λ k _. k) err seen m).1 ≡ seen_keys seen m)
unfolding check_unique
keys_lem err seen [] = ((λ _. tt, λ _. refl), λ _. refl)
keys_lem err seen ((k, v) ∷ m) = ground (arith, keys_lem err (k ∷ seen) m)

pub mapping_rules_lem :
    (p : ProductSpec) (i : ℕ) (rules : List MappingRuleSpec)
    → (check_mapping_rules p i rules ≡ [])
      ↔ All
          (λ (r : MappingRuleSpec).
            (is_some (lookup r.metric_method_ref (entries p.metrics))
              || is_some (lookup r.metric_method_ref p.methods))
            ≡ true)
          rules
unfolding check_mapping_rules find_metric_or_method
mapping_rules_lem p i [] = (λ _. tt, λ _. refl)
mapping_rules_lem p i (r ∷ rules) = ground (arith, mapping_rules_lem p (suc i) rules)

pub errors_at_lem :
    {A : Type 0} (bad : A → Bool) (err : ℕ → FieldError) (i : ℕ) (xs : List A)
    → (errors_at bad (λ j. err j ∷ []) i xs ≡ []) ↔ All (λ x. bad x ≡ false) xs
errors_at_lem bad err i [] = (λ _. tt, λ _. refl)
errors_at_lem bad err i (x ∷ xs) = ground (arith, errors_at_lem bad err (suc i) xs)

pub periods_lem :
    (plan : String) (seen : List String) (i : ℕ) (limits : List LimitSpec)
    → (check_periods plan seen i limits ≡ []) ↔ AreFresh seen (map limit_key limits)
unfolding check_periods
periods_lem plan seen i [] = (λ _. tt, λ _. refl)
periods_lem plan seen i (l ∷ limits) =
    ground (arith, periods_lem plan (limit_key l ∷ seen) (suc i) limits)

pub ranges_lem :
    (fails : PricingRuleSpec → Bool) (plan : String) (i : ℕ) (rules : List PricingRuleSpec)
    → (check_ranges fails plan i rules ≡ [])
      ↔ All (λ (r : PricingRuleSpec). r.from_value ≤ℤ r.to_value) rules
unfolding check_ranges
ranges_lem fails plan i [] = (λ _. tt, λ _. refl)
ranges_lem fails plan i (r ∷ rules) = ground (arith, ranges_lem fails plan (suc i) rules)

pub overlap_lem :
    (fails : PricingRuleSpec → Bool) (plan : String) (rules : List PricingRuleSpec) (i : ℤ)
    → (overlap_error fails plan rules i ≡ []) ↔ (is_negative i ≡ true)
unfolding overlap_error
overlap_lem fails plan rules (pos i) = ground arith
overlap_lem fails plan rules (negsuc i) = ground arith

abbrev pub AllPlans : (ApplicationPlanSpec → Type 0) → Dict String ApplicationPlanSpec → Type 0
AllPlans P [] = Unit
AllPlans P ((_, plan) ∷ plans) = P plan × AllPlans P plans

pub each_plan_lem :
    (check : String → ApplicationPlanSpec → List FieldError) (P : ApplicationPlanSpec → Type 0)
    → ((k : String) (plan : ApplicationPlanSpec) → (check k plan ≡ []) ↔ P plan)
    → (plans : Dict String ApplicationPlanSpec) → (each_plan check plans ≡ []) ↔ AllPlans P plans
each_plan_lem check P each [] = (λ _. tt, λ _. refl)
each_plan_lem check P each ((k, plan) ∷ plans) = (
  λ h.
      let both = (append-eq-nil (check k plan) (each_plan check plans)).0 h in
      ((each k plan).0 both.0, (each_plan_lem check P each plans).0 both.1),
  λ h.
      (append-eq-nil (check k plan) (each_plan check plans)).1
        ((each k plan).1 h.0, (each_plan_lem check P each plans).1 h.1),
)
