-- ===== src/Product/References/Laws.antt =====
-- What `RemoveBackendReferences` removes.
use scale_operator.Prelude.{
  ℕ, zero, suc, ◌+◌, ◌-◌, ◌≤◌, String, ◌≡◌, refl, sym, ap, ◌∙◌, ◌≢◌, ◌↔◌, inl, inr, Bool, false,
  not, List, [], ◌∷◌, arith, Bool-cases, length, take, select, count_by, length-select-not,
  select-not_none, nat_eq, string_eq, Dict, erase, lookup, none, some, ◌==◌, int_eq,
}
use scale_operator.Product.Types.{
  MetricMethodRefSpec, LimitSpec, PricingRuleSpec, ApplicationPlanSpec, ProductSpec,
}
use scale_operator.Product.References.{
  close_gap, remove_loop, remove_rules, refers_to, remove_plan_references, remove_plans_references,
  remove_backend_references,
}

module _ {A : Type 0} (p : A → Bool) where
  length-close_gap : (s : List A) → length (close_gap s) ≡ length s
  unfolding close_gap
  length-close_gap [] = refl
  length-close_gap (x ∷ []) = refl
  length-close_gap (x ∷ y ∷ ys) = ap suc (length-close_gap (y ∷ ys))

  count-close_gap : (s : List A) → count_by p s ≡ 0 → count_by p (close_gap s) ≡ 0
  unfolding close_gap
  count-close_gap [] h = h
  count-close_gap (x ∷ []) h = h
  count-close_gap (x ∷ y ∷ ys) h = ground (arith, count-close_gap (y ∷ ys))

  take-close_gap : (x : A) (s : List A) → take (length s) (close_gap (x ∷ s)) ≡ s
  unfolding close_gap
  take-close_gap x [] = refl
  take-close_gap x (y ∷ ys) = ap (λ t. y ∷ t) (take-close_gap y ys)

  length-remove_loop : (k : ℕ) (s : List A) → length (remove_loop p k s).1 ≡ length s
  unfolding remove_loop
  length-remove_loop zero s = refl
  length-remove_loop (suc k) [] = refl
  length-remove_loop (suc k) (x ∷ []) = refl
  length-remove_loop (suc k) (x ∷ y ∷ ys) = ground (
    arith,
    length-remove_loop k (y ∷ ys),
    length-remove_loop k (close_gap (y ∷ ys)),
    length-close_gap (y ∷ ys),
  )

  remove_loop_none : (k : ℕ) (s : List A) → count_by p s ≡ 0 → remove_loop p k s ≡ (false, s)
  unfolding remove_loop
  remove_loop_none zero s h = refl
  remove_loop_none (suc k) [] h = refl
  remove_loop_none (suc k) (x ∷ []) h = ground arith
  remove_loop_none (suc k) (x ∷ y ∷ ys) h = ground (arith, remove_loop_none k (y ∷ ys))

  removed-remove_loop :
      (k : ℕ) (s : List A) → length s ≤ k → ((remove_loop p k s).0 ≡ false) ↔ (count_by p s ≡ 0)
  unfolding remove_loop
  removed-remove_loop zero [] h = (λ _. refl, λ _. refl)
  removed-remove_loop (suc k) [] h = (λ _. refl, λ _. refl)
  removed-remove_loop zero (x ∷ xs) h = absurd (omega arith)
  removed-remove_loop (suc k) (x ∷ []) h = ground arith
  removed-remove_loop (suc k) (x ∷ y ∷ ys) h = ground (arith, removed-remove_loop k (y ∷ ys))

  -- After the only removal the loop reads the shifted rest, and changes nothing.
  after_removal :
      (k : ℕ) (y : A) (ys : List A)
      → count_by p (y ∷ ys) ≡ 0
      → take (suc (length ys)) (y ∷ (remove_loop p k (close_gap (y ∷ ys))).1)
        ≡ select (λ x. not (p x)) (y ∷ ys)
  after_removal k y ys z =
      rw (remove_loop_none k (close_gap (y ∷ ys)) (count-close_gap (y ∷ ys) z))
        (ap (λ t. y ∷ t) (take-close_gap y ys) ∙ sym (select-not_none p (y ∷ ys) z))

  remove_loop_one :
      (k n : ℕ) (s : List A)
      → length s ≤ k
      → length s ≡ suc n
      → count_by p s ≡ 1
      → take n (remove_loop p k s).1 ≡ select (λ x. not (p x)) s
  unfolding remove_loop
  remove_loop_one k n [] h e one = absurd (omega arith)
  remove_loop_one zero n (x ∷ xs) h e one = absurd (omega arith)
  remove_loop_one (suc k) zero (x ∷ []) h e one = ground arith
  remove_loop_one (suc k) (suc n) (x ∷ []) h e one = absurd (omega arith)
  remove_loop_one (suc k) zero (x ∷ y ∷ ys) h e one = absurd (omega arith)
  remove_loop_one (suc k) (suc n) (x ∷ y ∷ ys) h e one = elim (Bool-cases (p x)) [
    | inl hit ↦
        let size : n ≡ length ys = omega arith in
        rw (hit, size) (after_removal k y ys (ground arith))
    | inr miss ↦
        rw miss (
          ap (λ t. x ∷ t) (remove_loop_one k n (y ∷ ys) (omega arith) (omega arith) (ground arith)))
  ]

  length-take : (n : ℕ) (xs : List A) → n ≤ length xs → length (take n xs) ≡ n
  length-take zero xs h = refl
  length-take (suc n) [] h = absurd (omega arith)
  length-take (suc n) (x ∷ xs) h = ap suc (length-take n xs (omega arith))

  -- Whatever the number of matches, one element fewer is left.
  length-remove_rules : (s : List A) → count_by p s ≢ 0 → length (remove_rules p s).1 + 1 ≡ length s
  unfolding remove_rules
  length-remove_rules [] h = absurd (h refl)
  length-remove_rules (x ∷ xs) h = ground (
    arith,
    removed-remove_loop (length (x ∷ xs)) (x ∷ xs),
    length-remove_loop (length (x ∷ xs)) (x ∷ xs),
    length-take (length (x ∷ xs) - 1) (remove_loop p (length (x ∷ xs)) (x ∷ xs)).1,
  )

  remove_rules_few :
      (s : List A) → count_by p s ≤ 1 → (remove_rules p s).1 ≡ select (λ x. not (p x)) s
  unfolding remove_rules
  remove_rules_few [] h = refl
  remove_rules_few (x ∷ xs) h = ground (
    arith,
    removed-remove_loop (length (x ∷ xs)) (x ∷ xs),
    remove_loop_one (length (x ∷ xs)) (length (x ∷ xs) - 1) (x ∷ xs),
    select-not_none p (x ∷ xs),
  )

  at_most_one : (s : List A) → (remove_rules p s).1 ≡ select (λ x. not (p x)) s → count_by p s ≤ 1
  at_most_one s h = ground (arith, length-remove_rules s, length-select-not p s, ap length h)

  removed-remove_rules : (s : List A) → ((remove_rules p s).0 ≡ false) ↔ (count_by p s ≡ 0)
  unfolding remove_rules
  removed-remove_rules s = ground (arith, removed-remove_loop (length s) s)

  -- The loop drops exactly the rules that refer to the backend if and only if there is at most one
  -- of them, and it reports no removal exactly when there is none.
  pub remove_rules_lem :
      (s : List A)
      → (((remove_rules p s).1 ≡ select (λ x. not (p x)) s) ↔ (count_by p s ≤ 1))
        × (((remove_rules p s).0 ≡ false) ↔ (count_by p s ≡ 0))
  remove_rules_lem s = ((at_most_one s, remove_rules_few s), removed-remove_rules s)

-- A reference that names the backend.
abbrev pub names_backend : String → MetricMethodRefSpec → Bool
names_backend backend ref = elim ref.backend_system_name [
  | none ↦ false
  | some p ↦ p.value == backend
]

-- How many rules or limits of a plan refer to a backend.
abbrev pub rule_references : String → ApplicationPlanSpec → ℕ
rule_references backend plan =
    count_by (λ (r : PricingRuleSpec). names_backend backend r.metric_method_ref) plan.pricing_rules

abbrev pub limit_references : String → ApplicationPlanSpec → ℕ
limit_references backend plan =
    count_by (λ (l : LimitSpec). names_backend backend l.metric_method_ref) plan.limits

-- A plan without what refers to a backend.
abbrev pub cleared : String → ApplicationPlanSpec → ApplicationPlanSpec
cleared backend plan = record plan {
  pricing_rules =
      select (λ (r : PricingRuleSpec). not (names_backend backend r.metric_method_ref))
        plan.pricing_rules;
  limits = select (λ (l : LimitSpec). not (names_backend backend l.metric_method_ref)) plan.limits;
}

remove_plan_references_lem :
    (backend : String) (plan : ApplicationPlanSpec)
    → rule_references backend plan ≤ 1
    → limit_references backend plan ≤ 1
    → (remove_plan_references backend plan).1 ≡ cleared backend plan
unfolding remove_plan_references refers_to
remove_plan_references_lem backend plan hr hl = λ i. record plan {
  pricing_rules =
      ((remove_rules_lem (λ (r : PricingRuleSpec). names_backend backend r.metric_method_ref)
            plan.pricing_rules).0.1
          hr)
        i;
  limits =
      ((remove_rules_lem (λ (l : LimitSpec). names_backend backend l.metric_method_ref)
            plan.limits).0.1
          hl)
        i;
}

-- Every plan mentions the backend in at most one pricing rule and at most one limit.
abbrev pub FewReferences : String → Dict String ApplicationPlanSpec → Type 0
FewReferences backend [] = Unit
FewReferences backend ((_, plan) ∷ plans) =
    (rule_references backend plan ≤ 1)
    × (limit_references backend plan ≤ 1)
    × FewReferences backend plans

abbrev pub cleared_plans :
    String → Dict String ApplicationPlanSpec → Dict String ApplicationPlanSpec
cleared_plans backend [] = []
cleared_plans backend ((k, plan) ∷ plans) = (k, cleared backend plan) ∷ cleared_plans backend plans

remove_plans_references_lem :
    (backend : String) (plans : Dict String ApplicationPlanSpec)
    → FewReferences backend plans
    → (remove_plans_references backend plans).1 ≡ cleared_plans backend plans
unfolding remove_plans_references
remove_plans_references_lem backend [] h = refl
remove_plans_references_lem backend ((k, plan) ∷ plans) h =
    cc (
      remove_plan_references_lem backend plan h.0 h.1,
      remove_plans_references_lem backend plans h.2,
    )

-- No plan mentions the backend.
abbrev pub HasNoReferences : String → Dict String ApplicationPlanSpec → Type 0
HasNoReferences backend [] = Unit
HasNoReferences backend ((_, plan) ∷ plans) =
    (rule_references backend plan ≡ 0)
    × (limit_references backend plan ≡ 0)
    × HasNoReferences backend plans

removed_from_plan :
    (backend : String) (plan : ApplicationPlanSpec)
    → ((remove_plan_references backend plan).0 ≡ false)
      ↔ ((rule_references backend plan ≡ 0) × (limit_references backend plan ≡ 0))
unfolding remove_plan_references refers_to
removed_from_plan backend plan = ground (
  arith,
  (remove_rules_lem (λ (r : PricingRuleSpec). names_backend backend r.metric_method_ref)
      plan.pricing_rules).1,
  (remove_rules_lem (λ (l : LimitSpec). names_backend backend l.metric_method_ref) plan.limits).1,
)

removed_from_plans :
    (backend : String) (plans : Dict String ApplicationPlanSpec)
    → ((remove_plans_references backend plans).0 ≡ false) ↔ HasNoReferences backend plans
unfolding remove_plans_references
removed_from_plans backend [] = (λ _. tt, λ _. refl)
removed_from_plans backend ((k, plan) ∷ plans) =
    ground (arith, removed_from_plan backend plan, removed_from_plans backend plans)

-- Where every plan mentions the backend in at most one pricing rule and at most one limit, exactly
-- the backend's usage and those rules and limits are removed, and nothing else changes. No removal is
-- reported exactly if the backend had no usage and no plan mentioned it.
pub remove_backend_references_lem :
    (backend : String) (p : ProductSpec)
    → FewReferences backend p.application_plans
    → let r = remove_backend_references backend p in
      (r.1 ≡ record p {
        backend_usages = erase backend p.backend_usages;
        application_plans = cleared_plans backend p.application_plans;
      })
      × ((r.0 ≡ false) ↔ (
          (lookup backend p.backend_usages ≡ none) × HasNoReferences backend p.application_plans))
unfolding remove_backend_references
remove_backend_references_lem backend p h = (
  ap
      (λ plans. record p {
        backend_usages = erase backend p.backend_usages;
        application_plans = plans;
      })
      (remove_plans_references_lem backend p.application_plans h),
  ground (arith, removed_from_plans backend p.application_plans),
)
