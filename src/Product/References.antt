-- ===== src/Product/References.antt =====
-- `Product.RemoveBackendReferences` of apis/capabilities/v1beta1/product_types.go, with the sharing
-- of slices: `append(s[:i], s[i+1:]...)` writes into the array that the loop is reading.
pub mod Laws
use scale_operator.Prelude.{
  ℕ, zero, suc, ◌-◌, String, Bool, true, false, ◌||◌, none, some, List, [], ◌∷◌, if◌then◌else◌,
  length, take, ◌==◌, nat_eq, string_eq, Dict, is_some, lookup, erase, int_eq,
}
use scale_operator.Product.Types.{
  StringPointer, MetricMethodRefSpec, LimitSpec, PricingRuleSpec, ApplicationPlanSpec,
  BackendUsageSpec, ProductSpec,
}

module _ {ℓ} {A : Type ℓ} where
  -- An array after its elements from the second on have been copied one place to the left: the
  -- last place keeps its old contents.
  close_gap : List A → List A
  close_gap [] = []
  close_gap (x ∷ []) = x ∷ []
  close_gap (x ∷ y ∷ ys) = y ∷ close_gap (y ∷ ys)

  -- The loop from index i on, over the part of the array from i on: whether an element was
  -- removed, and that part afterwards. A removal at i closes the gap in the array, and the loop
  -- goes on at i + 1. The number is of the rounds that are left.
  remove_loop : (A → Bool) → ℕ → List A → Bool × List A
  unfolding close_gap
  remove_loop p zero s = (false, s)
  remove_loop p (suc k) [] = (false, [])
  remove_loop p (suc k) (x ∷ []) = (p x, x ∷ [])
  remove_loop p (suc k) (x ∷ y ∷ ys) =
      let shifted = remove_loop p k (close_gap (y ∷ ys)) in
      let kept = remove_loop p k (y ∷ ys) in
      if p x then (true, y ∷ shifted.1) else (kept.0, x ∷ kept.1)

  -- The slice that the last removal assigned is one shorter than the array.
  unfoldable pub remove_rules : (A → Bool) → List A → Bool × List A
  unfolding remove_loop
  remove_rules p s =
      let (removed, array) = remove_loop p (length s) s in
      if removed then (true, take (length s - 1) array) else (false, s)

-- Whether a reference names the backend.
unfoldable pub refers_to : String → MetricMethodRefSpec → Bool
refers_to backend ref = elim ref.backend_system_name [ none ↦ false | some p ↦ p.value == backend ]

unfoldable pub remove_plan_references : String → ApplicationPlanSpec → Bool × ApplicationPlanSpec
unfolding remove_rules refers_to
remove_plan_references backend plan =
    let (rule_removed, rules) =
      remove_rules (λ (r : PricingRuleSpec). refers_to backend r.metric_method_ref)
        plan.pricing_rules in
    let (limit_removed, limits) =
      remove_rules (λ (l : LimitSpec). refers_to backend l.metric_method_ref) plan.limits in
    (rule_removed || limit_removed, record plan { pricing_rules = rules; limits = limits })

unfoldable pub remove_plans_references :
    String → Dict String ApplicationPlanSpec → Bool × Dict String ApplicationPlanSpec
unfolding remove_plan_references
remove_plans_references backend [] = (false, [])
remove_plans_references backend ((k, plan) ∷ plans) =
    let (removed, plan') = remove_plan_references backend plan in
    let (others, plans') = remove_plans_references backend plans in
    (removed || others, (k, plan') ∷ plans')

unfoldable pub remove_backend_references : String → ProductSpec → Bool × ProductSpec
unfolding remove_plans_references
remove_backend_references backend p =
    let (removed, plans) = remove_plans_references backend p.application_plans in
    (
      is_some (lookup backend p.backend_usages) || removed,
      record p { backend_usages = erase backend p.backend_usages; application_plans = plans },
    )
