-- ===== src/Product/Validate.antt =====
-- `Product.Validate` of apis/capabilities/v1beta1/product_types.go. An error holds the place that
-- its field path names; its text is not modelled. `marshal_fails` says whether `json.Marshal` returns
-- an error for a rule.
pub mod Laws
pub mod Accepts
pub mod FriendlyNames
use scale_operator.Prelude.{
  ℕ, suc, String, Bool, false, not, none, some, List, [], ◌∷◌, ◌++◌, nat_beq, if◌then◌else◌, length,
  get_elem?, nat_eq, string_eq, contains, Dict, is_some, lookup, ℤ, pos, negsuc, ltb_ℤ, int_eq,
}
use Prim.Native.String.{◌++◌ as ◌++ₛ◌}
use scale_operator.Product.Types.{
  MetricSpec, MethodSpec, MappingRuleSpec, LimitSpec, PricingRuleSpec, ApplicationPlanSpec,
  ProductSpec, entries, ref_string, find_metric_or_method,
}
use scale_operator.Product.Overlap.{detect_overlapping_pricing_rule_ranges}

-- A name is a map key or a plan's system name, a number an index.
pub data FieldError : Type 0 where
  metrics_required : FieldError
  hits_missing : FieldError
  metric_system_name : String → FieldError
  method_system_name : String → FieldError
  metric_name : String → FieldError
  method_name : String → FieldError
  mapping_rule_ref : ℕ → FieldError
  limit_ref : String → ℕ → FieldError
  limit_period : String → ℕ → FieldError
  pricing_rule_ref : String → ℕ → FieldError
  pricing_rule_range : String → ℕ → FieldError
  pricing_rule_overlap : String → ℕ → FieldError
  internal_error : String → ℕ → FieldError

unfoldable pub check_hits : ProductSpec → List FieldError
check_hits p =
    if nat_beq (length (entries p.metrics)) 0
    then metrics_required ∷ []
    else if is_some (lookup "hits" (entries p.metrics))
    then []
    else hits_missing ∷ []

-- One of the four loops over a map that fill a set of names: `probe` is what is looked up in the
-- set, and the entry's key is what is added. The set comes back too.
unfoldable pub check_unique :
    {V : Type 0}
    → (String → V → String)
    → (String → FieldError)
    → List String
    → Dict String V
    → List FieldError × List String
check_unique probe err seen [] = ([], seen)
check_unique probe err seen ((k, v) ∷ m) =
    let repeated = check_unique probe err seen m in
    let fresh = check_unique probe err (k ∷ seen) m in
    if contains seen (probe k v) then (err k ∷ repeated.0, repeated.1) else fresh

unfoldable pub check_system_names : ProductSpec → List FieldError
unfolding check_unique
check_system_names p =
    let (errors, seen) =
      check_unique (λ k (_ : MetricSpec). k) metric_system_name [] (entries p.metrics) in
    errors ++ (check_unique (λ k (_ : MethodSpec). k) method_system_name seen p.methods).0

-- `metricFriendlyNameMap` is filled with system names, as in the source.
unfoldable pub check_friendly_names : ProductSpec → List FieldError
unfolding check_unique
check_friendly_names p =
    let (errors, seen) =
      check_unique (λ _ (m : MetricSpec). m.name) metric_name [] (entries p.metrics) in
    errors ++ (check_unique (λ _ (m : MethodSpec). m.name) method_name seen p.methods).0

pub check_mapping_rules : ProductSpec → ℕ → List MappingRuleSpec → List FieldError
check_mapping_rules p i [] = []
check_mapping_rules p i (r ∷ rules) =
    let rest = check_mapping_rules p (suc i) rules in
    if find_metric_or_method p r.metric_method_ref then rest else mapping_rule_ref i ∷ rest

-- A reference without a backend must be a metric or a method of the product.
unfoldable pub is_dangling : ProductSpec → PricingRuleSpec → Bool
is_dangling p r = elim r.metric_method_ref.backend_system_name [
  | none ↦ not (find_metric_or_method p r.metric_method_ref.system_name)
  | some _ ↦ false
]

unfoldable pub is_dangling_limit : ProductSpec → LimitSpec → Bool
is_dangling_limit p l = elim l.metric_method_ref.backend_system_name [
  | none ↦ not (find_metric_or_method p l.metric_method_ref.system_name)
  | some _ ↦ false
]

-- The errors of a loop over a list, from an index on.
abbrev pub errors_at {ℓ} :
    {A : Type ℓ} → (A → Bool) → (ℕ → List FieldError) → ℕ → List A → List FieldError
errors_at bad err i [] = []
errors_at bad err i (x ∷ xs) =
    if bad x then err i ++ errors_at bad err (suc i) xs else errors_at bad err (suc i) xs

-- `fmt.Sprintf("%s:%s", limitSpec.Period, limitSpec.MetricMethodRef.String())`
unfoldable pub limit_key : LimitSpec → String
unfolding ref_string
limit_key l = l.period ++ₛ (":" ++ₛ ref_string l.metric_method_ref)

pub check_periods : String → List String → ℕ → List LimitSpec → List FieldError
check_periods plan seen i [] = []
check_periods plan seen i (l ∷ limits) =
    let repeated = check_periods plan seen (suc i) limits in
    let fresh = check_periods plan (limit_key l ∷ seen) (suc i) limits in
    if contains seen (limit_key l) then limit_period plan i ∷ repeated else fresh

-- The loop over the plans, for one check of a plan.
abbrev pub each_plan :
    (String → ApplicationPlanSpec → List FieldError)
    → Dict String ApplicationPlanSpec
    → List FieldError
each_plan check [] = []
each_plan check ((k, plan) ∷ plans) = check k plan ++ each_plan check plans

module _ (marshal_fails : PricingRuleSpec → Bool) where
  range_error : String → ℕ → PricingRuleSpec → List FieldError
  range_error plan i r =
      if marshal_fails r
      then internal_error plan i ∷ pricing_rule_range plan i ∷ []
      else pricing_rule_range plan i ∷ []

  pub check_ranges : String → ℕ → List PricingRuleSpec → List FieldError
  unfolding range_error
  check_ranges plan i [] = []
  check_ranges plan i (r ∷ rules) =
      let rest = check_ranges plan (suc i) rules in
      if ltb_ℤ r.to_value r.from_value then range_error plan i r ++ rest else rest

  -- The index is in range, since it was found by a search in the list.
  pub overlap_error : String → List PricingRuleSpec → ℤ → List FieldError
  overlap_error plan rules (negsuc _) = []
  overlap_error plan rules (pos i) =
      if elim (get_elem? rules i) [ none ↦ false | some r ↦ marshal_fails r ]
      then internal_error plan i ∷ pricing_rule_overlap plan i ∷ []
      else pricing_rule_overlap plan i ∷ []

  -- `reorder` is the order of iteration over the map of rules by metric.
  unfoldable pub validate :
      ((V : Type 0) → Dict String V → Dict String V) → ProductSpec → List FieldError
  unfolding check_mapping_rules check_periods check_ranges overlap_error
  validate reorder p =
      check_hits p
      ++ (check_system_names p
          ++ (check_friendly_names p
              ++ (check_mapping_rules p 0 p.mapping_rules
                  ++ (each_plan
                        (λ k plan.
                          errors_at (is_dangling_limit p) (λ i. limit_ref k i ∷ []) 0 plan.limits)
                        p.application_plans
                      ++ (each_plan (λ k plan. check_periods k [] 0 plan.limits) p.application_plans
                          ++ (each_plan
                                (λ k plan.
                                  errors_at (is_dangling p) (λ i. pricing_rule_ref k i ∷ []) 0
                                    plan.pricing_rules)
                                p.application_plans
                              ++ (each_plan (λ k plan. check_ranges k 0 plan.pricing_rules)
                                    p.application_plans
                                  ++ each_plan
                                      (λ k plan. overlap_error k plan.pricing_rules (
                                        detect_overlapping_pricing_rule_ranges reorder
                                          plan.pricing_rules))
                                      p.application_plans)))))))
