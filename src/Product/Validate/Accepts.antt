-- ===== src/Product/Validate/Accepts.antt =====
-- `Validate` accepts a spec exactly when the spec satisfies an independent list of conditions.
use scale_operator.Prelude.{
  ℕ, String, ◌≡◌, refl, sym, ◌↔◌, Bool, true, false, not, ◌||◌, Option, none, some, List, [], ◌∷◌,
  ◌++◌, map, arith, nat_beq, if◌then◌else◌, length, All, nat_eq, string_eq, Dict, is_some, keys,
  lookup, ◌≤ℤ◌, int_eq, subst,
}
use Prim.Native.String.{◌++◌ as ◌++ₛ◌}
use scale_operator.Iteration.{IsReordering}
use scale_operator.Product.Types.{
  StringPointer, LimitSpec, MetricMethodRefSpec, ref_string, MetricSpec, MethodSpec,
  MappingRuleSpec, PricingRuleSpec, ApplicationPlanSpec, ProductSpec, entries,
  find_metric_or_method,
}
use scale_operator.Product.Overlap.{detect_overlapping_pricing_rule_ranges}
use scale_operator.Product.Overlap.Detect.{AreSeparate, detect_overlapping_lem}
use scale_operator.Product.Validate.{
  check_periods, errors_at, FieldError, metric_system_name, method_system_name, metric_name,
  method_name, limit_ref, pricing_rule_ref, check_hits, check_unique, check_system_names,
  check_friendly_names, is_dangling, is_dangling_limit, limit_key, validate, overlap_error,
}
use scale_operator.Product.Validate.Laws.{
  append-eq-nil, AreFresh, NamesFresh, seen_keys, names_lem, keys_lem, mapping_rules_lem,
  errors_at_lem, periods_lem, ranges_lem, overlap_lem, AllPlans, each_plan_lem,
}

-- The product has a metric or a method of the system name.
abbrev pub Knows : ProductSpec → String → Type 0
Knows p name = (is_some (lookup name (entries p.metrics)) || is_some (lookup name p.methods)) ≡ true

-- A reference that names no backend is to a metric or a method of the product.
abbrev pub Resolves : ProductSpec → MetricMethodRefSpec → Type 0
Resolves p ref = ref.backend_system_name ≡ none → Knows p ref.system_name

-- A limit's period and its metric or method, with the name of the backend before it if it has one.
abbrev pub period_and_metric : LimitSpec → String
period_and_metric l =
    l.period
    ++ₛ (":" ++ₛ (elim l.metric_method_ref.backend_system_name [
      | none ↦ l.metric_method_ref.system_name
      | some backend ↦ backend.value ++ₛ ("." ++ₛ l.metric_method_ref.system_name)
    ]))

-- What `Validate` demands. The order of a map's entries is the order of iteration.
pub record IsAccepted (p : ProductSpec) : Type 0 where
  -- there is a `hits` metric
  pub hits : is_some (lookup "hits" (entries p.metrics)) ≡ true
  -- no system name is used twice, by metrics or by methods
  pub metric_names : AreFresh [] (keys (entries p.metrics))
  pub method_names : AreFresh (seen_keys [] (entries p.metrics)) (keys p.methods)
  -- a friendly name differs from the system names of the entries before it
  pub metric_friendly : NamesFresh (λ (m : MetricSpec). m.name) [] (entries p.metrics)
  pub method_friendly :
      NamesFresh (λ (m : MethodSpec). m.name) (seen_keys [] (entries p.metrics)) p.methods
  -- mapping rules, and local limits and pricing rules, refer to metrics or methods of the product
  pub mapping_rules : All (λ (r : MappingRuleSpec). Knows p r.metric_method_ref) p.mapping_rules
  pub limit_refs :
      AllPlans
        (λ (plan : ApplicationPlanSpec).
          All (λ (l : LimitSpec). Resolves p l.metric_method_ref) plan.limits)
        p.application_plans
  -- no two limits of a plan have the same key
  pub limit_keys :
      AllPlans
        (λ (plan : ApplicationPlanSpec). AreFresh [] (map period_and_metric plan.limits))
        p.application_plans
  pub pricing_refs :
      AllPlans
        (λ (plan : ApplicationPlanSpec).
          All (λ (r : PricingRuleSpec). Resolves p r.metric_method_ref) plan.pricing_rules)
        p.application_plans
  -- every range is in order, and no two ranges of a plan for one metric overlap
  pub ranges :
      AllPlans
        (λ (plan : ApplicationPlanSpec).
          All (λ (r : PricingRuleSpec). r.from_value ≤ℤ r.to_value) plan.pricing_rules)
        p.application_plans
  pub separate :
      AllPlans (λ (plan : ApplicationPlanSpec). AreSeparate plan.pricing_rules) p.application_plans

All_iff :
    {A : Type 0} (P Q : A → Type 0) → ((x : A) → P x ↔ Q x) → (xs : List A) → All P xs ↔ All Q xs
All_iff P Q same [] = (λ _. tt, λ _. tt)
All_iff P Q same (x ∷ xs) =
    let rest = All_iff P Q same xs in
    (λ h. ((same x).0 h.0, rest.0 h.1), λ h. ((same x).1 h.0, rest.1 h.1))

check_hits_lem :
    (p : ProductSpec) → (check_hits p ≡ []) ↔ (is_some (lookup "hits" (entries p.metrics)) ≡ true)
unfolding check_hits
check_hits_lem p = on_metrics (entries p.metrics)
  where
    on_metrics :
        (m : Dict String MetricSpec)
        → ((if nat_beq (length m) 0
              then FieldError.metrics_required ∷ []
              else if is_some (lookup "hits" m)
              then []
              else FieldError.hits_missing ∷ [])
            ≡ [])
          ↔ (is_some (lookup "hits" m) ≡ true)
    on_metrics [] = ground arith
    on_metrics (e ∷ m) = ground arith

both :
    {P Q : Type 0} (xs ys : List FieldError)
    → (xs ≡ []) ↔ P
    → (ys ≡ []) ↔ Q
    → (xs ++ ys ≡ []) ↔ (P × Q)
both xs ys p q = (
  λ h. let parts = (append-eq-nil xs ys).0 h in (p.0 parts.0, q.0 parts.1),
  λ h. (append-eq-nil xs ys).1 (p.1 h.0, q.1 h.1),
)

system_names_lem :
    (p : ProductSpec)
    → (check_system_names p ≡ []) ↔ (
        AreFresh [] (keys (entries p.metrics))
        × AreFresh (seen_keys [] (entries p.metrics)) (keys p.methods))
unfolding check_system_names
system_names_lem p =
    let m = keys_lem {V = MetricSpec} metric_system_name [] (entries p.metrics) in
    let seen =
      (check_unique (λ k (_ : MetricSpec). k) metric_system_name [] (entries p.metrics)).1 in
    let n = keys_lem {V = MethodSpec} method_system_name seen p.methods in
    (
      λ h.
          let parts = (append-eq-nil _ _).0 h in
          let fresh = m.0.0 parts.0 in
          (fresh, subst (λ s. AreFresh s (keys p.methods)) (m.1 fresh) (n.0.0 parts.1)),
      λ h.
          (append-eq-nil _ _).1
            (m.0.1 h.0, n.0.1 (subst (λ s. AreFresh s (keys p.methods)) (sym (m.1 h.0)) h.1)),
    )

pub friendly_names_lem :
    (p : ProductSpec)
    → (check_friendly_names p ≡ []) ↔ (
        NamesFresh (λ (m : MetricSpec). m.name) [] (entries p.metrics)
        × NamesFresh (λ (m : MethodSpec). m.name) (seen_keys [] (entries p.metrics)) p.methods)
unfolding check_friendly_names
friendly_names_lem p =
    let m = names_lem (λ (s : MetricSpec). s.name) metric_name [] (entries p.metrics) in
    let seen = (check_unique (λ _ (s : MetricSpec). s.name) metric_name [] (entries p.metrics)).1 in
    let n = names_lem (λ (s : MethodSpec). s.name) method_name seen p.methods in
    (
      λ h.
          let parts = (append-eq-nil _ _).0 h in
          let fresh = m.0.0 parts.0 in
          (
            fresh,
            subst (λ s. NamesFresh (λ (q : MethodSpec). q.name) s p.methods) (m.1 fresh)
                (n.0.0 parts.1),
          ),
      λ h. (append-eq-nil _ _).1 (
        m.0.1 h.0,
        n.0.1
            (subst (λ s. NamesFresh (λ (q : MethodSpec). q.name) s p.methods) (sym (m.1 h.0)) h.1),
      ),
    )

resolves_lem :
    (p : ProductSpec) (ref : MetricMethodRefSpec)
    → ((elim ref.backend_system_name [
      | none ↦ not (find_metric_or_method p ref.system_name)
      | some _ ↦ false
    ])
        ≡ false)
      ↔ Resolves p ref
unfolding find_metric_or_method
resolves_lem p ref = by_backend ref.backend_system_name
  where
    by_backend :
        (o : Option StringPointer)
        → ((elim o [
          | none ↦ not (
              is_some (lookup ref.system_name (entries p.metrics))
              || is_some (lookup ref.system_name p.methods))
          | some _ ↦ false
        ])
            ≡ false)
          ↔ (o ≡ none → Knows p ref.system_name)
    by_backend none = (λ h _. ground (arith, h), λ h. ground (arith, h refl))
    by_backend (some b) = (λ _ e. absurd (ground (arith, e)), λ _. refl)

limit_refs_lem :
    (p : ProductSpec) (k : String) (i : ℕ) (limits : List LimitSpec)
    → (errors_at (is_dangling_limit p) (λ i. limit_ref k i ∷ []) i limits ≡ [])
      ↔ All (λ (l : LimitSpec). Resolves p l.metric_method_ref) limits
unfolding is_dangling_limit
limit_refs_lem p k i limits =
    let iff = errors_at_lem (is_dangling_limit p) (λ j. limit_ref k j) i limits in
    let same =
      All_iff (λ (l : LimitSpec). is_dangling_limit p l ≡ false)
        (λ l. Resolves p l.metric_method_ref) (λ l. resolves_lem p l.metric_method_ref) limits in
    (λ h. same.0 (iff.0 h), λ h. iff.1 (same.1 h))

pricing_refs_lem :
    (p : ProductSpec) (k : String) (i : ℕ) (rules : List PricingRuleSpec)
    → (errors_at (is_dangling p) (λ i. pricing_rule_ref k i ∷ []) i rules ≡ [])
      ↔ All (λ (r : PricingRuleSpec). Resolves p r.metric_method_ref) rules
unfolding is_dangling
pricing_refs_lem p k i rules =
    let iff = errors_at_lem (is_dangling p) (λ j. pricing_rule_ref k j) i rules in
    let same =
      All_iff (λ (r : PricingRuleSpec). is_dangling p r ≡ false)
        (λ r. Resolves p r.metric_method_ref) (λ r. resolves_lem p r.metric_method_ref) rules in
    (λ h. same.0 (iff.0 h), λ h. iff.1 (same.1 h))

limit_keys_lem :
    (k : String) (limits : List LimitSpec)
    → (check_periods k [] 0 limits ≡ []) ↔ AreFresh [] (map period_and_metric limits)
unfolding limit_key ref_string
limit_keys_lem k limits = periods_lem k [] 0 limits

separate_lem :
    (reorder : (V : Type 0) → Dict String V → Dict String V) (reordering : IsReordering reorder)
    (fails : PricingRuleSpec → Bool) (k : String) (rules : List PricingRuleSpec)
    → (overlap_error fails k rules (detect_overlapping_pricing_rule_ranges reorder rules) ≡ [])
      ↔ AreSeparate rules
separate_lem reorder reordering fails k rules =
    let o = overlap_lem fails k rules (detect_overlapping_pricing_rule_ranges reorder rules) in
    let d = detect_overlapping_lem reorder reordering rules in (λ h. d.0 (o.0 h), λ h. o.1 (d.1 h))

-- Validation returns no error exactly when the spec meets every demand: there is a `hits` metric,
-- system names are unique over metrics and methods, friendly names differ from earlier system names,
-- references resolve, limit keys are unique, and pricing ranges are in order and do not overlap for
-- one metric of a plan. The order of the spec's maps is the order in which they are iterated, and the map
-- of the rules by metric is iterated in any order.
pub validate_lem :
    (reorder : (V : Type 0) → Dict String V → Dict String V) (reordering : IsReordering reorder)
    (fails : PricingRuleSpec → Bool) (p : ProductSpec)
    → (validate fails reorder p ≡ []) ↔ IsAccepted p
unfolding validate
validate_lem reorder reordering fails p =
    let iff = both _ _ (check_hits_lem p) (
      both _ _ (system_names_lem p) (
        both _ _ (friendly_names_lem p) (
          both _ _ (mapping_rules_lem p 0 p.mapping_rules) (
            both _ _
              (each_plan_lem _ _ (λ k plan. limit_refs_lem p k 0 plan.limits) p.application_plans)
              (both _ _
                (each_plan_lem _ _ (λ k plan. limit_keys_lem k plan.limits) p.application_plans)
                (both _ _
                  (each_plan_lem _ _ (λ k plan. pricing_refs_lem p k 0 plan.pricing_rules)
                    p.application_plans)
                  (both _ _
                    (each_plan_lem _ _ (λ k plan. ranges_lem fails k 0 plan.pricing_rules)
                      p.application_plans)
                    (each_plan_lem _ _
                      (λ k plan. separate_lem reorder reordering fails k plan.pricing_rules)
                      p.application_plans)))))))) in
    (
      λ h.
          let c = iff.0 h in
          record {
            hits = c.0;
            metric_names = c.1.0.0;
            method_names = c.1.0.1;
            metric_friendly = c.1.1.0.0;
            method_friendly = c.1.1.0.1;
            mapping_rules = c.1.1.1.0;
            limit_refs = c.1.1.1.1.0;
            limit_keys = c.1.1.1.1.1.0;
            pricing_refs = c.1.1.1.1.1.1.0;
            ranges = c.1.1.1.1.1.1.1.0;
            separate = c.1.1.1.1.1.1.1.1;
          },
      λ a. iff.1 (
        a.hits,
        (
          (a.metric_names, a.method_names),
          (
            (a.metric_friendly, a.method_friendly),
            (
              a.mapping_rules,
              (a.limit_refs, (a.limit_keys, (a.pricing_refs, (a.ranges, a.separate)))),
            ),
          ),
        ),
      ),
    )
