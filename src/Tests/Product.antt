-- ===== src/Tests/Product.antt =====
-- Product specs at concrete inputs.
use scale_operator.Prelude.{
  ℕ, ◌≤◌, String, ◌≡◌, refl, ◌↔◌, Bool, true, false, not, none, some, List, [], ◌∷◌, ◌++◌, arith,
  select, count_by, ◌==◌, nat_eq, string_eq, Dict, lookup, pos, negsuc, int_eq,
}
use scale_operator.Iteration.{IsReordering}
use scale_operator.Product.Types.{
  MetricMethodRefSpec, PricingRuleSpec, ApplicationPlanSpec, ProductSpec, find_metric_or_method,
}
use scale_operator.Product.Defaults.{set_defaults, hits_metric, apicast_policy}
use scale_operator.Product.Defaults.Laws.{HasDefaults, set_defaults-HasDefaults, set_defaults_twice}
use scale_operator.Product.Overlap.{detect_overlapping_pricing_rule_ranges}
use scale_operator.Product.Overlap.Laws.{is_negative}
use scale_operator.Product.Overlap.Detect.{AreSeparate, detect_overlapping_lem}
use scale_operator.Product.References.{remove_rules, remove_backend_references, refers_to}
use scale_operator.Product.References.Laws.{
  remove_rules_lem, cleared_plans, HasNoReferences, remove_backend_references_lem,
}
use scale_operator.Product.Validate.{
  validate, check_hits, check_system_names, check_friendly_names, is_dangling,
}
use scale_operator.Product.Validate.Accepts.{IsAccepted, validate_lem}
use scale_operator.Product.Validate.FriendlyNames.{check_friendly_names_lem}

abbrev local : String → MetricMethodRefSpec
local name = record { system_name = name; backend_system_name = none }

abbrev remote : ℕ → String → String → MetricMethodRefSpec
remote address backend name = record {
  system_name = name;
  backend_system_name = some (record { address = address; value = backend });
}

abbrev rule : ℕ → ℕ → MetricMethodRefSpec → PricingRuleSpec
rule lo hi ref = record {
  from_value = pos lo;
  to_value = pos hi;
  metric_method_ref = ref;
  price_per_unit = "1.00";
}

abbrev plan : List PricingRuleSpec → ApplicationPlanSpec
plan rules = record {
  name = none;
  apps_require_approval = none;
  trial_period = none;
  setup_fee = none;
  cost_month = none;
  pricing_rules = rules;
  limits = [];
  published = some true;
}

abbrev spec : List PricingRuleSpec → ProductSpec
spec rules = record {
  name = "my product";
  system_name = "myproduct";
  description = "";
  deployment = none;
  mapping_rules = [];
  backend_usages = ("echo", record { path = "/" }) ∷ [];
  metrics = some (("hits", hits_metric) ∷ []);
  methods = [];
  application_plans = ("basic", plan rules) ∷ [];
  policies = apicast_policy ∷ [];
}

abbrev ranges : List PricingRuleSpec
ranges =
    rule 1 10 (local "hits") ∷ rule 5 20 (remote 1 "echo" "hits") ∷ rule 10 20 (local "hits") ∷ []

-- The order in which a map was built.
abbrev listed : (V : Type 0) → Dict String V → Dict String V
listed V m = m

listed-IsReordering : IsReordering listed
listed-IsReordering = record { lookup_reorder = λ m key is. refl; reorder_IsMap = λ m is. is }

ranges_are_separate : detect_overlapping_pricing_rule_ranges listed ranges ≡ negsuc 0
unfolding detect_overlapping_pricing_rule_ranges
ranges_are_separate = refl

overlap_is_found :
    detect_overlapping_pricing_rule_ranges listed (ranges ++ rule 9 12 (local "hits") ∷ []) ≡ pos 3
unfolding detect_overlapping_pricing_rule_ranges
overlap_is_found = refl

abbrev never_fails : PricingRuleSpec → Bool
never_fails _ = false

validate_accepts : validate never_fails listed (spec ranges) ≡ []
unfolding validate check_hits check_system_names check_friendly_names is_dangling
    find_metric_or_method detect_overlapping_pricing_rule_ranges
validate_accepts = refl

validate_lem_example : (validate never_fails listed (spec ranges) ≡ []) ↔ IsAccepted (spec ranges)
validate_lem_example = validate_lem listed listed-IsReordering never_fails (spec ranges)

detect_overlapping_lem_example :
    (is_negative (detect_overlapping_pricing_rule_ranges listed ranges) ≡ true) ↔ AreSeparate ranges
detect_overlapping_lem_example = detect_overlapping_lem listed listed-IsReordering ranges

abbrev names_echo : PricingRuleSpec → Bool
names_echo r = unfold refers_to in refers_to "echo" r.metric_method_ref

-- Two rules of the backend: one is left.
one_reference_is_left :
    (remove_backend_references "echo" (
      spec (
        rule 1 2 (remote 1 "echo" "hits")
        ∷ rule 2 3 (remote 2 "echo" "hits")
        ∷ []))).1.application_plans
    ≡ ("basic", plan (rule 2 3 (remote 2 "echo" "hits") ∷ [])) ∷ []
unfolding remove_backend_references
one_reference_is_left = refl

remove_rules_lem_example :
    (((remove_rules names_echo ranges).1 ≡ select (λ r. not (names_echo r)) ranges)
      ↔ (count_by names_echo ranges ≤ 1))
    × (((remove_rules names_echo ranges).0 ≡ false) ↔ (count_by names_echo ranges ≡ 0))
remove_rules_lem_example = remove_rules_lem names_echo ranges

remove_backend_references_lem_example :
    let r = remove_backend_references "echo" (spec ranges) in
    (r.1 ≡ record (spec ranges) {
      backend_usages = [];
      application_plans = cleared_plans "echo" (("basic", plan ranges) ∷ []);
    })
    × ((r.0 ≡ false) ↔ (
        (lookup "echo" (spec ranges).backend_usages ≡ none)
        × HasNoReferences "echo" (("basic", plan ranges) ∷ [])))
remove_backend_references_lem_example =
    remove_backend_references_lem "echo" (spec ranges) (omega arith)

abbrev bare : ProductSpec
bare = record (spec []) { system_name = ""; metrics = none; policies = [] }

abbrev drop_all : String → String
drop_all _ = ""

set_defaults-HasDefaults_example : HasDefaults (set_defaults drop_all bare).1
set_defaults-HasDefaults_example = set_defaults-HasDefaults drop_all bare

set_defaults_twice_example :
    let p = (set_defaults drop_all bare).1 in
    ((p.system_name == "") ≡ false → set_defaults drop_all p ≡ (false, p))
    × ((p.system_name == "") ≡ true → (set_defaults drop_all p).0 ≡ true)
set_defaults_twice_example = set_defaults_twice drop_all bare

-- Two metrics with one friendly name.
abbrev twins : ProductSpec
twins = record (spec []) { metrics = some (("hits", hits_metric) ∷ ("calls", hits_metric) ∷ []) }

check_friendly_names_lem_example : check_friendly_names twins ≡ []
check_friendly_names_lem_example = check_friendly_names_lem twins (refl, (refl, tt)) tt
