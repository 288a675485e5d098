-- ===== src/Product/Defaults.antt =====
-- `Product.SetDefaults` of apis/capabilities/v1beta1/product_types.go. `sanitize` stands for
-- `productSystemNameRegexp.ReplaceAllString(_, "")`.
pub mod Laws
use scale_operator.Prelude.{
  String, Bool, true, false, ◌||◌, none, some, List, [], ◌∷◌, ◌++◌, if◌then◌else◌, any_by, ◌==◌,
  nat_eq, string_eq, contains, keys, insert, int_eq,
}
use scale_operator.Product.Types.{MetricSpec, PolicyConfig, ProductSpec, entries}

abbrev pub default_configuration : String
default_configuration = "{}"

abbrev pub apicast_policy : PolicyConfig
apicast_policy = record {
  name = "apicast";
  version = "builtin";
  configuration = some default_configuration;
  configuration_ref_name = "";
  configuration_ref_namespace = "";
  enabled = true;
}

abbrev pub hits_metric : MetricSpec
hits_metric = record { name = "Hits"; unit = "hit"; description = "Number of API hits" }

unfoldable pub default_system_name : (String → String) → ProductSpec → Bool × ProductSpec
default_system_name sanitize p =
    if p.system_name == "" then (true, record p { system_name = sanitize p.name }) else (false, p)

unfoldable pub default_metrics : ProductSpec → Bool × ProductSpec
default_metrics p = elim p.metrics [
  | none ↦ (true, record p { metrics = some [] })
  | some m ↦ (false, p)
]

unfoldable pub default_hits : ProductSpec → Bool × ProductSpec
default_hits p =
    if contains (keys (entries p.metrics)) "hits"
    then (false, p)
    else (true, record p { metrics = some (insert "hits" hits_metric (entries p.metrics)) })

abbrev pub has_apicast : List PolicyConfig → Bool
has_apicast = any_by (λ (q : PolicyConfig). q.name == apicast_policy.name)

unfoldable pub default_policy : ProductSpec → Bool × ProductSpec
default_policy p =
    if has_apicast p.policies
    then (false, p)
    else (true, record p { policies = p.policies ++ apicast_policy ∷ [] })

fill_configurations : List PolicyConfig → Bool × List PolicyConfig
fill_configurations [] = (false, [])
fill_configurations (q ∷ qs) =
    let (set, rest) = fill_configurations qs in
    elim q.configuration [
      | none ↦ (true, record q { configuration = some default_configuration } ∷ rest)
      | some raw ↦ (set, q ∷ rest)
    ]

unfoldable pub default_configurations : ProductSpec → Bool × ProductSpec
unfolding fill_configurations
default_configurations p =
    let (set, policies) = fill_configurations p.policies in (set, record p { policies = policies })

unfoldable pub set_defaults : (String → String) → ProductSpec → Bool × ProductSpec
set_defaults sanitize p =
    let (named, p₁) = default_system_name sanitize p in
    let (made, p₂) = default_metrics p₁ in
    let (hit, p₃) = default_hits p₂ in
    let (chained, p₄) = default_policy p₃ in
    let (configured, p₅) = default_configurations p₄ in
    (named || (made || (hit || (chained || configured))), p₅)
