-- ===== src/Product/Types.antt =====
-- apis/capabilities/v1beta1/product_types.go: the records of a Product's spec. A pointer field is
-- an option. Go compares the pointer field of `MetricMethodRefSpec` by address, so a pointer to a
-- string has its address and the string. A nil map is told apart from an empty one where the code
-- does so.
use scale_operator.Prelude.{
  ℕ, String, Bool, false, ◌||◌, Option, none, some, List, [], nat_eq, string_eq, Dict, is_some,
  lookup, ℤ, int_eq,
}
use scale_operator.Product.Deployment.Types.{ProductDeploymentSpec}
use Prim.Native.String.{◌++◌ as ◌++ₛ◌}

pub record StringPointer : Type 0 where
  pub address : ℕ
  pub value : String

pub record MetricMethodRefSpec : Type 0 where
  pub system_name : String
  pub backend_system_name : Option StringPointer

-- `MetricMethodRefSpec.String`
unfoldable pub ref_string : MetricMethodRefSpec → String
ref_string m = elim m.backend_system_name [
  | none ↦ m.system_name
  | some backend ↦ backend.value ++ₛ ("." ++ₛ m.system_name)
]

pub record LimitSpec : Type 0 where
  pub period : String
  pub value : ℤ
  pub metric_method_ref : MetricMethodRefSpec

-- The field `from` of the source is `from_value`, `to` is `to_value`.
pub record PricingRuleSpec : Type 0 where
  pub from_value : ℤ
  pub to_value : ℤ
  pub metric_method_ref : MetricMethodRefSpec
  pub price_per_unit : String

pub record ApplicationPlanSpec : Type 0 where
  pub name : Option String
  pub apps_require_approval : Option Bool
  pub trial_period : Option ℤ
  pub setup_fee : Option String
  pub cost_month : Option String
  pub pricing_rules : List PricingRuleSpec
  pub limits : List LimitSpec
  pub published : Option Bool

unfoldable pub is_published : ApplicationPlanSpec → Bool
is_published a = elim a.published [ none ↦ false | some p ↦ p ]

pub record MethodSpec : Type 0 where
  pub name : String
  pub description : String

pub record MetricSpec : Type 0 where
  pub name : String
  pub unit : String
  pub description : String

pub record MappingRuleSpec : Type 0 where
  pub http_method : String
  pub pattern_text : String
  pub metric_method_ref : String
  pub increment : ℤ
  pub last : Option Bool

pub record BackendUsageSpec : Type 0 where
  pub path : String

-- `configuration` is the raw JSON; `none` is a nil byte slice.
pub record PolicyConfig : Type 0 where
  pub name : String
  pub version : String
  pub configuration : Option String
  pub configuration_ref_name : String
  pub configuration_ref_namespace : String
  pub enabled : Bool

-- The reference to the provider account is left out, which none of this code reads. A dictionary's order stands for the order in which Go iterates over the map.
pub record ProductSpec : Type 0 where
  pub name : String
  pub system_name : String
  pub description : String
  pub deployment : Option ProductDeploymentSpec
  pub mapping_rules : List MappingRuleSpec
  pub backend_usages : Dict String BackendUsageSpec
  pub metrics : Option (Dict String MetricSpec)
  pub methods : Dict String MethodSpec
  pub application_plans : Dict String ApplicationPlanSpec
  pub policies : List PolicyConfig

-- A nil map reads as an empty one.
abbrev pub entries {ℓ} : {A : Type ℓ} → Option (List A) → List A
entries none = []
entries (some m) = m

-- `Product.FindMetricOrMethod`
unfoldable pub find_metric_or_method : ProductSpec → String → Bool
find_metric_or_method p ref =
    is_some (lookup ref (entries p.metrics)) || is_some (lookup ref p.methods)
