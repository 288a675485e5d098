-- ===== src/Capabilities/Metrics/Listed.antt =====
-- The list of metrics that the entity makes from those of metrics and methods and of methods.
use scale_operator.Prelude.{
  String, ◌≡◌, refl, ap, inl, inr, not, none, List, [], ◌∷◌, map, arith, Bool-cases, select, All,
  ==_iff, ==_refl, nat_eq, string_eq, contains, int_eq,
}
use scale_operator.Helper.Slices.{array_string_difference}
use scale_operator.Capabilities.Entity.{Metric, Method, metrics_named, metrics_of_names}
use scale_operator.Capabilities.Sync.Items.{find, IsDistinct}
use scale_operator.Capabilities.Metrics.{metric_kind}

abbrev pub metric_names : List Metric → List String
metric_names = map (λ (m : Metric). m.system_name)

abbrev pub method_names : List Method → List String
method_names = map (λ (m : Method). m.system_name)

-- The metrics whose names are no method's.
abbrev pub only_metrics : List Method → List Metric → List Metric
only_metrics methods all =
    select (λ (m : Metric). not (contains (method_names methods) m.system_name)) all

named_none :
    (name : String) (all : List Metric)
    → find metric_kind name all ≡ none
    → metrics_named name all ≡ []
unfolding metrics_named
named_none name [] h = refl
named_none name (m ∷ all) h = ground (arith, named_none name all, h)

-- Each metric is the only one of its name.
abbrev IsAlone : List Metric → Metric → Type 0
IsAlone all m = metrics_named m.system_name all ≡ m ∷ []

others-IsAlone :
    (first : Metric) (all rest : List Metric)
    → find metric_kind first.system_name rest ≡ none
    → All (IsAlone all) rest
    → All (IsAlone (first ∷ all)) rest
unfolding metrics_named
others-IsAlone first all [] fresh alone = tt
others-IsAlone first all (m ∷ rest) fresh (here, alone) = (
  ground (
    arith,
    fresh,
    here,
    ==_iff first.system_name m.system_name,
    ==_iff m.system_name first.system_name,
  ),
  others-IsAlone first all rest (ground (arith, fresh)) alone,
)

all-IsAlone : (all : List Metric) → IsDistinct metric_kind all → All (IsAlone all) all
unfolding metrics_named
all-IsAlone [] d = tt
all-IsAlone (m ∷ all) (fresh, d) = (
  ground (arith, named_none m.system_name all fresh, ==_refl m.system_name),
  others-IsAlone m all all fresh (all-IsAlone all d),
)

listed_from :
    (names : List String) (all rest : List Metric)
    → All (IsAlone all) rest
    → metrics_of_names (array_string_difference (metric_names rest) names) all
      ≡ select (λ (m : Metric). not (contains names m.system_name)) rest
unfolding metrics_of_names array_string_difference
listed_from names all [] alone = refl
listed_from names all (m ∷ rest) (here, alone) = elim (Bool-cases (contains names m.system_name)) [
  | inl is ↦ rw is (listed_from names all rest alone)
  | inr not ↦ rw not (rw here (ap (λ l. m ∷ l) (listed_from names all rest alone)))
]

-- With distinct names, the loops over the names of the difference list the metrics that are no
-- methods, in their order.
pub listed_metrics :
    (methods : List Method) (all : List Metric)
    → IsDistinct metric_kind all
    → metrics_of_names (array_string_difference (metric_names all) (method_names methods)) all
      ≡ only_metrics methods all
listed_metrics methods all d = listed_from (method_names methods) all all (all-IsAlone all d)
