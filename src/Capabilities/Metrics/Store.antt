-- ===== src/Capabilities/Metrics/Store.antt =====
-- The metrics of an entity, with the lists that it keeps, as the store of a synchronisation.
pub mod Reads
use scale_operator.Prelude.{
  ℕ, String, ◌≡◌, inr, false, none, some, List, if◌then◌else◌, ◌==◌, nat_eq, string_eq, lookup,
  int_eq,
}
use scale_operator.Capabilities.Params.{Params}
use scale_operator.Capabilities.Entity.{
  Metric, Method, Caches, Client, reset_metrics, metrics, create_metric, update_metric,
  delete_metric,
}
use scale_operator.Capabilities.Entity.Reads.{Keeps, reset_after_law}
use scale_operator.Capabilities.Sync.Items.{find, IsDistinct}
use scale_operator.Capabilities.Sync.Store.{IsStore}
use scale_operator.Capabilities.Metrics.{metric_kind, metric_access}
use scale_operator.Capabilities.Metrics.Laws.{updated_metric, IsMadeMetric}
use scale_operator.Capabilities.Metrics.Listed.{only_metrics}

-- The 3scale API's metrics and methods: reading changes none, their system names are distinct, and a
-- request about a metric that is accepted changes no method, does what its parameters say to the
-- metric of its identifier, and nothing to another.
pub record IsMetricClient {W E : Type 0} (client : Client W E) (all_of : W → List Metric)
    (methods_of : W → List Method) : Type 0 where
  pub all_listed :
      (w w' : W) (l : List Metric)
      → client.list_metrics w ≡ (inr l, w')
      → (l ≡ all_of w) × (all_of w' ≡ all_of w) × (methods_of w' ≡ methods_of w)
  pub methods_listed :
      (hits : ℕ) (w w' : W) (l : List Method)
      → client.list_methods hits w ≡ (inr l, w')
      → (l ≡ methods_of w) × (all_of w' ≡ all_of w) × (methods_of w' ≡ methods_of w)
  pub metric_updated :
      (w w' : W) (name : String) (item : Metric) (params : Params)
      → IsDistinct metric_kind (all_of w)
      → find metric_kind name (only_metrics (methods_of w) (all_of w)) ≡ some item
      → client.update_metric item.id params w ≡ (none, w')
      → IsDistinct metric_kind (all_of w')
        × (methods_of w' ≡ methods_of w)
        × ((key : String)
            → find metric_kind key (only_metrics (methods_of w') (all_of w')) ≡ (
                if name == key
                then some (updated_metric params item)
                else find metric_kind key (only_metrics (methods_of w) (all_of w))))
  pub metric_deleted :
      (w w' : W) (name : String) (item : Metric)
      → IsDistinct metric_kind (all_of w)
      → find metric_kind name (only_metrics (methods_of w) (all_of w)) ≡ some item
      → client.delete_metric item.id w ≡ (none, w')
      → IsDistinct metric_kind (all_of w')
        × (methods_of w' ≡ methods_of w)
        × ((key : String)
            → find metric_kind key (only_metrics (methods_of w') (all_of w')) ≡ (
                if name == key
                then none
                else find metric_kind key (only_metrics (methods_of w) (all_of w))))
  pub metric_created :
      (w w' : W) (name : String) (params : Params)
      → IsDistinct metric_kind (all_of w)
      → lookup "system_name" params ≡ some name
      → find metric_kind name (only_metrics (methods_of w) (all_of w)) ≡ none
      → client.create_metric params w ≡ (none, w')
      → IsDistinct metric_kind (all_of w')
        × (methods_of w' ≡ methods_of w)
        × ((item : Metric) × (find metric_kind name (only_metrics (methods_of w') (all_of w'))
              ≡ some item)
            × IsMadeMetric params item)
        × ((key : String)
            → (name == key) ≡ false
            → find metric_kind key (only_metrics (methods_of w') (all_of w'))
              ≡ find metric_kind key (only_metrics (methods_of w) (all_of w)))

-- The lists that the entity keeps are these.
abbrev pub Coheres : Caches → List Metric → List Method → Type 0
Coheres c all methods =
    IsDistinct metric_kind all
    × Keeps c.metrics_and_methods all
    × Keeps c.methods methods
    × Keeps c.metrics (only_metrics methods all)

module _ {W : Type 0} (all_of : W → List Metric) (methods_of : W → List Method) where
  abbrev pub IsCoherentMetrics : Caches × W → Type 0
  IsCoherentMetrics x = Coheres x.0 (all_of x.1) (methods_of x.1)

  abbrev pub metrics_of : Caches × W → List Metric
  metrics_of x = only_metrics (methods_of x.1) (all_of x.1)

  -- The API has the same metrics and methods.
  abbrev pub IsSame : Caches × W → Caches × W → Type 0
  IsSame x y = (all_of y.1 ≡ all_of x.1) × (methods_of y.1 ≡ methods_of x.1)
