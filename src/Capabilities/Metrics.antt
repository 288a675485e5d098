-- ===== src/Capabilities/Metrics.antt =====
-- controllers/capabilities/metrics.go: the metrics of a product.
pub mod Laws
pub mod Listed
pub mod Store
pub mod Converges
use scale_operator.Prelude.{String, Option, some, [], ◌∷◌, nat_eq, string_eq, Dict, int_eq}
use scale_operator.Product.Types.{MetricSpec, ProductSpec, entries}
use scale_operator.Capabilities.Params.{Params, put, put_present}
use scale_operator.Capabilities.Entity.{
  Metric, Caches, Client, metrics, create_metric, update_metric, delete_metric,
}
use scale_operator.Capabilities.Sync.{Access, Kind, sync}

unfoldable pub metric_changes : MetricSpec → Metric → Params
metric_changes spec item =
    put "description" (some spec.description) item.description
      (put "unit" (some spec.unit) item.unit (put "friendly_name" (some spec.name) item.name []))

unfoldable pub metric_params : String → MetricSpec → Params
unfolding put_present
metric_params name spec =
    put_present "description" spec.description
      (("friendly_name", spec.name) ∷ ("unit", spec.unit) ∷ ("system_name", name) ∷ [])

abbrev pub metric_kind : Kind Metric MetricSpec
metric_kind = record {
  id = λ m. m.id;
  system_name = λ m. m.system_name;
  no_item = record { id = 0; name = ""; system_name = ""; description = ""; unit = "" };
  no_spec = record { name = ""; unit = ""; description = "" };
  changes = metric_changes;
  new_params = metric_params;
}

abbrev pub metric_access : {W E : Type 0} → Client W E → Access (Caches × W) E Metric
metric_access client = record {
  list = metrics client;
  create = create_metric client;
  update = update_metric client;
  delete = delete_metric client;
}

unfoldable pub sync_metrics :
    {W E : Type 0}
    → Client W E
    → ((V : Type 0) → Dict String V → Dict String V)
    → ProductSpec
    → Caches × W
    → Option E × (Caches × W)
unfolding sync
sync_metrics client reorder p = sync (metric_access client) metric_kind reorder (entries p.metrics)
