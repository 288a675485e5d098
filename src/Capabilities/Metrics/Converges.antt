-- ===== src/Capabilities/Metrics/Converges.antt =====
-- What the synchronisation of a product's metrics leaves at the API.
use scale_operator.Prelude.{
  String, ◌≡◌, refl, sym, inr, not, Option, none, some, List, nat_eq, string_eq, contains, Dict,
  lookup, int_eq, subst,
}
use scale_operator.Iteration.{IsMap, IsReordering}
use scale_operator.Product.Types.{MetricSpec, ProductSpec, entries}
use scale_operator.Capabilities.Entity.{
  Metric, Method, Caches, Client, reset_metrics, metrics, create_metric, update_metric,
  delete_metric,
}
use scale_operator.Capabilities.Entity.Reads.{Keeps, reset_after_law}
use scale_operator.Capabilities.Sync.Items.{select-IsDistinct, find, IsDistinct}
use scale_operator.Capabilities.Sync.Store.{IsStore}
use scale_operator.Capabilities.Sync.Converges.{IsAsDesired, sync_law, sync_idle}
use scale_operator.Capabilities.Metrics.{metric_kind, metric_access, sync_metrics}
use scale_operator.Capabilities.Metrics.Laws.{
  updated_metric, IsMadeMetric, Matches, metric_changes-Matches, metric_kind-IsSettling,
}
use scale_operator.Capabilities.Metrics.Listed.{method_names}
use scale_operator.Capabilities.Metrics.Store.{
  IsMetricClient, Coheres, IsCoherentMetrics, metrics_of,
}
use scale_operator.Capabilities.Metrics.Store.Reads.{metrics_read}

-- The metric of a system name is the one that is specified, and there is none if none is.
abbrev pub FitsMetric : Option MetricSpec → Option Metric → Type 0
FitsMetric none item = item ≡ none
FitsMetric (some spec) item = (m : Metric) × (item ≡ some m) × Matches spec m

pub IsAsDesired-FitsMetric :
    (d : Option MetricSpec) (i : Option Metric) → IsAsDesired metric_kind d i → FitsMetric d i
IsAsDesired-FitsMetric none i h = h
IsAsDesired-FitsMetric (some spec) none h = absurd h
IsAsDesired-FitsMetric (some spec) (some item) h = (item, refl, metric_changes-Matches spec item h)

module _ {W E : Type 0} (client : Client W E) (all_of : W → List Metric)
    (methods_of : W → List Method) (api : IsMetricClient client all_of methods_of) where
  -- After a request about a metric only the list of methods may be kept.
  pub coheres_after :
      (c : Caches) (w : W) (x' : Caches × W)
      → Coheres c (all_of w) (methods_of w)
      → x'.0 ≡ reset_metrics c
      → IsDistinct metric_kind (all_of x'.1)
      → methods_of x'.1 ≡ methods_of w
      → IsCoherentMetrics all_of methods_of x'
  unfolding reset_metrics
  coheres_after c w x' ok reset distinct same =
      subst (λ d. Coheres d (all_of x'.1) (methods_of x'.1)) (sym reset)
        (distinct, tt, subst (Keeps c.methods) (sym same) ok.2, tt)

  pub metrics-IsStore :
      IsStore
        (metric_access client)
        metric_kind
        (metrics_of all_of methods_of)
        (IsCoherentMetrics all_of methods_of)
        updated_metric
        IsMadeMetric
  unfolding create_metric update_metric delete_metric
  metrics-IsStore = record {
    distinct = λ x ok.
        select-IsDistinct metric_kind
          (λ (m : Metric). not (contains (method_names (methods_of x.1)) m.system_name))
          (all_of x.1) ok.0;
    listed = λ x x' l ok h.
        let (is, ok', kept, _) = metrics_read client all_of methods_of api x x' l ok h in
        (is, ok', kept);
    updated = λ (c, w) x' name item params ok there h.
        let (made, reset) =
          reset_after_law client reset_metrics c (client.update_metric item.id params w) x' h in
        let (distinct, same, all) = api.metric_updated w x'.1 name item params ok.0 there made in
        (coheres_after c w x' ok reset distinct same, all);
    deleted = λ (c, w) x' name item ok there h.
        let (made, reset) =
          reset_after_law client reset_metrics c (client.delete_metric item.id w) x' h in
        let (distinct, same, all) = api.metric_deleted w x'.1 name item ok.0 there made in
        (coheres_after c w x' ok reset distinct same, all);
    created = λ (c, w) x' name params ok named absent h.
        let (made, reset) =
          reset_after_law client reset_metrics c (client.create_metric params w) x' h in
        let (distinct, same, new, others) =
          api.metric_created w x'.1 name params ok.0 named absent made in
        (coheres_after c w x' ok reset distinct same, new, others);
  }

  module _ (reorder : (V : Type 0) → Dict String V → Dict String V)
      (reordering : IsReordering reorder) (p : ProductSpec)
      (is_map : IsMap (entries p.metrics)) where
    synced :
        (x x' : Caches × W)
        → IsCoherentMetrics all_of methods_of x
        → sync_metrics client reorder p x ≡ (none, x')
        → IsCoherentMetrics all_of methods_of x'
          × ((key : String)
              → IsAsDesired metric_kind
                  (lookup key (entries p.metrics))
                  (find metric_kind key (metrics_of all_of methods_of x')))
    unfolding sync_metrics
    synced =
        sync_law (metric_access client) metric_kind (metrics_of all_of methods_of)
          (IsCoherentMetrics all_of methods_of) updated_metric IsMadeMetric metrics-IsStore
          metric_kind-IsSettling reorder reordering (entries p.metrics) is_map

    -- Where the API keeps metrics and methods of distinct system names and does what the requests that
    -- it accepts say, and the lists that the entity keeps are the API's: after a synchronisation
    -- without an error, whatever the order in which the maps are iterated, the metrics of the API that
    -- are no methods are exactly those of the spec, each with its name, its unit and its description,
    -- and the lists that the entity keeps are still the API's.
    pub sync_metrics_lem :
        (x x' : Caches × W)
        → IsCoherentMetrics all_of methods_of x
        → sync_metrics client reorder p x ≡ (none, x')
        → IsCoherentMetrics all_of methods_of x'
          × ((key : String)
              → FitsMetric
                  (lookup key (entries p.metrics))
                  (find metric_kind key (metrics_of all_of methods_of x')))
    sync_metrics_lem x x' ok h =
        let (ok', all) = synced x x' ok h in
        (ok', λ key. IsAsDesired-FitsMetric (lookup key (entries p.metrics)) _ (all key))

    -- Where the API keeps metrics and methods of distinct system names and does what the requests that it
    -- accepts say, and the lists that the entity keeps are the API's: when the metrics can be read after a
    -- synchronisation of metrics without an error, the next one makes no request but those of reading
    -- them, and has no error.
    pub sync_metrics_settled :
        (x x' y : Caches × W) (l : List Metric)
        → IsCoherentMetrics all_of methods_of x
        → sync_metrics client reorder p x ≡ (none, x')
        → metrics client x' ≡ (inr l, y)
        → sync_metrics client reorder p x' ≡ (none, y)
    unfolding sync_metrics
    sync_metrics_settled x x' y l ok h listed =
        let (ok', all) = synced x x' ok h in
        sync_idle (metric_access client) metric_kind (metrics_of all_of methods_of)
          (IsCoherentMetrics all_of methods_of) updated_metric IsMadeMetric metrics-IsStore
          metric_kind-IsSettling reorder reordering (entries p.metrics) is_map x' y l ok' listed all
