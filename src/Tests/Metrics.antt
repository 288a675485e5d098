-- ===== src/Tests/Metrics.antt =====
-- The synchronisation of metrics on an API that has the metric of hits alone.
use scale_operator.Prelude.{
  ℕ, String, ◌≡◌, refl, sym, ap, inl, inr, Option, none, some, List, [], ◌∷◌, arith, if◌then◌else◌,
  Bool-cases, ◌==◌, ==_iff, nat_eq, string_eq, lookup, int_eq, subst,
}
use scale_operator.Product.Types.{ProductSpec, entries}
use scale_operator.Product.Defaults.{hits_metric}
use scale_operator.Capabilities.Params.{Params, put, put_present}
use scale_operator.Capabilities.Entity.{
  Metric, Method, Caches, Client, metrics, create_metric, update_metric, delete_metric,
}
use scale_operator.Capabilities.Sync.Items.{find}
use scale_operator.Capabilities.Metrics.{metric_kind, sync_metrics, metric_changes, metric_params}
use scale_operator.Capabilities.Metrics.Laws.{updated_metric}
use scale_operator.Capabilities.Metrics.Store.{IsMetricClient, IsCoherentMetrics, metrics_of}
use scale_operator.Tests.Methods.{in_order, in_order-IsReordering, nothing_read}
use scale_operator.Capabilities.Metrics.Converges.{
  FitsMetric, sync_metrics_lem, sync_metrics_settled,
}

abbrev as_hits : Metric → Metric
as_hits m = record m { id = 1; system_name = "hits" }

abbrev all_of : Metric → List Metric
all_of m = as_hits m ∷ []

abbrev methods_of : Metric → List Method
methods_of m = []

abbrev update_hits : ℕ → Params → Metric → Option String × Metric
update_hits id params m = if id == 1 then (none, updated_metric params m) else (some "not found", m)

abbrev client : Client Metric String
client = record {
  list_metrics = λ w. (inr (all_of w), w);
  create_metric = λ params w. (some "limit reached", w);
  update_metric = update_hits;
  delete_metric = λ id w. (some "not allowed", w);
  list_methods = λ id w. (inr [], w);
  create_method = λ id params w. (some "limit reached", w);
  update_method = λ h id params w. (some "not found", w);
  delete_method = λ h id w. (some "not found", w);
  hits_not_found = "hits not found";
}

only_hits :
    (m : Metric) (name : String) (item : Metric)
    → find metric_kind name (all_of m) ≡ some item
    → (item ≡ as_hits m) × ("hits" ≡ name)
only_hits m name item there = elim (Bool-cases ("hits" == name)) [
  | inl same ↦ (ground (arith, there, same), (==_iff "hits" name).0 same)
  | inr other ↦ absurd (ground (arith, there, other))
]

change_key :
    (changed old : Metric) (key : String)
    → (if "hits" == key then some changed else none)
      ≡ (if "hits" == key then some changed else if "hits" == key then some old else none)
change_key changed old key = elim (Bool-cases ("hits" == key)) [
  | inl same ↦ rw same refl
  | inr other ↦ rw other refl
]

updated :
    (w w' : Metric) (name : String) (item : Metric) (params : Params)
    → find metric_kind name (all_of w) ≡ some item
    → update_hits item.id params w ≡ (none, w')
    → (key : String)
    → find metric_kind key (all_of w')
      ≡ (if name == key then some (updated_metric params item) else find metric_kind key (all_of w))
updated w w' name item params there h key =
    let (is, named) = only_hits w name item there in
    let accepted : update_hits 1 params w ≡ (none, w') =
      subst (λ (i : Metric). update_hits i.id params w ≡ (none, w')) is h in
    let now : updated_metric params w ≡ w' = ap (λ (t : Option String × Metric). t.1) accepted in
    let run : find metric_kind key (all_of (updated_metric params w)) ≡ (
        if "hits" == key
        then some (updated_metric params (as_hits w))
        else find metric_kind key (all_of w)) =
      change_key (updated_metric params (as_hits w)) (as_hits w) key in
    subst
      (λ v. find metric_kind key (all_of v) ≡ (
        if name == key then some (updated_metric params item) else find metric_kind key (all_of w)))
      now
      (subst
        (λ n. find metric_kind key (all_of (updated_metric params w)) ≡ (
          if n == key then some (updated_metric params item) else find metric_kind key (all_of w)))
        named
        (subst
          (λ (i : Metric). find metric_kind key (all_of (updated_metric params w)) ≡ (
            if "hits" == key
            then some (updated_metric params i)
            else find metric_kind key (all_of w)))
          (sym is) run))

client-IsMetricClient : IsMetricClient client all_of methods_of
client-IsMetricClient = record {
  all_listed = λ w w' l h. (cc, cc, refl);
  methods_listed = λ hits w w' l h. (cc, cc, refl);
  metric_updated =
      λ w w' name item params d there h. ((refl, tt), refl, updated w w' name item params there h);
  metric_deleted = λ w w' name item d there h. absurd (ground (arith, h));
  metric_created = λ w w' name params d named absent h. absurd (ground (arith, h));
}

abbrev spec : ProductSpec
spec = record {
  name = "api";
  system_name = "api";
  description = "";
  deployment = none;
  mapping_rules = [];
  backend_usages = [];
  metrics = some (("hits", hits_metric) ∷ []);
  methods = [];
  application_plans = [];
  policies = [];
}

abbrev stale : Metric
stale = record { id = 1; name = "hits"; system_name = "hits"; description = ""; unit = "hit" }

abbrev fresh : Metric
fresh = record {
  id = 1;
  name = "Hits";
  system_name = "hits";
  description = "Number of API hits";
  unit = "hit";
}

-- The list of methods stays, and the two of metrics are read again.
abbrev methods_read : Caches
methods_read = record { metrics = none; metrics_and_methods = none; methods = some [] }

abbrev all_read : Caches
all_read = record {
  metrics = some (fresh ∷ []);
  metrics_and_methods = some (fresh ∷ []);
  methods = some [];
}

sync_metrics_updates :
    sync_metrics client in_order spec (nothing_read, stale) ≡ (none, (methods_read, fresh))
unfolding sync_metrics metrics metric_changes metric_params put put_present create_metric
    update_metric delete_metric
sync_metrics_updates = refl

metrics_are_read : metrics client (methods_read, fresh) ≡ (inr (fresh ∷ []), (all_read, fresh))
unfolding metrics
metrics_are_read = refl

sync_metrics_lem_example :
    IsCoherentMetrics all_of methods_of (methods_read, fresh)
    × ((key : String)
        → FitsMetric
            (lookup key (entries spec.metrics))
            (find metric_kind key (metrics_of all_of methods_of (methods_read, fresh))))
sync_metrics_lem_example =
    sync_metrics_lem client all_of methods_of client-IsMetricClient in_order in_order-IsReordering
      spec (refl, tt) (nothing_read, stale) (methods_read, fresh) ((refl, tt), tt, tt, tt)
      sync_metrics_updates

sync_metrics_settled_example :
    sync_metrics client in_order spec (methods_read, fresh) ≡ (none, (all_read, fresh))
sync_metrics_settled_example =
    sync_metrics_settled client all_of methods_of client-IsMetricClient in_order
      in_order-IsReordering spec (refl, tt) (nothing_read, stale) (methods_read, fresh)
      (all_read, fresh) (fresh ∷ []) ((refl, tt), tt, tt, tt) sync_metrics_updates metrics_are_read
