-- ===== src/Capabilities/Metrics/Laws.antt =====
-- The requests about metrics ask for what they should.
use scale_operator.Prelude.{
  ◌≡◌, refl, ap, ◌∙◌, true, some, [], arith, ==_iff, nat_eq, string_eq, lookup, int_eq,
}
use scale_operator.Product.Types.{MetricSpec}
use scale_operator.Capabilities.Params.{
  Params, put, value_or, put_equal, put_applied, put_other, put_present_applied, put_present_other,
  is_empty, is_empty-put,
}
use scale_operator.Capabilities.Entity.{Metric}
use scale_operator.Capabilities.Metrics.{metric_changes, metric_params, metric_kind}
use scale_operator.Capabilities.Sync.Store.{IsSettling}

-- A metric after an update, in which a parameter that is absent changes nothing.
abbrev pub updated_metric : Params → Metric → Metric
updated_metric params item = record item {
  name = value_or item.name (lookup "friendly_name" params);
  unit = value_or item.unit (lookup "unit" params);
  description = value_or item.description (lookup "description" params);
}

-- A metric that was created from parameters; one without a description has an empty one.
abbrev pub IsMadeMetric : Params → Metric → Type 0
IsMadeMetric params item =
    (item.name ≡ value_or "" (lookup "friendly_name" params))
    × (item.unit ≡ value_or "" (lookup "unit" params))
    × (item.description ≡ value_or "" (lookup "description" params))

-- The metric is as specified.
abbrev pub Matches : MetricSpec → Metric → Type 0
Matches spec item =
    (item.name ≡ spec.name) × (item.unit ≡ spec.unit) × (item.description ≡ spec.description)

metric_changes-none :
    (spec : MetricSpec) (item : Metric) → Matches spec item → metric_changes spec item ≡ []
unfolding metric_changes
metric_changes-none spec item (n, u, d) =
    put_equal "description" spec.description item.description _ d
    ∙ put_equal "unit" spec.unit item.unit _ u
    ∙ put_equal "friendly_name" spec.name item.name [] n

pub metric_changes-Matches :
    (spec : MetricSpec) (item : Metric) → metric_changes spec item ≡ [] → Matches spec item
unfolding metric_changes
metric_changes-Matches spec item h =
    let named = put "friendly_name" (some spec.name) item.name [] in
    let empty : is_empty (metric_changes spec item) ≡ true = ap is_empty h in
    let first = is_empty-put "friendly_name" (some spec.name) item.name [] in
    let second = is_empty-put "unit" (some spec.unit) item.unit named in
    let third =
      is_empty-put "description" (some spec.description) item.description
        (put "unit" (some spec.unit) item.unit named) in
    (
      ground (arith, empty, first, second, third, ==_iff item.name spec.name),
      ground (arith, empty, first, second, third, ==_iff item.unit spec.unit),
      ground (arith, empty, first, second, third, ==_iff item.description spec.description),
    )

changes_applied :
    (spec : MetricSpec) (item : Metric)
    → Matches spec (updated_metric (metric_changes spec item) item)
unfolding metric_changes
changes_applied spec item =
    let named = put "friendly_name" (some spec.name) item.name [] in
    let units = put "unit" (some spec.unit) item.unit named in
    (
      ap (value_or item.name) (
            put_other "description" spec.description item.description "friendly_name" units refl
            ∙ put_other "unit" spec.unit item.unit "friendly_name" named refl)
          ∙ put_applied "friendly_name" spec.name item.name [] refl,
      ap (value_or item.unit)
            (put_other "description" spec.description item.description "unit" units refl)
          ∙ put_applied "unit" spec.unit item.unit named
              (put_other "friendly_name" spec.name item.name "unit" [] refl),
      put_applied "description" spec.description item.description units (
          put_other "unit" spec.unit item.unit "description" named refl
          ∙ put_other "friendly_name" spec.name item.name "description" [] refl),
    )

pub metric_kind-IsSettling : IsSettling metric_kind updated_metric IsMadeMetric
unfolding metric_params
metric_kind-IsSettling = record {
  changes_applied = λ spec item. metric_changes-none spec _ (changes_applied spec item);
  changes_made = λ name spec item (n, u, d). metric_changes-none spec item (
    n ∙ ap (value_or "") (put_present_other "description" spec.description "friendly_name" _ refl),
    u ∙ ap (value_or "") (put_present_other "description" spec.description "unit" _ refl),
    d ∙ put_present_applied "description" spec.description _ refl,
  );
  new_name = λ name spec. put_present_other "description" spec.description "system_name" _ refl;
}
