-- ===== src/Capabilities/Metrics/Store/Reads.antt =====
-- Reading the metrics keeps the entity's lists in step with the API.
use scale_operator.Prelude.{
  ◌≡◌, sym, ap, ◌∙◌, ◌⊎◌, inl, inr, some, List, [], nat_eq, string_eq, int_eq, subst,
}
use scale_operator.Helper.Slices.{array_string_difference}
use scale_operator.Capabilities.Entity.{
  Metric, Method, Caches, Client, get_hits_id, metrics_and_methods, methods, get_methods, metrics,
  get_metrics, metrics_of_names, on_result,
}
use scale_operator.Capabilities.Entity.Reads.{
  on_result-inr, read_through-inr, Keeps, metrics_and_methods_law, get_hits_id_law,
}
use scale_operator.Capabilities.Metrics.Listed.{
  only_metrics, listed_metrics, metric_names, method_names,
}
use scale_operator.Capabilities.Metrics.Store.{
  IsMetricClient, Coheres, IsCoherentMetrics, metrics_of, IsSame,
}

Coheres-same :
    (c : Caches) (all all' : List Metric) (methods methods' : List Method)
    → Coheres c all methods
    → all' ≡ all
    → methods' ≡ methods
    → Coheres c all' methods'
Coheres-same c all all' methods methods' ok a m =
    subst (λ l. Coheres c l methods') (sym a) (subst (λ l. Coheres c all l) (sym m) ok)

abbrev right_or : {E A : Type 0} → A → E ⊎ A → A
right_or a (inl err) = a
right_or a (inr b) = b

module _ {W E : Type 0} (client : Client W E) (all_of : W → List Metric)
    (methods_of : W → List Method) (api : IsMetricClient client all_of methods_of) where
  pub all_read :
      (x y : Caches × W) (l : List Metric)
      → IsCoherentMetrics all_of methods_of x
      → metrics_and_methods client x ≡ (inr l, y)
      → (l ≡ all_of x.1) × IsCoherentMetrics all_of methods_of y × IsSame all_of methods_of x y
  all_read x y l (distinct, keeps_all, keeps_methods, keeps_metrics) h =
      let (methods_kept, metrics_kept, how) = metrics_and_methods_law client x y l h in
      elim how [
        | inl (there, same) ↦ (
          subst (λ o. Keeps o (all_of x.1)) there keeps_all,
          subst (IsCoherentMetrics all_of methods_of) (sym same)
              (distinct, keeps_all, keeps_methods, keeps_metrics),
          (ap (λ (z : Caches × W). all_of z.1) same, ap (λ (z : Caches × W). methods_of z.1) same),
        )
        | inr (listed, kept) ↦
            let (is, same_all, same_methods) = api.all_listed x.1 y.1 l listed in
            let now : Coheres y.0 (all_of x.1) (methods_of x.1) = (
              distinct,
              subst (λ o. Keeps o (all_of x.1)) (sym kept) is,
              subst (λ o. Keeps o (methods_of x.1)) (sym methods_kept) keeps_methods,
              subst (λ o. Keeps o (metrics_of all_of methods_of x)) (sym metrics_kept)
                  keeps_metrics,
            ) in
            (is, Coheres-same y.0 _ _ _ _ now same_all same_methods, (same_all, same_methods))
      ]

  pub methods_read :
      (x x' : Caches × W) (l : List Method)
      → IsCoherentMetrics all_of methods_of x
      → methods client x ≡ (inr l, x')
      → (l ≡ methods_of x.1)
        × IsCoherentMetrics all_of methods_of x'
        × IsSame all_of methods_of x x'
  unfolding methods get_methods
  methods_read x x' l ok h =
      elim (read_through-inr x.0.methods (λ m (c, w). (record c { methods = some m }, w))
        (get_methods client) x x' l h) [
          | inl (there, same) ↦ (
            subst (λ o. Keeps o (methods_of x.1)) there ok.2,
            subst (IsCoherentMetrics all_of methods_of) (sym same) ok,
            (
              ap (λ (z : Caches × W). all_of z.1) same,
              ap (λ (z : Caches × W). methods_of z.1) same,
            ),
          )
          | inr (z, absent, got, same) ↦
              let (hits, y, read, e) =
                on_result-inr (get_hits_id client x)
                  (λ hits (c, w).
                    let (answer, w') = client.list_methods hits w in (answer, (c, w')))
                  l z got in
              let (all, read_all) = get_hits_id_law client x y hits read in
              let (_, ok_y, (all_y, methods_y)) = all_read x y all ok read_all in
              let listed : client.list_methods hits y.1 ≡ (inr l, z.1) =
                ap (λ (t : (E ⊎ List Method) × (Caches × W)). (t.0, t.1.1)) e in
              let held : y.0 ≡ z.0 = ap (λ (t : (E ⊎ List Method) × (Caches × W)). t.1.0) e in
              let (is, all_z, methods_z) = api.methods_listed hits y.1 z.1 l listed in
              let ok_z : Coheres z.0 (all_of z.1) (methods_of z.1) =
                subst (λ c. Coheres c (all_of z.1) (methods_of z.1)) held
                  (Coheres-same y.0 _ _ _ _ ok_y all_z methods_z) in
              (
                is ∙ methods_y,
                subst (IsCoherentMetrics all_of methods_of) (sym same)
                    (ok_z.0, ok_z.1, is ∙ sym methods_z, ok_z.3),
                (
                  ap (λ (v : Caches × W). all_of v.1) same ∙ all_z ∙ all_y,
                  ap (λ (v : Caches × W). methods_of v.1) same ∙ methods_z ∙ methods_y,
                ),
              )
        ]

  pub metrics_read :
      (x x' : Caches × W) (l : List Metric)
      → IsCoherentMetrics all_of methods_of x
      → metrics client x ≡ (inr l, x')
      → (l ≡ metrics_of all_of methods_of x)
        × IsCoherentMetrics all_of methods_of x'
        × (metrics_of all_of methods_of x' ≡ metrics_of all_of methods_of x)
        × (methods_of x'.1 ≡ methods_of x.1)
  unfolding metrics get_metrics
  metrics_read x x' l ok h =
      elim (read_through-inr x.0.metrics (λ m (c, w). (record c { metrics = some m }, w))
        (get_metrics client) x x' l h) [
          | inl (there, same) ↦ (
            subst (λ o. Keeps o (metrics_of all_of methods_of x)) there ok.3,
            subst (IsCoherentMetrics all_of methods_of) (sym same) ok,
            ap (metrics_of all_of methods_of) same,
            ap (λ (t : Caches × W). methods_of t.1) same,
          )
          | inr (z, absent, got, same) ↦
              let (all, y, read_all, rest) =
                on_result-inr (metrics_and_methods client x)
                  (λ all y. on_result (methods client y) (λ ms v. (
                    inr (
                        metrics_of_names
                          (array_string_difference (metric_names all) (method_names ms)) all),
                    v,
                  )))
                  l z got in
              let (ms, v, read_methods, e) =
                on_result-inr (methods client y)
                  (λ ms v. (
                    inr (
                        metrics_of_names
                          (array_string_difference (metric_names all) (method_names ms)) all),
                    v,
                  ))
                  l z rest in
              let (is_all, ok_y, (all_y, methods_y)) = all_read x y all ok read_all in
              let (is_ms, ok_v, (all_v, methods_v)) = methods_read y v ms ok_y read_methods in
              let end : v ≡ z = ap (λ (t : (E ⊎ List Metric) × (Caches × W)). t.1) e in
              let made = ap (λ (t : (E ⊎ List Metric) × (Caches × W)). right_or [] t.0) e in
              let is : l ≡ metrics_of all_of methods_of x =
                sym made
                ∙ ap
                    (λ a.
                      metrics_of_names (array_string_difference (metric_names a) (method_names ms))
                        a)
                    is_all
                ∙ ap
                    (λ m.
                      metrics_of_names
                        (array_string_difference (metric_names (all_of x.1)) (method_names m))
                        (all_of x.1))
                    (is_ms ∙ methods_y)
                ∙ listed_metrics (methods_of x.1) (all_of x.1) ok.0 in
              let all_z = ap (λ (t : Caches × W). all_of t.1) (sym end) ∙ all_v ∙ all_y in
              let methods_z =
                ap (λ (t : Caches × W). methods_of t.1) (sym end) ∙ methods_v ∙ methods_y in
              let kept : metrics_of all_of methods_of z ≡ metrics_of all_of methods_of x =
                ap (λ a. only_metrics (methods_of z.1) a) all_z
                ∙ ap (λ m. only_metrics m (all_of x.1)) methods_z in
              let ok_z = subst (IsCoherentMetrics all_of methods_of) end ok_v in
              (
                is,
                subst (IsCoherentMetrics all_of methods_of) (sym same)
                    (ok_z.0, ok_z.1, ok_z.2, is ∙ sym kept),
                ap (metrics_of all_of methods_of) same ∙ kept,
                ap (λ (t : Caches × W). methods_of t.1) same ∙ methods_z,
              )
        ]
