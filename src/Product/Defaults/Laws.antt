-- ===== src/Product/Defaults/Laws.antt =====
-- What the defaults establish, and when a second run changes nothing.
use scale_operator.Prelude.{
  String, ◌≡◌, refl, ◌∙◌, true, false, List, [], ◌∷◌, ◌++◌, arith, ◌==◌, ==_iff, nat_eq, string_eq,
  contains, any_by, Dict, is_some, keys, insert, int_eq,
}
use scale_operator.Product.Types.{MetricSpec, PolicyConfig, ProductSpec, entries}
use scale_operator.Product.Defaults.{
  hits_metric, apicast_policy, default_system_name, default_metrics, default_hits, has_apicast,
  default_policy, fill_configurations, default_configurations, set_defaults,
}

keys-insert :
    (k : String) (v : MetricSpec) (m : Dict String MetricSpec)
    → contains (keys (insert k v m)) k ≡ true
keys-insert k v [] = ground (arith, ==_iff k k)
keys-insert k v ((j, w) ∷ m) = ground (arith, keys-insert k v m, ==_iff j k, ==_iff k k)

has_apicast-append : (qs : List PolicyConfig) → has_apicast (qs ++ apicast_policy ∷ []) ≡ true
has_apicast-append [] = refl
has_apicast-append (q ∷ qs) = ground (arith, has_apicast-append qs)

-- Every policy has a configuration.
abbrev pub AreConfigured : List PolicyConfig → Type 0
AreConfigured [] = Unit
AreConfigured (q ∷ qs) = (is_some q.configuration ≡ true) × AreConfigured qs

fill_configurations_lem :
    (qs : List PolicyConfig)
    → AreConfigured (fill_configurations qs).1
      × (has_apicast (fill_configurations qs).1 ≡ has_apicast qs)
unfolding fill_configurations
fill_configurations_lem [] = (tt, refl)
fill_configurations_lem (q ∷ qs) = ground (arith, fill_configurations_lem qs)

configured_unchanged :
    (qs : List PolicyConfig) → AreConfigured qs → fill_configurations qs ≡ (false, qs)
unfolding fill_configurations
configured_unchanged [] h = refl
configured_unchanged (q ∷ qs) h = ground (arith, configured_unchanged qs h.1)

unset_configured : (qs : List PolicyConfig) → (fill_configurations qs).0 ≡ false → AreConfigured qs
unfolding fill_configurations
unset_configured [] h = tt
unset_configured (q ∷ qs) h = ground (arith, unset_configured qs)

-- What a product needs to have all its defaults.
pub record HasDefaults (p : ProductSpec) : Type 0 where
  pub metrics_made : is_some p.metrics ≡ true
  pub hits : contains (keys (entries p.metrics)) "hits" ≡ true
  pub apicast : any_by (λ (q : PolicyConfig). q.name == "apicast") p.policies ≡ true
  pub configured : AreConfigured p.policies

default_hits_lem :
    (p : ProductSpec)
    → is_some p.metrics ≡ true
    → (is_some (default_hits p).1.metrics ≡ true)
      × (contains (keys (entries (default_hits p).1.metrics)) "hits" ≡ true)
unfolding default_hits
default_hits_lem p h = ground (arith, keys-insert "hits" hits_metric (entries p.metrics))

default_policy_lem :
    (p : ProductSpec)
    → ((default_policy p).1.metrics ≡ p.metrics)
      × (has_apicast (default_policy p).1.policies ≡ true)
unfolding default_policy
default_policy_lem p = ground (arith, has_apicast-append p.policies)

system_name_kept :
    (sanitize : String → String) (p : ProductSpec)
    → (default_system_name sanitize p).0 ≡ false
    → (default_system_name sanitize p).1 ≡ p
unfolding default_system_name
system_name_kept sanitize p h = ground arith

metrics_kept : (p : ProductSpec) → (default_metrics p).0 ≡ false → (default_metrics p).1 ≡ p
unfolding default_metrics
metrics_kept p h = ground arith

hits_kept : (p : ProductSpec) → (default_hits p).0 ≡ false → (default_hits p).1 ≡ p
unfolding default_hits
hits_kept p h = ground arith

policy_kept : (p : ProductSpec) → (default_policy p).0 ≡ false → (default_policy p).1 ≡ p
unfolding default_policy
policy_kept p h = ground arith

configurations_kept :
    (p : ProductSpec) → (default_configurations p).0 ≡ false → (default_configurations p).1 ≡ p
unfolding default_configurations
configurations_kept p h = rw (configured_unchanged p.policies (unset_configured p.policies h))

module _ (sanitize : String → String) where
  -- After the defaults are set the spec has a map of metrics with `hits` in it and an `apicast`
  -- policy, and every policy has a configuration.
  pub set_defaults-HasDefaults : (p : ProductSpec) → HasDefaults (set_defaults sanitize p).1
  unfolding set_defaults default_metrics default_configurations
  set_defaults-HasDefaults p =
      let p₁ = (default_system_name sanitize p).1 in
      let p₂ = (default_metrics p₁).1 in
      let p₃ = (default_hits p₂).1 in
      let hits = default_hits_lem p₂ (ground arith) in
      let chained = default_policy_lem p₃ in
      let filled = fill_configurations_lem (default_policy p₃).1.policies in
      record {
        metrics_made = rw chained.0 hits.0;
        hits = rw chained.0 hits.1;
        apicast = filled.1 ∙ chained.1;
        configured = filled.0;
      }

  -- A spec with a system name and all its defaults is left as it is, and no update is reported.
  pub set_defaults_fixed :
      (p : ProductSpec)
      → (p.system_name == "") ≡ false
      → HasDefaults p
      → set_defaults sanitize p ≡ (false, p)
  unfolding set_defaults
  set_defaults_fixed p n h =
      let named : default_system_name sanitize p ≡ (false, p) =
        unfold default_system_name in rw n in
      let made : default_metrics p ≡ (false, p) = unfold default_metrics in ground arith in
      let hit : default_hits p ≡ (false, p) = unfold default_hits in rw h.hits in
      let chained : default_policy p ≡ (false, p) = unfold default_policy in rw h.apicast in
      let configured : default_configurations p ≡ (false, p) =
        unfold default_configurations in rw (configured_unchanged p.policies h.configured) in
      rw (named, made, hit, chained, configured)

  -- A run that reports no update leaves the spec as it is.
  pub unchanged_of_false :
      (p : ProductSpec) → (set_defaults sanitize p).0 ≡ false → (set_defaults sanitize p).1 ≡ p
  unfolding set_defaults
  unchanged_of_false p h =
      let p₁ = (default_system_name sanitize p).1 in
      let p₂ = (default_metrics p₁).1 in
      let p₃ = (default_hits p₂).1 in
      let p₄ = (default_policy p₃).1 in
      configurations_kept p₄ (ground arith)
      ∙ (policy_kept p₃ (ground arith)
          ∙ (hits_kept p₂ (ground arith)
              ∙ (metrics_kept p₁ (ground arith) ∙ system_name_kept sanitize p (ground arith))))

  -- Defaults settle: with a system name after the first run, the second changes nothing and
  -- reports no update; with none it reports an update again.
  pub set_defaults_twice :
      (p : ProductSpec)
      → let p' = (set_defaults sanitize p).1 in
        ((p'.system_name == "") ≡ false → set_defaults sanitize p' ≡ (false, p'))
        × ((p'.system_name == "") ≡ true → (set_defaults sanitize p').0 ≡ true)
  set_defaults_twice p =
      let p' = (set_defaults sanitize p).1 in
      (
        λ n. set_defaults_fixed p' n (set_defaults-HasDefaults p),
        λ e. unfold set_defaults default_system_name in rw e,
      )
