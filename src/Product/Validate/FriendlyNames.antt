-- ===== src/Product/Validate/FriendlyNames.antt =====
-- The check of friendly names compares them with system names only.
use scale_operator.Prelude.{
  String, ◌≡◌, true, false, List, [], ◌∷◌, ◌++◌, arith, ==_iff, nat_eq, string_eq, contains,
  contains-append, Dict, keys, int_eq,
}
use scale_operator.Product.Types.{MetricSpec, MethodSpec, ProductSpec, entries}
use scale_operator.Product.Validate.{check_friendly_names}
use scale_operator.Product.Validate.Laws.{NamesFresh, seen_keys}
use scale_operator.Product.Validate.Accepts.{friendly_names_lem}

-- No name of a map is among the given keys.
abbrev pub NamesAvoid : {V : Type 0} → (V → String) → List String → Dict String V → Type 0
NamesAvoid name ks [] = Unit
NamesAvoid name ks ((_, v) ∷ m) = (contains ks (name v) ≡ false) × NamesAvoid name ks m

abbrev IsSubset : List String → List String → Type 0
IsSubset xs ys = (x : String) → contains xs x ≡ true → contains ys x ≡ true

fresh_of_avoid :
    {V : Type 0} (name : V → String) (ks seen : List String) (m : Dict String V)
    → IsSubset seen ks
    → IsSubset (keys m) ks
    → NamesAvoid name ks m
    → NamesFresh name seen m
fresh_of_avoid name ks seen [] sub all h = tt
fresh_of_avoid name ks seen ((k, v) ∷ m) sub all h = (
  ground (arith, sub (name v), h.0),
  fresh_of_avoid name ks (k ∷ seen) m (λ x c. ground (arith, sub x, all x, ==_iff x k))
      (λ x c. all x (ground (arith, c))) h.1,
)

seen_keys-subset :
    {V : Type 0} (ks seen : List String) (m : Dict String V)
    → IsSubset seen ks
    → IsSubset (keys m) ks
    → IsSubset (seen_keys seen m) ks
seen_keys-subset ks seen [] sub all = sub
seen_keys-subset ks seen ((k, v) ∷ m) sub all =
    seen_keys-subset ks (k ∷ seen) m (λ x c. ground (arith, sub x, all x, ==_iff x k))
      (λ x c. all x (ground (arith, c)))

-- Metrics and methods whose friendly names are not system names of the product pass the check of
-- friendly names, also where several have the same friendly name.
pub check_friendly_names_lem :
    (p : ProductSpec)
    → let ks = keys (entries p.metrics) ++ keys p.methods in
      NamesAvoid (λ (m : MetricSpec). m.name) ks (entries p.metrics)
      → NamesAvoid (λ (m : MethodSpec). m.name) ks p.methods
      → check_friendly_names p ≡ []
check_friendly_names_lem p hm hn =
    let ks = keys (entries p.metrics) ++ keys p.methods in
    let metrics : IsSubset (keys (entries p.metrics)) ks =
      λ x c. ground (arith, c, contains-append (keys (entries p.metrics)) (keys p.methods) x) in
    let methods : IsSubset (keys p.methods) ks =
      λ x c. ground (arith, c, contains-append (keys (entries p.metrics)) (keys p.methods) x) in
    (friendly_names_lem p).1 (
      fresh_of_avoid (λ (m : MetricSpec). m.name) ks [] (entries p.metrics) (λ x c. cc) metrics hm,
      fresh_of_avoid (λ (m : MethodSpec). m.name) ks (seen_keys [] (entries p.metrics)) p.methods
          (seen_keys-subset ks [] (entries p.metrics) (λ x c. cc) metrics) methods hn,
    )
