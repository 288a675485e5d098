-- ===== src/Tests/Methods.antt =====
-- The synchronisation of methods on an API that has room for one method.
use scale_operator.Prelude.{
  ℕ, String, ◌≡◌, refl, sym, ap, ◌⊎◌, inl, inr, false, Option, none, some, List, [], ◌∷◌, arith,
  if◌then◌else◌, Bool-cases, ◌==◌, ==_iff, ==_refl, nat_eq, string_eq, Dict, lookup, int_eq, subst,
}
use scale_operator.Iteration.{IsReordering}
use scale_operator.Product.Types.{ProductSpec}
use scale_operator.Capabilities.Params.{Params, value_or, put, put_present}
use scale_operator.Capabilities.Entity.{
  Metric, Method, Caches, Client, methods, create_method, update_method, delete_method,
}
use scale_operator.Capabilities.Sync.Items.{find, IsDistinct}
use scale_operator.Capabilities.Methods.{method_kind, sync_methods, method_changes, method_params}
use scale_operator.Capabilities.Methods.Laws.{updated_method, IsMadeMethod}
use scale_operator.Capabilities.Methods.Store.{IsMethodClient, IsCoherentMethods}
use scale_operator.Capabilities.Methods.Converges.{
  FitsMethod, sync_methods_lem, sync_methods_settled,
}

-- The API keeps at most one method, which has the identifier 1.
abbrev Slot : Type 0
Slot = Option Method

abbrev methods_of : Slot → List Method
methods_of none = []
methods_of (some m) = record m { id = 1 } ∷ []

abbrev made : Params → Method
made params = record {
  id = 1;
  name = value_or "" (lookup "friendly_name" params);
  system_name = value_or "" (lookup "system_name" params);
  description = value_or "" (lookup "description" params);
}

abbrev create_in_slot : Params → Slot → Option String × Slot
create_in_slot params none = (none, some (made params))
create_in_slot params (some m) = (some "limit reached", some m)

abbrev update_in_slot : ℕ → Params → Slot → Option String × Slot
update_in_slot id params none = (some "not found", none)
update_in_slot id params (some m) =
    if id == 1 then (none, some (updated_method params m)) else (some "not found", some m)

abbrev delete_in_slot : ℕ → Slot → Option String × Slot
delete_in_slot id w = if id == 1 then (none, none) else (some "not found", w)

abbrev hits : Metric
hits = record { id = 7; name = "Hits"; system_name = "hits"; description = ""; unit = "hit" }

abbrev client : Client Slot String
client = record {
  list_metrics = λ w. (inr (hits ∷ []), w);
  create_metric = λ params w. (some "not allowed", w);
  update_metric = λ id params w. (some "not allowed", w);
  delete_metric = λ id w. (some "not allowed", w);
  list_methods = λ id w. (inr (methods_of w), w);
  create_method = λ id params w. create_in_slot params w;
  update_method = λ h id params w. update_in_slot id params w;
  delete_method = λ h id w. delete_in_slot id w;
  hits_not_found = "hits not found";
}

-- The one method, under its system name.
only :
    (m : Method) (name : String) (item : Method)
    → find method_kind name (methods_of (some m)) ≡ some item
    → (item ≡ record m { id = 1 }) × (m.system_name ≡ name)
only m name item there = elim (Bool-cases (m.system_name == name)) [
  | inl same ↦ (ground (arith, there, same), (==_iff m.system_name name).0 same)
  | inr other ↦ absurd (ground (arith, there, other))
]

change_key :
    (m changed : Method) (key : String)
    → (if m.system_name == key then some changed else none) ≡ (
        if m.system_name == key
        then some changed
        else if m.system_name == key
        then some (record m { id = 1 })
        else none)
change_key m changed key = elim (Bool-cases (m.system_name == key)) [
  | inl same ↦ rw same refl
  | inr other ↦ rw other refl
]

updated :
    (w w' : Slot) (name : String) (item : Method) (params : Params)
    → find method_kind name (methods_of w) ≡ some item
    → update_in_slot item.id params w ≡ (none, w')
    → IsDistinct method_kind (methods_of w')
      × ((key : String)
          → find method_kind key (methods_of w') ≡ (
              if name == key
              then some (updated_method params item)
              else find method_kind key (methods_of w)))
updated none w' name item params there h = absurd (ground (arith, there))
updated (some m) w' name item params there h =
    let (is, named) = only m name item there in
    let accepted : update_in_slot 1 params (some m) ≡ (none, w') =
      subst (λ (i : Method). update_in_slot i.id params (some m) ≡ (none, w')) is h in
    let now : some (updated_method params m) ≡ w' =
      ap (λ (t : Option String × Slot). t.1) accepted in
    subst
      (λ v.
        IsDistinct method_kind (methods_of v)
        × ((key : String)
            → find method_kind key (methods_of v) ≡ (
                if name == key
                then some (updated_method params item)
                else find method_kind key (methods_of (some m)))))
      now
      (
        (refl, tt),
        λ key.
            subst
              (λ n. find method_kind key (methods_of (some (updated_method params m))) ≡ (
                if n == key
                then some (updated_method params item)
                else find method_kind key (methods_of (some m))))
              named
              (subst
                (λ (i : Method).
                  find method_kind key (methods_of (some (updated_method params m))) ≡ (
                    if m.system_name == key
                    then some (updated_method params i)
                    else find method_kind key (methods_of (some m))))
                (sym is) (change_key m (updated_method params (record m { id = 1 })) key)),
      )

deleted :
    (w w' : Slot) (name : String) (item : Method)
    → find method_kind name (methods_of w) ≡ some item
    → delete_in_slot item.id w ≡ (none, w')
    → IsDistinct method_kind (methods_of w')
      × ((key : String)
          → find method_kind key (methods_of w')
            ≡ (if name == key then none else find method_kind key (methods_of w)))
deleted none w' name item there h = absurd (ground (arith, there))
deleted (some m) w' name item there h =
    let (is, named) = only m name item there in
    let accepted : delete_in_slot 1 (some m) ≡ (none, w') =
      subst (λ (i : Method). delete_in_slot i.id (some m) ≡ (none, w')) is h in
    let now : none ≡ w' = ap (λ (t : Option String × Slot). t.1) accepted in
    subst
      (λ v.
        IsDistinct method_kind (methods_of v)
        × ((key : String)
            → find method_kind key (methods_of v)
              ≡ (if name == key then none else find method_kind key (methods_of (some m)))))
      now
      (
        tt,
        λ key.
            subst
              (λ n. none ≡ (if n == key then none else find method_kind key (methods_of (some m))))
              named
              (elim (Bool-cases (m.system_name == key)) [
                | inl same ↦ rw same refl
                | inr other ↦ rw other refl
              ]),
      )

created :
    (w w' : Slot) (name : String) (params : Params)
    → lookup "system_name" params ≡ some name
    → create_in_slot params w ≡ (none, w')
    → IsDistinct method_kind (methods_of w')
      × ((item : Method) × (find method_kind name (methods_of w') ≡ some item)
          × IsMadeMethod params item)
      × ((key : String)
          → (name == key) ≡ false
          → find method_kind key (methods_of w') ≡ find method_kind key (methods_of w))
created (some m) w' name params named h = absurd (ground (arith, h))
created none w' name params named h =
    let now : some (made params) ≡ w' = ap (λ (t : Option String × Slot). t.1) h in
    let called : (made params).system_name ≡ name = ap (value_or "") named in
    subst
      (λ v.
        IsDistinct method_kind (methods_of v)
        × ((item : Method) × (find method_kind name (methods_of v) ≡ some item)
            × IsMadeMethod params item)
        × ((key : String) → (name == key) ≡ false → find method_kind key (methods_of v) ≡ none))
      now
      (
        (refl, tt),
        (made params, rw called (rw (==_refl name) refl), (refl, refl)),
        λ key other. rw called (rw other refl),
      )

client-IsMethodClient : IsMethodClient client methods_of
client-IsMethodClient = record {
  metrics_listed = λ w w' l h. ap (λ (t : (String ⊎ List Metric) × Slot). methods_of t.1) (sym h);
  methods_listed = λ hits w w' l h. (cc, cc);
  method_updated = λ hits w w' name item params d. updated w w' name item params;
  method_deleted = λ hits w w' name item d. deleted w w' name item;
  method_created = λ hits w w' name params d named absent. created w w' name params named;
}

abbrev spec : ProductSpec
spec = record {
  name = "api";
  system_name = "api";
  description = "";
  deployment = none;
  mapping_rules = [];
  backend_usages = [];
  metrics = none;
  methods = ("search", record { name = "Search"; description = "Full text" }) ∷ [];
  application_plans = [];
  policies = [];
}

abbrev pub in_order : (V : Type 0) → Dict String V → Dict String V
in_order V m = m

pub in_order-IsReordering : IsReordering in_order
in_order-IsReordering = record {
  lookup_reorder = λ m key is_map. refl;
  reorder_IsMap = λ m is_map. is_map;
}

abbrev pub nothing_read : Caches
nothing_read = record { metrics = none; metrics_and_methods = none; methods = none }

abbrev stale : Method
stale = record { id = 1; name = "search"; system_name = "search"; description = "Full text" }

abbrev fresh : Method
fresh = record { id = 1; name = "Search"; system_name = "search"; description = "Full text" }

sync_methods_updates :
    sync_methods client in_order spec (nothing_read, some stale)
    ≡ (none, (nothing_read, some fresh))
unfolding sync_methods methods method_changes method_params put put_present create_method
    update_method delete_method
sync_methods_updates = refl

sync_methods_creates :
    sync_methods client in_order spec (nothing_read, none) ≡ (none, (nothing_read, some fresh))
unfolding sync_methods methods method_changes method_params put put_present create_method
    update_method delete_method
sync_methods_creates = refl

sync_methods_deletes :
    sync_methods client in_order (record spec { methods = [] }) (nothing_read, some stale)
    ≡ (none, (nothing_read, none))
unfolding sync_methods methods method_changes method_params put put_present create_method
    update_method delete_method
sync_methods_deletes = refl

sync_methods_lem_example :
    IsCoherentMethods client methods_of (nothing_read, some fresh)
    × ((key : String)
        → FitsMethod (lookup key spec.methods) (find method_kind key (methods_of (some fresh))))
sync_methods_lem_example =
    sync_methods_lem client methods_of client-IsMethodClient in_order in_order-IsReordering spec
      (refl, tt) (nothing_read, some stale) (nothing_read, some fresh) ((refl, tt), tt)
      sync_methods_updates

sync_methods_settled_example : sync_methods client in_order spec (nothing_read, some fresh) ≡ (
  none,
  (
    record { metrics = none; metrics_and_methods = some (hits ∷ []); methods = some (fresh ∷ []) },
    some fresh,
  ),
)
unfolding methods
sync_methods_settled_example =
    sync_methods_settled client methods_of client-IsMethodClient in_order in_order-IsReordering spec
      (refl, tt) (nothing_read, none) (nothing_read, some fresh) _ (fresh ∷ []) (tt, tt)
      sync_methods_creates refl
