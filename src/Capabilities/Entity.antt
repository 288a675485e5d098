-- ===== src/Capabilities/Entity.antt =====
-- The metrics and methods of an entity (pkg/controller/helper/product_entity.go): what it keeps of the
-- lists that it has read, until a request changes them. The requests of the API's client are
-- parameters, on a state of the API; the text that errors are wrapped in is left out.
pub mod Reads
use scale_operator.Prelude.{
  ℕ, String, ◌⊎◌, inl, inr, Option, none, some, List, [], ◌∷◌, ◌++◌, map, if◌then◌else◌, ◌==◌,
  nat_eq, string_eq, int_eq,
}
use scale_operator.Capabilities.Params.{Params}
use scale_operator.Helper.Slices.{array_string_difference}

pub record Method : Type 0 where
  pub id : ℕ
  pub name : String
  pub system_name : String
  pub description : String

pub record Metric : Type 0 where
  pub id : ℕ
  pub name : String
  pub system_name : String
  pub description : String
  pub unit : String

-- The fields of the entity that stand for lists already read.
pub record Caches : Type 0 where
  pub metrics : Option (List Metric)
  pub metrics_and_methods : Option (List Metric)
  pub methods : Option (List Method)

-- The client's requests about an entity, and the error for a missing hits metric.
pub record Client (W E : Type 0) : Type 0 where
  pub list_metrics : W → (E ⊎ List Metric) × W
  pub create_metric : Params → W → Option E × W
  pub update_metric : ℕ → Params → W → Option E × W
  pub delete_metric : ℕ → W → Option E × W
  pub list_methods : ℕ → W → (E ⊎ List Method) × W
  pub create_method : ℕ → Params → W → Option E × W
  pub update_method : ℕ → ℕ → Params → W → Option E × W
  pub delete_method : ℕ → ℕ → W → Option E × W
  pub hits_not_found : E

unfoldable pub reset_methods : Caches → Caches
reset_methods c = record c { metrics_and_methods = none; methods = none }

unfoldable pub reset_metrics : Caches → Caches
reset_metrics c = record c { metrics_and_methods = none; metrics = none }

-- The metric that counts hits.
unfoldable pub find_hits : List Metric → Option ℕ
find_hits [] = none
find_hits (metric ∷ rest) =
    let found = find_hits rest in if metric.system_name == "hits" then some metric.id else found

-- The metrics of a name, and those of a list of names.
unfoldable pub metrics_named : String → List Metric → List Metric
metrics_named name [] = []
metrics_named name (metric ∷ rest) =
    let others = metrics_named name rest in
    if metric.system_name == name then metric ∷ others else others

unfoldable pub metrics_of_names : List String → List Metric → List Metric
unfolding metrics_named
metrics_of_names [] all = []
metrics_of_names (name ∷ names) all = metrics_named name all ++ metrics_of_names names all

-- `if err != nil { return nil, err }` before what follows.
unfoldable pub on_result : {E A B Y : Type 0} → (E ⊎ A) × Y → (A → Y → (E ⊎ B) × Y) → (E ⊎ B) × Y
on_result (inl err, y) rest = (inl err, y)
on_result (inr a, y) rest = rest a y

-- A list that is kept, or is read and kept.
unfoldable pub read_through :
    {E A Y : Type 0}
    → Option (List A)
    → (List A → Y → Y)
    → (Y → (E ⊎ List A) × Y)
    → Y
    → (E ⊎ List A) × Y
unfolding on_result
read_through (some l) keep get y = (inr l, y)
read_through none keep get y = on_result (get y) (λ l y'. (inr l, keep l y'))

module _ {W E : Type 0} (client : Client W E) where
  unfoldable pub get_metrics_and_methods : Caches × W → (E ⊎ List Metric) × (Caches × W)
  get_metrics_and_methods (c, w) = let (answer, w') = client.list_metrics w in (answer, (c, w'))

  unfoldable pub metrics_and_methods : Caches × W → (E ⊎ List Metric) × (Caches × W)
  unfolding get_metrics_and_methods read_through
  metrics_and_methods x =
      read_through x.0.metrics_and_methods
        (λ l (c, w). (record c { metrics_and_methods = some l }, w)) get_metrics_and_methods x

  -- What is found of the metric that counts hits.
  unfoldable pub hits_or_error : Option ℕ → E ⊎ ℕ
  hits_or_error none = inl client.hits_not_found
  hits_or_error (some id) = inr id

  unfoldable pub get_hits_id : Caches × W → (E ⊎ ℕ) × (Caches × W)
  unfolding metrics_and_methods find_hits hits_or_error on_result
  get_hits_id x = on_result (metrics_and_methods x) (λ l y. (hits_or_error (find_hits l), y))

  unfoldable pub get_methods : Caches × W → (E ⊎ List Method) × (Caches × W)
  unfolding get_hits_id on_result
  get_methods x =
      on_result (get_hits_id x)
        (λ hits (c, w). let (answer, w') = client.list_methods hits w in (answer, (c, w')))

  unfoldable pub methods : Caches × W → (E ⊎ List Method) × (Caches × W)
  unfolding get_methods read_through
  methods x =
      read_through x.0.methods (λ l (c, w). (record c { methods = some l }, w)) get_methods x

  unfoldable pub get_metrics : Caches × W → (E ⊎ List Metric) × (Caches × W)
  unfolding metrics_and_methods methods on_result metrics_of_names array_string_difference
  get_metrics x = on_result (metrics_and_methods x) (λ all y. on_result (methods y) (λ methods z. (
    inr (
        metrics_of_names
          (array_string_difference (map (λ (m : Metric). m.system_name) all)
            (map (λ (m : Method). m.system_name) methods))
          all),
    z,
  )))

  unfoldable pub metrics : Caches × W → (E ⊎ List Metric) × (Caches × W)
  unfolding get_metrics read_through
  metrics x =
      read_through x.0.metrics (λ l (c, w). (record c { metrics = some l }, w)) get_metrics x

  -- A request's answer, after which the lists are read again.
  unfoldable pub reset_after : (Caches → Caches) → Caches → Option E × W → Option E × (Caches × W)
  reset_after reset c (some err, w) = (some err, (c, w))
  reset_after reset c (none, w) = (none, (reset c, w))

  -- A request that needs the metric that counts hits.
  unfoldable pub with_hits :
      (ℕ → W → Option E × W) → (E ⊎ ℕ) × (Caches × W) → Option E × (Caches × W)
  unfolding reset_after reset_methods
  with_hits request (inl err, x) = (some err, x)
  with_hits request (inr hits, (c, w)) = reset_after reset_methods c (request hits w)

  unfoldable pub create_method : Params → Caches × W → Option E × (Caches × W)
  unfolding with_hits get_hits_id
  create_method params x = with_hits (λ hits. client.create_method hits params) (get_hits_id x)

  unfoldable pub update_method : ℕ → Params → Caches × W → Option E × (Caches × W)
  unfolding with_hits get_hits_id
  update_method id params x =
      with_hits (λ hits. client.update_method hits id params) (get_hits_id x)

  unfoldable pub delete_method : ℕ → Caches × W → Option E × (Caches × W)
  unfolding with_hits get_hits_id
  delete_method id x = with_hits (λ hits. client.delete_method hits id) (get_hits_id x)

  unfoldable pub create_metric : Params → Caches × W → Option E × (Caches × W)
  unfolding reset_after reset_metrics
  create_metric params (c, w) = reset_after reset_metrics c (client.create_metric params w)

  unfoldable pub update_metric : ℕ → Params → Caches × W → Option E × (Caches × W)
  unfolding reset_after reset_metrics
  update_metric id params (c, w) = reset_after reset_metrics c (client.update_metric id params w)

  unfoldable pub delete_metric : ℕ → Caches × W → Option E × (Caches × W)
  unfolding reset_after reset_metrics
  delete_metric id (c, w) = reset_after reset_metrics c (client.delete_metric id w)
