-- ===== src/Capabilities/Methods/Converges.antt =====
-- What the synchronisation of a product's methods leaves at the API.
use scale_operator.Prelude.{
  String, ◌≡◌, refl, ap, inr, true, Option, none, some, List, [], arith, ==_iff, nat_eq, string_eq,
  Dict, lookup, int_eq,
}
use scale_operator.Iteration.{IsMap, IsReordering}
use scale_operator.Product.Types.{MethodSpec, ProductSpec}
use scale_operator.Capabilities.Params.{put, is_empty, is_empty-put}
use scale_operator.Capabilities.Entity.{Method, Caches, Client, methods}
use scale_operator.Capabilities.Sync.Items.{find}
use scale_operator.Capabilities.Sync.Converges.{IsAsDesired, sync_law, sync_idle}
use scale_operator.Capabilities.Methods.{method_changes, method_kind, method_access, sync_methods}
use scale_operator.Capabilities.Methods.Laws.{updated_method, IsMadeMethod, method_kind-IsSettling}
use scale_operator.Capabilities.Methods.Store.{IsMethodClient, IsCoherentMethods, methods-IsStore}

-- The method of a system name is the one that is specified, and there is none if none is.
abbrev pub FitsMethod : Option MethodSpec → Option Method → Type 0
FitsMethod none item = item ≡ none
FitsMethod (some spec) item =
    (m : Method) × (item ≡ some m) × (m.name ≡ spec.name) × (m.description ≡ spec.description)

method_changes-fits :
    (spec : MethodSpec) (item : Method)
    → method_changes spec item ≡ []
    → (item.name ≡ spec.name) × (item.description ≡ spec.description)
unfolding method_changes
method_changes-fits spec item h =
    let params = put "friendly_name" (some spec.name) item.name [] in
    let empty : is_empty (method_changes spec item) ≡ true = ap is_empty h in
    let outer = is_empty-put "description" (some spec.description) item.description params in
    let inner = is_empty-put "friendly_name" (some spec.name) item.name [] in
    (
      ground (arith, empty, outer, inner, ==_iff item.name spec.name),
      ground (arith, empty, outer, inner, ==_iff item.description spec.description),
    )

IsAsDesired-FitsMethod :
    (d : Option MethodSpec) (i : Option Method) → IsAsDesired method_kind d i → FitsMethod d i
IsAsDesired-FitsMethod none i h = h
IsAsDesired-FitsMethod (some spec) none h = absurd h
IsAsDesired-FitsMethod (some spec) (some item) h =
    let (n, d) = method_changes-fits spec item h in (item, refl, n, d)

module _ {W E : Type 0} (client : Client W E) (methods_of : W → List Method)
    (api : IsMethodClient client methods_of)
    (reorder : (V : Type 0) → Dict String V → Dict String V) (reordering : IsReordering reorder)
    (p : ProductSpec) (is_map : IsMap p.methods) where
  synced :
      (x x' : Caches × W)
      → IsCoherentMethods client methods_of x
      → sync_methods client reorder p x ≡ (none, x')
      → IsCoherentMethods client methods_of x'
        × ((key : String)
            → IsAsDesired method_kind
                (lookup key p.methods)
                (find method_kind key (methods_of x'.1)))
  unfolding sync_methods
  synced =
      sync_law (method_access client) method_kind (λ x. methods_of x.1)
        (IsCoherentMethods client methods_of) updated_method IsMadeMethod
        (methods-IsStore client methods_of api) method_kind-IsSettling reorder reordering p.methods
        is_map

  -- Where the API keeps methods of distinct system names and does what the requests that it accepts
  -- say, and a list that the entity keeps is the API's: after a synchronisation without an error,
  -- whatever the order in which the maps are iterated, the API has exactly the methods of the spec,
  -- each with its name and its description, and a list that the entity keeps is still the API's.
  pub sync_methods_lem :
      (x x' : Caches × W)
      → IsCoherentMethods client methods_of x
      → sync_methods client reorder p x ≡ (none, x')
      → IsCoherentMethods client methods_of x'
        × ((key : String)
            → FitsMethod (lookup key p.methods) (find method_kind key (methods_of x'.1)))
  sync_methods_lem x x' ok h =
      let (ok', all) = synced x x' ok h in
      (ok', λ key. IsAsDesired-FitsMethod (lookup key p.methods) _ (all key))

  -- Under the same conditions, when the list can be read after a synchronisation without an error, the
  -- next synchronisation makes no request but those of reading the list, and has no error.
  pub sync_methods_settled :
      (x x' y : Caches × W) (l : List Method)
      → IsCoherentMethods client methods_of x
      → sync_methods client reorder p x ≡ (none, x')
      → methods client x' ≡ (inr l, y)
      → sync_methods client reorder p x' ≡ (none, y)
  unfolding sync_methods
  sync_methods_settled x x' y l ok h listed =
      let (ok', all) = synced x x' ok h in
      sync_idle (method_access client) method_kind (λ x. methods_of x.1)
        (IsCoherentMethods client methods_of) updated_method IsMadeMethod
        (methods-IsStore client methods_of api) method_kind-IsSettling reorder reordering p.methods
        is_map x' y l ok' listed all
