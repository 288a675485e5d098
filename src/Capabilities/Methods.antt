-- ===== src/Capabilities/Methods.antt =====
-- controllers/capabilities/methods.go: the methods of a product.
pub mod Laws
pub mod Store
pub mod Converges
use scale_operator.Prelude.{String, Option, some, [], ◌∷◌, nat_eq, string_eq, Dict, int_eq}
use scale_operator.Product.Types.{MethodSpec, ProductSpec}
use scale_operator.Capabilities.Params.{Params, put, put_present}
use scale_operator.Capabilities.Entity.{
  Method, Caches, Client, methods, create_method, update_method, delete_method,
}
use scale_operator.Capabilities.Sync.{Access, Kind, sync}

unfoldable pub method_changes : MethodSpec → Method → Params
method_changes spec item =
    put "description" (some spec.description) item.description
      (put "friendly_name" (some spec.name) item.name [])

unfoldable pub method_params : String → MethodSpec → Params
unfolding put_present
method_params name spec =
    put_present "description" spec.description
      (("friendly_name", spec.name) ∷ ("system_name", name) ∷ [])

abbrev pub method_kind : Kind Method MethodSpec
method_kind = record {
  id = λ m. m.id;
  system_name = λ m. m.system_name;
  no_item = record { id = 0; name = ""; system_name = ""; description = "" };
  no_spec = record { name = ""; description = "" };
  changes = method_changes;
  new_params = method_params;
}

abbrev pub method_access : {W E : Type 0} → Client W E → Access (Caches × W) E Method
method_access client = record {
  list = methods client;
  create = create_method client;
  update = update_method client;
  delete = delete_method client;
}

unfoldable pub sync_methods :
    {W E : Type 0}
    → Client W E
    → ((V : Type 0) → Dict String V → Dict String V)
    → ProductSpec
    → Caches × W
    → Option E × (Caches × W)
unfolding sync
sync_methods client reorder p = sync (method_access client) method_kind reorder p.methods
