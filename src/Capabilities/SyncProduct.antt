-- ===== src/Capabilities/SyncProduct.antt =====
-- controllers/capabilities/product.go, with the getters and `Update` of
-- pkg/controller/helper/product_entity.go and pkg/helper/annotations.go. The entity holds the product
-- as the API last returned it; the client's `UpdateProduct` is a parameter, which returns the updated
-- product or nothing for an error, and the API's next state.
pub mod Laws
pub mod Settles
pub mod Update
use scale_operator.Prelude.{
  String, Bool, true, false, Option, none, some, [], ◌∷◌, if◌then◌else◌, ◌==◌, nat_eq, string_eq,
  Dict, lookup, insert, int_eq,
}
use scale_operator.Product.Deployment.Types.{Call, panicked, returned}
use scale_operator.Product.Types.{ProductSpec}
use scale_operator.Product.Accessors
use scale_operator.Capabilities.Params.{Params, put, Outcome, panics, send}

-- The fields of the API's product that the getters read.
pub record ProductItem : Type 0 where
  pub name : String
  pub description : String
  pub deployment_option : String
  pub backend_version : String
  pub annotations : Dict String String

abbrev pub managed_by_operator_annotation : Params
managed_by_operator_annotation = ("annotations[managed_by]", "operator") ∷ []

unfoldable pub managed_by_operator_annotation_exists : Dict String String → Bool
managed_by_operator_annotation_exists annotations = elim (lookup "managed_by" annotations) [
  | none ↦ false
  | some v ↦ v == "operator"
]

-- `for k, v := range annotation { params[k] = v }`
unfoldable pub put_all : Params → Params → Params
put_all [] params = params
put_all ((k, v) ∷ rest) params = put_all rest (insert k v params)

-- The parameters that `syncProduct` collects, by the authentication mode that it read.
unfoldable pub product_params : ProductSpec → Option String → ProductItem → Params
unfolding put_all
product_params p mode e =
    let params = put "backend_version" mode e.backend_version (
      put "deployment_option" (Accessors.deployment_option p) e.deployment_option (
        put "description" (some p.description) e.description
          (put "name" (some p.name) e.name []))) in
    if managed_by_operator_annotation_exists e.annotations
    then params
    else put_all managed_by_operator_annotation params

module _ {ℓ} {S : Type ℓ} (update_product : Params → S → Option ProductItem × S) where
  -- `ProductEntity.Update`, on the entity's product and the API's state.
  unfoldable pub update : Params → ProductItem × S → Bool × (ProductItem × S)
  update params (e, s) =
      let (answer, s') = update_product params s in
      elim answer [ none ↦ (false, (e, s')) | some e' ↦ (true, (e', s')) ]

  unfoldable pub sync_product : ProductSpec → ProductItem × S → Outcome × (ProductItem × S)
  unfolding update send
  sync_product p (e, s) = elim (Accessors.authentication_mode p) [
    | panicked ↦ (panics, (e, s))
    | returned mode ↦ send update (product_params p mode e) (e, s)
  ]
