-- ===== src/Capabilities/SyncProduct/Laws.antt =====
-- When the synchronisation of a product sends nothing.
use scale_operator.Prelude.{
  String, ◌≡◌, Bool, ◌&&◌, Option, some, [], arith, ◌==◌, nat_eq, string_eq, int_eq,
}
use scale_operator.Product.Types.{ProductSpec}
use scale_operator.Product.Accessors
use scale_operator.Capabilities.Params.{put, is_empty, agrees, is_empty-put, is_empty-insert}
use scale_operator.Capabilities.SyncProduct.{
  ProductItem, managed_by_operator_annotation_exists, product_params,
}

-- The product at the API has what the resource asks for.
abbrev pub agrees_with : ProductSpec → Option String → ProductItem → Bool
agrees_with p mode e =
    e.name == p.name
    && (e.description == p.description
        && (agrees (Accessors.deployment_option p) e.deployment_option
            && (agrees mode e.backend_version
                && managed_by_operator_annotation_exists e.annotations)))

pub is_empty-product_params :
    (p : ProductSpec) (mode : Option String) (e : ProductItem)
    → is_empty (product_params p mode e) ≡ agrees_with p mode e
unfolding product_params
is_empty-product_params p mode e =
    let ps₁ = put "name" (some p.name) e.name [] in
    let ps₂ = put "description" (some p.description) e.description ps₁ in
    let option = Accessors.deployment_option p in
    let ps₃ = put "deployment_option" option e.deployment_option ps₂ in
    ground (
      arith,
      is_empty-put "name" (some p.name) e.name [],
      is_empty-put "description" (some p.description) e.description ps₁,
      is_empty-put "deployment_option" option e.deployment_option ps₂,
      is_empty-put "backend_version" mode e.backend_version ps₃,
      is_empty-insert "annotations[managed_by]" "operator"
          (put "backend_version" mode e.backend_version ps₃),
    )
