-- ===== src/Product/Accessors.antt =====
-- apis/capabilities/v1beta1/product_types.go: the methods of `ProductSpec`, by which the controllers
-- read a product's deployment.
pub mod Laws
pub mod Panics
use scale_operator.Prelude.{String, Option, none, some, nat_eq, string_eq, int_eq}
use scale_operator.Product.Deployment.Types.{Call, returned, GatewayResponseSpec, OidcSpec}
use scale_operator.Product.Deployment
use scale_operator.Product.Types.{ProductSpec}

unfoldable pub deployment_option : ProductSpec → Option String
unfolding Deployment.deployment_option
deployment_option s = elim s.deployment [
  | none ↦ none
  | some d ↦ some (Deployment.deployment_option d)
]

unfoldable pub authentication_mode : ProductSpec → Call (Option String)
unfolding Deployment.authentication_mode
authentication_mode s = elim s.deployment [
  | none ↦ returned none
  | some d ↦ Deployment.authentication_mode d
]

unfoldable pub prod_public_base_url : ProductSpec → Call (Option String)
unfolding Deployment.prod_public_base_url
prod_public_base_url s = elim s.deployment [
  | none ↦ returned none
  | some d ↦ Deployment.prod_public_base_url d
]

unfoldable pub staging_public_base_url : ProductSpec → Call (Option String)
unfolding Deployment.staging_public_base_url
staging_public_base_url s = elim s.deployment [
  | none ↦ returned none
  | some d ↦ Deployment.staging_public_base_url d
]

unfoldable pub security_secret_token : ProductSpec → Call (Option String)
unfolding Deployment.security_secret_token
security_secret_token s = elim s.deployment [
  | none ↦ returned none
  | some d ↦ Deployment.security_secret_token d
]

unfoldable pub host_rewrite : ProductSpec → Call (Option String)
unfolding Deployment.host_rewrite
host_rewrite s = elim s.deployment [ none ↦ returned none | some d ↦ Deployment.host_rewrite d ]

unfoldable pub credentials_location : ProductSpec → Call (Option String)
unfolding Deployment.credentials_location
credentials_location s = elim s.deployment [
  | none ↦ returned none
  | some d ↦ Deployment.credentials_location d
]

unfoldable pub gateway_response : ProductSpec → Call (Option GatewayResponseSpec)
unfolding Deployment.gateway_response
gateway_response s = elim s.deployment [
  | none ↦ returned none
  | some d ↦ Deployment.gateway_response d
]

unfoldable pub auth_user_key : ProductSpec → Call (Option String)
unfolding Deployment.auth_user_key
auth_user_key s = elim s.deployment [ none ↦ returned none | some d ↦ Deployment.auth_user_key d ]

unfoldable pub auth_app_id : ProductSpec → Call (Option String)
unfolding Deployment.auth_app_id
auth_app_id s = elim s.deployment [ none ↦ returned none | some d ↦ Deployment.auth_app_id d ]

unfoldable pub auth_app_key : ProductSpec → Call (Option String)
unfolding Deployment.auth_app_key
auth_app_key s = elim s.deployment [ none ↦ returned none | some d ↦ Deployment.auth_app_key d ]

unfoldable pub oidc_spec : ProductSpec → Call (Option OidcSpec)
unfolding Deployment.oidc_spec
oidc_spec s = elim s.deployment [ none ↦ returned none | some d ↦ Deployment.oidc_spec d ]
