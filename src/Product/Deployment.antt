-- ===== src/Product/Deployment.antt =====
-- apis/capabilities/v1beta1/product_types.go: the methods of `ProductDeploymentSpec`, which ask the
-- kind of gateway that is set and panic if neither is.
pub mod Types
pub mod Authentication
pub mod Hosted
pub mod SelfManaged
use scale_operator.Prelude.{String, Option, none, some, nat_eq, string_eq, int_eq}
use scale_operator.Product.Deployment.Types.{
  Call, panicked, returned, GatewayResponseSpec, OidcSpec, ApicastHostedSpec,
  ApicastSelfManagedSpec, ProductDeploymentSpec,
}

-- The tests for nil that the methods share.
unfoldable pub choose {ℓ} :
    {A : Type ℓ}
    → (ApicastHostedSpec → Call A)
    → (ApicastSelfManagedSpec → Call A)
    → ProductDeploymentSpec
    → Call A
choose by_hosted by_self_managed d = elim d.apicast_hosted [
  | some h ↦ by_hosted h
  | none ↦ elim d.apicast_self_managed [ none ↦ panicked | some s ↦ by_self_managed s ]
]

unfoldable pub deployment_option : ProductDeploymentSpec → String
deployment_option d = elim d.apicast_hosted [ some _ ↦ "hosted" | none ↦ "self_managed" ]

unfoldable pub prod_public_base_url : ProductDeploymentSpec → Call (Option String)
unfolding choose SelfManaged.prod_public_base_url
prod_public_base_url =
    choose (λ _. returned none) (λ s. returned (SelfManaged.prod_public_base_url s))

unfoldable pub staging_public_base_url : ProductDeploymentSpec → Call (Option String)
unfolding choose SelfManaged.stag_public_base_url
staging_public_base_url =
    choose (λ _. returned none) (λ s. returned (SelfManaged.stag_public_base_url s))

unfoldable pub authentication_mode : ProductDeploymentSpec → Call (Option String)
unfolding choose Hosted.authentication_mode SelfManaged.authentication_mode
authentication_mode = choose Hosted.authentication_mode SelfManaged.authentication_mode

unfoldable pub security_secret_token : ProductDeploymentSpec → Call (Option String)
unfolding choose Hosted.security_secret_token SelfManaged.security_secret_token
security_secret_token = choose Hosted.security_secret_token SelfManaged.security_secret_token

unfoldable pub host_rewrite : ProductDeploymentSpec → Call (Option String)
unfolding choose Hosted.host_rewrite SelfManaged.host_rewrite
host_rewrite = choose Hosted.host_rewrite SelfManaged.host_rewrite

unfoldable pub credentials_location : ProductDeploymentSpec → Call (Option String)
unfolding choose Hosted.credentials_location SelfManaged.credentials_location
credentials_location = choose Hosted.credentials_location SelfManaged.credentials_location

unfoldable pub gateway_response : ProductDeploymentSpec → Call (Option GatewayResponseSpec)
unfolding choose Hosted.gateway_response SelfManaged.gateway_response
gateway_response = choose Hosted.gateway_response SelfManaged.gateway_response

unfoldable pub auth_user_key : ProductDeploymentSpec → Call (Option String)
unfolding choose Hosted.auth_user_key SelfManaged.auth_user_key
auth_user_key =
    choose (λ h. returned (Hosted.auth_user_key h)) (λ s. returned (SelfManaged.auth_user_key s))

unfoldable pub auth_app_id : ProductDeploymentSpec → Call (Option String)
unfolding choose Hosted.auth_app_id SelfManaged.auth_app_id
auth_app_id =
    choose (λ h. returned (Hosted.auth_app_id h)) (λ s. returned (SelfManaged.auth_app_id s))

unfoldable pub auth_app_key : ProductDeploymentSpec → Call (Option String)
unfolding choose Hosted.auth_app_key SelfManaged.auth_app_key
auth_app_key =
    choose (λ h. returned (Hosted.auth_app_key h)) (λ s. returned (SelfManaged.auth_app_key s))

unfoldable pub oidc_spec : ProductDeploymentSpec → Call (Option OidcSpec)
unfolding choose Hosted.oidc_spec SelfManaged.oidc_spec
oidc_spec = choose (λ h. returned (Hosted.oidc_spec h)) (λ s. returned (SelfManaged.oidc_spec s))
