-- ===== src/Product/Deployment/Hosted.antt =====
-- apis/capabilities/v1beta1/product_types.go: the methods of `ApicastHostedSpec`, which pass the question
-- on to the authentication if there is one.
use scale_operator.Prelude.{String, Option, none, some, nat_eq, string_eq, int_eq}
use scale_operator.Product.Deployment.Types.{
  Call, panicked, returned, GatewayResponseSpec, OidcSpec, ApicastHostedSpec,
}
use scale_operator.Product.Deployment.Authentication

unfoldable pub authentication_mode : ApicastHostedSpec → Call (Option String)
unfolding Authentication.authentication_mode
authentication_mode a = elim a.authentication [
  | none ↦ returned none
  | some spec ↦ elim (Authentication.authentication_mode spec) [
    | panicked ↦ panicked
    | returned mode ↦ returned (some mode)
  ]
]

unfoldable pub security_secret_token : ApicastHostedSpec → Call (Option String)
unfolding Authentication.security_secret_token
security_secret_token a = elim a.authentication [
  | none ↦ returned none
  | some spec ↦ Authentication.security_secret_token spec
]

unfoldable pub host_rewrite : ApicastHostedSpec → Call (Option String)
unfolding Authentication.host_rewrite
host_rewrite a = elim a.authentication [
  | none ↦ returned none
  | some spec ↦ Authentication.host_rewrite spec
]

unfoldable pub credentials_location : ApicastHostedSpec → Call (Option String)
unfolding Authentication.credentials_location
credentials_location a = elim a.authentication [
  | none ↦ returned none
  | some spec ↦ Authentication.credentials_location spec
]

unfoldable pub gateway_response : ApicastHostedSpec → Call (Option GatewayResponseSpec)
unfolding Authentication.gateway_response
gateway_response a = elim a.authentication [
  | none ↦ returned none
  | some spec ↦ Authentication.gateway_response spec
]

unfoldable pub auth_user_key : ApicastHostedSpec → Option String
unfolding Authentication.auth_user_key
auth_user_key a = elim a.authentication [
  | none ↦ none
  | some spec ↦ Authentication.auth_user_key spec
]

unfoldable pub auth_app_id : ApicastHostedSpec → Option String
unfolding Authentication.auth_app_id
auth_app_id a = elim a.authentication [ none ↦ none | some spec ↦ Authentication.auth_app_id spec ]

unfoldable pub auth_app_key : ApicastHostedSpec → Option String
unfolding Authentication.auth_app_key
auth_app_key a = elim a.authentication [
  | none ↦ none
  | some spec ↦ Authentication.auth_app_key spec
]

unfoldable pub oidc_spec : ApicastHostedSpec → Option OidcSpec
unfolding Authentication.oidc_spec
oidc_spec a = elim a.authentication [ none ↦ none | some spec ↦ Authentication.oidc_spec spec ]
