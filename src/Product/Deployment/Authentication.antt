-- ===== src/Product/Deployment/Authentication.antt =====
-- apis/capabilities/v1beta1/product_types.go: the methods of `AuthenticationSpec`, and those of the
-- three schemes that it may hold. A scheme's methods that only read a field are that field.
use scale_operator.Prelude.{String, Option, none, some, nat_eq, string_eq, int_eq}
use scale_operator.Product.Deployment.Types.{
  Call, panicked, returned, SecuritySpec, GatewayResponseSpec, AppKeyAppIdAuthenticationSpec,
  UserKeyAuthenticationSpec, OidcSpec, AuthenticationSpec,
}

-- `SecuritySecretToken` and `HostRewrite` of a scheme, on its field `Security`.
unfoldable pub security_token : Option SecuritySpec → Option String
security_token none = none
security_token (some s) = s.secret_token

unfoldable pub security_host : Option SecuritySpec → Option String
security_host none = none
security_host (some s) = s.host_header

-- The chain of tests for nil that the methods share, with the panic at its end.
unfoldable pub choose {ℓ} :
    {A : Type ℓ}
    → (UserKeyAuthenticationSpec → A)
    → (AppKeyAppIdAuthenticationSpec → A)
    → (OidcSpec → A)
    → AuthenticationSpec
    → Call A
choose by_user_key by_app_key by_oidc a = elim a.user_key_authentication [
  | some u ↦ returned (by_user_key u)
  | none ↦ elim a.app_key_app_id_authentication [
    | some k ↦ returned (by_app_key k)
    | none ↦ elim a.oidc [ some o ↦ returned (by_oidc o) | none ↦ panicked ]
  ]
]

unfoldable pub authentication_mode : AuthenticationSpec → Call String
unfolding choose
authentication_mode = choose (λ _. "1") (λ _. "2") (λ _. "oidc")

unfoldable pub security_secret_token : AuthenticationSpec → Call (Option String)
unfolding choose
security_secret_token =
    choose (λ (u : UserKeyAuthenticationSpec). security_token u.security)
      (λ (k : AppKeyAppIdAuthenticationSpec). security_token k.security)
      (λ (o : OidcSpec). security_token o.security)

unfoldable pub host_rewrite : AuthenticationSpec → Call (Option String)
unfolding choose
host_rewrite =
    choose (λ (u : UserKeyAuthenticationSpec). security_host u.security)
      (λ (k : AppKeyAppIdAuthenticationSpec). security_host k.security)
      (λ (o : OidcSpec). security_host o.security)

unfoldable pub credentials_location : AuthenticationSpec → Call (Option String)
unfolding choose
credentials_location =
    choose (λ (u : UserKeyAuthenticationSpec). u.credentials_loc)
      (λ (k : AppKeyAppIdAuthenticationSpec). k.credentials_loc)
      (λ (o : OidcSpec). o.credentials_loc)

unfoldable pub gateway_response : AuthenticationSpec → Call (Option GatewayResponseSpec)
unfolding choose
gateway_response =
    choose (λ (u : UserKeyAuthenticationSpec). u.gateway_response)
      (λ (k : AppKeyAppIdAuthenticationSpec). k.gateway_response)
      (λ (o : OidcSpec). o.gateway_response)

unfoldable pub auth_user_key : AuthenticationSpec → Option String
auth_user_key a = elim a.user_key_authentication [ none ↦ none | some u ↦ u.key ]

unfoldable pub auth_app_id : AuthenticationSpec → Option String
auth_app_id a = elim a.app_key_app_id_authentication [ none ↦ none | some k ↦ k.app_id ]

unfoldable pub auth_app_key : AuthenticationSpec → Option String
auth_app_key a = elim a.app_key_app_id_authentication [ none ↦ none | some k ↦ k.app_key ]

unfoldable pub oidc_spec : AuthenticationSpec → Option OidcSpec
oidc_spec a = a.oidc
