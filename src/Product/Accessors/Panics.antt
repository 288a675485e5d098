-- ===== src/Product/Accessors/Panics.antt =====
-- When the accessors of a Product's deployment panic.
use scale_operator.Prelude.{
  ◌≡◌, Bool, true, false, not, ◌&&◌, ◌||◌, Option, none, some, arith, nat_eq, string_eq, is_some,
  int_eq,
}
use scale_operator.Product.Deployment.Types.{
  Call, panicked, returned, AuthenticationSpec, ProductDeploymentSpec, ApicastHostedSpec,
  ApicastSelfManagedSpec,
}
use scale_operator.Product.Types.{ProductSpec}
use scale_operator.Product.Accessors.{
  authentication_mode, prod_public_base_url, security_secret_token, host_rewrite,
  credentials_location, gateway_response, auth_user_key, oidc_spec, staging_public_base_url,
  auth_app_id, auth_app_key,
}

abbrev pub is_panic {ℓ} : {A : Type ℓ} → Call A → Bool
is_panic panicked = true
is_panic (returned _) = false

-- Whether the deployment names no kind of gateway, and whether the authentication of the one that
-- it names has no scheme.
abbrev pub lacks_gateway : Option ProductDeploymentSpec → Bool
lacks_gateway none = false
lacks_gateway (some d) = not (is_some d.apicast_hosted) && not (is_some d.apicast_self_managed)

abbrev pub lacks_scheme : Option AuthenticationSpec → Bool
lacks_scheme none = false
lacks_scheme (some a) =
    not (is_some a.user_key_authentication)
    && (not (is_some a.app_key_app_id_authentication) && not (is_some a.oidc))

abbrev pub authentication : Option ProductDeploymentSpec → Option AuthenticationSpec
authentication none = none
authentication (some d) = elim d.apicast_hosted [
  | some h ↦ h.authentication
  | none ↦ elim d.apicast_self_managed [ none ↦ none | some s ↦ s.authentication ]
]

abbrev Panics : ProductSpec → Type 0
Panics p =
    let no_gateway = lacks_gateway p.deployment in
    let incomplete = no_gateway || lacks_scheme (authentication p.deployment) in
    (is_panic (authentication_mode p) ≡ incomplete)
    × (is_panic (security_secret_token p) ≡ incomplete)
    × (is_panic (host_rewrite p) ≡ incomplete)
    × (is_panic (credentials_location p) ≡ incomplete)
    × (is_panic (gateway_response p) ≡ incomplete)
    × (is_panic (auth_user_key p) ≡ no_gateway)
    × (is_panic (oidc_spec p) ≡ no_gateway)
    × (is_panic (prod_public_base_url p) ≡ no_gateway)
    × (is_panic (staging_public_base_url p) ≡ no_gateway)
    × (is_panic (auth_app_id p) ≡ no_gateway)
    × (is_panic (auth_app_key p) ≡ no_gateway)

Panics-at :
    (p : ProductSpec) (h : Option ApicastHostedSpec) (s : Option ApicastSelfManagedSpec)
    → Panics
        (record p { deployment = some (record { apicast_hosted = h; apicast_self_managed = s }) })
unfolding authentication_mode security_secret_token host_rewrite credentials_location
    gateway_response auth_user_key oidc_spec prod_public_base_url staging_public_base_url
    auth_app_id auth_app_key
Panics-at p none none = ground arith
Panics-at p none (some s) = ground arith
Panics-at p (some h) s = ground arith

Panics-deployed :
    (p : ProductSpec) (d : Option ProductDeploymentSpec) → Panics (record p { deployment = d })
unfolding authentication_mode security_secret_token host_rewrite credentials_location
    gateway_response auth_user_key oidc_spec prod_public_base_url staging_public_base_url
    auth_app_id auth_app_key
Panics-deployed p none = ground arith
Panics-deployed p (some d) = Panics-at p d.apicast_hosted d.apicast_self_managed

-- The methods that ask for the scheme panic exactly if the resource names no kind of gateway, or
-- has an authentication without a scheme; those that read a part of one scheme, or an address of the
-- gateway, panic exactly if it names no kind of gateway.
pub panics_lem :
    (p : ProductSpec)
    → let no_gateway = lacks_gateway p.deployment in
      let incomplete = no_gateway || lacks_scheme (authentication p.deployment) in
      (is_panic (authentication_mode p) ≡ incomplete)
      × (is_panic (security_secret_token p) ≡ incomplete)
      × (is_panic (host_rewrite p) ≡ incomplete)
      × (is_panic (credentials_location p) ≡ incomplete)
      × (is_panic (gateway_response p) ≡ incomplete)
      × (is_panic (auth_user_key p) ≡ no_gateway)
      × (is_panic (oidc_spec p) ≡ no_gateway)
      × (is_panic (prod_public_base_url p) ≡ no_gateway)
      × (is_panic (staging_public_base_url p) ≡ no_gateway)
      × (is_panic (auth_app_id p) ≡ no_gateway)
      × (is_panic (auth_app_key p) ≡ no_gateway)
panics_lem p = Panics-deployed p p.deployment
