-- ===== src/Product/Accessors/Laws.antt =====
-- What the accessors of a Product's deployment read, against a view of the deployment as a sum type.
use scale_operator.Prelude.{String, ◌≡◌, refl, Option, none, some, nat_eq, string_eq, int_eq}
use scale_operator.Product.Deployment.Types.{
  Call, returned, SecuritySpec, GatewayResponseSpec, AppKeyAppIdAuthenticationSpec,
  UserKeyAuthenticationSpec, OidcSpec, AuthenticationSpec, ProductDeploymentSpec,
}
use scale_operator.Product.Types.{ProductSpec}
use scale_operator.Product.Deployment.Authentication.{security_token, security_host}
use scale_operator.Product.Accessors.{
  deployment_option, authentication_mode, prod_public_base_url, staging_public_base_url,
  security_secret_token, host_rewrite, credentials_location, gateway_response, auth_user_key,
  auth_app_id, auth_app_key, oidc_spec,
}

-- The one scheme and the one kind of gateway that the resource's schema allows.
pub data Scheme : Type 0 where
  user_key : UserKeyAuthenticationSpec → Scheme
  app_key : AppKeyAppIdAuthenticationSpec → Scheme
  open_id : OidcSpec → Scheme

pub data Gateway : Type 0 where
  hosted : Option Scheme → Gateway
  self_managed : Option String → Option String → Option Scheme → Gateway

-- How the resource writes them.
abbrev pub authentication_of : Scheme → AuthenticationSpec
authentication_of (user_key u) = record {
  user_key_authentication = some u;
  app_key_app_id_authentication = none;
  oidc = none;
}
authentication_of (app_key k) = record {
  user_key_authentication = none;
  app_key_app_id_authentication = some k;
  oidc = none;
}
authentication_of (open_id o) = record {
  user_key_authentication = none;
  app_key_app_id_authentication = none;
  oidc = some o;
}

abbrev pub optional_authentication : Option Scheme → Option AuthenticationSpec
optional_authentication none = none
optional_authentication (some s) = some (authentication_of s)

abbrev pub deployment_of : Gateway → ProductDeploymentSpec
deployment_of (hosted s) = record {
  apicast_hosted = some (record { authentication = optional_authentication s });
  apicast_self_managed = none;
}
deployment_of (self_managed staging production s) = record {
  apicast_hosted = none;
  apicast_self_managed = some (record {
    authentication = optional_authentication s;
    staging_public_base_url = staging;
    production_public_base_url = production;
  });
}

-- What the accessors are to say, by the scheme and the gateway.
abbrev pub scheme : Gateway → Option Scheme
scheme (hosted s) = s
scheme (self_managed _ _ s) = s

abbrev pub mode : Scheme → String
mode (user_key _) = "1"
mode (app_key _) = "2"
mode (open_id _) = "oidc"

abbrev pub security : Scheme → Option SecuritySpec
security (user_key u) = u.security
security (app_key k) = k.security
security (open_id o) = o.security

abbrev pub token_of : Option SecuritySpec → Option String
token_of none = none
token_of (some s) = s.secret_token

abbrev pub host_of : Option SecuritySpec → Option String
host_of none = none
host_of (some s) = s.host_header

abbrev pub credentials : Scheme → Option String
credentials (user_key u) = u.credentials_loc
credentials (app_key k) = k.credentials_loc
credentials (open_id o) = o.credentials_loc

abbrev pub response : Scheme → Option GatewayResponseSpec
response (user_key u) = u.gateway_response
response (app_key k) = k.gateway_response
response (open_id o) = o.gateway_response

abbrev pub key_name : Scheme → Option String
key_name (user_key u) = u.key
key_name _ = none

abbrev pub app_names : Scheme → Option String × Option String
app_names (app_key k) = (k.app_id, k.app_key)
app_names _ = (none, none)

abbrev pub issuer : Scheme → Option OidcSpec
issuer (open_id o) = some o
issuer _ = none

abbrev pub option : Gateway → String
option (hosted _) = "hosted"
option (self_managed _ _ _) = "self_managed"

abbrev pub public_urls : Gateway → Option String × Option String
public_urls (hosted _) = (none, none)
public_urls (self_managed staging production _) = (staging, production)

-- Where no scheme is set, nothing is.
abbrev pub of_scheme : {A : Type 0} → (Scheme → Option A) → Gateway → Call (Option A)
of_scheme f g = elim (scheme g) [ none ↦ returned none | some s ↦ returned (f s) ]

-- The accessors that say where the gateway is, and which scheme is meant.
abbrev pub ReadsGateway : ProductSpec → Gateway → Type 0
ReadsGateway p g =
    (deployment_option p ≡ some (option g))
    × (staging_public_base_url p ≡ returned (public_urls g).0)
    × (prod_public_base_url p ≡ returned (public_urls g).1)
    × (authentication_mode p ≡ of_scheme (λ s. some (mode s)) g)

-- The accessors of what the scheme holds.
abbrev pub ReadsScheme : ProductSpec → Gateway → Type 0
ReadsScheme p g =
    (security_secret_token p ≡ of_scheme (λ s. token_of (security s)) g)
    × (host_rewrite p ≡ of_scheme (λ s. host_of (security s)) g)
    × (credentials_location p ≡ of_scheme credentials g)
    × (gateway_response p ≡ of_scheme response g)
    × (auth_user_key p ≡ of_scheme key_name g)
    × (auth_app_id p ≡ of_scheme (λ s. (app_names s).0) g)
    × (auth_app_key p ≡ of_scheme (λ s. (app_names s).1) g)
    × (oidc_spec p ≡ of_scheme issuer g)

reads_gateway :
    (p : ProductSpec) (g : Gateway)
    → ReadsGateway (record p { deployment = some (deployment_of g) }) g
unfolding deployment_option staging_public_base_url prod_public_base_url authentication_mode
reads_gateway p (hosted none) = (refl, refl, refl, refl)
reads_gateway p (hosted (some (user_key _))) = (refl, refl, refl, refl)
reads_gateway p (hosted (some (app_key _))) = (refl, refl, refl, refl)
reads_gateway p (hosted (some (open_id _))) = (refl, refl, refl, refl)
reads_gateway p (self_managed _ _ none) = (refl, refl, refl, refl)
reads_gateway p (self_managed _ _ (some (user_key _))) = (refl, refl, refl, refl)
reads_gateway p (self_managed _ _ (some (app_key _))) = (refl, refl, refl, refl)
reads_gateway p (self_managed _ _ (some (open_id _))) = (refl, refl, refl, refl)

reads_scheme :
    (p : ProductSpec) (g : Gateway)
    → ReadsScheme (record p { deployment = some (deployment_of g) }) g
unfolding security_secret_token host_rewrite credentials_location gateway_response auth_user_key
    auth_app_id auth_app_key oidc_spec security_token security_host
reads_scheme p (hosted none) = (refl, refl, refl, refl, refl, refl, refl, refl)
reads_scheme p (hosted (some (user_key _))) = (refl, refl, refl, refl, refl, refl, refl, refl)
reads_scheme p (hosted (some (app_key _))) = (refl, refl, refl, refl, refl, refl, refl, refl)
reads_scheme p (hosted (some (open_id _))) = (refl, refl, refl, refl, refl, refl, refl, refl)
reads_scheme p (self_managed _ _ none) = (refl, refl, refl, refl, refl, refl, refl, refl)
reads_scheme p (self_managed _ _ (some (user_key _))) =
    (refl, refl, refl, refl, refl, refl, refl, refl)
reads_scheme p (self_managed _ _ (some (app_key _))) =
    (refl, refl, refl, refl, refl, refl, refl, refl)
reads_scheme p (self_managed _ _ (some (open_id _))) =
    (refl, refl, refl, refl, refl, refl, refl, refl)

-- For a deployment with one kind of gateway and at most one scheme, which is what the schema allows,
-- no accessor panics: each reads what that gateway and that scheme hold, the accessors of another
-- scheme read nothing, and a hosted gateway has no public addresses.
pub accessors_lem :
    (p : ProductSpec) (g : Gateway)
    → ReadsGateway (record p { deployment = some (deployment_of g) }) g
      × ReadsScheme (record p { deployment = some (deployment_of g) }) g
accessors_lem p g = (reads_gateway p g, reads_scheme p g)
