-- ===== src/Tests/Proxy.antt =====
-- The synchronisation of a proxy for a hosted product with OpenID Connect.
use scale_operator.Prelude.{
  String, refl, Bool, true, false, Option, none, some, [], ◌∷◌, if◌then◌else◌, ◌==◌, nat_eq,
  string_eq, Dict, ℤ, pos, int_eq,
}
use scale_operator.Product.Deployment.Types.{OidcSpec}
use scale_operator.Product.Types.{ProductSpec}
use scale_operator.Product.Accessors
use scale_operator.Product.Deployment.Authentication
use scale_operator.Product.Accessors.Laws.{open_id, hosted, deployment_of}
use scale_operator.Capabilities.Params.{Params}
use scale_operator.Capabilities.Proxy.{ProxyItem, ProxySettings, sync_proxy}
use scale_operator.Capabilities.Proxy.Update.{IsRead, IsRun, sync_proxy_lem}

abbrev open_id_spec : OidcSpec
open_id_spec = record {
  issuer_type = "keycloak";
  issuer_endpoint = "";
  issuer_endpoint_ref = some (record { name = "issuer"; namespace = "" });
  authentication_flow = none;
  jwt_claim_with_client_id = some "azp";
  jwt_claim_with_client_id_type = none;
  credentials_loc = some "query";
  security = none;
  gateway_response = none;
}

abbrev product : ProductSpec
product = record {
  name = "api";
  system_name = "api";
  description = "";
  deployment = some (deployment_of (hosted (some (open_id open_id_spec))));
  mapping_rules = [];
  backend_usages = [];
  metrics = none;
  methods = [];
  application_plans = [];
  policies = [];
}

abbrev settings : ProxySettings
settings = record {
  production = none;
  staging = none;
  secret_token = none;
  host = none;
  credentials = some "query";
  user_key = none;
  app_id = none;
  app_key = none;
  gateway = none;
  oidc = some open_id_spec;
}

abbrev item : ProxyItem
item = record {
  endpoint = "https://api:443";
  sandbox_endpoint = "https://staging:443";
  secret_token = "";
  hostname_rewrite = "";
  credentials_location = "query";
  auth_user_key = "user_key";
  auth_app_id = "app_id";
  auth_app_key = "app_key";
  error_status_auth_failed = pos 403;
  error_status_auth_missing = pos 403;
  error_status_no_match = pos 403;
  error_status_limits_exceeded = pos 403;
  error_headers_auth_failed = "";
  error_auth_failed = "";
  error_headers_auth_missing = "";
  error_auth_missing = "";
  error_headers_no_match = "";
  error_no_match = "";
  error_headers_limits_exceeded = "";
  error_limits_exceeded = "";
  oidc_issuer_endpoint = "https://sso";
  oidc_issuer_type = "keycloak";
  jwt_claim_with_client_id = "azp";
  jwt_claim_with_client_id_type = "plain";
}

abbrev keep_url : String → String
keep_url url = url

abbrev no_digits : ℤ → String
no_digits _ = ""

abbrev secrets : String → Option (Dict String String)
secrets name = if name == "issuer" then some (("issuerEndpoint", "https://sso") ∷ []) else none

abbrev get_proxy : Bool → Option ProxyItem × Bool
get_proxy s = (some item, s)

abbrev accept : Params → Bool → Option ProxyItem × Bool
accept ps s = (some item, true)

reads : IsRead product settings
unfolding Authentication.security_token Authentication.security_host Accessors.prod_public_base_url
    Accessors.staging_public_base_url Accessors.security_secret_token Accessors.host_rewrite
    Accessors.credentials_location Accessors.auth_user_key Accessors.auth_app_id
    Accessors.auth_app_key Accessors.gateway_response Accessors.oidc_spec
reads = record {
  production = refl;
  staging = refl;
  secret_token = refl;
  host = refl;
  credentials = refl;
  user_key = refl;
  app_id = refl;
  app_key = refl;
  gateway = refl;
  oidc = refl;
}

-- The API's proxy has other credentials and another issuer.
abbrev old_item : ProxyItem
old_item = record item { credentials_location = "headers"; oidc_issuer_endpoint = "https://old" }

sync_proxy_lem_example :
    IsRun keep_url no_digits secrets get_proxy accept old_item false
      (sync_proxy keep_url no_digits secrets get_proxy accept product (some old_item, false))
      (some (
        ("jwt_claim_with_client_id_type", none)
        ∷ ("jwt_claim_with_client_id", none)
        ∷ ("oidc_issuer_type", none)
        ∷ ("oidc_issuer_endpoint", some "https://sso")
        ∷ ("auth_app_key", none)
        ∷ ("auth_app_id", none)
        ∷ ("auth_user_key", none)
        ∷ ("credentials_location", some "query")
        ∷ ("hostname_rewrite", none)
        ∷ ("secret_token", none)
        ∷ ("sandbox_endpoint", none)
        ∷ ("endpoint", none)
        ∷ []))
sync_proxy_lem_example =
    sync_proxy_lem keep_url no_digits secrets get_proxy accept old_item false product settings reads

abbrev no_secret : String → Option (Dict String String)
no_secret _ = none

missing_issuer_fails :
    IsRun keep_url no_digits no_secret get_proxy accept item false
      (sync_proxy keep_url no_digits no_secret get_proxy accept product (some item, false))
      none
missing_issuer_fails =
    sync_proxy_lem keep_url no_digits no_secret get_proxy accept item false product settings reads
