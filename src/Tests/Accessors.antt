-- ===== src/Tests/Accessors.antt =====
-- The accessors of a Product's deployment at concrete deployments.
use scale_operator.Prelude.{◌≡◌, refl, ◌||◌, none, some, [], nat_eq, string_eq, int_eq}
use scale_operator.Product.Types.{ProductSpec}
use scale_operator.Product.Deployment.Types.{returned, UserKeyAuthenticationSpec}
use scale_operator.Product.Accessors.{
  auth_app_key, auth_app_id, staging_public_base_url, authentication_mode, prod_public_base_url,
  security_secret_token, host_rewrite, credentials_location, gateway_response, auth_user_key,
  oidc_spec,
}
use scale_operator.Product.Accessors.Laws.{
  user_key, Gateway, self_managed, deployment_of, ReadsGateway, ReadsScheme, accessors_lem,
}
use scale_operator.Product.Accessors.Panics.{
  is_panic, lacks_gateway, lacks_scheme, authentication, panics_lem,
}

abbrev key_spec : UserKeyAuthenticationSpec
key_spec = record {
  key = some "api_key";
  credentials_loc = some "query";
  security = some (record { host_header = none; secret_token = some "secret" });
  gateway_response = none;
}

abbrev gateway : Gateway
gateway = self_managed (some "https://staging:443") none (some (user_key key_spec))

abbrev undeployed : ProductSpec
undeployed = record {
  name = "api";
  system_name = "api";
  description = "";
  deployment = none;
  mapping_rules = [];
  backend_usages = [];
  metrics = none;
  methods = [];
  application_plans = [];
  policies = [];
}

abbrev deployed : ProductSpec
deployed = record undeployed { deployment = some (deployment_of gateway) }

accessors_lem_example : ReadsGateway deployed gateway × ReadsScheme deployed gateway
accessors_lem_example = accessors_lem undeployed gateway

reads_token : security_secret_token deployed ≡ returned (some "secret")
unfolding security_secret_token scale_operator.Product.Deployment.Authentication.security_token
reads_token = refl

-- A deployment without a kind of gateway.
abbrev broken : ProductSpec
broken = record undeployed {
  deployment = some (record { apicast_hosted = none; apicast_self_managed = none });
}

panics_lem_example :
    let no_gateway = lacks_gateway broken.deployment in
    let incomplete = no_gateway || lacks_scheme (authentication broken.deployment) in
    (is_panic (authentication_mode broken) ≡ incomplete)
    × (is_panic (security_secret_token broken) ≡ incomplete)
    × (is_panic (host_rewrite broken) ≡ incomplete)
    × (is_panic (credentials_location broken) ≡ incomplete)
    × (is_panic (gateway_response broken) ≡ incomplete)
    × (is_panic (auth_user_key broken) ≡ no_gateway)
    × (is_panic (oidc_spec broken) ≡ no_gateway)
    × (is_panic (prod_public_base_url broken) ≡ no_gateway)
    × (is_panic (staging_public_base_url broken) ≡ no_gateway)
    × (is_panic (auth_app_id broken) ≡ no_gateway)
    × (is_panic (auth_app_key broken) ≡ no_gateway)
panics_lem_example = panics_lem broken
