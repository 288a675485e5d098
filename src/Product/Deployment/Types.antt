-- ===== src/Product/Deployment/Types.antt =====
-- apis/capabilities/v1beta1/product_types.go: the records of a Product's deployment. A pointer is an
-- option.
use scale_operator.Prelude.{String, Bool, Option, nat_eq, string_eq, ℤ, int_eq}

-- What a method returns that may panic.
pub data Call {ℓ} (A : Type ℓ) : Type ℓ where
  panicked : Call A
  returned : A → Call A

pub record SecuritySpec : Type 0 where
  pub host_header : Option String
  pub secret_token : Option String

pub record GatewayResponseSpec : Type 0 where
  pub error_status_auth_failed : Option ℤ
  pub error_headers_auth_failed : Option String
  pub error_auth_failed : Option String
  pub error_status_auth_missing : Option ℤ
  pub error_headers_auth_missing : Option String
  pub error_auth_missing : Option String
  pub error_status_no_match : Option ℤ
  pub error_headers_no_match : Option String
  pub error_no_match : Option String
  pub error_status_limits_exceeded : Option ℤ
  pub error_headers_limits_exceeded : Option String
  pub error_limits_exceeded : Option String

pub record AppKeyAppIdAuthenticationSpec : Type 0 where
  pub app_id : Option String
  pub app_key : Option String
  pub credentials_loc : Option String
  pub security : Option SecuritySpec
  pub gateway_response : Option GatewayResponseSpec

pub record UserKeyAuthenticationSpec : Type 0 where
  pub key : Option String
  pub credentials_loc : Option String
  pub security : Option SecuritySpec
  pub gateway_response : Option GatewayResponseSpec

pub record OidcAuthenticationFlowSpec : Type 0 where
  pub standard_flow_enabled : Bool
  pub implicit_flow_enabled : Bool
  pub service_accounts_enabled : Bool
  pub direct_access_grants_enabled : Bool

-- A secret reference's name and namespace.
pub record SecretReference : Type 0 where
  pub name : String
  pub namespace : String

pub record OidcSpec : Type 0 where
  pub issuer_type : String
  pub issuer_endpoint : String
  pub issuer_endpoint_ref : Option SecretReference
  pub authentication_flow : Option OidcAuthenticationFlowSpec
  pub jwt_claim_with_client_id : Option String
  pub jwt_claim_with_client_id_type : Option String
  pub credentials_loc : Option String
  pub security : Option SecuritySpec
  pub gateway_response : Option GatewayResponseSpec

pub record AuthenticationSpec : Type 0 where
  pub user_key_authentication : Option UserKeyAuthenticationSpec
  pub app_key_app_id_authentication : Option AppKeyAppIdAuthenticationSpec
  pub oidc : Option OidcSpec

pub record ApicastHostedSpec : Type 0 where
  pub authentication : Option AuthenticationSpec

pub record ApicastSelfManagedSpec : Type 0 where
  pub authentication : Option AuthenticationSpec
  pub staging_public_base_url : Option String
  pub production_public_base_url : Option String

pub record ProductDeploymentSpec : Type 0 where
  pub apicast_hosted : Option ApicastHostedSpec
  pub apicast_self_managed : Option ApicastSelfManagedSpec
