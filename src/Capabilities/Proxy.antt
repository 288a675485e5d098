-- ===== src/Capabilities/Proxy.antt =====
-- controllers/capabilities/proxy.go, with `Proxy` and `UpdateProxy` of
-- pkg/controller/helper/product_entity.go. Parameters: `default_port`, which is
-- `helper.SetURLDefaultPort` and rests on the library's parser of addresses; `itoa`, which is
-- `strconv.Itoa`; `secret`, which reads the data of the named secret; and the client's requests. An
-- error is nothing, since its text is not modelled.
pub mod Laws
pub mod Update
use scale_operator.Prelude.{
  ◌-◌, String, Bool, true, false, Option, none, some, [], ltb, if◌then◌else◌, ◌==◌, nat_eq,
  string_eq, Dict, lookup, insert, ℤ, pos, negsuc, int_eq,
}
use Prim.Native.Nat.{◌%◌, ◌^◌}
use scale_operator.Product.Deployment.Types.{
  Call, panicked, returned, GatewayResponseSpec, OidcSpec,
}
use scale_operator.Product.Types.{ProductSpec}
use scale_operator.Product.Accessors
use scale_operator.Capabilities.Params.{Params, put, Outcome, panics, fails, send}

-- The fields of the API's proxy that the code reads.
pub record ProxyItem : Type 0 where
  pub endpoint : String
  pub sandbox_endpoint : String
  pub secret_token : String
  pub hostname_rewrite : String
  pub credentials_location : String
  pub auth_user_key : String
  pub auth_app_id : String
  pub auth_app_key : String
  pub error_status_auth_failed : ℤ
  pub error_status_auth_missing : ℤ
  pub error_status_no_match : ℤ
  pub error_status_limits_exceeded : ℤ
  pub error_headers_auth_failed : String
  pub error_auth_failed : String
  pub error_headers_auth_missing : String
  pub error_auth_missing : String
  pub error_headers_no_match : String
  pub error_no_match : String
  pub error_headers_limits_exceeded : String
  pub error_limits_exceeded : String
  pub oidc_issuer_endpoint : String
  pub oidc_issuer_type : String
  pub jwt_claim_with_client_id : String
  pub jwt_claim_with_client_id_type : String

-- What the accessors of the resource return.
pub record ProxySettings : Type 0 where
  pub production : Option String
  pub staging : Option String
  pub secret_token : Option String
  pub host : Option String
  pub credentials : Option String
  pub user_key : Option String
  pub app_id : Option String
  pub app_key : Option String
  pub gateway : Option GatewayResponseSpec
  pub oidc : Option OidcSpec

unfoldable pub and_then {ℓ κ} : {A : Type ℓ} {B : Type κ} → Call A → (A → Call B) → Call B
and_then panicked f = panicked
and_then (returned a) f = f a

-- The accessors are read in this order, and any of them may panic.
unfoldable pub read_settings : ProductSpec → Call ProxySettings
unfolding and_then
read_settings p = and_then (Accessors.prod_public_base_url p) (λ production.
    and_then (Accessors.staging_public_base_url p) (λ staging.
      and_then (Accessors.security_secret_token p) (λ secret_token.
        and_then (Accessors.host_rewrite p) (λ host.
          and_then (Accessors.credentials_location p) (λ credentials.
            and_then (Accessors.auth_user_key p) (λ user_key.
              and_then (Accessors.auth_app_id p) (λ app_id.
                and_then (Accessors.auth_app_key p) (λ app_key.
                  and_then (Accessors.gateway_response p) (λ gateway.
                    and_then (Accessors.oidc_spec p) (λ oidc. returned (record {
                      production = production;
                      staging = staging;
                      secret_token = secret_token;
                      host = host;
                      credentials = credentials;
                      user_key = user_key;
                      app_id = app_id;
                      app_key = app_key;
                      gateway = gateway;
                      oidc = oidc;
                    })))))))))))

-- `RequiredFieldValueFromRequiredSecret` of pkg/helper/secretutils.go, on the secret's data, if it can be
-- read.
unfoldable pub required_field : String → Option (Dict String String) → Option String
required_field field o = elim o [ none ↦ none | some entries ↦ lookup field entries ]

-- `int32(n)`
unfoldable pub to_int32 : ℤ → ℤ
to_int32 (pos n) = let r = n % 2 ^ 32 in if ltb r (2 ^ 31) then pos r else negsuc (2 ^ 32 - 1 - r)
to_int32 (negsuc n) =
    let r = n % 2 ^ 32 in if ltb r (2 ^ 31) then negsuc r else pos (2 ^ 32 - 1 - r)

module _ (default_port : String → String) (itoa : ℤ → String)
    (secret : String → Option (Dict String String)) where
  unfoldable pub put_url : String → Option String → String → Params → Params
  put_url key none existing params = params
  put_url key (some v) existing params =
      if default_port existing == default_port v then params else insert key v params

  unfoldable pub put_status : String → Option ℤ → ℤ → Params → Params
  put_status key none existing params = params
  put_status key (some v) existing params =
      if to_int32 existing == v then params else insert key (itoa v) params

  unfoldable pub basic_params : ProxySettings → ProxyItem → Params
  basic_params v e = put "auth_app_key" v.app_key e.auth_app_key (
      put "auth_app_id" v.app_id e.auth_app_id (
        put "auth_user_key" v.user_key e.auth_user_key (
          put "credentials_location" v.credentials e.credentials_location (
            put "hostname_rewrite" v.host e.hostname_rewrite (
              put "secret_token" v.secret_token e.secret_token (
                put_url "sandbox_endpoint" v.staging e.sandbox_endpoint
                  (put_url "endpoint" v.production e.endpoint [])))))))

  -- `syncProxyGatewayResponse`
  unfoldable pub gateway_params : Option GatewayResponseSpec → ProxyItem → Params → Params
  gateway_params none e params = params
  gateway_params (some g) e params =
      put "error_limits_exceeded" g.error_limits_exceeded e.error_limits_exceeded (
        put "error_headers_limits_exceeded" g.error_headers_limits_exceeded
          e.error_headers_limits_exceeded
          (put "error_no_match" g.error_no_match e.error_no_match (
            put "error_headers_no_match" g.error_headers_no_match e.error_headers_no_match (
              put "error_auth_missing" g.error_auth_missing e.error_auth_missing (
                put "error_headers_auth_missing" g.error_headers_auth_missing
                  e.error_headers_auth_missing
                  (put "error_auth_failed" g.error_auth_failed e.error_auth_failed (
                    put "error_headers_auth_failed" g.error_headers_auth_failed
                      e.error_headers_auth_failed
                      (put_status "error_status_limits_exceeded" g.error_status_limits_exceeded
                        e.error_status_limits_exceeded
                        (put_status "error_status_no_match" g.error_status_no_match
                          e.error_status_no_match
                          (put_status "error_status_auth_missing" g.error_status_auth_missing
                            e.error_status_auth_missing
                            (put_status "error_status_auth_failed" g.error_status_auth_failed
                              e.error_status_auth_failed params)))))))))))

  -- A plain address takes precedence over the secret.
  unfoldable pub issuer_endpoint : OidcSpec → Option String
  unfolding required_field
  issuer_endpoint o =
      if o.issuer_endpoint == ""
      then elim o.issuer_endpoint_ref [
        | none ↦ none
        | some r ↦ required_field "issuerEndpoint" (secret r.name)
      ]
      else some o.issuer_endpoint

  -- The rest of `syncProxyOIDC`, once the issuer's address is known or not.
  unfoldable pub issuer_params : Option String → OidcSpec → ProxyItem → Params → Option Params
  issuer_params none o e params = none
  issuer_params (some url) o e params = some (
      put "jwt_claim_with_client_id_type" (o.jwt_claim_with_client_id_type)
        e.jwt_claim_with_client_id_type
        (put "jwt_claim_with_client_id" (o.jwt_claim_with_client_id) e.jwt_claim_with_client_id (
          put "oidc_issuer_type" (some o.issuer_type) e.oidc_issuer_type
            (put "oidc_issuer_endpoint" (some url) e.oidc_issuer_endpoint params))))

  -- `syncProxyOIDC`
  unfoldable pub oidc_params : Option OidcSpec → ProxyItem → Params → Option Params
  unfolding issuer_params
  oidc_params none e params = some params
  oidc_params (some o) e params = issuer_params (issuer_endpoint o) o e params

  unfoldable pub proxy_params : ProxySettings → ProxyItem → Option Params
  unfolding oidc_params gateway_params basic_params
  proxy_params v e = oidc_params v.oidc e (gateway_params v.gateway e (basic_params v e))

  module _ {ℓ} {S : Type ℓ} (product_proxy : S → Option ProxyItem × S)
      (update_product_proxy : Params → S → Option ProxyItem × S) where
    -- `ProductEntity.Proxy`: the cached proxy, or that of the API.
    unfoldable pub proxy : Option ProxyItem × S → Option ProxyItem × (Option ProxyItem × S)
    proxy (some e, s) = (some e, (some e, s))
    proxy (none, s) = let (answer, s') = product_proxy s in (answer, (answer, s'))

    -- `ProductEntity.UpdateProxy`
    unfoldable pub update_proxy : Params → Option ProxyItem × S → Bool × (Option ProxyItem × S)
    update_proxy params (cache, s) =
        let (answer, s') = update_product_proxy params s in
        elim answer [ none ↦ (false, (cache, s')) | some e ↦ (true, (some e, s')) ]

    -- The end of `syncProxy`, with the parameters or an error of `syncProxyOIDC`.
    unfoldable pub finish : Option Params → Option ProxyItem × S → Outcome × (Option ProxyItem × S)
    unfolding send update_proxy
    finish none x = (fails, x)
    finish (some params) x = send update_proxy params x

    unfoldable pub sync_proxy :
        ProductSpec → Option ProxyItem × S → Outcome × (Option ProxyItem × S)
    unfolding proxy finish
    sync_proxy p x =
        let (existing, x') = proxy x in
        elim existing [
          | none ↦ (fails, x')
          | some e ↦ elim (read_settings p) [
            | panicked ↦ (panics, x')
            | returned v ↦ finish (proxy_params v e) x'
          ]
        ]
