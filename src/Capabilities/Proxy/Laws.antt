-- ===== src/Capabilities/Proxy/Laws.antt =====
-- What the synchronisation of a proxy sends.
use scale_operator.Prelude.{
  String, ◌≡◌, refl, ◌∙◌, inl, inr, Option, none, some, List, [], ◌∷◌, if◌then◌else◌, Bool-cases,
  ◌==◌, nat_eq, string_eq, Dict, lookup, lookup-insert, ℤ, int_eq,
}
use scale_operator.Product.Deployment.Types.{GatewayResponseSpec, OidcSpec}
use scale_operator.Capabilities.Params.{Params, put}
use scale_operator.Capabilities.Proxy.{
  required_field, proxy_params, ProxyItem, ProxySettings, to_int32, put_url, put_status,
  basic_params, gateway_params, issuer_endpoint, issuer_params, oidc_params,
}

-- The parameters that a request may have, each with the value that it is to have, if any.
abbrev pub Rows : Type 0
Rows = List (String × Option String)

abbrev pub value_of : String → Rows → Option String
value_of key [] = none
value_of key ((k, none) ∷ rows) = value_of key rows
value_of key ((k, some v) ∷ rows) = if k == key then some v else value_of key rows

-- Under each key, the parameters have what the rows have.
abbrev pub Sends : Params → Rows → Type 0
Sends params rows = (key : String) → lookup key params ≡ value_of key rows

-- A text is sent if it is set and is not what exists.
abbrev pub text : Option String → String → Option String
text none existing = none
text (some v) existing = if existing == v then none else some v

put-text :
    (k : String) (d : Option String) (existing : String) (ps : Params) (rows : Rows)
    → Sends ps rows
    → Sends (put k d existing ps) ((k, text d existing) ∷ rows)
unfolding put
put-text k none existing ps rows h key = h key
put-text k (some v) existing ps rows h key = elim (Bool-cases (existing == v)) [
  | inl same ↦ rw same (h key)
  | inr other ↦ rw other (lookup-insert k key v ps ∙ rw (h key) refl)
]

module _ (default_port : String → String) (itoa : ℤ → String)
    (secret : String → Option (Dict String String)) where
  -- Addresses are compared with their default ports, statuses as 32-bit numbers.
  abbrev pub address : Option String → String → Option String
  address none existing = none
  address (some v) existing = if default_port existing == default_port v then none else some v

  abbrev pub status : Option ℤ → ℤ → Option String
  status none existing = none
  status (some v) existing = if to_int32 existing == v then none else some (itoa v)

  abbrev pub basic_rows : ProxySettings → ProxyItem → Rows
  basic_rows v e =
      ("auth_app_key", text v.app_key e.auth_app_key)
      ∷ ("auth_app_id", text v.app_id e.auth_app_id)
      ∷ ("auth_user_key", text v.user_key e.auth_user_key)
      ∷ ("credentials_location", text v.credentials e.credentials_location)
      ∷ ("hostname_rewrite", text v.host e.hostname_rewrite)
      ∷ ("secret_token", text v.secret_token e.secret_token)
      ∷ ("sandbox_endpoint", address v.staging e.sandbox_endpoint)
      ∷ ("endpoint", address v.production e.endpoint)
      ∷ []

  abbrev pub gateway_rows : Option GatewayResponseSpec → ProxyItem → Rows → Rows
  gateway_rows none e rest = rest
  gateway_rows (some g) e rest =
      ("error_limits_exceeded", text g.error_limits_exceeded e.error_limits_exceeded)
      ∷ (
        "error_headers_limits_exceeded",
        text g.error_headers_limits_exceeded e.error_headers_limits_exceeded,
      )
      ∷ ("error_no_match", text g.error_no_match e.error_no_match)
      ∷ ("error_headers_no_match", text g.error_headers_no_match e.error_headers_no_match)
      ∷ ("error_auth_missing", text g.error_auth_missing e.error_auth_missing)
      ∷ (
        "error_headers_auth_missing",
        text g.error_headers_auth_missing e.error_headers_auth_missing,
      )
      ∷ ("error_auth_failed", text g.error_auth_failed e.error_auth_failed)
      ∷ ("error_headers_auth_failed", text g.error_headers_auth_failed e.error_headers_auth_failed)
      ∷ (
        "error_status_limits_exceeded",
        status g.error_status_limits_exceeded e.error_status_limits_exceeded,
      )
      ∷ ("error_status_no_match", status g.error_status_no_match e.error_status_no_match)
      ∷ (
        "error_status_auth_missing",
        status g.error_status_auth_missing e.error_status_auth_missing,
      )
      ∷ ("error_status_auth_failed", status g.error_status_auth_failed e.error_status_auth_failed)
      ∷ rest

  abbrev pub issuer_rows : String → OidcSpec → ProxyItem → Rows → Rows
  issuer_rows url o e rest =
      (
        "jwt_claim_with_client_id_type",
        text o.jwt_claim_with_client_id_type e.jwt_claim_with_client_id_type,
      )
      ∷ ("jwt_claim_with_client_id", text o.jwt_claim_with_client_id e.jwt_claim_with_client_id)
      ∷ ("oidc_issuer_type", text (some o.issuer_type) e.oidc_issuer_type)
      ∷ ("oidc_issuer_endpoint", text (some url) e.oidc_issuer_endpoint)
      ∷ rest

  -- The issuer's address is the plain one, or else that in the field of the secret.
  abbrev pub issuer : OidcSpec → Option String
  issuer o =
      if o.issuer_endpoint == ""
      then elim o.issuer_endpoint_ref [
        | none ↦ none
        | some r ↦ elim (secret r.name) [
          | none ↦ none
          | some entries ↦ lookup "issuerEndpoint" entries
        ]
      ]
      else some o.issuer_endpoint

  -- Nothing where OpenID Connect is asked for with an issuer whose address is not known.
  abbrev pub oidc_rows : Option OidcSpec → ProxyItem → Rows → Option Rows
  oidc_rows none e rest = some rest
  oidc_rows (some o) e rest = elim (issuer o) as (λ _. Option Rows) [
    | none ↦ none
    | some url ↦ some (issuer_rows url o e rest)
  ]

  abbrev pub proxy_rows : ProxySettings → ProxyItem → Option Rows
  proxy_rows v e = oidc_rows v.oidc e (gateway_rows v.gateway e (basic_rows v e))

  put_address :
      (k : String) (d : Option String) (existing : String) (ps : Params) (rows : Rows)
      → Sends ps rows
      → Sends (put_url default_port itoa secret k d existing ps) ((k, address d existing) ∷ rows)
  unfolding put_url
  put_address k none existing ps rows h key = h key
  put_address k (some v) existing ps rows h key =
      elim (Bool-cases (default_port existing == default_port v)) [
        | inl same ↦ rw same (h key)
        | inr other ↦ rw other (lookup-insert k key v ps ∙ rw (h key) refl)
      ]

  put_status_row :
      (k : String) (d : Option ℤ) (existing : ℤ) (ps : Params) (rows : Rows)
      → Sends ps rows
      → Sends (put_status default_port itoa secret k d existing ps) ((k, status d existing) ∷ rows)
  unfolding put_status
  put_status_row k none existing ps rows h key = h key
  put_status_row k (some v) existing ps rows h key = elim (Bool-cases (to_int32 existing == v)) [
    | inl same ↦ rw same (h key)
    | inr other ↦ rw other (lookup-insert k key (itoa v) ps ∙ rw (h key) refl)
  ]

  basic_params-Sends :
      (v : ProxySettings) (e : ProxyItem)
      → Sends (basic_params default_port itoa secret v e) (basic_rows v e)
  unfolding basic_params
  basic_params-Sends v e = put-text "auth_app_key" v.app_key e.auth_app_key _ _ (
      put-text "auth_app_id" v.app_id e.auth_app_id _ _ (
        put-text "auth_user_key" v.user_key e.auth_user_key _ _ (
          put-text "credentials_location" v.credentials e.credentials_location _ _ (
            put-text "hostname_rewrite" v.host e.hostname_rewrite _ _ (
              put-text "secret_token" v.secret_token e.secret_token _ _ (
                put_address "sandbox_endpoint" v.staging e.sandbox_endpoint _ _
                  (put_address "endpoint" v.production e.endpoint _ _ (λ key. refl))))))))

  gateway_params-Sends :
      (g : Option GatewayResponseSpec) (e : ProxyItem) (ps : Params) (rows : Rows)
      → Sends ps rows
      → Sends (gateway_params default_port itoa secret g e ps) (gateway_rows g e rows)
  unfolding gateway_params
  gateway_params-Sends none e ps rows h = h
  gateway_params-Sends (some g) e ps rows h =
      put-text "error_limits_exceeded" g.error_limits_exceeded e.error_limits_exceeded _ _ (
        put-text "error_headers_limits_exceeded" g.error_headers_limits_exceeded
          e.error_headers_limits_exceeded _ _
          (put-text "error_no_match" g.error_no_match e.error_no_match _ _ (
            put-text "error_headers_no_match" g.error_headers_no_match e.error_headers_no_match _ _
              (put-text "error_auth_missing" g.error_auth_missing e.error_auth_missing _ _ (
                put-text "error_headers_auth_missing" g.error_headers_auth_missing
                  e.error_headers_auth_missing _ _
                  (put-text "error_auth_failed" g.error_auth_failed e.error_auth_failed _ _ (
                    put-text "error_headers_auth_failed" g.error_headers_auth_failed
                      e.error_headers_auth_failed _ _
                      (put_status_row "error_status_limits_exceeded" g.error_status_limits_exceeded
                        e.error_status_limits_exceeded _ _
                        (put_status_row "error_status_no_match" g.error_status_no_match
                          e.error_status_no_match _ _
                          (put_status_row "error_status_auth_missing" g.error_status_auth_missing
                            e.error_status_auth_missing _ _
                            (put_status_row "error_status_auth_failed" g.error_status_auth_failed
                              e.error_status_auth_failed _ _ (h))))))))))))

  -- Parameters that have what the rows have, or an error where there are none.
  abbrev pub Follows : Option Params → Option Rows → Type 0
  Follows none none = Unit
  Follows (some ps) (some rows) = Sends ps rows
  Follows none (some rows) = ⊥
  Follows (some ps) none = ⊥

  issuer_params-Follows :
      (url : Option String) (o : OidcSpec) (e : ProxyItem) (ps : Params) (rows : Rows)
      → Sends ps rows
      → Follows
          (issuer_params default_port itoa secret url o e ps)
          (elim url as (λ _. Option Rows) [ none ↦ none | some u ↦ some (issuer_rows u o e rows) ])
  unfolding issuer_params
  issuer_params-Follows none o e ps rows h = tt
  issuer_params-Follows (some url) o e ps rows h =
      put-text "jwt_claim_with_client_id_type" o.jwt_claim_with_client_id_type
        e.jwt_claim_with_client_id_type _ _
        (put-text "jwt_claim_with_client_id" o.jwt_claim_with_client_id e.jwt_claim_with_client_id _
          _
          (put-text "oidc_issuer_type" (some o.issuer_type) e.oidc_issuer_type _ _
            (put-text "oidc_issuer_endpoint" (some url) e.oidc_issuer_endpoint _ _ (h))))

  oidc_params-Follows :
      (o : Option OidcSpec) (e : ProxyItem) (ps : Params) (rows : Rows)
      → Sends ps rows
      → Follows (oidc_params default_port itoa secret o e ps) (oidc_rows o e rows)
  unfolding oidc_params issuer_endpoint required_field
  oidc_params-Follows none e ps rows h = h
  oidc_params-Follows (some o) e ps rows h = issuer_params-Follows (issuer o) o e ps rows h

  pub proxy_params-Follows :
      (v : ProxySettings) (e : ProxyItem)
      → Follows (proxy_params default_port itoa secret v e) (proxy_rows v e)
  unfolding proxy_params
  proxy_params-Follows v e =
      oidc_params-Follows v.oidc e _ _
        (gateway_params-Sends v.gateway e _ _ (basic_params-Sends v e))
