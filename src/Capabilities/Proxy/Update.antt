-- ===== src/Capabilities/Proxy/Update.antt =====
-- The whole synchronisation of a proxy.
use scale_operator.Prelude.{
  String, ◌≡◌, refl, sym, Bool, true, false, Option, none, some, [], ◌∷◌, if◌then◌else◌, nat_eq,
  string_eq, Dict, ℤ, int_eq, subst,
}
use scale_operator.Product.Deployment.Types.{returned}
use scale_operator.Product.Types.{ProductSpec}
use scale_operator.Product.Accessors
use scale_operator.Capabilities.Params.{Params, Outcome, unchanged, updated, fails, send}
use scale_operator.Capabilities.Proxy.{
  finish, ProxyItem, ProxySettings, and_then, read_settings, proxy_params, proxy, sync_proxy,
  update_proxy,
}
use scale_operator.Capabilities.Proxy.Laws.{Rows, Sends, Follows, proxy_rows, proxy_params-Follows}

-- The accessors of the resource return the settings.
pub record IsRead (p : ProductSpec) (v : ProxySettings) : Type 0 where
  pub production : Accessors.prod_public_base_url p ≡ returned v.production
  pub staging : Accessors.staging_public_base_url p ≡ returned v.staging
  pub secret_token : Accessors.security_secret_token p ≡ returned v.secret_token
  pub host : Accessors.host_rewrite p ≡ returned v.host
  pub credentials : Accessors.credentials_location p ≡ returned v.credentials
  pub user_key : Accessors.auth_user_key p ≡ returned v.user_key
  pub app_id : Accessors.auth_app_id p ≡ returned v.app_id
  pub app_key : Accessors.auth_app_key p ≡ returned v.app_key
  pub gateway : Accessors.gateway_response p ≡ returned v.gateway
  pub oidc : Accessors.oidc_spec p ≡ returned v.oidc

read_settings-IsRead :
    (p : ProductSpec) (v : ProxySettings) → IsRead p v → read_settings p ≡ returned v
unfolding read_settings and_then
read_settings-IsRead p v r =
    rw
      (
        r.production, r.staging, r.secret_token, r.host, r.credentials, r.user_key, r.app_id,
        r.app_key, r.gateway, r.oidc,
      )
      refl

module _ (default_port : String → String) (itoa : ℤ → String)
    (secret : String → Option (Dict String String)) where
  module _ {S : Type 0} (product_proxy : S → Option ProxyItem × S)
      (update_product_proxy : Params → S → Option ProxyItem × S) (e : ProxyItem) (s : S) where
    -- What a request answers, and the proxy that the entity then has.
    abbrev pub after_answer : Option ProxyItem × S → Outcome × (Option ProxyItem × S)
    after_answer (none, s') = (fails, (some e, s'))
    after_answer (some e', s') = (updated, (some e', s'))

    -- No request without parameters.
    abbrev pub requested : Params → Outcome × (Option ProxyItem × S)
    requested [] = (unchanged, (some e, s))
    requested (q ∷ ps) = after_answer (update_product_proxy (q ∷ ps) s)

    -- A run with the given rows, or one that fails with nothing sent.
    abbrev pub IsRun : Outcome × (Option ProxyItem × S) → Option Rows → Type 0
    IsRun run none = run ≡ (fails, (some e, s))
    IsRun run (some rows) = (ps : Params) × Sends ps rows × (run ≡ requested ps)

    finish-requested :
        (ps : Params)
        → finish default_port itoa secret product_proxy update_product_proxy (some ps) (some e, s)
          ≡ requested ps
    unfolding finish send update_proxy
    finish-requested [] = refl
    finish-requested (q ∷ ps) = by_answer (update_product_proxy (q ∷ ps) s)
      where
        by_answer :
            (r : Option ProxyItem × S)
            → (let (accepted, x) = elim r.0 as (λ _. Bool × (Option ProxyItem × S)) [
              | none ↦ (false, (some e, r.1))
              | some e' ↦ (true, (some e', r.1))
            ] in
                (if accepted then updated else fails, x))
              ≡ after_answer r
        by_answer (none, s') = refl
        by_answer (some e', s') = refl

    finish-IsRun :
        (params : Option Params) (rows : Option Rows)
        → Follows default_port itoa secret params rows
        → IsRun
            (finish default_port itoa secret product_proxy update_product_proxy params (some e, s))
            rows
    unfolding finish
    finish-IsRun none none h = refl
    finish-IsRun (some ps) (some rows) h = (ps, h, finish-requested ps)
    finish-IsRun none (some rows) h = absurd h
    finish-IsRun (some ps) none h = absurd h

    sync_proxy-finish :
        (p : ProductSpec) (v : ProxySettings)
        → read_settings p ≡ returned v
        → sync_proxy default_port itoa secret product_proxy update_product_proxy p (some e, s)
          ≡ finish default_port itoa secret product_proxy update_product_proxy
              (proxy_params default_port itoa secret v e)
              (some e, s)
    unfolding sync_proxy proxy
    sync_proxy-finish p v h = rw (h, sync_proxy) refl

    -- Where the accessors return the settings and the entity holds the API's proxy: a run with OpenID
    -- Connect whose issuer's address is neither in the resource nor in its secret fails with nothing
    -- sent. Any other run makes one request, whose parameters are exactly the settings that are set and
    -- differ from the proxy's fields, under their keys; it makes none if no setting differs.
    pub sync_proxy_lem :
        (p : ProductSpec) (v : ProxySettings)
        → IsRead p v
        → IsRun
            (sync_proxy default_port itoa secret product_proxy update_product_proxy p (some e, s))
            (proxy_rows default_port itoa secret v e)
    sync_proxy_lem p v r =
        let made = proxy_params default_port itoa secret v e in
        let rows = proxy_rows default_port itoa secret v e in
        subst (λ run. IsRun run rows) (sym (sync_proxy-finish p v (read_settings-IsRead p v r)))
          (finish-IsRun made rows (proxy_params-Follows default_port itoa secret v e))
