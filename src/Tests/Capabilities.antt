-- ===== src/Tests/Capabilities.antt =====
-- The capabilities' decisions at concrete inputs.
use scale_operator.Prelude.{
  String, ◌≡◌, ◌↔◌, true, none, [], ◌∷◌, if◌then◌else◌, nat_eq, string_eq, Dict, is_some, int_eq,
}
use scale_operator.Capabilities.Credentials.{validate_secret, handle_credentials}
use scale_operator.Capabilities.Credentials.Laws.{collected, credentials_lem}

abbrev secret : Dict String String
secret = ("ClientID", "shop") ∷ ("ClientSecret", "hunter2") ∷ []

credentials_lem_example :
    ((validate_secret secret "oidc" ≡ none) ↔ (is_some (collected secret "oidc") ≡ true))
    × ((if is_some (validate_secret secret "oidc") then none else handle_credentials secret "oidc")
        ≡ collected secret "oidc")
credentials_lem_example = credentials_lem secret "oidc"
