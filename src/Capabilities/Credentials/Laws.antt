-- ===== src/Capabilities/Credentials/Laws.antt =====
-- A secret that passes its check gives the parameters of a request, each from a key that it has.
use scale_operator.Prelude.{
  String, ◌≡◌, ◌↔◌, true, Option, none, some, [], ◌∷◌, arith, if◌then◌else◌, ◌==◌, nat_eq,
  string_eq, Dict, is_some, lookup, int_eq,
}
use scale_operator.Capabilities.Credentials.{validate_secret, handle_credentials, read}

-- The keys of the secret that each parameter of a mode comes from.
abbrev pub sources : String → Option (Dict String String)
sources mode =
    if mode == "1"
    then some (("user_key", "UserKey") ∷ [])
    else if mode == "2"
    then some (("application_id", "ApplicationID") ∷ ("application_key", "ApplicationKey") ∷ [])
    else if mode == "oidc"
    then some (("application_id", "ClientID") ∷ ("application_key", "ClientSecret") ∷ [])
    else none

-- The parameters that a secret's data give, if every key is there.
abbrev pub collect : Dict String String → Dict String String → Option (Dict String String)
collect content [] = some []
collect content ((parameter, k) ∷ rest) = elim (lookup k content) [
  | none ↦ none
  | some v ↦ elim (collect content rest) [ none ↦ none | some ps ↦ some ((parameter, v) ∷ ps) ]
]

abbrev pub collected : Dict String String → String → Option (Dict String String)
collected content mode = elim (sources mode) [ none ↦ none | some table ↦ collect content table ]

-- A secret passes the check exactly when its data have, for every parameter of the mode, the key that
-- the parameter comes from; and a check followed by the making of the parameters gives the values
-- under these keys, or nothing if the check fails.
pub credentials_lem :
    (content : Dict String String) (mode : String)
    → ((validate_secret content mode ≡ none) ↔ (is_some (collected content mode) ≡ true))
      × ((if is_some (validate_secret content mode) then none else handle_credentials content mode)
          ≡ collected content mode)
unfolding validate_secret handle_credentials read
credentials_lem content mode = ground arith
