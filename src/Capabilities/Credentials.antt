-- ===== src/Capabilities/Credentials.antt =====
-- controllers/capabilities/application_credentials.go: the secret with an application's credentials.
-- A secret is the dictionary of its data, whose bytes are text here. The text of an error is not
-- modelled.
pub mod Laws
use scale_operator.Prelude.{
  String, Option, none, some, [], if◌then◌else◌, ◌==◌, nat_eq, string_eq, Dict, is_some, lookup,
  insert, int_eq,
}
use scale_operator.Product.Deployment.Types.{Call}
use scale_operator.Product.Types.{ProductSpec}
use scale_operator.Product.Accessors

abbrev pub type_user_key : String
type_user_key = "1"

abbrev pub type_app_id : String
type_app_id = "2"

abbrev pub type_oidc : String
type_oidc = "oidc"

-- `lacks_key` names the key that the secret does not have.
pub data CredentialError : Type 0 where
  lacks_key : String → CredentialError
  unsupported_type : String → CredentialError

-- No mode is an error.
unfoldable pub extract_application_credential_type : ProductSpec → Call (Option String)
unfolding Accessors.authentication_mode
extract_application_credential_type p = Accessors.authentication_mode p

-- A check that passes has no error.
validate_user_key : Dict String String → Option CredentialError
validate_user_key content =
    if is_some (lookup "UserKey" content) then none else some (lacks_key "UserKey")

validate_app_id_app_key : Dict String String → Option CredentialError
validate_app_id_app_key content =
    if is_some (lookup "ApplicationID" content)
    then if is_some (lookup "ApplicationKey" content)
      then none
      else some (lacks_key "ApplicationKey")
    else some (lacks_key "ApplicationID")

validate_oidc : Dict String String → Option CredentialError
validate_oidc content =
    if is_some (lookup "ClientID" content)
    then if is_some (lookup "ClientSecret" content) then none else some (lacks_key "ClientSecret")
    else some (lacks_key "ClientID")

unfoldable pub validate_secret : Dict String String → String → Option CredentialError
unfolding validate_user_key validate_app_id_app_key validate_oidc
validate_secret content mode =
    if mode == type_user_key
    then validate_user_key content
    else if mode == type_app_id
    then validate_app_id_app_key content
    else if mode == type_oidc
    then validate_oidc content
    else some (unsupported_type mode)

-- `string(data[key])`: a missing key reads as the empty string.
unfoldable pub read : String → Dict String String → String
read k content = elim (lookup k content) [ none ↦ "" | some v ↦ v ]

-- The parameters of the request, or none for an error.
unfoldable pub handle_credentials : Dict String String → String → Option (Dict String String)
unfolding read
handle_credentials content mode =
    if mode == type_user_key
    then some (insert "user_key" (read "UserKey" content) [])
    else if mode == type_app_id
    then some (
        insert "application_key" (read "ApplicationKey" content)
          (insert "application_id" (read "ApplicationID" content) []))
    else if mode == type_oidc
    then some (
        insert "application_key" (read "ClientSecret" content)
          (insert "application_id" (read "ClientID" content) []))
    else none
