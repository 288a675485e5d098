-- ===== src/Apps/Restore/Types.antt =====
-- The data of a restore: the status in apis/apps/v1alpha1/apimanagerrestore_types.go, the objects that
-- pkg/restore/apimanager_restore.go builds, and how an API manager is read from an object.
use scale_operator.Prelude.{
  String, ◌⊎◌, Bool, false, Option, none, some, List, nat_eq, string_eq, Dict, int_eq,
}
use scale_operator.Conditions.{Conditions}

-- `APIManagerRestoreStatus`; the reference to the API manager has nothing but its name.
pub record Status (T : Type 0) : Type 0 where
  pub api_manager_to_restore_ref : Option String
  pub completed : Option Bool
  pub main_steps_completed : Option Bool
  pub start_time : Option T
  pub completion_time : Option T

abbrev pub is_set : Option Bool → Bool
is_set none = false
is_set (some b) = b

unfoldable pub restore_completed : {T : Type 0} → Status T → Bool
restore_completed st = is_set st.completed

unfoldable pub main_steps_completed : {T : Type 0} → Status T → Bool
main_steps_completed st = is_set st.main_steps_completed

-- The part of an API manager's spec that its storage class is read from.
pub record StorageClaimSpec : Type 0 where
  pub storage_class_name : Option String

pub record FileStorageSpec : Type 0 where
  pub pvc : Option StorageClaimSpec

pub record SystemSpec : Type 0 where
  pub file_storage_spec : Option FileStorageSpec

abbrev pub available : String
available = "Available"

abbrev pub sidekiq : String
sidekiq = "system-sidekiq"

abbrev pub backup_file_name : String
backup_file_name = "apimanager-backup.json"

-- How objects are read: `data_of` is a secret's, and `decode` fails or returns an object, which is none if
-- it is no API manager; a key that is not in the data reads as none. `manager_named` has the key of the API manager of that name.
pub record Objects (E O T B : Type 0) : Type 0 where
  pub data_of : O → Dict String B
  pub decode : Option B → E ⊎ Option O
  pub set_namespace : O → O
  pub name : O → String
  pub system : O → Option SystemSpec
  pub conditions : O → Conditions T
  pub ready : O → List String
  pub manager_named : String → O

-- The errors that are built with `fmt.Errorf`.
pub record SecretErrors (E : Type 0) : Type 0 where
  pub no_key : E
  pub no_secret : E
  pub no_api_manager : E

-- The jobs of the restore's source.
pub record Source (O : Type 0) : Type 0 where
  pub secrets_job : O
  pub file_storage_job : O
  pub shared_secret_job : O
  pub resync_job : O

-- `APIManagerRestore`: the jobs are nil without a source.
pub record Plan (O : Type 0) : Type 0 where
  pub source : Option (Source O)
  pub service_account : O
  pub role : O
  pub role_binding : O
  pub shared_secret : O
  pub storage_claim : O
  pub system_storage_pvc : Option String → O

-- `runtimeRestoreInfoFromAPIManager`
unfoldable pub storage_class : Option SystemSpec → Option String
storage_class none = none
storage_class (some system) = elim system.file_storage_spec [
  | none ↦ none
  | some files ↦ elim files.pvc [ none ↦ none | some claim ↦ claim.storage_class_name ]
]

-- A job of the plan, which is nil without a source.
unfoldable pub job_of : {O : Type 0} → (Source O → O) → Option (Source O) → Option O
job_of job none = none
job_of job (some source) = some (job source)
