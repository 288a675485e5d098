-- ===== src/Tests/Restore.antt =====
-- Runs of the restore of controllers/apps/apimanagerrestore_logic_reconciler.go on a small cluster.
use scale_operator.Prelude.{
  ℕ, String, ◌≢◌, inr, Option, none, some, List, [], ◌∷◌, if◌then◌else◌, ◌==◌, nat_eq, string_eq,
  Dict, pos, int_eq,
}
use scale_operator.Reconciler.{Get, found, not_found}
use scale_operator.Reconciler.Steps.{panics}
use scale_operator.Reconciler.Jobs.{Kube}
use scale_operator.Conditions.{Condition}
use scale_operator.Apps.Restore.Types.{Status, Objects, SecretErrors, Source, Plan}
use scale_operator.Apps.Restore.Steps.{OptionErrors, run}
use scale_operator.Apps.Restore.Total.{run_does_not_panic}

record Object : Type 0 where
  key : String
  notes : Option (Dict String String)
  data_of : Dict String String
  conditions : List (Condition ℕ)
  ready : List String

record Cluster : Type 0 where
  status : Status ℕ
  objects : List Object
  time : ℕ

abbrev find_key : String → List Object → Get String Object
find_key key [] = not_found
find_key key (o ∷ os) = let rest = find_key key os in if o.key == key then found o else rest

abbrev without : String → List Object → List Object
without key [] = []
without key (o ∷ os) = let rest = without key os in if o.key == key then rest else o ∷ rest

abbrev small_kube : Kube Cluster String Object
small_kube = record {
  client = record {
    get = λ o s. find_key o.key s.objects;
    create = λ o s. (none, record s { objects = o ∷ s.objects });
    update = λ o s. (none, s);
    delete = λ o policy s. (none, record s { objects = without o.key s.objects });
  };
  annotations = λ o. o.notes;
  set_annotations = λ notes o. record o { notes = notes };
  set_owner = λ o. (none, o);
  succeeded = λ o. pos 1;
  completions = λ o. pos 1;
}

abbrev object : String → Object
object key = record { key = key; notes = none; data_of = []; conditions = []; ready = [] }

abbrev small_objects : Objects String Object ℕ String
small_objects = record {
  data_of = λ o. o.data_of;
  decode = λ bytes. inr (some (object "manager"));
  set_namespace = λ o. o;
  name = λ o. o.key;
  system = λ o. none;
  conditions = λ o. o.conditions;
  ready = λ o. o.ready;
  manager_named = object;
}

abbrev small_errors : SecretErrors String
small_errors = record {
  no_key = "no key";
  no_secret = "no secret";
  no_api_manager = "no API manager";
}

abbrev small_source : Source Object
small_source = record {
  secrets_job = object "secrets";
  file_storage_job = object "file-storage";
  shared_secret_job = object "shared-secret";
  resync_job = object "resync";
}

abbrev small_plan : Plan Object
small_plan = record {
  source = some small_source;
  service_account = object "account";
  role = object "role";
  role_binding = object "binding";
  shared_secret = object "secret";
  storage_claim = object "claim";
  system_storage_pvc = λ class. object "claim";
}

abbrev small_checks : OptionErrors String Object
small_checks = record {
  invalid_source = λ source. none;
  invalid = λ plan. none;
  no_source = "no source";
}

abbrev write_status : Status ℕ → Cluster → Option String × Cluster
write_status st s = (none, record s { status = st })

abbrev clock : Cluster → ℕ
clock s = s.time

abbrev started : Status ℕ
started = record {
  api_manager_to_restore_ref = some "manager";
  completed = none;
  main_steps_completed = none;
  start_time = some 3;
  completion_time = none;
}

abbrev ready_manager : Object
ready_manager = record (object "manager") { ready = "system-sidekiq" ∷ [] }

abbrev secret : Object
secret = record (object "secret") { data_of = ("apimanager-backup.json", "bytes") ∷ [] }

-- Everything is there, the shared secret too.
abbrev full_cluster : Cluster
full_cluster = record {
  status = started;
  objects =
      secret
      ∷ ready_manager
      ∷ object "secrets"
      ∷ object "file-storage"
      ∷ object "shared-secret"
      ∷ object "resync"
      ∷ object "account"
      ∷ object "role"
      ∷ object "binding"
      ∷ object "claim"
      ∷ [];
  time = 4;
}

-- A status without a reference to the API manager.
run_does_not_panic_example :
    (run small_kube write_status clock small_objects small_errors small_checks small_plan
      (record started { api_manager_to_restore_ref = none }, full_cluster)).0
    ≢ panics
run_does_not_panic_example =
    run_does_not_panic small_kube write_status clock small_objects small_errors small_checks
      small_plan (record started { api_manager_to_restore_ref = none }, full_cluster)
