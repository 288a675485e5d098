-- ===== src/Apps/Backup.antt =====
-- controllers/apps/apimanagerbackup_logic_reconciler.go, with the options of
-- pkg/backup/apimanager_backup_options_provider.go and the tests of the status in
-- apis/apps/v1alpha1/apimanagerbackup_types.go. A step works on the status in memory and the state of
-- the cluster. The objects that pkg/backup/apimanager_backup.go builds are fields of a plan, whose
-- destination is nil if the resource names no volume claim. Parameters: the requests of Kubernetes,
-- the write of the status, the list of API managers, the clock and the constructor of the plan.
pub mod Invariant
pub mod Sequence
pub mod Reach
pub mod Quiet
pub mod Safety
use scale_operator.Prelude.{
  String, ◌⊎◌, inl, inr, Bool, true, false, Option, none, some, List, [], ◌∷◌, if◌then◌else◌, ◌==◌,
  nat_eq, string_eq, int_eq,
}
use scale_operator.Reconciler.Steps.{Result, proceed, requeue, fails, Step, ◌>>◌, next}
use scale_operator.Reconciler.Status.{
  on_cluster, request, write_and_requeue, write_checked, set_once,
}
use scale_operator.Reconciler.Jobs.{Kube, ensure, reconcile_optional_job, jobs_cleanup}

-- `APIManagerBackupStatus`
pub record Status (T : Type 0) : Type 0 where
  pub completed : Option Bool
  pub main_steps_completed : Option Bool
  pub api_manager_source_name : Option String
  pub start_time : Option T
  pub completion_time : Option T
  pub backup_pvc_name : Option String

abbrev pub is_set : Option Bool → Bool
is_set none = false
is_set (some b) = b

unfoldable pub backup_completed : {T : Type 0} → Status T → Bool
backup_completed st = is_set st.completed

unfoldable pub main_steps_completed : {T : Type 0} → Status T → Bool
main_steps_completed st = is_set st.main_steps_completed

-- The volume claim and the jobs that use it.
pub record Destination (O : Type 0) : Type 0 where
  pub pvc : O
  pub pvc_name : String
  pub secrets_job : O
  pub custom_resource_job : O
  pub file_storage_job : O

-- `APIManagerBackup`
pub record Plan (O : Type 0) : Type 0 where
  pub api_manager_name : String
  pub destination : Option (Destination O)
  pub service_account : O
  pub role : O
  pub role_binding : O

module _ {S E O T : Type 0} (kube : Kube S E O) (update_status : Status T → S → Option E × S)
    (clock : S → T) where
  -- `reconcileAPIManagerSourceStatusField`, by the name that the status has.
  unfoldable pub check_source : Plan O → Option String → Step E (Status T × S)
  unfolding write_and_requeue
  check_source plan none (st, s) =
      write_and_requeue update_status
        (record st { api_manager_source_name = some plan.api_manager_name }) (st, s)
  check_source plan (some name) (st, s) =
      if name == plan.api_manager_name
      then (proceed, (st, s))
      else write_and_requeue update_status
          (record st { api_manager_source_name = some plan.api_manager_name }) (st, s)

  unfoldable pub source_status : Plan O → Step E (Status T × S)
  unfolding check_source
  source_status plan x = check_source plan x.0.api_manager_source_name x

  unfoldable pub start_time_field : Step E (Status T × S)
  unfolding set_once
  start_time_field x =
      set_once update_status x.0.start_time (record x.0 { start_time = some (clock x.1) }) x

  -- The steps that the destination asks for.
  unfoldable pub destination_pvc : Option (Destination O) → Step E (Status T × S)
  unfolding ensure request
  destination_pvc none x = (proceed, x)
  destination_pvc (some d) x = request (ensure kube d.pvc) x

  unfoldable pub pvc_status : Option (Destination O) → Step E (Status T × S)
  unfolding set_once
  pvc_status none x = (proceed, x)
  pvc_status (some d) x =
      set_once update_status x.0.backup_pvc_name (record x.0 { backup_pvc_name = some d.pvc_name })
        x

  unfoldable pub jobs_permissions : Plan O → Step E (Status T × S)
  unfolding ensure request ◌>>◌
  jobs_permissions plan =
      request (ensure kube plan.service_account)
      >> (request (ensure kube plan.role) >> request (ensure kube plan.role_binding))

  -- A job of the plan, which is nil without a destination.
  unfoldable pub job_of : (Destination O → O) → Option (Destination O) → Option O
  job_of job none = none
  job_of job (some d) = some (job d)

  unfoldable pub job_step : (Destination O → O) → Plan O → Step E (Status T × S)
  unfolding reconcile_optional_job job_of
  job_step job plan = on_cluster (reconcile_optional_job kube (job_of job plan.destination))

  -- `reconcileBackupInPVCDestination`
  unfoldable pub backup_in_pvc : Plan O → Step E (Status T × S)
  unfolding destination_pvc pvc_status jobs_permissions job_step ◌>>◌
  backup_in_pvc plan =
      destination_pvc plan.destination
      >> (pvc_status plan.destination
          >> (jobs_permissions plan
              >> (job_step (λ d. d.secrets_job) plan
                  >> (job_step (λ d. d.custom_resource_job) plan
                      >> job_step (λ d. d.file_storage_job) plan))))

  unfoldable pub set_main_steps_completed : Step E (Status T × S)
  unfolding main_steps_completed write_and_requeue
  set_main_steps_completed x =
      if main_steps_completed x.0
      then (proceed, x)
      else write_and_requeue update_status (record x.0 { main_steps_completed = some true }) x

  unfoldable pub main_steps : Plan O → Step E (Status T × S)
  unfolding source_status start_time_field backup_in_pvc set_main_steps_completed ◌>>◌
  main_steps plan =
      source_status plan >> (start_time_field >> (backup_in_pvc plan >> set_main_steps_completed))

  -- `reconcileJobsCleanup` reads the names of these jobs.
  unfoldable pub backup_jobs : Option (Destination O) → List (Option O)
  unfolding job_of
  backup_jobs d =
      job_of (λ d. d.secrets_job) d
      ∷ job_of (λ d. d.custom_resource_job) d
      ∷ job_of (λ d. d.file_storage_job) d
      ∷ []

  unfoldable pub backup_completion : Step E (Status T × S)
  unfolding backup_completed write_checked
  backup_completion x =
      if backup_completed x.0
      then (proceed, x)
      else write_checked update_status
          (record x.0 { completed = some true; completion_time = some (clock x.1) }) x

  unfoldable pub post_backup_steps : Plan O → Step E (Status T × S)
  unfolding jobs_cleanup backup_jobs backup_completion ◌>>◌
  post_backup_steps plan =
      on_cluster (jobs_cleanup kube (backup_jobs plan.destination)) >> backup_completion

  unfoldable pub reconcile : Plan O → Step E (Status T × S)
  unfolding backup_completed main_steps_completed main_steps post_backup_steps next
  reconcile plan x =
      if backup_completed x.0
      then (proceed, x)
      else if main_steps_completed x.0
      then post_backup_steps plan x
      else next (λ y. (requeue 5 none, y)) (main_steps plan x)

-- The part of the resource's spec that the plan comes from.
pub record Spec (O : Type 0) : Type 0 where
  pub destination : Option (Destination O)
  pub service_account : O
  pub role : O
  pub role_binding : O

-- The errors that the options build, and the validator's error for a claim.
pub record OptionErrors (E O : Type 0) : Type 0 where
  pub no_api_manager : E
  pub several_api_managers : E
  pub no_destination : E
  pub invalid_claim : Destination O → Option E

unfoldable pub plan_of : {O : Type 0} → Spec O → String → Plan O
plan_of spec name = record {
  api_manager_name = name;
  destination = spec.destination;
  service_account = spec.service_account;
  role = spec.role;
  role_binding = spec.role_binding;
}

-- The claim's `res.Validate()` and then that of all options.
unfoldable pub validated : {E O : Type 0} → Plan O → Option E → Option E → E ⊎ Plan O
validated plan (some err) whole = inl err
validated plan none (some err) = inl err
validated plan none none = inr plan

-- `Options`, from the names of the API managers in the namespace or an error of the list.
unfoldable pub options_for :
    {E O : Type 0}
    → OptionErrors E O
    → (Plan O → Option E)
    → Option (Destination O)
    → Plan O
    → E ⊎ Plan O
unfolding validated
options_for errors invalid none plan = inl errors.no_destination
options_for errors invalid (some d) plan = validated plan (errors.invalid_claim d) (invalid plan)

unfoldable pub options :
    {E O : Type 0} → OptionErrors E O → (Plan O → Option E) → Spec O → E ⊎ List String → E ⊎ Plan O
unfolding plan_of options_for
options errors invalid spec (inl err) = inl err
options errors invalid spec (inr []) = inl errors.no_api_manager
options errors invalid spec (inr (_ ∷ _ ∷ _)) = inl errors.several_api_managers
options errors invalid spec (inr (name ∷ [])) =
    options_for errors invalid spec.destination (plan_of spec name)

module _ {S E O T : Type 0} (kube : Kube S E O) (update_status : Status T → S → Option E × S)
    (clock : S → T) (errors : OptionErrors E O) (invalid : Plan O → Option E)
    (list : S → E ⊎ List String) where
  unfoldable pub reconcile_options : E ⊎ Plan O → Step E (Status T × S)
  unfolding reconcile
  reconcile_options (inl err) x = (fails err, x)
  reconcile_options (inr plan) x = reconcile kube update_status clock plan x

  -- `NewAPIManagerBackupLogicReconciler` and its `Reconcile`: a completed backup needs no options.
  unfoldable pub run : Spec O → Step E (Status T × S)
  unfolding backup_completed options reconcile_options
  run spec x =
      if backup_completed x.0
      then (proceed, x)
      else reconcile_options (options errors invalid spec (list x.1)) x
