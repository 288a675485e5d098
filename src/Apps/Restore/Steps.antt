-- ===== src/Apps/Restore/Steps.antt =====
-- The steps of controllers/apps/apimanagerrestore_logic_reconciler.go, and the options of
-- pkg/restore/apimanager_restore_options_provider.go.
use scale_operator.Prelude.{
  String, ◌⊎◌, inl, inr, true, Option, none, some, List, [], ◌∷◌, if◌then◌else◌, nat_eq, string_eq,
  int_eq,
}
use scale_operator.Reconciler.Steps.{proceed, requeue, fails, Step, ◌>>◌, next}
use scale_operator.Reconciler.Jobs.{
  Kube, ensure, reconcile_job, reconcile_optional_job, jobs_cleanup,
}
use scale_operator.Reconciler.Status.{
  on_cluster, request, write_and_requeue, write_checked, set_once,
}
use scale_operator.Apps.Restore.Types.{
  Status, Objects, SecretErrors, Source, Plan, job_of, restore_completed, main_steps_completed,
}
use scale_operator.Apps.Restore.Cluster.{
  shared_backup_secret, manager_from_shared_secret, file_storage, restore_manager, resynchronize,
  wait_for_ready, secret_cleanup,
}

module _ {S E O T B : Type 0} (kube : Kube S E O) (update_status : Status T → S → Option E × S)
    (clock : S → T) (objects : Objects E O T B) (errors : SecretErrors E) where
  unfoldable pub start_time_field : Step E (Status T × S)
  unfolding set_once
  start_time_field x =
      set_once update_status x.0.start_time (record x.0 { start_time = some (clock x.1) }) x

  unfoldable pub jobs_permissions : Plan O → Step E (Status T × S)
  unfolding ensure request ◌>>◌
  jobs_permissions plan =
      request (ensure kube plan.service_account)
      >> (request (ensure kube plan.role) >> request (ensure kube plan.role_binding))

  unfoldable pub job_step : (Source O → O) → Plan O → Step E (Status T × S)
  unfolding reconcile_optional_job job_of
  job_step job plan = on_cluster (reconcile_optional_job kube (job_of job plan.source))

  -- `reconcileRestoreAPIManagerInSharedSecret`, after its job: the name that the status gets.
  unfoldable pub set_ref : E ⊎ O → Step E (Status T × S)
  unfolding write_checked
  set_ref (inl err) x = (fails err, x)
  set_ref (inr manager) x =
      write_checked update_status
        (record x.0 { api_manager_to_restore_ref = some (objects.name manager) }) x

  unfoldable pub ref_from_secret : Plan O → E ⊎ Option O → Step E (Status T × S)
  unfolding set_ref manager_from_shared_secret
  ref_from_secret plan (inl err) x = (fails err, x)
  ref_from_secret plan (inr none) x = (requeue 5 none, x)
  ref_from_secret plan (inr (some _)) x =
      set_ref (manager_from_shared_secret kube objects errors plan x.1) x

  unfoldable pub ref_field : Plan O → Option String → Step E (Status T × S)
  unfolding ref_from_secret shared_backup_secret
  ref_field plan (some _) x = (proceed, x)
  ref_field plan none x = ref_from_secret plan (shared_backup_secret kube objects errors plan x.1) x

  unfoldable pub in_shared_secret : Plan O → Option O → Step E (Status T × S)
  unfolding reconcile_job ref_field ◌>>◌
  in_shared_secret plan none x = (proceed, x)
  in_shared_secret plan (some job) x =
      (on_cluster (reconcile_job kube job)
          >> (λ y. ref_field plan y.0.api_manager_to_restore_ref y))
        x

  -- A step that reads the name of the API manager in the status.
  abbrev pub with_ref : (Option String → Step E S) → Step E (Status T × S)
  with_ref m x = on_cluster (m x.0.api_manager_to_restore_ref) x

  -- `reconcileRestoreFromPVCSource`
  unfoldable pub restore_from_pvc : Plan O → Step E (Status T × S)
  unfolding jobs_permissions job_step in_shared_secret job_of file_storage restore_manager
      resynchronize wait_for_ready secret_cleanup ◌>>◌
  restore_from_pvc plan =
      jobs_permissions plan
      >> (job_step (λ source. source.secrets_job) plan
          >> (in_shared_secret plan (job_of (λ source. source.shared_secret_job) plan.source)
              >> (on_cluster (
                    file_storage kube objects errors plan
                      (job_of (λ source. source.file_storage_job) plan.source))
                  >> (with_ref (restore_manager kube objects errors plan)
                      >> (with_ref (resynchronize kube objects errors plan)
                          >> (with_ref (wait_for_ready kube objects errors)
                              >> on_cluster (secret_cleanup kube objects errors plan)))))))

  unfoldable pub set_main_steps_completed : Step E (Status T × S)
  unfolding main_steps_completed write_and_requeue
  set_main_steps_completed x =
      if main_steps_completed x.0
      then (proceed, x)
      else write_and_requeue update_status (record x.0 { main_steps_completed = some true }) x

  unfoldable pub main_steps : Plan O → Step E (Status T × S)
  unfolding start_time_field restore_from_pvc set_main_steps_completed ◌>>◌
  main_steps plan = start_time_field >> (restore_from_pvc plan >> set_main_steps_completed)

  -- `reconcileJobsCleanup` reads the names of these jobs.
  unfoldable pub restore_jobs : Option (Source O) → List (Option O)
  unfolding job_of
  restore_jobs source =
      job_of (λ source. source.secrets_job) source
      ∷ job_of (λ source. source.file_storage_job) source
      ∷ job_of (λ source. source.shared_secret_job) source
      ∷ job_of (λ source. source.resync_job) source
      ∷ []

  unfoldable pub restore_completion : Step E (Status T × S)
  unfolding restore_completed write_checked
  restore_completion x =
      if restore_completed x.0
      then (proceed, x)
      else write_checked update_status
          (record x.0 { completed = some true; completion_time = some (clock x.1) }) x

  unfoldable pub post_restore_steps : Plan O → Step E (Status T × S)
  unfolding jobs_cleanup restore_jobs restore_completion ◌>>◌
  post_restore_steps plan =
      on_cluster (jobs_cleanup kube (restore_jobs plan.source)) >> restore_completion

  unfoldable pub reconcile : Plan O → Step E (Status T × S)
  unfolding restore_completed main_steps_completed main_steps post_restore_steps next
  reconcile plan x =
      if restore_completed x.0
      then (proceed, x)
      else if main_steps_completed x.0
      then post_restore_steps plan x
      else next (λ y. (requeue 5 none, y)) (main_steps plan x)

-- The validator's error for a source and for all options, and the error without a source.
pub record OptionErrors (E O : Type 0) : Type 0 where
  pub invalid_source : Source O → Option E
  pub invalid : Plan O → Option E
  pub no_source : E

unfoldable pub validated : {E O : Type 0} → Plan O → Option E → Option E → E ⊎ Plan O
validated plan (some err) whole = inl err
validated plan none (some err) = inl err
validated plan none none = inr plan

-- `Options`
unfoldable pub options : {E O : Type 0} → OptionErrors E O → Option (Source O) → Plan O → E ⊎ Plan O
unfolding validated
options errors none plan = inl errors.no_source
options errors (some source) plan =
    validated plan (errors.invalid_source source) (errors.invalid plan)

module _ {S E O T B : Type 0} (kube : Kube S E O) (update_status : Status T → S → Option E × S)
    (clock : S → T) (objects : Objects E O T B) (errors : SecretErrors E) where
  unfoldable pub reconcile_options : E ⊎ Plan O → Step E (Status T × S)
  unfolding reconcile
  reconcile_options (inl err) x = (fails err, x)
  reconcile_options (inr plan) x = reconcile kube update_status clock objects errors plan x

  -- `apiManagerRestoreLogicReconciler` of the controller and the `Reconcile` of its result.
  unfoldable pub run : OptionErrors E O → Plan O → Step E (Status T × S)
  unfolding options reconcile_options
  run checks plan x = reconcile_options (options checks plan.source plan) x
