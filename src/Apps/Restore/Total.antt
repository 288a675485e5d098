-- ===== src/Apps/Restore/Total.antt =====
-- The reconciliation of a restore reads no nil pointer, whatever its status and the cluster are.
use scale_operator.Prelude.{
  String, ◌≡◌, refl, sym, ap, ◌≢◌, ◌⊎◌, inl, inr, true, Option, none, some, [], ◌∷◌, map, arith,
  Bool-cases, nat_eq, string_eq, is_some, int_eq, subst,
}
use scale_operator.Reconciler.Steps.{proceed, requeue, panics, Step}
use scale_operator.Reconciler.Steps.Rules.{checked-state}
use scale_operator.Reconciler.Steps.Panics.{
  NoPanic, >>_NoPanic, next-panics, checked-panics, then_requeue-panics,
}
use scale_operator.Reconciler.Jobs.{
  reconcile_optional_job, Kube, ensure, reconcile_job, jobs_cleanup,
}
use scale_operator.Reconciler.Jobs.Panics.{
  reconcile_job-panics, reconcile_optional_job-panics, jobs_cleanup-panics,
}
use scale_operator.Reconciler.Status.{
  on_cluster, request, write, write_and_requeue, write_checked, set_once,
}
use scale_operator.Apps.Restore.Types.{
  Status, Objects, SecretErrors, Source, Plan, job_of, restore_completed, main_steps_completed,
}
use scale_operator.Apps.Restore.Cluster.{
  shared_backup_secret, manager_from_shared_secret, file_storage, restore_manager, resynchronize,
  wait_for_ready, secret_cleanup,
}
use scale_operator.Apps.Restore.Panics.{
  file_storage-panics, restore_manager-panics, resynchronize-panics, wait_for_ready-panics,
  secret_cleanup-panics,
}
use scale_operator.Apps.Restore.Steps.{
  start_time_field, jobs_permissions, job_step, set_ref, ref_from_secret, ref_field,
  in_shared_secret, with_ref, restore_from_pvc, set_main_steps_completed, main_steps, restore_jobs,
  restore_completion, post_restore_steps, reconcile, OptionErrors, validated, options,
  reconcile_options, run,
}

module _ {S E O T B : Type 0} (kube : Kube S E O) (update_status : Status T → S → Option E × S)
    (clock : S → T) (objects : Objects E O T B) (errors : SecretErrors E) where
  abbrev Any : Status T × S → Type 0
  Any x = Unit

  abbrev HasRef : Status T × S → Type 0
  HasRef x = is_some x.0.api_manager_to_restore_ref ≡ true

  -- A step on the cluster keeps what holds of the status.
  on_cluster_NoPanic :
      (P : Status T → Type 0) (m : Step E S)
      → ((s : S) → (m s).0 ≢ panics)
      → NoPanic (λ (x : Status T × S). P x.0) (on_cluster m) (λ x. P x.0)
  on_cluster_NoPanic P m n (st, s) p = (n s, λ h. p)

  request_NoPanic :
      (m : S → Option E × S) → NoPanic (λ (x : Status T × S). Unit {0}) (request m) (λ x. Unit {0})
  unfolding request
  request_NoPanic m x p = (checked-panics (on_cluster m x), λ h. tt)

  set_once_NoPanic :
      {A : Type 0} (field : Option A) (new : Status T) (x : Status T × S)
      → (set_once update_status field new x).0 ≢ panics
  unfolding set_once
  set_once_NoPanic none new x = λ h. cc
  set_once_NoPanic (some a) new x = λ h. cc

  start_time_NoPanic : NoPanic Any (start_time_field kube update_status clock objects errors) Any
  unfolding start_time_field
  start_time_NoPanic x p = (set_once_NoPanic x.0.start_time _ x, λ h. tt)

  permissions_NoPanic :
      (plan : Plan O)
      → NoPanic Any (jobs_permissions kube update_status clock objects errors plan) Any
  unfolding jobs_permissions
  permissions_NoPanic plan =
      >>_NoPanic Any Any Any _ _ (request_NoPanic (ensure kube plan.service_account)) (
        >>_NoPanic Any Any Any _ _ (request_NoPanic (ensure kube plan.role))
          (request_NoPanic (ensure kube plan.role_binding)))

  job_step_NoPanic :
      (job : Source O → O) (plan : Plan O)
      → NoPanic Any (job_step kube update_status clock objects errors job plan) Any
  unfolding job_step
  job_step_NoPanic job plan =
      on_cluster_NoPanic (λ st. Unit {0}) (reconcile_optional_job kube (job_of job plan.source))
        (reconcile_optional_job-panics kube (job_of job plan.source))

  set_ref_NoPanic :
      (r : E ⊎ O) → NoPanic Any (set_ref kube update_status clock objects errors r) HasRef
  unfolding set_ref write_checked
  set_ref_NoPanic (inl err) x p = ((λ h. cc), λ h. cc)
  set_ref_NoPanic (inr manager) x p =
      let r =
        write update_status
          (record x.0 { api_manager_to_restore_ref = some (objects.name manager) }) x.1 in
      (checked-panics r, λ h. subst HasRef (sym (checked-state r)) refl)

  ref_from_secret_NoPanic :
      (plan : Plan O) (r : E ⊎ Option O)
      → NoPanic Any (ref_from_secret kube update_status clock objects errors plan r) HasRef
  unfolding ref_from_secret
  ref_from_secret_NoPanic plan (inl err) x p = ((λ h. cc), λ h. cc)
  ref_from_secret_NoPanic plan (inr none) x p = ((λ h. cc), λ h. cc)
  ref_from_secret_NoPanic plan (inr (some o)) x p =
      set_ref_NoPanic (manager_from_shared_secret kube objects errors plan x.1) x p

  ref_field_NoPanic :
      (plan : Plan O) (ref : Option String) (x : Status T × S)
      → x.0.api_manager_to_restore_ref ≡ ref
      → let y = ref_field kube update_status clock objects errors plan ref x in
        (y.0 ≢ panics) × (y.0 ≡ proceed → HasRef y.1)
  unfolding ref_field
  ref_field_NoPanic plan (some name) x e = ((λ h. cc), λ h. ap is_some e)
  ref_field_NoPanic plan none x e =
      ref_from_secret_NoPanic plan (shared_backup_secret kube objects errors plan x.1) x tt

  in_shared_secret_NoPanic :
      (plan : Plan O) (job : O)
      → NoPanic Any
          (in_shared_secret kube update_status clock objects errors plan (some job))
          HasRef
  unfolding in_shared_secret
  in_shared_secret_NoPanic plan job =
      >>_NoPanic Any Any HasRef _ _
        (on_cluster_NoPanic (λ st. Unit {0}) (reconcile_job kube job)
          (reconcile_job-panics kube job))
        (λ y p. ref_field_NoPanic plan y.0.api_manager_to_restore_ref y refl)

  named_NoPanic :
      (m : Option String → Step E S) (ref : Option String) (s : S)
      → ((name : String) (t : S) → (m (some name) t).0 ≢ panics)
      → is_some ref ≡ true
      → (m ref s).0 ≢ panics
  named_NoPanic m none s n h = absurd (ground arith)
  named_NoPanic m (some name) s n h = n name s

  with_ref_NoPanic :
      (m : Option String → Step E S)
      → ((name : String) (t : S) → (m (some name) t).0 ≢ panics)
      → NoPanic HasRef (with_ref kube update_status clock objects errors m) HasRef
  with_ref_NoPanic m n (st, s) has =
      (named_NoPanic m st.api_manager_to_restore_ref s n has, λ h. has)

  abbrev Named : Status T → Type 0
  Named st = is_some st.api_manager_to_restore_ref ≡ true

  restore_from_pvc_NoPanic :
      (plan : Plan O) (source : Source O)
      → plan.source ≡ some source
      → NoPanic Any (restore_from_pvc kube update_status clock objects errors plan) HasRef
  unfolding restore_from_pvc job_of
  restore_from_pvc_NoPanic plan source e =
      let shared : NoPanic Any
          (in_shared_secret kube update_status clock objects errors plan
            (job_of (λ source. source.shared_secret_job) plan.source))
          HasRef =
        subst
          (λ o.
            NoPanic Any
              (in_shared_secret kube update_status clock objects errors plan
                (job_of (λ source. source.shared_secret_job) o))
              HasRef)
          (sym e) (in_shared_secret_NoPanic plan source.shared_secret_job) in
      >>_NoPanic Any Any HasRef _ _ (permissions_NoPanic plan) (
        >>_NoPanic Any Any HasRef _ _ (job_step_NoPanic (λ source. source.secrets_job) plan) (
          >>_NoPanic Any HasRef HasRef _ _ shared (
            >>_NoPanic HasRef HasRef HasRef _ _
              (on_cluster_NoPanic Named
                (file_storage kube objects errors plan
                  (job_of (λ source. source.file_storage_job) plan.source))
                (file_storage-panics kube objects errors plan
                  (job_of (λ source. source.file_storage_job) plan.source)))
              (>>_NoPanic HasRef HasRef HasRef _ _
                (with_ref_NoPanic (restore_manager kube objects errors plan)
                  (restore_manager-panics kube objects errors plan))
                (>>_NoPanic HasRef HasRef HasRef _ _
                  (with_ref_NoPanic (resynchronize kube objects errors plan)
                    (λ name. resynchronize-panics kube objects errors plan (some name)))
                  (>>_NoPanic HasRef HasRef HasRef _ _
                    (with_ref_NoPanic (wait_for_ready kube objects errors)
                      (wait_for_ready-panics kube objects errors plan))
                    (on_cluster_NoPanic Named (secret_cleanup kube objects errors plan)
                      (secret_cleanup-panics kube objects errors plan))))))))

  set_main_NoPanic :
      NoPanic HasRef (set_main_steps_completed kube update_status clock objects errors) Any
  unfolding set_main_steps_completed write_and_requeue
  set_main_NoPanic x p = elim (Bool-cases (main_steps_completed x.0)) [
    | inl done ↦ rw done ((λ h. cc), (λ h. tt))
    | inr early ↦ rw early (then_requeue-panics 0 _, λ h. tt)
  ]

  main_steps_NoPanic :
      (plan : Plan O) (source : Source O)
      → plan.source ≡ some source
      → NoPanic Any (main_steps kube update_status clock objects errors plan) Any
  unfolding main_steps
  main_steps_NoPanic plan source e =
      >>_NoPanic Any Any Any _ _ start_time_NoPanic
        (>>_NoPanic Any HasRef Any _ _ (restore_from_pvc_NoPanic plan source e) set_main_NoPanic)

  completion_NoPanic : NoPanic Any (restore_completion kube update_status clock objects errors) Any
  unfolding restore_completion write_checked
  completion_NoPanic x p = elim (Bool-cases (restore_completed x.0)) [
    | inl done ↦ rw done ((λ h. cc), (λ h. tt))
    | inr early ↦ rw early (checked-panics _, λ h. tt)
  ]

  post_restore_steps_NoPanic :
      (plan : Plan O) (source : Source O)
      → plan.source ≡ some source
      → NoPanic Any (post_restore_steps kube update_status clock objects errors plan) Any
  unfolding post_restore_steps restore_jobs job_of
  post_restore_steps_NoPanic plan source e =
      let jobs =
        source.secrets_job ∷ source.file_storage_job ∷ source.shared_secret_job ∷ source.resync_job
        ∷ [] in
      >>_NoPanic Any Any Any _ _
        (subst
          (λ o.
            NoPanic Any
              (on_cluster
                (jobs_cleanup kube (restore_jobs kube update_status clock objects errors o)))
              Any)
          (sym e)
          (on_cluster_NoPanic (λ st. Unit {0}) (jobs_cleanup kube (map some jobs))
            (jobs_cleanup-panics kube jobs)))
        completion_NoPanic

  reconcile_NoPanic :
      (plan : Plan O) (source : Source O)
      → plan.source ≡ some source
      → (x : Status T × S) → (reconcile kube update_status clock objects errors plan x).0 ≢ panics
  unfolding reconcile
  reconcile_NoPanic plan source e x = elim (Bool-cases (restore_completed x.0)) [
    | inl done ↦ rw done (λ h. cc)
    | inr pending ↦ elim (Bool-cases (main_steps_completed x.0)) [
      | inl main ↦ rw pending (rw main (post_restore_steps_NoPanic plan source e x tt).0)
      | inr early ↦
          let y = main_steps kube update_status clock objects errors plan x in
          rw pending (
            rw early (
              next-panics (λ y. (requeue 5 none, y)) y.0 y.1
                (main_steps_NoPanic plan source e x tt).0 (λ h. cc)))
    ]
  ]

  validated_NoPanic :
      (plan : Plan O) (claim whole : Option E) (source : Source O) (x : Status T × S)
      → plan.source ≡ some source
      → (reconcile_options kube update_status clock objects errors (validated plan claim whole) x).0
        ≢ panics
  unfolding reconcile_options validated
  validated_NoPanic plan (some err) whole source x e = λ h. cc
  validated_NoPanic plan none (some err) source x e = λ h. cc
  validated_NoPanic plan none none source x e = reconcile_NoPanic plan source e x

  options_NoPanic :
      (checks : OptionErrors E O) (source : Option (Source O)) (plan : Plan O) (x : Status T × S)
      → plan.source ≡ source
      → (reconcile_options kube update_status clock objects errors (options checks source plan) x).0
        ≢ panics
  unfolding options reconcile_options
  options_NoPanic checks none plan x e = λ h. cc
  options_NoPanic checks (some source) plan x e =
      validated_NoPanic plan (checks.invalid_source source) (checks.invalid plan) source x e

  -- A reconciliation of a restore never reads a nil pointer: not the name of the API manager, which the
  -- status may lack, nor a job, which the plan may lack. This holds for every plan, status, cluster and
  -- answer of the client.
  pub run_does_not_panic :
      (checks : OptionErrors E O) (plan : Plan O) (x : Status T × S)
      → (run kube update_status clock objects errors checks plan x).0 ≢ panics
  unfolding run
  run_does_not_panic checks plan x = options_NoPanic checks plan.source plan x refl
