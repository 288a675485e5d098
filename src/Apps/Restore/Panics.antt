-- ===== src/Apps/Restore/Panics.antt =====
-- A restore reads no nil pointer.
use scale_operator.Prelude.{
  String, ◌≢◌, ◌⊎◌, inl, inr, Option, none, some, Bool-cases, nat_eq, string_eq, int_eq,
}
use scale_operator.Reconciler.{Get, found, not_found, get_fails}
use scale_operator.Reconciler.Steps.{panics, ◌>>◌, checked}
use scale_operator.Reconciler.Steps.Panics.{next-panics, checked-panics, then_requeue-panics}
use scale_operator.Reconciler.Jobs.{Kube, ensure, reconcile_job, reconcile_optional_job}
use scale_operator.Reconciler.Jobs.Panics.{reconcile_job-panics, reconcile_optional_job-panics}
use scale_operator.Helper.Slices.{array_contains}
use scale_operator.Conditions.{is_false_for}
use scale_operator.Apps.Restore.Types.{Objects, SecretErrors, Plan, job_of, available, sidekiq}
use scale_operator.Apps.Restore.Cluster.{
  create_claim, claim_read, system_storage_claim, file_storage, create_manager, manager_read,
  restore_manager, sidekiq_read, wait_for_sidekiq, resynchronize, ready_read, wait_for_ready,
  secret_left, delete_secret, secret_cleanup, manager_from_shared_secret, shared_backup_secret,
  tagged_secret,
}

module _ {S E O T B : Type 0} (kube : Kube S E O) (objects : Objects E O T B)
    (errors : SecretErrors E) (plan : Plan O) where
  create_claim-panics : (r : E ⊎ O) (s : S) → (create_claim kube objects errors plan r s).0 ≢ panics
  unfolding create_claim
  create_claim-panics (inl err) s = λ h. cc
  create_claim-panics (inr manager) s = then_requeue-panics 5 _

  claim_read-panics : (g : Get E O) (s : S) → (claim_read kube objects errors plan g s).0 ≢ panics
  unfolding claim_read
  claim_read-panics (get_fails err) s = λ h. cc
  claim_read-panics (found o) s = λ h. cc
  claim_read-panics not_found s =
      create_claim-panics (manager_from_shared_secret kube objects errors plan s) s

  pub file_storage-panics :
      (job : Option O) (s : S) → (file_storage kube objects errors plan job s).0 ≢ panics
  unfolding file_storage system_storage_claim ◌>>◌
  file_storage-panics none s = λ h. cc
  file_storage-panics (some job) s =
      let g = kube.client.get plan.storage_claim s in
      let r = claim_read kube objects errors plan g s in
      next-panics (reconcile_job kube job) r.0 r.1 (claim_read-panics g s)
        (reconcile_job-panics kube job r.1)

  create_manager-panics : (r : E ⊎ O) (s : S) → (create_manager kube objects errors r s).0 ≢ panics
  unfolding create_manager
  create_manager-panics (inl err) s = λ h. cc
  create_manager-panics (inr manager) s = checked-panics _

  manager_read-panics :
      (g : Get E O) (s : S) → (manager_read kube objects errors plan g s).0 ≢ panics
  unfolding manager_read
  manager_read-panics (get_fails err) s = λ h. cc
  manager_read-panics (found o) s = λ h. cc
  manager_read-panics not_found s =
      create_manager-panics (manager_from_shared_secret kube objects errors plan s) s

  pub restore_manager-panics :
      (name : String) (s : S) → (restore_manager kube objects errors plan (some name) s).0 ≢ panics
  unfolding restore_manager
  restore_manager-panics name s =
      manager_read-panics (kube.client.get (objects.manager_named name) s) s

  sidekiq_read-panics : (g : Get E O) (s : S) → (sidekiq_read kube objects errors g s).0 ≢ panics
  unfolding sidekiq_read
  sidekiq_read-panics (get_fails err) s = λ h. cc
  sidekiq_read-panics not_found s = λ h. cc
  sidekiq_read-panics (found o) s = elim (Bool-cases (array_contains (objects.ready o) sidekiq)) [
    | inl there ↦ rw there (λ h. cc)
    | inr waiting ↦ rw waiting (λ h. cc)
  ]

  wait_for_sidekiq-panics :
      (ref : Option String) (s : S) → (wait_for_sidekiq kube objects errors ref s).0 ≢ panics
  unfolding wait_for_sidekiq
  wait_for_sidekiq-panics none s = λ h. cc
  wait_for_sidekiq-panics (some name) s =
      sidekiq_read-panics (kube.client.get (objects.manager_named name) s) s

  pub resynchronize-panics :
      (ref : Option String) (s : S) → (resynchronize kube objects errors plan ref s).0 ≢ panics
  unfolding resynchronize ◌>>◌
  resynchronize-panics ref s =
      let r = wait_for_sidekiq kube objects errors ref s in
      let job = job_of (λ source. source.resync_job) plan.source in
      next-panics (reconcile_optional_job kube job) r.0 r.1 (wait_for_sidekiq-panics ref s)
        (reconcile_optional_job-panics kube job r.1)

  ready_read-panics : (g : Get E O) (s : S) → (ready_read kube objects errors g s).0 ≢ panics
  unfolding ready_read
  ready_read-panics (get_fails err) s = λ h. cc
  ready_read-panics not_found s = λ h. cc
  ready_read-panics (found o) s =
      elim (Bool-cases (is_false_for (objects.conditions o) available)) [
        | inl waiting ↦ rw waiting (λ h. cc)
        | inr fine ↦ rw fine (λ h. cc)
      ]

  pub wait_for_ready-panics :
      (name : String) (s : S) → (wait_for_ready kube objects errors (some name) s).0 ≢ panics
  unfolding wait_for_ready
  wait_for_ready-panics name s =
      ready_read-panics (kube.client.get (objects.manager_named name) s) s

  secret_left-panics : (g : Get E O) (s : S) → (secret_left kube objects errors g s).0 ≢ panics
  unfolding secret_left
  secret_left-panics (get_fails err) s = λ h. cc
  secret_left-panics not_found s = λ h. cc
  secret_left-panics (found o) s = λ h. cc

  delete_secret-panics :
      (r : E ⊎ Option O) (s : S) → (delete_secret kube objects errors r s).0 ≢ panics
  unfolding delete_secret
  delete_secret-panics (inl err) s = λ h. cc
  delete_secret-panics (inr none) s = λ h. cc
  delete_secret-panics (inr (some secret)) s =
      let desired = tagged_secret kube objects errors secret in
      let c = checked (ensure kube desired s) in
      next-panics (λ t. secret_left kube objects errors (kube.client.get desired t) t) c.0 c.1
        (checked-panics (ensure kube desired s))
        (secret_left-panics (kube.client.get desired c.1) c.1)

  pub secret_cleanup-panics : (s : S) → (secret_cleanup kube objects errors plan s).0 ≢ panics
  unfolding secret_cleanup
  secret_cleanup-panics s = delete_secret-panics (shared_backup_secret kube objects errors plan s) s
