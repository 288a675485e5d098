-- ===== src/Apps/Restore/Cluster.antt =====
-- The steps of controllers/apps/apimanagerrestore_logic_reconciler.go that leave the status alone: the
-- shared secret, the storage claim, the API manager and what a restore waits for.
use scale_operator.Prelude.{
  String, ◌⊎◌, inl, inr, Option, none, some, if◌then◌else◌, nat_eq, string_eq, lookup, int_eq,
}
use scale_operator.Reconciler.{Get, found, not_found, get_fails, tag_object_to_delete}
use scale_operator.Reconciler.Steps.{
  proceed, requeue, fails, panics, Step, ◌>>◌, next, checked, then_requeue,
}
use scale_operator.Reconciler.Jobs.{Kube, ensure, reconcile_job, reconcile_optional_job}
use scale_operator.Conditions.{is_false_for}
use scale_operator.Helper.Slices.{array_contains}
use scale_operator.Apps.Restore.Types.{
  Objects, SecretErrors, Plan, storage_class, job_of, available, sidekiq, backup_file_name,
}

module _ {S E O T B : Type 0} (kube : Kube S E O) (objects : Objects E O T B)
    (errors : SecretErrors E) where
  -- `sharedBackupSecret`, which is none if there is no such secret, by the value of its key.
  unfoldable pub keyed_secret : O → Option B → E ⊎ Option O
  keyed_secret secret none = inl errors.no_key
  keyed_secret secret (some _) = inr (some secret)

  unfoldable pub read_secret : Get E O → E ⊎ Option O
  unfolding keyed_secret
  read_secret (get_fails err) = inl err
  read_secret not_found = inr none
  read_secret (found secret) =
      keyed_secret secret (lookup backup_file_name (objects.data_of secret))

  unfoldable pub shared_backup_secret : Plan O → S → E ⊎ Option O
  unfolding read_secret
  shared_backup_secret plan s = read_secret (kube.client.get plan.shared_secret s)

  unfoldable pub decoded_manager : E ⊎ Option O → E ⊎ O
  decoded_manager (inl err) = inl err
  decoded_manager (inr none) = inl errors.no_api_manager
  decoded_manager (inr (some manager)) = inr (objects.set_namespace manager)

  -- `apiManagerFromSharedBackupSecret`
  unfoldable pub manager_from_secret : E ⊎ Option O → E ⊎ O
  unfolding decoded_manager
  manager_from_secret (inl err) = inl err
  manager_from_secret (inr none) = inl errors.no_secret
  manager_from_secret (inr (some secret)) =
      decoded_manager (objects.decode (lookup backup_file_name (objects.data_of secret)))

  unfoldable pub manager_from_shared_secret : Plan O → S → E ⊎ O
  unfolding shared_backup_secret manager_from_secret
  manager_from_shared_secret plan s = manager_from_secret (shared_backup_secret plan s)

  -- `reconcileSystemStoragePVC`, by the read of the claim and then of the API manager.
  unfoldable pub create_claim : Plan O → E ⊎ O → Step E S
  unfolding storage_class ensure then_requeue
  create_claim plan (inl err) s = (fails err, s)
  create_claim plan (inr manager) s =
      then_requeue 5
        (ensure kube (plan.system_storage_pvc (storage_class (objects.system manager))) s)

  unfoldable pub claim_read : Plan O → Get E O → Step E S
  unfolding create_claim manager_from_shared_secret
  claim_read plan (get_fails err) s = (fails err, s)
  claim_read plan (found _) s = (proceed, s)
  claim_read plan not_found s = create_claim plan (manager_from_shared_secret plan s) s

  unfoldable pub system_storage_claim : Plan O → Step E S
  unfolding claim_read
  system_storage_claim plan s = claim_read plan (kube.client.get plan.storage_claim s) s

  -- `reconcileRestoreSystemFileStoragePVCFromPVCJob`
  unfoldable pub file_storage : Plan O → Option O → Step E S
  unfolding system_storage_claim reconcile_job ◌>>◌
  file_storage plan none s = (proceed, s)
  file_storage plan (some job) s = (system_storage_claim plan >> reconcile_job kube job) s

  -- `reconcileRestoreAPIManager`: the name, the read of the API manager and the one in the secret.
  unfoldable pub create_manager : E ⊎ O → Step E S
  unfolding ensure checked
  create_manager (inl err) s = (fails err, s)
  create_manager (inr manager) s = checked (ensure kube manager s)

  unfoldable pub manager_read : Plan O → Get E O → Step E S
  unfolding create_manager manager_from_shared_secret
  manager_read plan (get_fails err) s = (fails err, s)
  manager_read plan (found _) s = (proceed, s)
  manager_read plan not_found s = create_manager (manager_from_shared_secret plan s) s

  unfoldable pub restore_manager : Plan O → Option String → Step E S
  unfolding manager_read
  restore_manager plan none s = (panics, s)
  restore_manager plan (some name) s =
      manager_read plan (kube.client.get (objects.manager_named name) s) s

  -- `waitForSystemSidekiq`, which does not panic without a name.
  unfoldable pub sidekiq_read : Get E O → Step E S
  unfolding array_contains
  sidekiq_read (get_fails err) s = (fails err, s)
  sidekiq_read not_found s = (requeue 5 none, s)
  sidekiq_read (found manager) s =
      if array_contains (objects.ready manager) sidekiq then (proceed, s) else (requeue 5 none, s)

  unfoldable pub wait_for_sidekiq : Option String → Step E S
  unfolding sidekiq_read
  wait_for_sidekiq none s = (requeue 0 none, s)
  wait_for_sidekiq (some name) s = sidekiq_read (kube.client.get (objects.manager_named name) s) s

  -- `reconcileResynchronizeZyncDomains`
  unfoldable pub resynchronize : Plan O → Option String → Step E S
  unfolding wait_for_sidekiq reconcile_optional_job job_of ◌>>◌
  resynchronize plan ref =
      wait_for_sidekiq ref
      >> reconcile_optional_job kube (job_of (λ source. source.resync_job) plan.source)

  -- `reconcileWaitForAPIManagerReady`
  unfoldable pub ready_read : Get E O → Step E S
  unfolding is_false_for
  ready_read (get_fails err) s = (fails err, s)
  ready_read not_found s = (requeue 5 none, s)
  ready_read (found manager) s =
      if is_false_for (objects.conditions manager) available
      then (requeue 5 none, s)
      else (proceed, s)

  unfoldable pub wait_for_ready : Option String → Step E S
  unfolding ready_read
  wait_for_ready none s = (panics, s)
  wait_for_ready (some name) s = ready_read (kube.client.get (objects.manager_named name) s) s

  -- `reconcileAPIManagerBackupSharedInSecretCleanup`: the secret is tagged, deleted and read again.
  unfoldable pub secret_left : Get E O → Step E S
  secret_left (get_fails err) s = (fails err, s)
  secret_left not_found s = (proceed, s)
  secret_left (found _) s = (requeue 0 none, s)

  unfoldable pub tagged_secret : O → O
  unfolding tag_object_to_delete
  tagged_secret secret =
      kube.set_annotations (tag_object_to_delete (kube.annotations secret)) secret

  unfoldable pub delete_secret : E ⊎ Option O → Step E S
  unfolding ensure checked secret_left tagged_secret next
  delete_secret (inl err) s = (fails err, s)
  delete_secret (inr none) s = (proceed, s)
  delete_secret (inr (some secret)) s =
      let desired = tagged_secret secret in
      next (λ t. secret_left (kube.client.get desired t) t) (checked (ensure kube desired s))

  unfoldable pub secret_cleanup : Plan O → Step E S
  unfolding shared_backup_secret delete_secret
  secret_cleanup plan s = delete_secret (shared_backup_secret plan s) s
