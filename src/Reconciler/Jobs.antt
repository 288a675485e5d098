-- ===== src/Reconciler/Jobs.antt =====
-- What controllers/apps/apimanagerbackup_logic_reconciler.go and apimanagerrestore_logic_reconciler.go
-- both do with Kubernetes: one-shot jobs (`reconcileJob`), the deletion of jobs (`reconcileJobsCleanup`)
-- and resources that are only created. The two files have these functions in the same words.
pub mod Laws
pub mod Frame
pub mod Panics
use scale_operator.Prelude.{
  String, Bool, true, false, Option, none, some, List, [], ◌∷◌, if◌then◌else◌, ◌==◌, nat_eq,
  string_eq, Dict, ℤ, int_eq,
}
use scale_operator.Reconciler.{
  Get, found, not_found, get_fails, Mutation, mutated, Client, tag_with_propagation_policy,
  reconcile_resource,
}
use scale_operator.Reconciler.Steps.{
  Result, proceed, requeue, fails, panics, Step, next, checked, then_requeue,
}

-- `CreateOnlyMutator`
unfoldable pub create_only : {E O : Type 0} → O → O → Mutation E O
create_only existing desired = mutated false existing

-- Objects and requests of Kubernetes. `set_owner` is `SetControllerReference`, which fails or returns
-- the object with its owner; `succeeded` is `Status.Succeeded` and `completions` `*Spec.Completions`.
pub record Kube (S E O : Type 0) : Type 0 where
  pub client : Client S E O
  pub annotations : O → Option (Dict String String)
  pub set_annotations : Option (Dict String String) → O → O
  pub set_owner : O → Option E × O
  pub succeeded : O → ℤ
  pub completions : O → ℤ

module _ {S E O : Type 0} (kube : Kube S E O) where
  -- `ReconcileResource(…, desired, reconcilers.CreateOnlyMutator)`
  unfoldable pub ensure : O → S → Option E × S
  unfolding reconcile_resource create_only
  ensure desired s = reconcile_resource kube.annotations kube.client create_only desired s

  -- The rest of `reconcileJob` once the job has been read.
  unfoldable pub reconcile_got_job : O → Get E O → S → Result E × S
  unfolding then_requeue
  reconcile_got_job desired (get_fails err) s = (fails err, s)
  reconcile_got_job desired not_found s = then_requeue 5 (kube.client.create desired s)
  reconcile_got_job desired (found existing) s =
      if kube.succeeded existing == kube.completions desired
      then (proceed, s)
      else (requeue 5 none, s)

  unfoldable pub reconcile_owned_job : Option E × O → S → Result E × S
  unfolding reconcile_got_job
  reconcile_owned_job (some err, desired) s = (fails err, s)
  reconcile_owned_job (none, desired) s = reconcile_got_job desired (kube.client.get desired s) s

  unfoldable pub reconcile_job : O → Step E S
  unfolding reconcile_owned_job
  reconcile_job desired s = reconcile_owned_job (kube.set_owner desired) s

  -- A step whose job is nil does nothing.
  unfoldable pub reconcile_optional_job : Option O → Step E S
  unfolding reconcile_job
  reconcile_optional_job none s = (proceed, s)
  reconcile_optional_job (some desired) s = reconcile_job desired s

  -- The tag of a job that is to be deleted with its pods.
  unfoldable pub tagged : O → O
  tagged job =
      kube.set_annotations (tag_with_propagation_policy "Foreground" (kube.annotations job)) job

  -- The loop of `reconcileJobsCleanup`, with `existingJobFound`: a nil job is read for its name. The
  -- rest of the loop is a function, which is called unless there is an error.
  unfoldable pub cleanup_job : O → Get E O → (Bool → Step E S) → Bool → Step E S
  unfolding ensure tagged next checked
  cleanup_job job (get_fails err) rest seen s = (fails err, s)
  cleanup_job job not_found rest seen s = rest seen s
  cleanup_job job (found existing) rest seen s = next (rest true) (checked (ensure (tagged job) s))

  unfoldable pub cleanup_loop : List (Option O) → Bool → Step E S
  unfolding cleanup_job
  cleanup_loop [] seen s = (if seen then requeue 5 none else proceed, s)
  cleanup_loop (none ∷ jobs) seen s = (panics, s)
  cleanup_loop (some job ∷ jobs) seen s =
      cleanup_job job (kube.client.get job s) (cleanup_loop jobs) seen s

  unfoldable pub jobs_cleanup : List (Option O) → Step E S
  unfolding cleanup_loop
  jobs_cleanup jobs = cleanup_loop jobs false
