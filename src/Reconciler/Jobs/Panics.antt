-- ===== src/Reconciler/Jobs/Panics.antt =====
-- The steps on jobs read no nil pointer if no job is nil.
use scale_operator.Prelude.{
  ◌≢◌, inl, inr, Bool, true, false, Option, none, some, List, [], ◌∷◌, map, Bool-cases, ◌==◌,
  nat_eq, string_eq, int_eq,
}
use scale_operator.Reconciler.{Get, found, not_found, get_fails}
use scale_operator.Reconciler.Steps.{panics, Step, checked}
use scale_operator.Reconciler.Steps.Panics.{next-panics, checked-panics, then_requeue-panics}
use scale_operator.Reconciler.Jobs.{
  Kube, ensure, reconcile_got_job, reconcile_owned_job, reconcile_job, reconcile_optional_job,
  tagged, cleanup_job, cleanup_loop, jobs_cleanup,
}

module _ {S E O : Type 0} (kube : Kube S E O) where
  got_job-panics : (o : O) (g : Get E O) (s : S) → (reconcile_got_job kube o g s).0 ≢ panics
  unfolding reconcile_got_job
  got_job-panics o (get_fails err) s = λ h. cc
  got_job-panics o not_found s = then_requeue-panics 5 (kube.client.create o s)
  got_job-panics o (found existing) s =
      elim (Bool-cases (kube.succeeded existing == kube.completions o)) [
        | inl done ↦ rw done (λ h. cc)
        | inr waiting ↦ rw waiting (λ h. cc)
      ]

  owned_job-panics : (d : Option E × O) (s : S) → (reconcile_owned_job kube d s).0 ≢ panics
  unfolding reconcile_owned_job
  owned_job-panics (some err, o) s = λ h. cc
  owned_job-panics (none, o) s = got_job-panics o (kube.client.get o s) s

  pub reconcile_job-panics : (o : O) (s : S) → (reconcile_job kube o s).0 ≢ panics
  unfolding reconcile_job
  reconcile_job-panics o s = owned_job-panics (kube.set_owner o) s

  pub reconcile_optional_job-panics :
      (o : Option O) (s : S) → (reconcile_optional_job kube o s).0 ≢ panics
  unfolding reconcile_optional_job
  reconcile_optional_job-panics none s = λ h. cc
  reconcile_optional_job-panics (some o) s = reconcile_job-panics o s

  cleanup_job-panics :
      (o : O) (g : Get E O) (rest : Bool → Step E S) (seen : Bool) (s : S)
      → ((b : Bool) (t : S) → (rest b t).0 ≢ panics)
      → (cleanup_job kube o g rest seen s).0 ≢ panics
  unfolding cleanup_job
  cleanup_job-panics o (get_fails err) rest seen s n = λ h. cc
  cleanup_job-panics o not_found rest seen s n = n seen s
  cleanup_job-panics o (found existing) rest seen s n =
      let c = checked (ensure kube (tagged kube o) s) in
      next-panics (rest true) c.0 c.1 (checked-panics (ensure kube (tagged kube o) s)) (n true c.1)

  cleanup_loop-panics :
      (jobs : List O) (seen : Bool) (s : S) → (cleanup_loop kube (map some jobs) seen s).0 ≢ panics
  unfolding cleanup_loop
  cleanup_loop-panics [] true s = λ h. cc
  cleanup_loop-panics [] false s = λ h. cc
  cleanup_loop-panics (o ∷ jobs) seen s =
      cleanup_job-panics o (kube.client.get o s) (cleanup_loop kube (map some jobs)) seen s
        (λ b t. cleanup_loop-panics jobs b t)

  pub jobs_cleanup-panics :
      (jobs : List O) (s : S) → (jobs_cleanup kube (map some jobs) s).0 ≢ panics
  unfolding jobs_cleanup
  jobs_cleanup-panics jobs s = cleanup_loop-panics jobs false s
