-- ===== src/Reconciler/Jobs/Frame.antt =====
-- What the steps on jobs and resources leave alone, as far as the client's requests do.
use scale_operator.Prelude.{
  ℕ, String, ◌≡◌, refl, ◌∙◌, inl, inr, Bool, true, false, Option, none, some, List, [], ◌∷◌,
  Bool-cases, ◌==◌, nat_eq, string_eq, int_eq,
}
use scale_operator.Reconciler.{
  Get, found, not_found, get_fails, is_tagged_to_delete, propagation_policy, finish_mutation,
  reconcile_found, reconcile_got, reconcile_resource,
}
use scale_operator.Reconciler.Steps.{
  Result, proceed, requeue, fails, panics, Step, next, checked, then_requeue,
}
use scale_operator.Reconciler.Jobs.{
  Kube, create_only, ensure, reconcile_got_job, reconcile_owned_job, reconcile_job,
  reconcile_optional_job, tagged, cleanup_job, cleanup_loop, jobs_cleanup,
}

module _ {S E O V : Type 0} (kube : Kube S E O) (view : S → V) where
  -- No request of the client changes what is seen.
  pub record IsFrame : Type 0 where
    pub create_keeps : (o : O) (s : S) → view (kube.client.create o s).1 ≡ view s
    pub update_keeps : (o : O) (s : S) → view (kube.client.update o s).1 ≡ view s
    pub delete_keeps :
        (o : O) (policy : Option String) (s : S) → view (kube.client.delete o policy s).1 ≡ view s

  module _ (frame : IsFrame) where
    pub checked-view : (r : Option E × S) → view (checked r).1 ≡ view r.1
    unfolding checked
    checked-view (none, s) = refl
    checked-view (some err, s) = refl

    then_requeue-view : (after : ℕ) (r : Option E × S) → view (then_requeue after r).1 ≡ view r.1
    unfolding then_requeue
    then_requeue-view after (none, s) = refl
    then_requeue-view after (some err, s) = refl

    got-view :
        (o : O) (g : Get E O) (s : S)
        → view (reconcile_got kube.annotations kube.client create_only o g s).1 ≡ view s
    unfolding reconcile_got reconcile_found finish_mutation create_only
    got-view o (found existing) s = elim (Bool-cases (is_tagged_to_delete (kube.annotations o))) [
      | inl tag ↦ rw tag (frame.delete_keeps o (propagation_policy (kube.annotations o)) s)
      | inr untagged ↦ rw untagged refl
    ]
    got-view o not_found s = elim (Bool-cases (is_tagged_to_delete (kube.annotations o))) [
      | inl tag ↦ rw tag refl
      | inr untagged ↦ rw untagged (frame.create_keeps o s)
    ]
    got-view o (get_fails err) s = refl

    pub ensure-view : (o : O) (s : S) → view (ensure kube o s).1 ≡ view s
    unfolding ensure reconcile_resource
    ensure-view o s = got-view o (kube.client.get o s) s

    got_job-view : (o : O) (g : Get E O) (s : S) → view (reconcile_got_job kube o g s).1 ≡ view s
    unfolding reconcile_got_job
    got_job-view o (get_fails err) s = refl
    got_job-view o not_found s =
        then_requeue-view 5 (kube.client.create o s) ∙ frame.create_keeps o s
    got_job-view o (found existing) s =
        elim (Bool-cases (kube.succeeded existing == kube.completions o)) [
          | inl done ↦ rw done refl
          | inr waiting ↦ rw waiting refl
        ]

    owned_job-view : (d : Option E × O) (s : S) → view (reconcile_owned_job kube d s).1 ≡ view s
    unfolding reconcile_owned_job
    owned_job-view (some err, o) s = refl
    owned_job-view (none, o) s = got_job-view o (kube.client.get o s) s

    pub reconcile_job-view : (o : O) (s : S) → view (reconcile_job kube o s).1 ≡ view s
    unfolding reconcile_job
    reconcile_job-view o s = owned_job-view (kube.set_owner o) s

    pub reconcile_optional_job-view :
        (o : Option O) (s : S) → view (reconcile_optional_job kube o s).1 ≡ view s
    unfolding reconcile_optional_job
    reconcile_optional_job-view none s = refl
    reconcile_optional_job-view (some o) s = reconcile_job-view o s

    next-view :
        (k : Step E S) (r : Result E) (s : S)
        → ((t : S) → view (k t).1 ≡ view t)
        → view (next k (r, s)).1 ≡ view s
    unfolding next
    next-view k proceed s keeps = keeps s
    next-view k (requeue after err) s keeps = refl
    next-view k (fails err) s keeps = refl
    next-view k panics s keeps = refl

    cleanup_job-view :
        (o : O) (g : Get E O) (rest : Bool → Step E S) (seen : Bool) (s : S)
        → ((b : Bool) (t : S) → view (rest b t).1 ≡ view t)
        → view (cleanup_job kube o g rest seen s).1 ≡ view s
    unfolding cleanup_job
    cleanup_job-view o (get_fails err) rest seen s keeps = refl
    cleanup_job-view o not_found rest seen s keeps = keeps seen s
    cleanup_job-view o (found existing) rest seen s keeps =
        let r = ensure kube (tagged kube o) s in
        let c = checked r in
        next-view (rest true) c.0 c.1 (keeps true)
        ∙ (checked-view r ∙ ensure-view (tagged kube o) s)

    cleanup_loop-view :
        (jobs : List (Option O)) (seen : Bool) (s : S)
        → view (cleanup_loop kube jobs seen s).1 ≡ view s
    unfolding cleanup_loop
    cleanup_loop-view [] seen s = refl
    cleanup_loop-view (none ∷ jobs) seen s = refl
    cleanup_loop-view (some o ∷ jobs) seen s =
        cleanup_job-view o (kube.client.get o s) (cleanup_loop kube jobs) seen s
          (λ b t. cleanup_loop-view jobs b t)

    pub jobs_cleanup-view :
        (jobs : List (Option O)) (s : S) → view (jobs_cleanup kube jobs s).1 ≡ view s
    unfolding jobs_cleanup
    jobs_cleanup-view jobs s = cleanup_loop-view jobs false s
