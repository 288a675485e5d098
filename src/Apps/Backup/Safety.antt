-- ===== src/Apps/Backup/Safety.antt =====
-- When a backup's main steps and the backup itself are declared complete.
use scale_operator.Prelude.{
  ◌≡◌, refl, sym, ap, ◌∙◌, inl, inr, Bool, true, false, Option, some, arith, Bool-cases, All,
  nat_eq, string_eq, int_eq, subst,
}
use scale_operator.Reconciler.Steps.{Result, proceed, requeue, fails, panics, Step, ◌>>◌, next}
use scale_operator.Reconciler.Steps.Rules.{
  checked-state, next_requeue, then_requeue-state, Triple, >>_Triple,
}
use scale_operator.Reconciler.Jobs.{reconcile_job, Kube, reconcile_optional_job, jobs_cleanup}
use scale_operator.Reconciler.Jobs.Laws.{
  cleanup_loop-proceeds, IsAbsent, reconcile_job-proceeds, IsDone,
}
use scale_operator.Reconciler.Status.{on_cluster, write, write_and_requeue, write_checked}
use scale_operator.Apps.Backup.{
  backup_jobs, backup_completion, post_backup_steps, reconcile, backup_completed, Status,
  main_steps_completed, Destination, Plan, job_of, job_step, backup_in_pvc,
  set_main_steps_completed, main_steps,
}
use scale_operator.Apps.Backup.Quiet.{
  main_steps-IsQuiet, IsMark, source_status-IsQuiet, start_time-IsQuiet, destination_pvc-IsQuiet,
  pvc_status-IsQuiet, jobs_permissions-IsQuiet,
}

module _ {S E O T : Type 0} (kube : Kube S E O) (update_status : Status T → S → Option E × S)
    (clock : S → T) (plan : Plan O) (d : Destination O) (claim : plan.destination ≡ some d) where
  -- The three jobs are done in the state from which the status was written.
  abbrev pub WrittenAfterJobs : Status T × S → Type 0
  WrittenAfterJobs x =
      (before : S) × IsDone kube d.secrets_job before
      × IsDone kube d.custom_resource_job before
      × IsDone kube d.file_storage_job before
      × ((update_status x.0 before).1 ≡ x.1)

  abbrev Justified : Status T × S → Type 0
  Justified x = main_steps_completed x.0 ≡ true → WrittenAfterJobs x

  abbrev Early : Status T × S → Type 0
  Early x = main_steps_completed x.0 ≡ false

  Early-Justified : (x : Status T × S) → Early x → Justified x
  Early-Justified x e h = absurd (ground arith)

  quiet_Triple :
      (m : Step E (Status T × S))
      → ((x : Status T × S) → main_steps_completed (m x).1.0 ≡ main_steps_completed x.0)
      → Triple Justified Early m Early
  quiet_Triple m quiet x i early = let e = quiet x ∙ early in (Early-Justified (m x).1 e, λ h. e)

  optional_job_Triple :
      (job : O) (D : S → Type 0)
      → Triple Justified
          (λ x. Early x × D x.1)
          (on_cluster (reconcile_optional_job kube (some job)))
          (λ x. Early x × (D x.1 × IsDone kube job x.1))
  unfolding reconcile_optional_job
  optional_job_Triple job D (st, s) i (early, known) =
      let r = reconcile_job kube job s in
      (
        Early-Justified (st, r.1) early,
        λ h.
            let (same, done) = reconcile_job-proceeds kube job s r.1 (ap (λ p. (p, r.1)) h) in
            (early, (subst D (sym same) known, subst (IsDone kube job) (sym same) done)),
      )

  abbrev After : (S → Type 0) → Step E (Status T × S) → (S → Type 0) → Type 0
  After P m Q = Triple Justified (λ x. Early x × P x.1) m (λ x. Early x × Q x.1)

  main_IsMark : IsMark kube update_status clock plan main_steps_completed
  unfolding main_steps_completed
  main_IsMark = record { of_name = λ st v. refl; of_start = λ st v. refl; of_claim = λ st v. refl }

  job_step_After :
      (job : Destination O → O) (D : S → Type 0)
      → After D (job_step kube update_status clock job plan) (λ s. D s × IsDone kube (job d) s)
  unfolding job_step job_of
  job_step_After job D =
      subst
        (λ o.
          After D (on_cluster (reconcile_optional_job kube (job_of kube update_status clock job o)))
            (λ s. D s × IsDone kube (job d) s))
        (sym claim) (optional_job_Triple (job d) D)

  abbrev AllDone : S → Type 0
  AllDone s =
      ((Unit {0} × IsDone kube d.secrets_job s) × IsDone kube d.custom_resource_job s)
      × IsDone kube d.file_storage_job s

  set_main_After : After AllDone (set_main_steps_completed kube update_status clock) (λ s. Unit {0})
  unfolding set_main_steps_completed write_and_requeue
  set_main_After (st, s) i (early, done) =
      let new = record st { main_steps_completed = some true } in
      let (state, stops) = then_requeue-state 0 (write update_status new s) in
      rw early (
        subst Justified (sym state) (λ m. (s, done.0.0.1, done.0.1, done.1, refl)),
        λ h. absurd (stops h),
      )

  abbrev Any : S → Type 0
  Any s = Unit

  seq :
      (P Q R : S → Type 0) (m k : Step E (Status T × S))
      → After P m Q
      → After Q k R
      → After P (m >> k) R
  seq P Q R =
      >>_Triple Justified (λ x. Early x × P x.1) (λ x. Early x × Q x.1) (λ x. Early x × R x.1)

  quiet_step :
      (m : Step E (Status T × S))
      → ((x : Status T × S) → main_steps_completed (m x).1.0 ≡ main_steps_completed x.0)
      → After Any m Any
  quiet_step m quiet x i (early, known) =
      let (i', e) = quiet_Triple m quiet x i early in (i', λ h. (e h, tt))

  backup_in_pvc_After : After Any (backup_in_pvc kube update_status clock plan) AllDone
  unfolding backup_in_pvc
  backup_in_pvc_After =
      seq Any Any AllDone _ _
        (quiet_step _ (
          destination_pvc-IsQuiet kube update_status clock plan main_steps_completed main_IsMark
            plan.destination))
        (seq Any Any AllDone _ _
          (quiet_step _ (
            pvc_status-IsQuiet kube update_status clock plan main_steps_completed main_IsMark
              plan.destination))
          (seq Any Any AllDone _ _
            (quiet_step _ (
              jobs_permissions-IsQuiet kube update_status clock plan main_steps_completed
                main_IsMark))
            (seq Any (λ s. Unit {0} × IsDone kube d.secrets_job s) AllDone _ _
              (job_step_After (λ d. d.secrets_job) Any)
              (seq (λ s. Unit {0} × IsDone kube d.secrets_job s)
                (λ s.
                  (Unit {0} × IsDone kube d.secrets_job s) × IsDone kube d.custom_resource_job s)
                AllDone _ _
                (job_step_After (λ d. d.custom_resource_job)
                  (λ s. Unit {0} × IsDone kube d.secrets_job s))
                (job_step_After (λ d. d.file_storage_job)
                  (λ s.
                    (Unit {0} × IsDone kube d.secrets_job s)
                    × IsDone kube d.custom_resource_job s))))))

  main_steps_After : After Any (main_steps kube update_status clock plan) Any
  unfolding main_steps
  main_steps_After =
      seq Any Any Any _ _
        (quiet_step _
          (source_status-IsQuiet kube update_status clock plan main_steps_completed main_IsMark))
        (seq Any Any Any _ _
          (quiet_step _
            (start_time-IsQuiet kube update_status clock plan main_steps_completed main_IsMark))
          (seq Any AllDone Any _ _ backup_in_pvc_After set_main_After))

  -- A run that marks the main steps as complete wrote the mark in a state where the job of secrets and
  -- config maps, the job of the custom resource and the job of the file storage had all succeeded.
  pub main_steps_completed-reconcile :
      (x : Status T × S)
      → main_steps_completed x.0 ≡ false
      → main_steps_completed (reconcile kube update_status clock plan x).1.0 ≡ true
      → WrittenAfterJobs (reconcile kube update_status clock plan x).1
  unfolding reconcile
  main_steps_completed-reconcile x early = elim (Bool-cases (backup_completed x.0)) [
    | inl done ↦ rw done (λ h. Early-Justified x early h)
    | inr pending ↦
        let y = main_steps kube update_status clock plan x in
        rw pending (
          rw early (
            subst Justified (sym (next_requeue 5 y.0 y.1))
              (main_steps_After x (Early-Justified x early) (early, tt)).0))
  ]

  completed_IsMark : IsMark kube update_status clock plan backup_completed
  unfolding backup_completed
  completed_IsMark = record {
    of_name = λ st v. refl;
    of_start = λ st v. refl;
    of_claim = λ st v. refl;
  }

  completed_apart :
      (st : Status T) (v : Option Bool)
      → backup_completed (record st { main_steps_completed = v }) ≡ backup_completed st
  unfolding backup_completed
  completed_apart st v = refl

  -- The jobs are gone in the state from which the status was written.
  abbrev pub WrittenAfterCleanup : S → Status T × S → Type 0
  WrittenAfterCleanup before x =
      IsAbsent kube (some d.secrets_job) before
      × IsAbsent kube (some d.custom_resource_job) before
      × IsAbsent kube (some d.file_storage_job) before
      × ((update_status x.0 before).1 ≡ x.1)

  abbrev Cleaned : S → Status T × S → Type 0
  Cleaned before x = backup_completed x.0 ≡ true → WrittenAfterCleanup before x

  completion_Cleaned :
      (x : Status T × S)
      → backup_completed x.0 ≡ false
      → All (λ job. IsAbsent kube job x.1) (backup_jobs kube update_status clock (some d))
      → Cleaned x.1 (backup_completion kube update_status clock x).1
  unfolding backup_completion backup_jobs job_of write_checked
  completion_Cleaned x pending gone =
      let new = record x.0 { completed = some true; completion_time = some (clock x.1) } in
      rw pending (
        subst (Cleaned x.1) (sym (checked-state (write update_status new x.1)))
          (λ h. (gone.0, gone.1.0, gone.1.1.0, refl)))

  Cleaned-next :
      (r : Result E) (st : Status T) (s s' : S)
      → backup_completed st ≡ false
      → (r ≡ proceed
          → (s' ≡ s)
            × All (λ job. IsAbsent kube job s) (backup_jobs kube update_status clock (some d)))
      → Cleaned s (next (backup_completion kube update_status clock) (r, (st, s'))).1
  unfolding next
  Cleaned-next proceed st s s' pending q =
      let (same, gone) = q refl in
      subst (λ t. Cleaned s (backup_completion kube update_status clock (st, t)).1) (sym same)
        (completion_Cleaned (st, s) pending gone)
  Cleaned-next (requeue after err) st s s' pending q = λ h. absurd (ground arith)
  Cleaned-next (fails err) st s s' pending q = λ h. absurd (ground arith)
  Cleaned-next panics st s s' pending q = λ h. absurd (ground arith)

  post_backup_steps-Cleaned :
      (x : Status T × S)
      → backup_completed x.0 ≡ false
      → Cleaned x.1 (post_backup_steps kube update_status clock plan x).1
  unfolding post_backup_steps ◌>>◌ jobs_cleanup
  post_backup_steps-Cleaned (st, s) pending =
      subst
        (λ o.
          Cleaned s
            (next (backup_completion kube update_status clock)
              (on_cluster (jobs_cleanup kube (backup_jobs kube update_status clock o)) (st, s))).1)
        (sym claim)
        (let jobs = backup_jobs kube update_status clock (some d) in
          let r = jobs_cleanup kube jobs s in
          Cleaned-next r.0 st s r.1 pending
            (λ h. cleanup_loop-proceeds kube jobs s r.1 (ap (λ p. (p, r.1)) h)))

  -- A run that completes the backup began with the main steps complete, in a state where none of the
  -- three jobs was left, and wrote the status from that state.
  pub backup_completed-reconcile :
      (x : Status T × S)
      → backup_completed x.0 ≡ false
      → backup_completed (reconcile kube update_status clock plan x).1.0 ≡ true
      → (main_steps_completed x.0 ≡ true)
        × WrittenAfterCleanup x.1 (reconcile kube update_status clock plan x).1
  unfolding reconcile
  backup_completed-reconcile x pending = elim (Bool-cases (main_steps_completed x.0)) [
    | inl main ↦ rw pending (rw main (λ h. (refl, post_backup_steps-Cleaned x pending h)))
    | inr early ↦
        let y = main_steps kube update_status clock plan x in
        let still =
          main_steps-IsQuiet kube update_status clock plan backup_completed completed_IsMark
            completed_apart x in
        rw pending (
          rw early (
            subst
              (λ (z : Status T × S).
                backup_completed z.0 ≡ true → (false ≡ true) × WrittenAfterCleanup x.1 z)
              (sym (next_requeue 5 y.0 y.1)) (λ h. absurd (ground (arith, still, h)))))
  ]
