-- ===== src/Apps/Backup/Sequence.antt =====
-- The invariant of the status through the sequences of steps.
use scale_operator.Prelude.{
  ◌≡◌, refl, sym, inl, inr, true, Option, none, some, arith, Bool-cases, nat_eq, string_eq, int_eq,
  subst,
}
use scale_operator.Reconciler.Steps.{Result, proceed, requeue, fails, panics, Step, ◌>>◌, next}
use scale_operator.Reconciler.Steps.Rules.{Triple, >>_Triple}
use scale_operator.Reconciler.Jobs.{Kube, jobs_cleanup}
use scale_operator.Reconciler.Jobs.Frame.{IsFrame, jobs_cleanup-view}
use scale_operator.Reconciler.Status.Laws.{IsWrite, write_checked-Both, on_cluster_Triple}
use scale_operator.Apps.Backup.{
  Status, backup_completed, main_steps_completed, Destination, Plan, pvc_status, backup_in_pvc,
  main_steps, backup_jobs, backup_completion, post_backup_steps, reconcile,
}
use scale_operator.Apps.Backup.Invariant.{
  IsConsistent, Named, Started, Claimed, Inv, source_status_Triple, start_time_Triple,
  destination_pvc_Triple, pvc_status_Triple, jobs_permissions_Triple, job_step_Triple,
  set_main_Triple,
}

module _ {S E O T : Type 0} (kube : Kube S E O) (update_status : Status T → S → Option E × S)
    (clock : S → T) (stored : S → Status T) (writes : IsWrite update_status stored)
    (frame : IsFrame kube stored) where
  abbrev pub Keeps : Step E (Status T × S) → Type 0
  Keeps m =
      (x : Status T × S)
      → Inv kube update_status clock stored writes frame x
      → Inv kube update_status clock stored writes frame (m x).1

  abbrev After : (Status T → Type 0) → Step E (Status T × S) → (Status T → Type 0) → Type 0
  After P m Q =
      Triple (Inv kube update_status clock stored writes frame) (λ x. P x.0) m (λ x. Q x.0)

  seq :
      (P Q R : Status T → Type 0) (m k : Step E (Status T × S))
      → After P m Q
      → After Q k R
      → After P (m >> k) R
  seq P Q R =
      >>_Triple (Inv kube update_status clock stored writes frame) (λ x. P x.0) (λ x. Q x.0)
        (λ x. R x.0)

  backup_in_pvc_After :
      (plan : Plan O) (d : Destination O)
      → plan.destination ≡ some d
      → After Started (backup_in_pvc kube update_status clock plan) Claimed
  unfolding backup_in_pvc
  backup_in_pvc_After plan d e =
      let claim : After Started (pvc_status kube update_status clock plan.destination) Claimed =
        subst (λ o. After Started (pvc_status kube update_status clock o) Claimed) (sym e)
          (pvc_status_Triple kube update_status clock stored writes frame d) in
      let job = λ (f : Destination O → O).
        job_step_Triple kube update_status clock stored writes frame f plan Claimed in
      seq Started Started Claimed _ _
        (destination_pvc_Triple kube update_status clock stored writes frame plan.destination
          Started)
        (seq Started Claimed Claimed _ _ claim (
          seq Claimed Claimed Claimed _ _
            (jobs_permissions_Triple kube update_status clock stored writes frame plan Claimed)
            (seq Claimed Claimed Claimed _ _ (job (λ d. d.secrets_job)) (
              seq Claimed Claimed Claimed _ _ (job (λ d. d.custom_resource_job))
                (job (λ d. d.file_storage_job))))))

  abbrev Any : Status T → Type 0
  Any st = Unit

  main_steps_After :
      (plan : Plan O) (d : Destination O)
      → plan.destination ≡ some d
      → After Any (main_steps kube update_status clock plan) Any
  unfolding main_steps
  main_steps_After plan d e =
      seq Any Named Any _ _ (source_status_Triple kube update_status clock stored writes frame plan)
        (seq Named Started Any _ _ (start_time_Triple kube update_status clock stored writes frame)
          (seq Started Claimed Any _ _ (backup_in_pvc_After plan d e)
            (set_main_Triple kube update_status clock stored writes frame)))

  abbrev Main : Status T → Type 0
  Main st = main_steps_completed st ≡ true

  completion_Keeps :
      (x : Status T × S)
      → Main x.0
      → Inv kube update_status clock stored writes frame x
      → Inv kube update_status clock stored writes frame
          (backup_completion kube update_status clock x).1
  unfolding backup_completion backup_completed main_steps_completed
  completion_Keeps x main i = elim (Bool-cases (backup_completed x.0)) [
    | inl done ↦ rw done i
    | inr pending ↦ rw pending (
        write_checked-Both update_status stored IsConsistent writes
          (record x.0 { completed = some true; completion_time = some (clock x.1) }) x
          (ground (arith, main)) i)
  ]

  completion_After : After Main (backup_completion kube update_status clock) Any
  completion_After x i main = (completion_Keeps x main i, λ h. tt)

  post_backup_steps_After :
      (plan : Plan O) → After Main (post_backup_steps kube update_status clock plan) Any
  unfolding post_backup_steps
  post_backup_steps_After plan =
      let jobs = backup_jobs kube update_status clock plan.destination in
      seq Main Main Any _ _
        (on_cluster_Triple update_status stored IsConsistent writes (jobs_cleanup kube jobs) Main
          (λ s. jobs_cleanup-view kube stored frame jobs s))
        completion_After

  next_requeue : (r : Result E) (x : Status T × S) → (next (λ y. (requeue 5 none, y)) (r, x)).1 ≡ x
  unfolding next
  next_requeue proceed x = refl
  next_requeue (requeue after err) x = refl
  next_requeue (fails err) x = refl
  next_requeue panics x = refl

  pub reconcile-Keeps :
      (plan : Plan O) (d : Destination O)
      → plan.destination ≡ some d
      → Keeps (reconcile kube update_status clock plan)
  unfolding reconcile
  reconcile-Keeps plan d e x i = elim (Bool-cases (backup_completed x.0)) [
    | inl done ↦ rw done i
    | inr pending ↦ elim (Bool-cases (main_steps_completed x.0)) [
      | inl main ↦ rw pending (rw main (post_backup_steps_After plan x i main).0)
      | inr early ↦
          let y = main_steps kube update_status clock plan x in
          rw pending (
            rw early (
              subst (Inv kube update_status clock stored writes frame) (sym (next_requeue y.0 y.1))
                (main_steps_After plan d e x i tt).0))
    ]
  ]
