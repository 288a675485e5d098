-- ===== src/Apps/Backup/Invariant.antt =====
-- What a run of the backup's reconciler keeps about the status, in memory and as it is stored.
use scale_operator.Prelude.{
  String, ◌≡◌, refl, sym, ap, inl, inr, true, Option, none, some, arith, Bool-cases, ◌==◌, nat_eq,
  string_eq, is_some, int_eq, subst,
}
use scale_operator.Reconciler.Steps.{proceed, ◌>>◌}
use scale_operator.Reconciler.Steps.Rules.{Triple, >>_Triple}
use scale_operator.Reconciler.Jobs.{Kube, ensure, reconcile_optional_job}
use scale_operator.Reconciler.Jobs.Frame.{IsFrame, ensure-view, reconcile_optional_job-view}
use scale_operator.Reconciler.Status.{request}
use scale_operator.Reconciler.Status.Laws.{
  IsWrite, Both, write_and_requeue-Both, set_once-Both, on_cluster_Triple, request_Triple,
}
use scale_operator.Apps.Backup.{
  Status, backup_completed, main_steps_completed, Destination, Plan, check_source, source_status,
  start_time_field, destination_pvc, pvc_status, jobs_permissions, job_of, job_step,
  set_main_steps_completed,
}

-- A completed backup has completed its main steps, at a recorded time, and a backup that has done so
-- has recorded when it began, of which API manager it is, and the claim that holds it.
pub record IsConsistent {T : Type 0} (st : Status T) : Type 0 where
  pub main_first : backup_completed st ≡ true → main_steps_completed st ≡ true
  pub timed : backup_completed st ≡ true → is_some st.completion_time ≡ true
  pub started : main_steps_completed st ≡ true → is_some st.start_time ≡ true
  pub named : main_steps_completed st ≡ true → is_some st.api_manager_source_name ≡ true
  pub claimed : main_steps_completed st ≡ true → is_some st.backup_pvc_name ≡ true

module _ {T : Type 0} where
  abbrev pub Named : Status T → Type 0
  Named st = is_some st.api_manager_source_name ≡ true

  abbrev pub Started : Status T → Type 0
  Started st = Named st × (is_some st.start_time ≡ true)

  abbrev pub Claimed : Status T → Type 0
  Claimed st = Named st × (is_some st.start_time ≡ true) × (is_some st.backup_pvc_name ≡ true)

module _ {S E O T : Type 0} (kube : Kube S E O) (update_status : Status T → S → Option E × S)
    (clock : S → T) (stored : S → Status T) (writes : IsWrite update_status stored)
    (frame : IsFrame kube stored) where
  abbrev pub Inv : Status T × S → Type 0
  Inv = Both update_status stored IsConsistent

  check_source-Inv :
      (plan : Plan O) (name : Option String) (x : Status T × S)
      → x.0.api_manager_source_name ≡ name
      → Inv x
      → let y = check_source kube update_status clock plan name x in
        Inv y.1 × (y.0 ≡ proceed → Named y.1.0)
  unfolding check_source backup_completed main_steps_completed
  check_source-Inv plan none (st, s) e i =
      write_and_requeue-Both update_status stored IsConsistent writes (λ x. Named x.0)
        (record st { api_manager_source_name = some plan.api_manager_name }) (st, s) (ground arith)
        i
  check_source-Inv plan (some name) (st, s) e i =
      elim (Bool-cases (name == plan.api_manager_name)) [
        | inl same ↦ rw same (i, λ h. ap is_some e)
        | inr other ↦ rw other (
            write_and_requeue-Both update_status stored IsConsistent writes (λ x. Named x.0)
              (record st { api_manager_source_name = some plan.api_manager_name }) (st, s)
              (ground arith) i)
      ]

  pub source_status_Triple :
      (plan : Plan O)
      → Triple Inv (λ x. Unit {0}) (source_status kube update_status clock plan) (λ x. Named x.0)
  unfolding source_status
  source_status_Triple plan x i p = check_source-Inv plan x.0.api_manager_source_name x refl i

  pub start_time_Triple :
      Triple Inv (λ x. Named x.0) (start_time_field kube update_status clock) (λ x. Started x.0)
  unfolding start_time_field backup_completed main_steps_completed
  start_time_Triple x i named =
      let new = record x.0 { start_time = some (clock x.1) } in
      let (i', q) =
        set_once-Both update_status stored IsConsistent writes x.0.start_time new x (ground arith)
          i in
      (i', λ h. let (has, same) = q h in subst (λ y. Started y.0) (sym same) (named, has))

  pub destination_pvc_Triple :
      (d : Option (Destination O)) (Q : Status T → Type 0)
      → Triple Inv (λ x. Q x.0) (destination_pvc kube update_status clock d) (λ x. Q x.0)
  unfolding destination_pvc
  destination_pvc_Triple none Q x i q = (i, λ h. q)
  destination_pvc_Triple (some d) Q x i q =
      request_Triple update_status stored IsConsistent writes (ensure kube d.pvc) Q
        (λ s. ensure-view kube stored frame d.pvc s) x i q

  pub pvc_status_Triple :
      (d : Destination O)
      → Triple Inv
          (λ x. Started x.0)
          (pvc_status kube update_status clock (some d))
          (λ x. Claimed x.0)
  unfolding pvc_status backup_completed main_steps_completed
  pvc_status_Triple d x i started =
      let new = record x.0 { backup_pvc_name = some d.pvc_name } in
      let (i', q) =
        set_once-Both update_status stored IsConsistent writes x.0.backup_pvc_name new x
          (ground arith) i in
      (
        i',
        λ h.
            let (has, same) = q h in
            subst (λ y. Claimed y.0) (sym same) (started.0, started.1, has),
      )

  pub ensure_Triple :
      (o : O) (Q : Status T → Type 0)
      → Triple Inv (λ x. Q x.0) (request (ensure kube o)) (λ x. Q x.0)
  ensure_Triple o Q =
      request_Triple update_status stored IsConsistent writes (ensure kube o) Q
        (λ s. ensure-view kube stored frame o s)

  pub jobs_permissions_Triple :
      (plan : Plan O) (Q : Status T → Type 0)
      → Triple Inv (λ x. Q x.0) (jobs_permissions kube update_status clock plan) (λ x. Q x.0)
  unfolding jobs_permissions
  jobs_permissions_Triple plan Q =
      let P : Status T × S → Type 0 = λ x. Q x.0 in
      >>_Triple Inv P P P (request (ensure kube plan.service_account))
        (request (ensure kube plan.role) >> request (ensure kube plan.role_binding))
        (ensure_Triple plan.service_account Q)
        (>>_Triple Inv P P P (request (ensure kube plan.role))
          (request (ensure kube plan.role_binding)) (ensure_Triple plan.role Q)
          (ensure_Triple plan.role_binding Q))

  pub job_step_Triple :
      (job : Destination O → O) (plan : Plan O) (Q : Status T → Type 0)
      → Triple Inv (λ x. Q x.0) (job_step kube update_status clock job plan) (λ x. Q x.0)
  unfolding job_step
  job_step_Triple job plan Q =
      on_cluster_Triple update_status stored IsConsistent writes
        (reconcile_optional_job kube (job_of kube update_status clock job plan.destination)) Q
        (λ s.
          reconcile_optional_job-view kube stored frame
            (job_of kube update_status clock job plan.destination) s)

  pub set_main_Triple :
      Triple Inv
        (λ x. Claimed x.0)
        (set_main_steps_completed kube update_status clock)
        (λ x. Unit {0})
  unfolding set_main_steps_completed backup_completed main_steps_completed
  set_main_Triple x i c = elim (Bool-cases (main_steps_completed x.0)) [
    | inl done ↦ rw done (i, λ h. tt)
    | inr pending ↦ rw pending (
        write_and_requeue-Both update_status stored IsConsistent writes (λ x. Unit {0})
          (record x.0 { main_steps_completed = some true }) x (ground (arith, c)) i)
  ]
