-- ===== src/Apps/Backup/Quiet.antt =====
-- The steps of a backup leave alone the marks of its status that they do not set.
use scale_operator.Prelude.{
  String, ◌≡◌, refl, ◌∙◌, inl, inr, Bool, true, Option, none, some, Bool-cases, ◌==◌, nat_eq,
  string_eq, int_eq,
}
use scale_operator.Reconciler.Jobs.{Kube, ensure}
use scale_operator.Reconciler.Status.Quiet.{
  IsQuiet, >>_IsQuiet, request-IsQuiet, set_once-IsQuiet, write_and_requeue-IsQuiet,
}
use scale_operator.Apps.Backup.{
  set_main_steps_completed, job_step, main_steps, backup_in_pvc, Status, main_steps_completed,
  Destination, Plan, check_source, source_status, start_time_field, destination_pvc, pvc_status,
  jobs_permissions,
}

module _ {S E O T : Type 0} (kube : Kube S E O) (update_status : Status T → S → Option E × S)
    (clock : S → T) (plan : Plan O) where
  -- A mark of the status that the named fields are no part of.
  pub record IsMark (mark : Status T → Bool) : Type 0 where
    pub of_name :
        (st : Status T) (v : Option String)
        → mark (record st { api_manager_source_name = v }) ≡ mark st
    pub of_start : (st : Status T) (v : Option T) → mark (record st { start_time = v }) ≡ mark st
    pub of_claim :
        (st : Status T) (v : Option String) → mark (record st { backup_pvc_name = v }) ≡ mark st

  module _ (mark : Status T → Bool) (is_mark : IsMark mark) where
    check_source-IsQuiet :
        (name : Option String) → IsQuiet mark (check_source kube update_status clock plan name)
    unfolding check_source
    check_source-IsQuiet none (st, s) =
        write_and_requeue-IsQuiet mark update_status
          (record st { api_manager_source_name = some plan.api_manager_name }) (st, s)
        ∙ is_mark.of_name st (some plan.api_manager_name)
    check_source-IsQuiet (some name) (st, s) = elim (Bool-cases (name == plan.api_manager_name)) [
      | inl same ↦ rw same refl
      | inr other ↦ rw other (
          write_and_requeue-IsQuiet mark update_status
            (record st { api_manager_source_name = some plan.api_manager_name }) (st, s)
          ∙ is_mark.of_name st (some plan.api_manager_name))
    ]

    pub source_status-IsQuiet : IsQuiet mark (source_status kube update_status clock plan)
    unfolding source_status
    source_status-IsQuiet x = check_source-IsQuiet x.0.api_manager_source_name x

    pub start_time-IsQuiet : IsQuiet mark (start_time_field kube update_status clock)
    unfolding start_time_field
    start_time-IsQuiet x =
        set_once-IsQuiet mark update_status x.0.start_time
          (record x.0 { start_time = some (clock x.1) }) x (is_mark.of_start x.0 (some (clock x.1)))

    pub destination_pvc-IsQuiet :
        (o : Option (Destination O)) → IsQuiet mark (destination_pvc kube update_status clock o)
    unfolding destination_pvc
    destination_pvc-IsQuiet none x = refl
    destination_pvc-IsQuiet (some c) x = request-IsQuiet mark (ensure kube c.pvc) x

    pub pvc_status-IsQuiet :
        (o : Option (Destination O)) → IsQuiet mark (pvc_status kube update_status clock o)
    unfolding pvc_status
    pvc_status-IsQuiet none x = refl
    pvc_status-IsQuiet (some c) x =
        set_once-IsQuiet mark update_status x.0.backup_pvc_name
          (record x.0 { backup_pvc_name = some c.pvc_name }) x
          (is_mark.of_claim x.0 (some c.pvc_name))

    pub jobs_permissions-IsQuiet : IsQuiet mark (jobs_permissions kube update_status clock plan)
    unfolding jobs_permissions
    jobs_permissions-IsQuiet =
        >>_IsQuiet mark _ _ (request-IsQuiet mark (ensure kube plan.service_account)) (
          >>_IsQuiet mark _ _ (request-IsQuiet mark (ensure kube plan.role))
            (request-IsQuiet mark (ensure kube plan.role_binding)))

    job_step-IsQuiet :
        (job : Destination O → O) → IsQuiet mark (job_step kube update_status clock job plan)
    unfolding job_step
    job_step-IsQuiet job x = refl

    backup_in_pvc-IsQuiet : IsQuiet mark (backup_in_pvc kube update_status clock plan)
    unfolding backup_in_pvc
    backup_in_pvc-IsQuiet = >>_IsQuiet mark _ _ (destination_pvc-IsQuiet plan.destination) (
        >>_IsQuiet mark _ _ (pvc_status-IsQuiet plan.destination) (
          >>_IsQuiet mark _ _ jobs_permissions-IsQuiet (
            >>_IsQuiet mark _ _ (job_step-IsQuiet (λ d. d.secrets_job)) (
              >>_IsQuiet mark _ _ (job_step-IsQuiet (λ d. d.custom_resource_job))
                (job_step-IsQuiet (λ d. d.file_storage_job))))))

    set_main-IsQuiet :
        ((st : Status T) (v : Option Bool)
          → mark (record st { main_steps_completed = v }) ≡ mark st)
        → IsQuiet mark (set_main_steps_completed kube update_status clock)
    unfolding set_main_steps_completed
    set_main-IsQuiet apart x = elim (Bool-cases (main_steps_completed x.0)) [
      | inl done ↦ rw done refl
      | inr pending ↦ rw pending (
          write_and_requeue-IsQuiet mark update_status
            (record x.0 { main_steps_completed = some true }) x
          ∙ apart x.0 (some true))
    ]

    pub main_steps-IsQuiet :
        ((st : Status T) (v : Option Bool)
          → mark (record st { main_steps_completed = v }) ≡ mark st)
        → IsQuiet mark (main_steps kube update_status clock plan)
    unfolding main_steps
    main_steps-IsQuiet apart = >>_IsQuiet mark _ _ source_status-IsQuiet (
        >>_IsQuiet mark _ _ start_time-IsQuiet
          (>>_IsQuiet mark _ _ backup_in_pvc-IsQuiet (set_main-IsQuiet apart)))
