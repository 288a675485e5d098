-- ===== src/Tests/Backup.antt =====
-- Runs of the backup of controllers/apps/apimanagerbackup_logic_reconciler.go on a small cluster.
use scale_operator.Prelude.{
  ℕ, String, ◌≡◌, refl, ◌⊎◌, inl, inr, true, Option, none, some, List, [], ◌∷◌, arith,
  if◌then◌else◌, ◌==◌, nat_eq, string_eq, contains, Dict, pos, int_eq,
}
use scale_operator.Reconciler.{
  found, not_found, reconcile_resource, reconcile_got, reconcile_found, finish_mutation,
  is_tagged_to_delete, propagation_policy, tag_with_propagation_policy,
}
use scale_operator.Reconciler.Steps.{Result, requeue, next, ◌>>◌, checked, then_requeue}
use scale_operator.Reconciler.Jobs.{
  Kube, ensure, reconcile_job, reconcile_owned_job, reconcile_got_job, reconcile_optional_job,
  jobs_cleanup, cleanup_loop, cleanup_job, tagged, create_only,
}
use scale_operator.Reconciler.Jobs.Frame.{IsFrame}
use scale_operator.Reconciler.Status.{request, write_and_requeue, write_checked, set_once}
use scale_operator.Apps.Backup.{
  Status, Destination, Plan, Spec, OptionErrors, backup_completed, main_steps_completed, reconcile,
  run, options, main_steps, post_backup_steps, source_status, check_source, start_time_field,
  backup_in_pvc, destination_pvc, pvc_status, jobs_permissions, job_step, job_of,
  set_main_steps_completed, backup_jobs, backup_completion, plan_of, options_for, validated,
  reconcile_options,
}
use scale_operator.Apps.Backup.Invariant.{IsConsistent}
use scale_operator.Apps.Backup.Reach.{here, moved, run_move, Reach-IsConsistent}
use scale_operator.Apps.Backup.Safety.{
  WrittenAfterJobs, WrittenAfterCleanup, main_steps_completed-reconcile, backup_completed-reconcile,
}

record Object : Type 0 where
  name : String
  notes : Option (Dict String String)

record Cluster : Type 0 where
  status : Status ℕ
  objects : List String
  time : ℕ

abbrev without : String → List String → List String
without name [] = []
without name (other ∷ names) =
    let rest = without name names in if other == name then rest else other ∷ rest

abbrev small_kube : Kube Cluster String Object
small_kube = record {
  client = record {
    get = λ o s. if contains s.objects o.name then found o else not_found;
    create = λ o s. (none, record s { objects = o.name ∷ s.objects });
    update = λ o s. (none, s);
    delete = λ o policy s. (none, record s { objects = without o.name s.objects });
  };
  annotations = λ o. o.notes;
  set_annotations = λ notes o. record o { notes = notes };
  set_owner = λ o. (none, o);
  succeeded = λ o. pos 1;
  completions = λ o. pos 1;
}

abbrev write_status : Status ℕ → Cluster → Option String × Cluster
write_status st s = (none, record s { status = st })

abbrev object : String → Object
object name = record { name = name; notes = none }

abbrev small_destination : Destination Object
small_destination = record {
  pvc = object "pvc";
  pvc_name = "pvc";
  secrets_job = object "secrets";
  custom_resource_job = object "custom-resource";
  file_storage_job = object "file-storage";
}

abbrev small_spec : Spec Object
small_spec = record {
  destination = some small_destination;
  service_account = object "account";
  role = object "role";
  role_binding = object "binding";
}

abbrev small_plan : Plan Object
small_plan = record {
  api_manager_name = "manager";
  destination = some small_destination;
  service_account = object "account";
  role = object "role";
  role_binding = object "binding";
}

abbrev small_errors : OptionErrors String Object
small_errors = record {
  no_api_manager = "none found";
  several_api_managers = "several found";
  no_destination = "no destination";
  invalid_claim = λ d. none;
}

abbrev empty_status : Status ℕ
empty_status = record {
  completed = none;
  main_steps_completed = none;
  api_manager_source_name = none;
  start_time = none;
  completion_time = none;
  backup_pvc_name = none;
}

abbrev before_mark : Status ℕ
before_mark = record empty_status {
  api_manager_source_name = some "manager";
  start_time = some 3;
  backup_pvc_name = some "pvc";
}

abbrev after_mark : Status ℕ
after_mark = record before_mark { main_steps_completed = some true }

abbrev job_objects : List String
job_objects =
    "secrets" ∷ "custom-resource" ∷ "file-storage" ∷ "pvc" ∷ "account" ∷ "role" ∷ "binding" ∷ []

abbrev first_cluster : Cluster
first_cluster = record { status = empty_status; objects = []; time = 3 }

abbrev jobs_cluster : Cluster
jobs_cluster = record { status = before_mark; objects = job_objects; time = 4 }

abbrev clean_cluster : Cluster
clean_cluster = record { status = after_mark; objects = "pvc" ∷ []; time = 5 }

abbrev clock : Cluster → ℕ
clock s = s.time

-- A run from the stored status.
abbrev manager_names : Cluster → String ⊎ List String
manager_names s = inr ("manager" ∷ [])

run_once : Cluster → Result String × (Status ℕ × Cluster)
unfolding run
run_once s =
    run small_kube write_status clock small_errors (λ p. none) manager_names small_spec
      (s.status, s)

main_steps_completed-reconcile_example :
    WrittenAfterJobs small_kube write_status clock small_plan small_destination refl
      (reconcile small_kube write_status clock small_plan (before_mark, jobs_cluster)).1
unfolding main_steps_completed backup_completed reconcile main_steps post_backup_steps source_status
    check_source start_time_field backup_in_pvc destination_pvc pvc_status jobs_permissions job_step
    job_of set_main_steps_completed backup_jobs backup_completion ◌>>◌ next checked then_requeue
    request write_and_requeue write_checked set_once ensure reconcile_job reconcile_owned_job
    reconcile_got_job reconcile_optional_job jobs_cleanup cleanup_loop cleanup_job tagged
    create_only reconcile_resource reconcile_got reconcile_found finish_mutation is_tagged_to_delete
    propagation_policy tag_with_propagation_policy plan_of options options_for validated
    reconcile_options run
main_steps_completed-reconcile_example =
    main_steps_completed-reconcile small_kube write_status clock small_plan small_destination refl
      (before_mark, jobs_cluster) refl refl

backup_completed-reconcile_example :
    (main_steps_completed after_mark ≡ true)
    × WrittenAfterCleanup small_kube write_status clock small_plan small_destination refl
        clean_cluster
        (reconcile small_kube write_status clock small_plan (after_mark, clean_cluster)).1
unfolding main_steps_completed backup_completed reconcile main_steps post_backup_steps source_status
    check_source start_time_field backup_in_pvc destination_pvc pvc_status jobs_permissions job_step
    job_of set_main_steps_completed backup_jobs backup_completion ◌>>◌ next checked then_requeue
    request write_and_requeue write_checked set_once ensure reconcile_job reconcile_owned_job
    reconcile_got_job reconcile_optional_job jobs_cleanup cleanup_loop cleanup_job tagged
    create_only reconcile_resource reconcile_got reconcile_found finish_mutation is_tagged_to_delete
    propagation_policy tag_with_propagation_policy plan_of options options_for validated
    reconcile_options run
backup_completed-reconcile_example =
    backup_completed-reconcile small_kube write_status clock small_plan small_destination refl
      (after_mark, clean_cluster) refl refl

small_frame : IsFrame small_kube (λ s. s.status)
small_frame = record {
  create_keeps = λ o s. refl;
  update_keeps = λ o s. refl;
  delete_keeps = λ o policy s. refl;
}

Reach-IsConsistent_example : IsConsistent (run_once first_cluster).1.1.status
unfolding run_once backup_completed main_steps_completed
Reach-IsConsistent_example =
    Reach-IsConsistent small_kube write_status clock small_errors (λ p. none) manager_names
      (λ s. s.status) (λ st s. inl refl) small_frame small_spec first_cluster
      (run_once first_cluster).1.1 (moved here (run_move refl))
      (record {
        main_first = λ h. absurd (ground arith);
        timed = λ h. absurd (ground arith);
        started = λ h. absurd (ground arith);
        named = λ h. absurd (ground arith);
        claimed = λ h. absurd (ground arith);
      })

-- The first run names the API manager and asks for another run at once.
first_run : (run_once first_cluster).0 ≡ requeue 0 none
unfolding main_steps_completed backup_completed reconcile main_steps post_backup_steps source_status
    check_source start_time_field backup_in_pvc destination_pvc pvc_status jobs_permissions job_step
    job_of set_main_steps_completed backup_jobs backup_completion ◌>>◌ next checked then_requeue
    request write_and_requeue write_checked set_once ensure reconcile_job reconcile_owned_job
    reconcile_got_job reconcile_optional_job jobs_cleanup cleanup_loop cleanup_job tagged
    create_only reconcile_resource reconcile_got reconcile_found finish_mutation is_tagged_to_delete
    propagation_policy tag_with_propagation_policy plan_of options options_for validated
    reconcile_options run_once
first_run = refl

-- With the jobs done a run marks the main steps, and with the jobs gone the next completes.
mark_run : (run_once jobs_cluster).1.0 ≡ after_mark
unfolding main_steps_completed backup_completed reconcile main_steps post_backup_steps source_status
    check_source start_time_field backup_in_pvc destination_pvc pvc_status jobs_permissions job_step
    job_of set_main_steps_completed backup_jobs backup_completion ◌>>◌ next checked then_requeue
    request write_and_requeue write_checked set_once ensure reconcile_job reconcile_owned_job
    reconcile_got_job reconcile_optional_job jobs_cleanup cleanup_loop cleanup_job tagged
    create_only reconcile_resource reconcile_got reconcile_found finish_mutation is_tagged_to_delete
    propagation_policy tag_with_propagation_policy plan_of options options_for validated
    reconcile_options run_once
mark_run = refl

last_run : (run_once clean_cluster).1.0.completion_time ≡ some 5
unfolding main_steps_completed backup_completed reconcile main_steps post_backup_steps source_status
    check_source start_time_field backup_in_pvc destination_pvc pvc_status jobs_permissions job_step
    job_of set_main_steps_completed backup_jobs backup_completion ◌>>◌ next checked then_requeue
    request write_and_requeue write_checked set_once ensure reconcile_job reconcile_owned_job
    reconcile_got_job reconcile_optional_job jobs_cleanup cleanup_loop cleanup_job tagged
    create_only reconcile_resource reconcile_got reconcile_found finish_mutation is_tagged_to_delete
    propagation_policy tag_with_propagation_policy plan_of options options_for validated
    reconcile_options run_once
last_run = refl

-- The run before it deletes the jobs that are left, and waits.
cleanup_run :
    (run_once (record jobs_cluster { status = after_mark })).1.1.objects
    ≡ "pvc" ∷ "account" ∷ "role" ∷ "binding" ∷ []
unfolding main_steps_completed backup_completed reconcile main_steps post_backup_steps source_status
    check_source start_time_field backup_in_pvc destination_pvc pvc_status jobs_permissions job_step
    job_of set_main_steps_completed backup_jobs backup_completion ◌>>◌ next checked then_requeue
    request write_and_requeue write_checked set_once ensure reconcile_job reconcile_owned_job
    reconcile_got_job reconcile_optional_job jobs_cleanup cleanup_loop cleanup_job tagged
    create_only reconcile_resource reconcile_got reconcile_found finish_mutation is_tagged_to_delete
    propagation_policy tag_with_propagation_policy plan_of options options_for validated
    reconcile_options run_once
cleanup_run = refl
