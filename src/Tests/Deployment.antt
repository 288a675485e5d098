-- ===== src/Tests/Deployment.antt =====
-- Runs of the mutators of pkg/reconcilers/deployment.go on small deployments.
use scale_operator.Prelude.{
  ℕ, ◌<◌, String, ◌≡◌, refl, ◌≢◌, ◌↔◌, ◌⊎◌, Bool, true, false, none, some, List, [], ◌∷◌, arith,
  nat_beq, if◌then◌else◌, nat_eq, string_eq, contains, is_some, int_eq,
}
use scale_operator.Reconciler.Deployment.{
  Container, Deployment, finished, panicked, deployment_mutator, mutate_all, continue_with,
  merge_map, merge_loop, merge_one, sync_each, sync_one, sync_all, init_containers_mutator,
  with_containers, annotations_mutator, resources_mutator, resources_at, resources_of_one,
  affinity_mutator, tolerations_mutator, template_labels_mutator, priority_class_mutator,
  topology_mutator, template_annotations_mutator, args_mutator, probes_mutator, image_mutator,
  init_image_mutator, generic_backend_mutators,
}
use scale_operator.Reconciler.Deployment.Positions.{init_containers_mutator_lem}
use scale_operator.Reconciler.Deployment.Laws.{
  Settles, container_mutators_panic, container_mutators_settle,
}
use scale_operator.Reconciler.Deployment.Merge.{or_else, value_at, Has, merge_map_lem}
use scale_operator.Helper.EnvVars.Laws.{env_var, IsDistinct}
use scale_operator.Reconciler.Deployment.Weak.{
  PodMounts, weak_mutator, weak_container_mounts, weak_mutator_lem, weak_container_mounts_lem,
}
use scale_operator.Reconciler.Deployment.Env.{
  PodEnvs, env_var_of_deployment, EachReconciled, env_var_of_deployment_lem,
}

abbrev wrong_length : String
wrong_length = "length"

abbrev some_desired : List ℕ
some_desired = 1 ∷ 2 ∷ []

abbrev some_existing : List ℕ
some_existing = 3 ∷ []

abbrev first : Container ℕ
first = record {
  image = "backend:1";
  args = 1;
  resources = 2;
  liveness_probe = 3;
  readiness_probe = 4;
  volume_mounts = 5;
  other_fields = 6;
}

abbrev newer : Container ℕ
newer = record first { image = "backend:2"; args = 7 }

abbrev small : Deployment ℕ
small = record {
  annotations = some (("a", "1") ∷ []);
  template_labels = some [];
  template_annotations = some [];
  affinity = 0;
  tolerations = 0;
  topology_spread_constraints = 0;
  strategy = 0;
  priority_class_name = "";
  containers = first ∷ [];
  init_containers = [];
}

abbrev updated : Deployment ℕ
updated = record small { containers = newer ∷ []; annotations = some (("b", "2") ∷ []) }

abbrev without_containers : Deployment ℕ
without_containers = record small { containers = [] }

init_containers_mutator_lem_example :
    let r = init_containers_mutator some_desired some_existing in
    (r.1 ≡ some_desired) × (r.0 ≡ false ↔ some_existing ≡ some_desired)
init_containers_mutator_lem_example = init_containers_mutator_lem some_desired some_existing

container_mutators_panic_example :
    (args_mutator nat_beq wrong_length updated without_containers ≡ panicked)
    × (probes_mutator nat_beq wrong_length updated without_containers ≡ panicked)
    × (image_mutator nat_beq wrong_length updated without_containers ≡ panicked)
container_mutators_panic_example =
    container_mutators_panic nat_beq wrong_length updated without_containers (ground arith)

container_mutators_settle_example :
    Settles nat_beq wrong_length updated small (args_mutator nat_beq wrong_length)
    × Settles nat_beq wrong_length updated small (probes_mutator nat_beq wrong_length)
    × Settles nat_beq wrong_length updated small (image_mutator nat_beq wrong_length)
container_mutators_settle_example =
    container_mutators_settle nat_beq wrong_length updated small (ground arith)

merge_map_lem_example :
    let r = merge_map (some (("a", "1") ∷ [])) (some (("b", "2") ∷ [])) in
    (is_some r.1 ≡ true)
    × ((wanted : String)
        → value_at wanted r.1
          ≡ or_else
              (value_at wanted (some (("b", "2") ∷ [])))
              (value_at wanted (some (("a", "1") ∷ []))))
    × (r.0 ≡ false ↔ Has (("b", "2") ∷ []) (("a", "1") ∷ []))
    × (merge_map r.1 (some (("b", "2") ∷ [])) ≡ (false, r.1))
merge_map_lem_example = merge_map_lem (some (("b", "2") ∷ [])) (some (("a", "1") ∷ [])) (refl, tt)

-- The mutators bring the small deployment to the updated one, which keeps its old annotation.
abbrev merged : Deployment ℕ
merged = record updated { annotations = some (("a", "1") ∷ ("b", "2") ∷ []) }

update_run :
    deployment_mutator (generic_backend_mutators nat_beq wrong_length) small updated
    ≡ finished true merged
unfolding deployment_mutator mutate_all continue_with merge_map merge_loop merge_one sync_each
    sync_one sync_all with_containers annotations_mutator resources_mutator resources_at
    resources_of_one affinity_mutator tolerations_mutator template_labels_mutator
    priority_class_mutator topology_mutator template_annotations_mutator args_mutator probes_mutator
    image_mutator init_image_mutator generic_backend_mutators
update_run = refl

abbrev Volume : Type 0
Volume = String

abbrev volume_name : Volume → String
volume_name v = v

abbrev wanted_volumes : List String
wanted_volumes = "cert" ∷ "config" ∷ []

abbrev desired_volumes : List Volume
desired_volumes = "cert" ∷ []

abbrev existing_volumes : List Volume
existing_volumes = "config" ∷ "data" ∷ []

weak_mutator_lem_example :
    let r = weak_mutator volume_name wanted_volumes desired_volumes existing_volumes in
    ((y : String)
      → env_var volume_name r.1 y ≡ (
          if contains wanted_volumes y
          then env_var volume_name desired_volumes y
          else env_var volume_name existing_volumes y))
    × IsDistinct volume_name r.1
    × ((r.0 ≡ true) ⊎ (r.1 ≡ existing_volumes))
weak_mutator_lem_example =
    weak_mutator_lem volume_name wanted_volumes desired_volumes existing_volumes (refl, (refl, tt))

-- One container is desired and none exists; no init container is desired or exists.
abbrev one_container : PodMounts Volume
one_container = record { init_mounts = []; mounts = desired_volumes ∷ [] }

abbrev no_container : PodMounts Volume
no_container = record { init_mounts = []; mounts = [] }

weak_container_mounts_lem_example :
    ((weak_container_mounts volume_name wanted_volumes one_container no_container ≡ none)
      ↔ ((◌≡◌ {A = ℕ} 0 0) × (0 < 1)))
    × (◌≢◌ {A = ℕ} 0 0
        → weak_container_mounts volume_name wanted_volumes one_container no_container
          ≡ some (false, no_container))
weak_container_mounts_lem_example =
    weak_container_mounts_lem volume_name wanted_volumes one_container no_container

abbrev desired_envs : PodEnvs Volume
desired_envs = record { init_envs = []; envs = desired_volumes ∷ [] }

abbrev existing_envs : PodEnvs Volume
existing_envs = record { init_envs = []; envs = existing_volumes ∷ [] }

env_var_of_deployment_lem_example :
    (r : Bool × PodEnvs Volume) × (env_var_of_deployment volume_name "config" desired_envs
        existing_envs
      ≡ some r)
    × EachReconciled volume_name "config" [] [] r.1.init_envs
    × EachReconciled volume_name "config" (desired_volumes ∷ []) (existing_volumes ∷ []) r.1.envs
env_var_of_deployment_lem_example =
    env_var_of_deployment_lem volume_name "config" desired_envs existing_envs refl refl tt
      ((refl, (refl, tt)), tt)
