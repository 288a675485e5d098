-- ===== src/Reconciler/Deployment.antt =====
-- pkg/reconcilers/deployment.go: the mutators that bring an existing deployment to a desired one, with
-- `MergeMapStringString` of pkg/helper/object_meta_merger.go. A deployment has the fields that they
-- read; the type `V` of the values that are only compared and copied has `reflect.DeepEqual` as its
-- equality, and `compare_resources` is `CmpResources`. An index out of range panics.
pub mod Laws
pub mod Positions
pub mod Merge
pub mod Weak
pub mod Env
use scale_operator.Prelude.{
  String, Bool, true, false, ◌&&◌, ◌||◌, Option, none, some, List, [], ◌∷◌, ltb, nat_beq,
  if◌then◌else◌, length, take, Eq, ◌==◌, nat_eq, string_eq, Dict, lookup, insert, int_eq,
}

-- `(bool, error)` and what became of the existing deployment, or a panic.
pub data Outcome (E D : Type 0) : Type 0 where
  panicked : Outcome E D
  failed : E → Outcome E D
  finished : Bool → D → Outcome E D

pub record Container (V : Type 0) : Type 0 where
  pub image : String
  pub args : V
  pub resources : V
  pub liveness_probe : V
  pub readiness_probe : V
  pub volume_mounts : V
  pub other_fields : V

pub record Deployment (V : Type 0) : Type 0 where
  pub annotations : Option (Dict String String)
  pub template_labels : Option (Dict String String)
  pub template_annotations : Option (Dict String String)
  pub affinity : V
  pub tolerations : V
  pub topology_spread_constraints : V
  pub strategy : V
  pub priority_class_name : String
  pub containers : List (Container V)
  pub init_containers : List (Container V)

abbrev pub Mutator : Type 0 → Type 0 → Type 0
Mutator E D = D → D → Outcome E D

-- The loop of `DeploymentMutator`, with `update`; the second argument of an option is the existing one.
unfoldable pub continue_with :
    {E D : Type 0} → Bool → (Bool → D → Outcome E D) → Outcome E D → Outcome E D
continue_with update rest panicked = panicked
continue_with update rest (failed err) = failed err
continue_with update rest (finished changed existing) = rest (update || changed) existing

unfoldable pub mutate_all : {E D : Type 0} → D → List (Mutator E D) → Bool → D → Outcome E D
unfolding continue_with
mutate_all desired [] update existing = finished update existing
mutate_all desired (opt ∷ opts) update existing =
    continue_with update (mutate_all desired opts) (opt desired existing)

unfoldable pub deployment_mutator : {E D : Type 0} → List (Mutator E D) → D → D → Outcome E D
unfolding mutate_all
deployment_mutator opts existing desired = mutate_all desired opts false existing

-- `MergeMapStringString`: the loop over the desired map, and the map that starts empty if it is nil.
abbrev pub has_value : Option String → String → Bool
has_value none value = false
has_value (some old) value = old == value

unfoldable pub merge_one : String → String → Dict String String → Bool × Dict String String
merge_one key value existing =
    if has_value (lookup key existing) value
    then (false, existing)
    else (true, insert key value existing)

unfoldable pub merge_loop : Dict String String → Dict String String → Bool × Dict String String
unfolding merge_one
merge_loop [] existing = (false, existing)
merge_loop ((key, value) ∷ desired) existing =
    let one = merge_one key value existing in
    let rest = merge_loop desired one.1 in (one.0 || rest.0, rest.1)

abbrev pub dict_of : Option (Dict String String) → Dict String String
dict_of none = []
dict_of (some entries) = entries

unfoldable pub merge_map :
    Option (Dict String String) → Option (Dict String String) → Bool × Option (Dict String String)
unfolding merge_loop
merge_map existing desired =
    let r = merge_loop (dict_of desired) (dict_of existing) in (r.0, some r.1)

-- The loops over the desired containers that write at the same index of the existing ones: `same`
-- compares an existing container with a desired one, and `copy` takes over from the desired.
unfoldable pub sync_one :
    {C : Type 0} → Bool → C → C → Option (Bool × List C) → Option (Bool × List C)
sync_one agrees copied e none = none
sync_one true copied e (some (changed, rest)) = some (changed, e ∷ rest)
sync_one false copied e (some (changed, rest)) = some (true, copied ∷ rest)

unfoldable pub sync_each :
    {C : Type 0} → (C → C → Bool) → (C → C → C) → List C → List C → Option (Bool × List C)
unfolding sync_one
sync_each same copy [] existing = some (false, existing)
sync_each same copy (d ∷ desired) [] = none
sync_each same copy (d ∷ desired) (e ∷ existing) =
    sync_one (same e d) (copy d e) e (sync_each same copy desired existing)

-- The same where a container that is missing is appended.
unfoldable pub sync_all :
    {C : Type 0} → (C → C → Bool) → (C → C → C) → List C → List C → Bool × List C
sync_all same copy [] existing = (false, existing)
sync_all same copy (d ∷ desired) [] = (true, d ∷ (sync_all same copy desired []).1)
sync_all same copy (d ∷ desired) (e ∷ existing) =
    let rest = sync_all same copy desired existing in
    if same e d then (rest.0, e ∷ rest.1) else (true, copy d e ∷ rest.1)

-- `DeploymentPodInitContainerMutator` on the two slices.
unfoldable pub init_containers_mutator :
    {C : Type 0} → ⦃comparable : Eq C⦄ → List C → List C → Bool × List C
unfolding sync_all
init_containers_mutator desired existing =
    if ltb (length desired) (length existing)
    then (true, (sync_all (λ e d. e == d) (λ d e. d) desired (take (length desired) existing)).1)
    else sync_all (λ e d. e == d) (λ d e. d) desired existing

module _ {V E : Type 0} ⦃comparable : Eq V⦄ (compare_resources : V → V → Bool)
    (wrong_length : E) where
  unfoldable pub with_containers :
      Deployment V → Option (Bool × List (Container V)) → Outcome E (Deployment V)
  with_containers existing none = panicked
  with_containers existing (some (changed, containers)) =
      finished changed (record existing { containers = containers })

  unfoldable pub annotations_mutator : Mutator E (Deployment V)
  unfolding merge_map
  annotations_mutator desired existing =
      let (changed, merged) = merge_map existing.annotations desired.annotations in
      finished changed (record existing { annotations = merged })

  unfoldable pub template_labels_mutator : Mutator E (Deployment V)
  unfolding merge_map
  template_labels_mutator desired existing =
      let (changed, merged) = merge_map existing.template_labels desired.template_labels in
      finished changed (record existing { template_labels = merged })

  unfoldable pub template_annotations_mutator : Mutator E (Deployment V)
  unfolding merge_map
  template_annotations_mutator desired existing =
      let (changed, merged) =
        merge_map existing.template_annotations desired.template_annotations in
      finished changed (record existing { template_annotations = merged })

  unfoldable pub affinity_mutator : Mutator E (Deployment V)
  affinity_mutator desired existing =
      if existing.affinity == desired.affinity
      then finished false existing
      else finished true (record existing { affinity = desired.affinity })

  unfoldable pub tolerations_mutator : Mutator E (Deployment V)
  tolerations_mutator desired existing =
      if existing.tolerations == desired.tolerations
      then finished false existing
      else finished true (record existing { tolerations = desired.tolerations })

  unfoldable pub priority_class_mutator : Mutator E (Deployment V)
  priority_class_mutator desired existing =
      if existing.priority_class_name == desired.priority_class_name
      then finished false existing
      else finished true (record existing { priority_class_name = desired.priority_class_name })

  unfoldable pub topology_mutator : Mutator E (Deployment V)
  topology_mutator desired existing =
      if existing.topology_spread_constraints == desired.topology_spread_constraints
      then finished false existing
      else finished true
          (record existing { topology_spread_constraints = desired.topology_spread_constraints })

  unfoldable pub strategy_mutator : Mutator E (Deployment V)
  strategy_mutator desired existing =
      if existing.strategy == desired.strategy
      then finished false existing
      else finished true (record existing { strategy = desired.strategy })

  -- `DeploymentContainerResourcesMutator`: one desired container, and then one existing.
  unfoldable pub resources_of_one :
      Bool → Container V → Container V → Deployment V → Outcome E (Deployment V)
  resources_of_one update d e existing =
      if compare_resources e.resources d.resources
      then finished update existing
      else finished true
          (record existing { containers = record e { resources = d.resources } ∷ [] })

  unfoldable pub resources_at :
      List (Container V) → List (Container V) → Deployment V → Outcome E (Deployment V)
  unfolding resources_of_one
  resources_at (d ∷ []) (e ∷ []) existing = resources_of_one false d e existing
  resources_at (d ∷ []) [] existing =
      resources_of_one true d d (record existing { containers = d ∷ [] })
  resources_at (d ∷ []) (_ ∷ _ ∷ _) existing =
      resources_of_one true d d (record existing { containers = d ∷ [] })
  resources_at [] _ existing = failed wrong_length
  resources_at (_ ∷ _ ∷ _) _ existing = failed wrong_length

  unfoldable pub resources_mutator : Mutator E (Deployment V)
  unfolding resources_at
  resources_mutator desired existing = resources_at desired.containers existing.containers existing

  unfoldable pub args_mutator : Mutator E (Deployment V)
  unfolding sync_each with_containers
  args_mutator desired existing = with_containers existing (
      sync_each (λ e d. e.args == d.args) (λ d e. record e { args = d.args }) desired.containers
        existing.containers)

  -- Both probes are compared, and both copies make one container.
  unfoldable pub probes_mutator : Mutator E (Deployment V)
  unfolding sync_each with_containers
  probes_mutator desired existing = with_containers existing (
      sync_each
        (λ e d. e.liveness_probe == d.liveness_probe && e.readiness_probe == d.readiness_probe)
        (λ d e. record e { liveness_probe = d.liveness_probe; readiness_probe = d.readiness_probe })
        desired.containers existing.containers)

  unfoldable pub image_mutator : Mutator E (Deployment V)
  unfolding sync_each with_containers
  image_mutator desired existing = with_containers existing (
      sync_each (λ e d. e.image == d.image) (λ d e. record e { image = d.image }) desired.containers
        existing.containers)

  unfoldable pub init_image_mutator : Mutator E (Deployment V)
  unfolding sync_all
  init_image_mutator desired existing =
      let (changed, containers) =
        sync_all (λ e d. e.image == d.image) (λ d e. record e { image = d.image })
          desired.init_containers existing.init_containers in
      finished changed (record existing { init_containers = containers })

  -- The mounts are left alone if the number of containers differs.
  unfoldable pub volume_mounts_mutator : Mutator E (Deployment V)
  unfolding sync_each with_containers
  volume_mounts_mutator desired existing =
      if nat_beq (length desired.containers) (length existing.containers)
      then with_containers existing (
          sync_each (λ e d. e.volume_mounts == d.volume_mounts)
            (λ d e. record e { volume_mounts = d.volume_mounts }) desired.containers
            existing.containers)
      else finished false existing

  -- `GenericBackendDeploymentMutators`
  unfoldable pub generic_backend_mutators : List (Mutator E (Deployment V))
  generic_backend_mutators =
      annotations_mutator ∷ resources_mutator ∷ affinity_mutator ∷ tolerations_mutator
      ∷ template_labels_mutator ∷ priority_class_mutator ∷ topology_mutator
      ∷ template_annotations_mutator ∷ args_mutator ∷ probes_mutator ∷ image_mutator
      ∷ init_image_mutator ∷ []
