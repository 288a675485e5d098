-- ===== src/Reconciler/Deployment/Env.antt =====
-- `DeploymentEnvVarReconciler` of pkg/reconcilers/deployment.go: one environment variable of all
-- containers, by `EnvVarReconciler`.
use scale_operator.Prelude.{
  String, ◌≡◌, refl, Bool, true, false, not, ◌||◌, Option, none, some, List, [], ◌∷◌, arith,
  nat_beq, if◌then◌else◌, length, All, Eq, ◌==◌, nat_eq, string_eq, int_eq,
}
use scale_operator.Helper.EnvVars.Laws.{env_var, IsDistinct}
use scale_operator.Reconciler.Deployment.Weak.{reconcile_name, add_mounts, reconcile_name-env_var}

-- The variables of a pod's init containers and of its containers.
pub record PodEnvs (V : Type 0) : Type 0 where
  pub init_envs : List (List V)
  pub envs : List (List V)

module _ {V : Type 0} ⦃comparable : Eq V⦄ (name : V → String) where
  -- The loop over the existing containers; a desired one that is missing panics.
  unfoldable pub each_env : String → List (List V) → List (List V) → Option (Bool × List (List V))
  unfolding reconcile_name add_mounts
  each_env variable desired [] = some (false, [])
  each_env variable [] (e ∷ existing) = none
  each_env variable (d ∷ desired) (e ∷ existing) =
      add_mounts name (reconcile_name name d e variable) (each_env variable desired existing)

  unfoldable pub both_envs :
      PodEnvs V
      → Option (Bool × List (List V))
      → Option (Bool × List (List V))
      → Option (Bool × PodEnvs V)
  both_envs existing none envs = none
  both_envs existing (some inits) none = none
  both_envs existing (some inits) (some envs) =
      some (inits.0 || envs.0, record existing { init_envs = inits.1; envs = envs.1 })

  unfoldable pub env_var_of_deployment : String → PodEnvs V → PodEnvs V → Option (Bool × PodEnvs V)
  unfolding each_env both_envs
  env_var_of_deployment variable desired existing =
      if not (nat_beq (length desired.envs) (length existing.envs))
      then some (false, existing)
      else if not (nat_beq (length desired.init_envs) (length existing.init_envs))
      then some (false, existing)
      else both_envs existing (each_env variable desired.init_envs existing.init_envs)
          (each_env variable desired.envs existing.envs)

  -- At every position the variable is as desired, and every other variable as before.
  abbrev pub EachReconciled : String → List (List V) → List (List V) → List (List V) → Type 0
  EachReconciled x (d ∷ desired) (e ∷ existing) (r ∷ results) =
      ((y : String) → env_var name r y ≡ (if x == y then env_var name d x else env_var name e y))
      × EachReconciled x desired existing results
  EachReconciled x [] [] [] = Unit
  EachReconciled x [] [] (r ∷ results) = ⊥
  EachReconciled x [] (e ∷ existing) results = ⊥
  EachReconciled x (d ∷ desired) [] results = ⊥
  EachReconciled x (d ∷ desired) (e ∷ existing) [] = ⊥

  each_env-EachReconciled :
      (x : String) (desired existing : List (List V))
      → length desired ≡ length existing
      → All (IsDistinct name) existing
      → (r : Bool × List (List V)) × (each_env x desired existing ≡ some r)
        × EachReconciled x desired existing r.1
  unfolding each_env add_mounts
  each_env-EachReconciled x [] [] len u = ((false, []), refl, tt)
  each_env-EachReconciled x (d ∷ desired) [] len u = absurd (ground (arith, len))
  each_env-EachReconciled x [] (e ∷ existing) len u = absurd (ground (arith, len))
  each_env-EachReconciled x (d ∷ desired) (e ∷ existing) len (first, others) =
      let (r, runs, each) =
        each_env-EachReconciled x desired existing (ground (arith, len)) others in
      let one = reconcile_name name d e x in
      (
        (one.0 || r.0, one.1 ∷ r.1),
        rw runs refl,
        ((λ y. reconcile_name-env_var name d e x y first), each),
      )

  -- If there are as many containers and init containers as desired ones, and none names a variable
  -- twice, then no index is out of range, and in every container the variable is as desired, or absent
  -- if it is not desired, and every other variable is as before.
  pub env_var_of_deployment_lem :
      (x : String) (desired existing : PodEnvs V)
      → length desired.init_envs ≡ length existing.init_envs
      → length desired.envs ≡ length existing.envs
      → All (IsDistinct name) existing.init_envs
      → All (IsDistinct name) existing.envs
      → (r : Bool × PodEnvs V) × (env_var_of_deployment x desired existing ≡ some r)
        × EachReconciled x desired.init_envs existing.init_envs r.1.init_envs
        × EachReconciled x desired.envs existing.envs r.1.envs
  unfolding env_var_of_deployment both_envs
  env_var_of_deployment_lem x desired existing len len' u u' =
      let (inits, runs, each) =
        each_env-EachReconciled x desired.init_envs existing.init_envs len u in
      let (envs, runs', each') = each_env-EachReconciled x desired.envs existing.envs len' u' in
      let same : nat_beq (length desired.init_envs) (length existing.init_envs) ≡ true =
        ground arith in
      let same' : nat_beq (length desired.envs) (length existing.envs) ≡ true = ground arith in
      (
        (inits.0 || envs.0, record existing { init_envs = inits.1; envs = envs.1 }),
        rw same (rw same' (rw runs (rw runs' refl))),
        each,
        each',
      )
