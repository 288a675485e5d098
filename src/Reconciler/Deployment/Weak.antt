-- ===== src/Reconciler/Deployment/Weak.antt =====
-- The weak mutators of pkg/reconcilers/deployment.go, which reconcile volumes and volume mounts by their
-- names. `FindVolumeByName` and `FindVolumeMountByName` have the loop of `FindEnvVar`, and the branches
-- for a name are those of `EnvVarReconciler`.
use scale_operator.Prelude.{
  both_false, ◌<◌, String, ◌≡◌, refl, ◌∙◌, ◌≢◌, ◌↔◌, ◌⊎◌, inl, inr, Bool, true, false, ◌||◌, Option,
  none, some, List, [], ◌∷◌, arith, nat_beq, if◌then◌else◌, Bool-cases, length, Eq, ◌==◌, ==_iff,
  nat_eq, string_eq, contains, int_eq,
}
use scale_operator.Helper.EnvVars.{find_env_var, reconcile_indices}
use scale_operator.Helper.EnvVars.Laws.{
  env_var, IsDistinct, find_env_var-Located, reconcile_lookup, reconcile_unchanged,
}
use scale_operator.Helper.EnvVars.Distinct.{reconcile_indices-IsDistinct}

-- The volume mounts of a pod's init containers and of its containers.
pub record PodMounts (V : Type 0) : Type 0 where
  pub init_mounts : List (List V)
  pub mounts : List (List V)

module _ {V : Type 0} ⦃comparable : Eq V⦄ (name : V → String) where
  unfoldable pub reconcile_name : List V → List V → String → Bool × List V
  unfolding reconcile_indices find_env_var
  reconcile_name desired existing volume =
      reconcile_indices name desired existing (find_env_var name desired volume)
        (find_env_var name existing volume)

  -- `WeakDeploymentVolumesMutator` and `weakVolumeMountMutator` on the two slices.
  unfoldable pub weak_mutator : List String → List V → List V → Bool × List V
  unfolding reconcile_name
  weak_mutator [] desired existing = (false, existing)
  weak_mutator (volume ∷ volumes) desired existing =
      let one = reconcile_name desired existing volume in
      let rest = weak_mutator volumes desired one.1 in (one.0 || rest.0, rest.1)

  -- The containers are walked together, and a missing one panics.
  unfoldable pub add_mounts :
      Bool × List V → Option (Bool × List (List V)) → Option (Bool × List (List V))
  add_mounts one none = none
  add_mounts one (some rest) = some (one.0 || rest.0, one.1 ∷ rest.1)

  unfoldable pub weak_containers :
      List String → List (List V) → List (List V) → Option (Bool × List (List V))
  unfolding weak_mutator add_mounts
  weak_containers volumes [] existing = some (false, existing)
  weak_containers volumes (d ∷ desired) [] = none
  weak_containers volumes (d ∷ desired) (e ∷ existing) =
      add_mounts (weak_mutator volumes d e) (weak_containers volumes desired existing)

  -- `WeakDeploymentInitContainerVolumeMountsMutator`
  unfoldable pub weak_init_mounts :
      List String → PodMounts V → PodMounts V → Option (Bool × PodMounts V)
  unfolding weak_containers
  weak_init_mounts volumes desired existing =
      if nat_beq (length desired.init_mounts) (length existing.init_mounts)
      then elim (weak_containers volumes desired.init_mounts existing.init_mounts) [
        | none ↦ none
        | some r ↦ some (r.0, record existing { init_mounts = r.1 })
      ]
      else some (false, existing)

  -- `WeakDeploymentContainerVolumeMountsMutator`, which compares the numbers of init containers too.
  unfoldable pub weak_container_mounts :
      List String → PodMounts V → PodMounts V → Option (Bool × PodMounts V)
  unfolding weak_containers
  weak_container_mounts volumes desired existing =
      if nat_beq (length desired.init_mounts) (length existing.init_mounts)
      then elim (weak_containers volumes desired.mounts existing.mounts) [
        | none ↦ none
        | some r ↦ some (r.0, record existing { mounts = r.1 })
      ]
      else some (false, existing)

  pub reconcile_name-env_var :
      (desired existing : List V) (x y : String)
      → IsDistinct name existing
      → env_var name (reconcile_name desired existing x).1 y
        ≡ (if x == y then env_var name desired x else env_var name existing y)
  unfolding reconcile_name
  reconcile_name-env_var desired existing x y u =
      reconcile_lookup name desired existing x y _ _ u refl refl
        (find_env_var-Located name desired x) (find_env_var-Located name existing x)

  reconcile_name-IsDistinct :
      (desired existing : List V) (x : String)
      → IsDistinct name existing
      → IsDistinct name (reconcile_name desired existing x).1
  unfolding reconcile_name
  reconcile_name-IsDistinct desired existing x u =
      reconcile_indices-IsDistinct name desired existing x _ _ u refl
        (find_env_var-Located name desired x) (find_env_var-Located name existing x)

  weak_mutator_law :
      (volumes : List String) (desired existing : List V)
      → IsDistinct name existing
      → let r = weak_mutator volumes desired existing in
        ((y : String)
          → env_var name r.1 y
            ≡ (if contains volumes y then env_var name desired y else env_var name existing y))
        × IsDistinct name r.1
        × (r.0 ≡ false → r.1 ≡ existing)
  unfolding weak_mutator
  weak_mutator_law [] desired existing u = ((λ y. refl), u, λ h. refl)
  weak_mutator_law (x ∷ volumes) desired existing u =
      let one = reconcile_name desired existing x in
      let u' = reconcile_name-IsDistinct desired existing x u in
      let (looked, distinct, kept) = weak_mutator_law volumes desired one.1 u' in
      (
        (λ y. ground (
          arith,
          looked y,
          reconcile_name-env_var desired existing x y u,
          ==_iff x y,
          ==_iff y x,
        )),
        distinct,
        λ h.
            let (first, second) = both_false one.0 (weak_mutator volumes desired one.1).0 h in
            kept second ∙ reconcile_unchanged name desired existing _ _ first,
      )

  -- On a list that names nothing twice, every listed name gets what the desired list has for it, or is
  -- removed if that has none, and every other name keeps what it had. Nothing is named twice afterwards,
  -- and an update is reported unless the list is unchanged.
  pub weak_mutator_lem :
      (volumes : List String) (desired existing : List V)
      → IsDistinct name existing
      → let r = weak_mutator volumes desired existing in
        ((y : String)
          → env_var name r.1 y
            ≡ (if contains volumes y then env_var name desired y else env_var name existing y))
        × IsDistinct name r.1
        × ((r.0 ≡ true) ⊎ (r.1 ≡ existing))
  weak_mutator_lem volumes desired existing u =
      let (looked, distinct, kept) = weak_mutator_law volumes desired existing u in
      (
        looked,
        distinct,
        elim (Bool-cases (weak_mutator volumes desired existing).0) [
          | inl updated ↦ inl updated
          | inr same ↦ inr (kept same)
        ],
      )

  weak_containers_none :
      (one : Bool × List V) (rest : Option (Bool × List (List V)))
      → add_mounts one rest ≡ none
      → rest ≡ none
  unfolding add_mounts
  weak_containers_none one none e = refl
  weak_containers_none one (some r) e = absurd (ground (arith, e))

  weak_containers_short :
      (volumes : List String) (desired existing : List (List V))
      → length existing < length desired
      → weak_containers volumes desired existing ≡ none
  unfolding weak_containers add_mounts
  weak_containers_short volumes [] existing lt = absurd (ground arith)
  weak_containers_short volumes (d ∷ desired) [] lt = refl
  weak_containers_short volumes (d ∷ desired) (e ∷ existing) lt =
      rw (weak_containers_short volumes desired existing (ground arith)) refl

  long_enough :
      (volumes : List String) (desired existing : List (List V))
      → weak_containers volumes desired existing ≡ none
      → length existing < length desired
  unfolding weak_containers
  long_enough volumes [] existing h = absurd (ground (arith, h))
  long_enough volumes (d ∷ desired) [] h = ground arith
  long_enough volumes (d ∷ desired) (e ∷ existing) h = ground (
    arith,
    long_enough volumes desired existing (
        weak_containers_none (weak_mutator volumes d e) (weak_containers volumes desired existing)
          h),
  )

  -- The mutator of the containers' mounts panics exactly when desired and existing have equally many init
  -- containers and there are fewer containers than desired ones. If the numbers of init containers differ,
  -- it reports no update and changes nothing.
  pub weak_container_mounts_lem :
      (volumes : List String) (desired existing : PodMounts V)
      → ((weak_container_mounts volumes desired existing ≡ none) ↔ (
          (length desired.init_mounts ≡ length existing.init_mounts)
          × (length existing.mounts < length desired.mounts)))
        × (length desired.init_mounts ≢ length existing.init_mounts
            → weak_container_mounts volumes desired existing ≡ some (false, existing))
  unfolding weak_container_mounts
  weak_container_mounts_lem volumes desired existing =
      elim (Bool-cases (nat_beq (length desired.init_mounts) (length existing.init_mounts))) [
        | inl same ↦ rw same (
          (
            λ h. (
              ground (arith, same),
              long_enough volumes desired.mounts existing.mounts
                  (panicked (weak_containers volumes desired.mounts existing.mounts) h),
            ),
            λ h. rw (weak_containers_short volumes desired.mounts existing.mounts h.1) refl,
          ),
          λ other. absurd (ground (arith, same, other)),
        )
        | inr differ ↦ rw differ (
          (λ h. absurd (ground (arith, h)), λ h. absurd (ground (arith, differ, h.0))),
          λ _. refl,
        )
      ]
    where
      panicked :
          (o : Option (Bool × List (List V)))
          → (elim o as (λ _. Option (Bool × PodMounts V)) [
            | none ↦ none
            | some r ↦ some (r.0, record existing { mounts = r.1 })
          ])
            ≡ none
          → o ≡ none
      panicked none h = refl
      panicked (some r) h = absurd (ground (arith, h))
