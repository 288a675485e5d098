-- ===== src/Reconciler/Deployment/Laws.antt =====
-- The mutators of a deployment reach a state in which they report no update.
use scale_operator.Prelude.{
  ◌≤◌, ◌<◌, ◌≡◌, refl, ◌↔◌, Bool, true, false, ◌&&◌, List, [], ◌∷◌, arith, length, All, Eq, ◌==◌,
  ==_refl, nat_eq, string_eq, int_eq, subst,
}
use scale_operator.Reconciler.Deployment.{
  Deployment, Container, Outcome, finished, failed, panicked, Mutator, continue_with, mutate_all,
  deployment_mutator, with_containers, sync_each, args_mutator, probes_mutator, image_mutator,
}
use scale_operator.Reconciler.Deployment.Positions.{
  sync_each_short, Agree-sync_each, sync_each-Agree,
}

module _ {E D : Type 0} (desired : D) where
  -- If the option reports no update of the deployment, then it has changed nothing.
  abbrev pub IsHonest : D → Mutator E D → Type 0
  IsHonest e opt = (e' : D) → opt desired e ≡ finished false e' → e' ≡ e

  -- The option has nothing to do.
  abbrev pub IsIdle : D → Mutator E D → Type 0
  IsIdle e opt = opt desired e ≡ finished false e

  continue_with-false :
      (update : Bool) (rest : Bool → D → Outcome E D) (r : Outcome E D) (e' : D)
      → ((b : Bool) (e : D) → rest b e ≡ finished false e' → b ≡ false)
      → continue_with update rest r ≡ finished false e'
      → (update ≡ false) × (e : D) × (r ≡ finished false e) × (rest false e ≡ finished false e')
  unfolding continue_with
  continue_with-false update rest panicked e' law h = cc
  continue_with-false update rest (failed err) e' law h = cc
  continue_with-false true rest (finished changed e) e' law h =
      absurd (ground (arith, law true e h))
  continue_with-false false rest (finished true e) e' law h = absurd (ground (arith, law true e h))
  continue_with-false false rest (finished false e) e' law h = (refl, e, refl, h)

  mutate_all-false :
      (opts : List (Mutator E D)) (update : Bool) (e e' : D)
      → mutate_all desired opts update e ≡ finished false e'
      → update ≡ false
  unfolding mutate_all
  mutate_all-false [] update e e' h = cc
  mutate_all-false (opt ∷ opts) update e e' h =
      (continue_with-false update (mutate_all desired opts) (opt desired e) e'
        (λ b t. mutate_all-false opts b t e') h).0

  mutate_all-IsIdle :
      (opts : List (Mutator E D)) (e e' : D)
      → All (IsHonest e) opts
      → mutate_all desired opts false e ≡ finished false e'
      → (e' ≡ e) × All (IsIdle e) opts
  unfolding mutate_all
  mutate_all-IsIdle [] e e' honest h = (cc, tt)
  mutate_all-IsIdle (opt ∷ opts) e e' (first, others) h =
      let (u, t, runs, rest) =
        continue_with-false false (mutate_all desired opts) (opt desired e) e'
          (λ b t. mutate_all-false opts b t e') h in
      let same = first t runs in
      let (all, idle) =
        mutate_all-IsIdle opts e e' others
          (subst (λ x. mutate_all desired opts false x ≡ finished false e') same rest) in
      (all, (subst (λ x. opt desired e ≡ finished false x) same runs, idle))

  IsIdle-mutate_all :
      (opts : List (Mutator E D)) (e : D)
      → All (IsIdle e) opts
      → mutate_all desired opts false e ≡ finished false e
  unfolding mutate_all continue_with
  IsIdle-mutate_all [] e idle = refl
  IsIdle-mutate_all (opt ∷ opts) e (first, others) = rw first (IsIdle-mutate_all opts e others)

  pub deployment_mutator_lem :
      (opts : List (Mutator E D)) (existing : D)
      → All (IsHonest existing) opts
      → ((e : D) × (deployment_mutator opts existing desired ≡ finished false e))
        ↔ All (IsIdle existing) opts
  unfolding deployment_mutator
  deployment_mutator_lem opts existing honest = (
    (λ r. (mutate_all-IsIdle opts existing r.0 honest r.1).1),
    λ idle. (existing, IsIdle-mutate_all opts existing idle),
  )

module _ {V E : Type 0} ⦃comparable : Eq V⦄ (compare_resources : V → V → Bool) (wrong_length : E)
    (desired existing : Deployment V) where
  -- The mutator finishes, and has nothing to do afterwards.
  abbrev pub Settles : Mutator E (Deployment V) → Type 0
  Settles m =
      (changed : Bool) × (after : Deployment V) × (m desired existing ≡ finished changed after)
      × (m desired after ≡ finished false after)

  positions_settle :
      (same : Container V → Container V → Bool) (copy : Container V → Container V → Container V)
      → ((d e : Container V) → same (copy d e) d ≡ true)
      → length desired.containers ≤ length existing.containers
      → Settles (λ d e.
        with_containers compare_resources wrong_length e
          (sync_each same copy d.containers e.containers))
  unfolding with_containers
  positions_settle same copy copied le =
      let (r, runs, agree, flag, len) =
        sync_each-Agree same copy copied desired.containers existing.containers le in
      let again = Agree-sync_each same copy copied desired.containers r.1 agree in
      (r.0, record existing { containers = r.1 }, rw runs refl, rw again refl)

  abbrev same_args : Container V → Container V → Bool
  same_args e d = e.args == d.args

  abbrev copy_args : Container V → Container V → Container V
  copy_args d e = record e { args = d.args }

  abbrev same_image : Container V → Container V → Bool
  same_image e d = e.image == d.image

  abbrev copy_image : Container V → Container V → Container V
  copy_image d e = record e { image = d.image }

  abbrev same_probes : Container V → Container V → Bool
  same_probes e d = e.liveness_probe == d.liveness_probe && e.readiness_probe == d.readiness_probe

  abbrev copy_probes : Container V → Container V → Container V
  copy_probes d e = record e {
    liveness_probe = d.liveness_probe;
    readiness_probe = d.readiness_probe;
  }

  probes_copied : (d e : Container V) → same_probes (copy_probes d e) d ≡ true
  probes_copied d e = ground (arith, ==_refl d.liveness_probe, ==_refl d.readiness_probe)

  -- The mutators of arguments, probes and images panic if there are fewer containers than desired ones.
  pub container_mutators_panic :
      length existing.containers < length desired.containers
      → (args_mutator compare_resources wrong_length desired existing ≡ panicked)
        × (probes_mutator compare_resources wrong_length desired existing ≡ panicked)
        × (image_mutator compare_resources wrong_length desired existing ≡ panicked)
  unfolding args_mutator probes_mutator image_mutator with_containers
  container_mutators_panic lt =
      let ds = desired.containers in
      let es = existing.containers in
      (
        rw (sync_each_short same_args copy_args (λ d e. ==_refl d.args) ds es lt) refl,
        rw (sync_each_short same_probes copy_probes probes_copied ds es lt) refl,
        rw (sync_each_short same_image copy_image (λ d e. ==_refl d.image) ds es lt) refl,
      )

  -- If there are at least as many containers as desired ones, the mutators of arguments, probes and
  -- images finish, and each finds nothing to do when it is run again.
  pub container_mutators_settle :
      length desired.containers ≤ length existing.containers
      → Settles (args_mutator compare_resources wrong_length)
        × Settles (probes_mutator compare_resources wrong_length)
        × Settles (image_mutator compare_resources wrong_length)
  unfolding args_mutator probes_mutator image_mutator
  container_mutators_settle le = (
    positions_settle same_args copy_args (λ d e. ==_refl d.args) le,
    positions_settle same_probes copy_probes probes_copied le,
    positions_settle same_image copy_image (λ d e. ==_refl d.image) le,
  )
