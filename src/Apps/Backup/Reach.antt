-- ===== src/Apps/Backup/Reach.antt =====
-- What always holds of a backup's status, through any interleaving of runs with other changes of the
-- cluster.
use scale_operator.Prelude.{
  String, ◌≡◌, refl, sym, ◌⊎◌, inl, inr, Option, none, some, List, [], ◌∷◌, Bool-cases, nat_eq,
  string_eq, int_eq, subst,
}
use scale_operator.Reconciler.Jobs.{Kube}
use scale_operator.Reconciler.Jobs.Frame.{IsFrame}
use scale_operator.Reconciler.Status.Laws.{IsWrite}
use scale_operator.Apps.Backup.{
  Status, backup_completed, Destination, Plan, Spec, OptionErrors, plan_of, validated, options_for,
  options, reconcile_options, run,
}
use scale_operator.Apps.Backup.Invariant.{IsConsistent, Inv}
use scale_operator.Apps.Backup.Sequence.{reconcile-Keeps}

-- The options have a plan only with a destination.
abbrev HasDestination : {E O : Type 0} → E ⊎ Plan O → Type 0
HasDestination (inl err) = Unit
HasDestination {O = O} (inr plan) = (d : Destination O) × (plan.destination ≡ some d)

validated-HasDestination :
    {E O : Type 0} (plan : Plan O) (d : Destination O) (claim invalid : Option E)
    → plan.destination ≡ some d
    → HasDestination (validated plan claim invalid)
unfolding validated
validated-HasDestination plan d (some err) whole e = tt
validated-HasDestination plan d none (some err) e = tt
validated-HasDestination plan d none none e = (d, e)

options_for-HasDestination :
    {E O : Type 0} (errors : OptionErrors E O) (invalid : Plan O → Option E)
    (d : Option (Destination O)) (plan : Plan O)
    → plan.destination ≡ d
    → HasDestination (options_for errors invalid d plan)
unfolding options_for
options_for-HasDestination errors invalid none plan e = tt
options_for-HasDestination errors invalid (some d) plan e =
    validated-HasDestination plan d (errors.invalid_claim d) (invalid plan) e

options-HasDestination :
    {E O : Type 0} (errors : OptionErrors E O) (invalid : Plan O → Option E) (spec : Spec O)
    (names : E ⊎ List String)
    → HasDestination (options errors invalid spec names)
unfolding options plan_of
options-HasDestination errors invalid spec (inl err) = tt
options-HasDestination errors invalid spec (inr []) = tt
options-HasDestination errors invalid spec (inr (name ∷ [])) =
    options_for-HasDestination errors invalid spec.destination (plan_of spec name) refl
options-HasDestination errors invalid spec (inr (_ ∷ _ ∷ _)) = tt

module _ {S E O T : Type 0} (kube : Kube S E O) (update_status : Status T → S → Option E × S)
    (clock : S → T) (errors : OptionErrors E O) (invalid : Plan O → Option E)
    (list : S → E ⊎ List String) (stored : S → Status T) where
  -- A run begins with the stored status; anything else may happen between two runs that leaves the
  -- stored status alone, as the progress and the removal of jobs do.
  pub data Move (spec : Spec O) (s : S) (s' : S) : Type 0 where
    run_move :
        s' ≡ (run kube update_status clock errors invalid list spec (stored s, s)).1.1
        → Move spec s s'
    other_move : stored s' ≡ stored s → Move spec s s'

  pub data Reach (spec : Spec O) (s : S) : S → Type 0 where
    here : Reach spec s s
    moved : {t u : S} → Reach spec s t → Move spec t u → Reach spec s u

  module _ (writes : IsWrite update_status stored) (frame : IsFrame kube stored) where
    reconcile_options_Keeps :
        (o : E ⊎ Plan O) (x : Status T × S)
        → HasDestination o
        → Inv kube update_status clock stored writes frame x
        → Inv kube update_status clock stored writes frame
            (reconcile_options kube update_status clock errors invalid list o x).1
    unfolding reconcile_options
    reconcile_options_Keeps (inl err) x h i = i
    reconcile_options_Keeps (inr plan) x (d, e) i =
        reconcile-Keeps kube update_status clock stored writes frame plan d e x i

    run_Keeps :
        (spec : Spec O) (x : Status T × S)
        → Inv kube update_status clock stored writes frame x
        → Inv kube update_status clock stored writes frame
            (run kube update_status clock errors invalid list spec x).1
    unfolding run
    run_Keeps spec x i = elim (Bool-cases (backup_completed x.0)) [
      | inl done ↦ rw done i
      | inr pending ↦ rw pending (
          reconcile_options_Keeps (options errors invalid spec (list x.1)) x
            (options-HasDestination errors invalid spec (list x.1)) i)
    ]

    Move-IsConsistent :
        (spec : Spec O) (s s' : S)
        → Move spec s s'
        → IsConsistent (stored s)
        → IsConsistent (stored s')
    Move-IsConsistent spec s s' (run_move e) c =
        subst (λ t. IsConsistent (stored t)) (sym e) (run_Keeps spec (stored s, s) (c, c)).1
    Move-IsConsistent spec s s' (other_move e) c = subst IsConsistent (sym e) c

    -- Through any interleaving of runs with changes of the cluster that leave the status alone, and
    -- with writes of the status that may fail, a stored status that is complete has completed its main
    -- steps and has its completion time, and one that has completed its main steps has the start time,
    -- the name of the API manager and that of the claim.
    pub Reach-IsConsistent :
        (spec : Spec O) (s t : S)
        → Reach spec s t
        → IsConsistent (stored s)
        → IsConsistent (stored t)
    Reach-IsConsistent spec s t here c = c
    Reach-IsConsistent spec s t (moved {t = v} r m) c =
        Move-IsConsistent spec v t m (Reach-IsConsistent spec s v r c)
