-- ===== src/Reconciler/Status/Quiet.antt =====
-- Steps that leave a mark of the status in memory alone.
use scale_operator.Prelude.{◌≡◌, refl, ap, ◌∙◌, Bool, Option, none, some, nat_eq, string_eq, int_eq}
use scale_operator.Reconciler.Steps.{Result, proceed, requeue, fails, panics, Step, ◌>>◌, next}
use scale_operator.Reconciler.Steps.Rules.{checked-state, then_requeue-state}
use scale_operator.Reconciler.Status.{
  on_cluster, request, write, write_and_requeue, write_checked, set_once,
}

module _ {S E Z : Type 0} (mark : Z → Bool) where
  abbrev pub IsQuiet : Step E (Z × S) → Type 0
  IsQuiet m = (x : Z × S) → mark (m x).1.0 ≡ mark x.0

  next-IsQuiet :
      (k : Step E (Z × S)) (r : Result E) (x : Z × S)
      → IsQuiet k
      → mark (next k (r, x)).1.0 ≡ mark x.0
  unfolding next
  next-IsQuiet k proceed x q = q x
  next-IsQuiet k (requeue after err) x q = refl
  next-IsQuiet k (fails err) x q = refl
  next-IsQuiet k panics x q = refl

  pub >>_IsQuiet : (m k : Step E (Z × S)) → IsQuiet m → IsQuiet k → IsQuiet (m >> k)
  unfolding ◌>>◌
  >>_IsQuiet m k qm qk x = next-IsQuiet k (m x).0 (m x).1 qk ∙ qm x

  pub on_cluster-IsQuiet : (m : Step E S) → IsQuiet (on_cluster m)
  on_cluster-IsQuiet m x = refl

  pub request-IsQuiet : (m : S → Option E × S) → IsQuiet (request m)
  unfolding request
  request-IsQuiet m x = ap (λ y. mark y.0) (checked-state (on_cluster m x))

  module _ (update_status : Z → S → Option E × S) where
    pub set_once-IsQuiet :
        {A : Type 0} (field : Option A) (new : Z) (x : Z × S)
        → mark new ≡ mark x.0
        → mark (set_once update_status field new x).1.0 ≡ mark x.0
    unfolding set_once
    set_once-IsQuiet none new x e = e
    set_once-IsQuiet (some a) new x e = refl

    pub write_checked-IsQuiet :
        (new : Z) (x : Z × S) → mark (write_checked update_status new x).1.0 ≡ mark new
    unfolding write_checked
    write_checked-IsQuiet new x = ap (λ y. mark y.0) (checked-state (write update_status new x.1))

    pub write_and_requeue-IsQuiet :
        (new : Z) (x : Z × S) → mark (write_and_requeue update_status new x).1.0 ≡ mark new
    unfolding write_and_requeue
    write_and_requeue-IsQuiet new x =
        ap (λ y. mark y.0) (then_requeue-state 0 (write update_status new x.1)).0
