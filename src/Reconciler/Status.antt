-- ===== src/Reconciler/Status.antt =====
-- The status of a resource in memory, which a reconciler changes and then writes with
-- `UpdateResourceStatus` of pkg/reconcilers/base_reconciler.go, beside the state of the cluster.
pub mod Laws
pub mod Quiet
use scale_operator.Prelude.{Option, none, some, nat_eq, string_eq, int_eq}
use scale_operator.Reconciler.Steps.{Result, proceed, requeue, Step, checked, then_requeue}

-- A request that leaves the status in memory alone.
abbrev pub on_cluster : {R S Z : Type 0} → (S → R × S) → Z × S → R × (Z × S)
on_cluster m (st, s) = let (r, s') = m s in (r, (st, s'))

-- `if err := request; err != nil { return reconcile.Result{}, err }`
unfoldable pub request : {S E Z : Type 0} → (S → Option E × S) → Step E (Z × S)
unfolding checked
request m x = checked (on_cluster m x)

module _ {S E Z : Type 0} (update_status : Z → S → Option E × S) where
  -- The write of a status, which stays in memory also where the write fails.
  abbrev pub write : Z → S → Option E × (Z × S)
  write st s = let (err, s') = update_status st s in (err, (st, s'))

  -- A write, and then a requeue if it had no error.
  unfoldable pub write_and_requeue : Z → Step E (Z × S)
  unfolding then_requeue
  write_and_requeue new (st, s) = then_requeue 0 (write new s)

  unfoldable pub write_checked : Z → Step E (Z × S)
  unfolding checked
  write_checked new (st, s) = checked (write new s)

  -- A field that is set if it is nil, with a requeue also if the write fails.
  unfoldable pub set_once : {A : Type 0} → Option A → Z → Step E (Z × S)
  set_once none new (st, s) = let (err, x) = write new s in (requeue 0 err, x)
  set_once (some _) new x = (proceed, x)
