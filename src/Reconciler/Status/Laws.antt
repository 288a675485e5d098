-- ===== src/Reconciler/Status/Laws.antt =====
-- An invariant of the status, in memory and as it is stored, through the steps.
use scale_operator.Prelude.{
  ◌≡◌, refl, sym, ◌⊎◌, inl, inr, true, Option, none, some, nat_eq, string_eq, is_some, int_eq,
  subst,
}
use scale_operator.Reconciler.Steps.{proceed, Step, checked, then_requeue}
use scale_operator.Reconciler.Steps.Rules.{Triple}
use scale_operator.Reconciler.Status.{
  on_cluster, request, write, write_and_requeue, write_checked, set_once,
}

module _ {S E Z : Type 0} (update_status : Z → S → Option E × S) (stored : S → Z) where
  -- A write of the status stores it or leaves the stored one.
  abbrev pub IsWrite : Type 0
  IsWrite =
      (st : Z) (s : S)
      → (stored (update_status st s).1 ≡ st) ⊎ (stored (update_status st s).1 ≡ stored s)

  -- The invariant holds of both.
  abbrev pub Both : (Z → Type 0) → Z × S → Type 0
  Both C x = C x.0 × C (stored x.1)

  module _ (C : Z → Type 0) (writes : IsWrite) where
    pub write-Both : (new : Z) (s : S) → C new → C (stored s) → Both C (write update_status new s).1
    write-Both new s c old = elim (writes new s) [
      | inl now ↦ (c, subst C (sym now) c)
      | inr kept ↦ (c, subst C (sym kept) old)
    ]

    then_requeue-Both :
        (P : Z × S → Type 0) (r : Option E × (Z × S))
        → Both C r.1
        → Both C (then_requeue 0 r).1 × ((then_requeue 0 r).0 ≡ proceed → P (then_requeue 0 r).1)
    unfolding then_requeue
    then_requeue-Both P (none, x) i = (i, λ h. cc)
    then_requeue-Both P (some err, x) i = (i, λ h. cc)

    -- After a write that requeues no step follows.
    pub write_and_requeue-Both :
        (P : Z × S → Type 0) (new : Z) (x : Z × S)
        → C new
        → Both C x
        → let y = write_and_requeue update_status new x in Both C y.1 × (y.0 ≡ proceed → P y.1)
    unfolding write_and_requeue
    write_and_requeue-Both P new (st, s) c i =
        then_requeue-Both P (write update_status new s) (write-Both new s c i.1)

    checked-Both :
        (r : Option E × (Z × S)) (Q : Z → Type 0)
        → Both C r.1
        → Q r.1.0
        → Both C (checked r).1 × ((checked r).0 ≡ proceed → Q (checked r).1.0)
    unfolding checked
    checked-Both (none, x) Q i q = (i, λ h. q)
    checked-Both (some err, x) Q i q = (i, λ h. cc)

    pub write_checked-Both :
        (new : Z) (x : Z × S) → C new → Both C x → Both C (write_checked update_status new x).1
    unfolding write_checked
    write_checked-Both new (st, s) c i =
        (checked-Both (write update_status new s) (λ _. Unit) (write-Both new s c i.1) tt).0

    pub set_once-Both :
        {A : Type 0} (field : Option A) (new : Z) (x : Z × S)
        → C new
        → Both C x
        → let y = set_once update_status field new x in
          Both C y.1 × (y.0 ≡ proceed → (is_some field ≡ true) × (y.1 ≡ x))
    unfolding set_once
    set_once-Both none new (st, s) c i = (write-Both new s c i.1, λ h. cc)
    set_once-Both (some a) new x c i = (i, λ h. (refl, refl))

    -- A step on the cluster that leaves the stored status alone.
    pub on_cluster_Triple :
        (m : Step E S) (Q : Z → Type 0)
        → ((s : S) → stored (m s).1 ≡ stored s)
        → Triple (Both C) (λ x. Q x.0) (on_cluster m) (λ x. Q x.0)
    on_cluster_Triple m Q keeps (st, s) i q = ((i.0, subst C (sym (keeps s)) i.1), λ h. q)

    pub request_Triple :
        (m : S → Option E × S) (Q : Z → Type 0)
        → ((s : S) → stored (m s).1 ≡ stored s)
        → Triple (Both C) (λ x. Q x.0) (request m) (λ x. Q x.0)
    unfolding request
    request_Triple m Q keeps (st, s) i q =
        checked-Both (on_cluster m (st, s)) Q (i.0, subst C (sym (keeps s)) i.1) q
