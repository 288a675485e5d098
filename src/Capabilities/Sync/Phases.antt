-- ===== src/Capabilities/Sync/Phases.antt =====
-- What each part of a synchronisation leaves under a key.
use scale_operator.Prelude.{
  String, ◌≡◌, refl, sym, ap, ◌∙◌, inl, inr, Bool, true, false, Option, none, some, List, [], ◌∷◌,
  arith, if◌then◌else◌, Bool-cases, ◌==◌, ==_iff, ==_refl, nat_eq, string_eq, Dict, lookup, int_eq,
  subst,
}
use scale_operator.Iteration.{IsMap, other_key, fresh_key}
use scale_operator.Capabilities.Params.{Params}
use scale_operator.Capabilities.Sync.{
  Access, Kind, then_unless_failed, send_changes, reconcile_matched, create_new,
  process_not_desired,
}
use scale_operator.Capabilities.Sync.Items.{find}
use scale_operator.Capabilities.Sync.Store.{IsStore, IsSettling}

pub then_unless_failed-none :
    {X E : Type 0} (r : Option E × X) (rest : X → Option E × X) (x' : X)
    → then_unless_failed r rest ≡ (none, x')
    → (r ≡ (none, r.1)) × (rest r.1 ≡ (none, x'))
unfolding then_unless_failed
then_unless_failed-none (none, x) rest x' h = (refl, h)
then_unless_failed-none (some err, x) rest x' h = cc

module _ {I D : Type 0} (kind : Kind I D) where
  -- An item that has nothing to change.
  abbrev pub HasFit : D → Option I → Type 0
  HasFit spec none = ⊥
  HasFit spec (some item) = kind.changes spec item ≡ []

  -- What a part leaves under a key that it has a spec for, and under another.
  abbrev pub Settled : Option D → Option I → Option I → Type 0
  Settled none before after = after ≡ before
  Settled (some spec) before after = HasFit spec after

module _ {I D : Type 0} where
  abbrev pub spec_of : Option (I × D) → Option D
  spec_of none = none
  spec_of (some (item, spec)) = some spec

  spec_of_if :
      (c : Bool) (item : I) (spec : D) (o : Option (I × D))
      → spec_of (if c then some (item, spec) else o) ≡ (if c then some spec else spec_of o)
  spec_of_if true item spec o = refl
  spec_of_if false item spec o = refl

module _ {I : Type 0} where
  -- What is left of a key: nothing if it is one that is not desired.
  abbrev pub Left : Option I → Option I → Option I → Type 0
  Left none before after = after ≡ before
  Left (some item) before after = after ≡ none

module _ {X E I D : Type 0} (access : Access X E I) (kind : Kind I D) (items : X → List I)
    (IsCoherent : X → Type 0) (applied : Params → I → I) (IsMade : Params → I → Type 0)
    (store : IsStore access kind items IsCoherent applied IsMade)
    (settling : IsSettling kind applied IsMade) where
  abbrev at : String → X → Option I
  at key x = find kind key (items x)

  -- A step that sets one key and keeps the others.
  abbrev IsAssigned : String → D → X → X → Type 0
  IsAssigned name spec x x' =
      IsCoherent x'
      × HasFit kind spec (at name x')
      × ((key : String) → (name == key) ≡ false → at key x' ≡ at key x)

  send_changes-IsAssigned :
      (name : String) (item : I) (spec : D) (params : Params) (x x' : X)
      → kind.changes spec item ≡ params
      → IsCoherent x
      → at name x ≡ some item
      → send_changes access kind (kind.id item) params x ≡ (none, x')
      → IsAssigned name spec x x'
  unfolding send_changes
  send_changes-IsAssigned name item spec [] x x' e ok there h =
      let same : x' ≡ x = ground (arith, h) in
      subst (IsAssigned name spec x) (sym same)
        (ok, subst (HasFit kind spec) (sym there) e, λ key other. refl)
  send_changes-IsAssigned name item spec (p ∷ params) x x' e ok there h =
      let (ok', all) = store.updated x x' name item (p ∷ params) ok there h in
      let here : at name x' ≡ some (applied (p ∷ params) item) =
        all name ∙ rw (==_refl name) refl in
      let fits : kind.changes spec (applied (p ∷ params) item) ≡ [] =
        subst (λ ps. kind.changes spec (applied ps item) ≡ []) e
          (settling.changes_applied spec item) in
      (ok', subst (HasFit kind spec) (sym here) fits, λ key other. all key ∙ rw other refl)

  create-IsAssigned :
      (name : String) (spec : D) (x x' : X)
      → IsCoherent x
      → at name x ≡ none
      → access.create (kind.new_params name spec) x ≡ (none, x')
      → IsAssigned name spec x x'
  create-IsAssigned name spec x x' ok absent h =
      let (ok', (item, here, made), others) =
        store.created x x' name (kind.new_params name spec) ok (settling.new_name name spec) absent
          h in
      (ok', subst (HasFit kind spec) (sym here) (settling.changes_made name spec item made), others)

  set_step :
      (name key : String) (spec : D) (rest : Option D) (x y x' : X)
      → IsAssigned name spec x y
      → ((name == key) ≡ true → rest ≡ none)
      → Settled kind rest (at key y) (at key x')
      → Settled kind (if name == key then some spec else rest) (at key x) (at key x')
  set_step name key spec rest x y x' (ok, fit, others) fresh settled =
      elim (Bool-cases (name == key)) [
        | inl same ↦
            let eq = (==_iff name key).0 same in
            let kept = subst (λ o. Settled kind o (at key y) (at key x')) (fresh same) settled in
            rw same
              (subst (HasFit kind spec) (sym kept) (subst (λ k. HasFit kind spec (at k y)) eq fit))
        | inr other ↦
            rw other (subst (λ o. Settled kind rest o (at key x')) (others key other) settled)
      ]

  pub reconcile_matched_law :
      (matched : Dict String (I × D)) (x x' : X)
      → IsMap matched
      → IsCoherent x
      → ((key : String) (v : I × D) → lookup key matched ≡ some v → at key x ≡ some v.0)
      → reconcile_matched access kind matched x ≡ (none, x')
      → IsCoherent x'
        × ((key : String) → Settled kind (spec_of (lookup key matched)) (at key x) (at key x'))
  unfolding reconcile_matched
  reconcile_matched_law [] x x' is_map ok there h =
      let same : x' ≡ x = ground (arith, h) in
      (subst IsCoherent (sym same) ok, λ key. ap (at key) same)
  reconcile_matched_law ((name, (item, spec)) ∷ matched) x x' (fresh, is_map) ok there h =
      let r = send_changes access kind (kind.id item) (kind.changes spec item) x in
      let (first, second) =
        then_unless_failed-none r (reconcile_matched access kind matched) x' h in
      let set =
        send_changes-IsAssigned name item spec (kind.changes spec item) x r.1 refl ok
          (there name (item, spec) (rw (==_refl name) refl)) first in
      let (ok', settled) =
        reconcile_matched_law matched r.1 x' is_map set.0
          (λ key v e.
            let other = other_key name key matched v fresh e in
            set.2 key other ∙ there key v (rw other e))
          second in
      (
        ok',
        λ key.
            subst (λ o. Settled kind o (at key x) (at key x'))
              (sym (spec_of_if (name == key) item spec (lookup key matched)))
              (set_step name key spec (spec_of (lookup key matched)) x r.1 x' set
                (λ same. ap spec_of (fresh_key name key matched fresh same)) (settled key)),
      )

  pub create_new_law :
      (desired : Dict String D) (x x' : X)
      → IsMap desired
      → IsCoherent x
      → ((key : String) (spec : D) → lookup key desired ≡ some spec → at key x ≡ none)
      → create_new access kind desired x ≡ (none, x')
      → IsCoherent x' × ((key : String) → Settled kind (lookup key desired) (at key x) (at key x'))
  unfolding create_new
  create_new_law [] x x' is_map ok absent h =
      let same : x' ≡ x = ground (arith, h) in
      (subst IsCoherent (sym same) ok, λ key. ap (at key) same)
  create_new_law ((name, spec) ∷ desired) x x' (fresh, is_map) ok absent h =
      let r = access.create (kind.new_params name spec) x in
      let (first, second) = then_unless_failed-none r (create_new access kind desired) x' h in
      let set =
        create-IsAssigned name spec x r.1 ok (absent name spec (rw (==_refl name) refl)) first in
      let (ok', settled) =
        create_new_law desired r.1 x' is_map set.0
          (λ key v e.
            let other = other_key name key desired v fresh e in
            set.2 key other ∙ absent key v (rw other e))
          second in
      (
        ok',
        λ key.
            set_step name key spec (lookup key desired) x r.1 x' set
              (fresh_key name key desired fresh) (settled key),
      )

  pub process_not_desired_law :
      (removed : Dict String I) (x x' : X)
      → IsMap removed
      → IsCoherent x
      → ((key : String) (item : I) → lookup key removed ≡ some item → at key x ≡ some item)
      → process_not_desired access kind removed x ≡ (none, x')
      → IsCoherent x' × ((key : String) → Left (lookup key removed) (at key x) (at key x'))
  unfolding process_not_desired
  process_not_desired_law [] x x' is_map ok there h =
      let same : x' ≡ x = ground (arith, h) in
      (subst IsCoherent (sym same) ok, λ key. ap (at key) same)
  process_not_desired_law ((name, item) ∷ removed) x x' (fresh, is_map) ok there h =
      let r = access.delete (kind.id item) x in
      let (first, second) =
        then_unless_failed-none r (process_not_desired access kind removed) x' h in
      let (ok1, gone) =
        store.deleted x r.1 name item ok (there name item (rw (==_refl name) refl)) first in
      let (ok', left) =
        process_not_desired_law removed r.1 x' is_map ok1
          (λ key v e.
            let other = other_key name key removed v fresh e in
            gone key ∙ (rw other refl ∙ there key v (rw other e)))
          second in
      (
        ok',
        λ key. elim (Bool-cases (name == key)) [
          | inl same ↦
              let kept =
                subst (λ o. Left o (at key r.1) (at key x')) (fresh_key name key removed fresh same)
                  (left key) in
              rw same (kept ∙ (gone key ∙ rw same refl))
          | inr other ↦ rw other (
              subst (λ o. Left (lookup key removed) o (at key x')) (gone key ∙ rw other refl)
                (left key))
        ],
      )
