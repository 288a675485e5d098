-- ===== src/Capabilities/Sync/Converges.antt =====
-- What a synchronisation leaves, and that the next one has nothing to do.
use scale_operator.Prelude.{
  String, ◌≡◌, refl, sym, ap, ◌∙◌, ◌⊎◌, inl, inr, Option, none, some, List, [], ◌∷◌, arith, ==_refl,
  nat_eq, string_eq, Dict, lookup, int_eq, subst,
}
use scale_operator.Iteration.{IsMap, IsReordering, other_key}
use scale_operator.Capabilities.Params.{Params}
use scale_operator.Capabilities.Sync.{
  sync, sync_read, send_changes, Access, Kind, then_unless_failed, reconcile_matched, create_new,
  process_not_desired, matched_map, desired_new_map, not_desired_map, sync_listed,
}
use scale_operator.Capabilities.Sync.Items.{find}
use scale_operator.Capabilities.Sync.Maps.{
  matched_map-IsMap, desired_new_map-IsMap, not_desired_map-IsMap, matched_of, new_of, removed_of,
  lookup-matched_map, lookup-desired_new_map, lookup-not_desired_map,
}
use scale_operator.Capabilities.Sync.Phases.{
  then_unless_failed-none, HasFit, Settled, spec_of, Left, reconcile_matched_law, create_new_law,
  process_not_desired_law,
}
use scale_operator.Capabilities.Sync.Store.{IsStore, IsSettling}

abbrev get_or : {V : Type 0} → V → Option V → V
get_or v none = v
get_or v (some w) = w

module _ {I D : Type 0} (kind : Kind I D) where
  -- An item with nothing to change under a key that is desired, and none under another.
  abbrev pub IsAsDesired : Option D → Option I → Type 0
  IsAsDesired none o = o ≡ none
  IsAsDesired (some spec) none = ⊥
  IsAsDesired (some spec) (some item) = kind.changes spec item ≡ []

  -- No request is left for a key.
  abbrev HasNoWork : Option D → Option I → Type 0
  HasNoWork d i =
      (new_of d i ≡ none)
      × (removed_of d i ≡ none)
      × ((v : I × D) → matched_of d i ≡ some v → kind.changes v.1 v.0 ≡ [])

  IsAsDesired-HasNoWork : (d : Option D) (i : Option I) → IsAsDesired d i → HasNoWork d i
  IsAsDesired-HasNoWork none none h = (refl, refl, λ v e. absurd (ground (arith, e)))
  IsAsDesired-HasNoWork none (some item) h = absurd (ground (arith, h))
  IsAsDesired-HasNoWork (some spec) none h = absurd h
  IsAsDesired-HasNoWork (some spec) (some item) h =
      (refl, refl, λ v e. subst (λ w. kind.changes w.1 w.0 ≡ []) (ap (get_or (item, spec)) e) h)

  key_law :
      (d : Option D) (i a b c : Option I)
      → Settled kind (spec_of (matched_of d i)) i a
      → Settled kind (new_of d i) a b
      → Left (removed_of d i) b c
      → IsAsDesired d c
  key_law none none a b c h1 h2 h3 = h3 ∙ h2 ∙ h1
  key_law none (some item) a b c h1 h2 h3 = h3
  key_law (some spec) none a b c h1 h2 h3 = subst (HasFit kind spec) (sym h3) h2
  key_law (some spec) (some item) a b c h1 h2 h3 = subst (HasFit kind spec) (sym (h3 ∙ h2)) h1

  removed_there :
      (d : Option D) (i a b : Option I) (item : I)
      → removed_of d i ≡ some item
      → Settled kind (spec_of (matched_of d i)) i a
      → Settled kind (new_of d i) a b
      → b ≡ some item
  removed_there none none a b item e h1 h2 = absurd (ground (arith, e))
  removed_there none (some it) a b item e h1 h2 = h2 ∙ h1 ∙ e
  removed_there (some spec) i a b item e h1 h2 = absurd (ground (arith, e))

  new_absent :
      (d : Option D) (i a : Option I) (spec : D)
      → new_of d i ≡ some spec
      → Settled kind (spec_of (matched_of d i)) i a
      → a ≡ none
  new_absent none i a spec e h = absurd (ground (arith, e))
  new_absent (some s) none a spec e h = h
  new_absent (some s) (some item) a spec e h = absurd (ground (arith, e))

  matched_there : (d : Option D) (i : Option I) (v : I × D) → matched_of d i ≡ some v → i ≡ some v.0
  matched_there none i v e = absurd (ground (arith, e))
  matched_there (some s) none v e = absurd (ground (arith, e))
  matched_there (some s) (some item) v e =
      ap (λ (o : Option (I × D)). some (get_or (item, s) o).0) e

module _ {X E I D : Type 0} (access : Access X E I) (kind : Kind I D) (items : X → List I)
    (IsCoherent : X → Type 0) (applied : Params → I → I) (IsMade : Params → I → Type 0)
    (store : IsStore access kind items IsCoherent applied IsMade)
    (settling : IsSettling kind applied IsMade)
    (reorder : (V : Type 0) → Dict String V → Dict String V) (reordering : IsReordering reorder)
    (desired : Dict String D) (is_map : IsMap desired) where
  module _ (x : X) (ok : IsCoherent x) where
    matched_key :
        (key : String)
        → lookup key (reorder (I × D) (matched_map kind desired (items x)))
          ≡ matched_of (lookup key desired) (find kind key (items x))
    matched_key key =
        reordering.lookup_reorder (matched_map kind desired (items x)) key
          (matched_map-IsMap kind desired (items x))
        ∙ lookup-matched_map kind desired (items x) (store.distinct x ok) key _ _ refl refl

    new_key :
        (key : String)
        → lookup key (reorder D (desired_new_map kind desired (items x)))
          ≡ new_of (lookup key desired) (find kind key (items x))
    new_key key =
        reordering.lookup_reorder (desired_new_map kind desired (items x)) key
          (desired_new_map-IsMap kind desired (items x))
        ∙ lookup-desired_new_map kind desired (items x) (store.distinct x ok) key _ _ refl refl

    removed_key :
        (key : String)
        → lookup key (reorder I (not_desired_map kind desired (items x)))
          ≡ removed_of (lookup key desired) (find kind key (items x))
    removed_key key =
        reordering.lookup_reorder (not_desired_map kind desired (items x)) key
          (not_desired_map-IsMap kind desired (items x))
        ∙ lookup-not_desired_map kind desired (items x) (store.distinct x ok) key _ _ refl refl

    matched-IsMap : IsMap (reorder (I × D) (matched_map kind desired (items x)))
    matched-IsMap =
        reordering.reorder_IsMap (matched_map kind desired (items x))
          (matched_map-IsMap kind desired (items x))

    new-IsMap : IsMap (reorder D (desired_new_map kind desired (items x)))
    new-IsMap =
        reordering.reorder_IsMap (desired_new_map kind desired (items x))
          (desired_new_map-IsMap kind desired (items x))

    removed-IsMap : IsMap (reorder I (not_desired_map kind desired (items x)))
    removed-IsMap =
        reordering.reorder_IsMap (not_desired_map kind desired (items x))
          (not_desired_map-IsMap kind desired (items x))

  pub sync_listed_law :
      (x x' : X)
      → IsCoherent x
      → sync_listed access kind reorder desired (items x) x ≡ (none, x')
      → IsCoherent x'
        × ((key : String) → IsAsDesired kind (lookup key desired) (find kind key (items x')))
  unfolding sync_listed
  sync_listed_law x x' ok h =
      let m1 = reorder (I × D) (matched_map kind desired (items x)) in
      let m2 = reorder D (desired_new_map kind desired (items x)) in
      let m3 = reorder I (not_desired_map kind desired (items x)) in
      let remove : X → Option E × X = process_not_desired access kind m3 in
      let rest : X → Option E × X = λ y. then_unless_failed (create_new access kind m2 y) remove in
      let y = (reconcile_matched access kind m1 x).1 in
      let z = (create_new access kind m2 y).1 in
      let (first, after) = then_unless_failed-none (reconcile_matched access kind m1 x) rest x' h in
      let (second, third) = then_unless_failed-none (create_new access kind m2 y) remove x' after in
      let (ok_y, settled_y) =
        reconcile_matched_law access kind items IsCoherent applied IsMade store settling m1 x y
          (matched-IsMap x ok) ok
          (λ key v e. matched_there kind (lookup key desired) _ v (sym (matched_key x ok key) ∙ e))
          first in
      let here_y : (key : String)
          → Settled kind (spec_of (matched_of (lookup key desired) (find kind key (items x))))
              (find kind key (items x)) (find kind key (items y)) =
        λ key.
          subst (λ o. Settled kind (spec_of o) (find kind key (items x)) (find kind key (items y)))
            (matched_key x ok key) (settled_y key) in
      let (ok_z, settled_z) =
        create_new_law access kind items IsCoherent applied IsMade store settling m2 y z
          (new-IsMap x ok) ok_y
          (λ key spec e.
            new_absent kind (lookup key desired) (find kind key (items x)) _ spec
              (sym (new_key x ok key) ∙ e) (here_y key))
          second in
      let here_z : (key : String)
          → Settled kind (new_of (lookup key desired) (find kind key (items x)))
              (find kind key (items y)) (find kind key (items z)) =
        λ key.
          subst (λ o. Settled kind o (find kind key (items y)) (find kind key (items z)))
            (new_key x ok key) (settled_z key) in
      let (ok', left) =
        process_not_desired_law access kind items IsCoherent applied IsMade store settling m3 z x'
          (removed-IsMap x ok) ok_z
          (λ key item e.
            removed_there kind (lookup key desired) (find kind key (items x)) _ _ item
              (sym (removed_key x ok key) ∙ e) (here_y key) (here_z key))
          third in
      (
        ok',
        λ key.
            key_law kind (lookup key desired) (find kind key (items x)) _ _ _ (here_y key)
              (here_z key)
              (subst (λ o. Left o (find kind key (items z)) (find kind key (items x')))
                (removed_key x ok key) (left key)),
      )

  read_law :
      (x : X) (r : (E ⊎ List I) × X) (x' : X)
      → IsCoherent x
      → access.list x ≡ r
      → sync_read access kind reorder desired r ≡ (none, x')
      → sync_listed access kind reorder desired (items r.1) r.1 ≡ (none, x') × IsCoherent r.1
  unfolding sync_read
  read_law x (inl err, y) x' ok e h = absurd (ground (arith, h))
  read_law x (inr l, y) x' ok e h =
      let (same, ok_y, kept) = store.listed x y l ok e in
      (
        subst (λ m. sync_listed access kind reorder desired m y ≡ (none, x')) (same ∙ sym kept) h,
        ok_y,
      )

  pub sync_law :
      (x x' : X)
      → IsCoherent x
      → sync access kind reorder desired x ≡ (none, x')
      → IsCoherent x'
        × ((key : String) → IsAsDesired kind (lookup key desired) (find kind key (items x')))
  unfolding sync
  sync_law x x' ok h =
      let (listed, ok') = read_law x (access.list x) x' ok refl h in
      sync_listed_law (access.list x).1 x' ok' listed

  matched_idle :
      (m : Dict String (I × D)) (x : X)
      → IsMap m
      → ((key : String) (v : I × D) → lookup key m ≡ some v → kind.changes v.1 v.0 ≡ [])
      → reconcile_matched access kind m x ≡ (none, x)
  unfolding reconcile_matched then_unless_failed send_changes
  matched_idle [] x is h = refl
  matched_idle ((name, (item, spec)) ∷ m) x (fresh, is) h =
      rw (h name (item, spec) (rw (==_refl name) refl))
        (matched_idle m x is (λ key v e. h key v (rw (other_key name key m v fresh e) e)))

  -- A map without a key is empty.
  no_keys : {V : Type 0} (m : Dict String V) → ((key : String) → lookup key m ≡ none) → m ≡ []
  no_keys [] h = refl
  no_keys ((name, v) ∷ m) h =
      let here : lookup name ((name, v) ∷ m) ≡ some v = rw (==_refl name) refl in
      absurd (ground (arith, here, h name))

  sync_listed_idle :
      (x : X)
      → IsCoherent x
      → ((key : String) → IsAsDesired kind (lookup key desired) (find kind key (items x)))
      → sync_listed access kind reorder desired (items x) x ≡ (none, x)
  unfolding sync_listed then_unless_failed create_new process_not_desired
  sync_listed_idle x ok fits =
      let work : (key : String) → HasNoWork kind (lookup key desired) (find kind key (items x)) =
        λ key. IsAsDesired-HasNoWork kind _ _ (fits key) in
      let none_new =
        no_keys (reorder D (desired_new_map kind desired (items x)))
          (λ key. new_key x ok key ∙ (work key).0) in
      let none_left =
        no_keys (reorder I (not_desired_map kind desired (items x)))
          (λ key. removed_key x ok key ∙ (work key).1) in
      let idle =
        matched_idle (reorder (I × D) (matched_map kind desired (items x))) x (matched-IsMap x ok)
          (λ key v e. (work key).2 v (sym (matched_key x ok key) ∙ e)) in
      rw (idle, none_new, none_left) refl

  -- With everything as desired, the list is all that is read, and no request is made.
  pub sync_idle :
      (x y : X) (l : List I)
      → IsCoherent x
      → access.list x ≡ (inr l, y)
      → ((key : String) → IsAsDesired kind (lookup key desired) (find kind key (items x)))
      → sync access kind reorder desired x ≡ (none, y)
  unfolding sync sync_read
  sync_idle x y l ok e fits =
      let (same, ok_y, kept) = store.listed x y l ok e in
      rw e (
        subst (λ m. sync_listed access kind reorder desired m y ≡ (none, y)) (kept ∙ sym same)
          (sync_listed_idle y ok_y (λ key.
            subst (λ m. IsAsDesired kind (lookup key desired) (find kind key m)) (sym kept)
              (fits key))))
