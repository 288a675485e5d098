-- ===== src/Capabilities/Sync/Maps.antt =====
-- What is under a key of the maps that a synchronisation builds.
use scale_operator.Prelude.{
  String, ◌≡◌, refl, ap, ◌∙◌, inl, inr, Bool, true, false, not, ◌&&◌, Option, none, some, List, [],
  ◌∷◌, map, arith, if◌then◌else◌, Bool-cases, ◌==◌, ==_iff, nat_eq, string_eq, contains, Dict,
  is_some, keys, lookup, insert, lookup-insert, int_eq, subst,
}
use scale_operator.Iteration.{IsMap}
use scale_operator.Helper.Slices.Laws.{contains-difference, contains-intersection}
use scale_operator.Capabilities.Sync.Items.{find, IsDistinct, contains-names, lookup-existing}
use scale_operator.Capabilities.Sync.{
  read_map, array_string_intersection, not_desired_map, desired_new_map, array_string_difference,
  existing_map, matched_map, assign_all, Kind,
}

pub insert-IsMap :
    {V : Type 0} (key : String) (value : V) (m : Dict String V)
    → IsMap m
    → IsMap (insert key value m)
insert-IsMap key value [] is_map = (refl, tt)
insert-IsMap key value ((k, v) ∷ rest) (fresh, is_map) = elim (Bool-cases (k == key)) [
  | inl same ↦ rw same (subst (λ j. lookup j rest ≡ none) ((==_iff k key).0 same) fresh, is_map)
  | inr other ↦ rw other (
    ground (arith, lookup-insert key k value rest, fresh, ==_iff key k, ==_iff k key),
    insert-IsMap key value rest is_map,
  )
]

module _ {V : Type 0} (value : String → V) where
  lookup-assign_all :
      (names : List String) (m : Dict String V) (key : String)
      → lookup key (assign_all value names m)
        ≡ (if contains names key then some (value key) else lookup key m)
  unfolding assign_all
  lookup-assign_all [] m key = refl
  lookup-assign_all (name ∷ names) m key = ground (
    arith,
    lookup-assign_all names (insert name (value name) m) key,
    lookup-insert name key (value name) m,
    ==_iff name key,
    ==_iff key name,
  )

  pub assign_all-IsMap :
      (names : List String) (m : Dict String V) → IsMap m → IsMap (assign_all value names m)
  unfolding assign_all
  assign_all-IsMap [] m is_map = is_map
  assign_all-IsMap (name ∷ names) m is_map =
      assign_all-IsMap names (insert name (value name) m) (insert-IsMap name (value name) m is_map)

  pub lookup-assigned :
      (names : List String) (key : String) (b : Bool)
      → contains names key ≡ b
      → lookup key (assign_all value names []) ≡ (if b then some (value key) else none)
  lookup-assigned names key b h =
      lookup-assign_all names [] key ∙ ap (λ c. if c then some (value key) else none) h

pub contains-keys {ℓ} :
    {V : Type ℓ} (m : Dict String V) (key : String) → contains (keys m) key ≡ is_some (lookup key m)
contains-keys [] key = refl
contains-keys ((k, v) ∷ m) key = ground (arith, contains-keys m key, ==_iff k key, ==_iff key k)

module _ {I D : Type 0} where
  abbrev pub matched_of : Option D → Option I → Option (I × D)
  matched_of (some spec) (some item) = some (item, spec)
  matched_of (some spec) none = none
  matched_of none item = none

  abbrev pub new_of : Option D → Option I → Option D
  new_of (some spec) none = some spec
  new_of (some spec) (some item) = none
  new_of none item = none

  abbrev pub removed_of : Option D → Option I → Option I
  removed_of none (some item) = some item
  removed_of none none = none
  removed_of (some spec) item = none

module _ {I D : Type 0} (kind : Kind I D) where
  module _ (desired : Dict String D) (items : List I) where
    pub matched_map-IsMap : IsMap (matched_map kind desired items)
    unfolding matched_map
    matched_map-IsMap =
        assign_all-IsMap
          (λ key. (
            read_map kind.no_item (existing_map kind items []) key,
            read_map kind.no_spec desired key,
          ))
          (array_string_intersection (map kind.system_name items) (keys desired)) [] tt

    pub desired_new_map-IsMap : IsMap (desired_new_map kind desired items)
    unfolding desired_new_map
    desired_new_map-IsMap =
        assign_all-IsMap (read_map kind.no_spec desired)
          (array_string_difference (keys desired) (map kind.system_name items)) [] tt

    pub not_desired_map-IsMap : IsMap (not_desired_map kind desired items)
    unfolding not_desired_map
    not_desired_map-IsMap =
        assign_all-IsMap (read_map kind.no_item (existing_map kind items []))
          (array_string_difference (map kind.system_name items) (keys desired)) [] tt

  module _ (desired : Dict String D) (items : List I) (distinct : IsDistinct kind items) where
    names_contain :
        (key : String) (i : Option I)
        → find kind key items ≡ i
        → contains (map kind.system_name items) key ≡ is_some i
    names_contain key i hi = contains-names kind items key ∙ ap is_some hi

    keys_contain :
        (key : String) (d : Option D)
        → lookup key desired ≡ d
        → contains (keys desired) key ≡ is_some d
    keys_contain key d hd = contains-keys desired key ∙ ap is_some hd

    matched_listed :
        (key : String) (d : Option D) (i : Option I)
        → lookup key desired ≡ d
        → find kind key items ≡ i
        → contains (array_string_intersection (map kind.system_name items) (keys desired)) key
          ≡ (is_some d && is_some i)
    matched_listed key d i hd hi = ground (
      arith,
      contains-intersection (map kind.system_name items) (keys desired) key,
      names_contain key i hi,
      keys_contain key d hd,
    )

    new_listed :
        (key : String) (d : Option D) (i : Option I)
        → lookup key desired ≡ d
        → find kind key items ≡ i
        → contains (array_string_difference (keys desired) (map kind.system_name items)) key
          ≡ (not (is_some i) && is_some d)
    new_listed key d i hd hi = ground (
      arith,
      contains-difference (keys desired) (map kind.system_name items) key,
      names_contain key i hi,
      keys_contain key d hd,
    )

    removed_listed :
        (key : String) (d : Option D) (i : Option I)
        → lookup key desired ≡ d
        → find kind key items ≡ i
        → contains (array_string_difference (map kind.system_name items) (keys desired)) key
          ≡ (not (is_some d) && is_some i)
    removed_listed key d i hd hi = ground (
      arith,
      contains-difference (map kind.system_name items) (keys desired) key,
      names_contain key i hi,
      keys_contain key d hd,
    )

    pub lookup-matched_map :
        (key : String) (d : Option D) (i : Option I)
        → lookup key desired ≡ d
        → find kind key items ≡ i
        → lookup key (matched_map kind desired items) ≡ matched_of d i
    unfolding matched_map
    lookup-matched_map key (some spec) (some item) hd hi =
        let step : lookup key (matched_map kind desired items)
            ≡ some (
              read_map kind.no_item (existing_map kind items []) key,
              read_map kind.no_spec desired key,
            ) =
          lookup-assigned _ _ key true (matched_listed key (some spec) (some item) hd hi) in
        step ∙ rw (read_map, lookup-existing kind items key distinct, hi, hd) refl
    lookup-matched_map key (some spec) none hd hi =
        lookup-assigned _ _ key false (matched_listed key (some spec) none hd hi)
    lookup-matched_map key none (some item) hd hi =
        lookup-assigned _ _ key false (matched_listed key none (some item) hd hi)
    lookup-matched_map key none none hd hi =
        lookup-assigned _ _ key false (matched_listed key none none hd hi)

    pub lookup-desired_new_map :
        (key : String) (d : Option D) (i : Option I)
        → lookup key desired ≡ d
        → find kind key items ≡ i
        → lookup key (desired_new_map kind desired items) ≡ new_of d i
    unfolding desired_new_map
    lookup-desired_new_map key (some spec) (some item) hd hi =
        lookup-assigned _ _ key false (new_listed key (some spec) (some item) hd hi)
    lookup-desired_new_map key none (some item) hd hi =
        lookup-assigned _ _ key false (new_listed key none (some item) hd hi)
    lookup-desired_new_map key none none hd hi =
        lookup-assigned _ _ key false (new_listed key none none hd hi)
    lookup-desired_new_map key (some spec) none hd hi =
        let step : lookup key (desired_new_map kind desired items)
            ≡ some (read_map kind.no_spec desired key) =
          lookup-assigned _ _ key true (new_listed key (some spec) none hd hi) in
        step ∙ rw (read_map, hd) refl

    pub lookup-not_desired_map :
        (key : String) (d : Option D) (i : Option I)
        → lookup key desired ≡ d
        → find kind key items ≡ i
        → lookup key (not_desired_map kind desired items) ≡ removed_of d i
    unfolding not_desired_map
    lookup-not_desired_map key (some spec) (some item) hd hi =
        lookup-assigned _ _ key false (removed_listed key (some spec) (some item) hd hi)
    lookup-not_desired_map key (some spec) none hd hi =
        lookup-assigned _ _ key false (removed_listed key (some spec) none hd hi)
    lookup-not_desired_map key none none hd hi =
        lookup-assigned _ _ key false (removed_listed key none none hd hi)
    lookup-not_desired_map key none (some item) hd hi =
        let step : lookup key (not_desired_map kind desired items)
            ≡ some (read_map kind.no_item (existing_map kind items []) key) =
          lookup-assigned _ _ key true (removed_listed key none (some item) hd hi) in
        step ∙ rw (read_map, lookup-existing kind items key distinct, hi) refl
