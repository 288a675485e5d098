-- ===== src/Reconciler/Deployment/Merge.antt =====
-- What `MergeMapStringString` makes of two maps.
use scale_operator.Prelude.{
  both_false, String, ◌≡◌, refl, ap, ◌∙◌, ◌↔◌, inl, inr, Bool, true, false, Option, none, some,
  is_some, [], ◌∷◌, arith, if◌then◌else◌, Bool-cases, ◌==◌, ==_iff, ==_refl, nat_eq, string_eq,
  Dict, lookup, lookup-insert, int_eq, subst,
}
use scale_operator.Reconciler.Deployment.{merge_one, has_value, merge_loop, merge_map}

-- A Go map has every key once.
abbrev pub IsMap : Dict String String → Type 0
IsMap [] = Unit
IsMap ((key, value) ∷ rest) = (lookup key rest ≡ none) × IsMap rest

abbrev pub or_else : Option String → Option String → Option String
or_else (some value) other = some value
or_else none other = other

-- The map has the desired value at every desired key.
abbrev pub Has : Dict String String → Dict String String → Type 0
Has [] entries = Unit
Has ((key, value) ∷ desired) entries = (lookup key entries ≡ some value) × Has desired entries

has_value_iff : (o : Option String) (value : String) → (has_value o value ≡ true) ↔ (o ≡ some value)
has_value_iff none value = ((λ h. cc), λ h. cc)
has_value_iff (some old) value = (
  (λ h. ap some ((==_iff old value).0 h)),
  λ h. let eq : old ≡ value = cc in (==_iff old value).1 eq,
)

merge_one-lookup :
    (key value wanted : String) (existing : Dict String String)
    → lookup wanted (merge_one key value existing).1
      ≡ (if key == wanted then some value else lookup wanted existing)
unfolding merge_one
merge_one-lookup key value wanted existing =
    elim (Bool-cases (has_value (lookup key existing) value)) [
      | inl there ↦
          let has = (has_value_iff (lookup key existing) value).0 there in
          elim (Bool-cases (key == wanted)) [
            | inl is ↦
                let eq = (==_iff key wanted).0 is in
                rw there (rw is (subst (λ k. lookup k existing ≡ some value) eq has))
            | inr other ↦ rw there (rw other refl)
          ]
      | inr absent ↦ rw absent (lookup-insert key wanted value existing)
    ]

or_else-lookup :
    (key value wanted : String) (desired existing : Dict String String)
    → lookup key desired ≡ none
    → or_else (lookup wanted desired) (if key == wanted then some value else lookup wanted existing)
      ≡ or_else
          (if key == wanted then some value else lookup wanted desired)
          (lookup wanted existing)
or_else-lookup key value wanted desired existing fresh = elim (Bool-cases (key == wanted)) [
  | inl is ↦
      let eq = (==_iff key wanted).0 is in
      rw is (rw (subst (λ k. lookup k desired ≡ none) eq fresh) refl)
  | inr other ↦ rw other refl
]

merge_loop-lookup :
    (desired existing : Dict String String) (wanted : String)
    → IsMap desired
    → lookup wanted (merge_loop desired existing).1
      ≡ or_else (lookup wanted desired) (lookup wanted existing)
unfolding merge_loop
merge_loop-lookup [] existing wanted is_map = refl
merge_loop-lookup ((key, value) ∷ desired) existing wanted (fresh, is_map) =
    merge_loop-lookup desired (merge_one key value existing).1 wanted is_map
    ∙ (ap (or_else (lookup wanted desired)) (merge_one-lookup key value wanted existing)
        ∙ or_else-lookup key value wanted desired existing fresh)

merge_one-false :
    (key value : String) (existing : Dict String String)
    → (merge_one key value existing).0 ≡ false
    → ((merge_one key value existing).1 ≡ existing) × (lookup key existing ≡ some value)
unfolding merge_one
merge_one-false key value existing = elim (Bool-cases (has_value (lookup key existing) value)) [
  | inl there ↦ rw there (λ h. (refl, (has_value_iff (lookup key existing) value).0 there))
  | inr absent ↦ rw absent (λ h. cc)
]

-- A merge that reports no change has made none.
pub merge_loop-false :
    (desired existing : Dict String String)
    → (merge_loop desired existing).0 ≡ false
    → ((merge_loop desired existing).1 ≡ existing) × Has desired existing
unfolding merge_loop
merge_loop-false [] existing h = (refl, tt)
merge_loop-false ((key, value) ∷ desired) existing h =
    let one = merge_one key value existing in
    let (first, second) = both_false one.0 (merge_loop desired one.1).0 h in
    let (same, there) = merge_one-false key value existing first in
    let (same', has) = merge_loop-false desired one.1 second in
    (same' ∙ same, (there, subst (Has desired) same has))

Has-merge_loop :
    (desired existing : Dict String String)
    → Has desired existing
    → merge_loop desired existing ≡ (false, existing)
unfolding merge_loop merge_one
Has-merge_loop [] existing has = refl
Has-merge_loop ((key, value) ∷ desired) existing (there, has) =
    rw ((has_value_iff (lookup key existing) value).1 there)
      (rw (Has-merge_loop desired existing has) refl)

or_else-Has :
    (desired entries : Dict String String)
    → IsMap desired
    → ((wanted value : String)
        → lookup wanted desired ≡ some value
        → lookup wanted entries ≡ some value)
    → Has desired entries
or_else-Has [] entries is_map law = tt
or_else-Has ((key, value) ∷ desired) entries (fresh, is_map) law = (
  law key value (rw (==_refl key) refl),
  or_else-Has desired entries is_map (λ wanted v h. elim (Bool-cases (key == wanted)) [
    | inl is ↦
        let eq = (==_iff key wanted).0 is in
        absurd (ground (arith, subst (λ k. lookup k desired ≡ none) eq fresh, h))
    | inr other ↦ law wanted v (rw other h)
  ]),
)

-- What a map has under a key; a nil map has nothing.
abbrev pub value_at : String → Option (Dict String String) → Option String
value_at key none = none
value_at key (some entries) = lookup key entries

-- A map, or an empty one for a nil map.
abbrev pub entries_of : Option (Dict String String) → Dict String String
entries_of none = []
entries_of (some entries) = entries

merged :
    (desired existing : Dict String String)
    → IsMap desired
    → let r = merge_loop desired existing in
      (true ≡ true)
      × ((wanted : String)
          → lookup wanted r.1 ≡ or_else (lookup wanted desired) (lookup wanted existing))
      × (r.0 ≡ false ↔ Has desired existing)
      × ◌≡◌ {A = Bool × Option (Dict String String)}
          ((merge_loop desired r.1).0, some (merge_loop desired r.1).1)
          (false, some r.1)
merged desired existing is_map =
    let r = merge_loop desired existing in
    let looked = λ (wanted : String). merge_loop-lookup desired existing wanted is_map in
    let has =
      or_else-Has desired r.1 is_map
        (λ wanted v h. looked wanted ∙ ap (λ o. or_else o (lookup wanted existing)) h) in
    (
      refl,
      looked,
      (
        (λ h. (merge_loop-false desired existing h).1),
        λ there.
            ap (λ (p : Bool × Dict String String). p.0) (Has-merge_loop desired existing there),
      ),
      ap (λ (p : Bool × Dict String String). (p.0, some p.1)) (Has-merge_loop desired r.1 has),
    )

-- A merge, of nil maps too, makes a map. It gives the desired value to every desired key and leaves the
-- other keys. It reports a change
-- exactly if a desired key lacks its value, and merging the same map again reports none.
pub merge_map_lem :
    (desired existing : Option (Dict String String))
    → IsMap (entries_of desired)
    → let r = merge_map existing desired in
      (is_some r.1 ≡ true)
      × ((wanted : String)
          → value_at wanted r.1 ≡ or_else (value_at wanted desired) (value_at wanted existing))
      × (r.0 ≡ false ↔ Has (entries_of desired) (entries_of existing))
      × (merge_map r.1 desired ≡ (false, r.1))
unfolding merge_map
merge_map_lem none none is_map = merged [] [] tt
merge_map_lem none (some existing) is_map = merged [] existing tt
merge_map_lem (some desired) none is_map = merged desired [] is_map
merge_map_lem (some desired) (some existing) is_map = merged desired existing is_map
