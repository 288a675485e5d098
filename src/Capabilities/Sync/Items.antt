-- ===== src/Capabilities/Sync/Items.antt =====
-- The items of a list by their system names, and the map that a synchronisation makes of them.
use scale_operator.Prelude.{
  String, ◌≡◌, refl, ap, ◌∙◌, inl, inr, Bool, not, Option, none, some, List, [], ◌∷◌, map, arith,
  if◌then◌else◌, Bool-cases, select, ◌==◌, ==_iff, nat_eq, string_eq, contains, Dict, is_some,
  lookup, insert, lookup-insert, int_eq, subst,
}
use scale_operator.Capabilities.Sync.{Kind, existing_map}

module _ {I D : Type 0} (kind : Kind I D) where
  -- The item of a system name.
  abbrev pub find : String → List I → Option I
  find name [] = none
  find name (item ∷ items) = if kind.system_name item == name then some item else find name items

  -- No two items have one system name.
  abbrev pub IsDistinct : List I → Type 0
  IsDistinct [] = Unit
  IsDistinct (item ∷ items) = (find (kind.system_name item) items ≡ none) × IsDistinct items

  find-select-none :
      (p : I → Bool) (name : String) (items : List I)
      → find name items ≡ none
      → find name (select p items) ≡ none
  find-select-none p name [] h = refl
  find-select-none p name (item ∷ items) h = ground (arith, find-select-none p name items, h)

  pub select-IsDistinct :
      (p : I → Bool) (items : List I) → IsDistinct items → IsDistinct (select p items)
  select-IsDistinct p [] d = tt
  select-IsDistinct p (item ∷ items) (fresh, d) = elim (Bool-cases (p item)) [
    | inl is ↦
        rw is (find-select-none p (kind.system_name item) items fresh, select-IsDistinct p items d)
    | inr not ↦ rw not (select-IsDistinct p items d)
  ]

  pub contains-names :
      (items : List I) (key : String)
      → contains (map kind.system_name items) key ≡ is_some (find key items)
  contains-names [] key = refl
  contains-names (item ∷ items) key = ground (
    arith,
    contains-names items key,
    ==_iff key (kind.system_name item),
    ==_iff (kind.system_name item) key,
  )

  -- The first of two, if it is set.
  abbrev first_of : Option I → Option I → Option I
  first_of none other = other
  first_of (some item) other = some item

  lookup-existing_map :
      (items : List I) (m : Dict String I) (key : String)
      → IsDistinct items
      → lookup key (existing_map kind items m) ≡ first_of (find key items) (lookup key m)
  unfolding existing_map
  lookup-existing_map [] m key d = refl
  lookup-existing_map (item ∷ items) m key (fresh, d) =
      let name = kind.system_name item in
      let rest =
        lookup-existing_map items (insert name item m) key d
        ∙ ap (first_of (find key items)) (lookup-insert name key item m) in
      elim (Bool-cases (name == key)) [
        | inl same ↦
            let gone = subst (λ k. find k items ≡ none) ((==_iff name key).0 same) fresh in
            rest ∙ rw same (rw gone refl)
        | inr other ↦ rest ∙ rw other refl
      ]

  pub lookup-existing :
      (items : List I) (key : String)
      → IsDistinct items
      → lookup key (existing_map kind items []) ≡ find key items
  lookup-existing items key d = lookup-existing_map items [] key d ∙ first_none (find key items)
    where
      first_none : (o : Option I) → first_of o none ≡ o
      first_none none = refl
      first_none (some item) = refl
