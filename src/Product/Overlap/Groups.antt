-- ===== src/Product/Overlap/Groups.antt =====
-- The groups of rules by metric, and the decision of the overlap test over them.
use scale_operator.Prelude.{
  ℕ, zero, suc, String, ◌≡◌, refl, inl, inr, Bool, true, Option, none, some, List, [], ◌∷◌, ◌++◌,
  append-nil, append_assoc, arith, if◌then◌else◌, Bool-cases, length, get_elem?, select, any_by,
  length-append, select-append, All, ◌==◌, ==_iff, ==_refl, nat_eq, string_eq, Dict, is_some,
  lookup, insert, lookup-insert, pos, int_eq, subst,
}
use scale_operator.Iteration.{IsMap, other_key}
use scale_operator.Product.Types.{StringPointer, PricingRuleSpec}
use scale_operator.Product.Overlap.{
  ranges_overlap, overlap_from, same_pointer, same_rule, add_to_group, group_rules, index_of,
  locate,
}
use scale_operator.Product.Overlap.Laws.{key}

abbrev pub Groups : Type 0
Groups = Dict String (List PricingRuleSpec)

-- The rules of one metric, in their order.
abbrev pub rules_of : String → List PricingRuleSpec → List PricingRuleSpec
rules_of k = select (λ r. key r == k)

abbrev pub group : String → Groups → List PricingRuleSpec
group k groups = elim (lookup k groups) [ none ↦ [] | some g ↦ g ]

abbrev pub Covers : List PricingRuleSpec → Groups → Type 0
Covers before groups = (k : String) → group k groups ≡ rules_of k before

abbrev pub Grouped : List PricingRuleSpec → Groups → Type 0
Grouped before [] = Unit
Grouped before ((k, g) ∷ m) = (g ≡ rules_of k before) × (lookup k m ≡ none) × Grouped before m

rules_of-snoc :
    (k : String) (before : List PricingRuleSpec) (r : PricingRuleSpec)
    → rules_of k (before ++ r ∷ [])
      ≡ (if key r == k then rules_of k before ++ r ∷ [] else rules_of k before)
rules_of-snoc k before r =
    rw select-append
      (elim (Bool-cases (key r == k)) [ inl same ↦ rw same | inr other ↦ rw other (append-nil _) ])

Covers-add :
    (before : List PricingRuleSpec) (groups : Groups) (r : PricingRuleSpec)
    → Covers before groups
    → Covers (before ++ r ∷ []) (add_to_group r groups)
unfolding add_to_group
Covers-add before groups r c k = ground (
  arith,
  c k,
  c (key r),
  rules_of-snoc k before r,
  lookup-insert (key r) k (group (key r) groups ++ r ∷ []) groups,
  ==_iff (key r) k,
)

Grouped-other :
    (before : List PricingRuleSpec) (m : Groups) (r : PricingRuleSpec)
    → lookup (key r) m ≡ none
    → Grouped before m
    → Grouped (before ++ r ∷ []) m
Grouped-other before [] r n h = tt
Grouped-other before ((j, g) ∷ m) r n h =
    ground (
      arith,
      Grouped-other before m r,
      rules_of-snoc j before r,
      ==_iff j (key r),
      ==_iff (key r) j,
    )

Grouped-insert :
    (before : List PricingRuleSpec) (m : Groups) (r : PricingRuleSpec) (v : List PricingRuleSpec)
    → v ≡ rules_of (key r) (before ++ r ∷ [])
    → Grouped before m
    → Grouped (before ++ r ∷ []) (insert (key r) v m)
Grouped-insert before [] r v e h = (e, refl, tt)
Grouped-insert before ((j, g) ∷ m) r v e h = elim (Bool-cases (j == key r)) [
  | inl same ↦
      let path : j ≡ key r = (==_iff j (key r)).0 same in
      let absent : lookup (key r) m ≡ none = subst (λ t. lookup t m ≡ none) path h.1 in
      rw same (e, absent, Grouped-other before m r absent h.2)
  | inr other ↦ rw other (
    ground (arith, h.0, rules_of-snoc j before r, ==_iff j (key r), ==_iff (key r) j),
    ground (arith, h.1, lookup-insert (key r) j v m, ==_iff j (key r), ==_iff (key r) j),
    Grouped-insert before m r v e h.2,
  )
]

Grouped-add :
    (before : List PricingRuleSpec) (groups : Groups) (r : PricingRuleSpec)
    → Covers before groups
    → Grouped before groups
    → Grouped (before ++ r ∷ []) (add_to_group r groups)
unfolding add_to_group
Grouped-add before groups r c h =
    Grouped-insert before groups r (group (key r) groups ++ r ∷ [])
      (ground (arith, c (key r), rules_of-snoc (key r) before r, ==_refl (key r))) h

pub group_rules_lem :
    (before : List PricingRuleSpec) (groups : Groups) (rules : List PricingRuleSpec)
    → Covers before groups
    → Grouped before groups
    → Covers (before ++ rules) (group_rules groups rules)
      × Grouped (before ++ rules) (group_rules groups rules)
unfolding group_rules
group_rules_lem before groups [] c h = rw (append-nil before) (c, h)
group_rules_lem before groups (r ∷ rules) c h =
    let next =
      group_rules_lem (before ++ r ∷ []) (add_to_group r groups) rules
        (Covers-add before groups r c) (Grouped-add before groups r c h) in
    rw append_assoc at next

pub Grouped-IsMap : (rules : List PricingRuleSpec) (m : Groups) → Grouped rules m → IsMap m
Grouped-IsMap rules [] h = tt
Grouped-IsMap rules ((k, g) ∷ m) h = (h.1, Grouped-IsMap rules m h.2)

pub Grouped-lookup :
    (rules : List PricingRuleSpec) (m : Groups) (k : String) (g : List PricingRuleSpec)
    → Grouped rules m
    → lookup k m ≡ some g
    → g ≡ rules_of k rules
Grouped-lookup rules [] k g h e = absurd (ground (arith, e))
Grouped-lookup rules ((j, l) ∷ m) k g h e =
    ground (arith, Grouped-lookup rules m k g h.2, h.0, e, ==_iff j k)

pub Grouped-of-lookup :
    (rules : List PricingRuleSpec) (m : Groups)
    → IsMap m
    → ((k : String) (g : List PricingRuleSpec) → lookup k m ≡ some g → g ≡ rules_of k rules)
    → Grouped rules m
Grouped-of-lookup rules [] is law = tt
Grouped-of-lookup rules ((j, l) ∷ m) (fresh, is) law = (
  law j l (rw (==_refl j) refl),
  fresh,
  Grouped-of-lookup rules m is (λ k g e. law k g (rw (other_key j k m g fresh e) e)),
)

-- Every rule of a list is found in the plan's list.
abbrev pub AreListed : List PricingRuleSpec → List PricingRuleSpec → Type 0
AreListed rules = All (λ r. (i : ℕ) → is_some (index_of r i rules) ≡ true)

same_pointer_refl : (p : Option StringPointer) → same_pointer p p ≡ true
unfolding same_pointer
same_pointer_refl none = refl
same_pointer_refl (some p) = ==_refl p.address

same_rule_refl : (r : PricingRuleSpec) → same_rule r r ≡ true
unfolding same_rule
same_rule_refl r = rw (
  ==_refl r.from_value,
  ==_refl r.to_value,
  ==_refl r.metric_method_ref.system_name,
  same_pointer_refl r.metric_method_ref.backend_system_name,
  ==_refl r.price_per_unit,
)

index_of-append :
    (r : PricingRuleSpec) (i : ℕ) (before rest : List PricingRuleSpec)
    → is_some (index_of r i (before ++ r ∷ rest)) ≡ true
unfolding index_of
index_of-append r i [] rest = ground (arith, same_rule_refl r)
index_of-append r i (s ∷ before) rest = ground (arith, index_of-append r (suc i) before rest)

pub AreListed-suffix : (before rules : List PricingRuleSpec) → AreListed (before ++ rules) rules
AreListed-suffix before [] = tt
AreListed-suffix before (r ∷ rules) = (
  λ i. index_of-append r i before rules,
  subst (λ l. AreListed l rules) (append_assoc before (r ∷ []) rules)
      (AreListed-suffix (before ++ r ∷ []) rules),
)

pub AreListed-select :
    (p : PricingRuleSpec → Bool) (rules l : List PricingRuleSpec)
    → AreListed rules l
    → AreListed rules (select p l)
AreListed-select p rules [] h = h
AreListed-select p rules (x ∷ l) h = elim (Bool-cases (p x)) [
  | inl hit ↦ rw hit (h.0, AreListed-select p rules l h.1)
  | inr miss ↦ rw miss (AreListed-select p rules l h.1)
]

pub AreListed-get :
    (rules g : List PricingRuleSpec) (i : ℕ)
    → AreListed rules g
    → is_some (get_elem? g i) ≡ true
    → is_some (locate rules g (pos i)) ≡ true
unfolding locate
AreListed-get rules [] i h s = cc
AreListed-get rules (r ∷ g) zero h s = h.0 0
AreListed-get rules (r ∷ g) (suc i) h s = AreListed-get rules g i h.1 s

get-append_length :
    (before rest : List PricingRuleSpec) (r : PricingRuleSpec)
    → is_some (get_elem? (before ++ r ∷ rest) (length before)) ≡ true
get-append_length [] rest r = refl
get-append_length (x ∷ before) rest r = get-append_length before rest r

-- An index that the inner search finds is one of the group.
pub overlap_from_index :
    (before rest : List PricingRuleSpec) {i : ℕ}
    → overlap_from (length before) before rest ≡ pos i
    → is_some (get_elem? (before ++ rest) i) ≡ true
unfolding overlap_from
overlap_from_index before [] h = cc
overlap_from_index before (a ∷ rest) {i} h = elim (Bool-cases (any_by (ranges_overlap a) before)) [
  | inl hit ↦
      let here : length before ≡ i = ground (arith, hit) in
      subst (λ j. is_some (get_elem? (before ++ a ∷ rest) j) ≡ true) here
        (get-append_length before rest a)
  | inr miss ↦
      let size : length (before ++ a ∷ []) ≡ suc (length before) =
        omega (arith, length-append before (a ∷ [])) in
      let there : overlap_from (length (before ++ a ∷ [])) (before ++ a ∷ []) rest ≡ pos i =
        ground (arith, miss, size) in
      subst (λ l. is_some (get_elem? l i) ≡ true) (append_assoc before (a ∷ []) rest)
        (overlap_from_index (before ++ a ∷ []) rest {i = i} there)
]
