-- ===== src/Product/Overlap/Detect.antt =====
-- `detectOverlappingPricingRuleRanges` decides whether two rules of the same metric overlap.
use scale_operator.Prelude.{
  ℕ, String, ◌≡◌, refl, sym, ap, ◌∙◌, ◌↔◌, Bool, true, false, not, ◌&&◌, none, some, List, [], ◌∷◌,
  arith, if◌then◌else◌, get_elem?, ◌==◌, nat_eq, string_eq, Dict, is_some, lookup, ℤ, pos, negsuc,
  int_eq, subst,
}
use scale_operator.Iteration.{IsReordering}
use scale_operator.Product.Types.{PricingRuleSpec}
use scale_operator.Product.Overlap.{
  is_overlapping_ranges, group_rules, locate, detect_groups, detect_overlapping_pricing_rule_ranges,
}
use scale_operator.Product.Overlap.Laws.{key, Disjoint, is_negative, is_overlapping_ranges-Disjoint}
use scale_operator.Product.Overlap.Groups.{
  Grouped-lookup, Grouped-of-lookup, Grouped-IsMap, Groups, rules_of, group, Grouped,
  group_rules_lem, AreListed, AreListed-suffix, AreListed-select, AreListed-get, overlap_from_index,
}

is_overlapping_ranges_index :
    (g : List PricingRuleSpec) {i : ℕ}
    → is_overlapping_ranges g ≡ pos i
    → is_some (get_elem? g i) ≡ true
unfolding is_overlapping_ranges
is_overlapping_ranges_index [] h = cc
is_overlapping_ranges_index (a ∷ []) h = cc
is_overlapping_ranges_index (a ∷ b ∷ rest) {i} h = overlap_from_index (a ∷ []) (b ∷ rest) {i = i} h

locate_found :
    (rules g : List PricingRuleSpec) (i : ℤ)
    → AreListed rules g
    → is_overlapping_ranges g ≡ i
    → is_some (locate rules g i) ≡ not (is_negative i)
locate_found rules g (pos i) l h =
    AreListed-get rules g i l (is_overlapping_ranges_index g {i = i} h)
locate_found rules g (negsuc i) l h = unfold locate in refl

-- Every group holds rules of the plan.
abbrev GroupsListed : List PricingRuleSpec → Groups → Type 0
GroupsListed rules [] = Unit
GroupsListed rules ((_, g) ∷ m) = AreListed rules g × GroupsListed rules m

abbrev GroupsDisjoint : Groups → Type 0
GroupsDisjoint [] = Unit
GroupsDisjoint ((_, g) ∷ m) = Disjoint g × GroupsDisjoint m

step :
    (rules g : List PricingRuleSpec) (next : ℤ)
    → AreListed rules g
    → is_negative (elim (locate rules g (is_overlapping_ranges g)) [ none ↦ next | some i ↦ pos i ])
      ≡ (is_negative (is_overlapping_ranges g) && is_negative next)
step rules g next l = ground (arith, locate_found rules g (is_overlapping_ranges g) l)

detect_groups_lem :
    (rules : List PricingRuleSpec) (m : Groups)
    → GroupsListed rules m
    → (is_negative (detect_groups rules m) ≡ true) ↔ GroupsDisjoint m
unfolding detect_groups
detect_groups_lem rules [] l = (λ _. tt, λ _. refl)
detect_groups_lem rules ((k, g) ∷ m) l = ground (
  arith,
  step rules g (detect_groups rules m) l.0,
  detect_groups_lem rules m l.1,
  is_overlapping_ranges-Disjoint g,
)

-- No two rules of one metric overlap, whatever the metric.
abbrev pub AreSeparate : List PricingRuleSpec → Type 0
AreSeparate rules = (k : String) → Disjoint (rules_of k rules)

Grouped-listed :
    (rules : List PricingRuleSpec) (m : Groups) → Grouped rules m → GroupsListed rules m
Grouped-listed rules [] h = tt
Grouped-listed rules ((k, g) ∷ m) h = (
  subst (AreListed rules) (sym h.0)
      (AreListed-select (λ r. key r == k) rules rules (AreListed-suffix [] rules)),
  Grouped-listed rules m h.2,
)

Grouped-disjoint :
    (rules : List PricingRuleSpec) (m : Groups)
    → Grouped rules m
    → AreSeparate rules
    → GroupsDisjoint m
Grouped-disjoint rules [] h s = tt
Grouped-disjoint rules ((k, g) ∷ m) h s =
    (subst Disjoint (sym h.0) (s k), Grouped-disjoint rules m h.2 s)

Disjoint-choice :
    (b : Bool) (k : String) (g : List PricingRuleSpec) (m : Groups)
    → Disjoint g
    → Disjoint (group k m)
    → Disjoint (elim (if b then some g else lookup k m) [ none ↦ [] | some l ↦ l ])
Disjoint-choice true k g m dg dm = dg
Disjoint-choice false k g m dg dm = dm

Disjoint-group : (m : Groups) (k : String) → GroupsDisjoint m → Disjoint (group k m)
Disjoint-group [] k d = tt
Disjoint-group ((j, g) ∷ m) k d = Disjoint-choice (j == k) k g m d.0 (Disjoint-group m k d.1)

-- In whatever order the map of the rules by metric is iterated, no rule's index is returned exactly when
-- of any two pricing rules of the same metric or method one ends before the other starts, or where it
-- starts.
pub detect_overlapping_lem :
    (reorder : (V : Type 0) → Dict String V → Dict String V) (reordering : IsReordering reorder)
    (rules : List PricingRuleSpec)
    → (is_negative (detect_overlapping_pricing_rule_ranges reorder rules) ≡ true)
      ↔ AreSeparate rules
unfolding detect_overlapping_pricing_rule_ranges
detect_overlapping_lem reorder reordering rules =
    let (covers, grouped) = group_rules_lem [] [] rules (λ k. refl) tt in
    let made = group_rules [] rules in
    let m = reorder (List PricingRuleSpec) made in
    let is = Grouped-IsMap rules made grouped in
    let same : (k : String) → lookup k m ≡ lookup k made =
      λ k. reordering.lookup_reorder made k is in
    let listed : Grouped rules m =
      Grouped-of-lookup rules m (reordering.reorder_IsMap made is)
        (λ k g e. Grouped-lookup rules made k g grouped (sym (same k) ∙ e)) in
    let iff = detect_groups_lem rules m (Grouped-listed rules m listed) in
    (
      λ h k.
          subst Disjoint (ap (λ o. elim o [ none ↦ [] | some g ↦ g ]) (same k) ∙ covers k)
            (Disjoint-group m k (iff.0 h)),
      λ s. iff.1 (Grouped-disjoint rules m listed s),
    )
