-- ===== src/Product/Overlap.antt =====
-- `detectOverlappingPricingRuleRanges` and `isOverlappingRanges` of
-- apis/capabilities/v1beta1/product_types.go. An index of -1 is `negsuc 0`.
pub mod Laws
pub mod Groups
pub mod Detect
use scale_operator.Prelude.{
  ℕ, suc, String, Bool, true, false, ◌&&◌, Option, none, some, List, [], ◌∷◌, ◌++◌, if◌then◌else◌,
  get_elem?, any_by, ◌==◌, nat_eq, string_eq, Dict, lookup, insert, ℤ, pos, negsuc, ltb_ℤ, int_eq,
}
use scale_operator.Product.Types.{StringPointer, MetricMethodRefSpec, PricingRuleSpec, ref_string}

-- The test of the inner loop on rules `a` and `b`.
unfoldable pub ranges_overlap : PricingRuleSpec → PricingRuleSpec → Bool
ranges_overlap a b = ltb_ℤ a.from_value b.to_value && ltb_ℤ b.from_value a.to_value

-- The outer loop from index `i` on, with the rules before it.
pub overlap_from : ℕ → List PricingRuleSpec → List PricingRuleSpec → ℤ
unfolding ranges_overlap
overlap_from i before [] = negsuc 0
overlap_from i before (a ∷ rest) =
    let next = overlap_from (suc i) (before ++ a ∷ []) rest in
    if any_by (ranges_overlap a) before then pos i else next

-- The first index whose rule overlaps an earlier one.
unfoldable pub is_overlapping_ranges : List PricingRuleSpec → ℤ
unfolding overlap_from
is_overlapping_ranges [] = negsuc 0
is_overlapping_ranges (a ∷ []) = negsuc 0
is_overlapping_ranges (a ∷ b ∷ rest) = overlap_from 1 (a ∷ []) (b ∷ rest)

-- `==` on rules: the pointer to the backend's name is compared by its address.
same_pointer : Option StringPointer → Option StringPointer → Bool
same_pointer none none = true
same_pointer (some p) (some q) = p.address == q.address
same_pointer _ _ = false

same_rule : PricingRuleSpec → PricingRuleSpec → Bool
unfolding same_pointer
same_rule a b =
    a.from_value == b.from_value
    && (a.to_value == b.to_value
        && (a.metric_method_ref.system_name == b.metric_method_ref.system_name
            && (same_pointer a.metric_method_ref.backend_system_name
                  b.metric_method_ref.backend_system_name
                && a.price_per_unit == b.price_per_unit)))

-- `rulesPerMetricMap`, a rule being appended to the group of its key.
add_to_group :
    PricingRuleSpec → Dict String (List PricingRuleSpec) → Dict String (List PricingRuleSpec)
unfolding ref_string
add_to_group r groups =
    insert (ref_string r.metric_method_ref)
      (elim (lookup (ref_string r.metric_method_ref) groups) [ none ↦ [] | some g ↦ g ] ++ r ∷ [])
      groups

pub group_rules :
    Dict String (List PricingRuleSpec) → List PricingRuleSpec → Dict String (List PricingRuleSpec)
unfolding add_to_group
group_rules groups [] = groups
group_rules groups (r ∷ rules) = group_rules (add_to_group r groups) rules

-- The search for a rule's index in the plan's list.
pub index_of : PricingRuleSpec → ℕ → List PricingRuleSpec → Option ℕ
unfolding same_rule
index_of r i [] = none
index_of r i (s ∷ rules) =
    let next = index_of r (suc i) rules in if same_rule s r then some i else next

-- The index in the plan's list of the rule at an index of a group.
pub locate : List PricingRuleSpec → List PricingRuleSpec → ℤ → Option ℕ
unfolding index_of
locate rules g (negsuc _) = none
locate rules g (pos i) = elim (get_elem? g i) [ none ↦ none | some r ↦ index_of r 0 rules ]

detect_groups : List PricingRuleSpec → Dict String (List PricingRuleSpec) → ℤ
unfolding is_overlapping_ranges locate
detect_groups rules [] = negsuc 0
detect_groups rules ((k, g) ∷ groups) =
    let next = detect_groups rules groups in
    elim (locate rules g (is_overlapping_ranges g)) [ none ↦ next | some i ↦ pos i ]

-- `reorder` is the order in which the loop meets the groups.
unfoldable pub detect_overlapping_pricing_rule_ranges :
    ((V : Type 0) → Dict String V → Dict String V) → List PricingRuleSpec → ℤ
unfolding group_rules detect_groups
detect_overlapping_pricing_rule_ranges reorder rules =
    detect_groups rules (reorder (List PricingRuleSpec) (group_rules [] rules))
