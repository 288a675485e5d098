-- ===== src/Product/Overlap/Laws.antt =====
-- The overlap test decides whether two pricing rules of the same metric overlap.
use scale_operator.Prelude.{
  ℕ, suc, String, ◌≡◌, refl, ◌↔◌, ◌⊎◌, Bool, true, false, none, some, List, [], ◌∷◌, ◌++◌, arith,
  any_by, nat_eq, string_eq, ℤ, pos, negsuc, ◌≤ℤ◌, int_eq,
}
use Prim.Native.String.{◌++◌ as ◌++ₛ◌}
use scale_operator.Product.Types.{PricingRuleSpec}
use scale_operator.Product.Overlap.{ranges_overlap, overlap_from, is_overlapping_ranges}

-- The metric or method of a rule: a system name, with that of the backend before it if it has one.
abbrev pub key : PricingRuleSpec → String
key r = elim r.metric_method_ref.backend_system_name [
  | none ↦ r.metric_method_ref.system_name
  | some backend ↦ backend.value ++ₛ ("." ++ₛ r.metric_method_ref.system_name)
]

-- One of two ranges ends before the other starts, or where it starts.
unfoldable pub IsApart : PricingRuleSpec → PricingRuleSpec → Type 0
IsApart a b = (b.to_value ≤ℤ a.from_value) ⊎ (a.to_value ≤ℤ b.from_value)

-- No rule of the list overlaps `a`.
abbrev pub Apart : PricingRuleSpec → List PricingRuleSpec → Type 0
Apart a [] = Unit
Apart a (b ∷ bs) = IsApart a b × Apart a bs

-- No two rules of the list overlap.
abbrev pub Disjoint : List PricingRuleSpec → Type 0
Disjoint [] = Unit
Disjoint (a ∷ bs) = Apart a bs × Disjoint bs

IsApart-comm : (a b : PricingRuleSpec) → IsApart a b ↔ IsApart b a
unfolding IsApart
IsApart-comm a b = ground arith

overlap-IsApart : (a b : PricingRuleSpec) → (ranges_overlap a b ≡ false) ↔ IsApart a b
unfolding ranges_overlap IsApart
overlap-IsApart a b = ground arith

-- Every rule of `before` is apart from every rule of `rest`.
abbrev AllApart : List PricingRuleSpec → List PricingRuleSpec → Type 0
AllApart before [] = Unit
AllApart before (a ∷ rest) = Apart a before × AllApart before rest

any-Apart :
    (a : PricingRuleSpec) (bs : List PricingRuleSpec)
    → (any_by (ranges_overlap a) bs ≡ false) ↔ Apart a bs
any-Apart a [] = (λ _. tt, λ _. refl)
any-Apart a (b ∷ bs) = ground (arith, any-Apart a bs, overlap-IsApart a b)

Apart-snoc :
    (a b : PricingRuleSpec) (bs : List PricingRuleSpec)
    → Apart a (bs ++ b ∷ []) ↔ (Apart a bs × IsApart a b)
Apart-snoc a b [] = ground arith
Apart-snoc a b (c ∷ bs) = ground (arith, Apart-snoc a b bs)

AllApart-snoc :
    (before rest : List PricingRuleSpec) (b : PricingRuleSpec)
    → AllApart (before ++ b ∷ []) rest ↔ (AllApart before rest × Apart b rest)
AllApart-snoc before [] b = ground arith
AllApart-snoc before (a ∷ rest) b =
    ground (arith, AllApart-snoc before rest b, Apart-snoc a b before, IsApart-comm a b)

abbrev pub is_negative : ℤ → Bool
is_negative (pos _) = false
is_negative (negsuc _) = true

overlap_from-Disjoint :
    (i : ℕ) (before rest : List PricingRuleSpec)
    → (is_negative (overlap_from i before rest) ≡ true) ↔ (AllApart before rest × Disjoint rest)
unfolding overlap_from
overlap_from-Disjoint i before [] = (λ _. (tt, tt), λ _. refl)
overlap_from-Disjoint i before (a ∷ rest) = ground (
  arith,
  overlap_from-Disjoint (suc i) (before ++ a ∷ []) rest,
  any-Apart a before,
  AllApart-snoc before rest a,
)

AllApart-one :
    (a : PricingRuleSpec) (rest : List PricingRuleSpec) → AllApart (a ∷ []) rest ↔ Apart a rest
AllApart-one a [] = ground arith
AllApart-one a (b ∷ rest) = ground (arith, AllApart-one a rest, IsApart-comm a b)

-- The inner search finds no index exactly when no two rules of the list overlap.
pub is_overlapping_ranges-Disjoint :
    (g : List PricingRuleSpec) → (is_negative (is_overlapping_ranges g) ≡ true) ↔ Disjoint g
unfolding is_overlapping_ranges
is_overlapping_ranges-Disjoint [] = (λ _. tt, λ _. refl)
is_overlapping_ranges-Disjoint (a ∷ []) = (λ _. (tt, tt), λ _. refl)
is_overlapping_ranges-Disjoint (a ∷ b ∷ rest) =
    ground (arith, overlap_from-Disjoint 1 (a ∷ []) (b ∷ rest), AllApart-one a (b ∷ rest))
