-- ===== src/Iteration.antt =====
-- The order in which an iteration over a Go map meets its keys, where the code has built the map.
use scale_operator.Prelude.{
  String, ◌≡◌, inl, inr, true, false, none, some, [], ◌∷◌, arith, Bool-cases, ◌==◌, ==_iff, nat_eq,
  string_eq, Dict, lookup, int_eq, subst,
}

-- A map has every key once.
abbrev pub IsMap {ℓ} : {V : Type ℓ} → Dict String V → Type ℓ
IsMap [] = Unit
IsMap ((key, _) ∷ rest) = (lookup key rest ≡ none) × IsMap rest

-- An iteration meets the entries of a map, each once.
pub record IsReordering (reorder : (V : Type 0) → Dict String V → Dict String V) : Type 1 where
  pub lookup_reorder :
      {V : Type 0} (m : Dict String V) (key : String)
      → IsMap m
      → lookup key (reorder V m) ≡ lookup key m
  pub reorder_IsMap : {V : Type 0} (m : Dict String V) → IsMap m → IsMap (reorder V m)

pub fresh_key :
    {V : Type 0} (name key : String) (m : Dict String V)
    → lookup name m ≡ none
    → (name == key) ≡ true
    → lookup key m ≡ none
fresh_key name key m fresh same = subst (λ k. lookup k m ≡ none) ((==_iff name key).0 same) fresh

pub other_key :
    {V : Type 0} (name key : String) (m : Dict String V) (v : V)
    → lookup name m ≡ none
    → lookup key m ≡ some v
    → (name == key) ≡ false
other_key name key m v fresh there = elim (Bool-cases (name == key)) [
  | inl same ↦ absurd (ground (arith, fresh_key name key m fresh same, there))
  | inr other ↦ other
]
