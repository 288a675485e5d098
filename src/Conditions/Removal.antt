-- ===== src/Conditions/Removal.antt =====
-- `RemoveCondition` against a map from condition types to conditions.
use scale_operator.Prelude.{
  String, ◌≡◌, refl, none, [], ◌∷◌, arith, if◌then◌else◌, ◌==◌, ==_iff, nat_eq, string_eq, is_some,
  int_eq,
}
use scale_operator.Conditions.{Conditions, get_condition, remove_condition}
use scale_operator.Conditions.Laws.{IsDistinct}

module _ {T : Type 0} where
  found-remove_condition :
      (cs : Conditions T) (t : String) → (remove_condition cs t).0 ≡ is_some (get_condition cs t)
  unfolding remove_condition get_condition
  found-remove_condition [] t = refl
  found-remove_condition (c ∷ cs) t = ground (arith, found-remove_condition cs t)

  get-remove_condition :
      (cs : Conditions T) (t u : String)
      → IsDistinct cs
      → get_condition (remove_condition cs t).1 u ≡ (if t == u then none else get_condition cs u)
  unfolding remove_condition get_condition
  get-remove_condition [] t u d = ground arith
  get-remove_condition (c ∷ cs) t u d = ground (
    arith,
    get-remove_condition cs t u d.1,
    ==_iff c.condition_type t,
    ==_iff c.condition_type u,
    ==_iff t u,
  )

  -- Where no type is listed twice, a removal reports whether the type was there, no condition of
  -- that type is left, and what is found under every other type is unchanged.
  pub remove_condition_lem :
      (cs : Conditions T) (t u : String)
      → IsDistinct cs
      → ((remove_condition cs t).0 ≡ is_some (get_condition cs t))
        × (get_condition (remove_condition cs t).1 u
            ≡ (if t == u then none else get_condition cs u))
  remove_condition_lem cs t u d = (found-remove_condition cs t, get-remove_condition cs t u d)

  pub remove_condition-IsDistinct :
      (cs : Conditions T) (t : String) → IsDistinct cs → IsDistinct (remove_condition cs t).1
  unfolding remove_condition get_condition
  remove_condition-IsDistinct [] t d = d
  remove_condition-IsDistinct (c ∷ cs) t d = ground (
    arith,
    remove_condition-IsDistinct cs t d.1,
    get-remove_condition cs t c.condition_type d.1,
    ==_iff t c.condition_type,
  )
