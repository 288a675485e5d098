-- ===== src/Conditions/Laws.antt =====
-- `SetCondition` against a map from condition types to conditions.
use scale_operator.Prelude.{
  String, ◌≡◌, refl, Bool, true, false, Option, none, some, List, [], ◌∷◌, arith, if◌then◌else◌,
  ◌==◌, ==_iff, nat_eq, string_eq, int_eq,
}
use scale_operator.Conditions.{
  Condition, Conditions, set_first, set_condition, set_all, new_conditions, get_condition,
}

module _ {T : Type 0} where
  -- What a set stores for a condition, given what was stored under its type before.
  abbrev pub stored : T → Condition T → Option (Condition T) → Condition T
  stored now new none = record new { last_transition_time = now }
  stored now new (some old) = record new {
    last_transition_time = if old.status == new.status then old.last_transition_time else now;
  }

  -- What a set reports.
  abbrev pub reported : Condition T → Option (Condition T) → Bool
  reported new none = true
  reported new (some old) =
      if old.status == new.status
      then if old.reason == new.reason
        then if old.message == new.message then false else true
        else true
      else true

  get-set_first :
      (now : T) (new : Condition T) (cs : Conditions T) (t : String)
      → let new' = record new { last_transition_time = now } in
        get_condition (set_first new' cs).1 t ≡ (
          if new.condition_type == t
          then some (stored now new (get_condition cs new.condition_type))
          else get_condition cs t)
  unfolding get_condition set_first
  get-set_first now new [] t = ground arith
  get-set_first now new (c ∷ cs) t = ground (
    arith,
    get-set_first now new cs t,
    ==_iff c.condition_type new.condition_type,
    ==_iff c.condition_type t,
    ==_iff new.condition_type t,
  )

  -- After a set the condition's type is found with its new contents, stamped with the clock's
  -- time unless a condition of that type was there with the same status, whose time is kept. What
  -- is found under every other type is unchanged.
  pub get_condition-set_condition :
      (now : T) (new : Condition T) (cs : Conditions T) (t : String)
      → get_condition (set_condition now new cs).1 t ≡ (
          if new.condition_type == t
          then some (stored now new (get_condition cs new.condition_type))
          else get_condition cs t)
  unfolding set_condition
  get_condition-set_condition now new cs t = get-set_first now new cs t

  reported-set_first :
      (now : T) (new : Condition T) (cs : Conditions T)
      → let new' = record new { last_transition_time = now } in
        (set_first new' cs).0 ≡ reported new (get_condition cs new.condition_type)
  unfolding get_condition set_first
  reported-set_first now new [] = refl
  reported-set_first now new (c ∷ cs) = ground (arith, reported-set_first now new cs)

  unchanged-set_first :
      (new : Condition T) (cs : Conditions T)
      → (set_first new cs).0 ≡ false
      → (set_first new cs).1 ≡ cs
  unfolding set_first
  unchanged-set_first new [] h = ground arith
  unchanged-set_first new (c ∷ cs) h = ground (
    arith,
    unchanged-set_first new cs,
    ==_iff c.condition_type new.condition_type,
    ==_iff c.status new.status,
    ==_iff c.reason new.reason,
    ==_iff c.message new.message,
  )

  -- A set reports a change unless the type was there with the same status, reason and message,
  -- and when it reports none the set of conditions is unchanged, times included.
  pub set_condition_change :
      (now : T) (new : Condition T) (cs : Conditions T)
      → ((set_condition now new cs).0 ≡ reported new (get_condition cs new.condition_type))
        × ((set_condition now new cs).0 ≡ false → (set_condition now new cs).1 ≡ cs)
  unfolding set_condition
  set_condition_change now new cs = (
    reported-set_first now new cs,
    unchanged-set_first (record new { last_transition_time = now }) cs,
  )

  -- No type is listed twice.
  abbrev pub IsDistinct : Conditions T → Type 0
  IsDistinct [] = Unit
  IsDistinct (c ∷ cs) = (get_condition cs c.condition_type ≡ none) × IsDistinct cs

  set_first-IsDistinct :
      (now : T) (new : Condition T) (cs : Conditions T)
      → IsDistinct cs
      → IsDistinct (set_first (record new { last_transition_time = now }) cs).1
  unfolding set_first get_condition
  set_first-IsDistinct now new [] d = ground arith
  set_first-IsDistinct now new (c ∷ cs) d = ground (
    arith,
    set_first-IsDistinct now new cs d.1,
    get-set_first now new cs c.condition_type,
    ==_iff c.condition_type new.condition_type,
    ==_iff new.condition_type c.condition_type,
  )

  pub set_condition-IsDistinct :
      (now : T) (new : Condition T) (cs : Conditions T)
      → IsDistinct cs
      → IsDistinct (set_condition now new cs).1
  unfolding set_condition
  set_condition-IsDistinct now new cs d = set_first-IsDistinct now new cs d

  set_all-IsDistinct :
      (now : T) (conds : List (Condition T)) (cs : Conditions T)
      → IsDistinct cs
      → IsDistinct (set_all now conds cs)
  unfolding set_all
  set_all-IsDistinct now [] cs d = d
  set_all-IsDistinct now (c ∷ rest) cs d =
      set_all-IsDistinct now rest (set_condition now c cs).1 (set_condition-IsDistinct now c cs d)

  -- A set built from any list of conditions holds each type at most once.
  pub new_conditions-IsDistinct :
      (now : T) (conds : List (Condition T)) → IsDistinct (new_conditions now conds)
  unfolding new_conditions
  new_conditions-IsDistinct now conds = set_all-IsDistinct now conds [] tt
