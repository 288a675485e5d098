-- ===== src/Conditions.antt =====
-- pkg/apispkg/common/status_conditions.go: the condition set of a custom resource's status.
-- Times are only stored and copied, so their type `T` is a parameter, and the clock's reading is
-- an argument. A pointer result is an option. `MarshalJSON` is not modelled.
pub mod Laws
pub mod Removal
use scale_operator.Prelude.{
  String, Bool, true, false, not, ◌||◌, Option, none, some, List, [], ◌∷◌, if◌then◌else◌, ◌==◌,
  nat_eq, string_eq, int_eq,
}

pub record Condition (T : Type 0) : Type 0 where
  pub condition_type : String
  pub status : String
  pub reason : String
  pub message : String
  pub last_transition_time : T

abbrev pub Conditions : Type 0 → Type 0
Conditions T = List (Condition T)

abbrev pub condition_true : String
condition_true = "True"

abbrev pub condition_false : String
condition_false = "False"

abbrev pub condition_unknown : String
condition_unknown = "Unknown"

module _ {T : Type 0} where
  unfoldable pub is_true : Condition T → Bool
  is_true c = c.status == condition_true

  unfoldable pub is_false : Condition T → Bool
  is_false c = c.status == condition_false

  unfoldable pub is_unknown : Condition T → Bool
  is_unknown c = c.status == condition_unknown

  unfoldable pub is_true_for : Conditions T → String → Bool
  unfolding is_true
  is_true_for [] t = false
  is_true_for (c ∷ cs) t = if c.condition_type == t then is_true c else is_true_for cs t

  unfoldable pub is_false_for : Conditions T → String → Bool
  unfolding is_false
  is_false_for [] t = false
  is_false_for (c ∷ cs) t = if c.condition_type == t then is_false c else is_false_for cs t

  unfoldable pub is_unknown_for : Conditions T → String → Bool
  unfolding is_unknown
  is_unknown_for [] t = true
  is_unknown_for (c ∷ cs) t = if c.condition_type == t then is_unknown c else is_unknown_for cs t

  -- The entry that replaces `old`: an unchanged status keeps its transition time.
  keep_time : Condition T → Condition T → Condition T
  keep_time old new =
      if old.status == new.status
      then record new { last_transition_time = old.last_transition_time }
      else new

  differs : Condition T → Condition T → Bool
  differs old new =
      not (old.status == new.status)
      || (not (old.reason == new.reason) || not (old.message == new.message))

  -- The loop of `SetCondition`, on a condition that has its time.
  set_first : Condition T → Conditions T → Bool × Conditions T
  unfolding keep_time differs
  set_first new [] = (true, new ∷ [])
  set_first new (c ∷ cs) =
      let (changed, rest) = set_first new cs in
      if c.condition_type == new.condition_type
      then (differs c new, keep_time c new ∷ cs)
      else (changed, c ∷ rest)

  -- `now` is `clock.Now()`.
  unfoldable pub set_condition : T → Condition T → Conditions T → Bool × Conditions T
  unfolding set_first
  set_condition now new cs = set_first (record new { last_transition_time = now }) cs

  set_all : T → List (Condition T) → Conditions T → Conditions T
  set_all now [] cs = cs
  set_all now (c ∷ rest) cs = set_all now rest (set_condition now c cs).1

  unfoldable pub new_conditions : T → List (Condition T) → Conditions T
  unfolding set_all
  new_conditions now conds = set_all now conds []

  unfoldable pub get_condition : Conditions T → String → Option (Condition T)
  get_condition [] t = none
  get_condition (c ∷ cs) t = if c.condition_type == t then some c else get_condition cs t

  unfoldable pub get_condition_by_message : Conditions T → String → Option (Condition T)
  get_condition_by_message [] m = none
  get_condition_by_message (c ∷ cs) m =
      if c.message == m then some c else get_condition_by_message cs m

  unfoldable pub get_condition_by_reason : Conditions T → String → Option (Condition T)
  get_condition_by_reason [] r = none
  get_condition_by_reason (c ∷ cs) r =
      if c.reason == r then some c else get_condition_by_reason cs r

  -- `append(s[:i], s[i+1:]...)` at the first match.
  unfoldable pub remove_condition : Conditions T → String → Bool × Conditions T
  remove_condition [] t = (false, [])
  remove_condition (c ∷ cs) t =
      let (found, rest) = remove_condition cs t in
      if c.condition_type == t then (true, cs) else (found, c ∷ rest)

  unfoldable pub remove_condition_by_message : Conditions T → String → Bool × Conditions T
  remove_condition_by_message [] m = (false, [])
  remove_condition_by_message (c ∷ cs) m =
      let (found, rest) = remove_condition_by_message cs m in
      if c.message == m then (true, cs) else (found, c ∷ rest)

  unfoldable pub remove_condition_by_reason : Conditions T → String → Bool × Conditions T
  remove_condition_by_reason [] r = (false, [])
  remove_condition_by_reason (c ∷ cs) r =
      let (found, rest) = remove_condition_by_reason cs r in
      if c.reason == r then (true, cs) else (found, c ∷ rest)

  unfoldable pub copy : Conditions T → Conditions T
  copy [] = []
  copy (c ∷ cs) = c ∷ copy cs
