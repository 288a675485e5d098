-- ===== src/Tests/Conditions.antt =====
-- Condition sets at concrete inputs.
use scale_operator.Prelude.{
  ℕ, ◌≡◌, refl, true, false, some, [], ◌∷◌, nat_eq, string_eq, is_some, int_eq,
}
use scale_operator.Conditions.{
  Condition, Conditions, set_condition, new_conditions, get_condition, remove_condition,
}
use scale_operator.Conditions.Laws.{
  stored, reported, IsDistinct, get_condition-set_condition, set_condition_change,
  new_conditions-IsDistinct,
}
use scale_operator.Conditions.Removal.{remove_condition_lem}

abbrev synced : Condition ℕ
synced = record {
  condition_type = "Synced";
  status = "False";
  reason = "";
  message = "";
  last_transition_time = 0;
}

abbrev synced_now : Condition ℕ
synced_now = record synced { status = "True" }

abbrev failed : Condition ℕ
failed = record synced { condition_type = "Failed"; message = "no connection" }

abbrev before : Conditions ℕ
before = synced ∷ failed ∷ []

transition_is_stamped :
    set_condition 7 synced_now before
    ≡ (true, record synced_now { last_transition_time = 7 } ∷ failed ∷ [])
unfolding set_condition
transition_is_stamped = refl

get_condition-set_condition_example :
    get_condition (set_condition 7 synced_now before).1 "Synced"
    ≡ some (stored 7 synced_now (get_condition before "Synced"))
get_condition-set_condition_example = get_condition-set_condition 7 synced_now before "Synced"

set_condition_change_example :
    ((set_condition 7 failed before).0 ≡ reported failed (get_condition before "Failed"))
    × ((set_condition 7 failed before).0 ≡ false → (set_condition 7 failed before).1 ≡ before)
set_condition_change_example = set_condition_change 7 failed before

three_conditions-IsDistinct : IsDistinct (new_conditions 7 (synced ∷ failed ∷ synced_now ∷ []))
three_conditions-IsDistinct = new_conditions-IsDistinct 7 (synced ∷ failed ∷ synced_now ∷ [])

before-IsDistinct : IsDistinct before
unfolding get_condition
before-IsDistinct = (refl, (refl, tt))

remove_condition_lem_example :
    ((remove_condition before "Synced").0 ≡ is_some (get_condition before "Synced"))
    × (get_condition (remove_condition before "Synced").1 "Failed" ≡ get_condition before "Failed")
remove_condition_lem_example = remove_condition_lem before "Synced" "Failed" before-IsDistinct
