-- ===== src/Tests/Helper.antt =====
-- The slice helpers at concrete inputs.
use scale_operator.Prelude.{
  ◌≤◌, String, ◌≡◌, refl, ◌↔◌, Bool, true, false, ◌&&◌, some, List, [], ◌∷◌, ◌++◌, arith, length,
  get_elem?, Eq, ◌==◌, ==_iff, nat_eq, string_eq, contains, count, int_eq,
}
use scale_operator.Helper.Slices.{array_find, string_slice_equal_without_order}
use scale_operator.Helper.Slices.Laws.{array_find_lem}
use scale_operator.Helper.Slices.Unordered.{string_slice_equal_without_order_lem}
use scale_operator.Helper.EnvVars.{ensure_env_var, env_var_reconciler, remove_duplicate_env_vars}
use scale_operator.Helper.EnvVars.Laws.{env_var, IsDistinct, Reconciles, env_var_reconciler_lem}
use scale_operator.Helper.EnvVars.Ensure.{ensure_env_var_lem, remove_duplicate_env_vars_lem}

abbrev ports : List String
ports = "http" ∷ "metrics" ∷ []

same_ports : string_slice_equal_without_order ports ("metrics" ∷ "http" ∷ []) ≡ true
unfolding string_slice_equal_without_order
same_ports = refl

repeats_differ :
    string_slice_equal_without_order {A = String} ("a" ∷ "a" ∷ "b" ∷ []) ("a" ∷ "b" ∷ "b" ∷ [])
    ≡ false
unfolding string_slice_equal_without_order
repeats_differ = refl

array_find_lem_example :
    (array_find ports "metrics" ≤ length ports)
    × (get_elem? ports (array_find ports "metrics") ≡ some "metrics")
    × ((contains ports "metrics" ≡ false) ↔ (array_find ports "metrics" ≡ length ports))
array_find_lem_example = array_find_lem ports "metrics"

string_slice_equal_without_order_lem_example :
    (string_slice_equal_without_order ports ("metrics" ∷ "http" ∷ []) ≡ true)
    ↔ ((a : String) → count a ports ≡ count a ("metrics" ∷ "http" ∷ []))
string_slice_equal_without_order_lem_example =
    string_slice_equal_without_order_lem ports ("metrics" ∷ "http" ∷ [])

-- A variable with a name and a value.
record Variable : Type 0 where
  name : String
  value : String

variable_beq : Variable → Variable → Bool
variable_beq a b = a.name == b.name && a.value == b.value

variable_beq_iff : (a b : Variable) → (variable_beq a b ≡ true) ↔ (a ≡ b)
unfolding variable_beq
variable_beq_iff a b = ground (arith, ==_iff a.name b.name, ==_iff a.value b.value)

instance abbrev variable_eq : Eq Variable
variable_eq = record { same = variable_beq; same_iff = variable_beq_iff }

abbrev name_of : Variable → String
name_of v = v.name

abbrev desired : List Variable
desired = record { name = "RAILS_ENV"; value = "production" } ∷ []

abbrev existing : List Variable
existing =
    record { name = "SECRET"; value = "x" } ∷ record { name = "RAILS_ENV"; value = "test" } ∷ []

rails_env_is_updated :
    env_var_reconciler name_of desired (some existing) "RAILS_ENV"
    ≡ some (
      true,
      record { name = "SECRET"; value = "x" }
          ∷ record { name = "RAILS_ENV"; value = "production" }
          ∷ [],
    )
unfolding env_var_reconciler variable_beq
rails_env_is_updated = refl

env_var_reconciler_lem_example :
    Reconciles name_of desired existing "RAILS_ENV"
      (env_var_reconciler name_of desired (some existing) "RAILS_ENV")
env_var_reconciler_lem_example =
    env_var_reconciler_lem name_of desired existing "RAILS_ENV" (refl, (refl, tt))

ensured_secret :
    let v : Variable = record { name = "SECRET"; value = "y" } in
    (env_var name_of (ensure_env_var name_of v existing).1 "SECRET" ≡ some v)
    × ((ensure_env_var name_of v existing).0 ≡ false
        → (ensure_env_var name_of v existing).1 ≡ existing)
ensured_secret =
    ensure_env_var_lem name_of (record { name = "SECRET"; value = "y" }) existing "SECRET"

remove_duplicate_env_vars_lem_example :
    IsDistinct name_of (remove_duplicate_env_vars name_of (desired ++ existing))
    × (env_var name_of (remove_duplicate_env_vars name_of (desired ++ existing)) "RAILS_ENV"
        ≡ env_var name_of (desired ++ existing) "RAILS_ENV")
remove_duplicate_env_vars_lem_example =
    remove_duplicate_env_vars_lem name_of (desired ++ existing) "RAILS_ENV"
