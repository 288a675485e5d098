-- ===== src/Helper/EnvVars/Ensure.antt =====
-- `EnsureEnvVar` and `RemoveDuplicateEnvVars` as operations on a map from names to variables.
use scale_operator.Prelude.{
  String, ◌≡◌, false, none, some, List, [], ◌∷◌, arith, if◌then◌else◌, Eq, ◌==◌, ==_iff, nat_eq,
  string_eq, contains, is_some, int_eq,
}
use scale_operator.Helper.EnvVars.{
  ensure_loop, ensure_env_var, remove_loop, remove_duplicate_env_vars,
}
use scale_operator.Helper.EnvVars.Laws.{env_var, IsDistinct, env_var-append}

module _ {V : Type 0} ⦃e : Eq V⦄ (name : V → String) where
  ensure_loop_lem :
      (v : V) (vs : List V) (y : String)
      → ((ensure_loop name v vs).0 ≡ is_some (env_var name vs (name v)))
        × ((ensure_loop name v vs).1 ≡ false → (ensure_loop name v vs).2 ≡ vs)
        × ((ensure_loop name v vs).0 ≡ false → (ensure_loop name v vs).2 ≡ vs)
        × (env_var name (ensure_loop name v vs).2 y ≡ (
            if name v == y
            then if is_some (env_var name vs y) then some v else none
            else env_var name vs y))
  unfolding ensure_loop
  ensure_loop_lem v [] y = ground arith
  ensure_loop_lem v (w ∷ vs) y = ground (
    arith,
    ensure_loop_lem v vs y,
    ==_iff (name w) (name v),
    ==_iff (name w) y,
    ==_iff (name v) y,
    ==_iff w v,
  )

  -- After an ensure the variable stands under its name and every other name is as it was, and an
  -- ensure that reports no update leaves the list unchanged.
  pub ensure_env_var_lem :
      (v : V) (vs : List V) (y : String)
      → (env_var name (ensure_env_var name v vs).1 y
          ≡ (if name v == y then some v else env_var name vs y))
        × ((ensure_env_var name v vs).0 ≡ false → (ensure_env_var name v vs).1 ≡ vs)
  unfolding ensure_env_var
  ensure_env_var_lem v vs y =
      ground (arith, ensure_loop_lem v vs y, env_var-append name vs v y, ==_iff (name v) y)

  remove_loop_lem :
      (set : List String) (vs : List V) (y : String)
      → env_var name (remove_loop name set vs) y
        ≡ (if contains set y then none else env_var name vs y)
  unfolding remove_loop
  remove_loop_lem set [] y = ground arith
  remove_loop_lem set (v ∷ vs) y = ground (
    arith,
    remove_loop_lem set vs y,
    remove_loop_lem (name v ∷ set) vs y,
    ==_iff (name v) y,
    ==_iff y (name v),
  )

  remove_loop-IsDistinct :
      (set : List String) (vs : List V) → IsDistinct name (remove_loop name set vs)
  unfolding remove_loop
  remove_loop-IsDistinct set [] = tt
  remove_loop-IsDistinct set (v ∷ vs) = ground (
    arith,
    remove_loop-IsDistinct set vs,
    remove_loop-IsDistinct (name v ∷ set) vs,
    remove_loop_lem (name v ∷ set) vs (name v),
    ==_iff (name v) (name v),
  )

  -- Without its duplicates a list names no variable twice and holds the same variable under every name.
  pub remove_duplicate_env_vars_lem :
      (vs : List V) (y : String)
      → IsDistinct name (remove_duplicate_env_vars name vs)
        × (env_var name (remove_duplicate_env_vars name vs) y ≡ env_var name vs y)
  unfolding remove_duplicate_env_vars
  remove_duplicate_env_vars_lem vs y = (remove_loop-IsDistinct [] vs, remove_loop_lem [] vs y)
