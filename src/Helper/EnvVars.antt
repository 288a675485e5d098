-- ===== src/Helper/EnvVars.antt =====
-- pkg/helper/envvarutils.go: lists of environment variables. The Kubernetes type `EnvVar` is a
-- parameter `V` with its `Name` and with `reflect.DeepEqual` as its equality; a pointer to a slice
-- is an option, and writing through a nil pointer a panic.
pub mod Laws
pub mod Distinct
pub mod Ensure
use scale_operator.Prelude.{
  ℕ, zero, suc, String, Bool, true, false, Option, none, some, List, [], ◌∷◌, ◌++◌, if◌then◌else◌,
  get_elem?, take, drop, Eq, ◌==◌, nat_eq, string_eq, contains, ℤ, pos, negsuc, int_eq,
}

module _ {V : Type 0} ⦃e : Eq V⦄ (name : V → String) where
  unfoldable pub find_env_var : List V → String → ℤ
  find_env_var [] x = negsuc 0
  find_env_var (n ∷ a) x =
      if name n == x
      then pos 0
      else elim (find_env_var a x) [ pos i ↦ pos (suc i) | negsuc i ↦ negsuc i ]

  -- The loop of `EnsureEnvVar`: whether the variable exists, whether it was updated, and the list.
  ensure_loop : V → List V → Bool × Bool × List V
  ensure_loop desired [] = (false, false, [])
  ensure_loop desired (v ∷ vs) =
      let (found, updated, rest) = ensure_loop desired vs in
      if name v == name desired
      then if v == desired then (true, false, v ∷ vs) else (true, true, desired ∷ vs)
      else (found, updated, v ∷ rest)

  unfoldable pub ensure_env_var : V → List V → Bool × List V
  unfolding ensure_loop
  ensure_env_var desired existing =
      let (found, updated, rest) = ensure_loop desired existing in
      if found then (updated, rest) else (true, rest ++ desired ∷ [])

  -- `set` is the map's key set.
  remove_loop : List String → List V → List V
  remove_loop set [] = []
  remove_loop set (v ∷ vs) =
      let fresh = v ∷ remove_loop (name v ∷ set) vs in
      let rest = remove_loop set vs in if contains set (name v) then rest else fresh

  unfoldable pub remove_duplicate_env_vars : List V → List V
  unfolding remove_loop
  remove_duplicate_env_vars env_vars = remove_loop [] env_vars

  abbrev pub set_at : List V → ℕ → V → List V
  set_at [] i w = []
  set_at (v ∷ vs) zero w = w ∷ vs
  set_at (v ∷ vs) (suc i) w = v ∷ set_at vs i w

  abbrev pub remove_at : List V → ℕ → List V
  remove_at vs i = take i vs ++ drop (suc i) vs

  -- A read out of bounds would panic; the indices come from `find_env_var`.
  unfoldable pub update_at : List V → ℕ → Option V → Option V → Bool × List V
  update_at existing i (some old) (some new) =
      if old == new then (false, existing) else (true, set_at existing i new)
  update_at existing i _ _ = (false, existing)

  unfoldable pub reconcile_indices : List V → List V → ℤ → ℤ → Bool × List V
  unfolding update_at
  reconcile_indices desired existing (negsuc _) (pos i) = (true, remove_at existing i)
  reconcile_indices desired existing (negsuc _) (negsuc _) = (false, existing)
  reconcile_indices desired existing (pos d) (negsuc _) = elim (get_elem? desired d) [
    | none ↦ (false, existing)
    | some v ↦ (true, existing ++ v ∷ [])
  ]
  reconcile_indices desired existing (pos d) (pos i) =
      update_at existing i (get_elem? existing i) (get_elem? desired d)

  -- `none` is the panic of a write through a nil pointer.
  unfoldable pub env_var_reconciler : List V → Option (List V) → String → Option (Bool × List V)
  unfolding find_env_var reconcile_indices
  env_var_reconciler desired none env_var = none
  env_var_reconciler desired (some existing) env_var = some (
      reconcile_indices desired existing (find_env_var desired env_var)
        (find_env_var existing env_var))
