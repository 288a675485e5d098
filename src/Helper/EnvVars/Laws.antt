-- ===== src/Helper/EnvVars/Laws.antt =====
-- Environment variable lists as maps from names to variables.
use scale_operator.Prelude.{
  ℕ, zero, suc, String, ◌≡◌, refl, inl, inr, Bool, false, Option, none, some, List, [], ◌∷◌, ◌++◌,
  arith, if◌then◌else◌, Bool-cases, get_elem?, Eq, ◌==◌, ==_iff, nat_eq, string_eq, is_some, ℤ, pos,
  negsuc, int_eq,
}
use scale_operator.Helper.EnvVars.{
  find_env_var, set_at, remove_at, reconcile_indices, env_var_reconciler,
}

module _ {V : Type 0} ⦃e : Eq V⦄ (name : V → String) where
  abbrev pub env_var : List V → String → Option V
  env_var [] x = none
  env_var (v ∷ vs) x = if name v == x then some v else env_var vs x

  -- No name is listed twice.
  abbrev pub IsDistinct : List V → Type 0
  IsDistinct [] = Unit
  IsDistinct (v ∷ vs) = (env_var vs (name v) ≡ none) × IsDistinct vs

  pub env_var-append :
      (vs : List V) (v : V) (x : String)
      → env_var (vs ++ v ∷ []) x
        ≡ (if is_some (env_var vs x) then env_var vs x else if name v == x then some v else none)
  env_var-append [] v x = refl
  env_var-append (w ∷ vs) v x = ground (arith, env_var-append vs v x)

  pub env_var-name : (vs : List V) (x : String) {v : V} → env_var vs x ≡ some v → name v ≡ x
  env_var-name [] x h = cc
  env_var-name (w ∷ vs) x {v} h = ground (arith, env_var-name vs x {v = v}, ==_iff (name w) x)

  -- What an index that `FindEnvVar` returns stands for.
  abbrev pub Located : List V → String → ℤ → Type 0
  Located vs x (pos i) = (v : V) × (get_elem? vs i ≡ some v) × (env_var vs x ≡ some v)
  Located vs x (negsuc i) = (i ≡ 0) × (env_var vs x ≡ none)

  Located-cons :
      (v : V) (vs : List V) (x : String) (i : ℤ)
      → (name v == x) ≡ false
      → Located vs x i
      → Located (v ∷ vs) x (elim i [ pos k ↦ pos (suc k) | negsuc k ↦ negsuc k ])
  Located-cons v vs x (pos i) h l = (l.0, l.1, rw h l.2)
  Located-cons v vs x (negsuc i) h l = (l.0, rw h l.1)

  pub find_env_var-Located : (vs : List V) (x : String) → Located vs x (find_env_var name vs x)
  unfolding find_env_var
  find_env_var-Located [] x = (refl, refl)
  find_env_var-Located (v ∷ vs) x = elim (Bool-cases (name v == x)) [
    | inl here ↦ rw here (v, refl, rw here)
    | inr there ↦ let l = Located-cons v vs x _ there (find_env_var-Located vs x) in rw there l
  ]

  env_var-remove_at :
      (vs : List V) (x y : String) (i : ℕ)
      → IsDistinct vs
      → find_env_var name vs x ≡ pos i
      → env_var (remove_at name vs i) y ≡ (if x == y then none else env_var vs y)
  unfolding find_env_var
  env_var-remove_at [] x y i d h = cc
  env_var-remove_at (v ∷ vs) x y zero d h =
      ground (arith, ==_iff (name v) x, ==_iff x y, ==_iff (name v) y)
  env_var-remove_at (v ∷ vs) x y (suc i) d h =
      ground
        (arith, env_var-remove_at vs x y i d.1, ==_iff (name v) x, ==_iff x y, ==_iff (name v) y)

  pub env_var-set_at :
      (vs : List V) (x y : String) (i : ℕ) (w : V)
      → name w ≡ x
      → find_env_var name vs x ≡ pos i
      → env_var (set_at name vs i w) y ≡ (if x == y then some w else env_var vs y)
  unfolding find_env_var
  env_var-set_at [] x y i w n h = cc
  env_var-set_at (v ∷ vs) x y zero w n h =
      ground (arith, ==_iff (name v) x, ==_iff x y, ==_iff (name v) y)
  env_var-set_at (v ∷ vs) x y (suc i) w n h =
      ground (arith, env_var-set_at vs x y i w n, ==_iff (name v) x, ==_iff x y, ==_iff (name v) y)

  pub reconcile_lookup :
      (desired existing : List V) (x y : String) (d i : ℤ)
      → IsDistinct existing
      → find_env_var name desired x ≡ d
      → find_env_var name existing x ≡ i
      → Located desired x d
      → Located existing x i
      → env_var (reconcile_indices name desired existing d i).1 y
        ≡ (if x == y then env_var desired x else env_var existing y)
  unfolding reconcile_indices
  reconcile_lookup desired existing x y (negsuc d) (negsuc i) u hd hi ld li =
      ground (arith, ==_iff x y)
  reconcile_lookup desired existing x y (negsuc d) (pos i) u hd hi ld li =
      ground (arith, env_var-remove_at existing x y i u)
  reconcile_lookup desired existing x y (pos d) (negsuc i) u hd hi ld li = ground (
    arith,
    env_var-append existing ld.0 y,
    env_var-name desired x {v = ld.0} ld.2,
    ==_iff (name ld.0) y,
    ==_iff x y,
  )
  reconcile_lookup desired existing x y (pos d) (pos i) u hd hi ld li = ground (
    arith,
    env_var-set_at existing x y i ld.0 (env_var-name desired x {v = ld.0} ld.2),
    ==_iff li.0 ld.0,
    ==_iff x y,
  )

  pub reconcile_unchanged :
      (desired existing : List V) (d i : ℤ)
      → (reconcile_indices name desired existing d i).0 ≡ false
      → (reconcile_indices name desired existing d i).1 ≡ existing
  unfolding reconcile_indices
  reconcile_unchanged desired existing (negsuc d) (negsuc i) h = refl
  reconcile_unchanged desired existing (negsuc d) (pos i) h = cc
  reconcile_unchanged desired existing (pos d) (negsuc i) h = ground arith
  reconcile_unchanged desired existing (pos d) (pos i) h = ground arith

  abbrev pub Reconciles : List V → List V → String → Option (Bool × List V) → Type 0
  Reconciles desired existing x none = ⊥
  Reconciles desired existing x (some (updated, vs)) =
      ((y : String) → env_var vs y ≡ (if x == y then env_var desired x else env_var existing y))
      × (updated ≡ false → vs ≡ existing)

  -- On a list that names no variable twice, a reconciliation of one name does not panic, gives that
  -- name what the desired list has, or removes it if that has none, leaves every other name as it was,
  -- and reports no update only if the list is unchanged.
  pub env_var_reconciler_lem :
      (desired existing : List V) (x : String)
      → IsDistinct existing
      → Reconciles desired existing x (env_var_reconciler name desired (some existing) x)
  unfolding env_var_reconciler
  env_var_reconciler_lem desired existing x u = (
    λ y.
        reconcile_lookup desired existing x y _ _ u refl refl (find_env_var-Located desired x)
          (find_env_var-Located existing x),
    reconcile_unchanged desired existing _ _,
  )
