-- ===== src/Helper/EnvVars/Distinct.antt =====
-- The list that a reconciliation by name leaves names nothing twice.
use scale_operator.Prelude.{
  ℕ, zero, suc, String, ◌≡◌, refl, sym, ◌∙◌, inl, inr, Bool, true, false, Option, none, some, List,
  [], ◌∷◌, ◌++◌, arith, Bool-cases, get_elem?, Eq, ◌==◌, ==_iff, nat_eq, string_eq, ℤ, pos, negsuc,
  int_eq, subst,
}
use scale_operator.Helper.EnvVars.{find_env_var, set_at, remove_at, update_at, reconcile_indices}
use scale_operator.Helper.EnvVars.Laws.{
  env_var, IsDistinct, env_var-append, env_var-name, env_var-set_at, Located,
}

module _ {V : Type 0} ⦃e : Eq V⦄ (name : V → String) where
  env_var-remove_none :
      (vs : List V) (y : String) (i : ℕ)
      → env_var name vs y ≡ none
      → env_var name (remove_at name vs i) y ≡ none
  env_var-remove_none [] y zero h = refl
  env_var-remove_none [] y (suc i) h = refl
  env_var-remove_none (v ∷ vs) y zero h = ground (arith, h)
  env_var-remove_none (v ∷ vs) y (suc i) h = ground (arith, h, env_var-remove_none vs y i)

  IsDistinct-remove_at :
      (vs : List V) (i : ℕ) → IsDistinct name vs → IsDistinct name (remove_at name vs i)
  IsDistinct-remove_at [] zero d = tt
  IsDistinct-remove_at [] (suc i) d = tt
  IsDistinct-remove_at (v ∷ vs) zero d = d.1
  IsDistinct-remove_at (v ∷ vs) (suc i) d =
      (env_var-remove_none vs (name v) i d.0, IsDistinct-remove_at vs i d.1)

  IsDistinct-set_at :
      (vs : List V) (x : String) (i : ℕ) (w : V)
      → name w ≡ x
      → find_env_var name vs x ≡ pos i
      → IsDistinct name vs
      → IsDistinct name (set_at name vs i w)
  unfolding find_env_var
  IsDistinct-set_at [] x i w n h d = tt
  IsDistinct-set_at (v ∷ vs) x zero w n h d =
      let same : (name v == x) ≡ true = ground arith in
      let eq : name v ≡ name w = (==_iff (name v) x).0 same ∙ sym n in
      (subst (λ y. env_var name vs y ≡ none) eq d.0, d.1)
  IsDistinct-set_at (v ∷ vs) x (suc i) w n h d =
      let other : (name v == x) ≡ false = ground arith in
      let found : find_env_var name vs x ≡ pos i = ground arith in
      (
        ground (
          arith,
          env_var-set_at name vs x (name v) i w n found,
          ==_iff (name v) x,
          ==_iff x (name v),
          d.0,
        ),
        IsDistinct-set_at vs x i w n found d.1,
      )

  IsDistinct-append :
      (vs : List V) (v : V)
      → env_var name vs (name v) ≡ none
      → IsDistinct name vs
      → IsDistinct name (vs ++ v ∷ [])
  IsDistinct-append [] v h d = (refl, tt)
  IsDistinct-append (w ∷ vs) v h d = (
    ground (
      arith,
      env_var-append name vs v (name w),
      ==_iff (name v) (name w),
      ==_iff (name w) (name v),
      d.0,
      h,
    ),
    IsDistinct-append vs v (ground (arith, h)) d.1,
  )

  update_at-IsDistinct :
      (existing : List V) (x : String) (i : ℕ) (w v : V)
      → name v ≡ x
      → find_env_var name existing x ≡ pos i
      → IsDistinct name existing
      → IsDistinct name (update_at name existing i (some w) (some v)).1
  unfolding update_at
  update_at-IsDistinct existing x i w v n h u = elim (Bool-cases (w == v)) [
    | inl same ↦ rw same u
    | inr other ↦ rw other (IsDistinct-set_at existing x i v n h u)
  ]

  pub reconcile_indices-IsDistinct :
      (desired existing : List V) (x : String) (d i : ℤ)
      → IsDistinct name existing
      → find_env_var name existing x ≡ i
      → Located name desired x d
      → Located name existing x i
      → IsDistinct name (reconcile_indices name desired existing d i).1
  unfolding reconcile_indices
  reconcile_indices-IsDistinct desired existing x (negsuc d) (negsuc i) u hi ld li = u
  reconcile_indices-IsDistinct desired existing x (negsuc d) (pos i) u hi ld li =
      IsDistinct-remove_at existing i u
  reconcile_indices-IsDistinct desired existing x (pos d) (negsuc i) u hi (v, at, has) li =
      subst
        (λ (o : Option V).
          IsDistinct name
            (elim o as (λ _. Bool × List V) [
              | none ↦ (false, existing)
              | some w ↦ (true, existing ++ w ∷ [])
            ]).1)
        (sym at)
        (IsDistinct-append existing v
          (subst (λ y. env_var name existing y ≡ none) (sym (env_var-name name desired x has)) li.1)
          u)
  reconcile_indices-IsDistinct desired existing x (pos d) (pos i) u hi (v, at, has) (w, at', has') =
      subst
        (λ (o : Option V). IsDistinct name (update_at name existing i (get_elem? existing i) o).1)
        (sym at)
        (subst (λ (o : Option V). IsDistinct name (update_at name existing i o (some v)).1)
          (sym at') (update_at-IsDistinct existing x i w v (env_var-name name desired x has) hi u))
