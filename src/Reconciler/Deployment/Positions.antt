-- ===== src/Reconciler/Deployment/Positions.antt =====
-- The mutators that write containers by their positions.
use scale_operator.Prelude.{
  ℕ, zero, suc, ◌≤◌, ◌<◌, ◌≡◌, refl, ap, ◌↔◌, inl, inr, Bool, true, false, none, some, List, [],
  ◌∷◌, arith, ltb, Bool-cases, length, take, Eq, ◌==◌, ==_iff, nat_eq, string_eq, int_eq,
}
use scale_operator.Reconciler.Deployment.{sync_each, sync_one, sync_all, init_containers_mutator}

module _ {C : Type 0} ⦃comparable : Eq C⦄ where
  abbrev replace_all : List C → List C → Bool × List C
  replace_all = sync_all (λ e d. e == d) (λ d e. d)

  cons_iff :
      (e d : C) (es ds : List C) → e ≡ d → (es ≡ ds → e ∷ es ≡ d ∷ ds) × (e ∷ es ≡ d ∷ ds → es ≡ ds)
  cons_iff e d es ds same = ((λ h. cc), λ h. cc)

  replace_all_lem :
      (desired existing : List C)
      → length existing ≤ length desired
      → let r = replace_all desired existing in (r.1 ≡ desired) × (r.0 ≡ false ↔ existing ≡ desired)
  unfolding sync_all
  replace_all_lem [] [] le = (refl, ((λ h. refl), λ h. refl))
  replace_all_lem [] (e ∷ existing) le = absurd (ground arith)
  replace_all_lem (d ∷ desired) [] le =
      (ap (λ ds. d ∷ ds) (replace_all_lem desired [] (ground arith)).0, ((λ h. cc), λ h. cc))
  replace_all_lem (d ∷ desired) (e ∷ existing) le =
      let (all, flag) = replace_all_lem desired existing (ground arith) in
      elim (Bool-cases (e == d)) [
        | inl same ↦
            let eq = (==_iff e d).0 same in
            rw same (
              ap (λ p. p) (ground (arith, all, eq)),
              (
                (λ h. (cons_iff e d existing desired eq).0 (flag.0 h)),
                λ h. flag.1 ((cons_iff e d existing desired eq).1 h),
              ),
            )
        | inr other ↦ rw other (
          ground (arith, all),
          (
            (λ h. cc),
            λ h. let eq : e ≡ d = cc in absurd (ground (arith, (==_iff e d).1 eq, other)),
          ),
        )
      ]

  length-take_lem : (n : ℕ) (xs : List C) → n ≤ length xs → length (take n xs) ≡ n
  length-take_lem zero xs le = refl
  length-take_lem (suc n) [] le = absurd (ground arith)
  length-take_lem (suc n) (x ∷ xs) le = ap suc (length-take_lem n xs (ground arith))

  -- The init containers become the desired ones, and an update is reported exactly if they were not.
  pub init_containers_mutator_lem :
      (desired existing : List C)
      → let r = init_containers_mutator desired existing in
        (r.1 ≡ desired) × (r.0 ≡ false ↔ existing ≡ desired)
  unfolding init_containers_mutator
  init_containers_mutator_lem desired existing =
      elim (Bool-cases (ltb (length desired) (length existing))) [
        | inl more ↦
            let short = length-take_lem (length desired) existing (ground (arith, more)) in
            let taken = take (length desired) existing in
            rw more (
              (replace_all_lem desired taken (ground (arith, short))).0,
              ((λ h. cc), λ h. absurd (ground (arith, more, ap length h))),
            )
        | inr fits ↦ rw fits (replace_all_lem desired existing (ground (arith, fits)))
      ]

module _ {C : Type 0} (same : C → C → Bool) (copy : C → C → C)
    (copied : (d e : C) → same (copy d e) d ≡ true) where
  -- As many containers exist as are desired, and each agrees with the desired one.
  abbrev pub Agree : List C → List C → Type 0
  Agree [] existing = Unit
  Agree (d ∷ desired) [] = ⊥
  Agree (d ∷ desired) (e ∷ existing) = (same e d ≡ true) × Agree desired existing

  pub sync_each_short :
      (desired existing : List C)
      → length existing < length desired
      → sync_each same copy desired existing ≡ none
  unfolding sync_each sync_one
  sync_each_short [] existing lt = absurd (ground arith)
  sync_each_short (d ∷ desired) [] lt = refl
  sync_each_short (d ∷ desired) (e ∷ existing) lt =
      rw (sync_each_short desired existing (ground arith)) refl

  pub Agree-sync_each :
      (desired existing : List C)
      → Agree desired existing
      → sync_each same copy desired existing ≡ some (false, existing)
  unfolding sync_each sync_one
  Agree-sync_each [] existing a = refl
  Agree-sync_each (d ∷ desired) [] a = absurd a
  Agree-sync_each (d ∷ desired) (e ∷ existing) (s, a) =
      rw (Agree-sync_each desired existing a) (rw s refl)

  pub sync_each-Agree :
      (desired existing : List C)
      → length desired ≤ length existing
      → (r : Bool × List C) × (sync_each same copy desired existing ≡ some r)
        × Agree desired r.1
        × (r.0 ≡ false ↔ Agree desired existing)
        × (length r.1 ≡ length existing)
  unfolding sync_each sync_one
  sync_each-Agree [] existing le = ((false, existing), refl, tt, ((λ h. tt), λ h. refl), refl)
  sync_each-Agree (d ∷ desired) [] le = absurd (ground arith)
  sync_each-Agree (d ∷ desired) (e ∷ existing) le =
      let (r, runs, agree, flag, len) = sync_each-Agree desired existing (ground arith) in
      elim (Bool-cases (same e d)) [
        | inl is ↦ (
          (r.0, e ∷ r.1),
          rw (runs, is) refl,
          (is, agree),
          ((λ h. (is, flag.0 h)), λ h. flag.1 h.1),
          ap suc len,
        )
        | inr other ↦ (
          (true, copy d e ∷ r.1),
          rw (runs, other) refl,
          (copied d e, agree),
          ((λ h. cc), λ h. absurd (ground (arith, h.0, other))),
          ap suc len,
        )
      ]
