-- ===== src/Reconciler/Steps/Rules.antt =====
-- Rules for sequences of steps.
use scale_operator.Prelude.{ℕ, ◌≡◌, refl, ◌≢◌, Option, none, some, nat_eq, string_eq, int_eq}
use scale_operator.Reconciler.Steps.{
  Result, proceed, requeue, fails, panics, Step, next, ◌>>◌, checked, then_requeue,
}

-- From states with the invariant and `P`, a step keeps the invariant, and the next step starts with `Q`.
abbrev pub Triple {ℓ κ} :
    {E X : Type ℓ} → (X → Type κ) → (X → Type κ) → Step E X → (X → Type κ) → Type (ℓ ⊔ κ)
Triple {X = X} inv P m Q = (x : X) → inv x → P x → inv (m x).1 × ((m x).0 ≡ proceed → Q (m x).1)

next_Triple {ℓ κ} :
    {E X : Type ℓ} (inv Q R : X → Type κ) (k : Step E X) (r : Result E) (x : X)
    → Triple inv Q k R
    → inv x
    → (r ≡ proceed → Q x)
    → inv (next k (r, x)).1 × ((next k (r, x)).0 ≡ proceed → R (next k (r, x)).1)
unfolding next
next_Triple inv Q R k proceed x t i q = t x i (q refl)
next_Triple inv Q R k (requeue after err) x t i q = (i, λ h. cc)
next_Triple inv Q R k (fails err) x t i q = (i, λ h. cc)
next_Triple inv Q R k panics x t i q = (i, λ h. cc)

pub >>_Triple {ℓ κ} :
    {E X : Type ℓ} (inv P Q R : X → Type κ) (m k : Step E X)
    → Triple inv P m Q
    → Triple inv Q k R
    → Triple inv P (m >> k) R
unfolding ◌>>◌
>>_Triple inv P Q R m k tm tk x i p =
    let (i', q) = tm x i p in next_Triple inv Q R k (m x).0 (m x).1 tk i' q

-- What holds of a step's result whatever it is.
pub next-proceed {ℓ} :
    {E X : Type ℓ} (k : Step E X) (r : Result E) (x x' : X)
    → next k (r, x) ≡ (proceed, x')
    → (r ≡ proceed) × (k x ≡ (proceed, x'))
unfolding next
next-proceed k proceed x x' h = (refl, h)
next-proceed k (requeue after err) x x' h = cc
next-proceed k (fails err) x x' h = cc
next-proceed k panics x x' h = cc

pub then_requeue_stops :
    {E X : Type 0} (after : ℕ) (r : Option E × X) (x : X) → then_requeue after r ≢ (proceed, x)
unfolding then_requeue
then_requeue_stops after (none, y) x h = cc
then_requeue_stops after (some err, y) x h = cc

pub checked-proceed :
    {E X : Type 0} (r : Option E × X) (x : X) → checked r ≡ (proceed, x) → r ≡ (none, x)
unfolding checked
checked-proceed (none, y) x h = cc
checked-proceed (some err, y) x h = cc

pub then_requeue-state :
    {E X : Type 0} (after : ℕ) (r : Option E × X)
    → ((then_requeue after r).1 ≡ r.1) × ((then_requeue after r).0 ≢ proceed)
unfolding then_requeue
then_requeue-state after (none, x) = (refl, λ h. cc)
then_requeue-state after (some err, x) = (refl, λ h. cc)

pub checked-state : {E X : Type 0} (r : Option E × X) → (checked r).1 ≡ r.1
unfolding checked
checked-state (none, x) = refl
checked-state (some err, x) = refl

-- A step that only asks for a requeue leaves the state as it was.
pub next_requeue :
    {E X : Type 0} (after : ℕ) (r : Result E) (x : X)
    → (next (λ y. (requeue after none, y)) (r, x)).1 ≡ x
unfolding next
next_requeue after proceed x = refl
next_requeue after (requeue n err) x = refl
next_requeue after (fails err) x = refl
next_requeue after panics x = refl
