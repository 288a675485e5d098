-- ===== src/Reconciler/Steps/Panics.antt =====
-- Chains of steps in which no step reads a nil pointer.
use scale_operator.Prelude.{ℕ, ◌≡◌, refl, ◌≢◌, Option, none, some, nat_eq, string_eq, int_eq}
use scale_operator.Reconciler.Steps.{
  Result, proceed, requeue, fails, panics, Step, ◌>>◌, next, checked, then_requeue,
}

-- From `P` the step does not panic, and `Q` holds where the next step begins.
abbrev pub NoPanic {ℓ κ} : {E X : Type ℓ} → (X → Type κ) → Step E X → (X → Type κ) → Type (ℓ ⊔ κ)
NoPanic P m Q = (x : _) → P x → ((m x).0 ≢ panics) × ((m x).0 ≡ proceed → Q (m x).1)

next_NoPanic {ℓ κ} :
    {E X : Type ℓ} (Q R : X → Type κ) (k : Step E X) (r : Result E) (x : X)
    → NoPanic Q k R
    → r ≢ panics
    → (r ≡ proceed → Q x)
    → ((next k (r, x)).0 ≢ panics) × ((next k (r, x)).0 ≡ proceed → R (next k (r, x)).1)
unfolding next
next_NoPanic Q R k proceed x t n q = t x (q refl)
next_NoPanic Q R k (requeue after err) x t n q = ((λ h. cc), λ h. cc)
next_NoPanic Q R k (fails err) x t n q = ((λ h. cc), λ h. cc)
next_NoPanic Q R k panics x t n q = ((λ h. n refl), λ h. absurd (n refl))

pub >>_NoPanic {ℓ κ} :
    {E X : Type ℓ} (P Q R : X → Type κ) (m k : Step E X)
    → NoPanic P m Q
    → NoPanic Q k R
    → NoPanic P (m >> k) R
unfolding ◌>>◌
>>_NoPanic P Q R m k tm tk x p = let (n, q) = tm x p in next_NoPanic Q R k (m x).0 (m x).1 tk n q

pub next-panics {ℓ} :
    {E X : Type ℓ} (k : Step E X) (r : Result E) (x : X)
    → r ≢ panics
    → (k x).0 ≢ panics
    → (next k (r, x)).0 ≢ panics
unfolding next
next-panics k proceed x n q = q
next-panics k (requeue after err) x n q = λ h. cc
next-panics k (fails err) x n q = λ h. cc
next-panics k panics x n q = λ h. n refl

pub checked-panics {ℓ} : {E X : Type ℓ} (r : Option E × X) → (checked r).0 ≢ panics
unfolding checked
checked-panics (none, x) = λ h. cc
checked-panics (some err, x) = λ h. cc

pub then_requeue-panics {ℓ} :
    {E X : Type ℓ} (after : ℕ) (r : Option E × X) → (then_requeue after r).0 ≢ panics
unfolding then_requeue
then_requeue-panics after (none, x) = λ h. cc
then_requeue-panics after (some err, x) = λ h. cc
