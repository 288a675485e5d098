-- ===== src/Reconciler/Steps.antt =====
-- The steps of the reconcilers in controllers/apps (apimanagerbackup_logic_reconciler.go and
-- apimanagerrestore_logic_reconciler.go): each step returns a `reconcile.Result` and an error, and the
-- caller goes on only if `result.Requeue || err != nil` is false.
pub mod Rules
pub mod Panics
use scale_operator.Prelude.{ℕ, Option, none, some, nat_eq, string_eq, int_eq}

-- `proceed` is an empty result with no error, `requeue` has the seconds to wait, `fails` an empty
-- result with an error. A nil pointer that is read panics.
pub data Result {ℓ} (E : Type ℓ) : Type ℓ where
  proceed : Result E
  requeue : ℕ → Option E → Result E
  fails : E → Result E
  panics : Result E

abbrev pub Step {ℓ} : Type ℓ → Type ℓ → Type ℓ
Step E X = X → Result E × X

-- `if result.Requeue || err != nil { return result, err }` before the next step.
unfoldable pub next {ℓ} : {E X : Type ℓ} → Step E X → Result E × X → Result E × X
next k (proceed, x) = k x
next k (requeue after err, x) = (requeue after err, x)
next k (fails err, x) = (fails err, x)
next k (panics, x) = (panics, x)

infixr 5 ◌>>◌
unfoldable pub ◌>>◌ {ℓ} : {E X : Type ℓ} → Step E X → Step E X → Step E X
(m >> k) x = next k (m x)

-- `if err != nil { return reconcile.Result{}, err }` after a request.
unfoldable pub checked {ℓ} : {E X : Type ℓ} → Option E × X → Result E × X
checked (none, x) = (proceed, x)
checked (some err, x) = (fails err, x)

-- A request, and then a requeue if it had no error.
unfoldable pub then_requeue {ℓ} : {E X : Type ℓ} → ℕ → Option E × X → Result E × X
then_requeue after (none, x) = (requeue after none, x)
then_requeue after (some err, x) = (fails err, x)
