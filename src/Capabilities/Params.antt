-- ===== src/Capabilities/Params.antt =====
-- The parameters of a request to the 3scale API, and the tests by which the synchronisation of a
-- product fills them (controllers/capabilities/proxy.go and product.go).
use scale_operator.Prelude.{
  String, ◌≡◌, refl, sym, ◌∙◌, Bool, true, false, ◌&&◌, Option, none, some, List, [], ◌∷◌, arith,
  if◌then◌else◌, ◌==◌, ==_iff, ==_refl, nat_eq, string_eq, Dict, lookup, insert, lookup-insert,
  int_eq, subst,
}

abbrev pub Params : Type 0
Params = Dict String String

-- `params[key] = *desired` where `desired` is set and is not what exists.
unfoldable pub put : String → Option String → String → Params → Params
put key none existing params = params
put key (some v) existing params = if existing == v then params else insert key v params

-- What happens to the product at the API.
pub data Outcome : Type 0 where
  panics : Outcome
  fails : Outcome
  unchanged : Outcome
  updated : Outcome

-- `if len(params) > 0 { Update(params) }`
unfoldable pub send {ℓ} : {S : Type ℓ} → (Params → S → Bool × S) → Params → S → Outcome × S
send update [] s = (unchanged, s)
send update (e ∷ ps) s =
    let (accepted, s') = update (e ∷ ps) s in (if accepted then updated else fails, s')

abbrev pub is_empty {ℓ} : {A : Type ℓ} → List A → Bool
is_empty [] = true
is_empty (_ ∷ _) = false

-- Whether a setting asks for nothing, or for what exists.
abbrev pub agrees : Option String → String → Bool
agrees none existing = true
agrees (some v) existing = existing == v

pub is_empty-insert : (key v : String) (ps : Params) → is_empty (insert key v ps) ≡ false
is_empty-insert key v [] = refl
is_empty-insert key v ((k, w) ∷ ps) = ground arith

pub is_empty-put :
    (key : String) (desired : Option String) (existing : String) (ps : Params)
    → is_empty (put key desired existing ps) ≡ (is_empty ps && agrees desired existing)
unfolding put
is_empty-put key none existing ps = ground arith
is_empty-put key (some v) existing ps = ground (arith, is_empty-insert key v ps)

-- What is under a key, and that no other key changes.
pub lookup-put :
    (key : String) (desired : Option String) (existing : String) (ps : Params) (other : String)
    → lookup other (put key desired existing ps) ≡ (
        if key == other
        then if agrees desired existing then lookup other ps else desired
        else lookup other ps)
unfolding put
lookup-put key none existing ps other = ground arith
lookup-put key (some v) existing ps other = ground (arith, lookup-insert key other v ps)

-- `if len(value) > 0 { params[key] = value }`
unfoldable pub put_present : String → String → Params → Params
put_present key value params = if value == "" then params else insert key value params

-- A parameter, or what holds without it.
abbrev pub value_or : String → Option String → String
value_or default none = default
value_or default (some v) = v

pub put_same : (key v : String) (ps : Params) → put key (some v) v ps ≡ ps
unfolding put
put_same key v ps = ground (arith, ==_refl v)

pub put_equal :
    (key v existing : String) (ps : Params) → existing ≡ v → put key (some v) existing ps ≡ ps
put_equal key v existing ps e = subst (λ w. put key (some v) w ps ≡ ps) (sym e) (put_same key v ps)

-- What exists is what is desired once the parameter has been applied.
pub put_applied :
    (key v existing : String) (ps : Params)
    → lookup key ps ≡ none
    → value_or existing (lookup key (put key (some v) existing ps)) ≡ v
unfolding put
put_applied key v existing ps absent =
    ground (arith, absent, ==_iff existing v, lookup-insert key key v ps, ==_refl key)

pub put_other :
    (key v existing other : String) (ps : Params)
    → (key == other) ≡ false
    → lookup other (put key (some v) existing ps) ≡ lookup other ps
put_other key v existing other ps differ =
    lookup-put key (some v) existing ps other ∙ rw differ refl

pub put_present_applied :
    (key v : String) (ps : Params)
    → lookup key ps ≡ none
    → value_or "" (lookup key (put_present key v ps)) ≡ v
unfolding put_present
put_present_applied key v ps absent =
    ground (arith, absent, ==_iff v "", lookup-insert key key v ps, ==_refl key)

pub put_present_other :
    (key v other : String) (ps : Params)
    → (key == other) ≡ false
    → lookup other (put_present key v ps) ≡ lookup other ps
unfolding put_present
put_present_other key v other ps differ = ground (arith, differ, lookup-insert key other v ps)
