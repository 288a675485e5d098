-- ===== src/Capabilities/SyncProduct/Settles.antt =====
-- After an update that the API accepted, the synchronisation of a product is done.
use scale_operator.Prelude.{
  String, ◌≡◌, refl, sym, ap, ◌∙◌, Bool, true, false, Option, none, some, [], arith, if◌then◌else◌,
  ◌==◌, ==_iff, ==_refl, nat_eq, string_eq, Dict, lookup, lookup-insert, int_eq,
}
use scale_operator.Product.Types.{ProductSpec}
use scale_operator.Product.Accessors
use scale_operator.Capabilities.Params.{Params, put, agrees, lookup-put}
use scale_operator.Capabilities.SyncProduct.{
  ProductItem, managed_by_operator_annotation_exists, product_params,
}
use scale_operator.Capabilities.SyncProduct.Laws.{agrees_with}

-- What is sent under a key, if it is the key of a setting: its value where that does not agree.
abbrev sent : Option String → String → Option String
sent desired existing = if agrees desired existing then none else desired

abbrev pub or_else : Option String → String → String
or_else none old = old
or_else (some v) old = v

agrees-sent :
    (desired : Option String) (existing : String)
    → agrees desired (or_else (sent desired existing) existing) ≡ true
agrees-sent none existing = refl
agrees-sent (some v) existing = ground (arith, ==_iff existing v, ==_refl v)

-- What a test of a setting leaves under a key.
abbrev after : String → Option String → String → String → Option String → Option String
after key desired existing k before =
    if key == k then if agrees desired existing then before else desired else before

-- What is sent under any key.
abbrev sent_under : ProductSpec → Option String → ProductItem → String → Option String
sent_under p mode e k = after "backend_version" mode e.backend_version k (
    after "deployment_option" (Accessors.deployment_option p) e.deployment_option k (
      after "description" (some p.description) e.description k
        (after "name" (some p.name) e.name k none)))

lookup-product_params :
    (p : ProductSpec) (mode : Option String) (e : ProductItem) (k : String)
    → lookup k (product_params p mode e) ≡ (
        if managed_by_operator_annotation_exists e.annotations
        then sent_under p mode e k
        else if "annotations[managed_by]" == k
        then some "operator"
        else sent_under p mode e k)
unfolding product_params
lookup-product_params p mode e k =
    let ps₁ = put "name" (some p.name) e.name [] in
    let ps₂ = put "description" (some p.description) e.description ps₁ in
    let option = Accessors.deployment_option p in
    let ps₃ = put "deployment_option" option e.deployment_option ps₂ in
    ground (
      arith,
      lookup-put "name" (some p.name) e.name [] k,
      lookup-put "description" (some p.description) e.description ps₁ k,
      lookup-put "deployment_option" option e.deployment_option ps₂ k,
      lookup-put "backend_version" mode e.backend_version ps₃ k,
      lookup-insert "annotations[managed_by]" k "operator"
          (put "backend_version" mode e.backend_version ps₃),
    )

sent_params :
    (p : ProductSpec) (mode : Option String) (e : ProductItem)
    → let ps = product_params p mode e in
      (lookup "name" ps ≡ sent (some p.name) e.name)
      × (lookup "description" ps ≡ sent (some p.description) e.description)
      × (lookup "deployment_option" ps ≡ sent (Accessors.deployment_option p) e.deployment_option)
      × (lookup "backend_version" ps ≡ sent mode e.backend_version)
      × (lookup "annotations[managed_by]" ps
          ≡ (if managed_by_operator_annotation_exists e.annotations then none else some "operator"))
sent_params p mode e = ground (
  arith,
  lookup-product_params p mode e "name",
  lookup-product_params p mode e "description",
  lookup-product_params p mode e "deployment_option",
  lookup-product_params p mode e "backend_version",
  lookup-product_params p mode e "annotations[managed_by]",
)

-- A value in place of an old one, if it is sent.
abbrev pub renewed : Option String → Option String → Option String
renewed none old = old
renewed (some v) old = some v

-- The API's documented answer to an update: the product, with the parameters in their fields.
abbrev pub IsApplied : Params → ProductItem → ProductItem → Type 0
IsApplied ps e e' =
    (e'.name ≡ or_else (lookup "name" ps) e.name)
    × (e'.description ≡ or_else (lookup "description" ps) e.description)
    × (e'.deployment_option ≡ or_else (lookup "deployment_option" ps) e.deployment_option)
    × (e'.backend_version ≡ or_else (lookup "backend_version" ps) e.backend_version)
    × (lookup "managed_by" e'.annotations
        ≡ renewed (lookup "annotations[managed_by]" ps) (lookup "managed_by" e.annotations))

abbrev owned : Option String → Bool
owned none = false
owned (some v) = v == "operator"

owned-renewed :
    (old : Option String) (b : Bool)
    → owned old ≡ b
    → owned (renewed (if b then none else some "operator") old) ≡ true
owned-renewed old true h = h
owned-renewed old false h = refl

exists-owned :
    (annotations : Dict String String)
    → managed_by_operator_annotation_exists annotations ≡ owned (lookup "managed_by" annotations)
unfolding managed_by_operator_annotation_exists
exists-owned annotations = ground arith

annotations-applied :
    (p : ProductSpec) (mode : Option String) (e e' : ProductItem)
    → IsApplied (product_params p mode e) e e'
    → managed_by_operator_annotation_exists e'.annotations ≡ true
annotations-applied p mode e e' h =
    let (_, _, _, _, sets) = h in
    let (_, _, _, _, asks) = sent_params p mode e in
    let old = lookup "managed_by" e.annotations in
    let exists = managed_by_operator_annotation_exists e.annotations in
    exists-owned e'.annotations
    ∙ (ap owned (sets ∙ ap (λ o. renewed o old) asks)
        ∙ owned-renewed old exists (sym (exists-owned e.annotations)))

pub applied-agrees :
    (p : ProductSpec) (mode : Option String) (e e' : ProductItem)
    → IsApplied (product_params p mode e) e e'
    → agrees_with p mode e' ≡ true
applied-agrees p mode e e' h = ground (
  arith,
  sent_params p mode e,
  h,
  annotations-applied p mode e e' h,
  agrees-sent (some p.name) e.name,
  agrees-sent (some p.description) e.description,
  agrees-sent (Accessors.deployment_option p) e.deployment_option,
  agrees-sent mode e.backend_version,
)
