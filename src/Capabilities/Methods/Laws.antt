-- ===== src/Capabilities/Methods/Laws.antt =====
-- The requests about methods ask for what they should.
use scale_operator.Prelude.{◌≡◌, refl, ap, ◌∙◌, some, [], nat_eq, string_eq, lookup, int_eq}
use scale_operator.Product.Types.{MethodSpec}
use scale_operator.Capabilities.Params.{
  Params, put, value_or, put_equal, put_applied, put_other, put_present_applied, put_present_other,
}
use scale_operator.Capabilities.Entity.{Method}
use scale_operator.Capabilities.Methods.{method_changes, method_params, method_kind}
use scale_operator.Capabilities.Sync.Store.{IsSettling}

-- A method after an update, in which a parameter that is absent changes nothing.
abbrev pub updated_method : Params → Method → Method
updated_method params item = record item {
  name = value_or item.name (lookup "friendly_name" params);
  description = value_or item.description (lookup "description" params);
}

-- A method that was created from parameters; one without a description has an empty one.
abbrev pub IsMadeMethod : Params → Method → Type 0
IsMadeMethod params item =
    (item.name ≡ value_or "" (lookup "friendly_name" params))
    × (item.description ≡ value_or "" (lookup "description" params))

method_changes-none :
    (spec : MethodSpec) (item : Method)
    → item.name ≡ spec.name
    → item.description ≡ spec.description
    → method_changes spec item ≡ []
unfolding method_changes
method_changes-none spec item n d =
    put_equal "description" spec.description item.description _ d
    ∙ put_equal "friendly_name" spec.name item.name [] n

pub method_kind-IsSettling : IsSettling method_kind updated_method IsMadeMethod
unfolding method_changes method_params
method_kind-IsSettling = record {
  changes_applied = λ spec item.
      method_changes-none spec (updated_method (method_changes spec item) item)
        (ap (value_or item.name)
            (put_other "description" spec.description item.description "friendly_name" _ refl)
          ∙ put_applied "friendly_name" spec.name item.name [] refl)
        (put_applied "description" spec.description item.description
          (put "friendly_name" (some spec.name) item.name [])
          (put_other "friendly_name" spec.name item.name "description" [] refl));
  changes_made = λ name spec item made.
      method_changes-none spec item
        (made.0
          ∙ ap (value_or "")
              (put_present_other "description" spec.description "friendly_name" _ refl))
        (made.1 ∙ put_present_applied "description" spec.description _ refl);
  new_name = λ name spec. put_present_other "description" spec.description "system_name" _ refl;
}
