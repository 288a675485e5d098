-- ===== src/Capabilities/SyncProduct/Update.antt =====
-- The whole synchronisation of a product, against an API that applies the parameters it accepts.
use scale_operator.Prelude.{◌≡◌, Option, some, nat_eq, string_eq, int_eq}
use scale_operator.Product.Accessors
use scale_operator.Capabilities.Params.{Params}
use scale_operator.Capabilities.SyncProduct.{ProductItem}
use scale_operator.Capabilities.SyncProduct.Settles.{IsApplied}

module _ {S : Type 0} (update_product : Params → S → Option ProductItem × S) where
  -- A request is answered with the product that it applies to, its parameters set.
  abbrev pub Answers : (S → ProductItem) → Type 0
  Answers remote =
      (ps : Params) (s : S) (e : ProductItem) (s' : S)
      → update_product ps s ≡ (some e, s')
      → IsApplied ps (remote s) e
