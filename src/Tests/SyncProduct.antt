-- ===== src/Tests/SyncProduct.antt =====
-- The synchronisation of a product with an API that is a record.
use scale_operator.Prelude.{
  String, Option, none, some, [], nat_eq, string_eq, Dict, lookup, insert, int_eq,
}
use scale_operator.Product.Types.{ProductSpec}
use scale_operator.Product.Accessors
use scale_operator.Capabilities.Params.{Params}
use scale_operator.Capabilities.SyncProduct.{ProductItem}
use scale_operator.Capabilities.SyncProduct.Settles.{or_else}

abbrev annotate : Option String → Dict String String → Dict String String
annotate none annotations = annotations
annotate (some v) annotations = insert "managed_by" v annotations

abbrev applied : Params → ProductItem → ProductItem
applied ps e = record {
  name = or_else (lookup "name" ps) e.name;
  description = or_else (lookup "description" ps) e.description;
  deployment_option = or_else (lookup "deployment_option" ps) e.deployment_option;
  backend_version = or_else (lookup "backend_version" ps) e.backend_version;
  annotations = annotate (lookup "annotations[managed_by]" ps) e.annotations;
}

abbrev api : Params → ProductItem → Option ProductItem × ProductItem
api ps e = (some (applied ps e), applied ps e)

abbrev undeployed : ProductSpec
undeployed = record {
  name = "api";
  system_name = "api";
  description = "the API";
  deployment = none;
  mapping_rules = [];
  backend_usages = [];
  metrics = none;
  methods = [];
  application_plans = [];
  policies = [];
}

abbrev item : ProductItem
item = record {
  name = "api";
  description = "";
  deployment_option = "hosted";
  backend_version = "1";
  annotations = [];
}
