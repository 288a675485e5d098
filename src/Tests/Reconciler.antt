-- ===== src/Tests/Reconciler.antt =====
-- The reconciliation of an object in a cluster that holds at most that object.
use scale_operator.Prelude.{
  String, ◌≡◌, refl, true, false, Option, none, some, if◌then◌else◌, ◌==◌, nat_eq, string_eq, Dict,
  int_eq,
}
use scale_operator.Reconciler.{
  delete_tag, propagation_policy_tag, Get, found, not_found, Mutation, mutated, Client,
  is_tagged_to_delete, tag_object_to_delete, tag_with_propagation_policy, propagation_policy,
  reconcile_resource,
}
use scale_operator.Reconciler.Tags.{annotation, tags_lem}

record Item : Type 0 where
  annotations : Option (Dict String String)
  content : String

abbrev get : Item → Option Item → Get String Item
get d none = not_found
get d (some o) = found o

abbrev cluster : Client (Option Item) String Item
cluster = record {
  get = get;
  create = λ o s. (none, some o);
  update = λ o s. (none, some o);
  delete = λ o policy s. (none, none);
}

abbrev annotations_of : Item → Option (Dict String String)
annotations_of o = o.annotations

abbrev replace : Item → Item → Mutation String Item
replace o d = if o.content == d.content then mutated false o else mutated true d

abbrev desired : Item
desired = record { annotations = none; content = "two" }

abbrev existing : Item
existing = record { annotations = none; content = "one" }

updates :
    reconcile_resource annotations_of cluster replace desired (some existing) ≡ (none, some desired)
unfolding reconcile_resource
updates = refl

tags : propagation_policy (tag_with_propagation_policy "Foreground" none) ≡ some "Foreground"
unfolding tag_with_propagation_policy propagation_policy
tags = refl

deletes : is_tagged_to_delete (tag_object_to_delete none) ≡ true
unfolding tag_object_to_delete is_tagged_to_delete
deletes = refl

tags_lem_example :
    let tagged = tag_object_to_delete none in
    let with_policy = tag_with_propagation_policy "Orphan" none in
    let kept = if delete_tag == "app" then some "true" else annotation "app" none in
    (is_tagged_to_delete tagged ≡ true)
    × (propagation_policy tagged ≡ propagation_policy none)
    × (is_tagged_to_delete with_policy ≡ true)
    × (propagation_policy with_policy ≡ some "Orphan")
    × (annotation "app" tagged ≡ kept)
    × (annotation "app" with_policy
        ≡ (if propagation_policy_tag == "app" then some "Orphan" else kept))
tags_lem_example = tags_lem "Orphan" "app" none
