-- ===== src/Reconciler.antt =====
-- pkg/reconcilers/base_reconciler.go: `ReconcileResource`, with the annotations that mark an object for
-- deletion in pkg/helper/kubernetes_types.go. An object is any type with annotations, which may be a nil
-- map, and the client of Kubernetes is a record of its requests; logging is left out.
pub mod Tags
pub mod Steps
pub mod Jobs
pub mod Status
pub mod Deployment
use scale_operator.Prelude.{
  String, Bool, false, Option, none, some, [], if◌then◌else◌, ◌==◌, nat_eq, string_eq, Dict, lookup,
  insert, int_eq,
}

abbrev pub delete_tag : String
delete_tag = "apps.3scale.net/delete"

abbrev pub propagation_policy_tag : String
propagation_policy_tag = "apps.3scale.net/delete-propagation-policy"

-- What a read of an object returns, or a mutation of the one that exists.
pub data Get {ℓ} (E O : Type ℓ) : Type ℓ where
  found : O → Get E O
  not_found : Get E O
  get_fails : E → Get E O

pub data Mutation {ℓ} (E O : Type ℓ) : Type ℓ where
  mutated : Bool → O → Mutation E O
  mutation_fails : E → Mutation E O

-- The requests. An error is `some`, as in the code; the read takes the object that has the key.
pub record Client {ℓ} (S E O : Type ℓ) : Type ℓ where
  pub get : O → S → Get E O
  pub create : O → S → Option E × S
  pub update : O → S → Option E × S
  pub delete : O → Option String → S → Option E × S

-- `TagObjectToDelete` and `TagToObjectDeleteWithPropagationPolicy`, on the object's annotations.
unfoldable pub tag_object_to_delete : Option (Dict String String) → Option (Dict String String)
tag_object_to_delete none = some (insert delete_tag "true" [])
tag_object_to_delete (some annotations) = some (insert delete_tag "true" annotations)

unfoldable pub tag_with_propagation_policy :
    String → Option (Dict String String) → Option (Dict String String)
tag_with_propagation_policy policy none =
    some (insert propagation_policy_tag policy (insert delete_tag "true" []))
tag_with_propagation_policy policy (some annotations) =
    some (insert propagation_policy_tag policy (insert delete_tag "true" annotations))

unfoldable pub is_tagged_to_delete : Option (Dict String String) → Bool
is_tagged_to_delete none = false
is_tagged_to_delete (some annotations) = elim (lookup delete_tag annotations) [
  | none ↦ false
  | some v ↦ v == "true"
]

unfoldable pub propagation_policy : Option (Dict String String) → Option String
propagation_policy none = none
propagation_policy (some annotations) = lookup propagation_policy_tag annotations

module _ {S E O : Type 0} (annotations : O → Option (Dict String String))
    (client : Client S E O) where
  -- After the read, and after the mutation.
  unfoldable pub finish_mutation : Mutation E O → S → Option E × S
  finish_mutation (mutation_fails err) s = (some err, s)
  finish_mutation (mutated changed o) s = if changed then client.update o s else (none, s)

  unfoldable pub reconcile_found : (O → O → Mutation E O) → O → O → S → Option E × S
  unfolding finish_mutation is_tagged_to_delete propagation_policy
  reconcile_found mutate desired existing s =
      if is_tagged_to_delete (annotations desired)
      then client.delete desired (propagation_policy (annotations desired)) s
      else finish_mutation (mutate existing desired) s

  unfoldable pub reconcile_got : (O → O → Mutation E O) → O → Get E O → S → Option E × S
  unfolding reconcile_found is_tagged_to_delete
  reconcile_got mutate desired (found existing) s = reconcile_found mutate desired existing s
  reconcile_got mutate desired not_found s =
      if is_tagged_to_delete (annotations desired) then (none, s) else client.create desired s
  reconcile_got mutate desired (get_fails err) s = (some err, s)

  unfoldable pub reconcile_resource : (O → O → Mutation E O) → O → S → Option E × S
  unfolding reconcile_got
  reconcile_resource mutate desired s = reconcile_got mutate desired (client.get desired s) s
