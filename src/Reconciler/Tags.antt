-- ===== src/Reconciler/Tags.antt =====
-- The annotations that mark an object for deletion.
use scale_operator.Prelude.{
  String, ◌≡◌, true, Option, none, some, [], arith, if◌then◌else◌, ◌==◌, nat_eq, string_eq, Dict,
  lookup, insert, lookup-insert, int_eq,
}
use scale_operator.Reconciler.{
  delete_tag, propagation_policy_tag, tag_object_to_delete, tag_with_propagation_policy,
  is_tagged_to_delete, propagation_policy,
}

-- What is under each key of an object's annotations, which may be a nil map.
abbrev pub annotation : String → Option (Dict String String) → Option String
annotation k none = none
annotation k (some annotations) = lookup k annotations

-- Both ways to tag an object make it one to be deleted, the second one with the policy that it was
-- given and the first with the policy that it had; the tag and the policy are written under their own
-- keys, and every other annotation stays as it was.
pub tags_lem :
    (policy k : String) (annotations : Option (Dict String String))
    → let tagged = tag_object_to_delete annotations in
      let with_policy = tag_with_propagation_policy policy annotations in
      let kept = if delete_tag == k then some "true" else annotation k annotations in
      (is_tagged_to_delete tagged ≡ true)
      × (propagation_policy tagged ≡ propagation_policy annotations)
      × (is_tagged_to_delete with_policy ≡ true)
      × (propagation_policy with_policy ≡ some policy)
      × (annotation k tagged ≡ kept)
      × (annotation k with_policy ≡ (if propagation_policy_tag == k then some policy else kept))
unfolding tag_object_to_delete tag_with_propagation_policy is_tagged_to_delete propagation_policy
tags_lem policy k none =
    let m : Dict String String = [] in
    let m' = insert delete_tag "true" m in
    ground
      (arith, lookup-insert delete_tag k "true" m, lookup-insert propagation_policy_tag k policy m')
tags_lem policy k (some m) =
    let m' = insert delete_tag "true" m in
    ground (
      arith,
      lookup-insert delete_tag delete_tag "true" m,
      lookup-insert delete_tag propagation_policy_tag "true" m,
      lookup-insert propagation_policy_tag delete_tag policy m',
      lookup-insert propagation_policy_tag propagation_policy_tag policy m',
      lookup-insert delete_tag k "true" m,
      lookup-insert propagation_policy_tag k policy m',
    )
