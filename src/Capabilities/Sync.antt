-- ===== src/Capabilities/Sync.antt =====
-- What syncMethods of controllers/capabilities/methods.go and syncMetrics of
-- controllers/capabilities/metrics.go have in common, which is all but the parameters of the requests
-- and the calls of the entity: existing items are updated where they differ, desired ones that are
-- missing are created, and the others deleted. `reorder` is the order in which an iteration meets the
-- keys of a map that the code has built. The text that errors are wrapped in is left out.
pub mod Items
pub mod Maps
pub mod Store
pub mod Phases
pub mod Converges
use scale_operator.Prelude.{
  ℕ, String, ◌⊎◌, inl, inr, Option, none, some, List, [], ◌∷◌, map, nat_eq, string_eq, Dict, keys,
  lookup, insert, int_eq,
}
use scale_operator.Capabilities.Params.{Params}
use scale_operator.Helper.Slices.{array_string_difference, array_string_intersection}

-- The entity's calls, on a state of the entity and the API.
pub record Access (X E I : Type 0) : Type 0 where
  pub list : X → (E ⊎ List I) × X
  pub create : Params → X → Option E × X
  pub update : ℕ → Params → X → Option E × X
  pub delete : ℕ → X → Option E × X

-- The fields of an item, the zero values, and the parameters of an update and of a creation.
pub record Kind (I D : Type 0) : Type 0 where
  pub id : I → ℕ
  pub system_name : I → String
  pub no_item : I
  pub no_spec : D
  pub changes : D → I → Params
  pub new_params : String → D → Params

-- `for _, key := range keys { m[key] = value(key) }`
unfoldable pub assign_all :
    {V : Type 0} → (String → V) → List String → Dict String V → Dict String V
assign_all value [] m = m
assign_all value (key ∷ keys) m = assign_all value keys (insert key (value key) m)

-- A missing key reads as the zero value.
abbrev pub read_map : {V : Type 0} → V → Dict String V → String → V
read_map zero_value m key = elim (lookup key m) [ none ↦ zero_value | some v ↦ v ]

-- `if err != nil { return err }` before what follows.
unfoldable pub then_unless_failed :
    {X E : Type 0} → Option E × X → (X → Option E × X) → Option E × X
then_unless_failed (none, x) rest = rest x
then_unless_failed (some err, x) rest = (some err, x)

module _ {I D : Type 0} (kind : Kind I D) where
  -- The map from system names to the items of a list.
  unfoldable pub existing_map : List I → Dict String I → Dict String I
  existing_map [] m = m
  existing_map (item ∷ items) m = existing_map items (insert (kind.system_name item) item m)

  module _ (desired : Dict String D) where
    unfoldable pub matched_map : List I → Dict String (I × D)
    unfolding existing_map assign_all array_string_intersection
    matched_map items =
        let existing = existing_map items [] in
        assign_all (λ key. (read_map kind.no_item existing key, read_map kind.no_spec desired key))
          (array_string_intersection (map kind.system_name items) (keys desired)) []

    unfoldable pub desired_new_map : List I → Dict String D
    unfolding assign_all array_string_difference
    desired_new_map items =
        assign_all (read_map kind.no_spec desired)
          (array_string_difference (keys desired) (map kind.system_name items)) []

    unfoldable pub not_desired_map : List I → Dict String I
    unfolding existing_map assign_all array_string_difference
    not_desired_map items =
        assign_all (read_map kind.no_item (existing_map items []))
          (array_string_difference (map kind.system_name items) (keys desired)) []

module _ {X E I D : Type 0} (access : Access X E I) (kind : Kind I D) where
  -- `if len(params) > 0 { Update(id, params) }`
  unfoldable pub send_changes : ℕ → Params → X → Option E × X
  send_changes id [] x = (none, x)
  send_changes id (p ∷ params) x = access.update id (p ∷ params) x

  unfoldable pub reconcile_matched : Dict String (I × D) → X → Option E × X
  unfolding send_changes then_unless_failed
  reconcile_matched [] x = (none, x)
  reconcile_matched ((_, (item, spec)) ∷ matched) x =
      then_unless_failed (send_changes (kind.id item) (kind.changes spec item) x)
        (reconcile_matched matched)

  unfoldable pub create_new : Dict String D → X → Option E × X
  unfolding then_unless_failed
  create_new [] x = (none, x)
  create_new ((name, spec) ∷ desired) x =
      then_unless_failed (access.create (kind.new_params name spec) x) (create_new desired)

  unfoldable pub process_not_desired : Dict String I → X → Option E × X
  unfolding then_unless_failed
  process_not_desired [] x = (none, x)
  process_not_desired ((_, item) ∷ items) x =
      then_unless_failed (access.delete (kind.id item) x) (process_not_desired items)

  module _ (reorder : (V : Type 0) → Dict String V → Dict String V) (desired : Dict String D) where
    -- The three parts, after the list has been read.
    unfoldable pub sync_listed : List I → X → Option E × X
    unfolding reconcile_matched create_new process_not_desired matched_map desired_new_map
        not_desired_map then_unless_failed
    sync_listed items x =
        then_unless_failed (reconcile_matched (reorder _ (matched_map kind desired items)) x) (λ y.
          then_unless_failed (create_new (reorder _ (desired_new_map kind desired items)) y)
            (process_not_desired (reorder _ (not_desired_map kind desired items))))

    unfoldable pub sync_read : (E ⊎ List I) × X → Option E × X
    unfolding sync_listed
    sync_read (inl err, x) = (some err, x)
    sync_read (inr items, x) = sync_listed items x

    unfoldable pub sync : X → Option E × X
    unfolding sync_read
    sync x = sync_read (access.list x)
