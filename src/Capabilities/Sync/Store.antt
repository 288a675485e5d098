-- ===== src/Capabilities/Sync/Store.antt =====
-- What a synchronisation relies on: the 3scale API keeps items by their system names and applies the
-- parameters of the requests that it accepts, and parameters leave nothing to change once applied.
use scale_operator.Prelude.{
  String, ◌≡◌, inr, false, none, some, List, [], if◌then◌else◌, ◌==◌, nat_eq, string_eq, lookup,
  int_eq,
}
use scale_operator.Capabilities.Params.{Params}
use scale_operator.Capabilities.Sync.{Access, Kind}
use scale_operator.Capabilities.Sync.Items.{find, IsDistinct}

-- The calls act on the items by their identifiers. `applied` is an item after an update, and `IsMade`
-- says that an item was created from parameters.
pub record IsStore {X E I D : Type 0} (access : Access X E I) (kind : Kind I D) (items : X → List I)
    (IsCoherent : X → Type 0) (applied : Params → I → I) (IsMade : Params → I → Type 0)
    : Type 0 where
  pub distinct : (x : X) → IsCoherent x → IsDistinct kind (items x)
  pub listed :
      (x x' : X) (l : List I)
      → IsCoherent x
      → access.list x ≡ (inr l, x')
      → (l ≡ items x) × IsCoherent x' × (items x' ≡ items x)
  pub updated :
      (x x' : X) (name : String) (item : I) (params : Params)
      → IsCoherent x
      → find kind name (items x) ≡ some item
      → access.update (kind.id item) params x ≡ (none, x')
      → IsCoherent x'
        × ((key : String)
            → find kind key (items x')
              ≡ (if name == key then some (applied params item) else find kind key (items x)))
  pub deleted :
      (x x' : X) (name : String) (item : I)
      → IsCoherent x
      → find kind name (items x) ≡ some item
      → access.delete (kind.id item) x ≡ (none, x')
      → IsCoherent x'
        × ((key : String)
            → find kind key (items x') ≡ (if name == key then none else find kind key (items x)))
  pub created :
      (x x' : X) (name : String) (params : Params)
      → IsCoherent x
      → lookup "system_name" params ≡ some name
      → find kind name (items x) ≡ none
      → access.create params x ≡ (none, x')
      → IsCoherent x'
        × ((item : I) × (find kind name (items x') ≡ some item) × IsMade params item)
        × ((key : String)
            → (name == key) ≡ false
            → find kind key (items x') ≡ find kind key (items x))

-- The parameters of a kind ask for what they should.
pub record IsSettling {I D : Type 0} (kind : Kind I D) (applied : Params → I → I)
    (IsMade : Params → I → Type 0) : Type 0 where
  pub changes_applied :
      (spec : D) (item : I) → kind.changes spec (applied (kind.changes spec item) item) ≡ []
  pub changes_made :
      (name : String) (spec : D) (item : I)
      → IsMade (kind.new_params name spec) item
      → kind.changes spec item ≡ []
  pub new_name :
      (name : String) (spec : D) → lookup "system_name" (kind.new_params name spec) ≡ some name
