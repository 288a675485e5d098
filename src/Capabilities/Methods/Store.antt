-- ===== src/Capabilities/Methods/Store.antt =====
-- The methods of an entity, with what it keeps of their list, as the store of a synchronisation.
use scale_operator.Prelude.{
  ℕ, String, ◌≡◌, sym, ap, ◌∙◌, ◌⊎◌, inl, inr, false, Option, none, some, List, if◌then◌else◌, ◌==◌,
  nat_eq, string_eq, lookup, int_eq, subst,
}
use scale_operator.Capabilities.Params.{Params}
use scale_operator.Capabilities.Entity.{
  Metric, Method, Caches, Client, reset_methods, get_hits_id, methods, get_methods, create_method,
  update_method, delete_method, with_hits,
}
use scale_operator.Capabilities.Entity.Reads.{
  on_result-inr, read_through-inr, Keeps, metrics_and_methods_law, get_hits_id_law, with_hits_law,
}
use scale_operator.Capabilities.Sync.Items.{find, IsDistinct}
use scale_operator.Capabilities.Sync.Store.{IsStore}
use scale_operator.Capabilities.Methods.{method_kind, method_access}
use scale_operator.Capabilities.Methods.Laws.{updated_method, IsMadeMethod}

-- The 3scale API's methods: reading changes none, their system names are distinct, and a request that
-- is accepted does what its parameters say to the method of its identifier and to no other.
pub record IsMethodClient {W E : Type 0} (client : Client W E) (methods_of : W → List Method)
    : Type 0 where
  pub metrics_listed :
      (w w' : W) (l : List Metric)
      → client.list_metrics w ≡ (inr l, w')
      → methods_of w' ≡ methods_of w
  pub methods_listed :
      (hits : ℕ) (w w' : W) (l : List Method)
      → client.list_methods hits w ≡ (inr l, w')
      → (l ≡ methods_of w) × (methods_of w' ≡ methods_of w)
  pub method_updated :
      (hits : ℕ) (w w' : W) (name : String) (item : Method) (params : Params)
      → IsDistinct method_kind (methods_of w)
      → find method_kind name (methods_of w) ≡ some item
      → client.update_method hits item.id params w ≡ (none, w')
      → IsDistinct method_kind (methods_of w')
        × ((key : String)
            → find method_kind key (methods_of w') ≡ (
                if name == key
                then some (updated_method params item)
                else find method_kind key (methods_of w)))
  pub method_deleted :
      (hits : ℕ) (w w' : W) (name : String) (item : Method)
      → IsDistinct method_kind (methods_of w)
      → find method_kind name (methods_of w) ≡ some item
      → client.delete_method hits item.id w ≡ (none, w')
      → IsDistinct method_kind (methods_of w')
        × ((key : String)
            → find method_kind key (methods_of w')
              ≡ (if name == key then none else find method_kind key (methods_of w)))
  pub method_created :
      (hits : ℕ) (w w' : W) (name : String) (params : Params)
      → IsDistinct method_kind (methods_of w)
      → lookup "system_name" params ≡ some name
      → find method_kind name (methods_of w) ≡ none
      → client.create_method hits params w ≡ (none, w')
      → IsDistinct method_kind (methods_of w')
        × ((item : Method) × (find method_kind name (methods_of w') ≡ some item)
            × IsMadeMethod params item)
        × ((key : String)
            → (name == key) ≡ false
            → find method_kind key (methods_of w') ≡ find method_kind key (methods_of w))

module _ {W E : Type 0} (client : Client W E) (methods_of : W → List Method) where
  -- The list that the entity keeps of the methods, if it does, is the API's.
  abbrev pub IsCoherentMethods : Caches × W → Type 0
  IsCoherentMethods x = IsDistinct method_kind (methods_of x.1) × Keeps x.0.methods (methods_of x.1)

  module _ (api : IsMethodClient client methods_of) where
    hits_read :
        (x y : Caches × W) (hits : ℕ)
        → get_hits_id client x ≡ (inr hits, y)
        → (methods_of y.1 ≡ methods_of x.1) × (y.0.methods ≡ x.0.methods)
    hits_read x y hits h =
        let (l, read) = get_hits_id_law client x y hits h in
        let (kept, _, how) = metrics_and_methods_law client x y l read in
        (
          elim how [
            | inl (_, same) ↦ ap (λ (z : Caches × W). methods_of z.1) same
            | inr (listed, _) ↦ api.metrics_listed x.1 y.1 l listed
          ],
          kept,
        )

    -- A request that needs the hits metric starts from the same methods, and leaves no list kept.
    requested :
        (request : ℕ → W → Option E × W) (x x' : Caches × W)
        → with_hits client request (get_hits_id client x) ≡ (none, x')
        → (hits : ℕ) × (w : W) × (methods_of w ≡ methods_of x.1)
          × (request hits w ≡ (none, x'.1))
          × (x'.0.methods ≡ none)
    unfolding reset_methods
    requested request x x' h =
        let (hits, y, read, made, reset) =
          with_hits_law client request (get_hits_id client x) x' h in
        (hits, y.1, (hits_read x y hits read).0, made, ap (λ (c : Caches). c.methods) reset)

    methods_read :
        (x x' : Caches × W) (l : List Method)
        → IsCoherentMethods x
        → methods client x ≡ (inr l, x')
        → (l ≡ methods_of x.1) × IsCoherentMethods x' × (methods_of x'.1 ≡ methods_of x.1)
    unfolding methods get_methods
    methods_read x x' l (distinct, keeps) h =
        elim (read_through-inr x.0.methods (λ m (c, w). (record c { methods = some m }, w))
          (get_methods client) x x' l h) [
            | inl (there, same) ↦ (
              subst (λ o. Keeps o (methods_of x.1)) there keeps,
              subst IsCoherentMethods (sym same) (distinct, keeps),
              ap (λ (z : Caches × W). methods_of z.1) same,
            )
            | inr (z, absent, got, same) ↦
                let (hits, y, read, e) =
                  on_result-inr (get_hits_id client x)
                    (λ hits (c, w).
                      let (answer, w') = client.list_methods hits w in (answer, (c, w')))
                    l z got in
                let listed : client.list_methods hits y.1 ≡ (inr l, z.1) =
                  ap (λ (t : (E ⊎ List Method) × (Caches × W)). (t.0, t.1.1)) e in
                let (is, kept) = api.methods_listed hits y.1 z.1 l listed in
                let start = (hits_read x y hits read).0 in
                (
                  is ∙ start,
                  subst IsCoherentMethods (sym same)
                      (subst (IsDistinct method_kind) (sym (kept ∙ start)) distinct, is ∙ sym kept),
                  ap (λ (v : Caches × W). methods_of v.1) same ∙ kept ∙ start,
                )
          ]

    -- What a request leaves, from what the API's does to the methods it started from.
    coherent_after :
        (x' : Caches × W)
        → IsDistinct method_kind (methods_of x'.1)
        → x'.0.methods ≡ none
        → IsCoherentMethods x'
    coherent_after x' distinct reset =
        (distinct, subst (λ o. Keeps o (methods_of x'.1)) (sym reset) tt)

    pub methods-IsStore :
        IsStore
          (method_access client)
          method_kind
          (λ x. methods_of x.1)
          IsCoherentMethods
          updated_method
          IsMadeMethod
    unfolding create_method update_method delete_method
    methods-IsStore = record {
      distinct = λ x ok. ok.0;
      listed = methods_read;
      updated = λ x x' name item params ok there h.
          let (hits, w, start, made, reset) =
            requested (λ hits. client.update_method hits item.id params) x x' h in
          let (distinct, all) =
            api.method_updated hits w x'.1 name item params
              (subst (IsDistinct method_kind) (sym start) ok.0)
              (ap (find method_kind name) start ∙ there) made in
          (
            coherent_after x' distinct reset,
            λ key.
                all key
                ∙ ap
                    (λ l.
                      if name == key
                      then some (updated_method params item)
                      else find method_kind key l)
                    start,
          );
      deleted = λ x x' name item ok there h.
          let (hits, w, start, made, reset) =
            requested (λ hits. client.delete_method hits item.id) x x' h in
          let (distinct, all) =
            api.method_deleted hits w x'.1 name item
              (subst (IsDistinct method_kind) (sym start) ok.0)
              (ap (find method_kind name) start ∙ there) made in
          (
            coherent_after x' distinct reset,
            λ key. all key ∙ ap (λ l. if name == key then none else find method_kind key l) start,
          );
      created = λ x x' name params ok named absent h.
          let (hits, w, start, made, reset) =
            requested (λ hits. client.create_method hits params) x x' h in
          let (distinct, new, others) =
            api.method_created hits w x'.1 name params
              (subst (IsDistinct method_kind) (sym start) ok.0) named
              (ap (find method_kind name) start ∙ absent) made in
          (
            coherent_after x' distinct reset,
            new,
            λ key other. others key other ∙ ap (find method_kind key) start,
          );
    }
