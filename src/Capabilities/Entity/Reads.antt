-- ===== src/Capabilities/Entity/Reads.antt =====
-- What the entity's reads and requests leave of its lists.
use scale_operator.Prelude.{
  ℕ, ◌≡◌, refl, sym, ap, ◌∙◌, ◌⊎◌, inl, inr, Option, none, some, List, arith, nat_eq, string_eq,
  int_eq, subst,
}
use scale_operator.Capabilities.Entity.{
  Metric, Caches, Client, on_result, read_through, get_metrics_and_methods, metrics_and_methods,
  find_hits, hits_or_error, get_hits_id, reset_after, reset_methods, with_hits,
}

pub on_result-inr :
    {E A B Y : Type 0} (r : (E ⊎ A) × Y) (rest : A → Y → (E ⊎ B) × Y) (b : B) (z : Y)
    → on_result r rest ≡ (inr b, z)
    → (a : A) × (y : Y) × (r ≡ (inr a, y)) × (rest a y ≡ (inr b, z))
unfolding on_result
on_result-inr (inr a, y) rest b z h = (a, y, refl, h)
on_result-inr (inl err, y) rest b z h = absurd (ground (arith, h))

pub read_through-inr :
    {E A Y : Type 0} (kept : Option (List A)) (keep : List A → Y → Y) (get : Y → (E ⊎ List A) × Y)
    (y z : Y) (l : List A)
    → read_through kept keep get y ≡ (inr l, z)
    → ((kept ≡ some l) × (z ≡ y))
      ⊎ ((y' : Y) × (kept ≡ none) × (get y ≡ (inr l, y')) × (z ≡ keep l y'))
unfolding read_through
read_through-inr (some k) keep get y z l h = inl (cc, cc)
read_through-inr none keep get y z l h =
    let (k, y', got, e) = on_result-inr (get y) (λ m y''. (inr m, keep m y'')) l z h in
    inr (y', refl, cc, cc)

-- A list that is kept is the one given.
abbrev pub Keeps : {A : Type 0} → Option (List A) → List A → Type 0
Keeps none l = Unit
Keeps (some kept) l = kept ≡ l

module _ {W E : Type 0} (client : Client W E) where
  pub metrics_and_methods_law :
      (x y : Caches × W) (l : List Metric)
      → metrics_and_methods client x ≡ (inr l, y)
      → (y.0.methods ≡ x.0.methods)
        × (y.0.metrics ≡ x.0.metrics)
        × (((x.0.metrics_and_methods ≡ some l) × (y ≡ x))
            ⊎ ((client.list_metrics x.1 ≡ (inr l, y.1)) × (y.0.metrics_and_methods ≡ some l)))
  unfolding metrics_and_methods get_metrics_and_methods
  metrics_and_methods_law (c, w) y l h =
      elim (read_through-inr c.metrics_and_methods
        (λ m (d, v). (record d { metrics_and_methods = some m }, v))
        (get_metrics_and_methods client) (c, w) y l h) [
          | inl (there, same) ↦
              (ap (λ z. z.0.methods) same, ap (λ z. z.0.metrics) same, inl (there, same))
          | inr (z, absent, got, same) ↦
              let held : c ≡ z.0 = ap (λ (t : (E ⊎ List Metric) × (Caches × W)). t.1.0) got in
              let caches : y.0 ≡ record c { metrics_and_methods = some l } =
                ap (λ (t : Caches × W). t.0) same
                ∙ ap (λ (d : Caches). record d { metrics_and_methods = some l }) (sym held) in
              let listed : client.list_metrics w ≡ (inr l, z.1) =
                ap (λ (t : (E ⊎ List Metric) × (Caches × W)). (t.0, t.1.1)) got in
              (
                ap (λ (d : Caches). d.methods) caches,
                ap (λ (d : Caches). d.metrics) caches,
                inr (
                  subst (λ v. client.list_metrics w ≡ (inr l, v))
                      (sym (ap (λ (t : Caches × W). t.1) same)) listed,
                  ap (λ (d : Caches). d.metrics_and_methods) caches,
                ),
              )
        ]

  pub get_hits_id_law :
      (x y : Caches × W) (hits : ℕ)
      → get_hits_id client x ≡ (inr hits, y)
      → (l : List Metric) × (metrics_and_methods client x ≡ (inr l, y))
  unfolding get_hits_id
  get_hits_id_law x y hits h =
      let (l, z, read, e) =
        on_result-inr (metrics_and_methods client x)
          (λ m z. (hits_or_error client (find_hits m), z)) hits y h in
      (
        l,
        subst (λ v. metrics_and_methods client x ≡ (inr l, v))
            (ap (λ (t : (E ⊎ ℕ) × (Caches × W)). t.1) e) read,
      )

  pub reset_after_law :
      (reset : Caches → Caches) (c : Caches) (r : Option E × W) (x' : Caches × W)
      → reset_after client reset c r ≡ (none, x')
      → (r ≡ (none, x'.1)) × (x'.0 ≡ reset c)
  unfolding reset_after
  reset_after_law reset c (none, w) x' h = (cc, cc)
  reset_after_law reset c (some err, w) x' h = absurd (ground (arith, h))

  -- A request about a method that was accepted has been made, and the methods are read again.
  pub with_hits_law :
      (request : ℕ → W → Option E × W) (r : (E ⊎ ℕ) × (Caches × W)) (x' : Caches × W)
      → with_hits client request r ≡ (none, x')
      → (hits : ℕ) × (y : Caches × W) × (r ≡ (inr hits, y))
        × (request hits y.1 ≡ (none, x'.1))
        × (x'.0 ≡ reset_methods y.0)
  unfolding with_hits
  with_hits_law request (inl err, y) x' h = absurd (ground (arith, h))
  with_hits_law request (inr hits, (c, w)) x' h =
      let (accepted, reset) = reset_after_law reset_methods c (request hits w) x' h in
      (hits, (c, w), refl, accepted, reset)
