-- ===== src/ResourceModel/Manifest/Sound.antt =====
-- What an accepted manifest satisfies.
use klokast_box.Prelude.{
  String, ◌≡◌, refl, sym, ap, subst, ◌∙◌, inl, inr, Bool, true, false, not, List, [], ◌∷◌, elem,
  all, All,
}
use klokast_box.Checks.{
  Outcome, ok, check, each, >>=-Returned, check-eq-ok, check-not-eq-ok, each-eq-ok, ok-injective,
  if-eq-ok,
}
use klokast_box.ResourceModel.{Value, Mapping, Sequence, Refusal, died, crashed}
use klokast_box.ResourceModel.Values.{
  get, entries, key_list, text_is, truthy, or_else, no_mapping, no_list, text_among, as_mapping,
  as_list, is_hashable, items, mappings_of,
}
use klokast_box.ResourceModel.Names.{validate_id}
use klokast_box.ResourceModel.Access.{reject_unknown_fields}
use klokast_box.ResourceModel.Fields.{reject_tcb_control_fields}
use klokast_box.ResourceModel.Topology.{as_text}
use klokast_box.ResourceModel.Inversion.{as_mapping-eq-ok, as_list-eq-ok, as_text-eq-ok}
use klokast_box.ResourceModel.TextLists.{in_list}
use klokast_box.ResourceModel.Manifest.{
  feature_type, allowed_values, is_blank, same_key, set_of_ids, listed_mappings, check_reference,
  check_binding, check_feature, check_dataset, check_resources, check_section, any_mapping,
  is_managed, device_network_types, check_device,
}

-- The ids of mappings.
abbrev pub ids_of : List Mapping → List Value
ids_of [] = []
ids_of (m ∷ ms) = get "id" m ∷ ids_of ms

pub set_of_ids-eq :
    (ms : List Mapping) (ids : List Value) → set_of_ids ms ≡ ok ids → ids ≡ ids_of ms
unfolding set_of_ids
set_of_ids-eq [] ids h = sym (ok-injective h)
set_of_ids-eq (m ∷ ms) ids h =
    let c = >>=-Returned (check (is_hashable (get "id" m)) (crashed "TypeError")) _ h in
    let o = >>=-Returned (set_of_ids ms) _ c.2 in
    sym (ok-injective o.2) ∙ ap (λ l. get "id" m ∷ l) (set_of_ids-eq ms o.0 o.1)

-- A binding of a feature names declared resources only.
abbrev pub Binds : List Value → (String × Value) → Type 0
Binds ids (name, value) =
    (s : Sequence) × (value ≡ Value.sequence s) × All (λ v. elem same_key v ids ≡ true) (items s)

-- A feature is a mapping all of whose bindings name declared resources.
abbrev pub Bound : List Value → Value → Type 0
Bound ids value =
    (m : Mapping) × (b : Mapping) × (value ≡ Value.mapping m)
    × (or_else (get "resource_bindings" m) no_mapping ≡ Value.mapping b)
    × All (Binds ids) (entries b)

All-map :
    {A : Type 0} {P Q : A → Type 0} (f : (a : A) → P a → Q a) (xs : List A) → All P xs → All Q xs
All-map f [] h = tt
All-map f (x ∷ xs) h = (f x h.0, All-map f xs h.1)

check_reference-eq :
    (ids : List Value) (v : Value) → check_reference ids v ≡ ok tt → elem same_key v ids ≡ true
unfolding check_reference
check_reference-eq ids v h =
    check-eq-ok _ _ (>>=-Returned (check (is_hashable v) (crashed "TypeError")) _ h).2

check_binding-Binds :
    (ids : List Value) (b : String × Value) → check_binding ids b ≡ ok tt → Binds ids b
unfolding check_binding
check_binding-Binds ids (name, value) h =
    let l = >>=-Returned (as_list (died "resource_bindings must be a non-empty list") value) _ h in
    let c = >>=-Returned (check (truthy value) _) _ l.2 in
    let e = as_list-eq-ok _ value l.0 l.1 in
    let r = All-map (check_reference-eq ids) l.0 (each-eq-ok (check_reference ids) l.0 c.2) in
    (e.0, e.1, subst (All (λ v. elem same_key v ids ≡ true)) e.2 r)

pub check_feature-Bound :
    (ids : List Value) (seen : List String) (value : Value) (s : String)
    → check_feature ids seen value ≡ ok s
    → Bound ids value
      × ((m : Mapping) × (value ≡ Value.mapping m) × (get "id" m ≡ Value.text s))
      × (in_list s seen ≡ false)
unfolding check_feature
check_feature-Bound ids seen value s h =
    let u =
      >>=-Returned
        (reject_unknown_fields ("id" ∷ "type" ∷ "values" ∷ "resource_bindings" ∷ []) value) _ h in
    let f = >>=-Returned (as_mapping (died "must be a mapping") value) _ u.2 in
    let feature = f.0 in
    let i = >>=-Returned (validate_id (get "id" feature)) _ f.2 in
    let t = >>=-Returned (as_text (get "id" feature)) _ i.2 in
    let d = >>=-Returned (check (not (in_list t.0 seen)) _) _ t.2 in
    let y = >>=-Returned (feature_type (get "type" feature)) _ d.2 in
    let a = >>=-Returned (allowed_values y.0 (or_else (get "values" feature) no_list)) _ y.2 in
    let b =
      >>=-Returned
        (as_mapping (died "resource_bindings must be a mapping")
          (or_else (get "resource_bindings" feature) no_mapping))
        _ a.2 in
    let c = >>=-Returned (check (all is_hashable a.0) (crashed "TypeError")) _ b.2 in
    let k =
      >>=-Returned (check (all (λ key. elem same_key (Value.text key) a.0) (key_list b.0)) _) _
        c.2 in
    let e = >>=-Returned (each (check_binding ids) (entries b.0)) _ k.2 in
    let same = ok-injective e.2 in
    let at = as_mapping-eq-ok _ value feature f.1 in
    (
      (
        feature,
        b.0,
        at,
        as_mapping-eq-ok _ _ b.0 b.1,
        All-map (check_binding-Binds ids) (entries b.0)
            (each-eq-ok (check_binding ids) (entries b.0) e.1),
      ),
      (feature, at, as_text-eq-ok _ t.0 t.1 ∙ ap Value.text same),
      ap (λ x. in_list x seen) (sym same) ∙ check-not-eq-ok (in_list t.0 seen) _ d.1,
    )

-- What a dataset is accepted for.
abbrev pub Durable : Value → Type 0
Durable value =
    (m : Mapping) × (value ≡ Value.mapping m)
    × (text_is "durable_user_data" (get "type" m) ≡ true)
    × (is_blank (get "rationale" m) ≡ false)

pub check_dataset-Durable :
    (seen : List String) (value : Value) (s : String)
    → check_dataset seen value ≡ ok s
    → Durable value
      × ((m : Mapping) × (value ≡ Value.mapping m) × (get "id" m ≡ Value.text s))
      × (in_list s seen ≡ false)
unfolding check_dataset
check_dataset-Durable seen value s h =
    let u = >>=-Returned (reject_unknown_fields ("id" ∷ "type" ∷ "rationale" ∷ []) value) _ h in
    let f = >>=-Returned (as_mapping (died "must be a mapping") value) _ u.2 in
    let dataset = f.0 in
    let r = >>=-Returned (reject_tcb_control_fields value) _ f.2 in
    let i = >>=-Returned (validate_id (get "id" dataset)) _ r.2 in
    let t = >>=-Returned (as_text (get "id" dataset)) _ i.2 in
    let d = >>=-Returned (check (not (in_list t.0 seen)) _) _ t.2 in
    let k = >>=-Returned (check (is_hashable (get "type" dataset)) (crashed "TypeError")) _ d.2 in
    let y = >>=-Returned (check (text_is "durable_user_data" (get "type" dataset)) _) _ k.2 in
    let b = >>=-Returned (check (not (is_blank (get "rationale" dataset))) _) _ y.2 in
    let same = ok-injective b.2 in
    let at = as_mapping-eq-ok _ value dataset f.1 in
    (
      (dataset, at, check-eq-ok _ _ y.1, check-not-eq-ok _ _ b.1),
      (dataset, at, as_text-eq-ok _ t.0 t.1 ∙ ap Value.text same),
      ap (λ x. in_list x seen) (sym same) ∙ check-not-eq-ok (in_list t.0 seen) _ d.1,
    )

-- The resources that a section's loop accepts are the mappings of its list.
check_resources-eq :
    (shape : Mapping → Outcome Refusal (Unit {0})) (vs : List Value) (ms : List Mapping)
    → check_resources shape vs ≡ ok ms
    → (ms ≡ mappings_of vs) × All (λ m. shape m ≡ ok tt) ms
unfolding check_resources
check_resources-eq shape [] ms h =
    subst (λ l. (l ≡ []) × All (λ m. shape m ≡ ok tt) l) (ok-injective h) (refl, tt)
check_resources-eq shape (v ∷ vs) ms h =
    let m = >>=-Returned (as_mapping (died "resources must be mappings") v) _ h in
    let s = >>=-Returned (shape m.0) _ m.2 in
    let o = >>=-Returned (check_resources shape vs) _ s.2 in
    let r = check_resources-eq shape vs o.0 o.1 in
    subst (λ l. (l ≡ mappings_of (v ∷ vs)) × All (λ m. shape m ≡ ok tt) l) (ok-injective o.2)
      (
        ap (λ l. m.0 ∷ l) r.0 ∙ ap (λ w. mappings_of (w ∷ vs)) (sym (as_mapping-eq-ok _ v m.0 m.1)),
        (s.1, r.1),
      )

-- The resources of a section of the manifest's.
abbrev pub section_resources : String → Mapping → List Mapping
section_resources name resources = listed_mappings (or_else (get name resources) no_list)

pub check_section-eq :
    (name : String) (shape : Mapping → Outcome Refusal (Unit {0})) (resources : Mapping)
    (ms : List Mapping)
    → check_section name shape resources ≡ ok ms
    → (ms ≡ section_resources name resources) × All (λ m. shape m ≡ ok tt) ms
unfolding check_section
check_section-eq name shape resources ms h =
    let l =
      >>=-Returned
        (as_list (died "the section must be a list") (or_else (get name resources) no_list)) _ h in
    let e = as_list-eq-ok _ _ l.0 l.1 in
    let r = check_resources-eq shape l.0 ms l.2 in
    (r.0 ∙ ap mappings_of e.2 ∙ ap listed_mappings (sym e.1), r.1)

-- A network resource of a device names one of the managed devices.
abbrev pub NamesDevice : List Mapping → Mapping → Type 0
NamesDevice compute r =
    text_among device_network_types (get "type" r) ≡ true
    → any_mapping (is_managed (get "device" r)) compute ≡ true

pub check_device-NamesDevice :
    (compute : List Mapping) (r : Mapping) → check_device compute r ≡ ok tt → NamesDevice compute r
unfolding check_device
check_device-NamesDevice compute r h on =
    elim (if-eq-ok (text_among device_network_types (get "type" r)) _ _ h) [
      | inl named ↦ check-eq-ok _ _ named.1
      | inr other ↦ absurd (differ (sym on ∙ other.0))
    ]
  where
    differ : ◌≡◌ {A = Bool} true false → ⊥
    differ e = cc
