-- ===== src/ResourceModel/Manifest/Accepted.antt =====
-- The conditions that `validate_manifest_resources` checks of a manifest, together.
use klokast_box.Prelude.{
  String, ◌≡◌, sym, subst, ◌∙◌, Bool, true, false, not, ◌||◌, List, [], ◌∷◌, All, arith,
}
use klokast_box.Checks.{Outcome, ok, check, each, >>=-Returned, check-eq-ok, each-eq-ok}
use klokast_box.ResourceModel.{Value, Mapping, Sequence, Refusal, died}
use klokast_box.ResourceModel.Values.{get, or_else, no_mapping, no_list, as_mapping, as_list, items}
use klokast_box.ResourceModel.Names.{validate_app_id}
use klokast_box.ResourceModel.Access.{reject_unknown_fields}
use klokast_box.ResourceModel.Fields.{
  reject_tcb_control_fields, tcb_control_fields, keys, admit, admit-eq-ok, reject_named_fields,
}
use klokast_box.ResourceModel.Topology.{Topology}
use klokast_box.ResourceModel.TextLists.{in_list, all_distinct}
use klokast_box.ResourceModel.Shapes.{
  validate_compute_resource_shape, validate_network_resource_shape,
}
use klokast_box.ResourceModel.Inversion.{as_mapping-eq-ok, as_list-eq-ok}
use klokast_box.ResourceModel.Manifest.{
  set_of_ids, declared_resources, any_mapping, is_usr_vm, is_shared_usr, each_with_ids,
  check_feature, check_dataset, check_section, check_device, check_all_resources,
  manifest_top_level_fields, resource_section_fields, validate_manifest_resources,
}
use klokast_box.ResourceModel.Offers.{if_present}
use klokast_box.ResourceModel.Manifest.Ids.{HasIds, each_with_ids-All}
use klokast_box.ResourceModel.Manifest.Sound.{
  ids_of, Bound, Durable, NamesDevice, section_resources, set_of_ids-eq, check_feature-Bound,
  check_dataset-Durable, check_section-eq, check_device-NamesDevice,
}

-- The values of a list, each with a property, whose ids all differ.
pub record Listed (P : Value → Type 0) (value : Value) : Type 0 where
  pub list : Sequence
  pub at : value ≡ Value.sequence list
  pub each_one : All P (items list)
  pub ids : List String
  pub named : HasIds (items list) ids
  pub apart : all_distinct ids ≡ true

pub record ResourcesFit (resources : Mapping) : Type 0 where
  pub no_control :
      All (λ key. in_list key tcb_control_fields ≡ false) (keys (Value.mapping resources))
  pub devices :
      All
        (NamesDevice (section_resources "compute" resources))
        (section_resources "network" resources)
  pub own_usr :
      any_mapping is_shared_usr (section_resources "compute" resources) ≡ true
      → any_mapping is_usr_vm (section_resources "compute" resources) ≡ true

pub record Accepted (manifest : Mapping) : Type 0 where
  pub resources : Mapping
  pub at : or_else (get "resources" manifest) no_mapping ≡ Value.mapping resources
  pub features :
      Listed
        (Bound (ids_of (declared_resources (Value.mapping resources))))
        (or_else (get "features" manifest) no_list)
  pub datasets : Listed Durable (or_else (get "datasets" manifest) no_list)
  pub fit : ResourcesFit resources

-- A list that a loop with ids went through.
each_with_ids-Listed :
    (f : List String → Value → Outcome Refusal String) (P : Value → Type 0)
    → ((seen : List String) (v : Value) (s : String)
        → f seen v ≡ ok s
        → P v
          × ((m : Mapping) × (v ≡ Value.mapping m) × (get "id" m ≡ Value.text s))
          × (in_list s seen ≡ false))
    → (e : Refusal) (value : Value) (values : List Value) → as_list e value ≡ ok values
    → {u : Unit {0}} → each_with_ids f [] values ≡ ok u
    → Listed P value
each_with_ids-Listed f P step e value values cast h =
    let l = as_list-eq-ok e value values cast in
    let r = each_with_ids-All f P step [] values h in
    record {
      list = l.0;
      at = l.1;
      each_one = subst (All P) l.2 r.0;
      ids = r.1.0;
      named = subst (λ vs. HasIds vs r.1.0) l.2 r.1.1;
      apart = r.1.3;
    }

check_all_resources-ResourcesFit :
    (app_name : String) (topology : Topology) (resources : Mapping) {u v : Unit {0}}
    → reject_tcb_control_fields (Value.mapping resources) ≡ ok u
    → check_all_resources app_name topology resources ≡ ok v
    → ResourcesFit resources
unfolding check_all_resources
check_all_resources-ResourcesFit app_name topology resources clean h =
    let c =
      >>=-Returned
        (check_section "compute" (validate_compute_resource_shape app_name topology) resources) _
        h in
    let o =
      >>=-Returned (check (any_mapping is_usr_vm c.0 || not (any_mapping is_shared_usr c.0)) _) _
        c.2 in
    let n =
      >>=-Returned
        (check_section "network" (validate_network_resource_shape app_name topology) resources) _
        o.2 in
    let d = >>=-Returned (each (check_device c.0) n.0) _ n.2 in
    let ec =
      (check_section-eq "compute" (validate_compute_resource_shape app_name topology) resources c.0
        c.1).0 in
    let en =
      (check_section-eq "network" (validate_network_resource_shape app_name topology) resources n.0
        n.1).0 in
    record {
      no_control = admit-eq-ok tcb_control_fields _ (
          each-eq-ok (admit tcb_control_fields) _
            (sym (reject_named_fields (Value.mapping resources)).1 ∙ clean));
      devices =
          subst (λ ms. All (NamesDevice (section_resources "compute" resources)) ms) en
            (subst (λ ms. All (NamesDevice ms) n.0) ec
              (All-devices c.0 n.0 (each-eq-ok (check_device c.0) n.0 d.1)));
      own_usr =
          subst (λ ms. any_mapping is_shared_usr ms ≡ true → any_mapping is_usr_vm ms ≡ true) ec
            (implied (any_mapping is_usr_vm c.0) (any_mapping is_shared_usr c.0)
              (check-eq-ok _ _ o.1));
    }
  where
    implied : (a b : Bool) → (a || not b) ≡ true → b ≡ true → a ≡ true
    implied a b h k = ground arith

    All-devices :
        (compute ms : List Mapping)
        → All (λ m. check_device compute m ≡ ok tt) ms
        → All (NamesDevice compute) ms
    All-devices compute [] h = tt
    All-devices compute (m ∷ ms) h =
        (check_device-NamesDevice compute m h.0, All-devices compute ms h.1)

-- Where a manifest is accepted, its resources have no key of the control set at any depth; each
-- binding of each feature names resources that the manifest declares; the ids of its features all
-- differ, and so do those of its datasets, each of which is durable user data with a rationale;
-- each network resource of a device names a managed device of its compute resources; and where
-- these have a shared workload in the zone `usr` they have a virtual machine there.
pub validate_manifest_resources_sound :
    (app_name : String) (manifest : Mapping) (topology : Topology)
    → validate_manifest_resources app_name manifest topology ≡ ok tt
    → Accepted manifest
unfolding validate_manifest_resources
validate_manifest_resources_sound app_name manifest topology h =
    let value = or_else (get "resources" manifest) no_mapping in
    let feature_list = or_else (get "features" manifest) no_list in
    let dataset_list = or_else (get "datasets" manifest) no_list in
    let a = >>=-Returned (validate_app_id (Value.text app_name)) _ h in
    let p = >>=-Returned (if_present "app" validate_app_id manifest) _ a.2 in
    let t =
      >>=-Returned (reject_unknown_fields manifest_top_level_fields (Value.mapping manifest)) _
        p.2 in
    let f = >>=-Returned (as_list (died "features must be a list") feature_list) _ t.2 in
    let i = >>=-Returned (set_of_ids (declared_resources value)) _ f.2 in
    let w = >>=-Returned (each_with_ids (check_feature i.0) [] f.0) _ i.2 in
    let d = >>=-Returned (as_list (died "datasets must be a list") dataset_list) _ w.2 in
    let x = >>=-Returned (each_with_ids check_dataset [] d.0) _ d.2 in
    let m = >>=-Returned (as_mapping (died "resources must be a mapping") value) _ x.2 in
    let c = >>=-Returned (reject_tcb_control_fields (Value.mapping m.0)) _ m.2 in
    let k =
      >>=-Returned (reject_unknown_fields resource_section_fields (Value.mapping m.0)) _ c.2 in
    let at = as_mapping-eq-ok _ value m.0 m.1 in
    record {
      resources = m.0;
      at = at;
      features =
          subst (λ v. Listed (Bound (ids_of (declared_resources v))) feature_list) at
            (subst (λ ids. Listed (Bound ids) feature_list)
              (set_of_ids-eq (declared_resources value) i.0 i.1)
              (each_with_ids-Listed (check_feature i.0) (Bound i.0) (check_feature-Bound i.0) _
                feature_list f.0 f.1 w.1));
      datasets =
          each_with_ids-Listed check_dataset Durable check_dataset-Durable _ dataset_list d.0 d.1
            x.1;
      fit = check_all_resources-ResourcesFit app_name topology m.0 c.1 k.2;
    }
