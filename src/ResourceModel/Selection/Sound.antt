-- ===== src/ResourceModel/Selection/Sound.antt =====
-- What the checks of an application's selection establish on its boxes.
use klokast_box.Prelude.{
  String, ◌≡◌, refl, ap, ◌∙◌, inl, inr, Bool, true, false, List, [], ◌∷◌, elem, all, All,
}
use klokast_box.Checks.{ok, check, >>=-Returned, check-eq-ok, each-eq-ok, if-eq-ok}
use klokast_box.ResourceModel.{Value, Mapping, died}
use klokast_box.ResourceModel.Values.{
  get, key_list, entries, truthy, or_else, no_mapping, as_mapping,
}
use klokast_box.ResourceModel.Access.{capability_of, resource_access_allowed}
use klokast_box.ResourceModel.Manifest.{set_of_ids, same_key}
use klokast_box.ResourceModel.Boxes.{BoxConfig, box_config_for}
use klokast_box.ResourceModel.Selection.{
  resource_enabled, resource_selected_for_box, resources_of, all_flags, check_box, check_resource,
  check_selected, validate_selected_resource_capabilities,
}

true-ne-false : {b : Bool} → b ≡ true → b ≡ false → ⊥
true-ne-false h k = cc

-- On a box, a resource is selected exactly where the entry enables it.
abbrev pub SelectedWhereEnabled : Mapping → List (String × BoxConfig) → Mapping → String → Type 0
SelectedWhereEnabled registration configs resource box =
    resource_selected_for_box resource registration (box_config_for configs box).access
    ≡ resource_enabled resource registration

-- A resource that is not enabled is selected on no box.
disabled-lem :
    (registration : Mapping) (configs : List (String × BoxConfig)) (resource : Mapping)
    (box : String)
    → resource_enabled resource registration ≡ ok false
    → SelectedWhereEnabled registration configs resource box
unfolding resource_selected_for_box
disabled-lem registration configs resource box h = rw h refl

allowed-lem :
    (registration : Mapping) (configs : List (String × BoxConfig)) (resource : Mapping)
    (box : String)
    → resource_enabled resource registration ≡ ok true
    → resource_access_allowed resource (box_config_for configs box).access ≡ ok true
    → SelectedWhereEnabled registration configs resource box
unfolding resource_selected_for_box
allowed-lem registration configs resource box h k = rw h (rw k refl)

module _ (registration : Mapping) (configs : List (String × BoxConfig)) (resource : Mapping) where
  check_box-allowed :
      (box : String)
      → check_box configs resource box ≡ ok tt
      → resource_access_allowed resource (box_config_for configs box).access ≡ ok true
  unfolding check_box
  check_box-allowed box h =
      let a =
        >>=-Returned (resource_access_allowed resource (box_config_for configs box).access) _ h in
      a.1 ∙ ap ok (check-eq-ok _ _ a.2)

  -- A resource that needs no capability is allowed on every box.
  free-allowed :
      (box : String) (capability : Value)
      → capability_of resource ≡ ok capability
      → truthy capability ≡ false
      → resource_access_allowed resource (box_config_for configs box).access ≡ ok true
  unfolding resource_access_allowed
  free-allowed box capability h k = rw h (rw k refl)

  allowed_everywhere :
      (boxes : List String)
      → resource_enabled resource registration ≡ ok true
      → All
          (λ box. resource_access_allowed resource (box_config_for configs box).access ≡ ok true)
          boxes
      → All (SelectedWhereEnabled registration configs resource) boxes
  allowed_everywhere [] h a = tt
  allowed_everywhere (box ∷ boxes) h a =
      (allowed-lem registration configs resource box h a.0, allowed_everywhere boxes h a.1)

  every-box : {P : String → Type 0} → ((box : String) → P box) → (boxes : List String) → All P boxes
  every-box f [] = tt
  every-box f (box ∷ boxes) = (f box, every-box f boxes)

  checked-boxes :
      (boxes : List String)
      → All (λ box. check_box configs resource box ≡ ok tt) boxes
      → All
          (λ box. resource_access_allowed resource (box_config_for configs box).access ≡ ok true)
          boxes
  checked-boxes [] h = tt
  checked-boxes (box ∷ boxes) h = (check_box-allowed box h.0, checked-boxes boxes h.1)

  check_resource-SelectedWhereEnabled :
      (boxes : List String)
      → check_resource registration configs boxes resource ≡ ok tt
      → All (SelectedWhereEnabled registration configs resource) boxes
  unfolding check_resource
  check_resource-SelectedWhereEnabled boxes h =
      let e = >>=-Returned (resource_enabled resource registration) _ h in
      elim (if-eq-ok e.0 _ _ e.2) [
        | inl on ↦
            let enabled = e.1 ∙ ap ok on.0 in
            let c = >>=-Returned (capability_of resource) _ on.1 in
            elim (if-eq-ok (truthy c.0) _ _ c.2) [
              | inl needed ↦
                  allowed_everywhere boxes enabled
                    (checked-boxes boxes (each-eq-ok (check_box configs resource) boxes needed.1))
              | inr free ↦
                  allowed_everywhere boxes enabled
                    (every-box (λ box. free-allowed box c.0 c.1 free.0) boxes)
            ]
        | inr off ↦
            every-box (λ box. disabled-lem registration configs resource box (e.1 ∙ ap ok off.0))
              boxes
      ]

All-resources :
    (registration : Mapping) (configs : List (String × BoxConfig)) (boxes : List String)
    (resources : List Mapping)
    → All (λ r. check_resource registration configs boxes r ≡ ok tt) resources
    → All (λ r. All (SelectedWhereEnabled registration configs r) boxes) resources
All-resources registration configs boxes [] h = tt
All-resources registration configs boxes (r ∷ rs) h = (
  check_resource-SelectedWhereEnabled registration configs r boxes h.0,
  All-resources registration configs boxes rs h.1,
)

-- Where an enabled entry of the registry is accepted with its boxes, on each of these boxes exactly
-- the resources of the manifest that the entry enables are selected: none is left out because the
-- box does not enable the capability that it needs.
pub validate_selected_resource_capabilities_sound :
    (manifest registration : Mapping) (boxes : List String) (configs : List (String × BoxConfig))
    → truthy (get "enabled" registration) ≡ true
    → validate_selected_resource_capabilities manifest registration boxes configs ≡ ok tt
    → (resources : List Mapping) × (resources_of
          (or_else (get "resources" manifest) no_mapping)
          ("compute" ∷ "network" ∷ "tailnet" ∷ "artifacts" ∷ [])
        ≡ ok resources)
      × All (λ r. All (SelectedWhereEnabled registration configs r) boxes) resources
unfolding validate_selected_resource_capabilities check_selected
validate_selected_resource_capabilities_sound manifest registration boxes configs on h =
    elim (if-eq-ok (truthy (get "enabled" registration)) _ _ h) [
      | inl active ↦
          let f =
            >>=-Returned
              (as_mapping (died "resources must be a mapping")
                (or_else (get "resources" registration) no_mapping))
              _ active.1 in
          let r =
            >>=-Returned
              (resources_of (or_else (get "resources" manifest) no_mapping)
                ("compute" ∷ "network" ∷ "tailnet" ∷ "artifacts" ∷ []))
              _ f.2 in
          let i = >>=-Returned (set_of_ids r.0) _ r.2 in
          let k =
            >>=-Returned (check (all (λ key. elem same_key (Value.text key) i.0) (key_list f.0)) _)
              _ i.2 in
          let b = >>=-Returned (check (all_flags (entries f.0)) _) _ k.2 in
          (
            r.0,
            r.1,
            All-resources registration configs boxes r.0
                (each-eq-ok (check_resource registration configs boxes) r.0 b.2),
          )
      | inr idle ↦ absurd (true-ne-false on idle.0)
    ]
