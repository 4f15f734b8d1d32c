-- ===== src/ResourceModel/Selection.antt =====
-- platform_resource_model.py: which resources of a manifest an entry of the registry selects, and
-- what the boxes must enable for them.
pub mod Guests
pub mod Sound
use klokast_box.Prelude.{
  ℕ, String, Bool, true, false, not, ◌&&◌, ◌||◌, Option, none, some, List, [], ◌∷◌, ◌++◌, ◌==◌,
  ◌=ₛ◌, if◌then◌else◌, elem, all,
}
use klokast_box.Checks.{Outcome, ok, raised, ◌>>=◌, ◌>>◌, check, each}
use klokast_box.ResourceModel.{Value, Mapping, Sequence, Refusal, died, crashed}
use klokast_box.ResourceModel.Values.{
  get, key_list, entries, truthy, or_else, or_empty, no_mapping, no_list, text_is, as_mapping,
  as_list, attribute_get, iterate, look_up, name_of, mappings_of, find_value,
}
use klokast_box.ResourceModel.Names.{validate_id, validate_user_field}
use klokast_box.ResourceModel.Access.{
  BoxAccess, default_box_access, capability_of, resource_access_allowed,
}
use klokast_box.ResourceModel.Topology.{Topology, canonical_zone, as_text}
use klokast_box.ResourceModel.Manifest.{set_of_ids, same_key}
use klokast_box.ResourceModel.Offers.{check_tag, tag_of}
use klokast_box.ResourceModel.Placement.{
  RuntimeState, running, stopped, app_runtime_state, section_of,
}
use klokast_box.ResourceModel.Boxes.{BoxConfig, SharedGuests, box_config_for}

unfoldable pub resource_enabled : Mapping → Mapping → Outcome Refusal Bool
unfolding look_up
resource_enabled resource registration =
    as_mapping (died "app resources must be a mapping")
      (or_else (get "resources" registration) no_mapping)
    >>= λ flags.
        if truthy (get "required" resource) || truthy (get "enabled_by_default" resource)
        then ok true
        else (look_up (get "id" resource) flags >>= λ flag. ok (truthy (or_empty flag)))

unfoldable pub resource_selected_for_box : Mapping → Mapping → BoxAccess → Outcome Refusal Bool
unfolding resource_enabled resource_access_allowed
resource_selected_for_box resource registration access =
    resource_enabled resource registration >>= λ enabled.
    if enabled then resource_access_allowed resource access else ok false

-- The resources of a list that a test selects; each is checked first.
unfoldable pub select_resources :
    (Mapping → Outcome Refusal (Unit {0}))
    → (Mapping → Outcome Refusal Bool)
    → List Value
    → Outcome Refusal (List Mapping)
select_resources shape test [] = ok []
select_resources shape test (value ∷ rest) =
    let others = select_resources shape test rest in
    as_mapping (died "resources must be mappings") value >>= λ resource. shape resource >>= λ _.
    test resource >>= λ selected.
    others >>= λ resources. ok (if selected then resource ∷ resources else resources)

abbrev pub check_id : Mapping → Outcome Refusal (Unit {0})
check_id resource = validate_id (get "id" resource)

unfoldable pub selected_network_resources :
    Mapping → Mapping → BoxAccess → Outcome Refusal (List Mapping)
unfolding select_resources resource_selected_for_box section_of
selected_network_resources manifest registration access = do
  network ← section_of "network" manifest
  values ← as_list (died "resources.network must be a list") network
  select_resources check_id (λ resource. resource_selected_for_box resource registration access)
      values

abbrev pub check_tailnet_resource : Mapping → Outcome Refusal (Unit {0})
check_tailnet_resource resource =
    validate_id (get "id" resource) >>= λ _. check_tag (tag_of resource)

unfoldable pub selected_tailnet_resources : Mapping → Mapping → Outcome Refusal (List Mapping)
unfolding select_resources resource_enabled section_of
selected_tailnet_resources manifest registration = do
  tailnet ← section_of "tailnet" manifest
  values ← as_list (died "resources.tailnet must be a list") tailnet
  select_resources check_tailnet_resource (λ resource. resource_enabled resource registration)
      values

unfoldable pub tailnet_resource_value : Mapping → List String → Value
tailnet_resource_value resource [] = Value.text ""
tailnet_resource_value resource (key ∷ rest) =
    if truthy (get key resource) then get key resource else tailnet_resource_value resource rest

-- The mappings of the four sections, in order.
unfoldable pub resources_of : Value → List String → Outcome Refusal (List Mapping)
resources_of resources [] = ok []
resources_of resources (section ∷ rest) =
    let others = resources_of resources rest in
    attribute_get section resources >>= λ value.
    iterate (or_else value no_list) >>= λ values. others >>= λ more. ok (mappings_of values ++ more)

abbrev pub is_boolean : Value → Bool
is_boolean (Value.boolean b) = true
is_boolean _ = false

abbrev pub all_flags : List (String × Value) → Bool
all_flags [] = true
all_flags ((key, value) ∷ rest) = is_boolean value && all_flags rest

-- A box must enable the capability of an enabled resource.
unfoldable pub check_box : List (String × BoxConfig) → Mapping → String → Outcome Refusal (Unit {0})
unfolding resource_access_allowed
check_box configs resource box =
    resource_access_allowed resource (box_config_for configs box).access >>= λ allowed.
    check allowed (died "requires enabled capability on placement box")

unfoldable pub check_resource :
    Mapping → List (String × BoxConfig) → List String → Mapping → Outcome Refusal (Unit {0})
unfolding resource_enabled capability_of check_box
check_resource registration configs boxes resource =
    resource_enabled resource registration >>= λ enabled.
    if enabled
    then (capability_of resource >>= λ capability.
        if truthy capability then each (check_box configs resource) boxes else ok tt)
    else ok tt

unfoldable pub check_selected :
    Mapping → Mapping → List String → List (String × BoxConfig) → Outcome Refusal (Unit {0})
unfolding resources_of set_of_ids check_resource
check_selected manifest registration boxes configs = do
  flags ←
      as_mapping (died "resources must be a mapping")
        (or_else (get "resources" registration) no_mapping)
  resources ←
      resources_of (or_else (get "resources" manifest) no_mapping)
        ("compute" ∷ "network" ∷ "tailnet" ∷ "artifacts" ∷ [])
  ids ← set_of_ids resources
  check (all (λ key. elem same_key (Value.text key) ids) (key_list flags))
      (died "resources contains unknown resource(s)")
  check (all_flags (entries flags)) (died "resources must be Boolean")
  each (check_resource registration configs boxes) resources

unfoldable pub validate_selected_resource_capabilities :
    Mapping → Mapping → List String → List (String × BoxConfig) → Outcome Refusal (Unit {0})
unfolding check_selected
validate_selected_resource_capabilities manifest registration boxes configs =
    if truthy (get "enabled" registration)
    then check_selected manifest registration boxes configs
    else ok tt

abbrev pub zone_names : Topology → List Mapping → List String
zone_names topology [] = []
zone_names topology (resource ∷ rest) =
    let others = zone_names topology rest in
    if text_is "podman_workload" (get "type" resource)
    then elim (name_of (or_else (get "zone" resource) (Value.text ""))) [
      | none ↦ others
      | some name ↦ canonical_zone topology name ∷ others
    ]
    else others

unfoldable pub running_podman_workload_zones : Mapping → Topology → Outcome Refusal (List String)
unfolding section_of
running_podman_workload_zones manifest topology = section_of "compute" manifest >>= λ compute.
    iterate compute >>= λ values. ok (zone_names topology (mappings_of values))

abbrev pub is_stopped : RuntimeState → Bool
is_stopped running = false
is_stopped stopped = true

-- Whether a guest that an application's zones need is stopped.
abbrev pub needs_stopped : List String → SharedGuests → Bool
needs_stopped zones guests =
    elem ◌=ₛ◌ "bak" zones && is_stopped guests.bak
    || elem ◌=ₛ◌ "dmz" zones && is_stopped guests.dmz
    || elem ◌=ₛ◌ "iot" zones && is_stopped guests.iot

unfoldable pub check_guests :
    List String → List (String × BoxConfig) → String → Outcome Refusal (Unit {0})
check_guests zones configs box =
    check (not (needs_stopped zones (box_config_for configs box).shared_guests))
      (died "is running but a shared guest is stopped")

unfoldable pub check_running :
    Mapping → List String → List (String × BoxConfig) → Topology → Outcome Refusal (Unit {0})
unfolding running_podman_workload_zones check_guests
check_running manifest boxes configs topology = do
  zones ← running_podman_workload_zones manifest topology
  each (check_guests zones configs) boxes

unfoldable pub validate_shared_guest_app_compatibility :
    Mapping
    → Mapping
    → List String
    → List (String × BoxConfig)
    → Topology
    → Outcome Refusal (Unit {0})
unfolding app_runtime_state check_running
validate_shared_guest_app_compatibility manifest registration boxes configs topology =
    if truthy (get "enabled" registration)
    then (do
      state ← app_runtime_state registration
      if is_stopped state then ok tt else check_running manifest boxes configs topology)
    else ok tt

-- What an entry says of managed devices and of virtual machines, by their names.
unfoldable pub registry_managed_devices : Mapping → Outcome Refusal Mapping
registry_managed_devices registration =
    as_mapping (died "app devices must be a mapping")
      (or_else (get "devices" registration) no_mapping)

unfoldable pub registry_app_vms : Mapping → Outcome Refusal Mapping
registry_app_vms registration =
    as_mapping (died "app app_vms must be a mapping")
      (or_else (get "app_vms" registration) no_mapping)
