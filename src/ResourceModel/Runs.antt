-- ===== src/ResourceModel/Runs.antt =====
-- What the resource model does with the samples.
use klokast_box.Prelude.{
  ◌≢◌, some, inl, String, ◌≡◌, refl, ◌⊎◌, true, false, ◌||◌, none, some, List, [], ◌∷◌, ◌=ₛ◌, All,
  all,
}
use klokast_box.Prelude.Text.{codes}
use klokast_box.Checks.{ok, each}
use klokast_box.ResourceModel.{Value, Mapping}
use klokast_box.ResourceModel.Access.{
  BoxAccess, capability_of, check_capability, check_enabled, collect_capabilities,
  default_box_access, normalize_access_fields, normalize_box_access, reject_unknown_fields,
  resource_access_allowed, validate_access_capability, validate_access_capability_list,
  validate_access_intent, validate_access_of, validate_resource_access,
}
use klokast_box.ResourceModel.Access.Normal.{IsNormal, normalize_box_access-IsNormal}
use klokast_box.ResourceModel.Access.RoundTrip.{access_value, normalize_box_access_again}
use klokast_box.ResourceModel.Boxes.{
  BoxConfig, add_port, add_ports, bootstrap_dns, box_config_for, bridge_ports, guest_state,
  read_box, read_boxes, read_reservation, read_reservations, read_shared_guests,
  registry_box_configs, resolver_pair, shared_guest, two_resolvers,
}
use klokast_box.ResourceModel.Boxes.Sound.{AllSound, registry_box_configs_sound}
use klokast_box.ResourceModel.Fields.{
  keys, raw_network_fields, reject_fields, reject_raw_network_fields, reject_tcb_control_fields,
}
use klokast_box.ResourceModel.Manifest.{
  allowed_values, check_all_resources, check_binding, check_dataset, check_device, check_feature,
  check_reference, check_resources, check_section, each_with_ids, enum_values, feature_type,
  set_of_ids, validate_manifest_resources,
}
use klokast_box.ResourceModel.Offers.{
  check_grant, check_tag, has_brace, validate_artifact_resource_shape,
  validate_tailnet_resource_shape,
}
use klokast_box.ResourceModel.Manifest.Accepted.{Accepted, validate_manifest_resources_sound}
use klokast_box.ResourceModel.Names.{
  check_within, validate_app_id, validate_app_tailnet_tag, validate_box, validate_hostname,
  validate_id, validate_iface, validate_ip, validate_ip_in_cidr, validate_login, validate_mac,
  validate_slug, validate_system_user, validate_tag, validate_user_field,
}
use klokast_box.ResourceModel.Placement.{
  RuntimeState, app_runtime_state, box_name, box_names, check_enabled_placement, check_mode,
  compute_of_type, entry_placement, field_boxes, insert_text, listed_boxes, manifest_placement_mode,
  mode_of, per_user_app_vm_resources, runtime_state_of, section_of, selected_boxes, sorted_texts,
  take_over,
}
use klokast_box.ResourceModel.Placement.Order.{ascending}
use klokast_box.ResourceModel.Placement.Sound.{IsBox, names_box, selected_boxes_sound}
use klokast_box.ResourceModel.Ports.{insert, read_ports, sorted_set, validate_ports}
use klokast_box.ResourceModel.Samples.{
  array, name_text, object, sample_addresses, sample_bulb, sample_desktop, sample_inventory,
  sample_lamp, sample_manifest, sample_resources, sample_compute, sample_registration,
  sample_registry, sample_server, sample_times, sample_topology,
}
use klokast_box.ResourceModel.Selection.{
  check_box, check_guests, check_resource, check_running, check_selected, resource_enabled,
  resource_selected_for_box, resources_of, running_podman_workload_zones, select_resources,
  selected_network_resources, validate_selected_resource_capabilities,
  validate_shared_guest_app_compatibility,
}
use klokast_box.ResourceModel.Selection.Sound.{
  SelectedWhereEnabled, validate_selected_resource_capabilities_sound,
}
use klokast_box.ResourceModel.Selection.Guests.{
  shared_guest_state, validate_shared_guest_app_compatibility_sound,
}
use klokast_box.ResourceModel.Selectors.{
  insert_selector, read_range, read_selector, read_selectors, sort_selectors,
  validate_tailnet_port_selectors,
}
use klokast_box.ResourceModel.Shapes.{
  NetworkType, check_compute_type, check_egress_ports, check_network_type, check_zone_if_named,
  network_fields, network_type_of, read_type, type_from, validate_compute_resource_shape,
  validate_network_resource_shape,
}
use klokast_box.ResourceModel.Shapes.Sound.{Reaches, validate_network_resource_shape_sound}
use klokast_box.ResourceModel.TextLists.{in_list}
use klokast_box.ResourceModel.Topology.{
  check_aliases, check_ops_zone, check_realm, check_realms, check_zone, check_zones, load_topology,
  resolve_realm, resolve_zone,
}
use klokast_box.ResourceModel.Topology.Sound.{Resolves, load_topology_sound}
use klokast_box.ResourceModel.Users.{
  User, any_privileged, check_approval, check_expiry, check_new, read_port_of, read_user,
  read_users, referenced_fields, reserved_ips, select_users, selected_users,
  user_fields_referenced_by_network, validate_privileged_runtime, zone_address,
}
use klokast_box.ResourceModel.Users.Approval.{IsApproved, validate_privileged_runtime_sound}
use klokast_box.ResourceModel.Users.Sound.{Selected, selected_users_sound}
use klokast_box.ResourceModel.Values.{get, has_key, in_set, key_list, look_up, no_mapping, or_else}

abbrev some_access : Value
some_access = object (
    (
      "available_capabilities",
      array (name_text "overlay" ∷ name_text "rg-lan" ∷ name_text "overlay" ∷ []),
    )
    ∷ ("enabled_capabilities", array (name_text "rg-lan" ∷ []))
    ∷ ("prohibited_capabilities", array (name_text "direct-ingress" ∷ []))
    ∷ [])

abbrev normal_access : BoxAccess
normal_access = record {
  available = "overlay" ∷ "rg-lan" ∷ [];
  enabled = "rg-lan" ∷ [];
  prohibited = "direct-ingress" ∷ [];
}

access_is_read : normalize_box_access some_access ≡ ok normal_access
unfolding check_enabled collect_capabilities each normalize_access_fields normalize_box_access
    reject_unknown_fields validate_access_capability validate_access_capability_list
access_is_read = refl

normalize_box_access-IsNormal_example : IsNormal normal_access
normalize_box_access-IsNormal_example =
    normalize_box_access-IsNormal some_access normal_access access_is_read

normalize_box_access_again_example :
    normalize_box_access (access_value normal_access) ≡ ok normal_access
normalize_box_access_again_example =
    normalize_box_access_again some_access normal_access access_is_read

abbrev kari : User
kari = record {
  slug = "kari";
  tailscale_login = "kari@example.org";
  system_user = "kari";
  vm_ipv4_address = "10.0.0.9";
  storage_port = none;
}

users_are_read :
    selected_users sample_addresses sample_manifest sample_registration sample_topology
    ≡ ok (kari ∷ [])
unfolding capability_of check_new check_within compute_of_type each in_set insert look_up
    per_user_app_vm_resources read_port_of read_ports read_user read_users referenced_fields
    reserved_ips resource_access_allowed resource_enabled resource_selected_for_box section_of
    select_resources select_users selected_network_resources selected_users sorted_set
    user_fields_referenced_by_network validate_id validate_ip validate_ip_in_cidr validate_login
    validate_ports validate_slug validate_system_user validate_user_field zone_address
users_are_read = refl

selected_users_sound_example :
    (◌≡◌ {A = List User} (kari ∷ []) []) ⊎ Selected sample_addresses sample_topology (kari ∷ [])
selected_users_sound_example =
    selected_users_sound sample_addresses sample_manifest sample_registration sample_topology
      (kari ∷ []) users_are_read

abbrev oslo : BoxConfig
oslo = record {
  bootstrap_dns = some ("1.1.1.1", "8.8.8.8");
  rg_lan = none;
  routing_profile = none;
  dom0_bridge_ports = ("bak", "eth3" ∷ "eth4" ∷ []) ∷ [];
  access = default_box_access;
  dhcp_reservations =
      record { hostname = "printer"; mac = codes "aa:bb:cc:00:11:22"; ipv4_address = "10.0.0.9" }
      ∷ [];
  shared_guests = record {
    bak = RuntimeState.running;
    dmz = RuntimeState.running;
    iot = RuntimeState.stopped;
  };
  vpn_egress = none;
}

abbrev configs : List (String × BoxConfig)
configs = ("oslo", oslo) ∷ []

configs_are_read :
    registry_box_configs sample_addresses sample_topology sample_registry ≡ ok configs
unfolding add_port add_ports bootstrap_dns bridge_ports check_enabled collect_capabilities each
    guest_state normalize_access_fields normalize_box_access read_box read_boxes read_reservation
    read_reservations read_shared_guests registry_box_configs reject_unknown_fields resolver_pair
    shared_guest two_resolvers validate_access_capability validate_access_capability_list
    validate_box validate_hostname validate_id validate_iface validate_ip validate_mac
configs_are_read = refl

registry_box_configs_sound_example : AllSound sample_addresses sample_topology configs
registry_box_configs_sound_example =
    registry_box_configs_sound sample_addresses sample_topology sample_registry configs
      configs_are_read

abbrev boxes : List String
boxes = "bergen" ∷ "oslo" ∷ []

boxes_are_selected : selected_boxes "home" sample_manifest sample_registration ≡ ok boxes
unfolding box_name box_names check_enabled_placement check_mode compute_of_type entry_placement
    field_boxes insert_text listed_boxes manifest_placement_mode mode_of per_user_app_vm_resources
    section_of selected_boxes sorted_texts take_over validate_box validate_id
boxes_are_selected = refl

selected_boxes_sound_example :
    (placement : Mapping) × (entry_placement sample_registration ≡ ok placement)
    × (ascending boxes ≡ true)
    × ((k : String) → in_list k boxes ≡ names_box k placement)
    × ((k : String) → in_list k boxes ≡ true → IsBox k)
selected_boxes_sound_example =
    selected_boxes_sound "home" sample_manifest sample_registration boxes boxes_are_selected

manifest_is_accepted : validate_manifest_resources "home" sample_manifest sample_topology ≡ ok tt
unfolding allowed_values check_all_resources check_binding check_capability check_compute_type
    check_dataset check_device check_egress_ports check_feature check_grant check_network_type
    check_reference check_resources check_section check_tag check_zone_if_named each each_with_ids
    enum_values feature_type has_brace insert insert_selector read_ports read_range read_selector
    read_selectors read_type reject_fields reject_raw_network_fields reject_tcb_control_fields
    reject_unknown_fields resolve_realm resolve_zone set_of_ids sort_selectors sorted_set
    validate_access_capability validate_access_intent validate_access_of validate_app_id
    validate_app_tailnet_tag validate_artifact_resource_shape validate_compute_resource_shape
    validate_hostname validate_id validate_manifest_resources validate_network_resource_shape
    validate_ports validate_resource_access validate_tag validate_tailnet_port_selectors
    validate_tailnet_resource_shape validate_user_field
manifest_is_accepted = refl

validate_manifest_resources_sound_example : Accepted sample_manifest
validate_manifest_resources_sound_example =
    validate_manifest_resources_sound "home" sample_manifest sample_topology manifest_is_accepted

lamp_is_accepted : validate_network_resource_shape "home" sample_topology sample_lamp ≡ ok tt
unfolding check_capability check_egress_ports check_network_type each insert read_ports read_type
    reject_fields reject_raw_network_fields reject_unknown_fields resolve_realm resolve_zone
    sorted_set validate_access_capability validate_access_intent validate_access_of validate_id
    validate_network_resource_shape validate_ports validate_resource_access validate_user_field
lamp_is_accepted = refl

validate_network_resource_shape_sound_example :
    (type : NetworkType) × (type_from network_type_of (get "type" sample_lamp) ≡ some type)
    × All (λ key. in_list key raw_network_fields ≡ false) (keys (Value.mapping sample_lamp))
    × (all (λ key. in_list key (network_fields type)) (key_list sample_lamp) ≡ true)
    × Reaches "home" sample_topology type sample_lamp
validate_network_resource_shape_sound_example =
    validate_network_resource_shape_sound "home" sample_topology sample_lamp lamp_is_accepted

topology_is_loaded : load_topology sample_addresses sample_inventory ≡ ok sample_topology
unfolding check_aliases check_ops_zone check_realm check_realms check_zone check_zones each
    load_topology validate_id validate_iface validate_ip
topology_is_loaded = refl

load_topology_sound_example :
    (zones : Mapping) × (aliases : Mapping) × (or_else
        (get "platform_zones" sample_inventory)
        no_mapping
      ≡ Value.mapping zones)
    × (or_else (get "platform_zone_aliases" sample_inventory) no_mapping ≡ Value.mapping aliases)
    × ((s : String)
        → s =ₛ "" ≡ false
        → (has_key s aliases || has_key s zones) ≡ true
        → Resolves sample_topology s)
load_topology_sound_example =
    load_topology_sound sample_addresses sample_inventory sample_topology topology_is_loaded

capabilities_are_accepted :
    validate_selected_resource_capabilities sample_manifest sample_registration boxes configs
    ≡ ok tt
unfolding bootstrap_dns capability_of check_box check_resource check_selected each in_set look_up
    resolver_pair resource_access_allowed resource_enabled resources_of set_of_ids two_resolvers
    validate_selected_resource_capabilities
capabilities_are_accepted = refl

validate_selected_resource_capabilities_sound_example :
    (resources : List Mapping) × (resources_of
        (or_else (get "resources" sample_manifest) no_mapping)
        ("compute" ∷ "network" ∷ "tailnet" ∷ "artifacts" ∷ [])
      ≡ ok resources)
    × All (λ r. All (SelectedWhereEnabled sample_registration configs r) boxes) resources
validate_selected_resource_capabilities_sound_example =
    validate_selected_resource_capabilities_sound sample_manifest sample_registration boxes configs
      refl capabilities_are_accepted

guests_are_accepted :
    validate_shared_guest_app_compatibility sample_manifest sample_registration boxes configs
      sample_topology
    ≡ ok tt
unfolding app_runtime_state bootstrap_dns check_guests check_running each resolver_pair
    running_podman_workload_zones runtime_state_of section_of two_resolvers
    validate_shared_guest_app_compatibility
guests_are_accepted = refl

-- The server is in the zone that the alias stands for.
validate_shared_guest_app_compatibility_sound_example :
    shared_guest_state (box_config_for configs "oslo").shared_guests "bak"
    ≢ some RuntimeState.stopped
validate_shared_guest_app_compatibility_sound_example =
    validate_shared_guest_app_compatibility_sound sample_manifest sample_registration boxes configs
      sample_topology sample_resources sample_compute sample_server "backend" "bak" "oslo" refl refl
      refl refl (inl refl) refl refl (inl refl) refl guests_are_accepted

abbrev compute_values : List Value
compute_values =
    Value.mapping sample_server ∷ Value.mapping sample_bulb ∷ Value.mapping sample_desktop ∷ []

compute_is_listed : section_of "compute" sample_manifest ≡ ok (array compute_values)
unfolding section_of
compute_is_listed = refl

approval_is_accepted :
    validate_privileged_runtime sample_times sample_manifest sample_registration ≡ ok tt
unfolding any_privileged check_approval check_expiry section_of validate_id
    validate_privileged_runtime
approval_is_accepted = refl

validate_privileged_runtime_sound_example : IsApproved sample_times sample_registration
validate_privileged_runtime_sound_example =
    validate_privileged_runtime_sound sample_times sample_manifest sample_registration
      (array compute_values) compute_values refl compute_is_listed refl refl approval_is_accepted
