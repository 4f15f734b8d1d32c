-- ===== src/ResourceModel/Shapes.antt =====
-- platform_resource_model.py: the shape of each resource of a manifest, by its section and type.
pub mod Sound
use klokast_box.Prelude.{
  ℕ, String, Bool, true, false, not, ◌&&◌, ◌||◌, Option, none, some, List, [], ◌∷◌, ◌++◌, ◌==◌,
  ◌=ₛ◌, if◌then◌else◌, elem,
}
use klokast_box.Prelude.Text.{codes}
use klokast_box.Checks.{Outcome, ok, raised, ◌>>=◌, ◌>>◌, check, or_raise, each}
use klokast_box.ResourceModel.{Value, Mapping, Sequence, Refusal, died, crashed}
use klokast_box.ResourceModel.Values.{
  get, get_or, has_key, truthy, or_else, no_list, text_is, text_among, as_list, is_hashable, items,
}
use klokast_box.ResourceModel.Names.{
  validate_id, validate_hostname, validate_user_field, validate_app_tailnet_tag,
}
use klokast_box.ResourceModel.Fields.{reject_raw_network_fields}
use klokast_box.ResourceModel.Ports.{validate_ports}
use klokast_box.ResourceModel.Access.{reject_unknown_fields, validate_resource_access}
use klokast_box.ResourceModel.Topology.{Topology, resolve_zone, resolve_realm, if_truthy}

-- `COMPUTE_FIELDS_BY_TYPE`
pub data ComputeType : Type 0 where
  podman_workload host_service ephemeral_privileged_builder : ComputeType
  managed_iot_device per_user_app_vm app_vm : ComputeType

abbrev pub compute_common_fields : List String
compute_common_fields =
    "id" ∷ "type" ∷ "zone" ∷ "privilege" ∷ "lifecycle" ∷ "rationale" ∷ "isolation"
    ∷ "cleanup_required" ∷ "access" ∷ "requires_capability" ∷ []

abbrev pub compute_fields : ComputeType → List String
compute_fields ComputeType.managed_iot_device =
    "hostname_suffix" ∷ "hostname_default" ∷ "management_tag_default" ∷ compute_common_fields
compute_fields ComputeType.per_user_app_vm =
    "vm_name_prefix" ∷ "tailnet_tag_prefix" ∷ "guest_os" ∷ "debian_release" ∷ "container_runtime"
    ∷ "memory_mb" ∷ "vcpus" ∷ "lv_size" ∷ compute_common_fields
compute_fields ComputeType.app_vm =
    "hostname_suffix" ∷ "tailnet_tag_default" ∷ "guest_os" ∷ "container_runtime" ∷ "memory_mb"
    ∷ "vcpus" ∷ "lv_size" ∷ compute_common_fields
compute_fields _ = compute_common_fields

abbrev pub compute_type_of : String → Option ComputeType
compute_type_of s =
    if s =ₛ "podman_workload"
    then some ComputeType.podman_workload
    else if s =ₛ "host_service"
    then some ComputeType.host_service
    else if s =ₛ "ephemeral_privileged_builder"
    then some ComputeType.ephemeral_privileged_builder
    else if s =ₛ "managed_iot_device"
    then some ComputeType.managed_iot_device
    else if s =ₛ "per_user_app_vm"
    then some ComputeType.per_user_app_vm
    else if s =ₛ "app_vm"
    then some ComputeType.app_vm
    else none

-- `FIELDS_BY_TYPE.get(type)`: the type that a value names.
abbrev pub type_from : {T : Type 0} → (String → Option T) → Value → Option T
type_from of_name (Value.text s) = of_name s
type_from of_name _ = none

unfoldable pub read_type : {T : Type 0} → (String → Option T) → String → Value → Outcome Refusal T
read_type of_name message value = check (is_hashable value) (crashed "TypeError") >>= λ _.
    or_raise (type_from of_name value) (died message)

unfoldable pub check_zone_if_named : Topology → Value → Outcome Refusal String
check_zone_if_named topology value =
    if truthy value then (resolve_zone value topology >>= λ z. ok z.0) else ok ""

unfoldable pub check_compute_type :
    String → ComputeType → Mapping → String → Outcome Refusal (Unit {0})
check_compute_type app_name ComputeType.managed_iot_device resource zone = do
  check (truthy (get "zone" resource)) (died "zone is required for managed_iot_device")
  check (zone =ₛ "iot") (died "zone must be iot for managed_iot_device")
  if_truthy validate_id (get "hostname_suffix" resource)
  if_truthy validate_hostname (get "hostname_default" resource)
  if_truthy validate_app_tailnet_tag (get "management_tag_default" resource)
check_compute_type app_name ComputeType.per_user_app_vm resource zone = do
  validate_id (get_or "vm_name_prefix" (Value.text "usr") resource)
  validate_id (get_or "tailnet_tag_prefix" (Value.text app_name) resource)
check_compute_type app_name ComputeType.app_vm resource zone = do
  check (truthy (get "zone" resource)) (died "zone is required for app_vm")
  if_truthy validate_id (get "hostname_suffix" resource)
  if_truthy validate_app_tailnet_tag (get "tailnet_tag_default" resource)
  check (text_is "alpine" (or_else (get "guest_os" resource) (Value.text "alpine")))
      (died "guest_os must be alpine for app_vm")
  check (text_is "none" (or_else (get "container_runtime" resource) (Value.text "none")))
      (died "container_runtime must be none for app_vm")
check_compute_type app_name _ resource zone = ok tt

unfoldable pub validate_compute_resource_shape :
    String → Topology → Mapping → Outcome Refusal (Unit {0})
unfolding check_zone_if_named check_compute_type read_type
validate_compute_resource_shape app_name topology resource = do
  validate_id (get "id" resource)
  type ← read_type compute_type_of "unsupported compute resource type" (get "type" resource)
  reject_unknown_fields (compute_fields type) (Value.mapping resource)
  validate_resource_access resource
  zone ← check_zone_if_named topology (get "zone" resource)
  check_compute_type app_name type resource zone

-- `NETWORK_FIELDS_BY_TYPE`
pub data NetworkType : Type 0 where
  rg_lan_ipp interzone_tcp realm_to_zone_tcp wan_egress : NetworkType
  zone_to_device_tcp device_to_zone_tcp device_wan_egress tailnet_tcp : NetworkType

abbrev pub network_common_fields : List String
network_common_fields =
    "id" ∷ "type" ∷ "required" ∷ "enabled_by_default" ∷ "exclusive" ∷ "rationale" ∷ "access"
    ∷ "requires_capability" ∷ []

abbrev pub network_fields : NetworkType → List String
network_fields NetworkType.interzone_tcp =
    "from_zone" ∷ "to_zone" ∷ "ports" ∷ "port" ∷ "ports_from_user" ∷ network_common_fields
network_fields NetworkType.realm_to_zone_tcp =
    "from_realm" ∷ "to_zone" ∷ "ports" ∷ "port" ∷ network_common_fields
network_fields NetworkType.wan_egress =
    "from_zone" ∷ "tcp_ports" ∷ "udp_ports" ∷ network_common_fields
network_fields NetworkType.zone_to_device_tcp =
    "from_zone" ∷ "device" ∷ "ports" ∷ "port" ∷ network_common_fields
network_fields NetworkType.device_to_zone_tcp =
    "device" ∷ "to_zone" ∷ "ports" ∷ "port" ∷ network_common_fields
network_fields NetworkType.device_wan_egress =
    "device" ∷ "tcp_ports" ∷ "udp_ports" ∷ network_common_fields
network_fields _ = network_common_fields

abbrev pub network_type_of : String → Option NetworkType
network_type_of s =
    if s =ₛ "rg_lan_ipp"
    then some NetworkType.rg_lan_ipp
    else if s =ₛ "interzone_tcp"
    then some NetworkType.interzone_tcp
    else if s =ₛ "realm_to_zone_tcp"
    then some NetworkType.realm_to_zone_tcp
    else if s =ₛ "wan_egress"
    then some NetworkType.wan_egress
    else if s =ₛ "zone_to_device_tcp"
    then some NetworkType.zone_to_device_tcp
    else if s =ₛ "device_to_zone_tcp"
    then some NetworkType.device_to_zone_tcp
    else if s =ₛ "device_wan_egress"
    then some NetworkType.device_wan_egress
    else if s =ₛ "tailnet_tcp"
    then some NetworkType.tailnet_tcp
    else none

-- `validate_ports`, where only its acceptance counts.
abbrev pub check_ports : Value → Outcome Refusal (Unit {0})
check_ports value = validate_ports value >>= λ _. ok tt

-- `resource.get('ports', [resource.get('port')])`
abbrev pub ports_of : Mapping → Value
ports_of resource =
    get_or "ports" (Value.sequence (Sequence.item (get "port" resource) Sequence.no_items)) resource

-- The two lists of an egress: each is checked if it is there, and one must be.
unfoldable pub check_egress_ports : Mapping → Outcome Refusal (Unit {0})
check_egress_ports resource = do
  if_truthy check_ports (get "tcp_ports" resource)
  if_truthy check_ports (get "udp_ports" resource)
  check (truthy (get "tcp_ports" resource) || truthy (get "udp_ports" resource))
      (died "requires tcp_ports or udp_ports")

unfoldable pub check_network_type :
    String → Topology → NetworkType → Mapping → Outcome Refusal (Unit {0})
unfolding check_egress_ports
check_network_type app_name topology NetworkType.rg_lan_ipp resource =
    check (app_name =ₛ "print-server" && text_is "rg-lan" (get "requires_capability" resource))
      (died "rg_lan_ipp requires print-server and the rg-lan capability")
check_network_type app_name topology NetworkType.interzone_tcp resource = do
  source ← resolve_zone (get "from_zone" resource) topology
  target ← resolve_zone (get "to_zone" resource) topology
  check (not (source.0 =ₛ target.0)) (died "interzone_tcp requires distinct zones")
  if truthy (get "ports_from_user" resource)
      then validate_user_field (get "ports_from_user" resource)
      else check_ports (ports_of resource)
check_network_type app_name topology NetworkType.realm_to_zone_tcp resource = do
  realm ← resolve_realm (get "from_realm" resource) topology true
  zone ← resolve_zone (get "to_zone" resource) topology
  check_ports (ports_of resource)
check_network_type app_name topology NetworkType.wan_egress resource = do
  zone ← resolve_zone (get "from_zone" resource) topology
  check_egress_ports resource
check_network_type app_name topology NetworkType.zone_to_device_tcp resource = do
  zone ← resolve_zone (get "from_zone" resource) topology
  validate_id (get "device" resource)
  check_ports (ports_of resource)
check_network_type app_name topology NetworkType.device_to_zone_tcp resource = do
  validate_id (get "device" resource)
  zone ← resolve_zone (get "to_zone" resource) topology
  check_ports (ports_of resource)
check_network_type app_name topology NetworkType.device_wan_egress resource = do
  validate_id (get "device" resource)
  check_egress_ports resource
check_network_type app_name topology NetworkType.tailnet_tcp resource = ok tt

unfoldable pub validate_network_resource_shape :
    String → Topology → Mapping → Outcome Refusal (Unit {0})
unfolding check_network_type read_type
validate_network_resource_shape app_name topology resource = do
  validate_id (get "id" resource)
  reject_raw_network_fields (Value.mapping resource)
  type ← read_type network_type_of "unsupported network resource type" (get "type" resource)
  reject_unknown_fields (network_fields type) (Value.mapping resource)
  validate_resource_access resource
  check_network_type app_name topology type resource
