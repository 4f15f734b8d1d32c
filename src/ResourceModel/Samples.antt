-- ===== src/ResourceModel/Samples.antt =====
-- A small inventory, a registry and a manifest, that the tests run the model on.
use klokast_box.Prelude.{
  String, true, ◌&&◌, ◌||◌, none, some, List, [], ◌∷◌, ◌=ₛ◌, elem, if◌then◌else◌,
}
use klokast_box.ResourceModel.{Value, Mapping, Sequence}
use klokast_box.ResourceModel.Names.{Addresses}
use klokast_box.ResourceModel.Topology.{Topology}
use klokast_box.ResourceModel.Users.{Times}

abbrev pub fields : List (String × Value) → Mapping
fields [] = Mapping.no_entries
fields ((k, v) ∷ rest) = Mapping.bind k v (fields rest)

abbrev pub object : List (String × Value) → Value
object kvs = Value.mapping (fields kvs)

abbrev pub sequence_of : List Value → Sequence
sequence_of [] = Sequence.no_items
sequence_of (v ∷ vs) = Sequence.item v (sequence_of vs)

abbrev pub array : List Value → Value
array vs = Value.sequence (sequence_of vs)

abbrev pub name_text : String → Value
name_text s = Value.text s

abbrev pub some_addresses : List String
some_addresses = "10.0.0.1" ∷ "10.0.0.2" ∷ "10.0.0.9" ∷ "1.1.1.1" ∷ "8.8.8.8" ∷ []

-- Five addresses, of which the last two are public, and one network of the first three.
abbrev pub sample_addresses : Addresses
sample_addresses = record {
  is_address = λ s. elem ◌=ₛ◌ s some_addresses;
  is_network = λ s. s =ₛ "10.0.0.0/24";
  canonical = λ s. s;
  within = λ s t. elem ◌=ₛ◌ s ("10.0.0.1" ∷ "10.0.0.2" ∷ "10.0.0.9" ∷ []) && (t =ₛ "10.0.0.0/24");
  is_global =
      λ s. if elem ◌=ₛ◌ s some_addresses then some (s =ₛ "1.1.1.1" || s =ₛ "8.8.8.8") else none;
}

abbrev pub zone_fields : String → Mapping
zone_fields role = fields (
    ("role", name_text role)
    ∷ ("hostname_suffix", name_text "usr")
    ∷ ("bridge", name_text "br0")
    ∷ ("router_interface", name_text "eth1")
    ∷ ("vm_interface", name_text "eth0")
    ∷ ("router_ipv4_address", name_text "10.0.0.1")
    ∷ ("vm_ipv4_address", name_text "10.0.0.2")
    ∷ ("cidr", name_text "10.0.0.0/24")
    ∷ [])

abbrev pub realm_fields : Mapping
realm_fields = fields (("router_interface", name_text "eth2") ∷ [])

abbrev pub sample_inventory : Mapping
sample_inventory = fields (
    (
      "platform_zones",
      object (
          ("usr", Value.mapping (zone_fields "usr"))
          ∷ ("bak", Value.mapping (zone_fields "backend"))
          ∷ ("iot", Value.mapping (zone_fields "iot"))
          ∷ []),
    )
    ∷ ("platform_zone_aliases", object (("backend", name_text "bak") ∷ []))
    ∷ ("platform_control_zones", object (("ops", Value.mapping (zone_fields "backend")) ∷ []))
    ∷ (
      "platform_network_realms",
      object (("wan", Value.mapping realm_fields) ∷ ("lan", Value.mapping realm_fields) ∷ []),
    )
    ∷ [])

-- The topology of the inventory.
abbrev pub sample_topology : Topology
sample_topology = record {
  zones =
      ("usr", zone_fields "usr") ∷ ("bak", zone_fields "backend") ∷ ("iot", zone_fields "iot") ∷ [];
  aliases = ("backend", "bak") ∷ [];
  realms = ("wan", realm_fields) ∷ ("lan", realm_fields) ∷ [];
  control_zones = fields (("ops", Value.mapping (zone_fields "backend")) ∷ []);
  air = object [];
  vpn_egress = object [];
}

-- {id: lamp, type: zone_to_device_tcp, from_zone: backend, device: bulb, ports: [80]}
abbrev pub sample_lamp : Mapping
sample_lamp = fields (
    ("id", name_text "lamp")
    ∷ ("type", name_text "zone_to_device_tcp")
    ∷ ("from_zone", name_text "backend")
    ∷ ("device", name_text "bulb")
    ∷ ("required", Value.boolean true)
    ∷ ("requires_capability", name_text "overlay")
    ∷ ("ports", array (Value.integer 80 ∷ []))
    ∷ [])

abbrev pub sample_server : Mapping
sample_server = fields (
    ("id", name_text "server")
    ∷ ("type", name_text "podman_workload")
    ∷ ("zone", name_text "backend")
    ∷ ("privilege", name_text "privileged")
    ∷ [])

abbrev pub sample_bulb : Mapping
sample_bulb = fields (
    ("id", name_text "bulb")
    ∷ ("type", name_text "managed_iot_device")
    ∷ ("zone", name_text "iot")
    ∷ [])

abbrev pub sample_desktop : Mapping
sample_desktop = fields (
    ("id", name_text "desktop")
    ∷ ("type", name_text "per_user_app_vm")
    ∷ ("zone", name_text "usr")
    ∷ [])

abbrev pub sample_compute : Sequence
sample_compute =
    sequence_of
      (Value.mapping sample_server ∷ Value.mapping sample_bulb ∷ Value.mapping sample_desktop ∷ [])

abbrev pub sample_resources : Mapping
sample_resources = fields (
    ("compute", Value.sequence sample_compute)
    ∷ ("network", array (Value.mapping sample_lamp ∷ []))
    ∷ [])

abbrev pub sample_manifest : Mapping
sample_manifest = fields (
    ("app", name_text "home")
    ∷ ("placement_mode", name_text "multi_box")
    ∷ (
      "features",
      array (
          object (
            ("id", name_text "light")
            ∷ ("type", name_text "boolean")
            ∷ ("resource_bindings", object (("true", array (name_text "lamp" ∷ [])) ∷ []))
            ∷ [])
          ∷ []),
    )
    ∷ (
      "datasets",
      array (
          object (
            ("id", name_text "notes")
            ∷ ("type", name_text "durable_user_data")
            ∷ ("rationale", name_text "kept")
            ∷ [])
          ∷ []),
    )
    ∷ ("resources", Value.mapping sample_resources)
    ∷ [])

-- An entry of the registry: enabled, on two boxes, with one user and an approval.
abbrev pub sample_registration : Mapping
sample_registration = fields (
    ("enabled", Value.boolean true)
    ∷ ("boxes", array (name_text "oslo" ∷ name_text "bergen" ∷ []))
    ∷ (
      "users",
      array (
          object (
            ("slug", name_text "kari")
            ∷ ("tailscale_login", name_text "kari@example.org")
            ∷ ("vm_ipv4_address", name_text "10.0.0.9")
            ∷ [])
          ∷ []),
    )
    ∷ (
      "controls",
      object (("privileged_approval", name_text "yes") ∷ ("expires_at", name_text "2030Z") ∷ []),
    )
    ∷ [])

abbrev pub sample_registry : Mapping
sample_registry = fields (
    (
      "boxes",
      object (
          (
            "oslo",
            object (
                (
                  "dom0_bridge_ports",
                  object (
                      ("backend", array (name_text "eth3" ∷ []))
                      ∷ ("bak", array (name_text "eth3" ∷ name_text "eth4" ∷ []))
                      ∷ []),
                )
                ∷ (
                  "dhcp_reservations",
                  array (
                      object (
                        ("hostname", name_text "printer")
                        ∷ ("mac", name_text "AA:BB:CC:00:11:22")
                        ∷ ("ipv4_address", name_text "10.0.0.9")
                        ∷ [])
                      ∷ []),
                )
                ∷ (
                  "shared_guests",
                  object (("iot", object (("runtime_state", name_text "stopped") ∷ [])) ∷ []),
                )
                ∷ []),
          )
          ∷ []),
    )
    ∷ [])

-- Any text names the moment 20, and it is now 10.
abbrev pub sample_times : Times
sample_times = record { from_text = λ s. some (some 20); now = 10 }
