-- ===== src/ResourceModel/Topology.antt =====
-- platform_resource_model.py `load_topology`, from the variables that it reads on, and the names
-- of zones and realms.
pub mod Sound
use klokast_box.Prelude.{
  ℕ, String, Bool, true, false, not, ◌&&◌, ◌||◌, Option, none, some, List, [], ◌∷◌, ◌=ₛ◌, leb,
  if◌then◌else◌,
}
use klokast_box.Checks.{Outcome, ok, raised, ◌>>=◌, ◌>>◌, check, or_raise, each}
use klokast_box.ResourceModel.{Value, Mapping, Refusal, died, crashed}
use klokast_box.ResourceModel.Values.{
  get, get_or, has_key, entries, has_entries, truthy, or_else, no_mapping, text_among, as_mapping,
}
use klokast_box.ResourceModel.Names.{Addresses, validate_id, validate_iface, validate_ip}

-- `m.get(key)`, for a dictionary of checked values.
abbrev pub lookup : {V : Type 0} → String → List (String × V) → Option V
lookup key [] = none
lookup key ((k, v) ∷ rest) = if k =ₛ key then some v else lookup key rest

abbrev pub is_some : {A : Type 0} → Option A → Bool
is_some none = false
is_some (some a) = true

-- Zones and realms are mappings, and an alias is a text, once they are checked.
pub record Topology : Type 0 where
  pub zones : List (String × Mapping)
  pub aliases : List (String × String)
  pub realms : List (String × Mapping)
  pub control_zones : Mapping
  pub air : Value
  pub vpn_egress : Value

abbrev pub workload_roles : List String
workload_roles = "backend" ∷ "dmz" ∷ "iot" ∷ "usr" ∷ []

-- An integer of a range that does not have zero; `True` is 1.
abbrev pub int_within : ℕ → ℕ → Value → Bool
int_within lo hi (Value.integer n) = leb lo n && leb n hi
int_within lo hi (Value.boolean true) = leb lo 1 && leb 1 hi
int_within lo hi _ = false

-- A text that `validate_id` accepted.
abbrev pub as_text : Value → Outcome Refusal String
as_text (Value.text s) = ok s
as_text _ = raised (crashed "TypeError")

-- A check that is made where the value is true.
abbrev pub if_truthy : (Value → Outcome Refusal (Unit {0})) → Value → Outcome Refusal (Unit {0})
if_truthy f value = if truthy value then f value else ok tt

module _ (addresses : Addresses) where
  unfoldable pub check_zone : String → Value → Outcome Refusal Mapping
  check_zone name value = do
    validate_id (Value.text name)
    zone ← as_mapping (died "must be a mapping") value
    check (text_among workload_roles (get "role" zone)) (died "role must be one of")
    each (λ key. validate_iface (get key zone))
        ("hostname_suffix" ∷ "bridge" ∷ "router_interface" ∷ "vm_interface" ∷ [])
    each (λ key. validate_ip addresses (get key zone))
        ("router_ipv4_address" ∷ "vm_ipv4_address" ∷ [])
    validate_ip addresses (get "cidr" zone)
    ok zone

  unfoldable pub check_zones : List (String × Value) → Outcome Refusal (List (String × Mapping))
  unfolding check_zone
  check_zones [] = ok []
  check_zones ((name, value) ∷ rest) =
      let others = check_zones rest in
      check_zone name value >>= λ zone. others >>= λ zones. ok ((name, zone) ∷ zones)

  unfoldable pub check_ops_zone : Value → Outcome Refusal (Unit {0})
  check_ops_zone value = do
    zone ← as_mapping (died "platform_control_zones.ops must be a mapping") value
    each (λ key. validate_iface (get key zone)) ("router_interface" ∷ "vm_interface" ∷ [])
    each (λ key. validate_ip addresses (get key zone))
        ("router_ipv4_address" ∷ "vm_ipv4_address" ∷ [])
    validate_ip addresses (get "cidr" zone)

  unfoldable pub check_aliases :
      Mapping → List (String × Value) → Outcome Refusal (List (String × String))
  check_aliases zones [] = ok []
  check_aliases zones ((alias, target) ∷ rest) =
      let others = check_aliases zones rest in
      validate_id (Value.text alias) >>= λ _. validate_id target >>= λ _. as_text target >>= λ name.
      check (has_key name zones) (died "points to unknown zone") >>= λ _.
      others >>= λ aliases. ok ((alias, name) ∷ aliases)

  -- A VLAN that is given is an integer from 1 to 4094.
  abbrev pub vlan_fits : Value → Bool
  vlan_fits Value.empty = true
  vlan_fits value = int_within 1 4094 value

  unfoldable pub check_realm : String → Value → Outcome Refusal Mapping
  check_realm name value = do
    validate_id (Value.text name)
    realm ← as_mapping (died "must be a mapping") value
    validate_iface (get "router_interface" realm)
    if_truthy validate_iface (get "parent_interface" realm)
    check (vlan_fits (get "vlan_id" realm)) (died "vlan_id must be 1-4094")
    each (λ key. if_truthy (validate_ip addresses) (get key realm))
        ("router_ipv4_address" ∷ "cidr" ∷ "dhcp_start" ∷ "dhcp_end" ∷ "ap_management_ipv4_address"
          ∷ [])
    ok realm

  unfoldable pub check_realms : List (String × Value) → Outcome Refusal (List (String × Mapping))
  unfolding check_realm
  check_realms [] = ok []
  check_realms ((name, value) ∷ rest) =
      let others = check_realms rest in
      check_realm name value >>= λ realm. others >>= λ realms. ok ((name, realm) ∷ realms)

  -- `inventory_vars` is what the file of the topology has.
  unfoldable pub load_topology : Mapping → Outcome Refusal Topology
  unfolding check_zones check_ops_zone check_aliases check_realms
  load_topology inventory_vars = do
    let part = λ (key : String). or_else (get key inventory_vars) no_mapping
    zones ← as_mapping (died "platform_zones must be a non-empty mapping") (part "platform_zones")
    check (has_entries zones) (died "platform_zones must be a non-empty mapping")
    aliases ←
        as_mapping (died "platform_zone_aliases must be a mapping") (part "platform_zone_aliases")
    control_zones ←
        as_mapping (died "platform_control_zones must be a mapping") (part "platform_control_zones")
    realms ←
        as_mapping (died "platform_network_realms must be a mapping")
          (part "platform_network_realms")
    checked_zones ← check_zones (entries zones)
    check_ops_zone (or_else (get "ops" control_zones) no_mapping)
    checked_aliases ← check_aliases zones (entries aliases)
    check (has_key "wan" realms && has_key "lan" realms) (died "the realm is required")
    checked_realms ← check_realms (entries realms)
    ok (record {
      zones = checked_zones;
      aliases = checked_aliases;
      realms = checked_realms;
      control_zones = control_zones;
      air = get_or "platform_air" no_mapping inventory_vars;
      vpn_egress = get_or "platform_vpn_egress" no_mapping inventory_vars;
    })

-- `aliases.get(name, name)`
abbrev pub canonical_zone : Topology → String → String
canonical_zone topology name = elim (lookup name topology.aliases) [
  | none ↦ name
  | some target ↦ target
]

unfoldable pub resolve_zone : Value → Topology → Outcome Refusal (String × Mapping)
resolve_zone (Value.text s) topology = do
  check (not (s =ₛ "")) (died "must be a Platform zone")
  zone ←
      or_raise (lookup (canonical_zone topology s) topology.zones) (died "must be one of the zones")
  ok (canonical_zone topology s, zone)
resolve_zone _ topology = raised (died "must be a Platform zone")

unfoldable pub resolve_realm : Value → Topology → Bool → Outcome Refusal (String × Mapping)
resolve_realm (Value.text s) topology require_cidr = do
  check (not (s =ₛ "")) (died "must be a Platform network realm")
  realm ← or_raise (lookup s topology.realms) (died "must be one of the realms")
  check (not require_cidr || truthy (get "cidr" realm)) (died "must reference a realm with a cidr")
  ok (s, realm)
resolve_realm _ topology require_cidr = raised (died "must be a Platform network realm")
