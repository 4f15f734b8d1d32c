-- ===== src/ResourceModel/Boxes.antt =====
-- platform_resource_model.py `registry_box_configs`, `bootstrap_dns`, `box_config_for`.
pub mod Sound
use klokast_box.Prelude.{
  ℕ, ◌+◌, String, Bool, true, false, not, ◌&&◌, ◌||◌, Option, none, some, List, [], ◌∷◌, ◌++◌, ◌=ₛ◌,
  if◌then◌else◌, elem, all, map,
}
use klokast_box.Prelude.Text.{codes, is_upper}
use klokast_box.Checks.{Outcome, ok, raised, ◌>>=◌, ◌>>◌, check, or_raise}
use klokast_box.ResourceModel.{Value, Mapping, Sequence, Refusal, died, crashed}
use klokast_box.ResourceModel.Values.{
  find, get, get_or, key_list, entries, truthy, or_else, no_mapping, no_list, as_mapping, as_list,
  items,
}
use klokast_box.ResourceModel.Names.{
  Addresses, validate_box, validate_hostname, validate_mac, validate_iface, validate_ip, same_codes,
}
use klokast_box.ResourceModel.Access.{
  BoxAccess, default_box_access, normalize_box_access, none_as_mapping,
}
use klokast_box.ResourceModel.Topology.{Topology, lookup, is_some, canonical_zone, as_text}
use klokast_box.ResourceModel.Placement.{RuntimeState, running, stopped}

-- The address is in lower case, as code points.
pub record Reservation : Type 0 where
  pub hostname : String
  pub mac : List ℕ
  pub ipv4_address : String

pub record SharedGuests : Type 0 where
  pub bak : RuntimeState
  pub dmz : RuntimeState
  pub iot : RuntimeState

-- A box as it is normalized; `bootstrap_dns` stands in it unless it is the default.
pub record BoxConfig : Type 0 where
  pub bootstrap_dns : Option (String × String)
  pub rg_lan : Option Value
  pub routing_profile : Option Value
  pub dom0_bridge_ports : List (String × List String)
  pub access : BoxAccess
  pub dhcp_reservations : List Reservation
  pub shared_guests : SharedGuests
  pub vpn_egress : Option Value

abbrev pub default_box_config : BoxConfig
default_box_config = record {
  bootstrap_dns = none;
  rg_lan = none;
  routing_profile = none;
  dom0_bridge_ports = [];
  access = default_box_access;
  dhcp_reservations = [];
  shared_guests = record {
    bak = RuntimeState.running;
    dmz = RuntimeState.running;
    iot = RuntimeState.running;
  };
  vpn_egress = none;
}

abbrev pub box_config_for : List (String × BoxConfig) → String → BoxConfig
box_config_for configs box = elim (lookup box configs) [
  | none ↦ default_box_config
  | some config ↦ config
]

abbrev pub box_config_fields : List String
box_config_fields =
    "rg_lan" ∷ "bootstrap_dns" ∷ "routing_profile" ∷ "vpn_egress" ∷ "access" ∷ "dhcp_reservations"
    ∷ "dom0_bridge_ports" ∷ "shared_guests" ∷ []

-- `set(m) <= names`
abbrev pub keys_within : List String → Mapping → Bool
keys_within names m = all (λ key. elem ◌=ₛ◌ key names) (key_list m)

-- `ports.setdefault(key, [])`, with a port that is appended unless it is there.
abbrev pub append_new : String → List String → List String
append_new port ports = if elem ◌=ₛ◌ port ports then ports else ports ++ port ∷ []

unfoldable pub add_port :
    String → String → List (String × List String) → List (String × List String)
add_port key port [] = (key, port ∷ []) ∷ []
add_port key port ((k, ports) ∷ rest) =
    if k =ₛ key then (k, append_new port ports) ∷ rest else (k, ports) ∷ add_port key port rest

unfoldable pub add_ports :
    String
    → List Value
    → List (String × List String)
    → Outcome Refusal (List (String × List String))
unfolding add_port
add_ports key [] m = ok m
add_ports key (value ∷ rest) m =
    validate_iface value >>= λ _. as_text value >>= λ port. add_ports key rest (add_port key port m)

abbrev pub is_bridge_key : Topology → String → Bool
is_bridge_key topology key =
    is_some (lookup key topology.zones)
    || is_some (lookup key topology.aliases)
    || is_some (lookup key topology.realms)

unfoldable pub bridge_ports :
    Topology
    → List (String × Value)
    → List (String × List String)
    → Outcome Refusal (List (String × List String))
unfolding add_ports
bridge_ports topology [] m = ok m
bridge_ports topology ((key, value) ∷ rest) m =
    check (is_bridge_key topology key) (died "dom0_bridge_ports must be one of the bridges")
    >>= λ _. as_list (died "dom0_bridge_ports must be a non-empty list") value >>= λ ports.
        check (truthy value) (died "dom0_bridge_ports must be a non-empty list") >>= λ _.
        add_ports (canonical_zone topology key) ports m >>= λ m'. bridge_ports topology rest m'

-- `mac.lower()`, of an address that `validate_mac` accepted.
abbrev pub lower : ℕ → ℕ
lower c = if is_upper c then c + 32 else c

abbrev pub is_taken : Reservation → Reservation → Bool
is_taken new old =
    new.hostname =ₛ old.hostname
    || same_codes new.mac old.mac
    || new.ipv4_address =ₛ old.ipv4_address

abbrev pub text_of : Value → Option String
text_of (Value.text s) = some s
text_of _ = none

module _ (addresses : Addresses) where
  unfoldable pub read_reservation : Value → Outcome Refusal Reservation
  read_reservation value = do
    fields ← as_mapping (died "must be a mapping") value
    validate_hostname (get "hostname" fields)
    validate_mac (get "mac" fields)
    validate_ip addresses (get "ipv4_address" fields)
    hostname ← as_text (get "hostname" fields)
    mac ← as_text (get "mac" fields)
    ipv4_address ← as_text (get "ipv4_address" fields)
    ok (record { hostname = hostname; mac = map lower (codes mac); ipv4_address = ipv4_address })

  -- The loop, with the reservations so far.
  unfoldable pub read_reservations :
      List Reservation → List Value → Outcome Refusal (List Reservation)
  unfolding read_reservation
  read_reservations seen [] = ok seen
  read_reservations seen (value ∷ rest) = read_reservation value >>= λ reservation.
      check (not (elem is_taken reservation seen)) (died "duplicates another reservation") >>= λ _.
      read_reservations (seen ++ reservation ∷ []) rest

  abbrev pub is_public : String → Bool
  is_public s = elim (addresses.is_global s) [ none ↦ false | some b ↦ b ]

  abbrev pub default_dns : Value
  default_dns = Value.sequence (
      Sequence.item (Value.text "1.1.1.1") (Sequence.item (Value.text "8.8.8.8") Sequence.no_items))

  -- Two values, each by its text if it is one.
  unfoldable pub resolver_pair : Option String → Option String → Outcome Refusal (String × String)
  resolver_pair (some s) (some t) =
      check (is_public s && is_public t && not (s =ₛ t))
        (died "bootstrap DNS requires two distinct public IPv4 resolvers")
      >>= λ _. ok (s, t)
  resolver_pair _ _ = raised (died "bootstrap DNS requires two distinct public IPv4 resolvers")

  unfoldable pub two_resolvers : List Value → Outcome Refusal (String × String)
  unfolding resolver_pair
  two_resolvers (v ∷ w ∷ []) = resolver_pair (text_of v) (text_of w)
  two_resolvers _ = raised (died "bootstrap DNS requires two distinct public IPv4 resolvers")

  unfoldable pub bootstrap_dns : Mapping → Outcome Refusal (String × String)
  unfolding two_resolvers
  bootstrap_dns config =
      as_list (died "bootstrap DNS requires two distinct public IPv4 resolvers")
        (get_or "bootstrap_dns" default_dns config)
      >>= two_resolvers

unfoldable pub guest_state : Value → Outcome Refusal RuntimeState
guest_state (Value.text s) =
    if s =ₛ "running"
    then ok RuntimeState.running
    else if s =ₛ "stopped"
    then ok RuntimeState.stopped
    else raised (died "runtime_state must be one of")
guest_state _ = raised (died "runtime_state must be one of")

unfoldable pub shared_guest : Mapping → String → Outcome Refusal RuntimeState
unfolding guest_state
shared_guest guests role = do
  guest ← as_mapping (died "must be a mapping") (or_else (get role guests) no_mapping)
  check (keys_within ("runtime_state" ∷ []) guest) (died "contains unsupported field(s)")
  guest_state (get_or "runtime_state" (Value.text "running") guest)

unfoldable pub read_shared_guests : Mapping → Outcome Refusal SharedGuests
unfolding shared_guest
read_shared_guests guests = do
  check (keys_within ("bak" ∷ "dmz" ∷ "iot" ∷ []) guests)
      (died "shared_guests contains unsupported role(s)")
  bak ← shared_guest guests "bak"
  dmz ← shared_guest guests "dmz"
  iot ← shared_guest guests "iot"
  ok (record { bak = bak; dmz = dmz; iot = iot })

module _ (addresses : Addresses) (topology : Topology) where
  unfoldable pub read_box : String → Value → Outcome Refusal BoxConfig
  unfolding bridge_ports read_reservations bootstrap_dns read_shared_guests
  read_box box value = do
    validate_box (Value.text box)
    config ← as_mapping (died "must be a mapping") (none_as_mapping value)
    check (keys_within box_config_fields config) (died "contains unsupported field(s)")
    bridges ←
        as_mapping (died "dom0_bridge_ports must be a mapping")
          (or_else (get "dom0_bridge_ports" config) no_mapping)
    ports ← bridge_ports topology (entries bridges) []
    listed ←
        as_list (died "dhcp_reservations must be a list")
          (or_else (get "dhcp_reservations" config) no_list)
    reservations ← read_reservations addresses [] listed
    guests ←
        as_mapping (died "shared_guests must be a mapping")
          (or_else (get "shared_guests" config) no_mapping)
    shared ← read_shared_guests guests
    dns ← bootstrap_dns addresses config
    access ← normalize_box_access (get "access" config)
    ok (record {
      bootstrap_dns = some dns;
      rg_lan = find "rg_lan" config;
      routing_profile = find "routing_profile" config;
      dom0_bridge_ports = ports;
      access = access;
      dhcp_reservations = reservations;
      shared_guests = shared;
      vpn_egress = find "vpn_egress" config;
    })

  unfoldable pub read_boxes : List (String × Value) → Outcome Refusal (List (String × BoxConfig))
  unfolding read_box
  read_boxes [] = ok []
  read_boxes ((box, value) ∷ rest) =
      let others = read_boxes rest in
      read_box box value >>= λ config. others >>= λ configs. ok ((box, config) ∷ configs)

  unfoldable pub registry_box_configs : Mapping → Outcome Refusal (List (String × BoxConfig))
  unfolding read_boxes
  registry_box_configs registry =
      as_mapping (died "boxes must be a mapping") (or_else (get "boxes" registry) no_mapping)
      >>= λ boxes. read_boxes (entries boxes)
