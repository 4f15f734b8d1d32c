-- ===== src/ResourceModel/Users.antt =====
-- platform_resource_model.py `selected_users`, `user_fields_referenced_by_network`,
-- `validate_privileged_runtime`.
pub mod Kept
pub mod Sound
pub mod Approval
use klokast_box.Prelude.{
  ℕ, String, Bool, true, false, not, ◌&&◌, ◌||◌, Option, none, some, List, [], ◌∷◌, ◌++◌, ◌==◌,
  ◌=ₛ◌, leb, if◌then◌else◌, elem, all,
}
use klokast_box.Prelude.Text.{codes}
use klokast_box.Checks.{Outcome, ok, raised, ◌>>=◌, ◌>>◌, check, or_raise}
use klokast_box.ResourceModel.{Value, Mapping, Sequence, Refusal, died, crashed}
use klokast_box.ResourceModel.Values.{
  find, get, get_or, has_entries, truthy, or_else, no_mapping, no_list, text_is, text_among,
  as_mapping, as_list, iterate, is_hashable,
}
use klokast_box.ResourceModel.Names.{
  Addresses, validate_id, validate_slug, validate_login, validate_system_user, validate_user_field,
  validate_ip_in_cidr,
}
use klokast_box.ResourceModel.Ports.{Port, port_number, validate_ports}
use klokast_box.ResourceModel.Access.{default_box_access}
use klokast_box.ResourceModel.Topology.{Topology, lookup, as_text}
use klokast_box.ResourceModel.Placement.{per_user_app_vm_resources, section_of, has_some}
use klokast_box.ResourceModel.Selection.{selected_network_resources}

unfoldable pub referenced_fields : List Mapping → Outcome Refusal (List String)
referenced_fields [] = ok []
referenced_fields (resource ∷ rest) =
    let others = referenced_fields rest in
    let field = get "ports_from_user" resource in
    if truthy field
    then (validate_user_field field >>= λ _.
        as_text field >>= λ name. others >>= λ names. ok (name ∷ names))
    else others

unfoldable pub user_fields_referenced_by_network : Mapping → Mapping → Outcome Refusal (List String)
unfolding referenced_fields selected_network_resources
user_fields_referenced_by_network manifest registration =
    selected_network_resources manifest registration default_box_access >>= referenced_fields

pub record User : Type 0 where
  pub slug : String
  pub tailscale_login : String
  pub system_user : String
  pub vm_ipv4_address : String
  pub storage_port : Option Port

abbrev pub same_port : Option Port → Option Port → Bool
same_port (some p) (some q) = port_number p == port_number q
same_port _ _ = false

abbrev pub same_slug : User → User → Bool
same_slug u v = u.slug =ₛ v.slug

abbrev pub same_login : User → User → Bool
same_login u v = u.tailscale_login =ₛ v.tailscale_login

abbrev pub same_account : User → User → Bool
same_account u v = u.system_user =ₛ v.system_user

abbrev pub same_ip : User → User → Bool
same_ip u v = u.vm_ipv4_address =ₛ v.vm_ipv4_address

abbrev pub same_storage : User → User → Bool
same_storage u v = same_port u.storage_port v.storage_port

abbrev pub first_port : List Port → Outcome Refusal Port
first_port [] = raised (crashed "IndexError")
first_port (n ∷ ns) = ok n

abbrev pub is_empty : Value → Bool
is_empty Value.empty = true
is_empty _ = false

unfoldable pub read_port_of : Bool → Value → Outcome Refusal (Option Port)
read_port_of required value =
    if required || not (is_empty value)
    then (validate_ports (Value.sequence (Sequence.item value Sequence.no_items)) >>= λ ports.
        first_port ports >>= λ n. ok (some n))
    else ok none

module _ (addresses : Addresses) where
  -- `str(ip_address(zone[key]))`
  unfoldable pub zone_address : String → Mapping → Outcome Refusal String
  zone_address key zone = do
    value ← or_raise (find key zone) (crashed "KeyError")
    s ← as_text value
    check (addresses.is_address s) (crashed "ValueError")
    ok (addresses.canonical s)

  unfoldable pub reserved_ips : Mapping → Outcome Refusal (List Value)
  unfolding zone_address
  reserved_ips zone = do
    router ← zone_address "router_ipv4_address" zone
    vm ← zone_address "vm_ipv4_address" zone
    more ← iterate (get_or "reserved_ipv4_addresses" no_list zone)
    check (all is_hashable more) (crashed "TypeError")
    ok (Value.text router ∷ Value.text vm ∷ more)

  abbrev pub is_reserved : String → List Value → Bool
  is_reserved ip [] = false
  is_reserved ip (v ∷ vs) = text_is ip v || is_reserved ip vs

  unfoldable pub read_user : Mapping → Bool → Value → Outcome Refusal User
  unfolding read_port_of
  read_user zone port_required value = do
    user ← as_mapping (died "must be a mapping") value
    let account = or_else (get "system_user" user) (get "slug" user)
    validate_slug (get "slug" user)
    validate_login (get "tailscale_login" user)
    validate_system_user account
    cidr ← or_raise (find "cidr" zone) (crashed "KeyError")
    validate_ip_in_cidr addresses (get "vm_ipv4_address" user) cidr
    port ← read_port_of port_required (get "storage_port" user)
    slug ← as_text (get "slug" user)
    login ← as_text (get "tailscale_login" user)
    system_user ← as_text account
    ip ← as_text (get "vm_ipv4_address" user)
    ok (record {
      slug = slug;
      tailscale_login = login;
      system_user = system_user;
      vm_ipv4_address = ip;
      storage_port = port;
    })

  -- No user has what another has, nor a reserved address.
  unfoldable pub check_new : List Value → List User → User → Outcome Refusal (Unit {0})
  check_new reserved seen user = do
    check (not (elem same_slug user seen)) (died "users duplicate slug")
    check (not (elem same_login user seen)) (died "users duplicate tailscale_login")
    check (not (elem same_account user seen)) (died "users duplicate system_user")
    check (not (is_reserved user.vm_ipv4_address reserved)) (died "vm_ipv4_address is reserved")
    check (not (elem same_ip user seen)) (died "users duplicate vm_ipv4_address")
    check (not (elem same_storage user seen)) (died "users duplicate storage_port")

  -- The loop, with the users so far.
  unfoldable pub read_users :
      Mapping → Bool → List Value → List User → List Value → Outcome Refusal (List User)
  unfolding read_user check_new
  read_users zone port_required reserved seen [] = ok seen
  read_users zone port_required reserved seen (value ∷ rest) =
      read_user zone port_required value >>= λ user. check_new reserved seen user >>= λ _.
      read_users zone port_required reserved (seen ++ user ∷ []) rest

  unfoldable pub select_users : Mapping → Mapping → Topology → Outcome Refusal (List User)
  unfolding reserved_ips read_users user_fields_referenced_by_network
  select_users manifest registration topology = do
    users ← as_list (died "users must be a non-empty list") (get "users" registration)
    check (has_some users) (died "users must be a non-empty list")
    zone ←
        or_raise (lookup "usr" topology.zones)
          (died "platform_zones.usr is required for per-user app VMs")
    check (has_entries zone) (died "platform_zones.usr is required for per-user app VMs")
    reserved ← reserved_ips zone
    fields ← user_fields_referenced_by_network manifest registration
    read_users zone (elem ◌=ₛ◌ "storage_port" fields) reserved [] users

  unfoldable pub selected_users : Mapping → Mapping → Topology → Outcome Refusal (List User)
  unfolding select_users per_user_app_vm_resources
  selected_users manifest registration topology =
      if truthy (get "enabled" registration)
      then (per_user_app_vm_resources manifest >>= λ vms.
          if has_some vms then select_users manifest registration topology else ok [])
      else ok []

-- Whether a compute resource is privileged.
abbrev pub is_privileged : Mapping → Bool
is_privileged resource =
    text_among ("privileged" ∷ "privileged_rootful_podman" ∷ []) (get "privilege" resource)
    || text_is "ephemeral_privileged_builder" (get "type" resource)

unfoldable pub any_privileged : List Value → Outcome Refusal Bool
any_privileged [] = ok false
any_privileged (value ∷ rest) =
    let others = any_privileged rest in
    as_mapping (died "compute resources must be mappings") value >>= λ resource.
    validate_id (get "id" resource) >>= λ _. others >>= λ more. ok (is_privileged resource || more)

-- `text.replace('Z', '+00:00')`
abbrev pub with_offset : List ℕ → List ℕ
with_offset [] = []
with_offset (c ∷ s) =
    let rest = with_offset s in if c == b'Z' then codes "+00:00" ++ rest else c ∷ rest

-- `datetime`: the moment that a text names, none in it where it names no time zone; and now.
pub record Times : Type 0 where
  pub from_text : List ℕ → Option (Option ℕ)
  pub now : ℕ

module _ (times : Times) where
  unfoldable pub check_expiry : Value → Outcome Refusal (Unit {0})
  check_expiry (Value.text s) = do
    check (not (s =ₛ "")) (died "privileged resources require expires_at")
    moment ←
        or_raise (times.from_text (with_offset (codes s))) (died "expires_at must be ISO-8601 UTC")
    expires ← or_raise moment (died "expires_at must include timezone")
    check (not (leb expires times.now)) (died "privileged resource approval expired")
  check_expiry _ = raised (died "privileged resources require expires_at")

  unfoldable pub check_approval : Mapping → Outcome Refusal (Unit {0})
  unfolding check_expiry
  check_approval registration = do
    controls ←
        as_mapping (died "ephemeral/controls must be a mapping") (
          or_else (or_else (get "ephemeral" registration) (get "controls" registration)) no_mapping)
    check (truthy (get "privileged_approval" controls))
        (died "enables privileged resources without privileged_approval")
    check_expiry (get "expires_at" controls)

  unfoldable pub validate_privileged_runtime : Mapping → Mapping → Outcome Refusal (Unit {0})
  unfolding any_privileged check_approval section_of
  validate_privileged_runtime manifest registration =
      if truthy (get "enabled" registration)
      then (do
        compute ← section_of "compute" manifest
        values ← as_list (died "resources.compute must be a list") compute
        privileged ← any_privileged values
        if privileged then check_approval registration else ok tt)
      else ok tt
