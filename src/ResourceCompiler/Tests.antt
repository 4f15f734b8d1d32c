-- ===== src/ResourceCompiler/Tests.antt =====
-- Two applications that claim one rule of the router, and one that claims a rule of a guest.
use klokast_box.Prelude.{◌⊎◌, false, String, ◌≡◌, refl, true, false, ◌&&◌, List, [], ◌∷◌, ◌++◌, All}
use klokast_box.Checks.{Outcome, ok, raised}
use klokast_box.ResourceModel.{Refusal}
use klokast_box.ResourceModel.Samples.{array}
use klokast_box.ResourceModel.{Value}
use klokast_box.ResourceModel.Ports.{read_ports, insert, sorted_set, validate_ports}
use klokast_box.ResourceModel.TextLists.{in_list, all_distinct}
use klokast_box.ResourceModel.Placement.{insert_text, sorted_texts}
use klokast_box.ResourceCompiler.Rules.{
  RouterRule, VmRule, Kind, Normalized, Digests, Claim, normalized_router_rule, normalized_vm_rule,
  nft_port_expr, render_router_resource_rule, render_vm_resource_rule, router_claim, vm_claim,
}
use klokast_box.ResourceCompiler.Ledger.{
  EffectiveFile, Ledger, add_claim, group_claims, insert_group, sort_groups, insert_claim,
  sort_claims, build_effective_resource_file, router_claims, vm_claims, effective_files_of,
  build_app_resource_ledger,
}
use klokast_box.ResourceCompiler.Ledger.Groups.{claims_for, Unique}
use klokast_box.ResourceCompiler.Ledger.Refines.{
  Filed, file_keys, build_app_resource_ledger_refines,
}
use klokast_box.ResourceCompiler.Ledger.Owners.{Accounts, build_effective_resource_file_sound}
use klokast_box.ResourceCompiler.Hosts.{
  Compiled, resource_host_for_node_role, resource_host_for_effective_file, add_host, add_hosts,
  file_hosts, role_hosts, cleanup_hosts, app_hosts, resource_hosts_for_scope,
  ansible_resource_hosts, podman_resource_hosts, build_app_resource_cleanup_scope,
}
use klokast_box.ResourceCompiler.Hosts.Reached.{IsReached, resource_hosts_for_scope_sound}
use klokast_box.ResourceCompiler.Hosts.Guests.{
  GuestRole, guest_host, runs_on, ansible_and_podman_hosts,
}

abbrev digests : Digests
digests = record { of_rule = λ n. "00112233445566778899aabbccddeeff"; of_text = λ s. s }

abbrev web_rule : String → RouterRule
web_rule app = record {
  app = app;
  resource = "web";
  node = "oslo";
  in_interface = "eth1";
  out_interface = "eth2";
  source = "10.0.0.0/24";
  destination = "";
  destination_exclusions = [];
  protocol = "";
  ports = array (Value.integer 443 ∷ Value.integer 80 ∷ []);
  exclusive = false;
  comment = "web";
}

abbrev dns_rule : VmRule
dns_rule = record {
  app = "home";
  resource = "dns";
  node = "oslo";
  target_role = "iot";
  interface = "";
  source = "10.0.0.9";
  destination = "10.0.0.2";
  protocol = "udp";
  ports = array (Value.integer 53 ∷ []);
  exclusive = true;
  comment = "dns";
}

abbrev router_rules : List RouterRule
router_rules = web_rule "wiki" ∷ web_rule "home" ∷ []

abbrev value_or : {A : Type 0} → A → Outcome Refusal A → A
value_or default (ok a) = a
value_or default (raised e) = default

abbrev some_ledger : Ledger
unfolding build_app_resource_ledger router_claims vm_claims router_claim vm_claim
    normalized_router_rule normalized_vm_rule render_router_resource_rule render_vm_resource_rule
    nft_port_expr validate_ports read_ports sorted_set insert group_claims add_claim sort_groups
    insert_group effective_files_of build_effective_resource_file sort_claims insert_claim
    sorted_texts insert_text
some_ledger =
    value_or (record { claims = []; effective_files = [] })
      (build_app_resource_ledger digests router_rules (dns_rule ∷ []))

ledger_is_built : build_app_resource_ledger digests router_rules (dns_rule ∷ []) ≡ ok some_ledger
unfolding some_ledger build_app_resource_ledger router_claims vm_claims router_claim vm_claim
    normalized_router_rule normalized_vm_rule render_router_resource_rule render_vm_resource_rule
    nft_port_expr validate_ports read_ports sorted_set insert group_claims add_claim sort_groups
    insert_group effective_files_of build_effective_resource_file sort_claims insert_claim
    sorted_texts insert_text
ledger_is_built = refl

build_app_resource_ledger_refines_example :
    (router : List Claim) × (vm : List Claim) × (router_claims digests router_rules ≡ ok router)
    × (vm_claims digests (dns_rule ∷ []) ≡ ok vm)
    × ((k : List String)
        → Filed digests k (claims_for k (router ++ vm)) some_ledger.effective_files)
    × Unique (file_keys some_ledger.effective_files)
build_app_resource_ledger_refines_example =
    build_app_resource_ledger_refines digests router_rules (dns_rule ∷ []) some_ledger
      ledger_is_built

abbrev no_claim : Claim
no_claim = record {
  kind = Kind.router_kind;
  key = "";
  app = "";
  resource = "";
  node = "";
  host_role = "";
  exclusive = false;
  claim_comment = "";
  rendered_identity = "";
  normalized = Normalized.router_forward (record {
    node = "";
    in_interface = "";
    out_interface = "";
    source = "";
    destination = "";
    protocol = "";
    ports = [];
    destination_exclusions = [];
  });
  content = "";
  content_sha256 = "";
}

abbrev web_claim : String → Claim
unfolding router_claim normalized_router_rule render_router_resource_rule nft_port_expr
    validate_ports read_ports sorted_set insert
web_claim app = value_or no_claim (router_claim digests (web_rule app))

abbrev no_file : EffectiveFile
no_file = record {
  kind = Kind.router_kind;
  key = "";
  filename = "";
  node = "";
  host_role = "";
  owners = [];
  resources = [];
  exclusive = false;
  rendered_identity = "";
  content = "";
  content_sha256 = "";
  claim_keys = [];
}

abbrev web_file : EffectiveFile
unfolding web_claim router_claim normalized_router_rule render_router_resource_rule nft_port_expr
    validate_ports read_ports sorted_set insert build_effective_resource_file sorted_texts
    insert_text
web_file =
    value_or no_file
      (build_effective_resource_file digests (web_claim "wiki" ∷ web_claim "home" ∷ []))

web_file_is_built :
    build_effective_resource_file digests (web_claim "wiki" ∷ web_claim "home" ∷ []) ≡ ok web_file
unfolding web_file web_claim router_claim normalized_router_rule render_router_resource_rule
    nft_port_expr validate_ports read_ports sorted_set insert build_effective_resource_file
    sorted_texts insert_text
web_file_is_built = refl

web_owners : web_file.owners ≡ "home" ∷ "wiki" ∷ []
unfolding web_file web_claim router_claim normalized_router_rule render_router_resource_rule
    nft_port_expr validate_ports read_ports sorted_set insert build_effective_resource_file
    sorted_texts insert_text
web_owners = refl

build_effective_resource_file_sound_example :
    Accounts (web_claim "wiki") (web_claim "home" ∷ []) web_file
build_effective_resource_file_sound_example =
    build_effective_resource_file_sound digests (web_claim "wiki") (web_claim "home" ∷ []) web_file
      web_file_is_built

abbrev compiled : Compiled
compiled = record {
  effective_files = some_ledger.effective_files;
  cleanup_scopes = build_app_resource_cleanup_scope "home" "oslo" ∷ [];
  apps = ("home", "oslo" ∷ []) ∷ [];
  app_vm_specs = record { app = "home"; inventory_hostname = "oslo-kari" } ∷ [];
  boxes = "oslo" ∷ [];
  box_configs = [];
}

abbrev some_hosts : List String
some_hosts = "oslo-router" ∷ "oslo-iot" ∷ "oslo-bak" ∷ "oslo-dmz" ∷ "oslo-kari" ∷ []

hosts_are_found : resource_hosts_for_scope compiled ("home" ∷ []) ≡ ok some_hosts
unfolding some_ledger build_app_resource_ledger router_claims vm_claims router_claim vm_claim
    normalized_router_rule normalized_vm_rule render_router_resource_rule render_vm_resource_rule
    nft_port_expr validate_ports read_ports sorted_set insert group_claims add_claim sort_groups
    insert_group effective_files_of build_effective_resource_file sort_claims insert_claim
    sorted_texts insert_text resource_hosts_for_scope file_hosts cleanup_hosts role_hosts app_hosts
    add_hosts add_host resource_host_for_effective_file resource_host_for_node_role
hosts_are_found = refl

resource_hosts_for_scope_sound_example :
    (all_distinct some_hosts ≡ true)
    × All (IsReached ("home" ∷ []) some_hosts) compiled.effective_files
resource_hosts_for_scope_sound_example =
    resource_hosts_for_scope_sound compiled ("home" ∷ []) some_hosts hosts_are_found

ansible_and_podman_hosts_example :
    (ansible : List String) × (podman : List String) × (ansible_resource_hosts compiled
        ("home" ∷ [])
      ≡ ok ansible)
    × (podman_resource_hosts compiled ("home" ∷ []) ≡ ok podman)
    × ((node : String) (role : GuestRole)
        → (in_list (guest_host node role) ansible ≡ false)
          × (in_list (guest_host node role) podman
              ≡ (in_list (guest_host node role) some_hosts && runs_on [] node role)))
    × ((h : String)
        → ((node : String) × (role : GuestRole) × (h ≡ guest_host node role))
          ⊎ ((in_list h ansible ≡ in_list h some_hosts) × (in_list h podman ≡ false)))
ansible_and_podman_hosts_example =
    ansible_and_podman_hosts compiled ("home" ∷ []) some_hosts hosts_are_found
