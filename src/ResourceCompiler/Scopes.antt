-- ===== src/ResourceCompiler/Scopes.antt =====
-- platform_resource_compiler.py: the machines and boxes of a scope, and the addresses that routers
-- give out.
use klokast_box.Prelude.{ℕ, String, List, [], ◌∷◌, ◌++◌, if◌then◌else◌, map}
use klokast_box.Prelude.Text.{codes}
use klokast_box.Checks.{Outcome, ok, raised, ◌>>=◌, ◌>>◌, check, or_raise}
use klokast_box.ResourceModel.{Value, Refusal, died}
use klokast_box.ResourceModel.TextLists.{in_list}
use klokast_box.ResourceModel.Names.{validate_box, ends_with}
use klokast_box.ResourceModel.Topology.{lookup, is_some}
use klokast_box.ResourceModel.Placement.{sorted_texts, has_some}
use klokast_box.ResourceModel.Boxes.{BoxConfig, Reservation}
use klokast_box.ResourceCompiler.Rules.{joined}
use klokast_box.ResourceCompiler.Ledger.{text_ltb}
use klokast_box.ResourceCompiler.Hosts.{
  AppVmSpec, Compiled, add_host, host_name, hosts_where, is_in_scope, resource_hosts_for_scope,
}

abbrev pub specs_where : List String → List AppVmSpec → List AppVmSpec
specs_where scope [] = []
specs_where scope (spec ∷ rest) =
    let others = specs_where scope rest in
    if is_in_scope scope (spec.app ∷ []) then spec ∷ others else others

unfoldable pub app_vm_specs_for_scope : Compiled → List String → List AppVmSpec
app_vm_specs_for_scope compiled scope = specs_where scope compiled.app_vm_specs

-- `f'{box}-bak'` for each box, and so on.
unfoldable pub limit_for_app_vms : List String → List AppVmSpec → String
limit_for_app_vms boxes specs = joined "," (
    map (λ box. host_name box "bak") boxes
    ++ (map (λ box. host_name box "dom0") boxes ++ map (λ s. s.inventory_hostname) specs))

abbrev pub config_names : List (String × BoxConfig) → List String
config_names [] = []
config_names ((box, config) ∷ rest) = box ∷ config_names rest

unfoldable pub app_boxes : List (String × List String) → List String → Outcome Refusal (List String)
app_boxes apps [] = ok []
app_boxes apps (app_name ∷ rest) =
    let others = app_boxes apps rest in
    or_raise (lookup app_name apps) (died "compiled resources do not include app") >>= λ boxes.
    others >>= λ more. ok (boxes ++ more)

unfoldable pub boxes_for_scope : Compiled → List String → Outcome Refusal (List String)
unfolding app_boxes
boxes_for_scope compiled scope =
    if has_some scope
    then (app_boxes compiled.apps (sorted_texts scope) >>= λ boxes. ok (sorted_texts boxes))
    else ok (sorted_texts (compiled.boxes ++ config_names compiled.box_configs))

-- The boxes that are asked for, each once.
unfoldable pub select_boxes :
    List String → List String → List String → Outcome Refusal (List String)
unfolding add_host
select_boxes available selected [] = ok selected
select_boxes available selected (box ∷ rest) = validate_box (Value.text box) >>= λ _.
    check (in_list box available) (died "registry has no boxes configuration") >>= λ _.
    select_boxes available (add_host selected box) rest

unfoldable pub selected_shared_guest_boxes : Compiled → List String → Outcome Refusal (List String)
unfolding select_boxes
selected_shared_guest_boxes compiled requested =
    let available = sorted_texts (config_names compiled.box_configs) in
    if has_some requested then select_boxes available [] requested else ok available

unfoldable pub selected_box_access_box : Compiled → List String → Outcome Refusal String
selected_box_access_box compiled (box ∷ []) = do
  validate_box (Value.text box)
  check (is_some (lookup box compiled.box_configs)) (died "registry has no boxes configuration")
  ok box
selected_box_access_box compiled _ = raised (died "box access operations require exactly one --box")

unfoldable pub router_resource_hosts : Compiled → List String → Outcome Refusal (List String)
unfolding resource_hosts_for_scope
router_resource_hosts compiled scope = resource_hosts_for_scope compiled scope >>= λ hosts.
    ok (hosts_where (λ host. ends_with (codes "-router") (codes host)) hosts)

-- A device of an application, and an address that a router gives out.
pub record ManagedDevice : Type 0 where
  pub node : String
  pub hostname : String
  pub mac : List ℕ
  pub ipv4_address : String
  pub app : String
  pub resource : String

pub record DhcpHost : Type 0 where
  pub node : String
  pub name : String
  pub mac : List ℕ
  pub address : String
  pub app : String
  pub resource : String

abbrev pub device_host : ManagedDevice → DhcpHost
device_host d = record {
  node = d.node;
  name = d.hostname;
  mac = d.mac;
  address = d.ipv4_address;
  app = d.app;
  resource = d.resource;
}

abbrev pub reserved_host : String → Reservation → DhcpHost
reserved_host node r = record {
  node = node;
  name = r.hostname;
  mac = r.mac;
  address = r.ipv4_address;
  app = "";
  resource = "box-dhcp-reservation";
}

abbrev pub insert_config :
    String × BoxConfig → List (String × BoxConfig) → List (String × BoxConfig)
insert_config entry [] = entry ∷ []
insert_config entry (other ∷ rest) =
    let later = insert_config entry rest in
    if text_ltb other.0 entry.0 then other ∷ later else entry ∷ other ∷ rest

-- `sorted(box_configs.items())`
abbrev pub sort_configs : List (String × BoxConfig) → List (String × BoxConfig)
sort_configs [] = []
sort_configs (entry ∷ rest) = insert_config entry (sort_configs rest)

abbrev pub reserved_hosts : List (String × BoxConfig) → List DhcpHost
reserved_hosts [] = []
reserved_hosts ((node, config) ∷ rest) =
    map (reserved_host node) config.dhcp_reservations ++ reserved_hosts rest

unfoldable pub router_managed_dhcp_hosts :
    List ManagedDevice → List (String × BoxConfig) → List DhcpHost
router_managed_dhcp_hosts devices box_configs =
    map device_host devices ++ reserved_hosts (sort_configs box_configs)
