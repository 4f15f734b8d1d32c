-- ===== src/ResourceCompiler/Hosts.antt =====
-- platform_resource_compiler.py: the hosts that a compiled plan is for, in the scope of some
-- applications.
pub mod Guests
pub mod Reached
use Prim.Native.String.{◌++◌ as ◌+++◌}
use Prim.Native.Char.{code}
use klokast_box.Prelude.{
  ℕ, String, Bool, true, false, not, ◌&&◌, ◌||◌, Option, none, some, List, [], ◌∷◌, ◌++◌, ◌==◌,
  ◌=ₛ◌, if◌then◌else◌, map, elem,
}
use klokast_box.Prelude.Text.{codes}
use klokast_box.Checks.{Outcome, ok, raised, ◌>>=◌, ◌>>◌, check, or_raise, each}
use klokast_box.ResourceModel.{Value, Refusal, died}
use klokast_box.ResourceModel.TextLists.{in_list}
use klokast_box.ResourceModel.Names.{validate_box, ends_with}
use klokast_box.ResourceModel.Topology.{lookup, is_some}
use klokast_box.ResourceModel.Placement.{sorted_texts, has_some, RuntimeState, running, stopped}
use klokast_box.ResourceModel.Boxes.{BoxConfig, Reservation, SharedGuests, box_config_for}
use klokast_box.ResourceCompiler.Rules.{Kind, router_kind, vm_kind, joined}
use klokast_box.ResourceCompiler.Ledger.{EffectiveFile, text_ltb}

-- `build_app_resource_cleanup_scope`
pub record CleanupScope : Type 0 where
  pub app : String
  pub node : String
  pub host_roles : List String

abbrev pub build_app_resource_cleanup_scope : String → String → CleanupScope
build_app_resource_cleanup_scope app_name node = record {
  app = app_name;
  node = node;
  host_roles = "router" ∷ "backend" ∷ "dmz" ∷ "iot" ∷ [];
}

pub record AppVmSpec : Type 0 where
  pub app : String
  pub inventory_hostname : String

-- What these functions read of a compiled plan; an application has the boxes that it is on.
pub record Compiled : Type 0 where
  pub effective_files : List EffectiveFile
  pub cleanup_scopes : List CleanupScope
  pub apps : List (String × List String)
  pub app_vm_specs : List AppVmSpec
  pub boxes : List String
  pub box_configs : List (String × BoxConfig)

-- `ROLE_HOST_SUFFIXES`
abbrev pub role_host_suffixes : List (String × String)
role_host_suffixes =
    ("router", "router")
    ∷ ("backend", "bak")
    ∷ ("bak", "bak")
    ∷ ("dmz", "dmz")
    ∷ ("iot", "iot")
    ∷ []

abbrev pub host_name : String → String → String
host_name node suffix = node +++ ("-" +++ suffix)

unfoldable pub resource_host_for_node_role : String → String → Outcome Refusal String
resource_host_for_node_role node host_role =
    or_raise (lookup host_role role_host_suffixes) (died "unknown app-resource host_role")
    >>= λ suffix. ok (host_name node suffix)

abbrev pub host_role_of : EffectiveFile → String
host_role_of file = role_for file.kind file.host_role
  where
    role_for : Kind → String → String
    role_for Kind.router_kind host_role = "router"
    role_for Kind.vm_kind host_role = host_role

unfoldable pub resource_host_for_effective_file : EffectiveFile → Outcome Refusal String
unfolding resource_host_for_node_role
resource_host_for_effective_file file = resource_host_for_node_role file.node (host_role_of file)

-- The hosts that were seen are those of the list.
unfoldable pub add_host : List String → String → List String
add_host hosts host = if in_list host hosts then hosts else hosts ++ host ∷ []

unfoldable pub add_hosts : List String → List String → List String
unfolding add_host
add_hosts hosts [] = hosts
add_hosts hosts (host ∷ rest) = add_hosts (add_host hosts host) rest

-- `scope & set(owners)`
abbrev pub meets : List String → List String → Bool
meets scope [] = false
meets scope (owner ∷ rest) = in_list owner scope || meets scope rest

abbrev pub is_router_file : EffectiveFile → Bool
is_router_file file = is_router file.kind
  where
    is_router : Kind → Bool
    is_router Kind.router_kind = true
    is_router Kind.vm_kind = false

abbrev pub files_where : (EffectiveFile → Bool) → List EffectiveFile → List EffectiveFile
files_where p [] = []
files_where p (file ∷ rest) =
    let others = files_where p rest in if p file then file ∷ others else others

-- Without a scope everything is in it.
abbrev pub is_in_scope : List String → List String → Bool
is_in_scope scope owners = not (has_some scope) || meets scope owners

unfoldable pub file_hosts : List String → List EffectiveFile → Outcome Refusal (List String)
unfolding resource_host_for_effective_file
file_hosts scope [] = ok []
file_hosts scope (file ∷ rest) =
    let others = file_hosts scope rest in
    if is_in_scope scope file.owners
    then (resource_host_for_effective_file file >>= λ host. others >>= λ hosts. ok (host ∷ hosts))
    else others

unfoldable pub role_hosts : String → List String → Outcome Refusal (List String)
unfolding resource_host_for_node_role
role_hosts node [] = ok []
role_hosts node (host_role ∷ rest) =
    let others = role_hosts node rest in
    resource_host_for_node_role node host_role >>= λ host. others >>= λ hosts. ok (host ∷ hosts)

unfoldable pub cleanup_hosts : List String → List CleanupScope → Outcome Refusal (List String)
unfolding role_hosts
cleanup_hosts scope [] = ok []
cleanup_hosts scope (cleanup ∷ rest) =
    let others = cleanup_hosts scope rest in
    if is_in_scope scope (cleanup.app ∷ [])
    then (role_hosts cleanup.node cleanup.host_roles >>= λ hosts.
        others >>= λ more. ok (hosts ++ more))
    else others

abbrev pub box_hosts : List String → List String
box_hosts [] = []
box_hosts (box ∷ rest) =
    (host_name box "router" ∷ host_name box "bak" ∷ host_name box "dmz" ∷ host_name box "iot" ∷ [])
    ++ box_hosts rest

unfoldable pub app_hosts : List (String × List String) → List String → Outcome Refusal (List String)
app_hosts apps [] = ok []
app_hosts apps (app_name ∷ rest) =
    let others = app_hosts apps rest in
    or_raise (lookup app_name apps) (died "compiled resources do not include app") >>= λ boxes.
    others >>= λ hosts. ok (box_hosts boxes ++ hosts)

abbrev pub vm_hosts : List String → List AppVmSpec → List String
vm_hosts scope [] = []
vm_hosts scope (spec ∷ rest) =
    let others = vm_hosts scope rest in
    if is_in_scope scope (spec.app ∷ []) then spec.inventory_hostname ∷ others else others

-- The hosts are added one by one, and the first that has none ends the loop: what was added before
-- is lost with the exception.
unfoldable pub resource_hosts_for_scope : Compiled → List String → Outcome Refusal (List String)
unfolding file_hosts cleanup_hosts app_hosts add_hosts
resource_hosts_for_scope compiled scope = do
  let files =
      files_where is_router_file compiled.effective_files
      ++ files_where (λ f. not (is_router_file f)) compiled.effective_files
  of_files ← file_hosts scope files
  of_cleanups ← cleanup_hosts scope compiled.cleanup_scopes
  of_apps ← app_hosts compiled.apps (sorted_texts scope)
  ok (add_hosts [] (of_files ++ (of_cleanups ++ (of_apps ++ vm_hosts scope compiled.app_vm_specs))))

-- `host.rsplit('-', 1)`
abbrev pub split_last : String → Option (String × String)
split_last String.[] = none
split_last (String.◌∷◌ c s) = elim (split_last s) [
  | some parts ↦ some (String.◌∷◌ c parts.0, parts.1)
  | none ↦ if code c == b'-' then some ("", s) else none
]

unfoldable pub is_podman_resource_host : String → Bool
is_podman_resource_host host = elim (split_last host) [
  | none ↦ false
  | some parts ↦ in_list parts.1 ("bak" ∷ "dmz" ∷ "iot" ∷ [])
]

-- `PODMAN_NODE_ROLES`
abbrev pub podman_node_roles : List (String × String)
podman_node_roles = ("bak", "backend") ∷ ("dmz", "dmz") ∷ ("iot", "iot") ∷ []

unfoldable pub podman_host_node_role : String → Outcome Refusal (String × String)
podman_host_node_role host = do
  parts ← or_raise (split_last host) (died "invalid Podman resource host")
  role ← or_raise (lookup parts.1 podman_node_roles) (died "unsupported Podman resource host role")
  ok (parts.0, role)

abbrev pub is_running : RuntimeState → Bool
is_running running = true
is_running stopped = false

-- The state of a shared guest; a host of another suffix counts as running.
abbrev pub guest_runs : SharedGuests → String → Bool
guest_runs guests suffix =
    if suffix =ₛ "bak"
    then is_running guests.bak
    else if suffix =ₛ "dmz"
    then is_running guests.dmz
    else if suffix =ₛ "iot"
    then is_running guests.iot
    else true

unfoldable pub shared_guest_host_is_running : Compiled → String → Bool
shared_guest_host_is_running compiled host = elim (split_last host) [
  | none ↦ true
  | some parts ↦ guest_runs (box_config_for compiled.box_configs parts.0).shared_guests parts.1
]

abbrev pub hosts_where : (String → Bool) → List String → List String
hosts_where p [] = []
hosts_where p (host ∷ rest) =
    let others = hosts_where p rest in if p host then host ∷ others else others

unfoldable pub ansible_resource_hosts : Compiled → List String → Outcome Refusal (List String)
unfolding resource_hosts_for_scope is_podman_resource_host
ansible_resource_hosts compiled scope = resource_hosts_for_scope compiled scope >>= λ hosts.
    ok (hosts_where (λ host. not (is_podman_resource_host host)) hosts)

unfoldable pub podman_resource_hosts : Compiled → List String → Outcome Refusal (List String)
unfolding resource_hosts_for_scope is_podman_resource_host shared_guest_host_is_running
podman_resource_hosts compiled scope = resource_hosts_for_scope compiled scope >>= λ hosts. ok (
    hosts_where (λ host. is_podman_resource_host host && shared_guest_host_is_running compiled host)
      hosts)
