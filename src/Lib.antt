-- ===== src/Lib.antt =====
-- Verification of the Klokast platform's transactions (klokast/klokast-box).
--
-- The platform replaces running guests (a router, shared service guests) on small Xen hosts, from
-- Python programs that must keep one writer for each disk through crashes, lost answers and
-- expired budgets; what runs on them is declared in manifests that a compiler validates. This
-- library models those programs and proves what they promise.
--
-- RouterTransaction: ansible/lib/router_transaction.py, whole. `validate`, `validate_pending`,
-- `Transaction.checkpoint`, `action`, `cutover` and `recover` are the definitions of the same
-- names. An object is its pending record and the history of its adapter's calls; the adapter
-- (router_dom0.py in production) is a parameter, which answers each call, or raises, as it likes
-- from the history before it, and so does its clock. An exception is a value, and the state that
-- was reached stays. A request and a pending record are records with typed fields, so the tests of
-- their shape are the types' part.
--
-- VmUpdate: ansible/roles/vm-update-recovery/files/vm_update_engine.py, the part of the class
-- `Transaction` that replaces a guest's disks: `disks`, `guest`, `artifacts` (Inspection, Guest),
-- `record`, `runtime_intent`, `assignment` (Journal), the stages of `step` (Steps), `recover` and
-- the head of `step` (Recovery), and `controller_lost`, with the stages and roles of
-- vm_update_native.py beside it. A transaction is its journal and the history of what it looked at
-- and did. The host (Xen, LVM, the files of the operation, the clock) is a parameter, which answers
-- each look and each effect from the history before it; an effect that it refuses raises, and a
-- refused write leaves the journal as it was. (`atomic` of vm_update_native.py can also raise after
-- it replaced the file, when the directory is not synced; such a write is not modelled, and
-- neither is what a later invocation would find of it.) One `guest` reads one snapshot of the
-- host, a request is one that `__init__` accepted, with typed fields, times are natural numbers,
-- and the digest of a canonical text is a parameter. History has what is promised of every
-- history, Order the rule of each action, Safety, Commitment and Refusals the theorems about
-- `step` and sequences of it, and Inspection.Recorded and Guest.Exclusive those about `guest`.
-- Of the engine, `__init__`, `arm`, `adopt_old`, `invoke` with its alarm and lock, the watchdog, the
-- content of an assignment and the reports are not modelled.
--
-- ResourceModel: ansible/lib/platform_resource_model.py, over values as YAML gives them. Each
-- function is the definition of the same name, with its loops and its parts beside it:
--   Names      the regular expressions of names, `validate_id` to `validate_system_user`,
--              `validate_box`, `validate_ip`, `validate_ip_in_cidr`
--   Ports, Selectors  `validate_ports`, `validate_tailnet_port_selectors`
--   Fields     `reject_raw_network_fields`, `reject_tcb_control_fields`
--   Access     the capabilities of boxes and resources, `normalize_box_access`,
--              `resource_access_allowed`
--   Topology   `load_topology` from the variables on, `resolve_zone`, `resolve_realm`
--   Shapes     the shapes of compute and network resources
--   Offers     the shapes of tailnet resources and artifacts
--   Manifest   `validate_manifest_resources`
--   Placement  `entry_placement`, `selected_boxes`, `app_runtime_state`
--   Boxes      `registry_box_configs`, `bootstrap_dns`
--   Selection  `resource_enabled`, the selections of resources, their capabilities on boxes,
--              `validate_shared_guest_app_compatibility`
--   Users      `selected_users`, `validate_privileged_runtime`
-- Values has what the code does with values of YAML: lookups, truth, `or`, loops. A `True` is an
-- integer in Python, and it stays one of its own among the ports. `die` raises a
-- message by its fixed part, and an exception of Python raises by its class; nothing is read or
-- written after one. The keys of a mapping are texts, each at most once, and a fraction equals no
-- number of another type. A value that was checked to be a text or a mapping is one in the types.
-- The package `ipaddress` is the parameter `Addresses`, and `datetime` the parameter `Times`, with
-- moments as natural numbers. A set that only answers membership is a list. Loops are over finite
-- values, so no fuel is used. The other files there prove: Normal and RoundTrip of Access, Guests of
-- Selection, Kept and Approval of Users, Ids and Accepted of Manifest, Order of Placement, and Sound
-- of the module it stands under.
-- Of this file, `load_yaml`, `sha256_file` and `app_manifest` are input and output, and
-- `resource_comment` and `render_tailnet_resource_value` only make texts; they are not modelled.
--
-- ResourceCompiler: ansible/lib/platform_resource_compiler.py, of which Rules has the normal forms
-- and the texts of rules and `build_resource_claim` (as `router_claim` and `vm_claim`), Ledger
-- `build_effective_resource_file` and `build_app_resource_ledger`, and Hosts and Scopes the functions
-- from `resource_host_for_node_role` to `router_managed_dhcp_hosts`, but `box_access_router_vars`. Rules
-- and plans are records of what these functions read, an empty text is a field that is not there,
-- the digests of `hashlib` are the parameter `Digests`, a dictionary of groups is a list in the
-- order of its keys' first use, and an approved commit is left out. Groups, Owners, Refines,
-- Reached and Guests prove. `compile_registry` and what it calls before the ledger are not modelled.
--
-- Checks: chains of checks that raise and change nothing.
-- Effects: Python methods that change an object and may raise, and triples about them.
-- Prelude: names of the libraries, Boolean tests, lists, and the character classes of the
-- program's regular expressions over the code points of a text.
--
-- Not modelled: process calls, ssh, the file system, LVM and Xen themselves, YAML and JSON parsing.
mod Prelude
mod Effects
mod Checks
pub mod RouterTransaction
pub mod VmUpdate
pub mod ResourceModel
pub mod ResourceCompiler
