-- ===== src/ResourceModel/Manifest.antt =====
-- platform_resource_model.py `validate_manifest_resources`.
pub mod Ids
pub mod Sound
pub mod Accepted
use klokast_box.Prelude.{
  ℕ, String, Bool, true, false, not, ◌&&◌, ◌||◌, Option, none, some, List, [], ◌∷◌, ◌++◌, ◌==◌,
  ◌=ₛ◌, if◌then◌else◌, elem, all,
}
use klokast_box.Prelude.Text.{codes}
use klokast_box.Checks.{Outcome, ok, raised, ◌>>=◌, ◌>>◌, check, each}
use klokast_box.ResourceModel.{Value, Mapping, Sequence, Refusal, died, crashed}
use klokast_box.ResourceModel.Values.{
  get, has_key, key_list, entries, truthy, or_else, no_mapping, no_list, text_is, text_among,
  as_mapping, as_list, is_hashable, items, mappings_of, iterate,
}
use klokast_box.ResourceModel.Names.{
  validate_id, validate_app_id, validate_app_tailnet_tag, is_space,
}
use klokast_box.ResourceModel.Fields.{reject_tcb_control_fields}
use klokast_box.ResourceModel.Selectors.{validate_tailnet_port_selectors}
use klokast_box.ResourceModel.Access.{reject_unknown_fields, validate_resource_access}
use klokast_box.ResourceModel.Topology.{Topology, as_text}
use klokast_box.ResourceModel.Shapes.{
  read_type, check_ports, validate_compute_resource_shape, validate_network_resource_shape,
}
use klokast_box.ResourceModel.Offers.{
  if_present, validate_artifact_resource_shape, validate_tailnet_resource_shape,
}

-- Equality of two keys. A fraction equals no number of another type here.
abbrev pub same_key : Value → Value → Bool
same_key (Value.text s) (Value.text t) = s =ₛ t
same_key (Value.integer n) (Value.integer m) = n == m
same_key (Value.integer n) (Value.boolean true) = n == 1
same_key (Value.integer n) (Value.boolean false) = n == 0
same_key (Value.boolean true) (Value.integer n) = n == 1
same_key (Value.boolean false) (Value.integer n) = n == 0
same_key (Value.boolean true) (Value.boolean true) = true
same_key (Value.boolean false) (Value.boolean false) = true
same_key (Value.negative n) (Value.negative m) = n == m
same_key (Value.other_scalar s z) (Value.other_scalar t y) = s =ₛ t
same_key Value.empty Value.empty = true
same_key _ _ = false

-- The ids of a list's mappings, as members of a set.
unfoldable pub set_of_ids : List Mapping → Outcome Refusal (List Value)
set_of_ids [] = ok []
set_of_ids (resource ∷ rest) =
    let others = set_of_ids rest in
    check (is_hashable (get "id" resource)) (crashed "TypeError") >>= λ _.
    others >>= λ ids. ok (get "id" resource ∷ ids)

abbrev pub listed_mappings : Value → List Mapping
listed_mappings (Value.sequence s) = mappings_of (items s)
listed_mappings _ = []

abbrev pub section_mappings : List (String × Value) → List Mapping
section_mappings [] = []
section_mappings ((name, section) ∷ rest) = listed_mappings section ++ section_mappings rest

-- The resources of all sections, where `resources` is a mapping.
abbrev pub declared_resources : Value → List Mapping
declared_resources (Value.mapping m) = section_mappings (entries m)
declared_resources _ = []

pub data FeatureType : Type 0 where
  boolean_feature enum_feature : FeatureType

unfoldable pub feature_type : Value → Outcome Refusal FeatureType
feature_type (Value.text s) =
    if s =ₛ "boolean"
    then ok FeatureType.boolean_feature
    else if s =ₛ "enum"
    then ok FeatureType.enum_feature
    else raised (died "type must be one of")
feature_type value =
    check (is_hashable value) (crashed "TypeError") >>= λ _. raised (died "type must be one of")

-- The values that an enum may have.
unfoldable pub enum_values : Value → Outcome Refusal (List Value)
enum_values value = do
  values ← as_list (died "values must be a non-empty list") value
  check (truthy value) (died "values must be a non-empty list")
  ok values

unfoldable pub allowed_values : FeatureType → Value → Outcome Refusal (List Value)
unfolding enum_values
allowed_values FeatureType.boolean_feature values = ok (Value.text "true" ∷ [])
allowed_values FeatureType.enum_feature values = enum_values values

unfoldable pub check_reference : List Value → Value → Outcome Refusal (Unit {0})
check_reference ids resource_id = do
  check (is_hashable resource_id) (crashed "TypeError")
  check (elem same_key resource_id ids) (died "resource_bindings references unknown resource")

unfoldable pub check_binding : List Value → (String × Value) → Outcome Refusal (Unit {0})
unfolding check_reference
check_binding ids (name, resource_ids) = do
  listed ← as_list (died "resource_bindings must be a non-empty list") resource_ids
  check (truthy resource_ids) (died "resource_bindings must be a non-empty list")
  each (check_reference ids) listed

unfoldable pub check_feature : List Value → List String → Value → Outcome Refusal String
unfolding feature_type allowed_values check_binding
check_feature ids seen value = do
  reject_unknown_fields ("id" ∷ "type" ∷ "values" ∷ "resource_bindings" ∷ []) value
  feature ← as_mapping (died "must be a mapping") value
  validate_id (get "id" feature)
  id ← as_text (get "id" feature)
  check (not (elem ◌=ₛ◌ id seen)) (died "features contains duplicate id")
  type ← feature_type (get "type" feature)
  allowed ← allowed_values type (or_else (get "values" feature) no_list)
  bindings ←
      as_mapping (died "resource_bindings must be a mapping")
        (or_else (get "resource_bindings" feature) no_mapping)
  -- The set of the values.
  check (all is_hashable allowed) (crashed "TypeError")
  check (all (λ key. elem same_key (Value.text key) allowed) (key_list bindings))
      (died "resource_bindings contains unsupported value(s)")
  each (check_binding ids) (entries bindings)
  ok id

-- The loop over features or datasets, with the ids so far.
unfoldable pub each_with_ids :
    (List String → Value → Outcome Refusal String)
    → List String
    → List Value
    → Outcome Refusal (Unit {0})
each_with_ids f seen [] = ok tt
each_with_ids f seen (value ∷ rest) = f seen value >>= λ id. each_with_ids f (id ∷ seen) rest

abbrev pub is_blank : Value → Bool
is_blank (Value.text s) = all is_space (codes s)
is_blank _ = true

unfoldable pub check_dataset : List String → Value → Outcome Refusal String
check_dataset seen value = do
  reject_unknown_fields ("id" ∷ "type" ∷ "rationale" ∷ []) value
  dataset ← as_mapping (died "must be a mapping") value
  reject_tcb_control_fields value
  validate_id (get "id" dataset)
  id ← as_text (get "id" dataset)
  check (not (elem ◌=ₛ◌ id seen)) (died "datasets contains duplicate id")
  check (is_hashable (get "type" dataset)) (crashed "TypeError")
  check (text_is "durable_user_data" (get "type" dataset)) (died "type must be one of")
  check (not (is_blank (get "rationale" dataset))) (died "rationale must be a non-empty string")
  ok id

-- A section's loop: each resource is a mapping of the section's shape.
unfoldable pub check_resources :
    (Mapping → Outcome Refusal (Unit {0})) → List Value → Outcome Refusal (List Mapping)
check_resources shape [] = ok []
check_resources shape (value ∷ rest) =
    let others = check_resources shape rest in
    as_mapping (died "resources must be mappings") value >>= λ resource.
    shape resource >>= λ _. others >>= λ resources. ok (resource ∷ resources)

unfoldable pub check_section :
    String → (Mapping → Outcome Refusal (Unit {0})) → Mapping → Outcome Refusal (List Mapping)
unfolding check_resources
check_section name shape resources =
    as_list (died "the section must be a list") (or_else (get name resources) no_list) >>= λ values.
    check_resources shape values

abbrev pub any_mapping : (Mapping → Bool) → List Mapping → Bool
any_mapping p [] = false
any_mapping p (m ∷ ms) = p m || any_mapping p ms

abbrev pub is_usr_vm : Mapping → Bool
is_usr_vm m =
    text_among ("per_user_app_vm" ∷ "app_vm" ∷ []) (get "type" m) && text_is "usr" (get "zone" m)

abbrev pub is_shared_usr : Mapping → Bool
is_shared_usr m =
    text_is "usr" (get "zone" m)
    && text_among ("podman_workload" ∷ "host_service" ∷ "ephemeral_privileged_builder" ∷ [])
        (get "type" m)

abbrev pub device_network_types : List String
device_network_types = "zone_to_device_tcp" ∷ "device_to_zone_tcp" ∷ "device_wan_egress" ∷ []

abbrev pub is_managed : Value → Mapping → Bool
is_managed id m = text_is "managed_iot_device" (get "type" m) && same_key id (get "id" m)

-- A network resource of a device names a managed device of the manifest.
unfoldable pub check_device : List Mapping → Mapping → Outcome Refusal (Unit {0})
check_device compute resource =
    if text_among device_network_types (get "type" resource)
    then check (any_mapping (is_managed (get "device" resource)) compute)
        (died "device must reference a managed_iot_device compute resource")
    else ok tt

unfoldable pub check_all_resources : String → Topology → Mapping → Outcome Refusal (Unit {0})
unfolding check_section check_device
check_all_resources app_name topology resources = do
  compute ← check_section "compute" (validate_compute_resource_shape app_name topology) resources
  check (any_mapping is_usr_vm compute || not (any_mapping is_shared_usr compute))
      (died "cannot use the retired shared usr VM; declare a dedicated VM")
  network ← check_section "network" (validate_network_resource_shape app_name topology) resources
  each (check_device compute) network
  tailnet ← check_section "tailnet" validate_tailnet_resource_shape resources
  artifacts ← check_section "artifacts" validate_artifact_resource_shape resources
  ok tt

abbrev pub manifest_top_level_fields : List String
manifest_top_level_fields =
    "schema_version" ∷ "app" ∷ "risk_class" ∷ "default_isolation" ∷ "placement_mode" ∷ "datasets"
    ∷ "features" ∷ "resources" ∷ "_manifest_path" ∷ []

abbrev pub resource_section_fields : List String
resource_section_fields = "compute" ∷ "network" ∷ "tailnet" ∷ "artifacts" ∷ []

unfoldable pub validate_manifest_resources :
    String → Mapping → Topology → Outcome Refusal (Unit {0})
unfolding set_of_ids each_with_ids check_feature check_dataset check_all_resources
validate_manifest_resources app_name manifest topology = do
  validate_app_id (Value.text app_name)
  if_present "app" validate_app_id manifest
  reject_unknown_fields manifest_top_level_fields (Value.mapping manifest)
  features ← as_list (died "features must be a list") (or_else (get "features" manifest) no_list)
  ids ← set_of_ids (declared_resources (or_else (get "resources" manifest) no_mapping))
  each_with_ids (check_feature ids) [] features
  datasets ← as_list (died "datasets must be a list") (or_else (get "datasets" manifest) no_list)
  each_with_ids check_dataset [] datasets
  resources ←
      as_mapping (died "resources must be a mapping")
        (or_else (get "resources" manifest) no_mapping)
  reject_tcb_control_fields (Value.mapping resources)
  reject_unknown_fields resource_section_fields (Value.mapping resources)
  check_all_resources app_name topology resources
