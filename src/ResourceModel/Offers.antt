-- ===== src/ResourceModel/Offers.antt =====
-- platform_resource_model.py: the shapes of tailnet resources and artifacts.
use klokast_box.Prelude.{
  String, Bool, false, ◌||◌, Option, none, some, List, [], ◌∷◌, ◌==◌, ◌=ₛ◌, if◌then◌else◌, elem,
}
use klokast_box.Prelude.Text.{codes}
use klokast_box.Checks.{Outcome, ok, raised, ◌>>=◌, ◌>>◌, each}
use klokast_box.ResourceModel.{Value, Mapping, Refusal, died, crashed}
use klokast_box.ResourceModel.Values.{
  get, has_key, truthy, or_else, no_list, text_is, as_mapping, as_list, items,
}
use klokast_box.ResourceModel.Names.{validate_id, validate_app_tailnet_tag}
use klokast_box.ResourceModel.Selectors.{validate_tailnet_port_selectors}
use klokast_box.ResourceModel.Access.{reject_unknown_fields, validate_resource_access}
use klokast_box.ResourceModel.Shapes.{read_type, check_ports}

abbrev pub tailnet_resource_fields : List String
tailnet_resource_fields =
    "id" ∷ "required" ∷ "enabled_by_default" ∷ "hostname_default" ∷ "hostname" ∷ "hostname_pattern"
    ∷ "tag_default" ∷ "tag" ∷ "tag_pattern" ∷ "grants" ∷ "access" ∷ "requires_capability" ∷ []

abbrev pub tailnet_grant_fields : List String
tailnet_grant_fields = "src" ∷ "dst" ∷ "ports" ∷ "tcp_ports" ∷ "udp_ports" ∷ []

-- `'{' in value`
unfoldable pub has_brace : Value → Outcome Refusal Bool
has_brace (Value.text s) = ok (elem ◌==◌ b'{' (codes s))
has_brace (Value.mapping m) = ok (has_key "{" m)
has_brace (Value.sequence s) = ok (any_brace (items s))
  where
    any_brace : List Value → Bool
    any_brace [] = false
    any_brace (v ∷ vs) = text_is "{" v || any_brace vs
has_brace _ = raised (crashed "TypeError")

-- A tag that is not a pattern must be one that an application may use.
unfoldable pub check_tag : Value → Outcome Refusal (Unit {0})
unfolding has_brace
check_tag tag =
    if truthy tag
    then (has_brace tag >>= λ pattern_of.
        if pattern_of then ok tt else validate_app_tailnet_tag tag)
    else ok tt

abbrev pub tag_of : Mapping → Value
tag_of resource =
    or_else (or_else (get "tag_default" resource) (get "tag" resource)) (get "tag_pattern" resource)

abbrev pub if_present :
    String → (Value → Outcome Refusal (Unit {0})) → Mapping → Outcome Refusal (Unit {0})
if_present key f m = if has_key key m then f (get key m) else ok tt

unfoldable pub check_grant : Value → Outcome Refusal (Unit {0})
check_grant grant = do
  reject_unknown_fields tailnet_grant_fields grant
  fields ← as_mapping (died "must be a mapping") grant
  if_present "ports" check_ports fields
  if_present "tcp_ports" check_ports fields
  if_present "udp_ports" (λ v. validate_tailnet_port_selectors v >>= λ _. ok tt) fields

unfoldable pub validate_tailnet_resource_shape : Mapping → Outcome Refusal (Unit {0})
unfolding check_tag check_grant
validate_tailnet_resource_shape resource = do
  validate_id (get "id" resource)
  reject_unknown_fields tailnet_resource_fields (Value.mapping resource)
  validate_resource_access resource
  check_tag (tag_of resource)
  grants ← as_list (died "grants must be a list") (or_else (get "grants" resource) no_list)
  each check_grant grants

pub data ArtifactType : Type 0 where
  release_artifact npm_package oci_images : ArtifactType

abbrev pub artifact_fields : ArtifactType → List String
artifact_fields ArtifactType.release_artifact =
    "id" ∷ "type" ∷ "rationale" ∷ "secret_free" ∷ "require_sha512" ∷ []
artifact_fields ArtifactType.npm_package =
    "id" ∷ "type" ∷ "rationale" ∷ "package" ∷ "version" ∷ "integrity" ∷ []
artifact_fields ArtifactType.oci_images =
    "id" ∷ "type" ∷ "rationale" ∷ "lock_file" ∷ "require_digest" ∷ []

abbrev pub artifact_type_of : String → Option ArtifactType
artifact_type_of s =
    if s =ₛ "release_artifact"
    then some ArtifactType.release_artifact
    else if s =ₛ "npm_package"
    then some ArtifactType.npm_package
    else if s =ₛ "oci_images"
    then some ArtifactType.oci_images
    else none

unfoldable pub validate_artifact_resource_shape : Mapping → Outcome Refusal (Unit {0})
unfolding read_type
validate_artifact_resource_shape resource = do
  validate_id (get "id" resource)
  type ← read_type artifact_type_of "unsupported artifact resource type" (get "type" resource)
  reject_unknown_fields (artifact_fields type) (Value.mapping resource)
