-- ===== src/ResourceModel/Access.antt =====
-- platform_resource_model.py: access capabilities, of boxes and of resources.
pub mod Normal
pub mod RoundTrip
use klokast_box.Prelude.{
  String, Bool, true, false, not, ◌&&◌, Option, none, some, List, [], ◌∷◌, ◌++◌, ◌=ₛ◌,
  if◌then◌else◌, elem, all,
}
use klokast_box.Checks.{Outcome, ok, raised, ◌>>=◌, ◌>>◌, check, each}
use klokast_box.ResourceModel.{Value, Mapping, Sequence, Refusal, died, crashed}
use klokast_box.ResourceModel.Values.{
  get, get_or, key_list, truthy, or_else, no_mapping, no_list, text_among, in_set, as_mapping,
  as_list, attribute_get, iterate, items, is_hashable,
}

unfoldable pub reject_unknown_fields : List String → Value → Outcome Refusal (Unit {0})
reject_unknown_fields allowed (Value.mapping m) =
    check (all (λ key. elem ◌=ₛ◌ key allowed) (key_list m))
      (died "contains unsupported app-manifest field(s)")
reject_unknown_fields allowed _ = raised (died "must be a mapping")

abbrev pub access_capabilities : List String
access_capabilities =
    "ap-uplink" ∷ "local-lan" ∷ "rg-lan" ∷ "overlay" ∷ "vpn-egress" ∷ "edge-ingress"
    ∷ "direct-egress" ∷ "direct-ingress" ∷ []

abbrev pub access_policy_intents : List String
access_policy_intents =
    "local-presence-control" ∷ "private-service-ingress" ∷ "file-upload" ∷ "household-wan-egress"
    ∷ "public-ingress" ∷ []

abbrev pub access_resource_fields : List String
access_resource_fields = "intent" ∷ "capability" ∷ []

abbrev pub access_box_fields : List String
access_box_fields =
    "available_capabilities" ∷ "enabled_capabilities" ∷ "prohibited_capabilities" ∷ []

-- The capability that a value names.
unfoldable pub validate_access_capability : Value → Outcome Refusal String
validate_access_capability (Value.text s) =
    check (elem ◌=ₛ◌ s access_capabilities) (died "must be one of the access capabilities") >>= λ _.
    ok s
validate_access_capability value = check (is_hashable value) (crashed "TypeError") >>= λ _.
    raised (died "must be one of the access capabilities")

unfoldable pub validate_access_intent : Value → Outcome Refusal (Unit {0})
validate_access_intent value =
    check (text_among access_policy_intents value) (died "must be one of the access intents")

-- The loop over a list, with the capabilities so far.
unfoldable pub collect_capabilities : List String → List Value → Outcome Refusal (List String)
unfolding validate_access_capability
collect_capabilities normalized [] = ok normalized
collect_capabilities normalized (value ∷ rest) = validate_access_capability value >>= λ s.
    collect_capabilities (if elem ◌=ₛ◌ s normalized then normalized else normalized ++ s ∷ []) rest

unfoldable pub validate_access_capability_list : Value → Outcome Refusal (List String)
unfolding collect_capabilities
validate_access_capability_list (Value.sequence s) = collect_capabilities [] (items s)
validate_access_capability_list _ = raised (died "must be a list")

pub record BoxAccess : Type 0 where
  pub available : List String
  pub enabled : List String
  pub prohibited : List String

abbrev pub default_box_access : BoxAccess
default_box_access = record {
  available = "overlay" ∷ [];
  enabled = "overlay" ∷ [];
  prohibited = [];
}

abbrev pub overlay_only : Value
overlay_only = Value.sequence (Sequence.item (Value.text "overlay") Sequence.no_items)

abbrev pub enabled_default : List String → Value
enabled_default available = if elem ◌=ₛ◌ "overlay" available then overlay_only else no_list

-- `{}` for `None`.
abbrev pub none_as_mapping : Value → Value
none_as_mapping Value.empty = no_mapping
none_as_mapping v = v

unfoldable pub check_enabled : List String → List String → String → Outcome Refusal (Unit {0})
check_enabled available prohibited capability = do
  check (elem ◌=ₛ◌ capability available) (died "contains unavailable capability")
  check (not (elem ◌=ₛ◌ capability prohibited)) (died "contains prohibited capability")

unfoldable pub normalize_access_fields : Mapping → Outcome Refusal BoxAccess
unfolding validate_access_capability_list check_enabled
normalize_access_fields access = do
  available ← validate_access_capability_list (get_or "available_capabilities" overlay_only access)
  prohibited ← validate_access_capability_list (get_or "prohibited_capabilities" no_list access)
  check (all (λ c. not (elem ◌=ₛ◌ c prohibited)) available) (died "includes prohibited capability")
  enabled ←
      validate_access_capability_list
        (get_or "enabled_capabilities" (enabled_default available) access)
  each (check_enabled available prohibited) enabled
  ok (record { available = available; enabled = enabled; prohibited = prohibited })

unfoldable pub normalize_box_access : Value → Outcome Refusal BoxAccess
unfolding reject_unknown_fields normalize_access_fields
normalize_box_access value = do
  access ← as_mapping (died "must be a mapping") (none_as_mapping value)
  reject_unknown_fields access_box_fields (Value.mapping access)
  normalize_access_fields access

-- A check that is skipped for `None`.
abbrev pub unless_none : (Value → Outcome Refusal (Unit {0})) → Value → Outcome Refusal (Unit {0})
unless_none f Value.empty = ok tt
unless_none f value = f value

unfoldable pub check_capability : Value → Outcome Refusal (Unit {0})
unfolding validate_access_capability
check_capability value = validate_access_capability value >>= λ _. ok tt

unfoldable pub validate_access_of : Value → Outcome Refusal (Unit {0})
unfolding reject_unknown_fields check_capability validate_access_intent
validate_access_of value = do
  access ← as_mapping (died "access must be a mapping") value
  reject_unknown_fields access_resource_fields (Value.mapping access)
  validate_access_intent (get "intent" access)
  check_capability (get "capability" access)

unfoldable pub validate_resource_access : Mapping → Outcome Refusal (Unit {0})
unfolding check_capability validate_access_of
validate_resource_access resource = do
  unless_none check_capability (get "requires_capability" resource)
  unless_none validate_access_of (get "access" resource)

-- `resource.get('requires_capability') or access.get('capability')`
unfoldable pub capability_of : Mapping → Outcome Refusal Value
capability_of resource =
    if truthy (get "requires_capability" resource)
    then ok (get "requires_capability" resource)
    else attribute_get "capability" (or_else (get "access" resource) no_mapping)

-- Whether a box enables the capability that a resource needs.
unfoldable pub resource_access_allowed : Mapping → BoxAccess → Outcome Refusal Bool
unfolding capability_of in_set
resource_access_allowed resource box = capability_of resource >>= λ capability.
    if truthy capability then in_set box.enabled capability else ok true

unfoldable pub any_allows : Mapping → List BoxAccess → Outcome Refusal Bool
unfolding resource_access_allowed
any_allows resource [] = ok false
any_allows resource (box ∷ boxes) =
    let others = any_allows resource boxes in
    resource_access_allowed resource box >>= λ allowed. if allowed then ok true else others

-- With no box selected, the default access is asked. The boxes are given by their access.
unfoldable pub resource_access_allowed_for_any_box : Mapping → List BoxAccess → Outcome Refusal Bool
unfolding any_allows
resource_access_allowed_for_any_box resource [] =
    if truthy (get "access" resource)
    then any_allows resource (default_box_access ∷ [])
    else ok true
resource_access_allowed_for_any_box resource (box ∷ boxes) =
    if truthy (get "access" resource) then any_allows resource (box ∷ boxes) else ok true
