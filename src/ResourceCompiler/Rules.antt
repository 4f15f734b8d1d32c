-- ===== src/ResourceCompiler/Rules.antt =====
-- platform_resource_compiler.py: the rules of an application for the packet filter, their normal
-- forms, and the claims that are made of them.
use Prim.Native.Nat.{◌/◌, ◌%◌}
use Prim.Native.String.{◌++◌ as ◌+++◌}
use klokast_box.Prelude.{
  true, ℕ, zero, suc, String, Bool, false, ◌||◌, List, [], ◌∷◌, ◌=ₛ◌, leb, if◌then◌else◌, map,
}
use klokast_box.Checks.{Outcome, ok, ◌>>=◌, ◌>>◌, check}
use klokast_box.ResourceModel.{Value, Sequence, Refusal, died}
use klokast_box.ResourceModel.Ports.{Port, validate_ports}

-- A rule between two interfaces of the router. A text that is empty is a field that is not there.
pub record RouterRule : Type 0 where
  pub app : String
  pub resource : String
  pub node : String
  pub in_interface : String
  pub out_interface : String
  pub source : String
  pub destination : String
  pub destination_exclusions : List String
  pub protocol : String
  pub ports : Value
  pub exclusive : Bool
  pub comment : String

-- A rule on the input of a guest.
pub record VmRule : Type 0 where
  pub app : String
  pub resource : String
  pub node : String
  pub target_role : String
  pub interface : String
  pub source : String
  pub destination : String
  pub protocol : String
  pub ports : Value
  pub exclusive : Bool
  pub comment : String

pub record RouterForward : Type 0 where
  pub node : String
  pub in_interface : String
  pub out_interface : String
  pub source : String
  pub destination : String
  pub protocol : String
  pub ports : List Port
  pub destination_exclusions : List String

pub record VmInput : Type 0 where
  pub node : String
  pub target_role : String
  pub interface : String
  pub source : String
  pub destination : String
  pub protocol : String
  pub ports : List Port

pub data Normalized : Type 0 where
  router_forward : RouterForward → Normalized
  vm_input : VmInput → Normalized

-- `value or default`, of a text.
abbrev pub text_or : String → String → String
text_or value default = if value =ₛ "" then default else value

unfoldable pub normalized_router_rule : RouterRule → Outcome Refusal RouterForward
normalized_router_rule rule = validate_ports rule.ports >>= λ ports. ok (record {
  node = rule.node;
  in_interface = rule.in_interface;
  out_interface = rule.out_interface;
  source = rule.source;
  destination = rule.destination;
  protocol = text_or rule.protocol "tcp";
  ports = ports;
  destination_exclusions = rule.destination_exclusions;
})

unfoldable pub normalized_vm_rule : VmRule → Outcome Refusal VmInput
normalized_vm_rule rule = do
  let protocol = text_or rule.protocol "tcp"
  check (protocol =ₛ "tcp" || protocol =ₛ "udp") (died "VM input rule protocol must be tcp or udp")
  ports ← validate_ports rule.ports
  ok (record {
    node = rule.node;
    target_role = rule.target_role;
    interface = text_or rule.interface "eth0";
    source = rule.source;
    destination = rule.destination;
    protocol = protocol;
    ports = ports;
  })

abbrev pub pick : ℕ → List String → String
pick n [] = ""
pick zero (s ∷ ss) = s
pick (suc n) (s ∷ ss) = pick n ss

abbrev pub digit : ℕ → String
digit n = pick n ("0" ∷ "1" ∷ "2" ∷ "3" ∷ "4" ∷ "5" ∷ "6" ∷ "7" ∷ "8" ∷ "9" ∷ [])

-- `str(n)`, of a port, by the units of its digits but the last.
abbrev pub digits_from : List ℕ → Bool → ℕ → String
digits_from [] begun n = digit (n % 10)
digits_from (unit ∷ units) begun n =
    let shown = begun || leb unit n in
    let rest = digits_from units shown n in if shown then digit (n / unit % 10) +++ rest else rest

-- `str(port)`, of at most five digits.
abbrev pub port_text : Port → String
port_text (Port.plain n) = digits_from (10000 ∷ 1000 ∷ 100 ∷ 10 ∷ []) false n
port_text Port.true_port = "True"

-- `separator.join(texts)`
abbrev pub joined : String → List String → String
joined separator [] = ""
joined separator (s ∷ []) = s
joined separator (s ∷ t ∷ rest) = s +++ (separator +++ joined separator (t ∷ rest))

abbrev pub port_value : Port → Value
port_value (Port.plain n) = Value.integer n
port_value Port.true_port = Value.boolean true

abbrev pub port_values : List Port → Sequence
port_values [] = Sequence.no_items
port_values (p ∷ ps) = Sequence.item (port_value p) (port_values ps)

abbrev pub port_set_text : List Port → String
port_set_text (p ∷ []) = port_text p
port_set_text ps = "{ " +++ (joined ", " (map port_text ps) +++ " }")

unfoldable pub nft_port_expr : List Port → Outcome Refusal String
nft_port_expr ports =
    validate_ports (Value.sequence (port_values ports)) >>= λ values. ok (port_set_text values)

-- The parts of a text, one after the other.
abbrev pub parts : List String → String
parts [] = ""
parts (s ∷ ss) = s +++ parts ss

abbrev pub destination_text : RouterForward → String
destination_text rule = destination_of rule.destination_exclusions rule.destination
  where
    destination_of : List String → String → String
    destination_of (s ∷ ss) destination =
        parts (" ip daddr != { " ∷ joined ", " (s ∷ ss) ∷ " }" ∷ [])
    destination_of [] destination = if destination =ₛ "" then "" else " ip daddr " +++ destination

unfoldable pub render_router_resource_rule : RouterForward → String → Outcome Refusal String
unfolding nft_port_expr
render_router_resource_rule rule identity = nft_port_expr rule.ports >>= λ ports. ok (
    parts (
      "iifname \""
      ∷ rule.in_interface
      ∷ "\" oifname \""
      ∷ rule.out_interface
      ∷ "\" ip saddr "
      ∷ rule.source
      ∷ destination_text rule
      ∷ " "
      ∷ rule.protocol
      ∷ " dport "
      ∷ ports
      ∷ " accept comment \""
      ∷ identity
      ∷ "\""
      ∷ []))

unfoldable pub render_vm_resource_rule : VmInput → String → Outcome Refusal String
unfolding nft_port_expr
render_vm_resource_rule rule identity = nft_port_expr rule.ports >>= λ ports. ok (
    parts (
      "iifname \"" ∷ rule.interface ∷ "\" ip saddr " ∷ rule.source ∷ " ip daddr " ∷ rule.destination
      ∷ " " ∷ rule.protocol ∷ " dport " ∷ ports ∷ " accept comment \"" ∷ identity ∷ "\"" ∷ []))

-- `text[:n]`
abbrev pub first_codes : ℕ → String → String
first_codes zero s = ""
first_codes (suc n) String.[] = ""
first_codes (suc n) (String.◌∷◌ c s) = String.◌∷◌ c (first_codes n s)

-- `hashlib.sha256`, of the canonical JSON text of a rule and of a text, in hexadecimal.
pub record Digests : Type 0 where
  pub of_rule : Normalized → String
  pub of_text : String → String

pub data Kind : Type 0 where
  router_kind vm_kind : Kind

abbrev pub kind_text : Kind → String
kind_text Kind.router_kind = "router-forward"
kind_text Kind.vm_kind = "vm-input"

abbrev pub kind_of : Normalized → Kind
kind_of (Normalized.router_forward r) = Kind.router_kind
kind_of (Normalized.vm_input r) = Kind.vm_kind

abbrev pub rendered_rule_identity : String → String
rendered_rule_identity key = "klokast-" +++ first_codes 32 key

-- A claim that has not been approved.
pub record Claim : Type 0 where
  pub kind : Kind
  pub key : String
  pub app : String
  pub resource : String
  pub node : String
  pub host_role : String
  pub exclusive : Bool
  pub claim_comment : String
  pub rendered_identity : String
  pub normalized : Normalized
  pub content : String
  pub content_sha256 : String

module _ (digests : Digests) where
  abbrev pub resource_key : Normalized → String
  resource_key normalized =
      parts
        (kind_text (kind_of normalized) ∷ "-" ∷ first_codes 24 (digests.of_rule normalized) ∷ [])

  unfoldable pub router_claim : RouterRule → Outcome Refusal Claim
  unfolding normalized_router_rule render_router_resource_rule
  router_claim rule = do
    normalized ← normalized_router_rule rule
    let key = resource_key (Normalized.router_forward normalized)
    let identity = rendered_rule_identity key
    line ← render_router_resource_rule normalized identity
    ok (record {
      kind = Kind.router_kind;
      key = key;
      app = rule.app;
      resource = rule.resource;
      node = rule.node;
      host_role = "router";
      exclusive = rule.exclusive;
      claim_comment = rule.comment;
      rendered_identity = identity;
      normalized = Normalized.router_forward normalized;
      content = line +++ "\n";
      content_sha256 = digests.of_text (line +++ "\n");
    })

  unfoldable pub vm_claim : VmRule → Outcome Refusal Claim
  unfolding normalized_vm_rule render_vm_resource_rule
  vm_claim rule = do
    normalized ← normalized_vm_rule rule
    let key = resource_key (Normalized.vm_input normalized)
    let identity = rendered_rule_identity key
    line ← render_vm_resource_rule normalized identity
    ok (record {
      kind = Kind.vm_kind;
      key = key;
      app = rule.app;
      resource = rule.resource;
      node = rule.node;
      host_role = rule.target_role;
      exclusive = rule.exclusive;
      claim_comment = rule.comment;
      rendered_identity = identity;
      normalized = Normalized.vm_input normalized;
      content = line +++ "\n";
      content_sha256 = digests.of_text (line +++ "\n");
    })
