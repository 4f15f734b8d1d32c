-- ===== src/ResourceCompiler/Ledger.antt =====
-- platform_resource_compiler.py `build_effective_resource_file`, `build_app_resource_ledger`: the
-- claims of all applications, and one file for the claims of each rule.
pub mod Groups
pub mod Owners
pub mod Refines
use Prim.Native.String.{◌++◌ as ◌+++◌}
use klokast_box.Prelude.{
  ℕ, String, Bool, true, false, not, ◌&&◌, ◌||◌, Option, none, some, List, [], ◌∷◌, ◌++◌, ◌=ₛ◌,
  if◌then◌else◌, map, all,
}
use klokast_box.Prelude.Text.{codes}
use klokast_box.Checks.{Outcome, ok, raised, ◌>>=◌, ◌>>◌, check}
use klokast_box.ResourceModel.{Refusal, died, crashed}
use klokast_box.ResourceModel.Placement.{codes_ltb, sorted_texts, has_some}
use klokast_box.ResourceCompiler.Rules.{
  RouterRule, VmRule, Kind, router_kind, vm_kind, kind_text, joined, parts, Digests, Claim,
  router_claim, vm_claim,
}

abbrev pub text_ltb : String → String → Bool
text_ltb s t = codes_ltb (codes s) (codes t)

-- `s < t`, of tuples of texts.
abbrev pub texts_ltb : List String → List String → Bool
texts_ltb s [] = false
texts_ltb [] (u ∷ t) = true
texts_ltb (c ∷ s) (u ∷ t) = text_ltb c u || (c =ₛ u) && texts_ltb s t

abbrev pub same_texts : List String → List String → Bool
same_texts [] [] = true
same_texts (c ∷ s) (u ∷ t) = (c =ₛ u) && same_texts s t
same_texts _ _ = false

-- The file that a claim is for.
abbrev pub file_key : Claim → List String
file_key claim = claim.node ∷ claim.host_role ∷ kind_text claim.kind ∷ claim.key ∷ []

-- A file as it is put on a host.
pub record EffectiveFile : Type 0 where
  pub kind : Kind
  pub key : String
  pub filename : String
  pub node : String
  pub host_role : String
  pub owners : List String
  pub resources : List String
  pub exclusive : Bool
  pub rendered_identity : String
  pub content : String
  pub content_sha256 : String
  pub claim_keys : List String

abbrev pub apps_of : List Claim → List String
apps_of [] = []
apps_of (claim ∷ rest) = claim.app ∷ apps_of rest

abbrev pub exclusive_apps : List Claim → List String
exclusive_apps [] = []
exclusive_apps (claim ∷ rest) =
    let others = exclusive_apps rest in if claim.exclusive then claim.app ∷ others else others

abbrev pub resources_of : List Claim → List String
resources_of [] = []
resources_of (claim ∷ rest) = (claim.app +++ (":" +++ claim.resource)) ∷ resources_of rest

abbrev pub comments_of : List Claim → List String
comments_of [] = []
comments_of (claim ∷ rest) =
    let others = comments_of rest in
    if claim.claim_comment =ₛ "" then others else claim.claim_comment ∷ others

-- `len(texts) > 1`
abbrev pub several : List String → Bool
several (s ∷ t ∷ rest) = true
several _ = false

-- Every claim renders the rule that the first one does.
abbrev pub same_content : Claim → List Claim → Bool
same_content first [] = true
same_content first (claim ∷ rest) =
    (claim.content_sha256 =ₛ first.content_sha256) && same_content first rest

abbrev pub file_header : Claim → List String → Bool → String
file_header first owners exclusive = parts (
    "# Managed by Klokast platform-resources. Do not edit.\n# klokast-resource-kind: "
    ∷ kind_text first.kind
    ∷ "\n# klokast-resource-key: "
    ∷ first.key
    ∷ "\n# klokast-resource-owners: "
    ∷ joined "," owners
    ∷ "\n# klokast-resource-rendered-identity: "
    ∷ first.rendered_identity
    ∷ "\n# klokast-resource-exclusive: "
    ∷ (if exclusive then "true" else "false")
    ∷ "\n"
    ∷ [])

-- A list of claims with the same key and value are grouped; a claim is appended to its group.
abbrev pub Groups : Type 0
Groups = List (List String × List Claim)

unfoldable pub add_claim : Claim → Groups → Groups
add_claim claim [] = (file_key claim, claim ∷ []) ∷ []
add_claim claim ((key, claims) ∷ rest) =
    let later = add_claim claim rest in
    if same_texts key (file_key claim)
    then (key, claims ++ claim ∷ []) ∷ rest
    else (key, claims) ∷ later

unfoldable pub group_claims : Groups → List Claim → Groups
unfolding add_claim
group_claims groups [] = groups
group_claims groups (claim ∷ rest) = group_claims (add_claim claim groups) rest

unfoldable pub insert_group : List String × List Claim → Groups → Groups
insert_group group [] = group ∷ []
insert_group group (other ∷ rest) =
    let later = insert_group group rest in
    if texts_ltb other.0 group.0 then other ∷ later else group ∷ other ∷ rest

-- `sorted(grouped.items(), key=…)`
unfoldable pub sort_groups : Groups → Groups
unfolding insert_group
sort_groups [] = []
sort_groups (group ∷ rest) = insert_group group (sort_groups rest)

abbrev pub claim_order : Claim → List String
claim_order claim =
    claim.node
    ∷ claim.host_role
    ∷ kind_text claim.kind
    ∷ claim.key
    ∷ claim.app
    ∷ claim.resource
    ∷ []

unfoldable pub insert_claim : Claim → List Claim → List Claim
insert_claim claim [] = claim ∷ []
insert_claim claim (other ∷ rest) =
    let later = insert_claim claim rest in
    if texts_ltb (claim_order other) (claim_order claim)
    then other ∷ later
    else claim ∷ other ∷ rest

-- `sorted(claims, key=…)`, which keeps the order of claims that compare the same.
unfoldable pub sort_claims : List Claim → List Claim
unfolding insert_claim
sort_claims [] = []
sort_claims (claim ∷ rest) = insert_claim claim (sort_claims rest)

pub record Ledger : Type 0 where
  pub claims : List Claim
  pub effective_files : List EffectiveFile

module _ (digests : Digests) where
  unfoldable pub build_effective_resource_file : List Claim → Outcome Refusal EffectiveFile
  build_effective_resource_file [] = raised (crashed "IndexError")
  build_effective_resource_file (first ∷ rest) = do
    let owners = sorted_texts (apps_of (first ∷ rest))
    let exclusive = has_some (sorted_texts (exclusive_apps (first ∷ rest)))
    check (not (exclusive && several owners)) (died "exclusive platform-resource conflict")
    check (same_content first rest)
        (died "claims normalized to the same key but render different snippets")
    let content = file_header first owners exclusive +++ first.content
    ok (record {
      kind = first.kind;
      key = first.key;
      filename = first.key +++ ".nft";
      node = first.node;
      host_role = first.host_role;
      owners = owners;
      resources = sorted_texts (resources_of (first ∷ rest));
      exclusive = exclusive;
      rendered_identity = first.rendered_identity;
      content = content;
      content_sha256 = digests.of_text content;
      claim_keys = sorted_texts (comments_of (first ∷ rest));
    })

  unfoldable pub router_claims : List RouterRule → Outcome Refusal (List Claim)
  router_claims [] = ok []
  router_claims (rule ∷ rest) =
      let others = router_claims rest in
      router_claim digests rule >>= λ claim. others >>= λ claims. ok (claim ∷ claims)

  unfoldable pub vm_claims : List VmRule → Outcome Refusal (List Claim)
  vm_claims [] = ok []
  vm_claims (rule ∷ rest) =
      let others = vm_claims rest in
      vm_claim digests rule >>= λ claim. others >>= λ claims. ok (claim ∷ claims)

  unfoldable pub effective_files_of : Groups → Outcome Refusal (List EffectiveFile)
  unfolding build_effective_resource_file
  effective_files_of [] = ok []
  effective_files_of (group ∷ rest) =
      let others = effective_files_of rest in
      build_effective_resource_file group.1 >>= λ file. others >>= λ files. ok (file ∷ files)

  unfoldable pub build_app_resource_ledger : List RouterRule → List VmRule → Outcome Refusal Ledger
  unfolding router_claims vm_claims group_claims sort_groups effective_files_of sort_claims
  build_app_resource_ledger router_rules vm_rules = do
    router ← router_claims router_rules
    vm ← vm_claims vm_rules
    effective ← effective_files_of (sort_groups (group_claims [] (router ++ vm)))
    ok (record { claims = sort_claims (router ++ vm); effective_files = effective })
