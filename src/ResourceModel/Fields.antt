-- ===== src/ResourceModel/Fields.antt =====
-- platform_resource_model.py `reject_raw_network_fields`, `reject_tcb_control_fields`: keys that a
-- manifest may not have at any depth. `die` raises the key that its message names.
use klokast_box.Prelude.{String, ◌≡◌, refl, not, List, [], ◌∷◌, ◌++◌, ◌=ₛ◌, elem, All, false}
use klokast_box.Checks.{Outcome, ok, raised, ◌>>=◌, check, each, check-not-eq-ok}
use klokast_box.ResourceModel.{Value, Mapping, Sequence, Refusal, forbidden}

abbrev pub raw_network_fields : List String
raw_network_fields =
    "router" ∷ "vm_input" ∷ "source" ∷ "destination" ∷ "interface" ∷ "in_interface"
    ∷ "out_interface" ∷ "wan_interface" ∷ "target_role" ∷ []

abbrev pub tcb_control_fields : List String
tcb_control_fields =
    "auth_key" ∷ "authkey" ∷ "box" ∷ "boxes" ∷ "builder_box" ∷ "builder_host" ∷ "builder_node"
    ∷ "builder_vm" ∷ "node" ∷ "nodes" ∷ "oauth_client" ∷ "oauth_secret" ∷ "owner" ∷ "owners"
    ∷ "placement" ∷ "privileged_builder_host" ∷ "tag_owner" ∷ "tag_owners" ∷ "tailnet_tag_owner"
    ∷ "tailnet_tag_owners" ∷ "target_box" ∷ []

abbrev pub admit : List String → String → Outcome Refusal (Unit {0})
admit names key = check (not (elem ◌=ₛ◌ key names)) (forbidden key)

-- The walk of both functions, for a set of keys.
unfoldable mutual
  pub reject_fields : List String → Value → Outcome Refusal (Unit {0})
  reject_fields names (Value.mapping entries) = reject_entries names entries
  reject_fields names (Value.sequence items) = reject_items names items
  reject_fields names _ = ok tt

  pub reject_entries : List String → Mapping → Outcome Refusal (Unit {0})
  reject_entries names Mapping.no_entries = ok tt
  reject_entries names (Mapping.bind key child rest) =
      let below = reject_fields names child in
      let beside = reject_entries names rest in admit names key >>= λ _. below >>= λ _. beside

  pub reject_items : List String → Sequence → Outcome Refusal (Unit {0})
  reject_items names Sequence.no_items = ok tt
  reject_items names (Sequence.item child rest) =
      let below = reject_fields names child in
      let beside = reject_items names rest in below >>= λ _. beside

unfoldable pub reject_raw_network_fields : Value → Outcome Refusal (Unit {0})
unfolding reject_fields
reject_raw_network_fields value = reject_fields raw_network_fields value

unfoldable pub reject_tcb_control_fields : Value → Outcome Refusal (Unit {0})
unfolding reject_fields
reject_tcb_control_fields value = reject_fields tcb_control_fields value

-- Every key of a value at any depth, in the order of the text.
unfoldable mutual
  pub keys : Value → List String
  keys (Value.mapping entries) = entry_keys entries
  keys (Value.sequence items) = item_keys items
  keys _ = []

  pub entry_keys : Mapping → List String
  entry_keys Mapping.no_entries = []
  entry_keys (Mapping.bind key child rest) = key ∷ (keys child ++ entry_keys rest)

  pub item_keys : Sequence → List String
  item_keys Sequence.no_items = []
  item_keys (Sequence.item child rest) = keys child ++ item_keys rest

-- A loop over two lists is two loops.
each-++ :
    (f : String → Outcome Refusal (Unit {0})) (xs ys : List String)
    → each f (xs ++ ys) ≡ (each f xs >>= λ _. each f ys)
unfolding each
each-++ f [] ys = refl
each-++ f (x ∷ xs) ys = rw (each-++ f xs ys) (regroup (f x) (each f xs) (each f ys))
  where
    regroup :
        (a b c : Outcome Refusal (Unit {0}))
        → (a >>= λ _. b >>= λ _. c) ≡ ((a >>= λ _. b) >>= λ _. c)
    regroup (ok u) b c = refl
    regroup (raised e) b c = refl

mutual
  unfolding reject_fields keys each

  reject_fields-eq :
      (names : List String) (v : Value) → reject_fields names v ≡ each (admit names) (keys v)
  reject_fields-eq names (Value.mapping entries) = reject_entries-eq names entries
  reject_fields-eq names (Value.sequence items) = reject_items-eq names items
  reject_fields-eq names (Value.text s) = refl
  reject_fields-eq names (Value.integer n) = refl
  reject_fields-eq names (Value.negative n) = refl
  reject_fields-eq names (Value.boolean b) = refl
  reject_fields-eq names Value.empty = refl
  reject_fields-eq names (Value.other_scalar s b) = refl

  reject_entries-eq :
      (names : List String) (entries : Mapping)
      → reject_entries names entries ≡ each (admit names) (entry_keys entries)
  reject_entries-eq names Mapping.no_entries = refl
  reject_entries-eq names (Mapping.bind key child rest) =
      simp (reject_fields-eq names child, reject_entries-eq names rest, each-++)

  reject_items-eq :
      (names : List String) (items : Sequence)
      → reject_items names items ≡ each (admit names) (item_keys items)
  reject_items-eq names Sequence.no_items = refl
  reject_items-eq names (Sequence.item child rest) =
      simp (reject_fields-eq names child, reject_items-eq names rest, each-++)

-- The keys that are admitted are none of the names.
pub admit-eq-ok :
    (names ks : List String)
    → All (λ k. admit names k ≡ ok tt) ks
    → All (λ k. elem ◌=ₛ◌ k names ≡ false) ks
admit-eq-ok names [] h = tt
admit-eq-ok names (k ∷ ks) h = (check-not-eq-ok _ _ h.0, admit-eq-ok names ks h.1)

-- Each of the two functions accepts a value exactly where none of the keys that it has at any depth
-- is in the function's set, and otherwise dies on the first such key in the order of the text.
pub reject_named_fields :
    (v : Value)
    → (reject_raw_network_fields v ≡ each (admit raw_network_fields) (keys v))
      × (reject_tcb_control_fields v ≡ each (admit tcb_control_fields) (keys v))
unfolding reject_raw_network_fields reject_tcb_control_fields
reject_named_fields v =
    (reject_fields-eq raw_network_fields v, reject_fields-eq tcb_control_fields v)
