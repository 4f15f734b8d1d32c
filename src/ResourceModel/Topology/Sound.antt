-- ===== src/ResourceModel/Topology/Sound.antt =====
-- The names of an accepted topology resolve.
use klokast_box.Prelude.{
  String, ◌≡◌, refl, sym, ap, subst, ◌∙◌, inl, inr, Bool, true, false, ◌&&◌, ◌||◌, none, some, List,
  [], ◌∷◌, ◌=ₛ◌, if◌then◌else◌, Bool-cases,
}
use klokast_box.Checks.{ok, check, each, >>=-Returned, check-eq-ok, ok-injective}
use klokast_box.ResourceModel.{Value, Mapping, died}
use klokast_box.ResourceModel.Values.{
  find, get, has_key, entries, has_entries, or_else, no_mapping, text_among, as_mapping,
}
use klokast_box.ResourceModel.Names.{Addresses, validate_id, validate_iface, validate_ip}
use klokast_box.ResourceModel.Inversion.{as_mapping-eq-ok}
use klokast_box.ResourceModel.Topology.{
  lookup, is_some, Topology, workload_roles, as_text, check_zone, check_zones, check_ops_zone,
  check_aliases, check_realms, load_topology, canonical_zone, resolve_zone,
}

-- A zone of the topology, for a key of the inventory.
abbrev pub Declares : List (String × Mapping) → String → Type 0
Declares zones key =
    (zone : Mapping) × (lookup key zones ≡ some zone)
    × (text_among workload_roles (get "role" zone) ≡ true)

-- A key that an entry does not have is in the others.
there_later :
    (name : String) (v : Value) (rest : Mapping) (key : String)
    → name =ₛ key ≡ false
    → {b : Bool} → has_key key (Mapping.bind name v rest) ≡ b
    → has_key key rest ≡ b
there_later name v rest key other k =
    sym (ap (λ b. is_some (if b then some v else find key rest)) other) ∙ k

there_now :
    (name : String) (v : Value) (rest : Mapping) (key : String)
    → name =ₛ key ≡ true
    → has_key key (Mapping.bind name v rest) ≡ true
there_now name v rest key same = ap (λ b. is_some (if b then some v else find key rest)) same

module _ (addresses : Addresses) where
  check_zone-role :
      (name : String) (v : Value) (zone : Mapping)
      → check_zone addresses name v ≡ ok zone
      → text_among workload_roles (get "role" zone) ≡ true
  unfolding check_zone
  check_zone-role name v zone h =
      let i = >>=-Returned (validate_id (Value.text name)) _ h in
      let z = >>=-Returned (as_mapping (died "must be a mapping") v) _ i.2 in
      let r = >>=-Returned (check (text_among workload_roles (get "role" z.0)) _) _ z.2 in
      let e =
        >>=-Returned
          (each (λ key. validate_iface (get key z.0))
            ("hostname_suffix" ∷ "bridge" ∷ "router_interface" ∷ "vm_interface" ∷ []))
          _ r.2 in
      let a =
        >>=-Returned
          (each (λ key. validate_ip addresses (get key z.0))
            ("router_ipv4_address" ∷ "vm_ipv4_address" ∷ []))
          _ e.2 in
      let c = >>=-Returned (validate_ip addresses (get "cidr" z.0)) _ a.2 in
      ap (λ m. text_among workload_roles (get "role" m)) (sym (ok-injective c.2))
      ∙ check-eq-ok _ _ r.1

  -- Every key of the inventory's zones is a zone.
  check_zones-Declares :
      (zones : Mapping) (checked : List (String × Mapping)) (key : String)
      → check_zones addresses (entries zones) ≡ ok checked
      → has_key key zones ≡ true
      → Declares checked key
  unfolding check_zones
  check_zones-Declares Mapping.no_entries checked key h k = cc
  check_zones-Declares (Mapping.bind name v rest) checked key h k =
      let z = >>=-Returned (check_zone addresses name v) _ h in
      let o = >>=-Returned (check_zones addresses (entries rest)) _ z.2 in
      subst (λ zs. Declares zs key) (ok-injective o.2)
        (elim (Bool-cases (name =ₛ key)) [
          | inl same ↦ (
            z.0,
            ap (λ b. if b then some z.0 else lookup key o.0) same,
            check_zone-role name v z.0 z.1,
          )
          | inr other ↦
              let r = check_zones-Declares rest o.0 key o.1 (there_later name v rest key other k) in
              (r.0, ap (λ b. if b then some z.0 else lookup key o.0) other ∙ r.1, r.2)
        ])

-- An alias that stands for a zone of the inventory.
abbrev pub StandsFor : Mapping → List (String × String) → String → Type 0
StandsFor zones aliases key =
    (target : String) × (lookup key aliases ≡ some target) × (has_key target zones ≡ true)

abbrev Unnamed : List (String × String) → String → Type 0
Unnamed aliases key = lookup key aliases ≡ none

module _ (addresses : Addresses) (zones : Mapping) where
  -- An alias of the inventory's stands for a zone, and no other name is an alias.
  check_aliases-StandsFor :
      (aliases : Mapping) (checked : List (String × String)) (key : String)
      → check_aliases addresses zones (entries aliases) ≡ ok checked
      → (has_key key aliases ≡ true → StandsFor zones checked key)
        × (has_key key aliases ≡ false → Unnamed checked key)
  unfolding check_aliases
  check_aliases-StandsFor Mapping.no_entries checked key h =
      ((λ k. cc), λ k. ap (lookup key) (sym (ok-injective h)))
  check_aliases-StandsFor (Mapping.bind name v rest) checked key h =
      let i = >>=-Returned (validate_id (Value.text name)) _ h in
      let j = >>=-Returned (validate_id v) _ i.2 in
      let t = >>=-Returned (as_text v) _ j.2 in
      let c = >>=-Returned (check (has_key t.0 zones) _) _ t.2 in
      let o = >>=-Returned (check_aliases addresses zones (entries rest)) _ c.2 in
      let r = check_aliases-StandsFor rest o.0 key o.1 in
      subst
        (λ pairs.
          (has_key key (Mapping.bind name v rest) ≡ true → StandsFor zones pairs key)
          × (has_key key (Mapping.bind name v rest) ≡ false → Unnamed pairs key))
        (ok-injective o.2)
        (elim (Bool-cases (name =ₛ key)) [
          | inl same ↦ (
            (λ k.
                (t.0, ap (λ b. if b then some t.0 else lookup key o.0) same, check-eq-ok _ _ c.1)),
            λ k. absurd (true-ne-false (there_now name v rest key same) k),
          )
          | inr other ↦
              let skip = ap (λ b. if b then some t.0 else lookup key o.0) other in
              (
                (λ k. let q = r.0 (there_later name v rest key other k) in (q.0, skip ∙ q.1, q.2)),
                λ k. skip ∙ r.1 (there_later name v rest key other k),
              )
        ])
    where
      true-ne-false : {b : Bool} → b ≡ true → b ≡ false → ⊥
      true-ne-false e f = cc

-- A name that is not empty resolves where its canonical name is that of a zone.
abbrev pub Resolves : Topology → String → Type 0
Resolves topology s =
    (r : String × Mapping) × (resolve_zone (Value.text s) topology ≡ ok r)
    × (text_among workload_roles (get "role" r.1) ≡ true)

resolved :
    (topology : Topology) (s : String)
    → s =ₛ "" ≡ false
    → Declares topology.zones (canonical_zone topology s)
    → Resolves topology s
unfolding resolve_zone
resolved topology s e d = ((canonical_zone topology s, d.0), rw e (rw d.1 refl), d.2)

-- Where an inventory is accepted as a topology, each name of its zones and each of its zone aliases,
-- unless it is empty, resolves to a zone, which has one of the workload roles.
pub load_topology_sound :
    (addresses : Addresses) (inventory_vars : Mapping) (topology : Topology)
    → load_topology addresses inventory_vars ≡ ok topology
    → (zones : Mapping) × (aliases : Mapping) × (or_else
          (get "platform_zones" inventory_vars)
          no_mapping
        ≡ Value.mapping zones)
      × (or_else (get "platform_zone_aliases" inventory_vars) no_mapping ≡ Value.mapping aliases)
      × ((s : String)
          → s =ₛ "" ≡ false
          → (has_key s aliases || has_key s zones) ≡ true
          → Resolves topology s)
unfolding load_topology
load_topology_sound addresses vars topology h =
    let part = λ (key : String). or_else (get key vars) no_mapping in
    let z =
      >>=-Returned
        (as_mapping (died "platform_zones must be a non-empty mapping") (part "platform_zones")) _
        h in
    let n = >>=-Returned (check (has_entries z.0) _) _ z.2 in
    let a =
      >>=-Returned
        (as_mapping (died "platform_zone_aliases must be a mapping") (part "platform_zone_aliases"))
        _ n.2 in
    let c =
      >>=-Returned
        (as_mapping (died "platform_control_zones must be a mapping")
          (part "platform_control_zones"))
        _ a.2 in
    let r =
      >>=-Returned
        (as_mapping (died "platform_network_realms must be a mapping")
          (part "platform_network_realms"))
        _ c.2 in
    let cz = >>=-Returned (check_zones addresses (entries z.0)) _ r.2 in
    let co = >>=-Returned (check_ops_zone addresses (or_else (get "ops" c.0) no_mapping)) _ cz.2 in
    let ca = >>=-Returned (check_aliases addresses z.0 (entries a.0)) _ co.2 in
    let k = >>=-Returned (check (has_key "wan" r.0 && has_key "lan" r.0) _) _ ca.2 in
    let cr = >>=-Returned (check_realms addresses (entries r.0)) _ k.2 in
    (
      z.0,
      a.0,
      as_mapping-eq-ok _ _ z.0 z.1,
      as_mapping-eq-ok _ _ a.0 a.1,
      λ s e named.
          subst (λ t. Resolves t s) (ok-injective cr.2)
            (resolved _ s e (elim (Bool-cases (has_key s a.0)) [
              | inl alias ↦
                  let q = (check_aliases-StandsFor addresses z.0 a.0 ca.0 s ca.1).0 alias in
                  canonical_lem ca.0 cz.0 s q.0 q.1
                    (check_zones-Declares addresses z.0 cz.0 q.0 cz.1 q.2)
              | inr other ↦
                  let q = (check_aliases-StandsFor addresses z.0 a.0 ca.0 s ca.1).1 other in
                  plain_lem ca.0 cz.0 s q (
                    check_zones-Declares addresses z.0 cz.0 s cz.1
                      (ap (λ b. b || has_key s z.0) (sym other) ∙ named))
            ])),
    )
  where
    canonical_lem :
        (aliases : List (String × String)) (zones : List (String × Mapping)) (s target : String)
        → lookup s aliases ≡ some target
        → Declares zones target
        → Declares zones (elim (lookup s aliases) [ none ↦ s | some t ↦ t ])
    canonical_lem aliases zones s target e d = rw e d

    plain_lem :
        (aliases : List (String × String)) (zones : List (String × Mapping)) (s : String)
        → lookup s aliases ≡ none
        → Declares zones s
        → Declares zones (elim (lookup s aliases) [ none ↦ s | some t ↦ t ])
    plain_lem aliases zones s e d = rw e d
