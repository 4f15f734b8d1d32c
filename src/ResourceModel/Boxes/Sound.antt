-- ===== src/ResourceModel/Boxes/Sound.antt =====
-- What the configuration of the boxes satisfies.
use klokast_box.Prelude.{
  ℕ, String, ◌≡◌, refl, sym, ap, subst, ◌∙◌, Bool, true, false, not, ◌&&◌, Option, none, some, List,
  [], ◌∷◌, ◌++◌, ◌=ₛ◌, eq_iff, elem, All, distinct, arith, Bool-cases, inl, inr, and-eq-true,
}
use klokast_box.Prelude.Distinct.{distinct_append}
use klokast_box.Checks.{ok, check, >>=-Returned, check-eq-ok, check-not-eq-ok, ok-injective}
use klokast_box.ResourceModel.{Value, Mapping, died}
use klokast_box.ResourceModel.Values.{
  get, get_or, entries, truthy, or_else, no_mapping, no_list, as_mapping, as_list,
}
use klokast_box.ResourceModel.TextLists.{all_distinct, in_list, distinct-append}
use klokast_box.ResourceModel.Names.{Addresses, same_codes, validate_box, validate_iface}
use klokast_box.ResourceModel.Access.{normalize_box_access, none_as_mapping}
use klokast_box.ResourceModel.Access.Normal.{IsNormal, normalize_box_access-IsNormal}
use klokast_box.ResourceModel.Topology.{Topology, canonical_zone, as_text}
use klokast_box.ResourceModel.Boxes.{
  Reservation, BoxConfig, box_config_fields, keys_within, append_new, add_port, add_ports,
  is_bridge_key, bridge_ports, is_taken, read_reservation, read_reservations, is_public,
  default_dns, resolver_pair, text_of, two_resolvers, bootstrap_dns, read_shared_guests, read_box,
  read_boxes, registry_box_configs,
}

codes_symmetric : (s t : List ℕ) → same_codes s t ≡ same_codes t s
codes_symmetric [] [] = refl
codes_symmetric [] (d ∷ t) = refl
codes_symmetric (c ∷ s) [] = refl
codes_symmetric (c ∷ s) (d ∷ t) = ground (arith, codes_symmetric s t)

taken_symmetric : (a b : Reservation) → is_taken a b ≡ is_taken b a
taken_symmetric a b = ground (
  arith,
  eq_iff a.hostname b.hostname,
  eq_iff b.hostname a.hostname,
  codes_symmetric a.mac b.mac,
  eq_iff a.ipv4_address b.ipv4_address,
  eq_iff b.ipv4_address a.ipv4_address,
)

not-eq-true : (b : Bool) → not b ≡ true → b ≡ false
not-eq-true b h = ground arith

-- The port lists of the bridges, each without repetitions.
abbrev pub PortsApart : List (String × List String) → Type 0
PortsApart m = All (λ (entry : String × List String). all_distinct entry.1 ≡ true) m

append_new-distinct :
    (port : String) (ports : List String)
    → all_distinct ports ≡ true
    → all_distinct (append_new port ports) ≡ true
append_new-distinct port ports d = elim (Bool-cases (in_list port ports)) [
  | inl there ↦ rw there d
  | inr new ↦ rw new (distinct-append port ports new d)
]

add_port-PortsApart :
    (key port : String) (m : List (String × List String))
    → PortsApart m
    → PortsApart (add_port key port m)
unfolding add_port
add_port-PortsApart key port [] h = (refl, tt)
add_port-PortsApart key port ((k, ports) ∷ rest) h = elim (Bool-cases (k =ₛ key)) [
  | inl same ↦ rw same (append_new-distinct port ports h.0, h.1)
  | inr other ↦ rw other (h.0, add_port-PortsApart key port rest h.1)
]

add_ports-PortsApart :
    (key : String) (values : List Value) (m out : List (String × List String))
    → add_ports key values m ≡ ok out
    → PortsApart m
    → PortsApart out
unfolding add_ports
add_ports-PortsApart key [] m out h a = subst PortsApart (ok-injective h) a
add_ports-PortsApart key (value ∷ rest) m out h a =
    let v = >>=-Returned (validate_iface value) _ h in
    let p = >>=-Returned (as_text value) _ v.2 in
    add_ports-PortsApart key rest (add_port key p.0 m) out p.2 (add_port-PortsApart key p.0 m a)

bridge_ports-PortsApart :
    (topology : Topology) (given : List (String × Value)) (m out : List (String × List String))
    → bridge_ports topology given m ≡ ok out
    → PortsApart m
    → PortsApart out
unfolding bridge_ports
bridge_ports-PortsApart topology [] m out h a = subst PortsApart (ok-injective h) a
bridge_ports-PortsApart topology ((key, value) ∷ rest) m out h a =
    let b = >>=-Returned (check (is_bridge_key topology key) _) _ h in
    let l =
      >>=-Returned (as_list (died "dom0_bridge_ports must be a non-empty list") value) _ b.2 in
    let t = >>=-Returned (check (truthy value) _) _ l.2 in
    let p = >>=-Returned (add_ports (canonical_zone topology key) l.0 m) _ t.2 in
    bridge_ports-PortsApart topology rest p.0 out p.2
      (add_ports-PortsApart (canonical_zone topology key) l.0 m p.0 p.1 a)

module _ (addresses : Addresses) where
  read_reservations-distinct :
      (seen : List Reservation) (values : List Value) (out : List Reservation)
      → read_reservations addresses seen values ≡ ok out
      → distinct is_taken seen ≡ true
      → distinct is_taken out ≡ true
  unfolding read_reservations
  read_reservations-distinct seen [] out h d = ap (distinct is_taken) (sym (ok-injective h)) ∙ d
  read_reservations-distinct seen (value ∷ rest) out h d =
      let r = >>=-Returned (read_reservation addresses value) _ h in
      let c = >>=-Returned (check (not (elem is_taken r.0 seen)) _) _ r.2 in
      read_reservations-distinct (seen ++ r.0 ∷ []) rest out c.2
        (distinct_append is_taken taken_symmetric r.0 seen (check-not-eq-ok _ _ c.1) d)

  -- Two different public resolvers.
  abbrev pub Resolvers : Option (String × String) → Type 0
  Resolvers none = ⊥
  Resolvers (some (s, t)) =
      (is_public addresses s ≡ true) × (is_public addresses t ≡ true) × ((s =ₛ t) ≡ false)

  -- What a configuration of a box satisfies.
  pub record IsSound (config : BoxConfig) : Type 0 where
    pub resolvers : Resolvers config.bootstrap_dns
    pub access : IsNormal config.access
    pub reservations : distinct is_taken config.dhcp_reservations ≡ true
    pub ports : PortsApart config.dom0_bridge_ports

  resolver_pair-Resolvers :
      (a b : Option String) (pair : String × String)
      → resolver_pair addresses a b ≡ ok pair
      → Resolvers (some pair)
  unfolding resolver_pair
  resolver_pair-Resolvers (some s) (some t) pair h =
      let c =
        >>=-Returned (check (is_public addresses s && is_public addresses t && not (s =ₛ t)) _) _
          h in
      let p =
        and-eq-true (is_public addresses s && is_public addresses t) _ (check-eq-ok _ _ c.1) in
      let q = and-eq-true (is_public addresses s) _ p.0 in
      subst (λ x. Resolvers (some x)) (ok-injective c.2) (q.0, q.1, not-eq-true _ p.1)
  resolver_pair-Resolvers (some s) none pair h = cc
  resolver_pair-Resolvers none (some t) pair h = cc
  resolver_pair-Resolvers none none pair h = cc

  two_resolvers-Resolvers :
      (values : List Value) (pair : String × String)
      → two_resolvers addresses values ≡ ok pair
      → Resolvers (some pair)
  unfolding two_resolvers
  two_resolvers-Resolvers (v ∷ w ∷ []) pair h =
      resolver_pair-Resolvers (text_of v) (text_of w) pair h
  two_resolvers-Resolvers [] pair h = cc
  two_resolvers-Resolvers (v ∷ []) pair h = cc
  two_resolvers-Resolvers (v ∷ w ∷ x ∷ rest) pair h = cc

  bootstrap_dns-Resolvers :
      (config : Mapping) (pair : String × String)
      → bootstrap_dns addresses config ≡ ok pair
      → Resolvers (some pair)
  unfolding bootstrap_dns
  bootstrap_dns-Resolvers config pair h =
      let l =
        >>=-Returned
          (as_list (died "bootstrap DNS requires two distinct public IPv4 resolvers")
            (get_or "bootstrap_dns" (default_dns addresses) config))
          (two_resolvers addresses) h in
      two_resolvers-Resolvers l.0 pair l.2

module _ (addresses : Addresses) (topology : Topology) where
  read_box-IsSound :
      (box : String) (value : Value) (out : BoxConfig)
      → read_box addresses topology box value ≡ ok out
      → IsSound addresses out
  unfolding read_box
  read_box-IsSound box value out h =
      let v = >>=-Returned (validate_box (Value.text box)) _ h in
      let m = >>=-Returned (as_mapping (died "must be a mapping") (none_as_mapping value)) _ v.2 in
      let k = >>=-Returned (check (keys_within box_config_fields m.0) _) _ m.2 in
      let b =
        >>=-Returned
          (as_mapping (died "dom0_bridge_ports must be a mapping")
            (or_else (get "dom0_bridge_ports" m.0) no_mapping))
          _ k.2 in
      let p = >>=-Returned (bridge_ports topology (entries b.0) []) _ b.2 in
      let l =
        >>=-Returned
          (as_list (died "dhcp_reservations must be a list")
            (or_else (get "dhcp_reservations" m.0) no_list))
          _ p.2 in
      let r = >>=-Returned (read_reservations addresses [] l.0) _ l.2 in
      let g =
        >>=-Returned
          (as_mapping (died "shared_guests must be a mapping")
            (or_else (get "shared_guests" m.0) no_mapping))
          _ r.2 in
      let s = >>=-Returned (read_shared_guests g.0) _ g.2 in
      let d = >>=-Returned (bootstrap_dns addresses m.0) _ s.2 in
      let a = >>=-Returned (normalize_box_access (get "access" m.0)) _ d.2 in
      subst (IsSound addresses) (ok-injective a.2) (record {
        resolvers = bootstrap_dns-Resolvers addresses m.0 d.0 d.1;
        access = normalize_box_access-IsNormal (get "access" m.0) a.0 a.1;
        reservations = read_reservations-distinct addresses [] l.0 r.0 r.1 refl;
        ports = bridge_ports-PortsApart topology (entries b.0) [] p.0 p.1 tt;
      })

  abbrev pub AllSound : List (String × BoxConfig) → Type 0
  AllSound configs = All (λ (entry : String × BoxConfig). IsSound addresses entry.1) configs

  read_boxes-AllSound :
      (boxes : List (String × Value)) (out : List (String × BoxConfig))
      → read_boxes addresses topology boxes ≡ ok out
      → AllSound out
  unfolding read_boxes
  read_boxes-AllSound [] out h = subst AllSound (ok-injective h) tt
  read_boxes-AllSound ((box, value) ∷ rest) out h =
      let b = >>=-Returned (read_box addresses topology box value) _ h in
      let o = >>=-Returned (read_boxes addresses topology rest) _ b.2 in
      subst AllSound (ok-injective o.2)
        (read_box-IsSound box value b.0 b.1, read_boxes-AllSound rest o.0 o.1)

  -- Where the configuration of the boxes is accepted, each box has two different public resolvers,
  -- a normal access, no two reservations with the same hostname, hardware address or address, and
  -- no bridge that lists a port twice.
  pub registry_box_configs_sound :
      (registry : Mapping) (configs : List (String × BoxConfig))
      → registry_box_configs addresses topology registry ≡ ok configs
      → AllSound configs
  unfolding registry_box_configs
  registry_box_configs_sound registry configs h =
      let m =
        >>=-Returned
          (as_mapping (died "boxes must be a mapping") (or_else (get "boxes" registry) no_mapping))
          _ h in
      read_boxes-AllSound (entries m.0) configs m.2
