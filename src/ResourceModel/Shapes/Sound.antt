-- ===== src/ResourceModel/Shapes/Sound.antt =====
-- What an accepted network resource asks for.
use klokast_box.Prelude.{
  ℕ, String, ◌≡◌, refl, sym, subst, eq_iff, Bool, Option, none, ◌∙◌, ◌⊎◌, inl, inr, true, false,
  not, ◌||◌, some, List, ◌=ₛ◌, All, all, and-eq-true,
}
use klokast_box.Prelude.Text.{codes}
use klokast_box.Checks.{
  ok, check, >>=-Returned, or_raise, check-eq-ok, check-not-eq-ok, or_raise-eq-ok, each-eq-ok,
  if-eq-ok, ok-injective,
}
use klokast_box.ResourceModel.{Value, Mapping, crashed}
use klokast_box.ResourceModel.Values.{get, key_list, truthy, text_is, is_hashable}
use klokast_box.ResourceModel.Names.{
  is_id, is_user_field, text_fits, validate_id, validate_user_field,
}
use klokast_box.ResourceModel.Ports.{HasPorts, validate_ports, validate_ports-HasPorts}
use klokast_box.ResourceModel.Fields.{
  reject_raw_network_fields, raw_network_fields, keys, admit, admit-eq-ok, reject_named_fields,
}
use klokast_box.ResourceModel.Access.{reject_unknown_fields, validate_resource_access}
use klokast_box.ResourceModel.TextLists.{in_list}
use klokast_box.ResourceModel.Topology.{
  Topology, lookup, canonical_zone, resolve_zone, resolve_realm, if_truthy,
}
use klokast_box.ResourceModel.Shapes.{
  NetworkType, network_type_of, network_fields, type_from, read_type, check_ports, ports_of,
  check_egress_ports, check_network_type, validate_network_resource_shape,
}

-- The name of a zone that a text stands for: what the aliases have for it, or the text itself.
abbrev pub StandsForZone : Topology → String → String → Type 0
StandsForZone topology s name =
    (lookup s topology.aliases ≡ some name) ⊎ ((lookup s topology.aliases ≡ none) × (name ≡ s))

-- A value that names a zone of the topology, by the zone's own name.
abbrev pub NamesZone : Topology → Value → String → Type 0
NamesZone topology v name =
    (s : String) × (zone : Mapping) × (v ≡ Value.text s)
    × StandsForZone topology s name
    × (lookup name topology.zones ≡ some zone)

abbrev pub IsZone : Topology → Value → Type 0
IsZone topology v = (name : String) × NamesZone topology v name

-- A value that names a realm of the topology, which has a network.
abbrev pub IsRealm : Topology → Value → Type 0
IsRealm topology v =
    (s : String) × (realm : Mapping) × (v ≡ Value.text s)
    × (lookup s topology.realms ≡ some realm)
    × (truthy (get "cidr" realm) ≡ true)

-- A value that is a text of a form.
abbrev pub IsText : (List ℕ → Bool) → Value → Type 0
IsText p v = (s : String) × (v ≡ Value.text s) × (p (codes s) ≡ true)

-- A list of ports may be left out.
abbrev pub MayHavePorts : Value → Type 0
MayHavePorts v = (truthy v ≡ false) ⊎ HasPorts v

-- The two lists of an egress, one of which is there.
abbrev pub Egress : Mapping → Type 0
Egress resource =
    MayHavePorts (get "tcp_ports" resource)
    × MayHavePorts (get "udp_ports" resource)
    × ((truthy (get "tcp_ports" resource) || truthy (get "udp_ports" resource)) ≡ true)

-- Two values that name different zones.
abbrev pub Apart : Topology → Value → Value → Type 0
Apart topology v w =
    (a : String) × (b : String) × NamesZone topology v a × NamesZone topology w b × (a =ₛ b ≡ false)

-- What a network resource of each type reaches, for an application.
abbrev pub Reaches : String → Topology → NetworkType → Mapping → Type 0
Reaches app_name topology NetworkType.rg_lan_ipp r =
    (app_name ≡ "print-server") × (text_is "rg-lan" (get "requires_capability" r) ≡ true)
Reaches app_name topology NetworkType.interzone_tcp r =
    Apart topology (get "from_zone" r) (get "to_zone" r)
    × (((truthy (get "ports_from_user" r) ≡ true)
          × (IsText is_user_field (get "ports_from_user" r)))
        ⊎ HasPorts (ports_of r))
Reaches app_name topology NetworkType.realm_to_zone_tcp r =
    IsRealm topology (get "from_realm" r)
    × IsZone topology (get "to_zone" r)
    × HasPorts (ports_of r)
Reaches app_name topology NetworkType.wan_egress r = IsZone topology (get "from_zone" r) × Egress r
Reaches app_name topology NetworkType.zone_to_device_tcp r =
    IsZone topology (get "from_zone" r) × IsText is_id (get "device" r) × HasPorts (ports_of r)
Reaches app_name topology NetworkType.device_to_zone_tcp r =
    IsText is_id (get "device" r) × IsZone topology (get "to_zone" r) × HasPorts (ports_of r)
Reaches app_name topology NetworkType.device_wan_egress r = IsText is_id (get "device" r) × Egress r
Reaches app_name topology NetworkType.tailnet_tcp r = Unit {0}

-- What is looked up stands where a name was resolved.
resolve_zone-NamesZone :
    (topology : Topology) (v : Value) (z : String × Mapping)
    → resolve_zone v topology ≡ ok z
    → NamesZone topology v z.0
unfolding resolve_zone
resolve_zone-NamesZone topology (Value.text s) z h =
    let n = >>=-Returned (check (not (s =ₛ "")) _) _ h in
    let l = >>=-Returned (or_raise (lookup (canonical_zone topology s) topology.zones) _) _ n.2 in
    subst (λ x. NamesZone topology (Value.text s) x.0) (ok-injective l.2)
      (s, l.0, refl, stands (lookup s topology.aliases) refl, or_raise-eq-ok _ _ l.1)
  where
    stands :
        (o : Option String)
        → lookup s topology.aliases ≡ o
        → StandsForZone topology s (canonical_zone topology s)
    stands none e = inr (e, rw (e, canonical_zone) refl)
    stands (some t) e = inl (e ∙ rw (e, canonical_zone) refl)
resolve_zone-NamesZone topology (Value.integer n) w h = cc
resolve_zone-NamesZone topology (Value.negative n) w h = cc
resolve_zone-NamesZone topology (Value.boolean b) w h = cc
resolve_zone-NamesZone topology Value.empty w h = cc
resolve_zone-NamesZone topology (Value.sequence q) w h = cc
resolve_zone-NamesZone topology (Value.mapping m) w h = cc
resolve_zone-NamesZone topology (Value.other_scalar t z) w h = cc

resolve_realm-IsRealm :
    (topology : Topology) (v : Value) (r : String × Mapping)
    → resolve_realm v topology true ≡ ok r
    → IsRealm topology v
unfolding resolve_realm
resolve_realm-IsRealm topology (Value.text s) r h =
    let n = >>=-Returned (check (not (s =ₛ "")) _) _ h in
    let l = >>=-Returned (or_raise (lookup s topology.realms) _) _ n.2 in
    let c = >>=-Returned (check (truthy (get "cidr" l.0)) _) _ l.2 in
    (s, l.0, refl, or_raise-eq-ok _ _ l.1, check-eq-ok _ _ c.1)
resolve_realm-IsRealm topology (Value.integer n) w h = cc
resolve_realm-IsRealm topology (Value.negative n) w h = cc
resolve_realm-IsRealm topology (Value.boolean b) w h = cc
resolve_realm-IsRealm topology Value.empty w h = cc
resolve_realm-IsRealm topology (Value.sequence q) w h = cc
resolve_realm-IsRealm topology (Value.mapping m) w h = cc
resolve_realm-IsRealm topology (Value.other_scalar t z) w h = cc

text_fits-IsText : (p : List ℕ → Bool) (v : Value) → text_fits p v ≡ true → IsText p v
text_fits-IsText p (Value.text s) h = (s, refl, h)
text_fits-IsText p (Value.integer n) h = cc
text_fits-IsText p (Value.negative n) h = cc
text_fits-IsText p (Value.boolean b) h = cc
text_fits-IsText p Value.empty h = cc
text_fits-IsText p (Value.sequence q) h = cc
text_fits-IsText p (Value.mapping m) h = cc
text_fits-IsText p (Value.other_scalar t z) h = cc

validate_id-IsText : (v : Value) → validate_id v ≡ ok tt → IsText is_id v
unfolding validate_id
validate_id-IsText v h = text_fits-IsText is_id v (check-eq-ok _ _ h)

validate_user_field-IsText : (v : Value) → validate_user_field v ≡ ok tt → IsText is_user_field v
unfolding validate_user_field
validate_user_field-IsText v h = text_fits-IsText is_user_field v (check-eq-ok _ _ h)

check_ports-HasPorts : (v : Value) → check_ports v ≡ ok tt → HasPorts v
check_ports-HasPorts v h =
    let p = >>=-Returned (validate_ports v) _ h in validate_ports-HasPorts v p.0 p.1

if_truthy-MayHavePorts : (v : Value) → if_truthy check_ports v ≡ ok tt → MayHavePorts v
if_truthy-MayHavePorts v h = elim (if-eq-ok (truthy v) _ _ h) [
  | inl there ↦ inr (check_ports-HasPorts v there.1)
  | inr empty_value ↦ inl empty_value.0
]

check_egress_ports-Egress : (r : Mapping) → check_egress_ports r ≡ ok tt → Egress r
unfolding check_egress_ports
check_egress_ports-Egress r h =
    let t = >>=-Returned (if_truthy check_ports (get "tcp_ports" r)) _ h in
    let u = >>=-Returned (if_truthy check_ports (get "udp_ports" r)) _ t.2 in
    (if_truthy-MayHavePorts _ t.1, if_truthy-MayHavePorts _ u.1, check-eq-ok _ _ u.2)

check_network_type-Reaches :
    (app_name : String) (topology : Topology) (type : NetworkType) (r : Mapping)
    → check_network_type app_name topology type r ≡ ok tt
    → Reaches app_name topology type r
unfolding check_network_type
check_network_type-Reaches app_name topology NetworkType.rg_lan_ipp r h =
    let both = and-eq-true (app_name =ₛ "print-server") _ (check-eq-ok _ _ h) in
    ((eq_iff app_name "print-server").0 both.0, both.1)
check_network_type-Reaches app_name topology NetworkType.interzone_tcp r h =
    let s = >>=-Returned (resolve_zone (get "from_zone" r) topology) _ h in
    let t = >>=-Returned (resolve_zone (get "to_zone" r) topology) _ s.2 in
    let d = >>=-Returned (check (not (s.0.0 =ₛ t.0.0)) _) _ t.2 in
    (
      (
        s.0.0,
        t.0.0,
        resolve_zone-NamesZone topology _ s.0 s.1,
        resolve_zone-NamesZone topology _ t.0 t.1,
        check-not-eq-ok _ _ d.1,
      ),
      elim (if-eq-ok (truthy (get "ports_from_user" r)) _ _ d.2) [
        | inl user ↦ inl (user.0, validate_user_field-IsText _ user.1)
        | inr plain ↦ inr (check_ports-HasPorts (ports_of r) plain.1)
      ],
    )
check_network_type-Reaches app_name topology NetworkType.realm_to_zone_tcp r h =
    let s = >>=-Returned (resolve_realm (get "from_realm" r) topology true) _ h in
    let t = >>=-Returned (resolve_zone (get "to_zone" r) topology) _ s.2 in
    (
      resolve_realm-IsRealm topology _ s.0 s.1,
      (t.0.0, resolve_zone-NamesZone topology _ t.0 t.1),
      check_ports-HasPorts (ports_of r) t.2,
    )
check_network_type-Reaches app_name topology NetworkType.wan_egress r h =
    let s = >>=-Returned (resolve_zone (get "from_zone" r) topology) _ h in
    ((s.0.0, resolve_zone-NamesZone topology _ s.0 s.1), check_egress_ports-Egress r s.2)
check_network_type-Reaches app_name topology NetworkType.zone_to_device_tcp r h =
    let s = >>=-Returned (resolve_zone (get "from_zone" r) topology) _ h in
    let d = >>=-Returned (validate_id (get "device" r)) _ s.2 in
    (
      (s.0.0, resolve_zone-NamesZone topology _ s.0 s.1),
      validate_id-IsText _ d.1,
      check_ports-HasPorts (ports_of r) d.2,
    )
check_network_type-Reaches app_name topology NetworkType.device_to_zone_tcp r h =
    let d = >>=-Returned (validate_id (get "device" r)) _ h in
    let s = >>=-Returned (resolve_zone (get "to_zone" r) topology) _ d.2 in
    (
      validate_id-IsText _ d.1,
      (s.0.0, resolve_zone-NamesZone topology _ s.0 s.1),
      check_ports-HasPorts (ports_of r) s.2,
    )
check_network_type-Reaches app_name topology NetworkType.device_wan_egress r h =
    let d = >>=-Returned (validate_id (get "device" r)) _ h in
    (validate_id-IsText _ d.1, check_egress_ports-Egress r d.2)
check_network_type-Reaches app_name topology NetworkType.tailnet_tcp r h = tt

-- Where a network resource is accepted, it has one of the network types, no key of the raw network
-- set at any depth and no key but those of its type, and it has what its type needs: zones that the
-- topology declares under their name or under what an alias has for it, two different ones between
-- zones; a realm that the topology declares with a network; the id of a device; and lists of ports
-- that are valid, or the name of a user's field in their place between zones. The type for printers
-- is the application `print-server`'s alone.
pub validate_network_resource_shape_sound :
    (app_name : String) (topology : Topology) (resource : Mapping)
    → validate_network_resource_shape app_name topology resource ≡ ok tt
    → (type : NetworkType) × (type_from network_type_of (get "type" resource) ≡ some type)
      × All (λ key. in_list key raw_network_fields ≡ false) (keys (Value.mapping resource))
      × (all (λ key. in_list key (network_fields type)) (key_list resource) ≡ true)
      × Reaches app_name topology type resource
unfolding validate_network_resource_shape read_type reject_unknown_fields
validate_network_resource_shape_sound app_name topology resource h =
    let i = >>=-Returned (validate_id (get "id" resource)) _ h in
    let r = >>=-Returned (reject_raw_network_fields (Value.mapping resource)) _ i.2 in
    let t =
      >>=-Returned
        (read_type network_type_of "unsupported network resource type" (get "type" resource)) _
        r.2 in
    let t1 = >>=-Returned (check (is_hashable (get "type" resource)) (crashed "TypeError")) _ t.1 in
    let u =
      >>=-Returned (reject_unknown_fields (network_fields t.0) (Value.mapping resource)) _ t.2 in
    let a = >>=-Returned (validate_resource_access resource) _ u.2 in
    (
      t.0,
      or_raise-eq-ok _ _ t1.2,
      admit-eq-ok raw_network_fields _ (
          each-eq-ok (admit raw_network_fields) _
            (sym (reject_named_fields (Value.mapping resource)).0 ∙ r.1)),
      check-eq-ok _ _ u.1,
      check_network_type-Reaches app_name topology t.0 resource a.2,
    )
