-- ===== src/ResourceModel/Users/Sound.antt =====
-- What the users of an application satisfy.
use klokast_box.Prelude.{
  ◌||◌, all, String, ◌≡◌, sym, ap, subst, ◌∙◌, ◌⊎◌, inl, inr, Bool, false, some, List, [], ◌∷◌,
  ◌=ₛ◌, elem, All, arith,
}
use klokast_box.Checks.{ok, check, or_raise, >>=-Returned, or_raise-eq-ok, ok-injective, if-eq-ok}
use klokast_box.ResourceModel.{Value, Mapping, died, crashed}
use klokast_box.ResourceModel.Inversion.{as_text-eq-ok}
use klokast_box.ResourceModel.Values.{
  text_is, get_or, no_list, iterate, is_hashable, find, get, has_entries, truthy, as_list,
}
use klokast_box.ResourceModel.Names.{Addresses}
use klokast_box.ResourceModel.Topology.{Topology, lookup, as_text}
use klokast_box.ResourceModel.Placement.{has_some, per_user_app_vm_resources}
use klokast_box.ResourceModel.Users.{
  user_fields_referenced_by_network, User, zone_address, reserved_ips, is_reserved, select_users,
  selected_users,
}
use klokast_box.ResourceModel.Users.Kept.{IsGranted, Kept, read_users-Kept, no_users}

-- The zone has a text under a key, an address that no user has.
pub record IsLeft (addresses : Addresses) (zone : Mapping) (key : String) (users : List User)
    : Type 0 where
  pub address : String
  pub found : find key zone ≡ some (Value.text address)
  pub free : All (λ u. (u.vm_ipv4_address =ₛ addresses.canonical address) ≡ false) users

zone_address-found :
    (addresses : Addresses) (key : String) (zone : Mapping) (canonical : String)
    → zone_address addresses key zone ≡ ok canonical
    → (s : String) × (find key zone ≡ some (Value.text s)) × (addresses.canonical s ≡ canonical)
unfolding zone_address
zone_address-found addresses key zone canonical h =
    let v = >>=-Returned (or_raise (find key zone) (crashed "KeyError")) _ h in
    let s = >>=-Returned (as_text v.0) _ v.2 in
    let c = >>=-Returned (check (addresses.is_address s.0) _) _ s.2 in
    (s.0, or_raise-eq-ok _ _ v.1 ∙ ap some (as_text-eq-ok v.0 s.0 s.1), ok-injective c.2)

-- An address that is among the reserved ones is no user's.
granted-free :
    (addresses : Addresses) (zone : Mapping) (reserved : List Value) (canonical : String)
    → ((ip : String) → is_reserved addresses ip reserved ≡ false → (ip =ₛ canonical) ≡ false)
    → (users : List User) → All (IsGranted addresses zone reserved) users
    → All (λ u. (u.vm_ipv4_address =ₛ canonical) ≡ false) users
granted-free addresses zone reserved canonical apart [] h = tt
granted-free addresses zone reserved canonical apart (u ∷ us) h = (
  apart u.vm_ipv4_address h.0.not_reserved,
  granted-free addresses zone reserved canonical apart us h.1,
)

either_false : (a b : Bool) → (a || b) ≡ false → (a ≡ false) × (b ≡ false)
either_false a b h = ground arith

reserved_ips-IsLeft :
    (addresses : Addresses) (zone : Mapping) (reserved : List Value) (users : List User)
    → reserved_ips addresses zone ≡ ok reserved
    → All (IsGranted addresses zone reserved) users
    → IsLeft addresses zone "router_ipv4_address" users
      × IsLeft addresses zone "vm_ipv4_address" users
unfolding reserved_ips
reserved_ips-IsLeft addresses zone reserved users h granted =
    let r = >>=-Returned (zone_address addresses "router_ipv4_address" zone) _ h in
    let m = >>=-Returned (zone_address addresses "vm_ipv4_address" zone) _ r.2 in
    let more = >>=-Returned (iterate (get_or "reserved_ipv4_addresses" no_list zone)) _ m.2 in
    let c = >>=-Returned (check (all is_hashable more.0) (crashed "TypeError")) _ more.2 in
    let all_of : (Value.text r.0 ∷ Value.text m.0 ∷ more.0) ≡ reserved = ok-injective c.2 in
    let apart : (ip : String)
        → is_reserved addresses ip reserved ≡ false
        → ((ip =ₛ r.0) ≡ false) × ((ip =ₛ m.0) ≡ false) =
      λ ip e.
        let parts =
          either_false _ _ (subst (λ x. is_reserved addresses ip x ≡ false) (sym all_of) e) in
        (other ip r.0 parts.0, other ip m.0 (either_false _ _ parts.1).0) in
    (
      left "router_ipv4_address" r.0 r.1 (λ ip e. (apart ip e).0),
      left "vm_ipv4_address" m.0 m.1 (λ ip e. (apart ip e).1),
    )
  where
    other : (ip t : String) → text_is ip (Value.text t) ≡ false → (ip =ₛ t) ≡ false
    other ip t e = e

    left :
        (key canonical : String)
        → zone_address addresses key zone ≡ ok canonical
        → ((ip : String) → is_reserved addresses ip reserved ≡ false → (ip =ₛ canonical) ≡ false)
        → IsLeft addresses zone key users
    left key canonical e apart =
        let z = zone_address-found addresses key zone canonical e in
        record {
          address = z.0;
          found = z.1;
          free =
              subst (λ t. All (λ u. (u.vm_ipv4_address =ₛ t) ≡ false) users) (sym z.2)
                (granted-free addresses zone reserved canonical apart users granted);
        }

-- The users of a selection, with the zone and the addresses that they are read against.
pub record Selected (addresses : Addresses) (topology : Topology) (users : List User) : Type 0 where
  pub zone : Mapping
  pub reserved : List Value
  pub declared : lookup "usr" topology.zones ≡ some zone
  pub taken : reserved_ips addresses zone ≡ ok reserved
  pub router : IsLeft addresses zone "router_ipv4_address" users
  pub machine : IsLeft addresses zone "vm_ipv4_address" users
  pub kept : Kept addresses zone reserved users

select_users-Selected :
    (addresses : Addresses) (manifest registration : Mapping) (topology : Topology)
    (users : List User)
    → select_users addresses manifest registration topology ≡ ok users
    → Selected addresses topology users
unfolding select_users
select_users-Selected addresses manifest registration topology users h =
    let l =
      >>=-Returned (as_list (died "users must be a non-empty list") (get "users" registration)) _
        h in
    let c = >>=-Returned (check (has_some l.0) _) _ l.2 in
    let z = >>=-Returned (or_raise (lookup "usr" topology.zones) _) _ c.2 in
    let n = >>=-Returned (check (has_entries z.0) _) _ z.2 in
    let r = >>=-Returned (reserved_ips addresses z.0) _ n.2 in
    let f = >>=-Returned (user_fields_referenced_by_network manifest registration) _ r.2 in
    let loop =
      read_users-Kept addresses z.0 r.0 (elem ◌=ₛ◌ "storage_port" f.0) l.0 [] users f.2
        (no_users addresses z.0 r.0) in
    let left = reserved_ips-IsLeft addresses z.0 r.0 users r.1 loop.granted in
    record {
      zone = z.0;
      reserved = r.0;
      declared = or_raise-eq-ok _ _ z.1;
      taken = r.1;
      router = left.0;
      machine = left.1;
      kept = loop;
    }

-- Where the users of an application are accepted there are none, or each has a slug, a login and
-- an account of the right form, the account none of the system's, and an address within the
-- declared network of the zone `usr` that is not reserved, and neither the zone's router's nor its
-- machine's; and no two have the same slug, login,
-- account, address or storage port.
pub selected_users_sound :
    (addresses : Addresses) (manifest registration : Mapping) (topology : Topology)
    (users : List User)
    → selected_users addresses manifest registration topology ≡ ok users
    → (users ≡ []) ⊎ Selected addresses topology users
unfolding selected_users
selected_users_sound addresses manifest registration topology users h =
    elim (if-eq-ok (truthy (get "enabled" registration)) _ _ h) [
      | inl on ↦
          let v = >>=-Returned (per_user_app_vm_resources manifest) _ on.1 in
          elim (if-eq-ok (has_some v.0) _ _ v.2) [
            | inl some_vms ↦
                inr
                  (select_users-Selected addresses manifest registration topology users some_vms.1)
            | inr no_vms ↦ inl (sym (ok-injective no_vms.1))
          ]
      | inr off ↦ inl (sym (ok-injective off.1))
    ]
