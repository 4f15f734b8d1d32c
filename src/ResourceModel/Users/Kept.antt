-- ===== src/ResourceModel/Users/Kept.antt =====
-- What the loop over the users of an application keeps.
use klokast_box.Prelude.{
  ℕ, String, ◌≡◌, refl, sym, ap, subst, ◌∙◌, Bool, true, false, not, Option, none, some, List, [],
  ◌∷◌, ◌++◌, ◌==◌, ◌=ₛ◌, eq_iff, elem, All, distinct, arith,
}
use klokast_box.Prelude.Text.{codes}
use klokast_box.Prelude.Distinct.{distinct_append}
use klokast_box.Checks.{
  ok, check, or_raise, >>=-Returned, check-eq-ok, check-not-eq-ok, or_raise-eq-ok, ok-injective,
}
use klokast_box.ResourceModel.{Value, Mapping, died, crashed}
use klokast_box.ResourceModel.Inversion.{as_text-eq-ok}
use klokast_box.ResourceModel.Values.{find, get, or_else, as_mapping}
use klokast_box.ResourceModel.Ports.{Port, port_number}
use klokast_box.ResourceModel.Names.{
  Addresses, text_fits, is_slug, is_login, is_system_user, is_one_of, system_accounts,
  validate_slug, validate_login, validate_system_user, validate_ip_in_cidr, validate_ip,
  check_within,
}
use klokast_box.ResourceModel.Topology.{as_text}
use klokast_box.ResourceModel.Users.{
  User, same_port, same_slug, same_login, same_account, same_ip, same_storage, read_port_of,
  is_reserved, read_user, check_new, read_users,
}

-- A text that is compared with another both ways.
text_symmetric : (s t : String) → (s =ₛ t) ≡ (t =ₛ s)
text_symmetric s t = ground (arith, eq_iff s t, eq_iff t s)

port_symmetric : (p q : Option Port) → same_port p q ≡ same_port q p
port_symmetric (some p) (some q) = number_symmetric (port_number p) (port_number q)
  where
    number_symmetric : (n m : ℕ) → (n == m) ≡ (m == n)
    number_symmetric n m = ground arith
port_symmetric (some n) none = refl
port_symmetric none (some m) = refl
port_symmetric none none = refl

-- No two users share a slug, a login, an account, an address or a port.
pub record Apart (users : List User) : Type 0 where
  pub slugs : distinct same_slug users ≡ true
  pub logins : distinct same_login users ≡ true
  pub accounts : distinct same_account users ≡ true
  pub ips : distinct same_ip users ≡ true
  pub ports : distinct same_storage users ≡ true

-- The texts of an address and of a network that has it.
within-eq-ok :
    (addresses : Addresses) (value network : Value) {u : Unit {0}}
    → check_within addresses value network ≡ ok u
    → (s : String) × (t : String) × (value ≡ Value.text s)
      × (network ≡ Value.text t)
      × (addresses.within s t ≡ true)
unfolding check_within
within-eq-ok addresses (Value.text s) (Value.text t) h =
    let a = >>=-Returned (check (addresses.is_address s) _) _ h in
    let b = >>=-Returned (check (addresses.is_network t) _) _ a.2 in
    (s, t, refl, refl, check-eq-ok _ _ b.2)
within-eq-ok addresses (Value.text s) (Value.integer n) h = cc
within-eq-ok addresses (Value.text s) (Value.negative n) h = cc
within-eq-ok addresses (Value.text s) (Value.boolean b) h = cc
within-eq-ok addresses (Value.text s) Value.empty h = cc
within-eq-ok addresses (Value.text s) (Value.sequence q) h = cc
within-eq-ok addresses (Value.text s) (Value.mapping m) h = cc
within-eq-ok addresses (Value.text s) (Value.other_scalar t z) h = cc
within-eq-ok addresses (Value.integer n) network h = cc
within-eq-ok addresses (Value.negative n) network h = cc
within-eq-ok addresses (Value.boolean b) network h = cc
within-eq-ok addresses Value.empty network h = cc
within-eq-ok addresses (Value.sequence q) network h = cc
within-eq-ok addresses (Value.mapping m) network h = cc
within-eq-ok addresses (Value.other_scalar t z) network h = cc

text-injective : {s t : String} → Value.text s ≡ Value.text t → s ≡ t
text-injective h = cc

-- A checked text has the form that was checked.
fits-text :
    (p : List ℕ → Bool) {v : Value} {s : String}
    → v ≡ Value.text s
    → text_fits p v ≡ true
    → p (codes s) ≡ true
fits-text p e h = ap (text_fits p) (sym e) ∙ h

module _ (addresses : Addresses) (zone : Mapping) (reserved : List Value) where
  -- A user as it may stand on its own.
  pub record IsGranted (u : User) : Type 0 where
    pub cidr : String
    pub slug : is_slug (codes u.slug) ≡ true
    pub login : is_login (codes u.tailscale_login) ≡ true
    pub account : is_system_user (codes u.system_user) ≡ true
    pub no_system_account : elem ◌=ₛ◌ u.system_user system_accounts ≡ false
    pub network : find "cidr" zone ≡ some (Value.text cidr)
    pub inside : addresses.within u.vm_ipv4_address cidr ≡ true
    pub not_reserved : is_reserved addresses u.vm_ipv4_address reserved ≡ false

  -- What is kept by the loop.
  pub record Kept (users : List User) : Type 0 where
    pub apart : Apart users
    pub granted : All IsGranted users

  All-append :
      (us : List User) (u : User) → All IsGranted us → IsGranted u → All IsGranted (us ++ u ∷ [])
  All-append [] u h g = (g, tt)
  All-append (v ∷ us) u h g = (h.0, All-append us u h.1 g)

  new-Apart :
      (seen : List User) (u : User) {x : Unit {0}}
      → check_new addresses reserved seen u ≡ ok x
      → Apart seen
      → Apart (seen ++ u ∷ []) × (is_reserved addresses u.vm_ipv4_address reserved ≡ false)
  unfolding check_new
  new-Apart seen u h a =
      let s = >>=-Returned (check (not (elem same_slug u seen)) _) _ h in
      let l = >>=-Returned (check (not (elem same_login u seen)) _) _ s.2 in
      let c = >>=-Returned (check (not (elem same_account u seen)) _) _ l.2 in
      let r =
        >>=-Returned (check (not (is_reserved addresses u.vm_ipv4_address reserved)) _) _ c.2 in
      let i = >>=-Returned (check (not (elem same_ip u seen)) _) _ r.2 in
      (
        record {
          slugs =
              distinct_append same_slug (λ x y. text_symmetric x.slug y.slug) u seen
                (check-not-eq-ok _ _ s.1) a.slugs;
          logins =
              distinct_append same_login (λ x y. text_symmetric x.tailscale_login y.tailscale_login)
                u seen (check-not-eq-ok _ _ l.1) a.logins;
          accounts =
              distinct_append same_account (λ x y. text_symmetric x.system_user y.system_user) u
                seen (check-not-eq-ok _ _ c.1) a.accounts;
          ips =
              distinct_append same_ip (λ x y. text_symmetric x.vm_ipv4_address y.vm_ipv4_address) u
                seen (check-not-eq-ok _ _ i.1) a.ips;
          ports =
              distinct_append same_storage (λ x y. port_symmetric x.storage_port y.storage_port) u
                seen (check-not-eq-ok _ _ i.2) a.ports;
        },
        check-not-eq-ok _ _ r.1,
      )

  -- What `read_user` establishes of its result.
  read_user-IsGranted :
      (required : Bool) (value : Value) (u : User)
      → read_user addresses zone required value ≡ ok u
      → is_reserved addresses u.vm_ipv4_address reserved ≡ false
      → IsGranted u
  unfolding read_user validate_slug validate_login validate_system_user validate_ip_in_cidr
  read_user-IsGranted required value u h free =
      let m = >>=-Returned (as_mapping (died "must be a mapping") value) _ h in
      let account = or_else (get "system_user" m.0) (get "slug" m.0) in
      let s = >>=-Returned (validate_slug (get "slug" m.0)) _ m.2 in
      let l = >>=-Returned (validate_login (get "tailscale_login" m.0)) _ s.2 in
      let c = >>=-Returned (validate_system_user account) _ l.2 in
      let c1 = >>=-Returned (check (text_fits is_system_user account) _) _ c.1 in
      let n = >>=-Returned (or_raise (find "cidr" zone) (crashed "KeyError")) _ c.2 in
      let i = >>=-Returned (validate_ip_in_cidr addresses (get "vm_ipv4_address" m.0) n.0) _ n.2 in
      let i1 = >>=-Returned (validate_ip addresses (get "vm_ipv4_address" m.0)) _ i.1 in
      let w = within-eq-ok addresses (get "vm_ipv4_address" m.0) n.0 i1.2 in
      let p = >>=-Returned (read_port_of required (get "storage_port" m.0)) _ i.2 in
      let ts = >>=-Returned (as_text (get "slug" m.0)) _ p.2 in
      let tl = >>=-Returned (as_text (get "tailscale_login" m.0)) _ ts.2 in
      let tc = >>=-Returned (as_text account) _ tl.2 in
      let ti = >>=-Returned (as_text (get "vm_ipv4_address" m.0)) _ tc.2 in
      let same = ok-injective ti.2 in
      let at_account = as_text-eq-ok account tc.0 tc.1 in
      let at_ip = as_text-eq-ok (get "vm_ipv4_address" m.0) ti.0 ti.1 in
      record {
        cidr = w.1;
        slug =
            ap (λ v. is_slug (codes v.slug)) (sym same)
            ∙ fits-text is_slug (as_text-eq-ok _ _ ts.1) (check-eq-ok _ _ s.1);
        login =
            ap (λ v. is_login (codes v.tailscale_login)) (sym same)
            ∙ fits-text is_login (as_text-eq-ok _ _ tl.1) (check-eq-ok _ _ l.1);
        account =
            ap (λ v. is_system_user (codes v.system_user)) (sym same)
            ∙ fits-text is_system_user at_account (check-eq-ok _ _ c1.1);
        no_system_account =
            ap (λ v. elem ◌=ₛ◌ v.system_user system_accounts) (sym same)
            ∙ ap (is_one_of system_accounts) (sym at_account)
            ∙ check-not-eq-ok (is_one_of system_accounts account) _ c1.2;
        network = or_raise-eq-ok _ _ n.1 ∙ ap some w.3;
        inside =
            ap (λ v. addresses.within v.vm_ipv4_address w.1) (sym same)
            ∙ ap (λ x. addresses.within x w.1) (text-injective (sym at_ip ∙ w.2))
            ∙ w.4;
        not_reserved = free;
      }

  pub read_users-Kept :
      (required : Bool) (values : List Value) (seen users : List User)
      → read_users addresses zone required reserved seen values ≡ ok users
      → Kept seen
      → Kept users
  unfolding read_users
  read_users-Kept required [] seen users h k = subst Kept (ok-injective h) k
  read_users-Kept required (value ∷ rest) seen users h k =
      let u = >>=-Returned (read_user addresses zone required value) _ h in
      let c = >>=-Returned (check_new addresses reserved seen u.0) _ u.2 in
      let a = new-Apart seen u.0 c.1 k.apart in
      read_users-Kept required rest (seen ++ u.0 ∷ []) users c.2 (record {
        apart = a.0;
        granted = All-append seen u.0 k.granted (read_user-IsGranted required value u.0 u.1 a.1);
      })

pub no_users :
    (addresses : Addresses) (zone : Mapping) (reserved : List Value)
    → Kept addresses zone reserved []
no_users addresses zone reserved = record {
  apart = record { slugs = refl; logins = refl; accounts = refl; ips = refl; ports = refl };
  granted = tt;
}
