-- ===== src/ResourceCompiler/Hosts/Guests.antt =====
-- Which hosts of a scope are those of shared guests, and which of these get their containers changed.
use Prim.Native.String.{◌++◌ as ◌+++◌}
use Prim.Native.Char.{Char, code}
use Prim.Native.Nat.{compare}
use text.Mathlib.TextPositions.{compare_self}
use text.Mathlib.TextLemmas.{nil-append, cons-append}
use text.Mathlib.TextEquality.{codes_equal}
use klokast_box.Prelude.{◌==◌, ==_iff, Option, none, some, ◌⊎◌}
use klokast_box.ResourceModel.Boxes.{BoxConfig, box_config_for}
use klokast_box.ResourceCompiler.Hosts.{host_name, split_last, is_running}
use klokast_box.Prelude.{
  String, ◌≡◌, refl, sym, ap, ◌∙◌, inl, inr, Bool, true, false, not, ◌&&◌, ◌||◌, List, [], ◌∷◌,
  ◌=ₛ◌, eq_iff, arith, if◌then◌else◌, Bool-cases,
}
use klokast_box.Checks.{ok}
use klokast_box.ResourceModel.TextLists.{in_list}
use klokast_box.ResourceCompiler.Hosts.{
  Compiled, resource_hosts_for_scope, is_podman_resource_host, shared_guest_host_is_running,
  hosts_where, ansible_resource_hosts, podman_resource_hosts,
}

hosts_where-elem :
    (p : String → Bool) (h : String) (hosts : List String)
    → in_list h (hosts_where p hosts) ≡ (in_list h hosts && p h)
hosts_where-elem p h [] = refl
hosts_where-elem p h (x ∷ xs) = elim (Bool-cases (h =ₛ x)) [
  | inl same ↦
      let at = (eq_iff h x).0 same in
      elim (Bool-cases (p h)) [
        | inl good ↦ let there = ap p (sym at) ∙ good in rw (there, same, good) refl
        | inr bad ↦
            let there = ap p (sym at) ∙ bad in
            rw (there, same, bad)
              (hosts_where-elem p h xs ∙ ap (λ b. in_list h xs && b) bad ∙ and_false (in_list h xs))
      ]
  | inr other ↦ elim (Bool-cases (p x)) [
    | inl good ↦ rw (good, other) (hosts_where-elem p h xs)
    | inr bad ↦ rw (bad, other) (hosts_where-elem p h xs)
  ]
]
  where
    and_false : (a : Bool) → (a && false) ≡ false
    and_false a = ground arith

-- The roles that have a shared guest.
pub data GuestRole : Type 0 where
  bak dmz iot : GuestRole

abbrev pub suffix_of : GuestRole → String
suffix_of GuestRole.bak = "bak"
suffix_of GuestRole.dmz = "dmz"
suffix_of GuestRole.iot = "iot"

abbrev pub guest_host : String → GuestRole → String
guest_host node role = host_name node (suffix_of role)

-- The guest of a role runs on a box.
abbrev pub runs_on : List (String × BoxConfig) → String → GuestRole → Bool
runs_on configs node GuestRole.bak = is_running (box_config_for configs node).shared_guests.bak
runs_on configs node GuestRole.dmz = is_running (box_config_for configs node).shared_guests.dmz
runs_on configs node GuestRole.iot = is_running (box_config_for configs node).shared_guests.iot

split_last-empty :
    (role : GuestRole) → split_last ("-" +++ suffix_of role) ≡ some ("", suffix_of role)
split_last-empty GuestRole.bak = refl
split_last-empty GuestRole.dmz = refl
split_last-empty GuestRole.iot = refl

-- The last dash of the host of a guest is the one that its name was made with.
split_last-guest_host :
    (node : String) (role : GuestRole)
    → split_last (guest_host node role) ≡ some (node, suffix_of role)
split_last-guest_host String.[] role =
    ap split_last (nil-append ("-" +++ suffix_of role)) ∙ split_last-empty role
split_last-guest_host (String.◌∷◌ c node) role =
    ap split_last (cons-append c node ("-" +++ suffix_of role))
    ∙ rw (split_last-guest_host node role, split_last) refl

abbrev dash_char : Char
dash_char = "-"

split_last-some : (h : String) (a b : String) → split_last h ≡ some (a, b) → h ≡ host_name a b
split_last-some String.[] a b e = cc
split_last-some (String.◌∷◌ c s) a b e = from (λ x y. split_last-some s x y) (split_last s) refl e
  where
    here : {p q : String × String} → ◌≡◌ {A = Option (String × String)} (some p) (some q) → p ≡ q
    here h = cc

    dash : code c ≡ b'-' → c ≡ dash_char
    dash h = codes_equal c dash_char (ap (compare (code c)) (sym h) ∙ compare_self (code c))

    nothing : {p : String × String} → ◌≡◌ {A = Option (String × String)} none (some p) → ⊥
    nothing h = cc

    from :
        ((x y : String) → split_last s ≡ some (x, y) → s ≡ host_name x y)
        → (o : Option (String × String)) → split_last s ≡ o
        → ◌≡◌ {A = Option (String × String)}
            (elim o [
              | some parts ↦ some (String.◌∷◌ c parts.0, parts.1)
              | none ↦ if code c == b'-' then some ("", s) else none
            ])
            (some (a, b))
        → String.◌∷◌ c s ≡ host_name a b
    from induction (some (x, y)) found h =
        let parts = here h in
        ap (λ t. String.◌∷◌ c t) (induction x y found)
        ∙ sym (cons-append c x ("-" +++ y))
        ∙ (λ i. host_name (parts i).0 (parts i).1)
    from induction none found h = elim (Bool-cases (code c == b'-')) [
      | inl at ↦
          let parts = here (rw at at h) in
          ap (λ d. String.◌∷◌ d s) (dash ((==_iff (code c) b'-').0 at))
          ∙ sym (
              nil-append ("-" +++ s)
              ∙ cons-append dash_char "" s
              ∙ ap (λ t. String.◌∷◌ dash_char t) (nil-append s))
          ∙ (λ i. host_name (parts i).0 (parts i).1)
      | inr away ↦ absurd (nothing (rw away at h))
    ]

-- A host is that of a guest, or its suffix is not that of one.
host-cases :
    (h : String)
    → ((node : String) × (role : GuestRole) × (h ≡ guest_host node role))
      ⊎ (is_podman_resource_host h ≡ false)
unfolding is_podman_resource_host
host-cases h = from (split_last h) refl
  where
    no_suffix :
        (a b c : Bool) → a ≡ false → b ≡ false → c ≡ false → (a || (b || (c || false))) ≡ false
    no_suffix a b c x y z = ground arith

    whole : (x y suffix : String) → split_last h ≡ some (x, y) → y ≡ suffix → h ≡ host_name x suffix
    whole x y suffix found same = split_last-some h x y found ∙ ap (host_name x) same

    from :
        (o : Option (String × String))
        → split_last h ≡ o
        → ((node : String) × (role : GuestRole) × (h ≡ guest_host node role))
          ⊎ (elim o [ none ↦ false | some parts ↦ in_list parts.1 ("bak" ∷ "dmz" ∷ "iot" ∷ []) ]
              ≡ false)
    from none found = inr refl
    from (some (x, y)) found = elim (Bool-cases (y =ₛ "bak")) [
      | inl is ↦ inl (x, GuestRole.bak, whole x y "bak" found ((eq_iff y "bak").0 is))
      | inr not_bak ↦ elim (Bool-cases (y =ₛ "dmz")) [
        | inl is ↦ inl (x, GuestRole.dmz, whole x y "dmz" found ((eq_iff y "dmz").0 is))
        | inr not_dmz ↦ elim (Bool-cases (y =ₛ "iot")) [
          | inl is ↦ inl (x, GuestRole.iot, whole x y "iot" found ((eq_iff y "iot").0 is))
          | inr not_iot ↦ inr (no_suffix _ _ _ not_bak not_dmz not_iot)
        ]
      ]
    ]

is_podman-guest_host :
    (node : String) (role : GuestRole) → is_podman_resource_host (guest_host node role) ≡ true
unfolding is_podman_resource_host
is_podman-guest_host node GuestRole.bak =
    rw (split_last-guest_host node GuestRole.bak, is_podman_resource_host) refl
is_podman-guest_host node GuestRole.dmz =
    rw (split_last-guest_host node GuestRole.dmz, is_podman_resource_host) refl
is_podman-guest_host node GuestRole.iot =
    rw (split_last-guest_host node GuestRole.iot, is_podman_resource_host) refl

is_running-guest_host :
    (compiled : Compiled) (node : String) (role : GuestRole)
    → shared_guest_host_is_running compiled (guest_host node role)
      ≡ runs_on compiled.box_configs node role
unfolding shared_guest_host_is_running
is_running-guest_host compiled node GuestRole.bak =
    rw (split_last-guest_host node GuestRole.bak, shared_guest_host_is_running) refl
is_running-guest_host compiled node GuestRole.dmz =
    rw (split_last-guest_host node GuestRole.dmz, shared_guest_host_is_running) refl
is_running-guest_host compiled node GuestRole.iot =
    rw (split_last-guest_host node GuestRole.iot, shared_guest_host_is_running) refl

-- Of the hosts of a scope, Ansible changes all but those of a shared guest, which are a box's name
-- with `-bak`, `-dmz` or `-iot`; the containers are changed on exactly those of a shared guest that
-- its box runs. So a shared guest's host that is stopped is in neither list.
pub ansible_and_podman_hosts :
    (compiled : Compiled) (scope hosts : List String)
    → resource_hosts_for_scope compiled scope ≡ ok hosts
    → (ansible : List String) × (podman : List String) × (ansible_resource_hosts compiled scope
        ≡ ok ansible)
      × (podman_resource_hosts compiled scope ≡ ok podman)
      × ((node : String) (role : GuestRole)
          → (in_list (guest_host node role) ansible ≡ false)
            × (in_list (guest_host node role) podman
                ≡ (in_list (guest_host node role) hosts && runs_on compiled.box_configs node role)))
      × ((h : String)
          → ((node : String) × (role : GuestRole) × (h ≡ guest_host node role))
            ⊎ ((in_list h ansible ≡ in_list h hosts) × (in_list h podman ≡ false)))
unfolding ansible_resource_hosts podman_resource_hosts
ansible_and_podman_hosts compiled scope hosts e = (
  hosts_where plain hosts,
  hosts_where served hosts,
  rw e refl,
  rw e refl,
  (λ node role. (
    hosts_where-elem plain (guest_host node role) hosts
        ∙ no_guest _ _ (is_podman-guest_host node role),
    hosts_where-elem served (guest_host node role) hosts
        ∙ running_guest _ _ _ _ (is_podman-guest_host node role)
            (is_running-guest_host compiled node role),
  )),
  (λ h. elim (host-cases h) [
    | inl guest ↦ inl guest
    | inr other ↦ inr (
      hosts_where-elem plain h hosts ∙ any_host _ _ other,
      hosts_where-elem served h hosts ∙ no_containers _ _ _ other,
    )
  ]),
)
  where
    plain : String → Bool
    plain host = not (is_podman_resource_host host)

    served : String → Bool
    served host = is_podman_resource_host host && shared_guest_host_is_running compiled host

    no_guest : (a b : Bool) → b ≡ true → (a && not b) ≡ false
    no_guest a b h = ground arith

    running_guest : (a b c d : Bool) → b ≡ true → c ≡ d → (a && (b && c)) ≡ (a && d)
    running_guest a b c d h k = ground arith

    any_host : (a b : Bool) → b ≡ false → (a && not b) ≡ a
    any_host a b h = ground arith

    no_containers : (a b c : Bool) → b ≡ false → (a && (b && c)) ≡ false
    no_containers a b c h = ground arith
