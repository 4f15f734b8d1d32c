-- ===== src/ResourceModel/Selection/Guests.antt =====
-- What the check of the shared guests establishes on the boxes of a running application.
use klokast_box.Prelude.{
  String, ◌≡◌, ◌≢◌, ◌⊎◌, Option, none, some, ◌=ₛ◌, ◌||◌, ◌&&◌, subst, if◌then◌else◌, Bool-cases,
  eq_iff, arith, refl, sym, ap, ◌∙◌, inl, inr, Bool, true, false, List, [], ◌∷◌, All,
}
use klokast_box.Checks.{
  raised, ok, >>=-Returned, check-not-eq-ok, each-eq-ok, ok-injective, if-eq-ok,
}
use klokast_box.ResourceModel.{Value, Mapping, Sequence, Refusal}
use klokast_box.ResourceModel.TextLists.{in_list}
use klokast_box.ResourceModel.Shapes.Sound.{StandsForZone}
use klokast_box.ResourceModel.Values.{
  find, or_empty, get_or, text_is, items, mappings_of, no_list, name_of, get, truthy, or_else,
  no_mapping,
}
use klokast_box.ResourceModel.Topology.{Topology, canonical_zone}
use klokast_box.ResourceModel.Placement.{
  RuntimeState, app_runtime_state, runtime_state_of, section_of,
}
use klokast_box.ResourceModel.Boxes.{BoxConfig, SharedGuests, box_config_for}
use klokast_box.ResourceModel.Selection.{
  needs_stopped, check_guests, check_running, is_stopped, running_podman_workload_zones, zone_names,
  validate_shared_guest_app_compatibility,
}

true-ne-false : {b : Bool} → b ≡ true → b ≡ false → ⊥
true-ne-false h k = cc

-- The state of the shared guest of a zone; no other zone has one.
abbrev pub shared_guest_state : SharedGuests → String → Option RuntimeState
shared_guest_state guests zone =
    if zone =ₛ "bak"
    then some guests.bak
    else if zone =ₛ "dmz"
    then some guests.dmz
    else if zone =ₛ "iot"
    then some guests.iot
    else none

-- A mapping that is one of the items of a list.
abbrev pub IsItem : Mapping → Sequence → Type 0
IsItem m Sequence.no_items = ⊥
IsItem m (Sequence.item v s) = (v ≡ Value.mapping m) ⊎ IsItem m s

-- The entry is not said to be stopped.
running-lem :
    (registration : Mapping) (state : RuntimeState)
    → truthy (get "enabled" registration) ≡ true
    → text_is "stopped" (get "runtime_state" registration) ≡ false
    → app_runtime_state registration ≡ ok state
    → is_stopped state ≡ false
unfolding app_runtime_state runtime_state_of
running-lem registration state on runs h =
    let v =
      >>=-Returned (runtime_state_of (get_or "runtime_state" (Value.text "running") registration)) _
        h in
    let given : v.0 ≡ state = ok-injective (rw on at v.2) in
    ap is_stopped (sym given) ∙ of_found (find "runtime_state" registration) v.0 runs v.1
  where
    of_value :
        (value : Value) (s : RuntimeState)
        → text_is "stopped" value ≡ false
        → runtime_state_of value ≡ ok s
        → is_stopped s ≡ false
    of_value Value.empty s other e = ap is_stopped (sym (ok-injective e))
    of_value (Value.text t) s other e = elim (if-eq-ok (t =ₛ "" || t =ₛ "running") _ _ e) [
      | inl first ↦ ap is_stopped (sym (ok-injective first.1))
      | inr rest ↦ elim (if-eq-ok (t =ₛ "stopped") _ _ rest.1) [
        | inl second ↦
            absurd
              (true-ne-false ((eq_iff "stopped" t).1 (sym ((eq_iff t "stopped").0 second.0))) other)
        | inr third ↦ absurd (never third.1)
      ]
    ]
      where
        never : {a : RuntimeState} {x : Refusal} → raised x ≡ ok a → ⊥
        never q = cc
    of_value (Value.integer n) s other e = cc
    of_value (Value.negative n) s other e = cc
    of_value (Value.boolean b) s other e = cc
    of_value (Value.sequence q) s other e = cc
    of_value (Value.mapping m) s other e = cc
    of_value (Value.other_scalar t z) s other e = cc

    of_found :
        (found : Option Value) (s : RuntimeState)
        → text_is "stopped" (or_empty found) ≡ false
        → runtime_state_of (elim found [ none ↦ Value.text "running" | some v ↦ v ]) ≡ ok s
        → is_stopped s ≡ false
    of_found none s other e = ap is_stopped (sym (ok-injective e))
    of_found (some v) s other e = of_value v s other e

-- An empty text is what stands for it.
text-or_else : (s : String) → or_else (Value.text s) (Value.text "") ≡ Value.text s
text-or_else s = elim (Bool-cases (s =ₛ "")) [
  | inl blank ↦ rw blank (ap Value.text (sym ((eq_iff s "").0 blank)))
  | inr name ↦ rw name refl
]

zone_names-first :
    (topology : Topology) (m : Mapping) (rest : List Mapping) (zone : String)
    → text_is "podman_workload" (get "type" m) ≡ true
    → get "zone" m ≡ Value.text zone
    → in_list (canonical_zone topology zone) (zone_names topology (m ∷ rest)) ≡ true
zone_names-first topology m rest zone workload at =
    rw (workload, at, text-or_else zone) (here (canonical_zone topology zone) _)
  where
    here : (x : String) (xs : List String) → in_list x (x ∷ xs) ≡ true
    here x xs = let same : (x =ₛ x) ≡ true = (eq_iff x x).1 refl in rw same refl

zone_names-later :
    (topology : Topology) (x : String) (m : Mapping) (rest : List Mapping)
    → in_list x (zone_names topology rest) ≡ true
    → in_list x (zone_names topology (m ∷ rest)) ≡ true
zone_names-later topology x m rest h =
    elim (Bool-cases (text_is "podman_workload" (get "type" m))) [
      | inl workload ↦ rw workload (named (name_of (or_else (get "zone" m) (Value.text ""))))
      | inr other ↦ rw other h
    ]
  where
    named :
        (o : Option String)
        → in_list x (elim o [
          | none ↦ zone_names topology rest
          | some name ↦ canonical_zone topology name ∷ zone_names topology rest
        ])
          ≡ true
    named none = h
    named (some name) = elim (Bool-cases (x =ₛ canonical_zone topology name)) [
      | inl same ↦ rw same refl
      | inr differs ↦ rw differs h
    ]

-- The zone of a workload among the items is one of those that are looked at.
zone_names-elem :
    (topology : Topology) (resource : Mapping) (seq : Sequence) (zone : String)
    → IsItem resource seq
    → text_is "podman_workload" (get "type" resource) ≡ true
    → get "zone" resource ≡ Value.text zone
    → in_list (canonical_zone topology zone) (zone_names topology (mappings_of (items seq))) ≡ true
zone_names-elem topology resource Sequence.no_items zone among workload at = absurd among
zone_names-elem topology resource (Sequence.item v s) zone (inl e) workload at =
    rw e (zone_names-first topology resource (mappings_of (items s)) zone workload at)
zone_names-elem topology resource (Sequence.item v s) zone (inr among) workload at =
    later v (zone_names-elem topology resource s zone among workload at)
  where
    later :
        (w : Value)
        → in_list (canonical_zone topology zone) (zone_names topology (mappings_of (items s)))
          ≡ true
        → in_list (canonical_zone topology zone) (zone_names topology (mappings_of (w ∷ items s)))
          ≡ true
    later (Value.mapping m) h =
        zone_names-later topology (canonical_zone topology zone) m (mappings_of (items s)) h
    later (Value.text t) h = h
    later (Value.integer n) h = h
    later (Value.negative n) h = h
    later (Value.boolean b) h = h
    later Value.empty h = h
    later (Value.sequence q) h = h
    later (Value.other_scalar t z) h = h

quiet :
    (zones : List String) (guests : SharedGuests) (name : String)
    → in_list name zones ≡ true
    → needs_stopped zones guests ≡ false
    → shared_guest_state guests name ≢ some RuntimeState.stopped
quiet zones guests name there h = elim (Bool-cases (name =ₛ "bak")) [
  | inl bak ↦ rw bak (state guests.bak (off (split.0) (at "bak" bak)))
  | inr not_bak ↦ elim (Bool-cases (name =ₛ "dmz")) [
    | inl dmz ↦ rw (not_bak, dmz) (state guests.dmz (off (split.1) (at "dmz" dmz)))
    | inr not_dmz ↦ elim (Bool-cases (name =ₛ "iot")) [
      | inl iot ↦ rw (not_bak, not_dmz, iot) (state guests.iot (off (split.2) (at "iot" iot)))
      | inr not_iot ↦ rw (not_bak, not_dmz, not_iot) nothing
    ]
  ]
]
  where
    state : (t : RuntimeState) → is_stopped t ≡ false → some t ≢ some RuntimeState.stopped
    state RuntimeState.running h e = cc
    state RuntimeState.stopped h e = cc

    nothing : none ≢ some RuntimeState.stopped
    nothing e = cc

    three : (a b c : Bool) → (a || b || c) ≡ false → (a ≡ false) × (b ≡ false) × (c ≡ false)
    three a b c e = ground arith

    off : {a b : Bool} → (a && b) ≡ false → a ≡ true → b ≡ false
    off e f = ground arith

    at : (zone : String) → (name =ₛ zone) ≡ true → in_list zone zones ≡ true
    at zone e = subst (λ x. in_list x zones ≡ true) ((eq_iff name zone).0 e) there

    split :
        ((in_list "bak" zones && is_stopped guests.bak) ≡ false)
        × ((in_list "dmz" zones && is_stopped guests.dmz) ≡ false)
        × ((in_list "iot" zones && is_stopped guests.iot) ≡ false)
    split = three _ _ _ h

-- What holds of all texts of a list holds of each.
All-in_list :
    (P : String → Type 0) (x : String) (xs : List String) → All P xs → in_list x xs ≡ true → P x
All-in_list P x [] h e = absurd (true-ne-false e refl)
All-in_list P x (y ∷ ys) h e = elim (Bool-cases (x =ₛ y)) [
  | inl same ↦ subst P (sym ((eq_iff x y).0 same)) h.0
  | inr differs ↦ All-in_list P x ys h.1 (rw differs at e)
]

-- The name of a zone is what the text stands for.
StandsForZone-canonical_zone :
    (topology : Topology) (zone name : String)
    → StandsForZone topology zone name
    → canonical_zone topology zone ≡ name
StandsForZone-canonical_zone topology zone name (inl e) = rw (e, canonical_zone) refl
StandsForZone-canonical_zone topology zone name (inr e) = rw (e.0, canonical_zone) (sym e.1)

-- Where an enabled entry whose state is not `stopped` is accepted, no box that it runs on has
-- stopped the shared guest of a zone that a container workload of the manifest names, by the zone's
-- name or by an alias.
pub validate_shared_guest_app_compatibility_sound :
    (manifest registration : Mapping) (boxes : List String) (configs : List (String × BoxConfig))
    (topology : Topology) (resources : Mapping) (compute : Sequence) (resource : Mapping)
    (zone name box : String)
    → truthy (get "enabled" registration) ≡ true
    → text_is "stopped" (get "runtime_state" registration) ≡ false
    → or_else (get "resources" manifest) no_mapping ≡ Value.mapping resources
    → or_else (get "compute" resources) no_list ≡ Value.sequence compute
    → IsItem resource compute
    → text_is "podman_workload" (get "type" resource) ≡ true
    → get "zone" resource ≡ Value.text zone
    → StandsForZone topology zone name
    → in_list box boxes ≡ true
    → validate_shared_guest_app_compatibility manifest registration boxes configs topology ≡ ok tt
    → shared_guest_state (box_config_for configs box).shared_guests name ≢ some RuntimeState.stopped
unfolding validate_shared_guest_app_compatibility check_running check_guests
    running_podman_workload_zones section_of
validate_shared_guest_app_compatibility_sound manifest registration boxes configs topology resources
      compute resource zone name box on runs has listed among workload at stands placed h =
    elim (if-eq-ok (truthy (get "enabled" registration)) _ _ h) [
      | inl active ↦
          let s = >>=-Returned (app_runtime_state registration) _ active.1 in
          elim (if-eq-ok (is_stopped s.0) _ _ s.2) [
            | inl halted ↦
                absurd (true-ne-false halted.0 (running-lem registration s.0 on runs s.1))
            | inr going ↦
                let z = >>=-Returned (running_podman_workload_zones manifest topology) _ going.1 in
                let found : z.0 ≡ zone_names topology (mappings_of (items compute)) =
                  ok-injective (sym z.1 ∙ rw (has, listed) refl) in
                let among_zones =
                  subst (λ x. in_list name x ≡ true) (sym found)
                    (subst
                      (λ x. in_list x (zone_names topology (mappings_of (items compute))) ≡ true)
                      (StandsForZone-canonical_zone topology zone name stands)
                      (zone_names-elem topology resource compute zone among workload at)) in
                quiet z.0 (box_config_for configs box).shared_guests name among_zones (
                  check-not-eq-ok _ _ (
                    All-in_list (λ b. check_guests z.0 configs b ≡ ok tt) box boxes
                      (each-eq-ok (check_guests z.0 configs) boxes z.2) placed))
          ]
      | inr idle ↦ absurd (true-ne-false on idle.0)
    ]
