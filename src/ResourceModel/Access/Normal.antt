-- ===== src/ResourceModel/Access/Normal.antt =====
-- `normalize_box_access`: what its result satisfies, and that it keeps its own results.
use klokast_box.Prelude.{
  String, ◌≡◌, refl, sym, ap, subst, ◌∙◌, Bool, true, not, ◌&&◌, List, [], ◌∷◌, ◌++◌, ◌=ₛ◌,
  if◌then◌else◌, elem, all, arith, Bool-cases, inl, inr,
}
use klokast_box.Checks.{ok, check, each, >>=-Returned, check-eq-ok, ok-injective}
use klokast_box.ResourceModel.{Value, Mapping, died}
use klokast_box.ResourceModel.Values.{items, get_or, no_list, as_mapping}
use klokast_box.ResourceModel.Access.{
  access_capabilities, validate_access_capability, collect_capabilities,
  validate_access_capability_list, BoxAccess, check_enabled, normalize_access_fields,
  normalize_box_access, overlay_only, enabled_default, none_as_mapping, reject_unknown_fields,
  access_box_fields,
}
use klokast_box.ResourceModel.TextLists.{all_distinct, in_list, distinct-append, all-append}

-- Capabilities that are known, each once.
pub record Capabilities (xs : List String) : Type 0 where
  pub known : all (λ s. elem ◌=ₛ◌ s access_capabilities) xs ≡ true
  pub distinct : all_distinct xs ≡ true

validate-eq-ok :
    (value : Value) (s : String)
    → validate_access_capability value ≡ ok s
    → (value ≡ Value.text s) × (in_list s access_capabilities ≡ true)
unfolding validate_access_capability
validate-eq-ok (Value.text t) s h =
    let a = >>=-Returned (check (elem ◌=ₛ◌ t access_capabilities) _) _ h in
    let same = ok-injective a.2 in
    (ap Value.text same, ap (λ x. in_list x access_capabilities) (sym same) ∙ check-eq-ok _ _ a.1)
validate-eq-ok (Value.integer n) s h = cc
validate-eq-ok (Value.negative n) s h = cc
validate-eq-ok (Value.boolean b) s h = cc
validate-eq-ok Value.empty s h = cc
validate-eq-ok (Value.sequence q) s h = cc
validate-eq-ok (Value.mapping m) s h = cc
validate-eq-ok (Value.other_scalar t z) s h = cc

append_once-Capabilities :
    (s : String) (xs : List String)
    → in_list s access_capabilities ≡ true
    → Capabilities xs
    → Capabilities (if in_list s xs then xs else xs ++ s ∷ [])
append_once-Capabilities s xs k c = elim (Bool-cases (in_list s xs)) [
  | inl there ↦ rw there c
  | inr new ↦ rw new (record {
    known = all-append (λ t. in_list t access_capabilities) xs (s ∷ []) ∙ both_true c.known k;
    distinct = distinct-append s xs new c.distinct;
  })
]
  where
    both_true : {a b : Bool} → a ≡ true → b ≡ true → (a && (b && true)) ≡ true
    both_true {a} {b} p q = ground arith

collect-Capabilities :
    (normalized : List String) (values : List Value) (out : List String)
    → Capabilities normalized
    → collect_capabilities normalized values ≡ ok out
    → Capabilities out
unfolding collect_capabilities
collect-Capabilities normalized [] out c h = subst Capabilities (ok-injective h) c
collect-Capabilities normalized (value ∷ rest) out c h =
    let a = >>=-Returned (validate_access_capability value) _ h in
    collect-Capabilities (if in_list a.0 normalized then normalized else normalized ++ a.0 ∷ [])
      rest out (append_once-Capabilities a.0 normalized (validate-eq-ok value a.0 a.1).1 c) a.2

no-Capabilities : Capabilities []
no-Capabilities = record { known = refl; distinct = refl }

list-Capabilities :
    (value : Value) (out : List String)
    → validate_access_capability_list value ≡ ok out
    → Capabilities out
unfolding validate_access_capability_list
list-Capabilities (Value.sequence q) out h = collect-Capabilities [] (items q) out no-Capabilities h
list-Capabilities (Value.text s) out h = cc
list-Capabilities (Value.integer n) out h = cc
list-Capabilities (Value.negative n) out h = cc
list-Capabilities (Value.boolean b) out h = cc
list-Capabilities Value.empty out h = cc
list-Capabilities (Value.mapping m) out h = cc
list-Capabilities (Value.other_scalar s z) out h = cc

-- What a normalized access satisfies.
pub record IsNormal (a : BoxAccess) : Type 0 where
  pub available : Capabilities a.available
  pub enabled : Capabilities a.enabled
  pub prohibited : Capabilities a.prohibited
  pub apart : all (λ c. not (elem ◌=ₛ◌ c a.prohibited)) a.available ≡ true
  pub allowed :
      all (λ c. elem ◌=ₛ◌ c a.available && not (elem ◌=ₛ◌ c a.prohibited)) a.enabled ≡ true

enabled-all :
    (available prohibited enabled : List String) {u : Unit {0}}
    → each (check_enabled available prohibited) enabled ≡ ok u
    → all (λ c. elem ◌=ₛ◌ c available && not (elem ◌=ₛ◌ c prohibited)) enabled ≡ true
unfolding each check_enabled
enabled-all available prohibited [] h = refl
enabled-all available prohibited (c ∷ cs) h =
    let a = >>=-Returned (check_enabled available prohibited c) _ h in
    let b = >>=-Returned (check (in_list c available) _) _ a.1 in
    all_three (check-eq-ok _ _ b.1) (check-eq-ok _ _ b.2) (enabled-all available prohibited cs a.2)
  where
    all_three : {x y z : Bool} → x ≡ true → y ≡ true → z ≡ true → (x && y && z) ≡ true
    all_three {x} {y} {z} p q r = ground arith

fields-IsNormal :
    (access : Mapping) (a : BoxAccess) → normalize_access_fields access ≡ ok a → IsNormal a
unfolding normalize_access_fields
fields-IsNormal access a h =
    let given = get_or "available_capabilities" overlay_only access in
    let barred = get_or "prohibited_capabilities" no_list access in
    let v = >>=-Returned (validate_access_capability_list given) _ h in
    let p = >>=-Returned (validate_access_capability_list barred) _ v.2 in
    let q = >>=-Returned (check (all (λ c. not (elem ◌=ₛ◌ c p.0)) v.0) _) _ p.2 in
    let wanted = get_or "enabled_capabilities" (enabled_default v.0) access in
    let n = >>=-Returned (validate_access_capability_list wanted) _ q.2 in
    let f = >>=-Returned (each (check_enabled v.0 p.0) n.0) _ n.2 in
    subst IsNormal (ok-injective f.2) (record {
      available = list-Capabilities given v.0 v.1;
      enabled = list-Capabilities wanted n.0 n.1;
      prohibited = list-Capabilities barred p.0 p.1;
      apart = check-eq-ok _ _ q.1;
      allowed = enabled-all v.0 p.0 n.0 f.1;
    })

-- A box access that is accepted lists only known capabilities, each once in each list; no
-- available capability is prohibited, and every enabled one is available and not prohibited.
pub normalize_box_access-IsNormal :
    (value : Value) (a : BoxAccess) → normalize_box_access value ≡ ok a → IsNormal a
unfolding normalize_box_access
normalize_box_access-IsNormal value a h =
    let m = >>=-Returned (as_mapping (died "must be a mapping") (none_as_mapping value)) _ h in
    let r = >>=-Returned (reject_unknown_fields access_box_fields (Value.mapping m.0)) _ m.2 in
    fields-IsNormal m.0 a r.2
