-- ===== src/ResourceModel/Access/RoundTrip.antt =====
-- `normalize_box_access` keeps its own results.
use mathlib.Core.List.{append_assoc, append-nil}
use klokast_box.Prelude.{
  String, ◌≡◌, refl, sym, ap, ◌∙◌, true, false, not, ◌&&◌, List, [], ◌∷◌, ◌++◌, ◌=ₛ◌, eq_iff, elem,
  all, arith, and-eq-true,
}
use klokast_box.Checks.{ok, each}
use klokast_box.ResourceModel.{Value, Mapping, Sequence}
use klokast_box.ResourceModel.Values.{items}
use klokast_box.ResourceModel.Access.{
  access_capabilities, validate_access_capability, collect_capabilities,
  validate_access_capability_list, BoxAccess, check_enabled, normalize_access_fields,
  normalize_box_access, reject_unknown_fields,
}
use klokast_box.ResourceModel.Access.Normal.{Capabilities, IsNormal, normalize_box_access-IsNormal}
use klokast_box.ResourceModel.TextLists.{all_distinct, in_list, elem-append}

-- A list of texts, and an access, as they stand in YAML.
abbrev pub text_items : List String → Sequence
text_items [] = Sequence.no_items
text_items (s ∷ ss) = Sequence.item (Value.text s) (text_items ss)

abbrev pub access_value : BoxAccess → Value
access_value a = Value.mapping (
    Mapping.bind "available_capabilities" (Value.sequence (text_items a.available)) (
      Mapping.bind "enabled_capabilities" (Value.sequence (text_items a.enabled)) (
        Mapping.bind "prohibited_capabilities" (Value.sequence (text_items a.prohibited))
          Mapping.no_entries)))

-- A text between two lists of distinct texts is not in the first.
distinct-fresh :
    (s : String) (xs ys : List String) → all_distinct (xs ++ s ∷ ys) ≡ true → in_list s xs ≡ false
distinct-fresh s [] ys d = refl
distinct-fresh s (x ∷ xs) ys d =
    ground (arith, elem-append x xs (s ∷ ys), eq_iff s x, eq_iff x s, distinct-fresh s xs ys)

collect-texts :
    (normalized xs : List String)
    → all (λ s. in_list s access_capabilities) xs ≡ true
    → all_distinct (normalized ++ xs) ≡ true
    → collect_capabilities normalized (items (text_items xs)) ≡ ok (normalized ++ xs)
unfolding collect_capabilities validate_access_capability
collect-texts normalized [] k d = ap ok (sym (append-nil normalized))
collect-texts normalized (s ∷ xs) k d =
    let parts = and-eq-true (in_list s access_capabilities) _ k in
    rw (parts.0, distinct-fresh s normalized xs d)
      (collect-texts (normalized ++ s ∷ []) xs parts.1
          (ap all_distinct (append_assoc normalized (s ∷ []) xs) ∙ d)
        ∙ ap ok (append_assoc normalized (s ∷ []) xs))

list-texts :
    (xs : List String)
    → Capabilities xs
    → validate_access_capability_list (Value.sequence (text_items xs)) ≡ ok xs
unfolding validate_access_capability_list
list-texts xs c = collect-texts [] xs c.known c.distinct

each_enabled :
    (available prohibited enabled : List String)
    → all (λ c. elem ◌=ₛ◌ c available && not (elem ◌=ₛ◌ c prohibited)) enabled ≡ true
    → each (check_enabled available prohibited) enabled ≡ ok tt
unfolding each check_enabled
each_enabled available prohibited [] h = refl
each_enabled available prohibited (c ∷ cs) h =
    let parts = and-eq-true (in_list c available && not (in_list c prohibited)) _ h in
    let both = and-eq-true (in_list c available) _ parts.0 in
    rw (both.0, both.1, each_enabled available prohibited cs parts.1)

normal-kept : (a : BoxAccess) → IsNormal a → normalize_box_access (access_value a) ≡ ok a
unfolding normalize_box_access reject_unknown_fields normalize_access_fields
normal-kept a n = rw (
  list-texts a.available n.available,
  list-texts a.prohibited n.prohibited,
  n.apart,
  list-texts a.enabled n.enabled,
  each_enabled a.available a.prohibited a.enabled n.allowed,
)

-- What `normalize_box_access` returns, read again, is returned unchanged.
pub normalize_box_access_again :
    (value : Value) (a : BoxAccess)
    → normalize_box_access value ≡ ok a
    → normalize_box_access (access_value a) ≡ ok a
normalize_box_access_again value a h = normal-kept a (normalize_box_access-IsNormal value a h)
