-- ===== src/ResourceModel/Values.antt =====
-- What platform_resource_model.py does with values that it read from YAML: lookups, truth, `or`,
-- and loops. A value of another type than an operation takes raises, as in Python.
use Prim.Native.String.{String}
use klokast_box.Prelude.{
  Bool, true, false, not, Option, none, some, List, [], ◌∷◌, ◌=ₛ◌, ◌==◌, if◌then◌else◌, elem,
}
use klokast_box.Checks.{Outcome, ok, raised, ◌>>=◌, check}
use klokast_box.ResourceModel.{Value, Mapping, Sequence, Refusal, crashed}

-- `m.get(key)`, where a key that is there with no value reads as one that is not.
abbrev pub find : String → Mapping → Option Value
find key Mapping.no_entries = none
find key (Mapping.bind k v rest) = if k =ₛ key then some v else find key rest

abbrev pub or_empty : Option Value → Value
or_empty none = Value.empty
or_empty (some v) = v

abbrev pub get : String → Mapping → Value
get key m = or_empty (find key m)

-- `m.get(key, default)`
abbrev pub get_or : String → Value → Mapping → Value
get_or key default m = elim (find key m) [ none ↦ default | some v ↦ v ]

-- `key in m`
abbrev pub has_key : String → Mapping → Bool
has_key key m = elim (find key m) [ none ↦ false | some v ↦ true ]

abbrev pub key_list : Mapping → List String
key_list Mapping.no_entries = []
key_list (Mapping.bind k v rest) = k ∷ key_list rest

abbrev pub entries : Mapping → List (String × Value)
entries Mapping.no_entries = []
entries (Mapping.bind k v rest) = (k, v) ∷ entries rest

abbrev pub items : Sequence → List Value
items Sequence.no_items = []
items (Sequence.item v rest) = v ∷ items rest

abbrev pub has_entries : Mapping → Bool
has_entries Mapping.no_entries = false
has_entries (Mapping.bind k v rest) = true

-- `bool(value)`
abbrev pub truthy : Value → Bool
truthy (Value.text s) = not (s =ₛ "")
truthy (Value.integer n) = not (n == 0)
truthy (Value.boolean b) = b
truthy Value.empty = false
truthy (Value.sequence Sequence.no_items) = false
truthy (Value.mapping Mapping.no_entries) = false
truthy (Value.other_scalar s zero) = not zero
truthy _ = true

-- `a or b`
abbrev pub or_else : Value → Value → Value
or_else a b = if truthy a then a else b

abbrev pub no_mapping : Value
no_mapping = Value.mapping Mapping.no_entries

abbrev pub no_list : Value
no_list = Value.sequence Sequence.no_items

-- `value == "…"`
abbrev pub text_is : String → Value → Bool
text_is s (Value.text t) = s =ₛ t
text_is s _ = false

-- `value in (…)`, for a tuple of texts.
abbrev pub text_among : List String → Value → Bool
text_among names (Value.text t) = elem ◌=ₛ◌ t names
text_among names _ = false

abbrev pub is_mapping : Value → Bool
is_mapping (Value.mapping m) = true
is_mapping _ = false

abbrev pub is_list : Value → Bool
is_list (Value.sequence s) = true
is_list _ = false

-- A value that is no key: a set or a dictionary asked for it raises.
abbrev pub is_hashable : Value → Bool
is_hashable (Value.mapping m) = false
is_hashable (Value.sequence s) = false
is_hashable _ = true

-- `value in names`, for a set of texts.
unfoldable pub in_set : List String → Value → Outcome Refusal Bool
in_set names v = check (is_hashable v) (crashed "TypeError") >>= λ _. ok (text_among names v)

abbrev pub find_value : Value → Mapping → Option Value
find_value (Value.text s) m = find s m
find_value _ m = none

-- `m.get(value)` and `value in m`, for a mapping with texts as keys.
unfoldable pub look_up : Value → Mapping → Outcome Refusal (Option Value)
look_up v m = check (is_hashable v) (crashed "TypeError") >>= λ _. ok (find_value v m)

-- A mapping, or the error that the caller raises for anything else.
abbrev pub as_mapping : Refusal → Value → Outcome Refusal Mapping
as_mapping e (Value.mapping m) = ok m
as_mapping e _ = raised e

abbrev pub as_list : Refusal → Value → Outcome Refusal (List Value)
as_list e (Value.sequence s) = ok (items s)
as_list e _ = raised e

-- `value.get(key)`
abbrev pub attribute_get : String → Value → Outcome Refusal Value
attribute_get key (Value.mapping m) = ok (get key m)
attribute_get key _ = raised (crashed "AttributeError")

abbrev pub letters : String → List Value
letters String.[] = []
letters (String.◌∷◌ c s) = Value.text (String.◌∷◌ c String.[]) ∷ letters s

abbrev pub texts : List String → List Value
texts [] = []
texts (s ∷ ss) = Value.text s ∷ texts ss

-- `for x in value`
abbrev pub iterate : Value → Outcome Refusal (List Value)
iterate (Value.sequence s) = ok (items s)
iterate (Value.mapping m) = ok (texts (key_list m))
iterate (Value.text s) = ok (letters s)
iterate _ = raised (crashed "TypeError")

-- `str(value)`, where it can be a name: the text of any other value begins with a digit, a sign, a
-- capital or a bracket.
abbrev pub name_of : Value → Option String
name_of (Value.text s) = some s
name_of (Value.other_scalar s zero) = some s
name_of _ = none

-- The mappings of a list, which Python filters by `isinstance(x, dict)`.
abbrev pub mappings_of : List Value → List Mapping
mappings_of [] = []
mappings_of (Value.mapping m ∷ vs) = m ∷ mappings_of vs
mappings_of (_ ∷ vs) = mappings_of vs
