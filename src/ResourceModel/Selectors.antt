-- ===== src/ResourceModel/Selectors.antt =====
-- platform_resource_model.py `validate_tailnet_port_selectors`.
use klokast_box.Prelude.{
  ℕ, ◌+◌, ◌*◌, ◌-◌, String, Bool, true, false, not, ◌&&◌, ◌||◌, Option, none, some, List, [], ◌∷◌,
  ◌==◌, ◌=ₛ◌, ltb, if◌then◌else◌, all,
}
use klokast_box.Prelude.Text.{codes, is_digit}
use klokast_box.Checks.{Outcome, ok, raised, ◌>>=◌, ◌>>◌, check}
use klokast_box.ResourceModel.{Value, Sequence, Refusal, died, crashed}
use klokast_box.ResourceModel.Values.{items}
use klokast_box.ResourceModel.Ports.{validate_ports}
use klokast_box.ResourceModel.Placement.{codes_ltb}

-- A port, by its `str`, and a range, by its text and its first port. `true` is the text of `True`,
-- which has no first port.
pub data Selector : Type 0 where
  port : ℕ → Selector
  range : ℕ → String → Selector
  true_text : Selector

abbrev pub number : ℕ → List ℕ → ℕ
number n [] = n
number n (c ∷ s) = number (n * 10 + (c - b'0')) s

abbrev pub not_empty : List ℕ → Bool
not_empty [] = false
not_empty (c ∷ s) = true

-- `re.fullmatch('([0-9]+)-([0-9]+)', text)`: the digits so far, and the rest.
abbrev pub split_range : List ℕ → List ℕ → Option (ℕ × ℕ)
split_range before [] = none
split_range before (c ∷ s) =
    let more = split_range (c ∷ before) s in
    if c == b'-'
    then if not_empty before && not_empty s && all is_digit s
      then some (number 0 (reversed before []), number 0 s)
      else none
    else if is_digit c
    then more
    else none
  where
    reversed : List ℕ → List ℕ → List ℕ
    reversed [] out = out
    reversed (d ∷ ds) out = reversed ds (d ∷ out)

abbrev pub port_list : ℕ → ℕ → Value
port_list first last =
    Value.sequence
      (Sequence.item (Value.integer first) (Sequence.item (Value.integer last) Sequence.no_items))

abbrev pub one_port : Value → Value
one_port value = Value.sequence (Sequence.item value Sequence.no_items)

unfoldable pub read_range : String → Option (ℕ × ℕ) → Outcome Refusal Selector
read_range s none = raised (died "must contain integer ports or start-end ranges")
read_range s (some (first, last)) = do
  ports ← validate_ports (port_list first last)
  check (not (ltb last first)) (died "contains an invalid port range")
  ok (Selector.range first s)

unfoldable pub read_selector : Value → Outcome Refusal Selector
unfolding read_range
read_selector (Value.integer n) =
    validate_ports (one_port (Value.integer n)) >>= λ _. ok (Selector.port n)
read_selector (Value.negative n) =
    validate_ports (one_port (Value.negative n)) >>= λ _. ok (Selector.port n)
read_selector (Value.boolean b) =
    validate_ports (one_port (Value.boolean b)) >>= λ _. ok Selector.true_text
read_selector (Value.text s) = read_range s (split_range [] (codes s))
read_selector _ = raised (died "must contain integer ports or start-end ranges")

unfoldable pub read_selectors : List Value → Outcome Refusal (List Selector)
unfolding read_selector
read_selectors [] = ok []
read_selectors (value ∷ rest) =
    let others = read_selectors rest in
    read_selector value >>= λ selector. others >>= λ selectors. ok (selector ∷ selectors)

abbrev pub same_selector : Selector → Selector → Bool
same_selector (Selector.port n) (Selector.port m) = n == m
same_selector (Selector.range n s) (Selector.range m t) = s =ₛ t
same_selector Selector.true_text Selector.true_text = true
same_selector _ _ = false

-- A text with a leading zero is before the `str` of the same port, any other range after it.
abbrev pub has_leading_zero : List ℕ → Bool
has_leading_zero [] = false
has_leading_zero (c ∷ s) = c == b'0'

-- The order of the keys `(int(text.split('-')[0]), text)`.
abbrev pub selector_ltb : Selector → Selector → Bool
selector_ltb (Selector.port n) (Selector.port m) = ltb n m
selector_ltb (Selector.port n) (Selector.range m t) =
    ltb n m || n == m && not (has_leading_zero (codes t))
selector_ltb (Selector.range n s) (Selector.port m) =
    ltb n m || n == m && has_leading_zero (codes s)
selector_ltb (Selector.range n s) (Selector.range m t) =
    ltb n m || n == m && codes_ltb (codes s) (codes t)
selector_ltb _ _ = false

unfoldable pub insert_selector : Selector → List Selector → List Selector
insert_selector s [] = s ∷ []
insert_selector s (t ∷ ts) =
    let later = insert_selector s ts in
    if same_selector s t then t ∷ ts else if selector_ltb s t then s ∷ t ∷ ts else t ∷ later

unfoldable pub sort_selectors : List Selector → List Selector
unfolding insert_selector
sort_selectors [] = []
sort_selectors (s ∷ ss) = insert_selector s (sort_selectors ss)

abbrev pub has_number : Selector → Bool
has_number Selector.true_text = false
has_number _ = true

unfoldable pub validate_tailnet_port_selectors : Value → Outcome Refusal (List Selector)
unfolding read_selectors sort_selectors
validate_tailnet_port_selectors (Value.sequence (Sequence.item value rest)) = do
  selectors ← read_selectors (value ∷ items rest)
  -- `int('True')`
  check (all has_number selectors) (crashed "ValueError")
  ok (sort_selectors selectors)
validate_tailnet_port_selectors _ = raised (died "must be a non-empty list of ports or port ranges")
