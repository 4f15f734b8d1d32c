-- ===== src/ResourceModel/Tests.antt =====
-- A manifest fragment with a key that no manifest may have, and a list of ports.
use klokast_box.Checks.{ok, raised, each}
use klokast_box.ResourceModel.{forbidden, Value, Mapping, Sequence}
use klokast_box.Prelude.{◌≡◌, refl, ℕ, List, [], ◌∷◌, ◌≤◌, true, All, elem, ◌==◌}
use klokast_box.ResourceModel.Ports.{
  Port, numbers_of, validate_ports, read_ports, sorted_set, insert, Ascending, names_port,
  validate_ports_sound,
}
use klokast_box.ResourceModel.Fields.{
  reject_raw_network_fields, reject_tcb_control_fields, reject_fields, admit, keys,
  raw_network_fields, tcb_control_fields, reject_named_fields,
}

-- {network: [{id: web, source: lan}]}
abbrev fragment : Value
fragment = Value.mapping (
    Mapping.bind "network"
      (Value.sequence (
        Sequence.item
          (Value.mapping (
            Mapping.bind "id" (Value.text "web")
              (Mapping.bind "source" (Value.text "lan") Mapping.no_entries)))
          Sequence.no_items))
      Mapping.no_entries)

source_refused : reject_raw_network_fields fragment ≡ raised (forbidden "source")
unfolding reject_raw_network_fields reject_fields
source_refused = refl

source_is_not_control : reject_tcb_control_fields fragment ≡ ok tt
unfolding reject_tcb_control_fields reject_fields
source_is_not_control = refl

reject_named_fields_example :
    (reject_raw_network_fields fragment ≡ each (admit raw_network_fields) (keys fragment))
    × (reject_tcb_control_fields fragment ≡ each (admit tcb_control_fields) (keys fragment))
reject_named_fields_example = reject_named_fields fragment

abbrev more_ports : Sequence
more_ports =
    Sequence.item (Value.integer 80)
      (Sequence.item (Value.integer 443) (Sequence.item (Value.boolean true) Sequence.no_items))

-- The ports 443, 80, 443 again and a `true`.
abbrev port_list : Value
port_list = Value.sequence (Sequence.item (Value.integer 443) more_ports)

-- The `true` is the first of the set, and stays one.
abbrev some_ports : List Port
some_ports = Port.true_port ∷ Port.plain 80 ∷ Port.plain 443 ∷ []

validate_ports_sound_example :
    (first : Value) × (rest : Sequence) × (port_list ≡ Value.sequence (Sequence.item first rest))
    × Ascending 0 (numbers_of some_ports)
    × All (λ n. n ≤ 65535) (numbers_of some_ports)
    × ((k : ℕ) → elem ◌==◌ k (numbers_of some_ports) ≡ names_port k (Sequence.item first rest))
unfolding validate_ports read_ports sorted_set insert
validate_ports_sound_example = validate_ports_sound port_list some_ports refl
