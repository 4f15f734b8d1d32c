-- ===== src/ResourceModel/Placement.antt =====
-- platform_resource_model.py `entry_placement`, `manifest_placement_mode`, `selected_boxes`,
-- `app_runtime_state`: where an application of the registry runs, and whether.
pub mod Order
pub mod Sound
use klokast_box.Prelude.{
  ℕ, String, Bool, true, false, not, ◌&&◌, ◌||◌, Option, none, some, List, [], ◌∷◌, ◌++◌, ◌==◌,
  ◌=ₛ◌, ltb, if◌then◌else◌, elem,
}
use klokast_box.Prelude.Text.{codes}
use klokast_box.Checks.{Outcome, ok, raised, ◌>>=◌, ◌>>◌, check}
use klokast_box.ResourceModel.{Value, Mapping, Sequence, Refusal, died, crashed}
use klokast_box.ResourceModel.Values.{
  get, get_or, has_key, truthy, or_else, no_mapping, no_list, text_is, as_mapping, as_list,
  attribute_get, iterate, mappings_of,
}
use klokast_box.ResourceModel.Names.{validate_box}
use klokast_box.ResourceModel.Topology.{as_text}
use klokast_box.ResourceModel.TextLists.{all_distinct}

-- `merged[field] = value`, for a field that is not there.
abbrev pub append_entry : String → Value → Mapping → Mapping
append_entry key v Mapping.no_entries = Mapping.bind key v Mapping.no_entries
append_entry key v (Mapping.bind k w rest) = Mapping.bind k w (append_entry key v rest)

unfoldable pub take_over : Mapping → List String → Mapping → Mapping
take_over entry [] merged = merged
take_over entry (field ∷ rest) merged = take_over entry rest (
    if has_key field entry && not (has_key field merged)
    then append_entry field (get field entry) merged
    else merged)

unfoldable pub entry_placement : Mapping → Outcome Refusal Mapping
unfolding take_over
entry_placement entry =
    as_mapping (died "app placement must be a mapping") (or_else (get "placement" entry) no_mapping)
    >>= λ placement. ok (
        take_over entry ("active_master" ∷ "passive_backup" ∷ "builder_box" ∷ "boxes" ∷ [])
          placement)

pub data Mode : Type 0 where
  active_passive single_box multi_box : Mode

unfoldable pub mode_of : Value → Outcome Refusal Mode
mode_of (Value.text s) =
    if s =ₛ "active_passive"
    then ok Mode.active_passive
    else if s =ₛ "single_box"
    then ok Mode.single_box
    else if s =ₛ "multi_box"
    then ok Mode.multi_box
    else raised (died "placement_mode must be one of")
mode_of _ = raised (died "placement_mode must be one of")

unfoldable pub manifest_placement_mode : Mapping → Outcome Refusal Mode
unfolding mode_of
manifest_placement_mode manifest =
    mode_of (or_else (get "placement_mode" manifest) (Value.text "active_passive"))

abbrev pub of_type : String → List Mapping → List Mapping
of_type name [] = []
of_type name (m ∷ ms) =
    let rest = of_type name ms in if text_is name (get "type" m) then m ∷ rest else rest

-- `(manifest.get('resources') or {}).get(section) or []`
unfoldable pub section_of : String → Mapping → Outcome Refusal Value
section_of section manifest =
    attribute_get section (or_else (get "resources" manifest) no_mapping) >>= λ value.
    ok (or_else value no_list)

unfoldable pub compute_of_type : String → Mapping → Outcome Refusal (List Mapping)
unfolding section_of
compute_of_type name manifest = section_of "compute" manifest >>= λ compute.
    iterate compute >>= λ values. ok (of_type name (mappings_of values))

unfoldable pub per_user_app_vm_resources : Mapping → Outcome Refusal (List Mapping)
unfolding compute_of_type
per_user_app_vm_resources manifest = compute_of_type "per_user_app_vm" manifest

unfoldable pub app_vm_resources : Mapping → Outcome Refusal (List Mapping)
unfolding compute_of_type
app_vm_resources manifest = compute_of_type "app_vm" manifest

unfoldable pub managed_iot_device_resources : Mapping → Outcome Refusal (List Mapping)
unfolding compute_of_type
managed_iot_device_resources manifest = compute_of_type "managed_iot_device" manifest

unfoldable pub box_name : Value → Outcome Refusal String
box_name value = validate_box value >>= λ _. as_text value

unfoldable pub box_names : List Value → Outcome Refusal (List String)
unfolding box_name
box_names [] = ok []
box_names (value ∷ rest) =
    let others = box_names rest in box_name value >>= λ name. others >>= λ names. ok (name ∷ names)

-- The boxes of the fields that name one.
unfoldable pub field_boxes : Mapping → List String → Outcome Refusal (List String)
unfolding box_name
field_boxes placement [] = ok []
field_boxes placement (field ∷ rest) =
    let others = field_boxes placement rest in
    if truthy (get field placement)
    then (box_name (get field placement) >>= λ name. others >>= λ names. ok (name ∷ names))
    else others

-- The loop over the list of boxes is skipped for an empty one.
unfoldable pub listed_boxes : Value → Outcome Refusal (List String)
unfolding box_names
listed_boxes value =
    if truthy value
    then (as_list (died "placement.boxes must be a list") value >>= box_names)
    else ok []

unfoldable pub check_mode : Mode → Bool → Mapping → Value → Outcome Refusal (Unit {0})
check_mode Mode.multi_box per_user placement boxes = do
  check (truthy boxes) (died "placement.boxes is required when enabled")
  check (not (truthy (get "active_master" placement) || truthy (get "passive_backup" placement)))
      (died "active_master/passive_backup must be empty for multi_box apps")
check_mode Mode.single_box per_user placement boxes = do
  check (truthy (get "active_master" placement)) (died "placement field is required when enabled")
  check (not (truthy (get "passive_backup" placement)))
      (died "passive_backup must be empty for single_box apps")
check_mode Mode.active_passive per_user placement boxes = do
  check (truthy (get "active_master" placement)) (died "placement field is required when enabled")
  check (per_user || truthy (get "passive_backup" placement))
      (died "placement field is required when enabled")

abbrev pub builder_app : String
builder_app = "bootstrap-iso-debian"

-- What an enabled application must have selected.
unfoldable pub check_enabled_placement :
    String → Bool → Mode → Bool → Mapping → Value → Outcome Refusal (Unit {0})
unfolding check_mode
check_enabled_placement app_name false mode per_user placement boxes = ok tt
check_enabled_placement app_name true mode per_user placement boxes =
    if app_name =ₛ builder_app
    then check (truthy (get "builder_box" placement))
        (died "placement.builder_box is required when enabled")
    else check_mode mode per_user placement boxes

-- `s < t`, by code points.
abbrev pub codes_ltb : List ℕ → List ℕ → Bool
codes_ltb s [] = false
codes_ltb [] (d ∷ t) = true
codes_ltb (c ∷ s) (d ∷ t) = ltb c d || c == d && codes_ltb s t

unfoldable pub insert_text : String → List String → List String
insert_text s [] = s ∷ []
insert_text s (t ∷ ts) =
    let later = insert_text s ts in
    if s =ₛ t then t ∷ ts else if codes_ltb (codes s) (codes t) then s ∷ t ∷ ts else t ∷ later

-- `sorted(set(texts))`
unfoldable pub sorted_texts : List String → List String
unfolding insert_text
sorted_texts [] = []
sorted_texts (s ∷ ss) = insert_text s (sorted_texts ss)

abbrev pub has_some : {A : Type 0} → List A → Bool
has_some [] = false
has_some (x ∷ xs) = true

unfoldable pub selected_boxes : String → Mapping → Mapping → Outcome Refusal (List String)
unfolding listed_boxes field_boxes check_enabled_placement sorted_texts
selected_boxes app_name manifest entry = do
  placement ← entry_placement entry
  mode ← manifest_placement_mode manifest
  per_user_vms ← per_user_app_vm_resources manifest
  let placement_boxes = or_else (get "boxes" placement) no_list
  listed ← listed_boxes placement_boxes
  named ← field_boxes placement ("active_master" ∷ "passive_backup" ∷ "builder_box" ∷ [])
  check_enabled_placement app_name (truthy (get "enabled" entry)) mode (has_some per_user_vms)
      placement placement_boxes
  check (all_distinct (listed ++ named)) (died "placement boxes must be unique")
  ok (sorted_texts (listed ++ named))

pub data RuntimeState : Type 0 where
  running stopped : RuntimeState

-- `running` and `stopped`, with `None` and an empty text for the first.
unfoldable pub runtime_state_of : Value → Outcome Refusal RuntimeState
runtime_state_of Value.empty = ok RuntimeState.running
runtime_state_of (Value.text s) =
    if s =ₛ "" || s =ₛ "running"
    then ok RuntimeState.running
    else if s =ₛ "stopped"
    then ok RuntimeState.stopped
    else raised (died "runtime_state must be running or stopped")
runtime_state_of _ = raised (died "runtime_state must be running or stopped")

unfoldable pub app_runtime_state : Mapping → Outcome Refusal RuntimeState
unfolding runtime_state_of
app_runtime_state entry =
    runtime_state_of (get_or "runtime_state" (Value.text "running") entry) >>= λ state.
    ok (if truthy (get "enabled" entry) then state else RuntimeState.stopped)
