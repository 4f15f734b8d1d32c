-- ===== src/ResourceModel/Placement/Sound.antt =====
-- What the boxes of an application satisfy.
use klokast_box.Prelude.{
  String, ◌≡◌, refl, sym, ap, subst, ◌∙◌, Bool, true, false, ◌&&◌, ◌||◌, List, [], ◌∷◌, ◌++◌, ◌=ₛ◌,
  eq_iff, All, arith, if◌then◌else◌, Bool-cases, inl, inr,
}
use klokast_box.Checks.{ok, check, >>=-Returned, ok-injective, if-eq-ok}
use klokast_box.ResourceModel.{Value, Mapping, Sequence, Refusal, died}
use klokast_box.ResourceModel.Inversion.{as_text-eq-ok}
use klokast_box.ResourceModel.Values.{get, truthy, or_else, no_list, text_is, as_list, items}
use klokast_box.ResourceModel.Names.{validate_box}
use klokast_box.ResourceModel.TextLists.{all_distinct, in_list, elem-append}
use klokast_box.ResourceModel.Placement.{
  entry_placement, manifest_placement_mode, per_user_app_vm_resources, box_name, box_names,
  field_boxes, listed_boxes, check_enabled_placement, has_some, selected_boxes,
}
use klokast_box.ResourceModel.Placement.Order.{ascending, sorted_texts-ascending, sorted_texts-elem}

-- Whether a list of values has a text.
abbrev pub lists_text : String → List Value → Bool
lists_text k [] = false
lists_text k (v ∷ vs) = text_is k v || lists_text k vs

-- The members of a value that is a list.
abbrev pub members : Value → List Value
members (Value.sequence s) = items s
members _ = []

-- Whether a field of a placement has a text that is not empty.
abbrev pub names_text : String → Value → Bool
names_text k v = truthy v && text_is k v

-- Whether a placement names a box, in its list or in one of its fields.
abbrev pub names_box : String → Mapping → Bool
names_box k placement =
    lists_text k (members (get "boxes" placement))
    || names_text k (get "active_master" placement)
    || names_text k (get "passive_backup" placement)
    || names_text k (get "builder_box" placement)

abbrev pub IsBox : String → Type 0
IsBox s = validate_box (Value.text s) ≡ ok tt

box_name-text :
    (value : Value) (s : String) → box_name value ≡ ok s → (value ≡ Value.text s) × IsBox s
unfolding box_name
box_name-text value s h =
    let v = >>=-Returned (validate_box value) _ h in
    let e = as_text-eq-ok value s v.2 in (e, ap validate_box (sym e) ∙ v.1)

box_names-IsBox :
    (values : List Value) (names : List String)
    → box_names values ≡ ok names
    → All IsBox names × ((k : String) → in_list k names ≡ lists_text k values)
unfolding box_names
box_names-IsBox [] names h =
    subst (λ ns. All IsBox ns × ((k : String) → in_list k ns ≡ lists_text k [])) (ok-injective h)
      (tt, λ k. refl)
box_names-IsBox (value ∷ rest) names h =
    let n = >>=-Returned (box_name value) _ h in
    let o = >>=-Returned (box_names rest) _ n.2 in
    let b = box_name-text value n.0 n.1 in
    let r = box_names-IsBox rest o.0 o.1 in
    subst (λ ns. All IsBox ns × ((k : String) → in_list k ns ≡ lists_text k (value ∷ rest)))
      (ok-injective o.2)
      (
        (b.1, r.0),
        λ k.
            ap (λ x. x || in_list k o.0) (ap (text_is k) (sym b.0))
            ∙ ap (λ x. text_is k value || x) (r.1 k),
      )

-- The members of a list that is a mapping's value.
list-members : (e : Refusal) (v : Value) (xs : List Value) → as_list e v ≡ ok xs → xs ≡ members v
list-members e (Value.sequence s) xs h = sym (ok-injective h)
list-members e (Value.text t) xs h = cc
list-members e (Value.integer n) xs h = cc
list-members e (Value.negative n) xs h = cc
list-members e (Value.boolean b) xs h = cc
list-members e Value.empty xs h = cc
list-members e (Value.mapping m) xs h = cc
list-members e (Value.other_scalar t z) xs h = cc

-- A value that counts as false names nothing.
untrue-members : (k : String) (v : Value) → truthy v ≡ false → lists_text k (members v) ≡ false
untrue-members k (Value.sequence Sequence.no_items) h = refl
untrue-members k (Value.sequence (Sequence.item v s)) h = cc
untrue-members k (Value.text t) h = refl
untrue-members k (Value.integer n) h = refl
untrue-members k (Value.negative n) h = refl
untrue-members k (Value.boolean b) h = refl
untrue-members k Value.empty h = refl
untrue-members k (Value.mapping m) h = refl
untrue-members k (Value.other_scalar t z) h = refl

or_else-members :
    (k : String) (v : Value) → lists_text k (members (or_else v no_list)) ≡ lists_text k (members v)
or_else-members k v = elim (Bool-cases (truthy v)) [
  | inl on ↦ ap (λ b. lists_text k (members (if b then v else no_list))) on
  | inr off ↦
      ap (λ b. lists_text k (members (if b then v else no_list))) off ∙ sym (untrue-members k v off)
]

listed_boxes-IsBox :
    (value : Value) (names : List String)
    → listed_boxes value ≡ ok names
    → All IsBox names × ((k : String) → in_list k names ≡ lists_text k (members value))
unfolding listed_boxes
listed_boxes-IsBox value names h = elim (if-eq-ok (truthy value) _ _ h) [
  | inl on ↦
      let v = >>=-Returned (as_list (died "placement.boxes must be a list") value) _ on.1 in
      let r = box_names-IsBox v.0 names v.2 in
      (r.0, λ k. r.1 k ∙ ap (lists_text k) (list-members _ value v.0 v.1))
  | inr off ↦
      subst (λ ns. All IsBox ns × ((k : String) → in_list k ns ≡ lists_text k (members value)))
        (ok-injective off.1) (tt, λ k. sym (untrue-members k value off.0))
]

-- The boxes that a list of fields names.
abbrev fields_name : String → Mapping → List String → Bool
fields_name k placement [] = false
fields_name k placement (field ∷ rest) =
    names_text k (get field placement) || fields_name k placement rest

field_boxes-IsBox :
    (placement : Mapping) (fields names : List String)
    → field_boxes placement fields ≡ ok names
    → All IsBox names × ((k : String) → in_list k names ≡ fields_name k placement fields)
unfolding field_boxes
field_boxes-IsBox placement [] names h =
    subst (λ ns. All IsBox ns × ((k : String) → in_list k ns ≡ false)) (ok-injective h)
      (tt, λ k. refl)
field_boxes-IsBox placement (field ∷ rest) names h =
    let value = get field placement in
    elim (if-eq-ok (truthy value) _ _ h) [
      | inl on ↦
          let n = >>=-Returned (box_name value) _ on.1 in
          let o = >>=-Returned (field_boxes placement rest) _ n.2 in
          let b = box_name-text value n.0 n.1 in
          let r = field_boxes-IsBox placement rest o.0 o.1 in
          subst
            (λ ns.
              All IsBox ns
              × ((k : String)
                  → in_list k ns ≡ (names_text k value || fields_name k placement rest)))
            (ok-injective o.2)
            (
              (b.1, r.0),
              λ k.
                  ap (λ x. x || in_list k o.0)
                    (ap (text_is k) (sym b.0) ∙ ap (λ t. t && text_is k value) (sym on.0))
                  ∙ ap (λ x. names_text k value || x) (r.1 k),
            )
      | inr off ↦
          let r = field_boxes-IsBox placement rest names off.1 in
          (
            r.0,
            λ k. r.1 k ∙ ap (λ t. t && text_is k value || fields_name k placement rest) (sym off.0),
          )
    ]

All-append : (xs ys : List String) → All IsBox xs → All IsBox ys → All IsBox (xs ++ ys)
All-append [] ys h k = k
All-append (x ∷ xs) ys h k = (h.0, All-append xs ys h.1 k)

-- A property of each member of a list, by membership.
All-elem : (xs : List String) (k : String) → All IsBox xs → in_list k xs ≡ true → IsBox k
All-elem [] k h e = cc
All-elem (x ∷ xs) k h e = elim (Bool-cases (k =ₛ x)) [
  | inl same ↦ subst IsBox (sym ((eq_iff k x).0 same)) h.0
  | inr other ↦ All-elem xs k h.1 (ap (λ b. b || in_list k xs) (sym other) ∙ e)
]

-- The boxes listed and the boxes of the fields are those that the placement names.
names_box-parts :
    (k : String) (placement : Mapping) (listed named : List String)
    → in_list k listed ≡ lists_text k (members (or_else (get "boxes" placement) no_list))
    → in_list k named
      ≡ fields_name k placement ("active_master" ∷ "passive_backup" ∷ "builder_box" ∷ [])
    → in_list k (listed ++ named) ≡ names_box k placement
names_box-parts k placement listed named l n =
    elem-append k listed named
    ∙ ap (λ b. b || in_list k named) (l ∙ or_else-members k (get "boxes" placement))
    ∙ ap (λ b. lists_text k (members (get "boxes" placement)) || b) n
    ∙ join (lists_text k (members (get "boxes" placement)))
        (names_text k (get "active_master" placement))
        (names_text k (get "passive_backup" placement)) (names_text k (get "builder_box" placement))
  where
    join : (l a b c : Bool) → (l || (a || (b || (c || false)))) ≡ (l || a || b || c)
    join l a b c = ground arith

-- Where the boxes of an application are accepted, they are in ascending order without a
-- repetition, each has the form of a box name, and they are exactly the boxes that the placement of
-- the entry names: in its list or in one of its three fields.
pub selected_boxes_sound :
    (app_name : String) (manifest entry : Mapping) (boxes : List String)
    → selected_boxes app_name manifest entry ≡ ok boxes
    → (placement : Mapping) × (entry_placement entry ≡ ok placement)
      × (ascending boxes ≡ true)
      × ((k : String) → in_list k boxes ≡ names_box k placement)
      × ((k : String) → in_list k boxes ≡ true → IsBox k)
unfolding selected_boxes
selected_boxes_sound app_name manifest entry boxes h =
    let p = >>=-Returned (entry_placement entry) _ h in
    let m = >>=-Returned (manifest_placement_mode manifest) _ p.2 in
    let v = >>=-Returned (per_user_app_vm_resources manifest) _ m.2 in
    let listing = or_else (get "boxes" p.0) no_list in
    let l = >>=-Returned (listed_boxes listing) _ v.2 in
    let f =
      >>=-Returned (field_boxes p.0 ("active_master" ∷ "passive_backup" ∷ "builder_box" ∷ [])) _
        l.2 in
    let c =
      >>=-Returned
        (check_enabled_placement app_name (truthy (get "enabled" entry)) m.0 (has_some v.0) p.0
          listing)
        _ f.2 in
    let d = >>=-Returned (check (all_distinct (l.0 ++ f.0)) _) _ c.2 in
    let lb = listed_boxes-IsBox listing l.0 l.1 in
    let fb =
      field_boxes-IsBox p.0 ("active_master" ∷ "passive_backup" ∷ "builder_box" ∷ []) f.0 f.1 in
    let same = ok-injective d.2 in
    let member : (k : String) → in_list k boxes ≡ in_list k (l.0 ++ f.0) =
      λ k. ap (in_list k) (sym same) ∙ sorted_texts-elem k (l.0 ++ f.0) in
    (
      p.0,
      p.1,
      ap ascending (sym same) ∙ sorted_texts-ascending (l.0 ++ f.0),
      (λ k. member k ∙ names_box-parts k p.0 l.0 f.0 (lb.1 k) (fb.1 k)),
      (λ k e. All-elem (l.0 ++ f.0) k (All-append l.0 f.0 lb.0 fb.0) (sym (member k) ∙ e)),
    )
