-- ===== src/ResourceModel/Manifest/Ids.antt =====
-- The loops over features and datasets: their ids differ.
use klokast_box.Prelude.{
  String, ◌≡◌, refl, Bool, true, false, not, ◌&&◌, ◌||◌, List, [], ◌∷◌, ◌=ₛ◌, eq_iff, All, arith,
}
use klokast_box.Checks.{Outcome, ok, >>=-Returned}
use klokast_box.ResourceModel.{Value, Mapping, Refusal}
use klokast_box.ResourceModel.Values.{get}
use klokast_box.ResourceModel.TextLists.{in_list, all_distinct}
use klokast_box.ResourceModel.Manifest.{each_with_ids}

-- The values are mappings with these ids.
abbrev pub HasIds : List Value → List String → Type 0
HasIds [] [] = Unit {0}
HasIds (v ∷ vs) (s ∷ ss) =
    ((m : Mapping) × (v ≡ Value.mapping m) × (get "id" m ≡ Value.text s)) × HasIds vs ss
HasIds _ _ = ⊥

abbrev Unseen : List String → List String → Type 0
Unseen seen ids = All (λ s. in_list s seen ≡ false) ids

-- An id that was seen before the others is none of them.
fresh_ids :
    (s : String) (seen ids : List String)
    → Unseen (s ∷ seen) ids
    → (in_list s ids ≡ false) × Unseen seen ids
fresh_ids s seen [] h = (refl, tt)
fresh_ids s seen (t ∷ ts) h =
    let r = fresh_ids s seen ts h.1 in
    let here = h.0 in
    let tail = r.0 in
    (differs (in_list t seen) here tail, (later (t =ₛ s) (in_list t seen) here, r.1))
  where
    later : (a b : Bool) → (a || b) ≡ false → b ≡ false
    later a b e = ground arith

    differs :
        (b : Bool) → (t =ₛ s || b) ≡ false → in_list s ts ≡ false → (s =ₛ t || in_list s ts) ≡ false
    differs b e k = ground (arith, eq_iff s t, eq_iff t s)

module _ (f : List String → Value → Outcome Refusal String) (P : Value → Type 0)
    (step : (seen : List String) (v : Value) (s : String)
      → f seen v ≡ ok s
      → P v
        × ((m : Mapping) × (v ≡ Value.mapping m) × (get "id" m ≡ Value.text s))
        × (in_list s seen ≡ false)) where
  pub each_with_ids-All :
      (seen : List String) (values : List Value) {u : Unit {0}}
      → each_with_ids f seen values ≡ ok u
      → All P values
        × ((ids : List String) × HasIds values ids × Unseen seen ids × (all_distinct ids ≡ true))
  unfolding each_with_ids
  each_with_ids-All seen [] h = (tt, ([], tt, tt, refl))
  each_with_ids-All seen (v ∷ vs) h =
      let n = >>=-Returned (f seen v) _ h in
      let s = step seen v n.0 n.1 in
      let r = each_with_ids-All (n.0 ∷ seen) vs n.2 in
      let e = fresh_ids n.0 seen r.1.0 r.1.2 in
      (
        (s.0, r.0),
        (
          n.0 ∷ r.1.0,
          (s.1, r.1.1),
          (s.2, e.1),
          both (in_list n.0 r.1.0) (all_distinct r.1.0) e.0 r.1.3,
        ),
      )
    where
      both : (a b : Bool) → a ≡ false → b ≡ true → (not a && b) ≡ true
      both a b h k = ground arith
