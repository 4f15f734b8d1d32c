-- ===== src/ResourceModel/Inversion.antt =====
-- Casts that returned, by the value that they were made of.
use klokast_box.Prelude.{String, ◌≡◌, refl, sym, ap, List}
use klokast_box.Checks.{ok, ok-injective}
use klokast_box.ResourceModel.{Value, Mapping, Sequence, Refusal}
use klokast_box.ResourceModel.Values.{as_mapping, as_list, items}
use klokast_box.ResourceModel.Topology.{as_text}

pub as_mapping-eq-ok :
    (e : Refusal) (v : Value) (m : Mapping) → as_mapping e v ≡ ok m → v ≡ Value.mapping m
as_mapping-eq-ok e (Value.mapping m) n h = ap Value.mapping (ok-injective h)
as_mapping-eq-ok e (Value.sequence s) n h = cc
as_mapping-eq-ok e (Value.text s) n h = cc
as_mapping-eq-ok e (Value.integer k) n h = cc
as_mapping-eq-ok e (Value.negative k) n h = cc
as_mapping-eq-ok e (Value.boolean b) n h = cc
as_mapping-eq-ok e Value.empty n h = cc
as_mapping-eq-ok e (Value.other_scalar s z) n h = cc

pub as_list-eq-ok :
    (e : Refusal) (v : Value) (vs : List Value)
    → as_list e v ≡ ok vs
    → (s : Sequence) × (v ≡ Value.sequence s) × (vs ≡ items s)
as_list-eq-ok e (Value.sequence s) vs h = (s, refl, sym (ok-injective h))
as_list-eq-ok e (Value.mapping m) vs h = cc
as_list-eq-ok e (Value.text s) vs h = cc
as_list-eq-ok e (Value.integer k) vs h = cc
as_list-eq-ok e (Value.negative k) vs h = cc
as_list-eq-ok e (Value.boolean b) vs h = cc
as_list-eq-ok e Value.empty vs h = cc
as_list-eq-ok e (Value.other_scalar s z) vs h = cc

pub as_text-eq-ok : (v : Value) (s : String) → as_text v ≡ ok s → v ≡ Value.text s
as_text-eq-ok (Value.text t) s h = ap Value.text (ok-injective h)
as_text-eq-ok (Value.integer n) s h = cc
as_text-eq-ok (Value.negative n) s h = cc
as_text-eq-ok (Value.boolean b) s h = cc
as_text-eq-ok Value.empty s h = cc
as_text-eq-ok (Value.sequence q) s h = cc
as_text-eq-ok (Value.mapping m) s h = cc
as_text-eq-ok (Value.other_scalar t z) s h = cc
