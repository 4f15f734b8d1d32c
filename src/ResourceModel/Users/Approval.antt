-- ===== src/ResourceModel/Users/Approval.antt =====
-- Privileged resources run with an approval that has not expired.
use klokast_box.Prelude.{
  ℕ, String, ◌≡◌, refl, sym, ap, ◌∙◌, inl, inr, Bool, true, false, not, ◌||◌, ◌<◌, some, List, [],
  ◌∷◌, ◌=ₛ◌, leb, arith,
}
use klokast_box.Prelude.Text.{codes}
use klokast_box.Checks.{
  ok, check, or_raise, >>=-Returned, check-eq-ok, check-not-eq-ok, or_raise-eq-ok, ok-injective,
  if-eq-ok,
}
use klokast_box.ResourceModel.{Value, Mapping, died}
use klokast_box.ResourceModel.Values.{
  get, truthy, or_else, no_mapping, as_mapping, as_list, mappings_of,
}
use klokast_box.ResourceModel.Names.{validate_id}
use klokast_box.ResourceModel.Inversion.{as_mapping-eq-ok}
use klokast_box.ResourceModel.Placement.{section_of}
use klokast_box.ResourceModel.Users.{
  is_privileged, any_privileged, with_offset, Times, check_expiry, check_approval,
  validate_privileged_runtime,
}

abbrev pub some_privileged : List Mapping → Bool
some_privileged [] = false
some_privileged (m ∷ ms) = is_privileged m || some_privileged ms

any_privileged-eq :
    (vs : List Value) (b : Bool) → any_privileged vs ≡ ok b → b ≡ some_privileged (mappings_of vs)
unfolding any_privileged
any_privileged-eq [] b h = sym (ok-injective h)
any_privileged-eq (v ∷ vs) b h =
    let m = >>=-Returned (as_mapping (died "compute resources must be mappings") v) _ h in
    let i = >>=-Returned (validate_id (get "id" m.0)) _ m.2 in
    let o = >>=-Returned (any_privileged vs) _ i.2 in
    sym (ok-injective o.2)
    ∙ ap (λ x. is_privileged m.0 || x) (any_privileged-eq vs o.0 o.1)
    ∙ ap (λ w. some_privileged (mappings_of (w ∷ vs))) (sym (as_mapping-eq-ok _ v m.0 m.1))

-- An approval, and a moment that it holds until.
pub record IsApproved (times : Times) (registration : Mapping) : Type 0 where
  pub controls : Mapping
  pub expires_at : String
  pub moment : ℕ
  pub at :
      or_else (or_else (get "ephemeral" registration) (get "controls" registration)) no_mapping
      ≡ Value.mapping controls
  pub approval : truthy (get "privileged_approval" controls) ≡ true
  pub expiry : get "expires_at" controls ≡ Value.text expires_at
  pub names_moment : times.from_text (with_offset (codes expires_at)) ≡ some (some moment)
  pub unexpired : times.now < moment

module _ (times : Times) where
  expiry-lem :
      (v : Value)
      → check_expiry times v ≡ ok tt
      → (s : String) × (moment : ℕ) × (v ≡ Value.text s)
        × (times.from_text (with_offset (codes s)) ≡ some (some moment))
        × (times.now < moment)
  unfolding check_expiry
  expiry-lem (Value.text s) h =
      let c = >>=-Returned (check (not (s =ₛ "")) _) _ h in
      let m = >>=-Returned (or_raise (times.from_text (with_offset (codes s))) _) _ c.2 in
      let e = >>=-Returned (or_raise m.0 _) _ m.2 in
      (
        s,
        e.0,
        refl,
        or_raise-eq-ok _ _ m.1 ∙ ap some (or_raise-eq-ok _ _ e.1),
        later e.0 times.now (check-not-eq-ok _ _ e.2),
      )
    where
      later : (a b : ℕ) → leb a b ≡ false → b < a
      later a b k = ground arith
  expiry-lem (Value.integer n) h = cc
  expiry-lem (Value.negative n) h = cc
  expiry-lem (Value.boolean b) h = cc
  expiry-lem Value.empty h = cc
  expiry-lem (Value.sequence q) h = cc
  expiry-lem (Value.mapping m) h = cc
  expiry-lem (Value.other_scalar t z) h = cc

  check_approval-IsApproved :
      (registration : Mapping)
      → check_approval times registration ≡ ok tt
      → IsApproved times registration
  unfolding check_approval
  check_approval-IsApproved registration h =
      let value =
        or_else (or_else (get "ephemeral" registration) (get "controls" registration)) no_mapping in
      let c = >>=-Returned (as_mapping (died "ephemeral/controls must be a mapping") value) _ h in
      let a = >>=-Returned (check (truthy (get "privileged_approval" c.0)) _) _ c.2 in
      let e = expiry-lem (get "expires_at" c.0) a.2 in
      record {
        controls = c.0;
        expires_at = e.0;
        moment = e.1;
        at = as_mapping-eq-ok _ value c.0 c.1;
        approval = check-eq-ok _ _ a.1;
        expiry = e.2;
        names_moment = e.3;
        unexpired = e.4;
      }

  -- Where an enabled entry is accepted and one of the manifest's compute resources is privileged,
  -- the entry has an approval, and the moment until which it holds is after the present one.
  pub validate_privileged_runtime_sound :
      (manifest registration : Mapping) (compute : Value) (values : List Value)
      → truthy (get "enabled" registration) ≡ true
      → section_of "compute" manifest ≡ ok compute
      → as_list (died "resources.compute must be a list") compute ≡ ok values
      → some_privileged (mappings_of values) ≡ true
      → validate_privileged_runtime times manifest registration ≡ ok tt
      → IsApproved times registration
  unfolding validate_privileged_runtime
  validate_privileged_runtime_sound manifest registration compute values on at_compute at_values
        privileged h =
      elim (if-eq-ok (truthy (get "enabled" registration)) _ _ h) [
        | inl active ↦
            let s = >>=-Returned (section_of "compute" manifest) _ active.1 in
            let same_section = ok-injective (sym s.1 ∙ at_compute) in
            let l = >>=-Returned (as_list (died "resources.compute must be a list") s.0) _ s.2 in
            let same_list = ok-injective (
              sym l.1
              ∙ ap (as_list (died "resources.compute must be a list")) same_section
              ∙ at_values) in
            let p = >>=-Returned (any_privileged l.0) _ l.2 in
            let found =
              any_privileged-eq l.0 p.0 p.1
              ∙ ap (λ vs. some_privileged (mappings_of vs)) same_list
              ∙ privileged in
            elim (if-eq-ok p.0 _ _ p.2) [
              | inl asked ↦ check_approval-IsApproved registration asked.1
              | inr free ↦ absurd (apart found free.0)
            ]
        | inr idle ↦ absurd (apart on idle.0)
      ]
    where
      apart : {b : Bool} → b ≡ true → b ≡ false → ⊥
      apart a k = cc
