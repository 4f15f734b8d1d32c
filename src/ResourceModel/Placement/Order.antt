-- ===== src/ResourceModel/Placement/Order.antt =====
-- The order of texts by code points, and what sorting a set of texts keeps.
use Prim.Native.Char.{code}
use Prim.Native.Nat.{compare}
use text.Mathlib.TextEquality.{codes_equal}
use text.Mathlib.TextPositions.{compare_self}
use klokast_box.Prelude.{
  ℕ, String, ◌≡◌, refl, sym, ap, ◌∙◌, Bool, true, false, ◌&&◌, ◌||◌, List, [], ◌∷◌, ◌==◌, ◌=ₛ◌,
  eq_iff, ==_iff, arith, Bool-cases, inl, inr, and-eq-true,
}
use klokast_box.Prelude.Text.{codes}
use klokast_box.ResourceModel.Names.{same_codes}
use klokast_box.ResourceModel.TextLists.{in_list}
use klokast_box.ResourceModel.Placement.{codes_ltb, insert_text, sorted_texts}

-- Each text is after the one before it, and the first after a given one.
abbrev pub chain : List ℕ → List String → Bool
chain low [] = true
chain low (s ∷ ss) = codes_ltb low (codes s) && chain (codes s) ss

abbrev pub ascending : List String → Bool
ascending [] = true
ascending (s ∷ ss) = chain (codes s) ss

codes_total : (s t : List ℕ) → codes_ltb s t ≡ false → same_codes s t ≡ false → codes_ltb t s ≡ true
codes_total [] [] h k = cc
codes_total [] (d ∷ t) h k = cc
codes_total (c ∷ s) [] h k = refl
codes_total (c ∷ s) (d ∷ t) h k = ground (arith, codes_total s t)

same_codes-eq : (s t : String) → same_codes (codes s) (codes t) ≡ true → s ≡ t
same_codes-eq String.[] String.[] h = refl
same_codes-eq String.[] (String.◌∷◌ d t) h = cc
same_codes-eq (String.◌∷◌ c s) String.[] h = cc
same_codes-eq (String.◌∷◌ c s) (String.◌∷◌ d t) h =
    let parts = and-eq-true (code c == code d) _ h in
    let heads : c ≡ d = codes_equal c d (
      ap (compare (code c)) (sym ((==_iff (code c) (code d)).0 parts.0)) ∙ compare_self (code c)) in
    let tails = same_codes-eq s t parts.1 in λ i. String.◌∷◌ (heads i) (tails i)

-- One of two different texts is before the other.
text_total :
    (s t : String)
    → (s =ₛ t) ≡ false
    → codes_ltb (codes s) (codes t) ≡ false
    → codes_ltb (codes t) (codes s) ≡ true
text_total s t differs h =
    codes_total (codes s) (codes t) h (elim (Bool-cases (same_codes (codes s) (codes t))) [
      | inl same ↦ absurd (false-ne-true (sym differs ∙ (eq_iff s t).1 (same_codes-eq s t same)))
      | inr other ↦ other
    ])
  where
    false-ne-true : ◌≡◌ {A = Bool} false true → ⊥
    false-ne-true e = cc

both_true : {a b : Bool} → a ≡ true → b ≡ true → (a && b) ≡ true
both_true {a} {b} h k = ground arith

insert_text-chain :
    (low : List ℕ) (s : String) (ts : List String)
    → codes_ltb low (codes s) ≡ true
    → chain low ts ≡ true
    → chain low (insert_text s ts) ≡ true
unfolding insert_text
insert_text-chain low s [] h c = both_true h refl
insert_text-chain low s (t ∷ ts) h c = elim (Bool-cases (s =ₛ t)) [
  | inl same ↦ rw same c
  | inr differs ↦ elim (Bool-cases (codes_ltb (codes s) (codes t))) [
    | inl before ↦
        rw (differs, before)
          (both_true h (both_true before (and-eq-true (codes_ltb low (codes t)) _ c).1))
    | inr after ↦
        let parts = and-eq-true (codes_ltb low (codes t)) _ c in
        rw (differs, after)
          (both_true parts.0
            (insert_text-chain (codes t) s ts (text_total s t differs after) parts.1))
  ]
]

insert_text-ascending :
    (s : String) (ts : List String) → ascending ts ≡ true → ascending (insert_text s ts) ≡ true
unfolding insert_text
insert_text-ascending s [] a = refl
insert_text-ascending s (t ∷ ts) a = elim (Bool-cases (s =ₛ t)) [
  | inl same ↦ rw same a
  | inr differs ↦ elim (Bool-cases (codes_ltb (codes s) (codes t))) [
    | inl before ↦ rw (differs, before) (both_true before a)
    | inr after ↦
        rw (differs, after) (insert_text-chain (codes t) s ts (text_total s t differs after) a)
  ]
]

pub sorted_texts-ascending : (ss : List String) → ascending (sorted_texts ss) ≡ true
unfolding sorted_texts
sorted_texts-ascending [] = refl
sorted_texts-ascending (s ∷ ss) =
    insert_text-ascending s (sorted_texts ss) (sorted_texts-ascending ss)

insert_text-elem :
    (k s : String) (ts : List String) → in_list k (insert_text s ts) ≡ (k =ₛ s || in_list k ts)
unfolding insert_text
insert_text-elem k s [] = refl
insert_text-elem k s (t ∷ ts) =
    ground (arith, eq_iff s t, eq_iff k s, eq_iff k t, insert_text-elem k s ts)

pub sorted_texts-elem : (k : String) (ss : List String) → in_list k (sorted_texts ss) ≡ in_list k ss
unfolding sorted_texts
sorted_texts-elem k [] = refl
sorted_texts-elem k (s ∷ ss) =
    insert_text-elem k s (sorted_texts ss) ∙ ap (λ b. k =ₛ s || b) (sorted_texts-elem k ss)
