-- ===== src/ResourceModel/TextLists.antt =====
-- Lists of texts: membership, texts that are all different, and what appending does to them.
use klokast_box.Prelude.{
  String, ◌≡◌, refl, Bool, true, false, not, ◌&&◌, ◌||◌, List, [], ◌∷◌, ◌++◌, ◌=ₛ◌, eq_iff, elem,
  all, arith,
}

abbrev pub in_list : String → List String → Bool
in_list s xs = elem ◌=ₛ◌ s xs

-- `len(set(texts)) == len(texts)`
abbrev pub all_distinct : List String → Bool
all_distinct [] = true
all_distinct (s ∷ ss) = not (elem ◌=ₛ◌ s ss) && all_distinct ss

pub elem-append :
    (s : String) (xs ys : List String) → in_list s (xs ++ ys) ≡ (in_list s xs || in_list s ys)
elem-append s [] ys = refl
elem-append s (x ∷ xs) ys = ground (arith, elem-append s xs ys)

-- A text that is not there can be appended.
pub distinct-append :
    (s : String) (xs : List String)
    → in_list s xs ≡ false
    → all_distinct xs ≡ true
    → all_distinct (xs ++ s ∷ []) ≡ true
distinct-append s [] h d = refl
distinct-append s (x ∷ xs) h d =
    ground (arith, elem-append x xs (s ∷ []), eq_iff s x, eq_iff x s, distinct-append s xs)

pub all-append :
    (p : String → Bool) (xs ys : List String) → all p (xs ++ ys) ≡ (all p xs && all p ys)
all-append p [] ys = refl
all-append p (x ∷ xs) ys = ground (arith, all-append p xs ys)
