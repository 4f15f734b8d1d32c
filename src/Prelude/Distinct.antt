-- ===== src/Prelude/Distinct.antt =====
-- Lists whose elements are all different by a symmetric test.
use mathlib.Core.Path.{◌≡◌, refl}
use mathlib.Core.Bool.{Bool, true, false, not, ◌&&◌, ◌||◌}
use mathlib.Core.List.{List, [], ◌∷◌, ◌++◌}
use native.Mathlib.Omega.{arith}
use klokast_box.Prelude.Lists.{elem}

abbrev pub distinct {ℓ} : {A : Type ℓ} → (A → A → Bool) → List A → Bool
distinct same [] = true
distinct same (x ∷ xs) = not (elem same x xs) && distinct same xs

module _ {A : Type 0} (same : A → A → Bool) where
  pub elem_append :
      (x : A) (xs ys : List A) → elem same x (xs ++ ys) ≡ (elem same x xs || elem same x ys)
  elem_append x [] ys = refl
  elem_append x (y ∷ xs) ys = ground (arith, elem_append x xs ys)

  -- An element that is not there can be appended.
  pub distinct_append :
      ((a b : A) → same a b ≡ same b a)
      → (x : A) (xs : List A) → elem same x xs ≡ false
      → distinct same xs ≡ true
      → distinct same (xs ++ x ∷ []) ≡ true
  distinct_append symmetric x [] h d = refl
  distinct_append symmetric x (y ∷ xs) h d =
      ground (arith, elem_append y xs (x ∷ []), symmetric x y, distinct_append symmetric x xs)
