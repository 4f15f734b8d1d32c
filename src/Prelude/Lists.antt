-- ===== src/Prelude/Lists.antt =====
-- Lists measured by native numbers, and predicates over lists.
use Prim.Native.Nat.{ℕ, suc}
use mathlib.Core.Bool.{Bool, true, false, ◌&&◌, ◌||◌}
use klokast_box.Prelude.Tests.{if◌then◌else◌}
use mathlib.Core.List.{List, [], ◌∷◌}

abbrev pub length {ℓ} : {A : Type ℓ} → List A → ℕ
length [] = 0
length (x ∷ xs) = suc (length xs)

-- Every element passes the test.
abbrev pub all {ℓ} : {A : Type ℓ} → (A → Bool) → List A → Bool
all p [] = true
all p (x ∷ xs) = p x && all p xs

-- Every element satisfies the predicate.
abbrev pub All {ℓ κ} : {A : Type ℓ} → (A → Type κ) → List A → Type κ
All P [] = Unit
All P (x ∷ xs) = P x × All P xs

-- `x in xs`, for a test of equality.
abbrev pub elem {ℓ} : {A : Type ℓ} → (A → A → Bool) → A → List A → Bool
elem eq x [] = false
elem eq x (y ∷ ys) = eq x y || elem eq x ys

-- `set(xs) == set(ys)`
abbrev pub same_set {ℓ} : {A : Type ℓ} → (A → A → Bool) → List A → List A → Bool
same_set eq xs ys = all (λ x. elem eq x ys) xs && all (λ y. elem eq y xs) ys

-- The elements of `set(xs)`, each once.
abbrev pub dedup {ℓ} : {A : Type ℓ} → (A → A → Bool) → List A → List A
dedup eq [] = []
dedup eq (x ∷ xs) = let rest = dedup eq xs in if elem eq x xs then rest else x ∷ rest
