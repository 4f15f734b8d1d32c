-- ===== src/Checks.antt =====
-- Checks that raise and change nothing: outcomes chained by `do`, and loops over them.
use klokast_box.Prelude.{
  ◌≡◌, refl, Bool, true, false, not, List, [], ◌∷◌, All, Option, none, some, arith, ◌⊎◌, inl, inr,
  if◌then◌else◌,
}
pub use klokast_box.Effects.{Outcome, ok, raised}

module _ {E A B : Type 0} where
  infixl 10 ◌>>=◌ ◌>>◌
  -- The first exception ends the chain.
  abbrev pub ◌>>=◌ : Outcome E A → (A → Outcome E B) → Outcome E B
  raised exn >>= next = raised exn
  ok value >>= next = next value

  abbrev pub ◌>>◌ : Outcome E A → Outcome E B → Outcome E B
  first >> second = first >>= λ _. second

  -- Both parts of a chain returned, the second from the value of the first.
  abbrev pub Returned : Outcome E A → (A → Outcome E B) → B → Type 0
  Returned first next result = (value : A) × (first ≡ ok value) × (next value ≡ ok result)

  pub >>=-Returned :
      (first : Outcome E A) (next : A → Outcome E B) {result : B}
      → (first >>= next) ≡ ok result
      → Returned first next result
  >>=-Returned (raised exn) next returned = cc
  >>=-Returned (ok value) next returned = (value, refl, returned)

module _ {E : Type 0} where
  -- `if not test: raise error`
  abbrev pub check : Bool → E → Outcome E (Unit {0})
  check true e = ok tt
  check false e = raised e

  pub check-eq-ok : (b : Bool) (e : E) {u : Unit {0}} → check b e ≡ ok u → b ≡ true
  check-eq-ok true e h = refl
  check-eq-ok false e h = cc

  -- A value, or the error where there is none.
  abbrev pub or_raise : {A : Type 0} → Option A → E → Outcome E A
  or_raise (some a) e = ok a
  or_raise none e = raised e

  -- A refused test that was false.
  pub check-not-eq-ok : (b : Bool) (e : E) {u : Unit {0}} → check (not b) e ≡ ok u → b ≡ false
  check-not-eq-ok true e h = cc
  check-not-eq-ok false e h = refl

  pub or_raise-eq-ok :
      {A : Type 0} (o : Option A) (e : E) {a : A} → or_raise o e ≡ ok a → o ≡ some a
  or_raise-eq-ok (some a) e h = ground arith
  or_raise-eq-ok none e h = cc

module _ {E A : Type 0} where
  -- `for x in xs: f(x)`
  unfoldable pub each : (A → Outcome E (Unit {0})) → List A → Outcome E (Unit {0})
  each f [] = ok tt
  each f (x ∷ xs) = let rest = each f xs in f x >>= λ _. rest

  pub each-eq-ok :
      (f : A → Outcome E (Unit {0})) (xs : List A) {u : Unit {0}}
      → each f xs ≡ ok u
      → All (λ x. f x ≡ ok tt) xs
  unfolding each
  each-eq-ok f [] h = tt
  each-eq-ok f (x ∷ xs) h = let r = >>=-Returned (f x) _ h in (r.1, each-eq-ok f xs r.2)

pub ok-injective : {E A : Type 0} {a b : A} → ◌≡◌ {A = Outcome E A} (ok a) (ok b) → a ≡ b
ok-injective h = cc

-- A conditional that returned, by its branches.
pub if-eq-ok :
    {E A : Type 0} (b : Bool) (m n : Outcome E A) {a : A}
    → (if b then m else n) ≡ ok a
    → ((b ≡ true) × (m ≡ ok a)) ⊎ ((b ≡ false) × (n ≡ ok a))
if-eq-ok true m n h = inl (refl, h)
if-eq-ok false m n h = inr (refl, h)
