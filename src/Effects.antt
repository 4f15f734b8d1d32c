-- ===== src/Effects.antt =====
-- Python methods that change an object and may raise: a function from the object's state to an
-- outcome and the state, which is kept when the method raises.
pub mod Triple
use klokast_box.Prelude.{Bool, true, false}

pub data Outcome (E A : Type 0) : Type 0 where
  ok : A → Outcome E A
  raised : E → Outcome E A

abbrev pub Action : Type 0 → Type 0 → Type 0 → Type 0
Action S E A = S → Outcome E A × S

module _ {S E A : Type 0} where
  unfoldable pub pure : A → Action S E A
  pure a s = (ok a, s)

  unfoldable pub raise : E → Action S E A
  raise e s = (raised e, s)

  -- `except Exception`: the handler runs in the state that the body left.
  abbrev pub rescue : Outcome E A × S → (E → Action S E A) → Outcome E A × S
  rescue (ok a, s) h = (ok a, s)
  rescue (raised e, s) h = h e s

  unfoldable pub handle : Action S E A → (E → Action S E A) → Action S E A
  handle m h s = rescue (m s) h

module _ {S E A B : Type 0} where
  abbrev pub after : Outcome E A × S → (A → Action S E B) → Outcome E B × S
  after (ok a, s) f = f a s
  after (raised e, s) f = (raised e, s)

  infixl 10 ◌>>=◌ ◌>>◌
  unfoldable pub ◌>>=◌ : Action S E A → (A → Action S E B) → Action S E B
  ◌>>=◌ m f s = after (m s) f

  abbrev pub ◌>>◌ : Action S E A → Action S E B → Action S E B
  m >> n = m >>= λ _. n

module _ {S E : Type 0} where
  -- `if not test: raise error`
  unfoldable pub require : Bool → E → Action S E (Unit {0})
  require true e s = (ok tt, s)
  require false e s = (raised e, s)
