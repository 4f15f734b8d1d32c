-- ===== src/Effects/Triple.antt =====
-- Hoare triples of actions: what holds after a return, and what holds after a raise.
use klokast_box.Prelude.{◌≡◌, refl, Bool, true, false, if◌then◌else◌}
use klokast_box.Effects.{
  Outcome, ok, raised, Action, pure, raise, handle, rescue, ◌>>=◌, after, require,
}

module _ {S E A : Type 0} where
  abbrev pub Holds : (A → S → Type 0) → (E → S → Type 0) → Outcome E A × S → Type 0
  Holds post fault (ok a, s) = post a s
  Holds post fault (raised e, s) = fault e s

  pub record Triple (pre : S → Type 0) (m : Action S E A) (post : A → S → Type 0)
      (fault : E → S → Type 0) : Type 0 where
    pub at : (s : S) → pre s → Holds post fault (m s)

module _ {S E A : Type 0} where
  module _ {pre : S → Type 0} {post : A → S → Type 0} {fault : E → S → Type 0} where
    pub Triple-pure :
        (a : A) → ((s : S) → pre s → post a s) → Triple pre (pure {E = E} a) post fault
    unfolding pure
    Triple-pure a h = record { at = h }

    pub Triple-raise : (e : E) → ((s : S) → pre s → fault e s) → Triple pre (raise e) post fault
    unfolding raise
    Triple-raise e h = record { at = h }

    pub Triple-weaken :
        {pre' : S → Type 0} {m : Action S E A}
        → ((s : S) → pre' s → pre s)
        → Triple pre m post fault
        → Triple pre' m post fault
    Triple-weaken w t = record { at = λ s h. t.at s (w s h) }

    pub Triple-if :
        (b : Bool) {m n : Action S E A}
        → (b ≡ true → Triple pre m post fault)
        → (b ≡ false → Triple pre n post fault)
        → Triple pre (if b then m else n) post fault
    Triple-if true f g = f refl
    Triple-if false f g = g refl

  post-Holds :
      {post post' : A → S → Type 0} (fault : E → S → Type 0) (o : Outcome E A × S)
      → ((a : A) (s : S) → post a s → post' a s)
      → Holds post fault o
      → Holds post' fault o
  post-Holds fault (ok a, s) w h = w a s h
  post-Holds fault (raised e, s) w h = h

  pub Triple-post :
      {pre : S → Type 0} {m : Action S E A} {post post' : A → S → Type 0} {fault : E → S → Type 0}
      → ((a : A) (s : S) → post a s → post' a s)
      → Triple pre m post fault
      → Triple pre m post' fault
  Triple-post {m = m} w t = record { at = λ s h. post-Holds _ (m s) w (t.at s h) }

  fault-Holds :
      (post : A → S → Type 0) {fault fault' : E → S → Type 0} (o : Outcome E A × S)
      → ((e : E) (s : S) → fault e s → fault' e s)
      → Holds post fault o
      → Holds post fault' o
  fault-Holds post (ok a, s) w h = h
  fault-Holds post (raised e, s) w h = w e s h

  pub Triple-fault :
      {pre : S → Type 0} {m : Action S E A} {post : A → S → Type 0} {fault fault' : E → S → Type 0}
      → ((e : E) (s : S) → fault e s → fault' e s)
      → Triple pre m post fault
      → Triple pre m post fault'
  Triple-fault {m = m} w t = record { at = λ s h. fault-Holds _ (m s) w (t.at s h) }

  pub Triple-exists :
      {X : Type 0} {pre : X → S → Type 0} {m : Action S E A} {post : A → S → Type 0}
      {fault : E → S → Type 0}
      → ((x : X) → Triple (pre x) m post fault)
      → Triple (λ s. (x : X) × pre x s) m post fault
  Triple-exists t = record { at = λ s h. (t h.0).at s h.1 }

  -- A fact beside the precondition is a hypothesis.
  pub Triple-assume :
      {X : Type 0} {pre : S → Type 0} {m : Action S E A} {post : A → S → Type 0}
      {fault : E → S → Type 0}
      → (X → Triple pre m post fault)
      → Triple (λ s. pre s × X) m post fault
  Triple-assume t = record { at = λ s h. (t h.1).at s h.0 }

  rescue-Holds :
      {post : A → S → Type 0} {fault fault' : E → S → Type 0} (o : Outcome E A × S)
      (h : E → Action S E A)
      → Holds post fault o
      → ((e : E) → Triple (fault e) (h e) post fault')
      → Holds post fault' (rescue o h)
  rescue-Holds (ok a, s) h o t = o
  rescue-Holds (raised e, s) h o t = (t e).at s o

  pub Triple-handle :
      {pre : S → Type 0} {post : A → S → Type 0} {fault fault' : E → S → Type 0} {m : Action S E A}
      {h : E → Action S E A}
      → Triple pre m post fault
      → ((e : E) → Triple (fault e) (h e) post fault')
      → Triple pre (handle m h) post fault'
  unfolding handle
  Triple-handle {m = m} {h = h} t u = record { at = λ s p. rescue-Holds (m s) h (t.at s p) u }

module _ {S E A B : Type 0} {mid : A → S → Type 0} {post : B → S → Type 0}
    {fault : E → S → Type 0} where
  after-Holds :
      (o : Outcome E A × S) (f : A → Action S E B)
      → Holds mid fault o
      → ((a : A) → Triple (mid a) (f a) post fault)
      → Holds post fault (after o f)
  after-Holds (ok a, s) f h t = (t a).at s h
  after-Holds (raised e, s) f h t = h

  pub Triple-bind :
      {pre : S → Type 0} {m : Action S E A} {f : A → Action S E B}
      → Triple pre m mid fault
      → ((a : A) → Triple (mid a) (f a) post fault)
      → Triple pre (m >>= f) post fault
  unfolding ◌>>=◌
  Triple-bind {m = m} {f = f} t u = record { at = λ s p. after-Holds (m s) f (t.at s p) u }

module _ {S E : Type 0} {pre : S → Type 0} {fault : E → S → Type 0} where
  pub Triple-require :
      (b : Bool) (e : E)
      → ((s : S) → pre s → fault e s)
      → Triple pre (require b e) (λ _ s. pre s × (b ≡ true)) fault
  unfolding require
  Triple-require true e h = record { at = λ s p. (p, refl) }
  Triple-require false e h = record { at = h }

  pub Triple-require_pass :
      (b : Bool) (e : E) → b ≡ true → Triple pre (require b e) (λ _. pre) fault
  unfolding require
  Triple-require_pass true e h = record { at = λ s p. p }
  Triple-require_pass false e h = cc

module _ {S E A : Type 0} where
  outcome-Holds :
      (fault : S → Type 0) (o : Outcome E A × S) → Holds (λ _. fault) (λ _. fault) o → fault o.1
  outcome-Holds fault (ok a, s) h = h
  outcome-Holds fault (raised e, s) h = h

  -- What holds after a return and after a raise holds of the state that is left.
  pub Triple-always :
      {pre fault : S → Type 0} {m : Action S E A}
      → Triple pre m (λ _. fault) (λ _. fault)
      → (s : S) → pre s
      → fault (m s).1
  Triple-always {m = m} t s h = outcome-Holds _ (m s) (t.at s h)
