-- ===== src/RouterTransaction/Progress.antt =====
-- A cutover and a rollback that nothing disturbs: the rules of their steps. Every checkpoint on the
-- way passes the validation of its own record. The runs themselves are in `Runs` and `Returns`.
pub mod Runs
pub mod Returns
use klokast_box.Prelude.{
  ℕ, String, ◌+◌, ◌<◌, ◌≡◌, refl, sym, subst, ap, ◌∙◌, Bool, true, false, ltb, lt→ltb, Option, none,
  some, List, [], ◌∷◌, arith, eq_iff, ==_iff, ◌=ₛ◌, ◌==◌, if◌then◌else◌,
}
use klokast_box.Effects.{◌>>=◌}
use klokast_box.Effects.Triple.{
  Triple, Holds, Triple-bind, Triple-pure, Triple-require, Triple-weaken, Triple-post,
  Triple-handle, Triple-assume, Triple-exists, Triple-require_pass,
}
use klokast_box.RouterTransaction.Contract.{
  Request, Phase, Reason, Pending, validate, validate_pending, same_request, consistent,
}
use klokast_box.RouterTransaction.Journal.{
  Adapter, Answer, Call, Generation, old, candidate, Result, Reply, returned, failed, Event, called,
  Exn, Transaction, Tx, get_pending, set_pending, perform, monotonic, checkpoint, action,
  next_pending, or_keep, answer,
}
use klokast_box.RouterTransaction.Cutover.{
  cutover_start, cutover_finalize, cutover_commit, cutover_body, cutover, recover,
}
use klokast_box.RouterTransaction.Exclusion.{get_pending-bind}

-- What a cooperative adapter answers, with `committed` for the accepted assignment.
abbrev pub cooperative : Bool → Call → Answer
cooperative c Call.committed = if c then Answer.is_true else Answer.is_false
cooperative c _ = Answer.is_true

-- The adapter raises nothing, and its clock moves less than a minute.
pub record Cooperative (committed : Bool) (adapter : Adapter) : Type 0 where
  pub answers : (l : List Event) (k : Call) → adapter.reply l k ≡ returned (cooperative committed k)
  pub quick : (l l' : List Event) → adapter.clock l < adapter.clock l' + 60

-- No raise.
abbrev pub Never : Exn → Transaction → Type 0
Never e s = ⊥

-- The markers of an object's record, those of a first record where there is none.
abbrev pub candidate_marker : Option Pending → Bool
candidate_marker none = false
candidate_marker (some p) = p.candidate_started

abbrev pub old_marker : Option Pending → Bool
old_marker none = false
old_marker (some p) = p.old_started

abbrev pub Marked : Bool → Bool → Transaction → Type 0
Marked c o s = (candidate_marker s.pending ≡ c) × (old_marker s.pending ≡ o)

text_refl : (s : String) → (s =ₛ s) ≡ true
text_refl s = (eq_iff s s).1 refl

number_refl : (n : ℕ) → (n == n) ≡ true
number_refl n = (==_iff n n).1 refl

pub same_request_refl : (r : Request) → same_request r r ≡ true
unfolding same_request
same_request_refl r = simp (
  text_refl r.kind,
  text_refl r.role,
  text_refl r.box,
  text_refl r.operation_id,
  text_refl r.engine_commit,
  text_refl r.policy_sha256,
  text_refl r.accepted_sha256,
  text_refl r.old_sha256,
  text_refl r.candidate_sha256,
  number_refl r.cutover_seconds,
  number_refl r.recovery_seconds,
)

-- A record that a checkpoint builds passes its validation if its markers may stand at its phase.
valid_next :
    (request : Request)
    → validate request ≡ true
    → (q : Option Pending) (phase : Phase) (started old_started : Option Bool)
      (reason : Option Reason)
    → consistent phase (or_keep started (candidate_marker q)) (or_keep old_started (old_marker q))
      ≡ true
    → validate_pending (next_pending request q phase started old_started reason) request ≡ true
unfolding validate_pending
valid_next request valid none phase started old_started reason e =
    rw (valid, same_request_refl request, e)
valid_next request valid (some p) phase started old_started reason e =
    rw (valid, same_request_refl request, e)

next-Marked :
    (request : Request) (q : Option Pending) (phase : Phase) (started old_started : Option Bool)
    (reason : Option Reason)
    → let next = next_pending request q phase started old_started reason in
      (next.candidate_started ≡ or_keep started (candidate_marker q))
      × (next.old_started ≡ or_keep old_started (old_marker q))
next-Marked request none phase started old_started reason = (refl, refl)
next-Marked request (some p) phase started old_started reason = (refl, refl)

next_markers :
    (request : Request) (q : Option Pending) (phase : Phase) (started old_started : Option Bool)
    (reason : Option Reason) {c o : Bool} (s : Transaction)
    → s.pending ≡ some (next_pending request q phase started old_started reason)
    → (candidate_marker q ≡ c) × (old_marker q ≡ o)
    → Marked (or_keep started c) (or_keep old_started o) s
next_markers request q phase started old_started reason s e h =
    let n = next-Marked request q phase started old_started reason in
    (
      (ap candidate_marker e ∙ n.0) ∙ ap (or_keep started) h.0,
      (ap old_marker e ∙ n.1) ∙ ap (or_keep old_started) h.1,
    )

module _ {committed : Bool} (adapter : Adapter) (request : Request)
    (good : Cooperative committed adapter) (valid : validate request ≡ true) where
  perform-keeps :
      (P : Option Pending → Type 0) (k : Call)
      → Triple
          (λ s. P s.pending)
          (perform adapter k)
          (λ a s. P s.pending × (a ≡ cooperative committed k))
          Never
  unfolding perform
  perform-keeps P k = record {
    at = λ s h.
        subst
          (λ r.
            Holds (λ a s. P s.pending × (a ≡ cooperative committed k)) Never
              (answer r, record s { log = called k r ∷ s.log }))
          (sym (good.answers s.log k)) (h, refl);
  }

  pub perform-Marked :
      {c o : Bool} (k : Call)
      → Triple
          (Marked c o)
          (perform adapter k)
          (λ a s. Marked c o s × (a ≡ cooperative committed k))
          Never
  perform-Marked {c} {o} = perform-keeps (λ q. (candidate_marker q ≡ c) × (old_marker q ≡ o))

  pub monotonic-Marked :
      {c o : Bool}
      → Triple
          (Marked c o)
          (monotonic adapter)
          (λ t s. Marked c o s × ((l : List Event) × (t ≡ adapter.clock l)))
          Never
  unfolding monotonic
  monotonic-Marked = record { at = λ s h. (h, (s.log, refl)) }

  pub checkpoint-Marked :
      {c o : Bool} (phase : Phase) (started old_started : Option Bool) (reason : Option Reason)
      → consistent phase (or_keep started c) (or_keep old_started o) ≡ true
      → Triple
          (Marked c o)
          (checkpoint adapter request phase started old_started reason)
          (λ _. Marked (or_keep started c) (or_keep old_started o))
          Never
  unfolding checkpoint set_pending
  checkpoint-Marked {c} {o} phase started old_started reason e =
      Triple-weaken (λ s h. (s.pending, (h, refl)))
        (Triple-exists λ q. Triple-exists λ (h : (candidate_marker q ≡ c) × (old_marker q ≡ o)).
          get_pending-bind _ (λ s h. h)
            (Triple-bind
              {mid = λ _ s.
                s.pending ≡ some (next_pending request q phase started old_started reason)}
              (record { at = λ s h. refl })
              λ _.
                Triple-bind
                  (Triple-require_pass _ _
                    (valid_next request valid q phase _ _ _ (rw (h.0, h.1) e)))
                  λ _.
                    Triple-post
                      (λ a s k. next_markers request q phase started old_started reason s k.0 h)
                      (perform-keeps (λ q'. q' ≡ some _) (Call.persist _))))

  -- Every reading of the clock comes before the deadline.
  module _ (deadline : ℕ) (timely : (l : List Event) → adapter.clock l < deadline) where
    pub action-Marked :
        {c o : Bool} (k : Call)
        → Triple
            (Marked c o)
            (action adapter request k deadline)
            (λ a s. Marked c o s × (a ≡ cooperative committed k))
            Never
    unfolding action
    action-Marked k = Triple-bind monotonic-Marked λ now. Triple-assume λ t.
        Triple-bind (Triple-require_pass _ _ (lt→ltb _ _ (rw t.1 (timely t.0)))) λ _.
          Triple-bind (perform-Marked k) λ a. Triple-assume λ e.
            Triple-bind monotonic-Marked λ later. Triple-assume λ t'.
              Triple-bind (Triple-require_pass _ _ (lt→ltb _ _ (rw t'.1 (timely t'.0))))
                λ _. Triple-pure a (λ s h. (h, e))
