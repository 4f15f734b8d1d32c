-- ===== src/RouterTransaction/Progress/Returns.antt =====
-- A cutover and a recovery that nothing disturbs return, with the result that is meant.
use klokast_box.Prelude.{
  ℕ, ◌≤◌, ◌+◌, ◌<◌, ◌≡◌, refl, sym, ap, ◌∙◌, Bool, true, false, none, some, List, [], arith,
  if◌then◌else◌,
}
use klokast_box.Effects.{Outcome}
use klokast_box.Effects.Triple.{
  Triple, Holds, Triple-bind, Triple-weaken, Triple-post, Triple-handle, Triple-if, Triple-assume,
  Triple-require_pass,
}
use klokast_box.RouterTransaction.Contract.{
  Request, Reason, Pending, validate, validate_pending, validate_budgets, validate_pending-validate,
}
use klokast_box.RouterTransaction.Journal.{
  Adapter, Answer, Call, Result, Event, Exn, Transaction, Tx,
}
use klokast_box.RouterTransaction.Cutover.{
  cutover_body, cutover, recover, recover_body, check_recoverable, is_recovery_failed, is_supported,
  is_true?, is_bool?,
}
use klokast_box.RouterTransaction.Progress.Runs.{
  cutover_start-returns, cutover_finalize-returns, cutover_commit-returns,
  recover_committed-returns, roll_back-returns,
}
use klokast_box.RouterTransaction.Progress.{
  Cooperative, Never, Marked, perform-Marked, monotonic-Marked, action-Marked, candidate_marker,
  old_marker,
}
use klokast_box.RouterTransaction.Exclusion.{get_pending-bind}

-- The action cannot raise, and returns `r`.
abbrev pub Returns : Result → Outcome Exn Result × Transaction → Type 0
Returns r o = Holds (λ r' s. r' ≡ r) Never o

-- The accepted assignment decides where a recovery goes.
abbrev pub goal : Bool → Result
goal true = Result.accepted
goal false = Result.rolled_back

-- What `recover` checks of the record that it starts from. A record of a committed assignment that
-- says that the old generation was started again has no valid next record.
pub record Recoverable (committed : Bool) (request : Request) (reason : Reason) (p : Pending)
    : Type 0 where
  pub valid : validate_pending p request ≡ true
  pub supported : is_supported reason ≡ true
  pub not_failed : is_recovery_failed p.phase ≡ false
  pub not_reverted : committed ≡ true → p.old_started ≡ false

timely :
    {committed : Bool} {adapter : Adapter} (seconds now : ℕ)
    → Cooperative committed adapter
    → 60 ≤ seconds
    → (l' : List Event) × (now ≡ adapter.clock l')
    → (l : List Event) → adapter.clock l < now + seconds
timely seconds now good h t l = omega (arith, good.quick l t.0, t.1)

committed-is_bool : (c : Bool) → is_bool? (if c then Answer.is_true else Answer.is_false) ≡ true
committed-is_bool true = refl
committed-is_bool false = refl

committed-is_true : (c : Bool) → is_true? (if c then Answer.is_true else Answer.is_false) ≡ c
committed-is_true true = refl
committed-is_true false = refl

Never-handled :
    {A : Type 0} {Q : A → Transaction → Type 0} (m : Exn → Tx A) (e : Exn)
    → Triple (Never e) (m e) Q Never
Never-handled m e = record { at = λ s h. absurd h }

module _ {committed : Bool} (adapter : Adapter) (request : Request)
    (good : Cooperative committed adapter) where
  -- A cutover against an adapter that raises nothing, answers `True` to each wait, and whose clock
  -- moves less than a minute, returns `accepted`, for every valid request.
  pub cutover_accepted :
      validate request ≡ true
      → Returns Result.accepted (cutover adapter request (record { pending = none; log = [] }))
  unfolding cutover cutover_body
  cutover_accepted valid =
      (get_pending-bind {P = λ s. s.pending ≡ none} _ (λ s h. h)
          (Triple-bind (Triple-require_pass _ _ refl) λ _.
            Triple-weaken (λ s h. (ap candidate_marker h, ap old_marker h))
              (Triple-bind (perform-Marked adapter request good valid Call.verify_prepared) λ _.
                Triple-assume λ _. Triple-bind (monotonic-Marked adapter request good valid) λ now.
                  Triple-assume λ t.
                    Triple-handle
                      (let deadline = now + request.cutover_seconds in
                        let quick = timely _ now good (validate_budgets request valid).0 t in
                        Triple-bind
                          (cutover_start-returns adapter request good valid deadline quick)
                          λ _.
                            Triple-bind
                              (cutover_finalize-returns adapter request good valid deadline quick)
                              λ _. cutover_commit-returns adapter request good valid deadline quick)
                      (Never-handled _)))).at
        _ refl

  recover_body-returns :
      (deadline : ℕ)
      → validate request ≡ true
      → ((l : List Event) → adapter.clock l < deadline)
      → (reason : Reason) (c o : Bool) → (committed ≡ true → o ≡ false)
      → Triple
          (Marked c o)
          (recover_body adapter request deadline reason)
          (λ r s. r ≡ goal committed)
          Never
  unfolding recover_body
  recover_body-returns deadline valid quick reason c o live =
      Triple-bind (action-Marked adapter request good valid deadline quick Call.verify_recovery)
        λ _. Triple-assume λ _.
          Triple-bind (action-Marked adapter request good valid deadline quick Call.committed) λ a.
            Triple-assume λ e.
              Triple-bind (Triple-require_pass _ _ (ap is_bool? e ∙ committed-is_bool committed))
                λ _.
                  let k : is_true? a ≡ committed = ap is_true? e ∙ committed-is_true committed in
                  Triple-if (is_true? a)
                    (λ t.
                      Triple-weaken (λ s h. (h.0, h.1 ∙ live (sym k ∙ t)))
                        (Triple-post (λ r s h. h ∙ ap goal (sym (sym k ∙ t)))
                          (recover_committed-returns adapter request good valid deadline quick
                            reason)))
                    (λ t.
                      Triple-post (λ r s h. h ∙ ap goal (sym (sym k ∙ t)))
                        (roll_back-returns adapter request good valid deadline quick c o reason))

  -- A recovery against such an adapter returns what the accepted assignment says, from every
  -- pending record that it does not refuse at once; where the assignment is committed, the record
  -- is assumed not to say that the old generation was started again.
  pub recover-Returns :
      (reason : Reason) (p : Pending)
      → Recoverable committed request reason p
      → Returns
          (goal committed)
          (recover adapter request reason (record { pending = some p; log = [] }))
  unfolding recover check_recoverable
  recover-Returns reason p h =
      let valid = validate_pending-validate p request h.valid in
      (get_pending-bind {P = λ s. s.pending ≡ some p} _ (λ s h. h)
          (Triple-bind
            (Triple-bind (Triple-require_pass _ _ h.valid) λ _.
              Triple-bind (Triple-require_pass _ _ h.supported)
                λ _. Triple-require_pass _ _ (rw h.not_failed))
            λ _.
              Triple-weaken (λ s h. (ap candidate_marker h, ap old_marker h))
                (Triple-bind (monotonic-Marked adapter request good valid) λ now. Triple-assume λ t.
                  Triple-handle
                    (recover_body-returns _ valid
                      (timely _ now good (validate_budgets request valid).1 t) reason _ _
                      h.not_reverted)
                    (Never-handled _)))).at
        _ refl
