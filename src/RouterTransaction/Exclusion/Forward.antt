-- ===== src/RouterTransaction/Exclusion/Forward.antt =====
-- `cutover` makes only permitted calls.
use klokast_box.Prelude.{ℕ, ◌≡◌, refl, Bool, true, false, none, some}
use klokast_box.Effects.Triple.{
  Triple, Triple-bind, Triple-pure, Triple-handle, Triple-require, Triple-weaken, Triple-post,
  Triple-exists,
}
use klokast_box.RouterTransaction.Contract.{Request, Pending}
use klokast_box.RouterTransaction.Journal.{
  Adapter, Call, Generation, old, candidate, Result, Transaction,
}
use klokast_box.RouterTransaction.Cutover.{
  cutover_start, cutover_finalize, cutover_commit, cutover_body, cutover,
}
use klokast_box.RouterTransaction.Exclusion.{
  At, Settled, Fault, Rule, get_pending-bind, monotonic-At, plain-At, action-At, checkpoint-At,
}
use klokast_box.RouterTransaction.Exclusion.Recover.{recover-settles}

-- The old generation is known to be off, and the durable record marks the candidate as started.
abbrev Replaced : (Generation → Bool) → Transaction → Type 0
Replaced init s =
    (p : Pending) × ((p.candidate_started ≡ true) × At init true true false (some p) s)

module _ (init : Generation → Bool) (adapter : Adapter) (request : Request) where
  cutover_start-lawful :
      (deadline : ℕ)
      → Rule init
          (At init false false true none)
          (cutover_start adapter request deadline)
          (Replaced init)
  unfolding cutover_start
  cutover_start-lawful deadline = Triple-bind (checkpoint-At init adapter request _ _ _ _) λ _.
      Triple-bind (action-At init adapter request Call.arm deadline refl (λ _ _. tt)) λ _.
        Triple-bind (checkpoint-At init adapter request _ _ _ _) λ _.
          Triple-bind (action-At init adapter request (Call.stop old) deadline refl (λ _ _. tt))
            λ _. Triple-bind (checkpoint-At init adapter request _ _ _ _) λ _.
              Triple-bind
                (action-At init adapter request (Call.copy old candidate) deadline refl
                  (λ s h. (h.old_off refl, h.candidate_off refl, (_, h.written refl, refl))))
                λ _. Triple-bind (checkpoint-At init adapter request _ _ _ _) λ _.
                  Triple-bind
                    (action-At init adapter request (Call.verify_copy old candidate) deadline refl
                      (λ _ _. tt))
                    λ _. Triple-bind (checkpoint-At init adapter request _ _ _ _) λ _.
                      Triple-bind
                        (action-At init adapter request (Call.start candidate) deadline refl
                          (λ s h. (h.old_off refl, (_, h.written refl, refl))))
                        λ _. Triple-bind (checkpoint-At init adapter request _ _ _ _) λ _.
                          Triple-post (λ a s h. (_, (refl, h)))
                            (action-At init adapter request (Call.check_local candidate) deadline
                              refl (λ _ _. tt))

  cutover_finalize-lawful :
      (deadline : ℕ)
      → Rule init (Replaced init) (cutover_finalize adapter request deadline) (Replaced init)
  unfolding cutover_finalize
  cutover_finalize-lawful deadline = Triple-exists λ p. Triple-exists λ e.
      Triple-bind (checkpoint-At init adapter request _ _ _ _) λ _.
        Triple-bind (action-At init adapter request Call.wait_enrollment deadline refl (λ _ _. tt))
          λ _. Triple-bind (Triple-require _ _ (λ s h. h.lawful)) λ _.
            Triple-weaken (λ s h. h.0)
              (Triple-bind (checkpoint-At init adapter request _ _ _ _) λ _.
                Triple-bind
                  (action-At init adapter request (Call.stop candidate) deadline refl (λ _ _. tt))
                  λ _. Triple-bind (checkpoint-At init adapter request _ _ _ _) λ _.
                    Triple-bind
                      (action-At init adapter request Call.finalize_candidate deadline refl
                        (λ _ _. tt))
                      λ _. Triple-bind (checkpoint-At init adapter request _ _ _ _) λ _.
                        Triple-bind
                          (action-At init adapter request (Call.start candidate) deadline refl
                            (λ s h. (h.old_off refl, (_, h.written refl, e))))
                          λ _. Triple-bind (checkpoint-At init adapter request _ _ _ _) λ _.
                            Triple-post (λ a s h. (_, (e, h)))
                              (action-At init adapter request (Call.check_local candidate) deadline
                                refl (λ _ _. tt)))

  cutover_commit-lawful :
      (deadline : ℕ)
      → Triple
          (Replaced init)
          (cutover_commit adapter request deadline)
          (Settled init)
          (λ _. Fault init)
  unfolding cutover_commit
  cutover_commit-lawful deadline = Triple-exists λ p. Triple-exists λ e.
      Triple-bind (checkpoint-At init adapter request _ _ _ _) λ _.
        Triple-bind (action-At init adapter request Call.wait_acceptance deadline refl (λ _ _. tt))
          λ _. Triple-bind (Triple-require _ _ (λ s h. h.lawful)) λ _.
            Triple-weaken (λ s h. h.0)
              (Triple-bind (checkpoint-At init adapter request _ _ _ _) λ _.
                Triple-bind
                  (action-At init adapter request (Call.commit candidate) deadline refl (λ _ _. tt))
                  λ _. Triple-bind (checkpoint-At init adapter request _ _ _ _) λ _.
                    Triple-bind
                      (action-At init adapter request (Call.disarm candidate) deadline refl
                        (λ _ _. tt))
                      λ _.
                        Triple-bind
                          (plain-At init adapter (Call.finish Result.accepted) refl
                            (λ s h. (_, h.written refl, refl)))
                          λ _. Triple-pure _ (λ s h. record {
                            lawful = h.lawful;
                            final = _;
                            current = h.current;
                            written = h.written refl;
                            phase = refl;
                            loser_off = h.old_off refl;
                          }))

  pub cutover-settles :
      Triple
        (At init false false true none)
        (cutover adapter request)
        (Settled init)
        (λ _. Fault init)
  unfolding cutover cutover_body
  cutover-settles =
      get_pending-bind _ (λ s h. h.current)
        (Triple-bind (Triple-require _ _ (λ s h. h.lawful)) λ _.
          Triple-weaken (λ s h. h.0)
            (Triple-bind (plain-At init adapter Call.verify_prepared refl (λ _ _. tt)) λ _.
              Triple-bind (monotonic-At init adapter) λ now.
                Triple-handle
                  (Triple-bind (cutover_start-lawful _)
                    λ _. Triple-bind (cutover_finalize-lawful _) λ _. cutover_commit-lawful _)
                  (λ _. recover-settles init adapter request _)))
