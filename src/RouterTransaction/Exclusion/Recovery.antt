-- ===== src/RouterTransaction/Exclusion/Recovery.antt =====
-- The body of recovery's `try`: it makes only permitted calls, and settles where it returns.
use klokast_box.Prelude.{ℕ, ◌≡◌, refl, Bool, true, false, arith, some}
use klokast_box.Effects.Triple.{
  Triple, Triple-bind, Triple-pure, Triple-if, Triple-require, Triple-weaken, Triple-exists,
  Triple-post,
}
use klokast_box.RouterTransaction.Contract.{Request, Reason, Pending}
use klokast_box.RouterTransaction.Journal.{Adapter, Call, Generation, old, candidate, Result}
use klokast_box.RouterTransaction.Cutover.{
  recover_committed, copy_back, copy_back_if_needed, roll_back, recover_body, needs_reverse,
}
use klokast_box.RouterTransaction.Exclusion.{
  At, Settled, Fault, forget_old, get_pending-bind, plain-At, action-At, checkpoint-At,
}

module _ (init : Generation → Bool) (adapter : Adapter) (request : Request) where
  recover_committed-lawful :
      {w o c : Bool} {p : Pending} (deadline : ℕ) (reason : Reason)
      → Triple
          (At init w o c (some p))
          (recover_committed adapter request deadline reason)
          (Settled init)
          (λ _. Fault init)
  unfolding recover_committed
  recover_committed-lawful {p = p} deadline reason =
      Triple-bind (checkpoint-At init adapter request _ _ _ _) λ _.
        Triple-bind (action-At init adapter request (Call.stop old) deadline refl (λ _ _. tt)) λ _.
          Triple-bind
            (action-At init adapter request (Call.start candidate) deadline refl
              (λ s h. (h.old_off refl, (_, h.written refl, refl))))
            λ _.
              Triple-bind
                (action-At init adapter request (Call.check_local candidate) deadline refl
                  (λ _ _. tt))
                λ _.
                  Triple-bind
                    (action-At init adapter request (Call.disarm candidate) deadline refl
                      (λ _ _. tt))
                    λ _.
                      Triple-bind
                        (plain-At init adapter (Call.finish Result.accepted) refl
                          (λ s h. (_, h.written refl, refl)))
                        λ _. Triple-pure _ (λ s h. record {
                          lawful = h.lawful;
                          final = _;
                          current = h.current;
                          written = h.written refl;
                          phase = refl;
                          loser_off = h.old_off refl;
                        })

  copy_back-lawful :
      {o : Bool} {p : Pending} (deadline : ℕ)
      → p.old_started ≡ false
      → Triple
          (At init true o true (some p))
          (copy_back adapter request deadline)
          (λ _ s. (p' : Pending) × At init true true true (some p') s)
          (λ _. Fault init)
  unfolding copy_back
  copy_back-lawful deadline e = Triple-bind (checkpoint-At init adapter request _ _ _ _) λ _.
      Triple-bind (action-At init adapter request (Call.stop old) deadline refl (λ _ _. tt)) λ _.
        Triple-bind (checkpoint-At init adapter request _ _ _ _) λ _.
          Triple-bind
            (action-At init adapter request (Call.copy candidate old) deadline refl
              (λ s h. (h.old_off refl, h.candidate_off refl, (_, h.written refl, e))))
            λ _.
              Triple-post (λ a s h. (_, h))
                (action-At init adapter request (Call.verify_copy candidate old) deadline refl
                  (λ _ _. tt))

  copy_back_if_needed-lawful :
      {o : Bool} (p : Pending) (deadline : ℕ)
      → Triple
          (At init true o true (some p))
          (copy_back_if_needed adapter request deadline (some p))
          (λ _ s. (p' : Pending) × At init true false true (some p') s)
          (λ _. Fault init)
  unfolding copy_back_if_needed
  copy_back_if_needed-lawful p deadline =
      Triple-if (needs_reverse (some p))
        (λ e.
          Triple-post (λ a s h. (h.0, forget_old h.1))
            (copy_back-lawful deadline (ground (arith, e))))
        (λ _. Triple-pure _ (λ s h. (_, forget_old h)))

  roll_back-lawful :
      {w o c : Bool} {p : Pending} (deadline : ℕ) (reason : Reason)
      → Triple
          (At init w o c (some p))
          (roll_back adapter request deadline reason)
          (Settled init)
          (λ _. Fault init)
  unfolding roll_back
  roll_back-lawful deadline reason = Triple-bind (checkpoint-At init adapter request _ _ _ _) λ _.
      Triple-bind (action-At init adapter request (Call.stop candidate) deadline refl (λ _ _. tt))
        λ _.
          get_pending-bind _ (λ s h. h.current)
            (Triple-bind (copy_back_if_needed-lawful _ deadline) λ _. Triple-exists λ p.
              Triple-bind (checkpoint-At init adapter request _ _ _ _) λ _.
                Triple-bind (checkpoint-At init adapter request _ _ _ _) λ _.
                  Triple-bind
                    (action-At init adapter request (Call.start old) deadline refl
                      (λ s h. (h.candidate_off refl, (_, h.written refl, refl))))
                    λ _. Triple-bind (checkpoint-At init adapter request _ _ _ _) λ _.
                      Triple-bind
                        (action-At init adapter request (Call.check_local old) deadline refl
                          (λ _ _. tt))
                        λ _. Triple-bind (checkpoint-At init adapter request _ _ _ _) λ _.
                          Triple-bind
                            (action-At init adapter request (Call.disarm old) deadline refl
                              (λ _ _. tt))
                            λ _.
                              Triple-bind
                                (plain-At init adapter (Call.finish Result.rolled_back) refl
                                  (λ s h. (_, h.written refl, refl)))
                                λ _. Triple-pure _ (λ s h. record {
                                  lawful = h.lawful;
                                  final = _;
                                  current = h.current;
                                  written = h.written refl;
                                  phase = refl;
                                  loser_off = h.candidate_off refl;
                                }))

  pub recover_body-lawful :
      {w o c : Bool} {p : Pending} (deadline : ℕ) (reason : Reason)
      → Triple
          (At init w o c (some p))
          (recover_body adapter request deadline reason)
          (Settled init)
          (λ _. Fault init)
  unfolding recover_body
  recover_body-lawful deadline reason =
      Triple-bind (action-At init adapter request Call.verify_recovery deadline refl (λ _ _. tt))
        λ _.
          Triple-bind (action-At init adapter request Call.committed deadline refl (λ _ _. tt)) λ a.
            Triple-bind (Triple-require _ _ (λ s h. h.lawful)) λ _.
              Triple-weaken (λ s h. h.0)
                (Triple-if _ (λ _. recover_committed-lawful deadline reason)
                  (λ _. roll_back-lawful deadline reason))
