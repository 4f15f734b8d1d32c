-- ===== src/RouterTransaction/Progress/Runs.antt =====
-- The undisturbed runs: a cutover is accepted, and a recovery goes where the assignment says.
use klokast_box.Prelude.{
  ℕ, ◌⊎◌, inl, inr, ◌<◌, ◌≡◌, refl, ap, ◌∙◌, Bool, true, false, Option, none, some, List, arith,
}
use klokast_box.Effects.Triple.{
  Triple, Triple-bind, Triple-pure, Triple-weaken, Triple-post, Triple-if, Triple-assume,
  Triple-exists, Triple-require_pass,
}
use klokast_box.RouterTransaction.Contract.{
  Request, Phase, Reason, Pending, validate, before_start, after_start, allows_old, consistent,
}
use klokast_box.RouterTransaction.Journal.{
  Adapter, Call, old, candidate, Result, Event, checkpoint, action, or_keep,
}
use klokast_box.RouterTransaction.Cutover.{
  cutover_start, cutover_finalize, cutover_commit, recover_committed, copy_back,
  copy_back_if_needed, roll_back, needs_reverse,
}
use klokast_box.RouterTransaction.Progress.{
  Cooperative, Never, Marked, cooperative, perform-Marked, checkpoint-Marked, action-Marked,
  candidate_marker, old_marker,
}
use klokast_box.RouterTransaction.Exclusion.{get_pending-bind}

-- The phases of a rollback take any markers that they do not rule out.
rollback-consistent :
    (phase : Phase) (c o : Bool)
    → before_start phase ≡ false
    → after_start phase ≡ false
    → allows_old phase ≡ true
    → consistent phase c o ≡ true
rollback-consistent phase c o b a l = ground arith

no_reverse :
    (q : Option Pending)
    → needs_reverse q ≡ true
    → (candidate_marker q ≡ false) ⊎ (old_marker q ≡ true)
    → ⊥
no_reverse q e h = ground arith

module _ {committed : Bool} (adapter : Adapter) (request : Request)
    (good : Cooperative committed adapter) (valid : validate request ≡ true) (deadline : ℕ)
    (timely : (l : List Event) → adapter.clock l < deadline) where
  check :
      {c o : Bool} (phase : Phase) (started old_started : Option Bool) (reason : Option Reason)
      → consistent phase (or_keep started c) (or_keep old_started o) ≡ true
      → Triple
          (Marked c o)
          (checkpoint adapter request phase started old_started reason)
          (λ _. Marked (or_keep started c) (or_keep old_started o))
          Never
  check = checkpoint-Marked adapter request good valid

  ask :
      {c o : Bool} (k : Call)
      → Triple
          (Marked c o)
          (action adapter request k deadline)
          (λ a s. Marked c o s × (a ≡ cooperative committed k))
          Never
  ask = action-Marked adapter request good valid deadline timely

  -- An action whose answer is not looked at.
  act :
      {c o : Bool} (k : Call)
      → Triple (Marked c o) (action adapter request k deadline) (λ _. Marked c o) Never
  act k = Triple-post (λ a s h. h.0) (ask k)

  pub cutover_start-returns :
      Triple
        (Marked false false)
        (cutover_start adapter request deadline)
        (λ _. Marked true false)
        Never
  unfolding cutover_start
  cutover_start-returns = Triple-bind (check Phase.armed none none none refl) λ _.
      Triple-bind (act (Call.arm)) λ _.
        Triple-bind (check Phase.stopping_old none none none refl) λ _.
          Triple-bind (act (Call.stop old)) λ _.
            Triple-bind (check Phase.copying_forward none none none refl) λ _.
              Triple-bind (act (Call.copy old candidate)) λ _.
                Triple-bind (check Phase.candidate_ready none none none refl) λ _.
                  Triple-bind (act (Call.verify_copy old candidate)) λ _.
                    Triple-bind (check Phase.starting_candidate (some true) none none refl) λ _.
                      Triple-bind (act (Call.start candidate)) λ _.
                        Triple-bind (check Phase.checking_candidate none none none refl)
                          λ _. act (Call.check_local candidate)

  pub cutover_finalize-returns :
      Triple
        (Marked true false)
        (cutover_finalize adapter request deadline)
        (λ _. Marked true false)
        Never
  unfolding cutover_finalize
  cutover_finalize-returns = Triple-bind (check Phase.awaiting_enrollment none none none refl) λ _.
      Triple-bind (ask (Call.wait_enrollment)) λ a. Triple-assume λ e.
        Triple-bind (Triple-require_pass _ _ (rw e)) λ _.
          Triple-bind (check Phase.stopping_candidate_for_finalization none none none refl) λ _.
            Triple-bind (act (Call.stop candidate)) λ _.
              Triple-bind (check Phase.finalizing_candidate none none none refl) λ _.
                Triple-bind (act (Call.finalize_candidate)) λ _.
                  Triple-bind (check Phase.restarting_candidate none none none refl) λ _.
                    Triple-bind (act (Call.start candidate)) λ _.
                      Triple-bind (check Phase.checking_final_candidate none none none refl)
                        λ _. act (Call.check_local candidate)

  pub cutover_commit-returns :
      Triple
        (Marked true false)
        (cutover_commit adapter request deadline)
        (λ r s. r ≡ Result.accepted)
        Never
  unfolding cutover_commit
  cutover_commit-returns = Triple-bind (check Phase.awaiting_acceptance none none none refl) λ _.
      Triple-bind (ask (Call.wait_acceptance)) λ a. Triple-assume λ e.
        Triple-bind (Triple-require_pass _ _ (rw e)) λ _.
          Triple-bind (check Phase.committing none none none refl) λ _.
            Triple-bind (act (Call.commit candidate)) λ _.
              Triple-bind (check Phase.accepted none none none refl) λ _.
                Triple-bind (act (Call.disarm candidate)) λ _.
                  Triple-bind
                    (perform-Marked adapter request good valid (Call.finish Result.accepted))
                    λ _. Triple-pure _ (λ s h. refl)

  pub recover_committed-returns :
      {c : Bool} (reason : Reason)
      → Triple
          (Marked c false)
          (recover_committed adapter request deadline reason)
          (λ r s. r ≡ Result.accepted)
          Never
  unfolding recover_committed
  recover_committed-returns reason =
      Triple-bind (check Phase.accepted (some true) none (some reason) refl) λ _.
        Triple-bind (act (Call.stop old)) λ _. Triple-bind (act (Call.start candidate)) λ _.
          Triple-bind (act (Call.check_local candidate)) λ _.
            Triple-bind (act (Call.disarm candidate)) λ _.
              Triple-bind (perform-Marked adapter request good valid (Call.finish Result.accepted))
                λ _. Triple-pure _ (λ s h. refl)

  copy_back-returns :
      Triple (Marked true false) (copy_back adapter request deadline) (λ _. Marked true false) Never
  unfolding copy_back
  copy_back-returns = Triple-bind (check Phase.fencing_old none none none refl) λ _.
      Triple-bind (act (Call.stop old)) λ _.
        Triple-bind (check Phase.copying_reverse none none none refl)
          λ _. Triple-bind (act (Call.copy candidate old)) λ _. act (Call.verify_copy candidate old)

  copy_back_if_needed-returns :
      (c o : Bool) (q : Option Pending)
      → candidate_marker q ≡ c
      → old_marker q ≡ o
      → Triple (Marked c o) (copy_back_if_needed adapter request deadline q) (λ _. Marked c o) Never
  unfolding copy_back_if_needed
  copy_back_if_needed-returns true false q hc ho =
      Triple-if (needs_reverse q) (λ _. copy_back-returns) (λ _. Triple-pure _ (λ s h. h))
  copy_back_if_needed-returns true true q hc ho =
      Triple-if (needs_reverse q) (λ e. absurd (no_reverse q e (inr ho)))
        (λ _. Triple-pure _ (λ s h. h))
  copy_back_if_needed-returns false o q hc ho =
      Triple-if (needs_reverse q) (λ e. absurd (no_reverse q e (inl hc)))
        (λ _. Triple-pure _ (λ s h. h))

  pub roll_back-returns :
      (c o : Bool) (reason : Reason)
      → Triple
          (Marked c o)
          (roll_back adapter request deadline reason)
          (λ r s. r ≡ Result.rolled_back)
          Never
  unfolding roll_back
  roll_back-returns c o reason =
      Triple-bind
        (check Phase.fencing_candidate none none (some reason)
          (rollback-consistent Phase.fencing_candidate c o refl refl refl))
        λ _. Triple-bind (act (Call.stop candidate)) λ _.
          Triple-weaken (λ s h. (s.pending, (h, refl)))
            (Triple-exists λ q. Triple-exists λ (h : (candidate_marker q ≡ c) × (old_marker q ≡ o)).
              get_pending-bind _ (λ s h. h)
                (Triple-weaken (λ s e. (ap candidate_marker e ∙ h.0, ap old_marker e ∙ h.1))
                  (Triple-bind (copy_back_if_needed-returns c o q h.0 h.1) λ _.
                    Triple-bind
                      (check Phase.old_ready none none none
                        (rollback-consistent Phase.old_ready c o refl refl refl))
                      λ _.
                        Triple-bind
                          (check Phase.starting_old none (some true) none
                            (rollback-consistent Phase.starting_old c true refl refl refl))
                          λ _. Triple-bind (act (Call.start old)) λ _.
                            Triple-bind
                              (check Phase.checking_old none none none
                                (rollback-consistent Phase.checking_old c true refl refl refl))
                              λ _. Triple-bind (act (Call.check_local old)) λ _.
                                Triple-bind
                                  (check Phase.rolled_back none none none
                                    (rollback-consistent Phase.rolled_back c true refl refl refl))
                                  λ _. Triple-bind (act (Call.disarm old)) λ _.
                                    Triple-bind
                                      (perform-Marked adapter request good valid
                                        (Call.finish Result.rolled_back))
                                      λ _. Triple-pure _ (λ s h. refl))))
