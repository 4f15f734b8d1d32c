-- ===== src/RouterTransaction/Exclusion/Recover.antt =====
-- `recover` as a whole.
use klokast_box.Prelude.{◌≡◌, refl, ◌∙◌, Bool, false, Option, none, some, List, inl, inr, ◌⊎◌}
use klokast_box.Effects.Triple.{
  Triple, Triple-bind, Triple-raise, Triple-handle, Triple-require, Triple-weaken, Triple-exists,
  Triple-post, Triple-fault,
}
use klokast_box.RouterTransaction.Contract.{Request, Reason, Pending}
use klokast_box.RouterTransaction.Journal.{Adapter, Generation, Exn, Event, Transaction}
use klokast_box.RouterTransaction.Exclusion.Recovery.{recover_body-lawful}
use klokast_box.RouterTransaction.Exclusion.Fencing.{fence-Fenced}
use klokast_box.RouterTransaction.Cutover.{check_recoverable, recover}
use klokast_box.RouterTransaction.Exclusion.{
  At, Settled, Fault, Fenced, get_pending-bind, monotonic-At,
}

module _ (init : Generation → Bool) (adapter : Adapter) (request : Request) where
  -- What recovery checks first changes nothing.
  check_recoverable-keeps :
      (P : Transaction → Type 0) (q : Option Pending) (reason : Reason)
      → Triple P
          (check_recoverable adapter request reason q)
          (λ _ s. (p : Pending) × ((q ≡ some p) × P s))
          (λ _. P)
  unfolding check_recoverable
  check_recoverable-keeps P none reason = Triple-raise _ (λ s h. h)
  check_recoverable-keeps P (some p) reason = Triple-bind (Triple-require _ _ (λ s h. h)) λ _.
      Triple-bind (Triple-weaken (λ s h. h.0) (Triple-require _ _ (λ s h. h))) λ _.
        Triple-post (λ a s h. (p, (refl, h.0)))
          (Triple-weaken (λ s h. h.0) (Triple-require _ _ (λ s h. h)))

pending_known :
    {init : Generation → Bool} {p : Pending} (s : Transaction)
    → Fault init s
    → s.pending ≡ some p
    → At init false false false (some p) s
pending_known s h e = record {
  lawful = h;
  old_off = λ e. cc;
  candidate_off = λ e. cc;
  current = e;
  written = λ e. cc;
}

-- A recovery that raises was refused, and then changed nothing, or has failed.
abbrev pub Refused : (Generation → Bool) → Option Pending → List Event → Exn → Transaction → Type 0
Refused init q l e s = ((s.pending ≡ q) × (s.log ≡ l)) ⊎ Fenced init e s

module _ (init : Generation → Bool) (adapter : Adapter) (request : Request) where
  pub recover-Triple :
      (reason : Reason) (q : Option Pending) (l : List Event)
      → Triple
          (λ s. Fault init s × (s.pending ≡ q) × (s.log ≡ l))
          (recover adapter request reason)
          (Settled init)
          (λ e s. Fault init s × Refused init q l e s)
  unfolding recover
  recover-Triple reason q l =
      get_pending-bind _ (λ s h. h.1)
        (Triple-bind
          (Triple-fault (λ e s h. (h.0, inl (h.1, h.2)))
            (check_recoverable-keeps init adapter request _ q reason))
          λ _. Triple-exists λ p. Triple-exists λ e.
            Triple-weaken (λ s h. pending_known s h.0 (h.1 ∙ e))
              (Triple-bind (monotonic-At init adapter) λ now.
                Triple-handle (recover_body-lawful init adapter request _ reason) (λ e.
                  Triple-fault (λ e s h. (h.lawful, inr h)) (fence-Fenced init adapter request e))))

  pub recover-settles :
      (reason : Reason)
      → Triple (Fault init) (recover adapter request reason) (Settled init) (λ _. Fault init)
  recover-settles reason =
      Triple-weaken (λ s h. (s.pending, (s.log, (h, refl, refl))))
        (Triple-exists
          λ q. Triple-exists λ l. Triple-fault (λ e s h. h.0) (recover-Triple reason q l))
