-- ===== src/RouterTransaction/Exclusion/Fencing.antt =====
-- Recovery's `except`: what its error says of the generations and of the record.
use klokast_box.Prelude.{ℕ, ◌≡◌, ◌≢◌, if◌then◌else◌, refl, Bool, true, false, Option, none, some}
use klokast_box.Effects.Triple.{
  Triple, Triple-bind, Triple-pure, Triple-raise, Triple-handle, Triple-weaken, Triple-exists,
  Triple-fault,
}
use klokast_box.RouterTransaction.Contract.{Request, Phase, Reason, Pending}
use klokast_box.RouterTransaction.Journal.{
  Adapter, Call, Generation, Exn, Transaction, next_pending,
}
use klokast_box.RouterTransaction.Cutover.{try_fence, fence}
use klokast_box.RouterTransaction.Exclusion.{
  At, Settled, Fault, Fenced, unknown, monotonic-At, action-At, checkpoint-exact,
}

module _ (init : Generation → Bool) (adapter : Adapter) (request : Request) where
  -- What `fenced` says of the two generations.
  try_fence-lawful :
      {F : Exn → Transaction → Type 0} (deadline : ℕ)
      → Triple
          (Fault init)
          (try_fence adapter request deadline)
          (λ fenced s. (q : Option Pending) × At init false fenced fenced q s)
          F
  unfolding try_fence
  try_fence-lawful deadline =
      Triple-handle
        (Triple-weaken unknown (
          Triple-exists λ q.
            Triple-bind (action-At init adapter request Call.fence_all deadline refl (λ _ _. tt))
              λ _. Triple-pure _ (λ s h. (_, h))))
        (λ e. Triple-pure _ unknown)

  -- The error of the fence says whether the generations are known to be off.
  fence_error-Fenced :
      (fenced : Bool) {w : Bool} {p : Pending} (s : Transaction)
      → p.phase ≡ Phase.recovery_failed
      → At init w fenced fenced (some p) s
      → Fenced init (if fenced then Exn.recovery_fenced else Exn.recovery_unfenced) s
  fence_error-Fenced true s e h = record {
    lawful = h.lawful;
    final = _;
    current = h.current;
    phase = e;
    old_off = λ _. h.old_off refl;
    candidate_off = λ _. h.candidate_off refl;
  }
  fence_error-Fenced false s e h = record {
    lawful = h.lawful;
    final = _;
    current = h.current;
    phase = e;
    old_off = λ x. cc;
    candidate_off = λ x. cc;
  }

  checkpoint_error-Fenced :
      {w o c : Bool} {p : Pending} (e : Exn) (s : Transaction)
      → p.phase ≡ Phase.recovery_failed
      → e ≢ Exn.recovery_fenced
      → At init w o c (some p) s
      → Fenced init e s
  checkpoint_error-Fenced e s ph ne h = record {
    lawful = h.lawful;
    final = _;
    current = h.current;
    phase = ph;
    old_off = λ x. absurd (ne x);
    candidate_off = λ x. absurd (ne x);
  }

  failed_phase :
      (q : Option Pending) (reason : Reason)
      → (next_pending request q Phase.recovery_failed none none (some reason)).phase
        ≡ Phase.recovery_failed
  failed_phase none reason = refl
  failed_phase (some p) reason = refl

  pub fence-Fenced :
      (e : Exn) → Triple (Fault init) (fence adapter request e) (Settled init) (Fenced init)
  unfolding fence
  fence-Fenced e = Triple-weaken unknown (
      Triple-exists λ q. Triple-bind (monotonic-At init adapter) λ now.
        Triple-bind (Triple-weaken (λ s h. h.lawful) (try_fence-lawful _)) λ fenced.
          Triple-exists λ q'.
            Triple-bind
              (Triple-fault (λ e s h. checkpoint_error-Fenced e s (failed_phase q' _) h.0 h.1)
                (checkpoint-exact init adapter request _ _ _ _))
              λ _. Triple-raise _ (λ s h. fence_error-Fenced fenced s (failed_phase q' _) h))
