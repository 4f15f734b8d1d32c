-- ===== src/RouterTransaction/Cutover.antt =====
-- router_transaction.py `Transaction.cutover` and `Transaction.recover`. The body of each `try` is
-- a definition of its own; the one of `cutover` is cut at its two waits for the controller.
use klokast_box.Prelude.{ℕ, ◌+◌, Bool, true, false, not, ◌&&◌, Option, none, some, if◌then◌else◌}
use klokast_box.Effects.{pure, raise, handle, require, ◌>>=◌, ◌>>◌}
use klokast_box.RouterTransaction.Contract.{
  Request, Phase, Reason, Pending, deadline_or_check, recovery_action_failed, fencing_unconfirmed,
  validate_pending,
}
use klokast_box.RouterTransaction.Journal.{
  Adapter, Answer, Call, old, candidate, Result, Exn, Tx, get_pending, perform, monotonic,
  checkpoint, action,
}

abbrev pub is_absent : Option Pending → Bool
is_absent none = true
is_absent (some p) = false

abbrev pub is_true? : Answer → Bool
is_true? Answer.is_true = true
is_true? _ = false

abbrev pub is_bool? : Answer → Bool
is_bool? Answer.other = false
is_bool? _ = true

abbrev pub is_recovery_failed : Phase → Bool
is_recovery_failed Phase.recovery_failed = true
is_recovery_failed _ = false

-- The reasons that `recover` takes.
abbrev pub is_supported : Reason → Bool
is_supported Reason.boot_recovery = true
is_supported Reason.deadline_or_check = true
is_supported _ = false

-- `pending['candidate_started'] and not pending['old_started']`
abbrev pub needs_reverse : Option Pending → Bool
needs_reverse none = false
needs_reverse (some p) = p.candidate_started && not p.old_started

module _ (adapter : Adapter) (request : Request) where
  abbrev enter : Phase → Tx Answer
  enter phase = checkpoint adapter request phase none none none

  abbrev perform_by : Call → ℕ → Tx Answer
  perform_by name deadline = action adapter request name deadline

  -- From the record `armed` to the candidate's first start and check.
  unfoldable pub cutover_start : ℕ → Tx Answer
  cutover_start deadline = do
    enter Phase.armed
    perform_by Call.arm deadline
    enter Phase.stopping_old
    perform_by (Call.stop old) deadline
    enter Phase.copying_forward
    perform_by (Call.copy old candidate) deadline
    enter Phase.candidate_ready
    perform_by (Call.verify_copy old candidate) deadline
    checkpoint adapter request Phase.starting_candidate (some true) none none
    perform_by (Call.start candidate) deadline
    enter Phase.checking_candidate
    perform_by (Call.check_local candidate) deadline

  -- Enrollment, finalization and the candidate's second start.
  unfoldable pub cutover_finalize : ℕ → Tx Answer
  cutover_finalize deadline = do
    enter Phase.awaiting_enrollment
    enrolled ← perform_by Call.wait_enrollment deadline
    require (is_true? enrolled) Exn.not_enrolled
    enter Phase.stopping_candidate_for_finalization
    perform_by (Call.stop candidate) deadline
    enter Phase.finalizing_candidate
    perform_by Call.finalize_candidate deadline
    enter Phase.restarting_candidate
    perform_by (Call.start candidate) deadline
    enter Phase.checking_final_candidate
    perform_by (Call.check_local candidate) deadline

  -- Acceptance and the commit.
  unfoldable pub cutover_commit : ℕ → Tx Result
  cutover_commit deadline = do
    enter Phase.awaiting_acceptance
    approved ← perform_by Call.wait_acceptance deadline
    require (is_true? approved) Exn.not_accepted
    enter Phase.committing
    perform_by (Call.commit candidate) deadline
    enter Phase.accepted
    perform_by (Call.disarm candidate) deadline
    perform adapter (Call.finish Result.accepted)
    pure Result.accepted

  unfoldable pub cutover_body : ℕ → Tx Result
  unfolding cutover_start cutover_finalize cutover_commit
  cutover_body deadline = do
    cutover_start deadline
    cutover_finalize deadline
    cutover_commit deadline

  -- The assignment was committed: bring the candidate up.
  unfoldable pub recover_committed : ℕ → Reason → Tx Result
  recover_committed deadline reason = do
    checkpoint adapter request Phase.accepted (some true) none (some reason)
    perform_by (Call.stop old) deadline
    perform_by (Call.start candidate) deadline
    perform_by (Call.check_local candidate) deadline
    perform_by (Call.disarm candidate) deadline
    perform adapter (Call.finish Result.accepted)
    pure Result.accepted

  -- The candidate has the latest state: copy it back with both generations stopped.
  unfoldable pub copy_back : ℕ → Tx Answer
  copy_back deadline = do
    enter Phase.fencing_old
    perform_by (Call.stop old) deadline
    enter Phase.copying_reverse
    perform_by (Call.copy candidate old) deadline
    perform_by (Call.verify_copy candidate old) deadline

  unfoldable pub copy_back_if_needed : ℕ → Option Pending → Tx Answer
  unfolding copy_back
  copy_back_if_needed deadline pending =
      if needs_reverse pending then copy_back deadline else pure Answer.other

  -- The assignment was not committed: back to the old generation.
  unfoldable pub roll_back : ℕ → Reason → Tx Result
  unfolding copy_back_if_needed
  roll_back deadline reason = do
    checkpoint adapter request Phase.fencing_candidate none none (some reason)
    perform_by (Call.stop candidate) deadline
    pending ← get_pending
    copy_back_if_needed deadline pending
    enter Phase.old_ready
    checkpoint adapter request Phase.starting_old none (some true) none
    perform_by (Call.start old) deadline
    enter Phase.checking_old
    perform_by (Call.check_local old) deadline
    enter Phase.rolled_back
    perform_by (Call.disarm old) deadline
    perform adapter (Call.finish Result.rolled_back)
    pure Result.rolled_back

  unfoldable pub recover_body : ℕ → Reason → Tx Result
  unfolding recover_committed roll_back
  recover_body deadline reason = do
    perform_by Call.verify_recovery deadline
    committed ← perform_by Call.committed deadline
    require (is_bool? committed) Exn.unknown_assignment
    if is_true? committed then recover_committed deadline reason else roll_back deadline reason

  -- `fenced` after the inner `try`.
  unfoldable pub try_fence : ℕ → Tx Bool
  try_fence stop_deadline =
      handle (perform_by Call.fence_all stop_deadline >>= λ _. pure true) (λ _. pure false)

  -- The `except` of `recover`.
  unfoldable pub fence : Exn → Tx Result
  unfolding try_fence
  fence _ = do
    now ← monotonic adapter
    fenced ← try_fence (now + 30)
    checkpoint adapter request Phase.recovery_failed none none
        (some (if fenced then recovery_action_failed else fencing_unconfirmed))
    raise (if fenced then Exn.recovery_fenced else Exn.recovery_unfenced)

  -- The tests of `recover` on the record that it starts from.
  unfoldable pub check_recoverable : Reason → Option Pending → Tx (Unit {0})
  check_recoverable reason none = raise Exn.no_pending
  check_recoverable reason (some p) = do
    require (validate_pending p request) Exn.invalid_pending
    require (is_supported reason) Exn.unsupported_reason
    require (not (is_recovery_failed p.phase)) Exn.previously_failed

  unfoldable pub recover : Reason → Tx Result
  unfolding check_recoverable recover_body fence
  recover reason = do
    pending ← get_pending
    check_recoverable reason pending
    now ← monotonic adapter
    handle (recover_body (now + request.recovery_seconds) reason) fence

  unfoldable pub cutover : Tx Result
  unfolding cutover_body recover
  cutover = do
    pending ← get_pending
    require (is_absent pending) Exn.already_pending
    perform adapter Call.verify_prepared
    now ← monotonic adapter
    handle (cutover_body (now + request.cutover_seconds)) (λ _. recover deadline_or_check)
