-- ===== src/RouterTransaction/Tests.antt =====
-- Concrete runs of the router's transaction, and the theorems at concrete adapters.
use klokast_box.Prelude.{◌≡◌, refl, Bool, true, false, none, some, [], arith}
use klokast_box.Effects.{ok, pure, require, handle, ◌>>=◌}
use klokast_box.Effects.Triple.{Holds}
use klokast_box.RouterTransaction.Contract.{
  Request, Phase, Pending, boot_recovery, cutover_reason, validate, validate_pending, same_request,
}
use klokast_box.RouterTransaction.Journal.{
  Adapter, Answer, Call, Generation, old, candidate, Result, returned, get_pending, perform,
  monotonic, checkpoint, set_pending, action,
}
use klokast_box.RouterTransaction.Cutover.{cutover, recover}
use klokast_box.RouterTransaction.History.{Lawful}
use klokast_box.RouterTransaction.Exclusion.{Settled}
use klokast_box.RouterTransaction.Exclusion.Recover.{Refused}
use klokast_box.RouterTransaction.Safety.{
  cutover-Lawful, recover-Lawful, cutover_result, recover_outcome,
}
use klokast_box.RouterTransaction.Progress.{Cooperative, cooperative}
use klokast_box.RouterTransaction.Progress.Returns.{
  Returns, Recoverable, cutover_accepted, recover-Returns,
}

abbrev request : Request
request = record {
  kind = "klokast.router-transaction-request.v1";
  role = "router";
  box = "k001";
  operation_id = "0123456789abcdef01234567";
  engine_commit = "0123456789abcdef0123456789abcdef01234567";
  policy_sha256 = "aaaaaaaaaaaaaaaaaaaaaaaaaaaaaaaaaaaaaaaaaaaaaaaaaaaaaaaaaaaaaaaa";
  accepted_sha256 = "bbbbbbbbbbbbbbbbbbbbbbbbbbbbbbbbbbbbbbbbbbbbbbbbbbbbbbbbbbbbbbbb";
  old_sha256 = "cccccccccccccccccccccccccccccccccccccccccccccccccccccccccccccccc";
  candidate_sha256 = "dddddddddddddddddddddddddddddddddddddddddddddddddddddddddddddddd";
  cutover_seconds = 600;
  recovery_seconds = 300;
}

request_valid : validate request ≡ true
unfolding validate
request_valid = refl

-- Two generations with the same digest are refused.
same_generation_refused :
    validate (record request { candidate_sha256 = request.old_sha256 }) ≡ false
unfolding validate
same_generation_refused = refl

-- Only the old generation runs.
abbrev steady : Generation → Bool
steady old = true
steady candidate = false

abbrev unknown_state : Generation → Bool
unknown_state _ = true

-- The controller does not accept the candidate, so the cutover recovers.
abbrev refusing : Call → Answer
refusing Call.wait_acceptance = Answer.is_false
refusing k = cooperative false k

abbrev doubtful : Adapter
doubtful = record { reply = λ l k. returned (refusing k); clock = λ l. 7 }

abbrev willing : Bool → Adapter
willing committed = record { reply = λ l k. returned (cooperative committed k); clock = λ l. 7 }

willing-Cooperative : (committed : Bool) → Cooperative committed (willing committed)
willing-Cooperative committed = record { answers = λ l k. refl; quick = λ l l'. omega arith }

doubtful_rolls_back :
    (cutover doubtful request (record { pending = none; log = [] })).0 ≡ ok Result.rolled_back
unfolding cutover validate_pending validate same_request ◌>>=◌ require handle pure get_pending
    perform monotonic checkpoint set_pending action
doubtful_rolls_back = refl

-- The box restarted after the candidate's first start.
abbrev interrupted : Pending
interrupted = record {
  request = request;
  phase = Phase.starting_candidate;
  candidate_started = true;
  old_started = false;
  reason = cutover_reason;
}

interrupted_recovers :
    (recover
      (willing false)
      request
      boot_recovery
      (record { pending = some interrupted; log = [] })).0
    ≡ ok Result.rolled_back
unfolding recover validate_pending validate same_request ◌>>=◌ require handle pure get_pending
    perform monotonic checkpoint set_pending action
interrupted_recovers = refl

cutover-Lawful_example :
    Lawful steady (cutover doubtful request (record { pending = none; log = [] })).1.log
cutover-Lawful_example = cutover-Lawful steady doubtful request refl

recover-Lawful_example :
    Lawful unknown_state
      (recover
        (willing false)
        request
        boot_recovery
        (record { pending = some interrupted; log = [] })).1.log
recover-Lawful_example =
    recover-Lawful unknown_state (willing false) request boot_recovery (some interrupted)

cutover_result_example :
    Holds
      (Settled steady)
      (λ _ _. Unit {0})
      (cutover doubtful request (record { pending = none; log = [] }))
cutover_result_example = cutover_result steady doubtful request refl

recover_outcome_example :
    Holds (Settled unknown_state) (Refused unknown_state (some interrupted) []) (
      recover
        (willing true)
        request
        boot_recovery
        (record { pending = some interrupted; log = [] }))
recover_outcome_example =
    recover_outcome unknown_state (willing true) request boot_recovery (some interrupted)

cutover_accepted_example :
    Returns Result.accepted (cutover (willing true) request (record { pending = none; log = [] }))
cutover_accepted_example =
    cutover_accepted (willing true) request (willing-Cooperative true) request_valid

interrupted-Recoverable : Recoverable false request boot_recovery interrupted
unfolding validate_pending validate same_request
interrupted-Recoverable = record {
  valid = refl;
  supported = refl;
  not_failed = refl;
  not_reverted = λ e. cc;
}

recover-Returns_example : Returns Result.rolled_back (
    recover (willing false) request boot_recovery (record { pending = some interrupted; log = [] }))
recover-Returns_example =
    recover-Returns (willing false) request (willing-Cooperative false) boot_recovery interrupted
      interrupted-Recoverable
