-- ===== src/VmUpdate/Recovery.antt =====
-- vm_update_engine.py `Transaction.recover` and the head of `Transaction.step`.
use klokast_box.Prelude.{
  ℕ, ◌+◌, Bool, true, false, not, ◌&&◌, ◌||◌, Option, none, some, [], ◌∷◌, ◌=ₛ◌, ltb, leb,
  if◌then◌else◌,
}
use klokast_box.Effects.{pure, raise, require, handle, ◌>>=◌, ◌>>◌}
use klokast_box.VmUpdate.Request.{Request, old, new, is_service}
use klokast_box.VmUpdate.Inspection.{Domain, Exn}
use klokast_box.VmUpdate.Journal.{
  Stage, pre_accept, post_boot, Journal, Source, Effect, Host, Tx, get_journal, effect, clock,
  record_stage, observe, assignment,
}
use klokast_box.VmUpdate.Steps.{
  Command, is_recovery, Report, controller_lost, is_guest, is_absent, uuid_of, both, advance,
}

abbrev pub or_default : {A : Type 0} → Option A → A → A
or_default none a = a
or_default (some b) a = b

abbrev pub is_stopping : Stage → Bool
is_stopping Stage.stopping = true
is_stopping _ = false

module _ (host : Host) (request : Request) where
  unfoldable pub stop_if_new : Option Domain → Tx (Unit {0})
  stop_if_new none = pure tt
  stop_if_new (some d) =
      if d.uuid =ₛ uuid_of request.after then effect host (Effect.stop d.uuid false) else pure tt

  unfoldable pub stop_if_any : Option Domain → Tx (Unit {0})
  stop_if_any none = pure tt
  stop_if_any (some d) = effect host (Effect.stop d.uuid true)

  -- An interrupted shutdown is driven to its end before the old guest may start.
  unfoldable pub finish_shutdown : Bool → Option Domain → Tx (Option Domain)
  unfolding stop_if_any
  finish_shutdown false found = pure found
  finish_shutdown true found = do
    stop_if_any found
    again ← observe host request both
    require (is_absent again) Exn.shutdown_pending
    record_stage host Stage.recovering (λ j. record j { old_shutdown_pending = some false })
    pure again

  unfoldable pub in_budget : ℕ → Tx (Unit {0})
  in_budget started = do
    now ← clock host
    require (ltb now (started + request.recovery_seconds)) Exn.recovery_over_budget

  unfoldable pub restore_old : ℕ → Bool → Tx Report
  unfolding stop_if_new finish_shutdown in_budget
  restore_old started pending_shutdown = do
    in_budget started
    found ← observe host request both
    stop_if_new found
    again ← observe host request both
    require (is_absent again || is_guest again request.before.uuid) Exn.candidate_holds
    left ← finish_shutdown pending_shutdown again
    assignment host request old
    if is_absent left then effect host (Effect.start Source.installed) else pure tt
    restarted ← observe host request both
    require (is_guest restarted request.before.uuid) Exn.old_not_restarted
    in_budget started
    record_stage host Stage.recovered (λ j. j)
    pure Report.recovered

  unfoldable pub record_failure : Exn → Tx Report
  record_failure e = do record_stage host Stage.recovery_failed (λ j. j); raise e

  unfoldable pub roll_back : Journal → Tx Report
  unfolding restore_old record_failure
  roll_back j = do
    now ← clock host
    let started = or_default j.recovery_started_at now
    let pending = or_default j.old_shutdown_pending (is_stopping j.stage)
    record_stage host Stage.recovering
        (λ k. record k { recovery_started_at = some started; old_shutdown_pending = some pending })
    handle (restore_old started pending) record_failure

  -- The new generation is kept: only its assignment is published again.
  unfoldable pub keep_new : Report → Tx Report
  keep_new report = do observe host request (new ∷ []); assignment host request new; pure report

  unfoldable pub keep_old : Report → Tx Report
  keep_old report = do observe host request (old ∷ []); assignment host request old; pure report

  unfoldable pub recover_from : Stage → Journal → Tx Report
  unfolding roll_back keep_new keep_old
  recover_from Stage.accepted j = keep_new Report.preserve_production
  recover_from Stage.complete j = keep_new Report.preserve_production
  recover_from Stage.adopted j = keep_old Report.was_adopted
  recover_from Stage.recovered j = keep_old Report.was_recovered
  recover_from Stage.recovery_failed j = raise Exn.recovery_failed_before
  recover_from _ j = roll_back j

  unfoldable pub recover : Journal → Tx Report
  unfolding recover_from
  recover j =
      if is_service request.kind && post_boot j.stage
      then keep_new Report.preserve_service
      else recover_from j.stage j

  -- The budget of the replacement; a service update that has booted has none.
  unfoldable pub overdue : Journal → Tx Bool
  overdue j =
      if pre_accept j.stage
      then (do
        now ← clock host
        pure (leb j.deadline now && not (is_service request.kind && post_boot j.stage)))
      else pure false

  unfoldable pub step_checked : Command → Journal → Tx Report
  unfolding overdue
  step_checked command j = do
    late ← overdue j
    require (not late) Exn.over_budget
    now ← clock host
    require (not (controller_lost j now)) Exn.controller_gone
    advance host request command j.stage
    pure Report.nothing

  unfoldable pub step_from : Command → Option Journal → Tx Report
  unfolding recover step_checked
  step_from command none = raise Exn.not_armed
  step_from command (some j) = if is_recovery command then recover j else step_checked command j

  unfoldable pub step : Command → Tx Report
  unfolding step_from
  step command = do journal ← get_journal; step_from command journal
