-- ===== src/VmUpdate/Order/Forward.antt =====
-- The stages of a replacement make only permitted effects.
use klokast_box.Prelude.{
  ◌≡◌, refl, ap, Bool, true, not, ◌&&◌, eq_iff, if◌then◌else◌, Option, none, some, [], ◌∷◌, arith,
}
use klokast_box.Effects.{pure}
use klokast_box.Effects.Triple.{
  Triple-bind, Triple-pure, Triple-raise, Triple-if, Triple-require, Triple-post, Triple-exists,
  Triple-assume,
}
use klokast_box.VmUpdate.Request.{Request, Kind, new, is_service, is_router, has_liveness}
use klokast_box.VmUpdate.Inspection.{Domain}
use klokast_box.VmUpdate.Journal.{
  Stage, Journal, Source, Effect, Host, Transaction, Tx, effect, assignment, pre_accept,
}
use klokast_box.VmUpdate.Steps.{
  Command, is_recovering, is_absent, both, advance, stop_old, stop_armed, check_ready,
  start_stopped, start_again, test_booted, accept_tested, complete_accepted, beat,
}
use klokast_box.VmUpdate.History.{is_committed, is_starting, edge, reached_by}
use klokast_box.VmUpdate.Order.{
  At, Fault, Rule, At-Fault, At-Fault_as, At-StageIs, look-At, clock-At, artifacts-At, observe-At,
  effect-At, get_journal-At, record-At, assignment-At,
}

-- An inspection that found no guest.
is_absent-eq-true : (found : Option Domain) → is_absent found ≡ true → found ≡ none
is_absent-eq-true none e = refl
is_absent-eq-true (some d) e = cc

abbrev pub any_stage : Stage → Bool
any_stage s = true

module _ (r : Request) (start : Option Journal) (host : Host) where
  -- A command's stage: from one stage it makes permitted effects and returns at another.
  abbrev Moves : Command → Stage → Option (Option Domain) → Tx (Unit {0}) → Type 0
  Moves command stage seen m =
      Rule r start any_stage (At r start any_stage stage seen) m
        (Fault r start (reached_by r.kind command stage))

  to :
      (command : Command) (stage : Stage) {next : Stage} {seen : Option (Option Domain)}
      → reached_by r.kind command stage next ≡ true
      → (s : Transaction) → At r start any_stage next seen s
      → Fault r start (reached_by r.kind command stage) s
  to command stage e = At-Fault_as r start any_stage (reached_by r.kind command stage) e

  F :
      {stage : Stage} {seen : Option (Option Domain)} (s : Transaction)
      → At r start any_stage stage seen s
      → Fault r start any_stage s
  F = At-Fault r start any_stage

  stop_old-lawful :
      {stage : Stage} {seen : Option (Option Domain)} (found : Option Domain)
      → Rule r start any_stage
          (At r start any_stage stage seen)
          (stop_old host r found)
          (λ s. (w : Option (Option Domain)) × At r start any_stage stage w s)
  unfolding stop_old
  stop_old-lawful none = Triple-pure tt (λ s h. (_, h))
  stop_old-lawful (some d) = Triple-bind (Triple-require _ _ F) λ _. Triple-assume λ e.
      Triple-post (λ a s h. (_, h))
        (effect-At r start any_stage host (Effect.stop d.uuid true) refl (λ s h. (eq_iff _ _).0 e))

  stop_armed-lawful :
      {seen : Option (Option Domain)} → Moves Command.stop Stage.armed seen (stop_armed host r)
  unfolding stop_armed
  stop_armed-lawful = Triple-bind (look-At r start any_stage _) λ alive.
      Triple-bind (Triple-require _ _ F) λ _. Triple-assume λ _.
        Triple-bind (record-At r start any_stage host any_stage Stage.stopping _ refl refl) λ _.
          Triple-bind (observe-At r start any_stage host both) λ found.
            Triple-bind (stop_old-lawful found) λ _. Triple-exists λ w.
              Triple-bind (observe-At r start any_stage host both) λ again.
                Triple-bind (Triple-require _ _ F) λ _. Triple-assume λ _.
                  Triple-post (λ a. to Command.stop Stage.armed refl)
                    (record-At r start any_stage host any_stage Stage.stopped _ refl refl)

  check_ready-lawful :
      {stage : Stage} {seen : Option (Option Domain)}
      → Rule r start any_stage
          (At r start any_stage stage seen)
          (check_ready host r)
          (At r start any_stage stage seen)
  unfolding check_ready
  check_ready-lawful =
      Triple-bind (look-At r start any_stage _)
        λ proof. Triple-post (λ a s h. h.0) (Triple-require _ _ F)

  -- Selecting the new generation before its start is for the service kinds.
  assign_service-lawful :
      {seen : Option (Option Domain)}
      → Rule r start any_stage
          (At r start any_stage Stage.starting seen)
          (if is_service r.kind then assignment host r new else pure tt)
          (At r start any_stage Stage.starting seen)
  assign_service-lawful =
      Triple-if (is_service r.kind)
        (λ e.
          assignment-At r start any_stage host new
            (λ s h. At-StageIs r start any_stage (is_committed r.kind) s (rw e) h))
        (λ _. Triple-pure tt (λ s h. h))

  start_stopped-lawful :
      {seen : Option (Option Domain)}
      → Moves Command.start Stage.stopped seen (start_stopped host r)
  unfolding start_stopped
  start_stopped-lawful = Triple-bind (observe-At r start any_stage host both) λ found.
      Triple-bind (Triple-require _ _ F) λ _. Triple-assume λ absent.
        Triple-bind (artifacts-At r start any_stage host new) λ _.
          Triple-bind
            (Triple-if (is_router r.role) (λ _. check_ready-lawful)
              (λ _. Triple-pure tt (λ s h. h)))
            λ _.
              Triple-bind
                (record-At r start any_stage host {stage = Stage.stopped} any_stage Stage.starting _
                  refl refl)
                λ _. Triple-bind assign_service-lawful λ _.
                  Triple-bind
                    (effect-At r start any_stage host (Effect.start Source.staged_new) refl (λ s h.
                      (
                        At-StageIs r start any_stage is_starting s refl h,
                        h.last none (ap some (is_absent-eq-true found absent)),
                      )))
                    λ _. Triple-bind (observe-At r start any_stage host both) λ started.
                      Triple-bind (Triple-require _ _ F) λ _. Triple-assume λ _.
                        Triple-post (λ a. to Command.start Stage.stopped refl)
                          (record-At r start any_stage host any_stage Stage.booted _ refl refl)

  -- A start whose answer was lost.
  start_again-lawful :
      {stage : Stage} {seen : Option (Option Domain)}
      → is_committed r.kind stage ≡ true
      → is_starting stage ≡ true
      → edge r.kind stage Stage.booted ≡ true
      → reached_by r.kind Command.start stage Stage.booted ≡ true
      → Moves Command.start stage seen (start_again host r)
  unfolding start_again
  start_again-lawful {stage} committed starts next reaches =
      Triple-bind
        (assignment-At r start any_stage host new
          (λ s h. At-StageIs r start any_stage (is_committed r.kind) s committed h))
        λ _. Triple-bind (observe-At r start any_stage host (new ∷ [])) λ found.
          Triple-bind (start_absent found) λ _. Triple-exists λ w.
            Triple-bind (observe-At r start any_stage host (new ∷ [])) λ again.
              Triple-bind (Triple-require _ _ F) λ _. Triple-assume λ _.
                Triple-post (λ a. to Command.start stage reaches)
                  (record-At r start any_stage host {stage = stage} any_stage Stage.booted _ refl
                    next)
    where
      start_absent :
          (found : Option Domain)
          → Rule r start any_stage
              (At r start any_stage stage (some found))
              (if is_absent found then effect host (Effect.start Source.staged_new) else pure tt)
              (λ s. (w : Option (Option Domain)) × At r start any_stage stage w s)
      start_absent none =
          Triple-post (λ a s h. (_, h))
            (effect-At r start any_stage host (Effect.start Source.staged_new) refl
              (λ s h. (At-StageIs r start any_stage is_starting s starts h, h.last none refl)))
      start_absent (some d) = Triple-pure tt (λ s h. (_, h))

  test_booted-lawful :
      {seen : Option (Option Domain)} → Moves Command.tested Stage.booted seen (test_booted host r)
  unfolding test_booted
  test_booted-lawful = Triple-bind (look-At r start any_stage _) λ evidence.
      Triple-bind (Triple-require _ _ F) λ _. Triple-assume λ _.
        Triple-post (λ a. to Command.tested Stage.booted refl)
          (record-At r start any_stage host {stage = Stage.booted} any_stage Stage.tested _ refl
            refl)

  accept_tested-lawful :
      {seen : Option (Option Domain)}
      → Moves Command.accept Stage.tested seen (accept_tested host r)
  unfolding accept_tested
  accept_tested-lawful = Triple-bind (look-At r start any_stage _) λ evidence.
      Triple-bind (get_journal-At r start any_stage host) λ journal.
        Triple-bind (Triple-require _ _ F) λ _. Triple-assume λ _.
          Triple-bind (observe-At r start any_stage host both) λ found.
            Triple-bind (Triple-require _ _ F) λ _. Triple-assume λ _.
              Triple-bind (artifacts-At r start any_stage host new) λ _.
                Triple-bind
                  (record-At r start any_stage host {stage = Stage.tested} any_stage Stage.accepted
                    _ refl refl)
                  λ _.
                    Triple-post (λ a. to Command.accept Stage.tested refl)
                      (assignment-At r start any_stage host new
                        (λ s h. At-StageIs r start any_stage (is_committed r.kind) s refl h))

  complete_accepted-lawful :
      {seen : Option (Option Domain)}
      → Moves Command.complete Stage.accepted seen (complete_accepted host r)
  unfolding complete_accepted
  complete_accepted-lawful = Triple-bind (observe-At r start any_stage host (new ∷ [])) λ found.
      Triple-bind (Triple-require _ _ F) λ _. Triple-assume λ _.
        Triple-bind
          (assignment-At r start any_stage host new
            (λ s h. At-StageIs r start any_stage (is_committed r.kind) s refl h))
          λ _.
            Triple-post (λ a. to Command.complete Stage.accepted refl)
              (record-At r start any_stage host {stage = Stage.accepted} any_stage Stage.complete _
                refl refl)

  beat-edge :
      (k : Kind) (stage : Stage)
      → (has_liveness k && pre_accept stage && not (is_recovering stage)) ≡ true
      → edge k stage stage ≡ true
  beat-edge k stage live = ground arith

  beat-reached_by :
      (k : Kind) (stage : Stage)
      → (has_liveness k && pre_accept stage && not (is_recovering stage)) ≡ true
      → reached_by k Command.heartbeat stage stage ≡ true
  beat-reached_by k stage live = ground arith

  beat-lawful :
      {stage : Stage} {seen : Option (Option Domain)}
      → Moves Command.heartbeat stage seen (beat host r stage)
  unfolding beat
  beat-lawful {stage} = Triple-bind (Triple-require _ _ F) λ _. Triple-assume λ live.
      Triple-bind (clock-At r start any_stage host) λ now.
        Triple-post (λ a. to Command.heartbeat stage (beat-reached_by r.kind stage live))
          (record-At r start any_stage host {stage = stage} any_stage stage _ refl
            (beat-edge r.kind stage live))

  pub advance-lawful :
      (command : Command) (stage : Stage) {seen : Option (Option Domain)}
      → Moves command stage seen (advance host r command stage)
  unfolding advance
  advance-lawful Command.heartbeat stage = beat-lawful
  advance-lawful Command.stop Stage.armed = stop_armed-lawful
  advance-lawful Command.start Stage.stopped = start_stopped-lawful
  advance-lawful Command.start Stage.starting =
      Triple-if (is_service r.kind) (λ e. start_again-lawful (rw e) refl refl (rw e))
        (λ _. Triple-raise _ F)
  advance-lawful Command.start Stage.booted =
      Triple-if (is_service r.kind) (λ e. start_again-lawful (rw e) refl refl (rw e))
        (λ _. Triple-raise _ F)
  advance-lawful Command.tested Stage.booted = test_booted-lawful
  advance-lawful Command.accept Stage.tested = accept_tested-lawful
  advance-lawful Command.complete Stage.accepted = complete_accepted-lawful
  advance-lawful _ _ = Triple-raise _ F
