-- ===== src/VmUpdate/Steps.antt =====
-- vm_update_engine.py `Transaction.step`, `Transaction.recover`, `controller_lost`.
use klokast_box.Prelude.{
  ℕ, String, ◌+◌, Bool, true, false, not, ◌&&◌, Option, none, some, List, [], ◌∷◌, ◌=ₛ◌, ltb, leb,
  if◌then◌else◌, map, all, same_set,
}
use klokast_box.Effects.{pure, raise, require, ◌>>=◌, ◌>>◌}
use klokast_box.VmUpdate.Request.{
  Request, Side, old, new, is_service, is_router, has_liveness, Generation,
}
use klokast_box.VmUpdate.Inspection.{Domain, Exn}
use klokast_box.VmUpdate.Journal.{
  Stage, pre_accept, Journal, Source, Effect, Evidence, ReadyProof, Host, Tx, get_journal, look,
  or_error, effect, clock, record_stage, observe, artifacts, assignment,
}

pub data Command : Type 0 where
  recover_command boot_recover heartbeat stop start tested accept complete unknown : Command

abbrev pub is_recovery : Command → Bool
is_recovery recover_command = true
is_recovery boot_recover = true
is_recovery _ = false

-- What `recover` returns; `step` returns nothing for any other command.
pub data Report : Type 0 where
  nothing preserve_service preserve_production was_adopted was_recovered recovered : Report

unfoldable pub unseen : Option ℕ → ℕ → Bool
unseen none now = false
unseen (some seen) now = not (leb seen now && ltb now (seen + 90))

-- Backward clock movement counts as a loss.
unfoldable pub controller_lost : Journal → ℕ → Bool
unfolding unseen
controller_lost j now = pre_accept j.stage && unseen j.controller now

-- A guest that is there and has this UUID.
abbrev pub is_guest : Option Domain → String → Bool
is_guest none uuid = false
is_guest (some d) uuid = d.uuid =ₛ uuid

abbrev pub is_absent : Option Domain → Bool
is_absent none = true
is_absent (some d) = false

-- A UUID of the request. An adoption has no new one, and no stage that reads it.
abbrev pub uuid_of : Option Generation → String
uuid_of none = ""
uuid_of (some g) = g.uuid

abbrev pub both : List Side
both = old ∷ new ∷ []

-- The names of the checks that the controller's evidence must have, exactly.
unfoldable pub required_checks : Request → List String
required_checks r =
    if is_router r.role
    then "boot" ∷ "kernel_modules" ∷ "identity" ∷ "retained_state" ∷ "firewall" ∷ "forwarding"
      ∷ "isolation" ∷ "dhcp_dns" ∷ "wan" ∷ "management" ∷ "reboot" ∷ []
    else if is_service r.kind
    then "boot" ∷ "kernel_modules" ∷ "identity" ∷ "firewall" ∷ "retained_state"
      ∷ "workloads_unchanged" ∷ "service" ∷ "reboot" ∷ []
    else "boot" ∷ "kernel_modules" ∷ "tailscale" ∷ "rootless_podman" ∷ "firewall"
      ∷ "no_application_qualification" ∷ "data" ∷ "application_images_unchanged" ∷ "quarantine" ∷ []

unfoldable pub is_complete_evidence : Request → Evidence → Bool
unfolding required_checks
is_complete_evidence r e =
    e.request_sha256 =ₛ r.digest
    && same_set ◌=ₛ◌ (map (λ c. c.0) e.checks) (required_checks r)
    && all (λ c. c.1) e.checks

unfoldable pub is_ready_proof : Request → ReadyProof → Bool
is_ready_proof r p =
    p.request_sha256 =ₛ r.digest
    && p.contract =ₛ r.contract
    && p.operation_id =ₛ r.operation_id
    && p.ready

abbrev pub is_text : Option String → String → Bool
is_text none t = false
is_text (some s) t = s =ₛ t

abbrev pub is_recovering : Stage → Bool
is_recovering Stage.recovering = true
is_recovering _ = false

module _ (host : Host) (request : Request) where
  abbrev same_fields : Journal → Journal
  same_fields j = j

  -- The old guest is asked to shut down; another guest in its place is an error.
  unfoldable pub stop_old : Option Domain → Tx (Unit {0})
  stop_old none = pure tt
  stop_old (some d) = do
    require (d.uuid =ₛ request.before.uuid) Exn.candidate_early
    effect host (Effect.stop d.uuid true)

  unfoldable pub stop_armed : Tx (Unit {0})
  stop_armed = do
    alive ← look (λ l. or_error Exn.native_error (host.watcher_alive l))
    require alive Exn.watcher_missing
    record_stage host Stage.stopping (λ j. record j { old_shutdown_pending = some true })
    found ← observe host request both
    stop_old found
    again ← observe host request both
    require (is_absent again) Exn.old_still_held
    record_stage host Stage.stopped (λ j. record j { old_shutdown_pending = some false })

  unfoldable pub check_ready : Tx (Unit {0})
  check_ready = do
    proof ← look (λ l. or_error Exn.native_error (host.ready l))
    require (is_ready_proof request proof) Exn.not_finalized

  unfoldable pub start_stopped : Tx (Unit {0})
  unfolding check_ready
  start_stopped = do
    found ← observe host request both
    require (is_absent found) Exn.guest_appeared
    artifacts host request new
    if is_router request.role then check_ready else pure tt
    record_stage host Stage.starting same_fields
    if is_service request.kind then assignment host request new else pure tt
    effect host (Effect.start Source.staged_new)
    started ← observe host request both
    require (is_guest started (uuid_of request.after)) Exn.not_started
    record_stage host Stage.booted same_fields

  -- A lost create response: the new generation stays selected.
  unfoldable pub start_again : Tx (Unit {0})
  start_again = do
    assignment host request new
    found ← observe host request (new ∷ [])
    if is_absent found then effect host (Effect.start Source.staged_new) else pure tt
    again ← observe host request (new ∷ [])
    require (not (is_absent again)) Exn.service_not_started
    record_stage host Stage.booted same_fields

  unfoldable pub test_booted : Tx (Unit {0})
  test_booted = do
    evidence ← look (λ l. or_error Exn.native_error (host.evidence l))
    require (is_complete_evidence request evidence) Exn.checks_incomplete
    record_stage host Stage.tested (λ j. record j { checks_sha256 = some (host.digest evidence) })

  abbrev recorded_digest : Option Journal → Evidence → Bool
  recorded_digest none e = false
  recorded_digest (some j) e = is_text j.checks_sha256 (host.digest e)

  unfoldable pub accept_tested : Tx (Unit {0})
  accept_tested = do
    evidence ← look (λ l. or_error Exn.native_error (host.evidence l))
    journal ← get_journal
    require (recorded_digest journal evidence) Exn.checks_changed
    found ← observe host request both
    require (is_guest found (uuid_of request.after)) Exn.candidate_absent
    artifacts host request new
    record_stage host Stage.accepted same_fields
    assignment host request new

  unfoldable pub complete_accepted : Tx (Unit {0})
  complete_accepted = do
    found ← observe host request (new ∷ [])
    require (not (is_absent found)) Exn.accepted_absent
    assignment host request new
    record_stage host Stage.complete same_fields

  unfoldable pub beat : Stage → Tx (Unit {0})
  beat stage = do
    require (has_liveness request.kind && pre_accept stage && not (is_recovering stage))
        Exn.not_live
    now ← clock host
    record_stage host stage (λ j. record j { controller = some now })

  -- The stages, by the command and the journal's stage.
  unfoldable pub advance : Command → Stage → Tx (Unit {0})
  unfolding stop_armed start_stopped start_again test_booted accept_tested complete_accepted beat
  advance heartbeat stage = beat stage
  advance stop Stage.armed = stop_armed
  advance start Stage.stopped = start_stopped
  advance start Stage.starting =
      if is_service request.kind then start_again else raise Exn.out_of_order
  advance start Stage.booted =
      if is_service request.kind then start_again else raise Exn.out_of_order
  advance tested Stage.booted = test_booted
  advance accept Stage.tested = accept_tested
  advance complete Stage.accepted = complete_accepted
  advance _ _ = raise Exn.out_of_order
