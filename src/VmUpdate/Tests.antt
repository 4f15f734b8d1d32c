-- ===== src/VmUpdate/Tests.antt =====
-- A box with one guest, concrete runs of the update commands, and the theorems at them.
use klokast_box.Prelude.{
  All, ℕ, String, ◌≡◌, refl, true, Option, none, some, List, [], ◌∷◌, ◌=ₛ◌, if◌then◌else◌, map, all,
}
use klokast_box.Effects.{ok, ◌>>=◌, pure, raise, require}
use klokast_box.Effects.Triple.{Holds}
use klokast_box.VmUpdate.Request.{Request, Kind, Role, Side, old, new, Generation}
use klokast_box.VmUpdate.Inspection.{
  Snapshot, Domain, Lv, disks, read_sides, read_volumes, check_artifacts,
}
use klokast_box.VmUpdate.Guest.{
  guest, attached, side_of, recorded_devices, expected_mappings, mappings, same_mapping,
  check_target, place, examine_guest, examine, examine_all,
}
use klokast_box.VmUpdate.Inspection.Recorded.{HasRecordedDisks}
use klokast_box.VmUpdate.Guest.Exclusive.{guest-Account, Account}
use klokast_box.VmUpdate.Journal.{
  Stage, Journal, Source, Effect, Event, done, Host, RuntimeFile, Link, get_journal, look, effect,
  clock, record_stage, observe, artifacts,
}
use klokast_box.VmUpdate.Steps.{
  Command, controller_lost, required_checks, stop_old, stop_armed, start_stopped, advance, unseen,
  both,
}
use klokast_box.VmUpdate.Recovery.{overdue, step_checked, step_from, step}
use klokast_box.VmUpdate.History.{Lawful, is_committed, keeps_new, StageIs, reached}
use klokast_box.VmUpdate.Safety.{run, loaded, run-Lawful, step-reached}
use klokast_box.VmUpdate.Commitment.{run-keeps_new}

abbrev generation_of : String → String → Generation
generation_of uuid path = record {
  uuid = uuid;
  config_sha256 = "";
  disks = (path, record { uuid = path; bytes = 4096 }) ∷ [];
  artifacts = [];
  config_disks = record { path = path; vdev = "xvda" } ∷ [];
}

abbrev request : Request
request = record {
  kind = Kind.switch_v2;
  role = Role.bak;
  operation_id = "0123456789abcdef01234567";
  digest = "request";
  contract = "";
  autostart = true;
  replacement_seconds = 600;
  recovery_seconds = 300;
  before = generation_of "old-uuid" "/dev/vg/old";
  after = some (generation_of "new-uuid" "/dev/vg/new");
}

-- Each generation's disk has a device of its own.
abbrev device_number : String → Option ℕ
device_number path =
    if path =ₛ "/dev/vg/old" then some 1 else if path =ₛ "/dev/vg/new" then some 2 else none

abbrev volume : String → Option ℕ → Option Lv
volume path none = none
volume path (some n) = some (record { uuid = path; bytes = 4096; device = n })

abbrev domain : String → String → Domain
domain uuid path = record {
  domid = 7;
  name = "bak";
  uuid = uuid;
  disks = some (record { pdev_path = some path; vdev = some "xvda"; readwrite = some 1 } ∷ []);
}

abbrev domain_of : Side → Domain
domain_of old = domain "old-uuid" "/dev/vg/old"
domain_of new = domain "new-uuid" "/dev/vg/new"

abbrev after_start : Source → Side
after_start Source.staged_new = new
after_start Source.installed = old

-- The guest that runs after a history, from the one that ran before.
abbrev running : Option Side → List Event → Option Side
running first [] = first
running first (done (Effect.start source) true ∷ l) = some (after_start source)
running first (done (Effect.stop uuid graceful) true ∷ l) = none
running first (event ∷ l) = running first l

abbrev domains_of : Option Side → List Domain
domains_of none = []
domains_of (some side) = domain_of side ∷ []

abbrev snapshot_of : Option Side → Snapshot
snapshot_of side = record {
  lv = λ path. volume path (device_number path);
  device = device_number;
  is_unmounted = λ _. true;
  inventory =
      some (record { domid = 0; name = "Domain-0"; uuid = ""; disks = none } ∷ domains_of side);
}

-- A host on which everything succeeds, at one moment.
abbrev host_at : ℕ → Option Side → Host
host_at now first = record {
  clock = λ _. now;
  snapshot = λ l. snapshot_of (running first l);
  artifact = λ _ _. none;
  runtime = λ _. RuntimeFile.absent;
  autostart = λ _. Link.nothing;
  evidence = λ _. some (record {
    request_sha256 = "request";
    checks = map (λ name. (name, true)) (required_checks request);
  });
  ready = λ _. none;
  watcher_alive = λ _. some true;
  returns = λ _ _. true;
  digest = λ _. "evidence";
}

abbrev journal_at : Stage → Journal
journal_at stage = record {
  stage = stage;
  deadline = 600;
  controller = some 100;
  old_shutdown_pending = none;
  recovery_started_at = none;
  checks_sha256 = none;
  updated_at = 100;
}

abbrev stage_of : Option Journal → Option Stage
stage_of none = none
stage_of (some j) = some j.stage

abbrev forward : List Command
forward = Command.stop ∷ Command.start ∷ Command.tested ∷ Command.accept ∷ Command.complete ∷ []

-- The first stage stops the old guest, and the next starts the new one.
old_stops :
    stage_of
      (run
        (host_at 110 (some old))
        request
        (Command.stop ∷ [])
        (loaded (some (journal_at Stage.armed)))).journal
    ≡ some Stage.stopped
unfolding run step step_from step_checked overdue advance ◌>>=◌ get_journal clock pure require
    controller_lost record_stage observe guest read_sides read_volumes attached side_of
    recorded_devices expected_mappings mappings same_mapping raise check_target examine examine_all
    examine_guest place disks effect look stop_armed stop_old unseen
old_stops = refl

new_starts :
    stage_of
      (run
        (host_at 110 none)
        request
        (Command.start ∷ [])
        (loaded (some (journal_at Stage.stopped)))).journal
    ≡ some Stage.booted
unfolding run step step_from step_checked overdue advance ◌>>=◌ get_journal clock pure require
    controller_lost record_stage observe guest read_sides read_volumes attached side_of
    recorded_devices expected_mappings mappings same_mapping raise check_target examine examine_all
    examine_guest place disks effect look start_stopped unseen artifacts check_artifacts
new_starts = refl

run-Lawful_example :
    Lawful request
      (some (journal_at Stage.armed))
      (run (host_at 110 (some old)) request forward (loaded (some (journal_at Stage.armed)))).log
run-Lawful_example =
    run-Lawful (host_at 110 (some old)) request (some (journal_at Stage.armed)) forward

run-keeps_new_example :
    (all keeps_new
        (run
          (host_at 110 (some new))
          request
          (Command.boot_recover ∷ Command.complete ∷ [])
          (loaded (some (journal_at Stage.accepted)))).log
      ≡ true)
    × StageIs
        (is_committed Kind.switch_v2)
        (run
          (host_at 110 (some new))
          request
          (Command.boot_recover ∷ Command.complete ∷ [])
          (loaded (some (journal_at Stage.accepted)))).journal
run-keeps_new_example =
    run-keeps_new (host_at 110 (some new)) request (journal_at Stage.accepted)
      (Command.boot_recover ∷ Command.complete ∷ []) refl

step-reached_example :
    Holds
      (λ report s.
        StageIs (reached Kind.switch_v2 Command.recover_command Stage.booted report) s.journal)
      (λ _ _. Unit)
      (step
        (host_at 110 (some new))
        request
        Command.recover_command
        (loaded (some (journal_at Stage.booted))))
step-reached_example =
    step-reached (host_at 110 (some new)) request (journal_at Stage.booted) Command.recover_command

abbrev late_commands : List Command
late_commands = Command.heartbeat ∷ Command.stop ∷ []

guest-Account_example :
    (actual : List (String × Lv)) × (domains : List Domain) × (disks
        (snapshot_of (some old))
        request
        both
      ≡ ok actual)
    × ((snapshot_of (some old)).inventory ≡ some domains)
    × All (HasRecordedDisks (snapshot_of (some old)) request actual) both
    × Account (snapshot_of (some old)) request both actual domains (some (domain_of old))
unfolding guest disks examine_all read_sides read_volumes attached side_of recorded_devices
    expected_mappings mappings same_mapping
guest-Account_example =
    guest-Account (snapshot_of (some old)) request both (some (domain_of old)) refl
