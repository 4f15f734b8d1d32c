-- ===== src/VmUpdate/History.antt =====
-- What a history of effects says of the journal and of the last inspection, and which effects a
-- history permits: the order that vm_update_engine.py promises.
use klokast_box.Prelude.{◌≡◌, Bool, true, false, not, ◌&&◌, Option, none, some, List, [], ◌∷◌}
use klokast_box.VmUpdate.Request.{Request, Kind, old, new, is_service, has_liveness}
use klokast_box.VmUpdate.Inspection.{Domain}
use klokast_box.VmUpdate.Journal.{
  Stage, pre_accept, post_boot, Journal, Source, Effect, Event, looked, observed, done,
  journal_after,
}
use klokast_box.VmUpdate.Steps.{uuid_of, Command, Report}

-- The journal after a history, from the one before it: the last write that returned.
abbrev pub journal_of : Option Journal → List Event → Option Journal
journal_of start [] = start
journal_of start (looked ∷ l) = journal_of start l
journal_of start (observed d ∷ l) = journal_of start l
journal_of start (done e b ∷ l) = journal_after e b (journal_of start l)

abbrev pub seen_after : Effect → Option (Option Domain) → Option (Option Domain)
seen_after (Effect.stop u g) before = none
seen_after (Effect.start s) before = none
seen_after _ before = before

-- What the last inspection found, if no guest was started or stopped since.
abbrev pub last_seen : List Event → Option (Option Domain)
last_seen [] = none
last_seen (looked ∷ l) = last_seen l
last_seen (observed d ∷ l) = some d
last_seen (done e b ∷ l) = seen_after e (last_seen l)

-- The new generation is the only one that may be selected: it was accepted or, for the service
-- kinds, its start was recorded.
abbrev pub is_committed : Kind → Stage → Bool
is_committed k Stage.accepted = true
is_committed k Stage.complete = true
is_committed k stage = is_service k && post_boot stage

abbrev pub is_starting : Stage → Bool
is_starting Stage.starting = true
is_starting Stage.booted = true
is_starting _ = false

abbrev pub same_stage : Stage → Stage → Bool
same_stage Stage.armed Stage.armed = true
same_stage Stage.stopping Stage.stopping = true
same_stage Stage.stopped Stage.stopped = true
same_stage Stage.starting Stage.starting = true
same_stage Stage.booted Stage.booted = true
same_stage Stage.tested Stage.tested = true
same_stage _ _ = false

-- The transitions of the journal's stage: forward, a heartbeat, or into and out of a recovery.
abbrev pub edge : Kind → Stage → Stage → Bool
edge k Stage.armed Stage.stopping = true
edge k Stage.stopping Stage.stopped = true
edge k Stage.stopped Stage.starting = true
edge k Stage.starting Stage.booted = true
edge k Stage.booted Stage.booted = true
edge k Stage.booted Stage.tested = true
edge k Stage.tested Stage.accepted = true
edge k Stage.accepted Stage.complete = true
edge k Stage.recovering Stage.recovered = true
edge k Stage.recovering Stage.recovery_failed = true
edge k s Stage.recovering = pre_accept s && not (is_committed k s)
edge k s t = same_stage s t

-- A test of the journal's stage.
abbrev pub StageIs : (Stage → Bool) → Option Journal → Type 0
StageIs p q = (j : Journal) × (q ≡ some j) × (p j.stage ≡ true)

-- What must hold of the history before an effect.
abbrev pub Permitted : Request → Option Journal → Effect → List Event → Type 0
Permitted r start (Effect.configure old) l =
    StageIs (λ s. not (is_committed r.kind s)) (journal_of start l)
Permitted r start (Effect.configure new) l = StageIs (is_committed r.kind) (journal_of start l)
Permitted r start (Effect.start Source.staged_new) l =
    StageIs is_starting (journal_of start l) × (last_seen l ≡ some none)
Permitted r start (Effect.start Source.installed) l =
    StageIs (λ s. not (is_committed r.kind s)) (journal_of start l) × (last_seen l ≡ some none)
Permitted r start (Effect.stop u true) l = u ≡ r.before.uuid
Permitted r start (Effect.stop u false) l =
    (u ≡ uuid_of r.after) × StageIs (λ s. not (is_committed r.kind s)) (journal_of start l)
Permitted r start (Effect.store j) l = StageIs (λ s. edge r.kind s j.stage) (journal_of start l)
Permitted r start _ l = Unit

-- Every effect of the history was permitted by the history before it.
abbrev pub Lawful : Request → Option Journal → List Event → Type 0
Lawful r start [] = Unit
Lawful r start (looked ∷ l) = Lawful r start l
Lawful r start (observed d ∷ l) = Lawful r start l
Lawful r start (done e b ∷ l) = Permitted r start e l × Lawful r start l

-- What an effect does not undo: the new generation stays the selected one and is not discarded.
abbrev pub keeps_new : Event → Bool
keeps_new (done (Effect.configure old) b) = false
keeps_new (done (Effect.start Source.installed) b) = false
keeps_new (done (Effect.stop u false) b) = false
keeps_new _ = true

-- Which stage a command that returns leaves, from which stage.
abbrev pub reached_by : Kind → Command → Stage → Stage → Bool
reached_by k Command.heartbeat s t = has_liveness k && same_stage s t
reached_by k Command.stop Stage.armed Stage.stopped = true
reached_by k Command.start Stage.stopped Stage.booted = true
reached_by k Command.start Stage.starting Stage.booted = is_service k
reached_by k Command.start Stage.booted Stage.booted = is_service k
reached_by k Command.tested Stage.booted Stage.tested = true
reached_by k Command.accept Stage.tested Stage.accepted = true
reached_by k Command.complete Stage.accepted Stage.complete = true
reached_by k _ s t = false

-- Which stage a recovery's report stands for.
abbrev pub reported : Kind → Report → Stage → Bool
reported k Report.preserve_service t = is_service k && post_boot t
reported k Report.preserve_production Stage.accepted = true
reported k Report.preserve_production Stage.complete = true
reported k Report.was_adopted Stage.adopted = true
reported k Report.was_recovered Stage.recovered = true
reported k Report.recovered Stage.recovered = true
reported k _ t = false

-- What an invocation that returns says of the stage that it leaves, from the stage it found.
abbrev pub reached : Kind → Command → Stage → Report → Stage → Bool
reached k Command.recover_command s report t = reported k report t
reached k Command.boot_recover s report t = reported k report t
reached k command s Report.nothing t = reached_by k command s t
reached k command s _ t = false
