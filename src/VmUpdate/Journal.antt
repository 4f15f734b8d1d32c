-- ===== src/VmUpdate/Journal.antt =====
-- vm_update_engine.py `Transaction.record`, `assignment`, `runtime_intent`: the stored journal and
-- the assignment that Xen boots. The host is an environment that answers each look and each effect
-- from the history before it; an effect is noted with whether it returned.
use klokast_box.Prelude.{
  ℕ, String, Bool, true, false, ◌&&◌, Option, none, some, List, ◌∷◌, ◌=ₛ◌, if◌then◌else◌,
}
use klokast_box.Prelude.Text.{codes, exactly, is_hex}
use klokast_box.Effects.{Outcome, ok, raised, Action, pure, raise, ◌>>=◌, ◌>>◌}
use klokast_box.VmUpdate.Request.{Request, Generation, Side, ArtifactIdentity, generation}
use klokast_box.VmUpdate.Inspection.{Snapshot, Domain, Exn, check_artifacts}
use klokast_box.VmUpdate.Guest.{guest}

-- `PRE_ACCEPT`, then `TERMINAL`.
pub data Stage : Type 0 where
  armed stopping stopped starting booted tested recovering : Stage
  adopted accepted complete recovered recovery_failed : Stage

abbrev pub pre_accept : Stage → Bool
pre_accept adopted = false
pre_accept accepted = false
pre_accept complete = false
pre_accept recovered = false
pre_accept recovery_failed = false
pre_accept _ = true

-- `POST_BOOT`
abbrev pub post_boot : Stage → Bool
post_boot starting = true
post_boot booted = true
post_boot tested = true
post_boot accepted = true
post_boot complete = true
post_boot _ = false

-- The stages at which an assignment is finished.
abbrev pub is_settled : Stage → Bool
is_settled adopted = true
is_settled complete = true
is_settled recovered = true
is_settled _ = false

-- journal.json. `controller` is `controller_seen_at`, which stands there exactly for the kinds
-- whose `controller_timeout_seconds` is 90.
pub record Journal : Type 0 where
  pub stage : Stage
  pub deadline : ℕ
  pub controller : Option ℕ
  pub old_shutdown_pending : Option Bool
  pub recovery_started_at : Option ℕ
  pub checks_sha256 : Option String
  pub updated_at : ℕ

-- What starts a guest: the staged configuration of the new generation, or the installed one.
pub data Source : Type 0 where
  staged_new installed : Source

pub data Effect : Type 0 where
  store : Journal → Effect
  configure : Side → Effect
  unlink link persist : Effect
  stop : String → Bool → Effect
  start : Source → Effect

pub data Event : Type 0 where
  looked : Event
  -- An inspection that returned, with the guest that it found.
  observed : Option Domain → Event
  done : Effect → Bool → Event

-- runtime.json
pub record RuntimeIntent : Type 0 where
  pub request_sha256 : String
  pub intent_sha256 : String
  pub running : Bool

pub data RuntimeFile : Type 0 where
  absent unreadable : RuntimeFile
  present : RuntimeIntent → RuntimeFile

-- What stands at the autostart path.
pub data Link : Type 0 where
  nothing managed foreign other_entry : Link

-- checks.json: which checks say `True`.
pub record Evidence : Type 0 where
  pub request_sha256 : String
  pub checks : List (String × Bool)

-- router-state-ready.json
pub record ReadyProof : Type 0 where
  pub request_sha256 : String
  pub contract : String
  pub operation_id : String
  pub ready : Bool

-- The host: none where a read raises. `digest` is the digest of a canonical text.
pub record Host : Type 0 where
  pub clock : List Event → ℕ
  pub snapshot : List Event → Snapshot
  pub artifact : List Event → String → Option ArtifactIdentity
  pub runtime : List Event → RuntimeFile
  pub autostart : List Event → Link
  pub evidence : List Event → Option Evidence
  pub ready : List Event → Option ReadyProof
  pub watcher_alive : List Event → Option Bool
  pub returns : List Event → Effect → Bool
  pub digest : Evidence → String

pub record Transaction : Type 0 where
  pub journal : Option Journal
  pub log : List Event

abbrev pub Tx : Type 0 → Type 0
Tx A = Action Transaction Exn A

unfoldable pub get_journal : Tx (Option Journal)
get_journal s = (ok s.journal, s)

-- A read of the host.
unfoldable pub look : {A : Type 0} → (List Event → Outcome Exn A) → Tx A
look read s = (read s.log, record s { log = looked ∷ s.log })

abbrev pub or_error : {A : Type 0} → Exn → Option A → Outcome Exn A
or_error e (some a) = ok a
or_error e none = raised e

abbrev pub or_blank : Option Journal → Journal
or_blank (some j) = j
or_blank none = record {
  stage = armed;
  deadline = 0;
  controller = none;
  old_shutdown_pending = none;
  recovery_started_at = none;
  checks_sha256 = none;
  updated_at = 0;
}

abbrev pub after_effect : Bool → Outcome Exn (Unit {0})
after_effect true = ok tt
after_effect false = raised Exn.native_error

-- The journal in memory changes only where the write returns.
abbrev pub journal_after : Effect → Bool → Option Journal → Option Journal
journal_after (store j) true before = some j
journal_after _ _ before = before

module _ (host : Host) where
  unfoldable pub effect : Effect → Tx (Unit {0})
  effect e s =
      let b = host.returns s.log e in
      (after_effect b, record s { journal = journal_after e b s.journal; log = done e b ∷ s.log })

  unfoldable pub clock : Tx ℕ
  unfolding look
  clock = look (λ l. ok (host.clock l))

  -- `record(stage, **fields)`
  unfoldable pub record_stage : Stage → (Journal → Journal) → Tx (Unit {0})
  unfolding clock effect
  record_stage stage change = do
    journal ← get_journal
    now ← clock
    let fields = change (or_blank journal)
    effect (store (record fields { stage = stage; updated_at = now }))

module _ (host : Host) (request : Request) where
  abbrev pub seen_event : Outcome Exn (Option Domain) → Event
  seen_event (ok found) = observed found
  seen_event (raised e) = looked

  unfoldable pub observe : List Side → Tx (Option Domain)
  observe sides s =
      let found = guest (host.snapshot s.log) request sides in
      (found, record s { log = seen_event found ∷ s.log })

  abbrev artifacts_of :
      (String → Option ArtifactIdentity) → Option Generation → Outcome Exn (Unit {0})
  artifacts_of read none = raised Exn.missing_field
  artifacts_of read (some g) = check_artifacts read g.artifacts

  unfoldable pub artifacts : Side → Tx (Unit {0})
  unfolding look
  artifacts side = look (λ l. artifacts_of (host.artifact l) (generation request side))

  abbrev journal_settled : Option Journal → Bool
  journal_settled none = false
  journal_settled (some j) = is_settled j.stage

  -- Whether the runtime intent is `running`.
  unfoldable pub intent_of : RuntimeFile → Option Journal → Outcome Exn Bool
  intent_of absent journal = ok request.autostart
  intent_of unreadable journal = raised Exn.native_error
  intent_of (present v) journal =
      if v.request_sha256 =ₛ request.digest
        && exactly is_hex 64 (codes v.intent_sha256)
        && journal_settled journal
      then ok v.running
      else raised Exn.intent_differs

  unfoldable pub runtime_intent : Tx Bool
  unfolding look intent_of
  runtime_intent = do journal ← get_journal; look (λ l. intent_of (host.runtime l) journal)

  unfoldable pub clear_link : Link → Tx (Unit {0})
  clear_link nothing = pure tt
  clear_link managed = effect host unlink
  clear_link foreign = raise Exn.autostart_destination
  clear_link other_entry = raise Exn.autostart_unmanaged

  unfoldable pub assignment : Side → Tx (Unit {0})
  unfolding artifacts clear_link runtime_intent
  assignment side = do
    artifacts side
    effect host (configure side)
    found ← look (λ l. ok (host.autostart l))
    clear_link found
    running ← runtime_intent
    if running then effect host link else pure tt
    effect host persist
