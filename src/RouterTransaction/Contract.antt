-- ===== src/RouterTransaction/Contract.antt =====
-- router_transaction.py `validate`, `validate_pending`: requests and pending records. A request or
-- a record is a mapping with typed fields here, so the tests of its shape, of the types of its
-- fields and of the record's `kind` are the types' part; every test of a value is kept.
use klokast_box.Prelude.{
  ◌≡◌, ◌≤◌, leb→le, and-eq-true, ℕ, String, Bool, true, false, not, ◌&&◌, ◌||◌, leb, ◌==◌, ◌=ₛ◌,
}
use klokast_box.Prelude.Text.{codes, is_hex, is_alnum, is_label, exactly, headed}

-- A budget is a number of seconds: one below 0 fails the same test as one below 60.
pub record Request : Type 0 where
  pub kind : String
  pub role : String
  pub box : String
  pub operation_id : String
  pub engine_commit : String
  pub policy_sha256 : String
  pub accepted_sha256 : String
  pub old_sha256 : String
  pub candidate_sha256 : String
  pub cutover_seconds : ℕ
  pub recovery_seconds : ℕ

is_sha256 : String → Bool
is_sha256 s = exactly is_hex 64 (codes s)

is_budget : ℕ → Bool
is_budget seconds = leb 60 seconds && leb seconds 1800

has_identity : Request → Bool
unfolding is_sha256
has_identity r =
    r.kind =ₛ "klokast.router-transaction-request.v1"
    && r.role =ₛ "router"
    && headed is_alnum is_label 30 (codes r.box)
    && exactly is_hex 24 (codes r.operation_id)
    && exactly is_hex 40 (codes r.engine_commit)
    && is_sha256 r.policy_sha256
    && is_sha256 r.accepted_sha256
    && is_sha256 r.old_sha256
    && is_sha256 r.candidate_sha256
    && not (r.old_sha256 =ₛ r.candidate_sha256)

-- `true` where the code passes, `false` where it raises `TransactionError`.
unfoldable pub validate : Request → Bool
unfolding has_identity is_budget
validate r = has_identity r && (is_budget r.cutover_seconds && is_budget r.recovery_seconds)

-- A valid request gives each of its two steps a minute at least.
pub validate_budgets :
    (r : Request) → validate r ≡ true → (60 ≤ r.cutover_seconds) × (60 ≤ r.recovery_seconds)
unfolding validate
validate_budgets r valid =
    let b = and-eq-true _ _ (and-eq-true _ _ valid).1 in
    ((leb→le _ _ (and-eq-true _ _ b.0).0), (leb→le _ _ (and-eq-true _ _ b.1).0))

-- Equality of two requests as mappings.
unfoldable pub same_request : Request → Request → Bool
same_request r q =
    r.kind =ₛ q.kind
    && r.role =ₛ q.role
    && r.box =ₛ q.box
    && r.operation_id =ₛ q.operation_id
    && r.engine_commit =ₛ q.engine_commit
    && r.policy_sha256 =ₛ q.policy_sha256
    && r.accepted_sha256 =ₛ q.accepted_sha256
    && r.old_sha256 =ₛ q.old_sha256
    && r.candidate_sha256 =ₛ q.candidate_sha256
    && r.cutover_seconds == q.cutover_seconds
    && r.recovery_seconds == q.recovery_seconds

pub data Phase : Type 0 where
  armed stopping_old copying_forward candidate_ready : Phase
  starting_candidate checking_candidate awaiting_enrollment : Phase
  stopping_candidate_for_finalization finalizing_candidate restarting_candidate : Phase
  checking_final_candidate awaiting_acceptance committing accepted : Phase
  fencing_candidate fencing_old copying_reverse old_ready starting_old checking_old : Phase
  rolled_back recovery_failed : Phase

pub data Reason : Type 0 where
  cutover_reason deadline_or_check boot_recovery recovery_action_failed : Reason
  fencing_unconfirmed : Reason

pub record Pending : Type 0 where
  pub request : Request
  pub phase : Phase
  pub candidate_started : Bool
  pub old_started : Bool
  pub reason : Reason

-- The phases at which the candidate cannot have been started.
abbrev pub before_start : Phase → Bool
before_start armed = true
before_start stopping_old = true
before_start copying_forward = true
before_start candidate_ready = true
before_start _ = false

-- The phases that imply that the candidate may have been started.
abbrev pub after_start : Phase → Bool
after_start starting_candidate = true
after_start checking_candidate = true
after_start awaiting_enrollment = true
after_start stopping_candidate_for_finalization = true
after_start finalizing_candidate = true
after_start restarting_candidate = true
after_start checking_final_candidate = true
after_start awaiting_acceptance = true
after_start committing = true
after_start accepted = true
after_start copying_reverse = true
after_start _ = false

-- The phases at which the old generation may have been started again.
abbrev pub allows_old : Phase → Bool
allows_old fencing_candidate = true
allows_old old_ready = true
allows_old starting_old = true
allows_old checking_old = true
allows_old rolled_back = true
allows_old recovery_failed = true
allows_old _ = false

-- Whether a record's two markers may stand at a phase.
abbrev pub consistent : Phase → Bool → Bool → Bool
consistent phase candidate_started old_started = not (
    before_start phase && candidate_started
    || after_start phase && not candidate_started
    || old_started && not (allows_old phase))

-- `true` where the code passes, `false` where it raises `TransactionError`.
unfoldable pub validate_pending : Pending → Request → Bool
validate_pending p r =
    validate r && (same_request p.request r && consistent p.phase p.candidate_started p.old_started)

pub validate_pending-validate :
    (p : Pending) (r : Request) → validate_pending p r ≡ true → validate r ≡ true
unfolding validate_pending
validate_pending-validate p r h = (and-eq-true _ _ h).0
