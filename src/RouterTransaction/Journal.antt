-- ===== src/RouterTransaction/Journal.antt =====
-- router_transaction.py `Transaction.checkpoint`, `Transaction.action`: the object is its pending
-- record; beside it stands the history of the adapter's calls, the newest first, on which alone
-- the adapter's next answer and the next reading of its clock depend.
use klokast_box.Prelude.{
  ℕ, Bool, false, Option, none, some, List, ◌∷◌, ltb, [], ◌&&◌, if◌then◌else◌,
}
use klokast_box.Effects.{Outcome, ok, raised, Action, pure, require, ◌>>=◌, ◌>>◌}
use klokast_box.RouterTransaction.Contract.{
  Request, Phase, Reason, Pending, cutover_reason, validate, validate_pending,
}

pub data Generation : Type 0 where
  old candidate : Generation

pub data Result : Type 0 where
  accepted rolled_back : Result

-- The adapter's methods, with the arguments that the transaction passes beside the deadline.
pub data Call : Type 0 where
  verify_prepared arm wait_enrollment finalize_candidate wait_acceptance : Call
  verify_recovery committed fence_all : Call
  persist : Pending → Call
  stop start check_local commit disarm : Generation → Call
  copy verify_copy : Generation → Generation → Call
  finish : Result → Call

-- What a call returns, as far as the transaction looks: `True`, `False`, or any other value.
pub data Answer : Type 0 where
  is_true is_false other : Answer

pub data Reply : Type 0 where
  returned : Answer → Reply
  failed : Reply

pub data Event : Type 0 where
  called : Call → Reply → Event
  clock_read : ℕ → Event

-- The adapter: any answers, and any clock.
pub record Adapter : Type 0 where
  pub reply : List Event → Call → Reply
  pub clock : List Event → ℕ

pub data Exn : Type 0 where
  adapter_error invalid_pending budget_exhausted deadline_exceeded already_pending : Exn
  not_enrolled not_accepted no_pending unsupported_reason previously_failed : Exn
  unknown_assignment recovery_fenced recovery_unfenced : Exn

pub record Transaction : Type 0 where
  pub pending : Option Pending
  pub log : List Event

-- `Transaction.__init__`: none where it raises `TransactionError`.
unfoldable pub transaction : Request → Option Pending → Option Transaction
transaction r none = if validate r then some (record { pending = none; log = [] }) else none
transaction r (some p) =
    if validate r && validate_pending p r
    then some (record { pending = some p; log = [] })
    else none

abbrev pub Tx : Type 0 → Type 0
Tx A = Action Transaction Exn A

abbrev pub answer : Reply → Outcome Exn Answer
answer (returned a) = ok a
answer failed = raised adapter_error

unfoldable pub get_pending : Tx (Option Pending)
get_pending s = (ok s.pending, s)

unfoldable pub set_pending : Pending → Tx (Unit {0})
set_pending p s = (ok tt, record s { pending = some p })

module _ (adapter : Adapter) where
  -- A call of one of the adapter's methods.
  unfoldable pub perform : Call → Tx Answer
  perform c s = let r = adapter.reply s.log c in (answer r, record s { log = called c r ∷ s.log })

  unfoldable pub monotonic : Tx ℕ
  monotonic s = let now = adapter.clock s.log in (ok now, record s { log = clock_read now ∷ s.log })

abbrev pub or_keep : {A : Type 0} → Option A → A → A
or_keep none a = a
or_keep (some b) a = b

-- The record that `checkpoint` builds from the one before.
abbrev pub next_pending :
    Request → Option Pending → Phase → Option Bool → Option Bool → Option Reason → Pending
next_pending r none phase started old_started reason = record {
  request = r;
  phase = phase;
  candidate_started = or_keep started false;
  old_started = or_keep old_started false;
  reason = or_keep reason cutover_reason;
}
next_pending r (some p) phase started old_started reason = record {
  request = r;
  phase = phase;
  candidate_started = or_keep started p.candidate_started;
  old_started = or_keep old_started p.old_started;
  reason = or_keep reason p.reason;
}

module _ (adapter : Adapter) (request : Request) where
  -- The object keeps the new record even where its validation or the write raises.
  unfoldable pub checkpoint : Phase → Option Bool → Option Bool → Option Reason → Tx Answer
  checkpoint phase started old_started reason = do
    previous ← get_pending
    let pending = next_pending request previous phase started old_started reason
    set_pending pending
    require (validate_pending pending request) invalid_pending
    perform adapter (persist pending)

  unfoldable pub action : Call → ℕ → Tx Answer
  action name deadline = do
    now ← monotonic adapter
    require (ltb now deadline) budget_exhausted
    result ← perform adapter name
    later ← monotonic adapter
    require (ltb later deadline) deadline_exceeded
    pure result
