-- ===== src/RouterTransaction/History.antt =====
-- What the history of the adapter's calls says about the two router generations, and which calls
-- a history permits: the order that router_transaction.py exists to keep.
use klokast_box.Prelude.{◌≡◌, Bool, true, false, ◌||◌, Option, none, some, List, [], ◌∷◌}
use klokast_box.RouterTransaction.Contract.{Phase, Pending}
use klokast_box.RouterTransaction.Journal.{
  Generation, old, candidate, Result, Call, Reply, returned, failed, Event, called, clock_read,
}

abbrev pub twin : Generation → Generation
twin old = candidate
twin candidate = old

abbrev pub is_same : Generation → Generation → Bool
is_same old old = true
is_same candidate candidate = true
is_same _ _ = false

abbrev pub unless : Bool → Bool → Bool
unless true b = false
unless false b = b

-- Whether `g` may run after a call: a start may take effect even where it raises, a stop is sure
-- only where it returns.
abbrev pub may_run_after : Call → Reply → Generation → Bool → Bool
may_run_after (Call.start h) r g before = is_same g h || before
may_run_after (Call.stop h) (returned a) g before = unless (is_same g h) before
may_run_after Call.fence_all (returned a) g before = false
may_run_after _ _ _ before = before

-- Whether `g` may run after a history, from what is known before it.
abbrev pub may_run : (Generation → Bool) → Generation → List Event → Bool
may_run start g [] = start g
may_run start g (called c r ∷ l) = may_run_after c r g (may_run start g l)
may_run start g (clock_read n ∷ l) = may_run start g l

abbrev pub record_after : Call → Reply → Option Pending → Option Pending
record_after (Call.persist p) (returned a) before = some p
record_after (Call.persist p) failed before = none
record_after _ _ before = before

-- The record that the last `persist` made durable; none if that raised.
abbrev pub durable : List Event → Option Pending
durable [] = none
durable (called c r ∷ l) = record_after c r (durable l)
durable (clock_read n ∷ l) = durable l

abbrev pub marker : Generation → Pending → Bool
marker old p = p.old_started
marker candidate p = p.candidate_started

abbrev pub final_phase : Result → Phase
final_phase Result.accepted = Phase.accepted
final_phase Result.rolled_back = Phase.rolled_back

-- What must hold of the history before a call.
abbrev pub Permitted : (Generation → Bool) → Call → List Event → Type 0
Permitted init (Call.start g) l =
    (may_run init (twin g) l ≡ false) × ((p : Pending) × (durable l ≡ some p) × (marker g p ≡ true))
Permitted init (Call.copy g h) l =
    (may_run init old l ≡ false)
    × (may_run init candidate l ≡ false)
    × ((p : Pending) × (durable l ≡ some p) × (marker h p ≡ false))
Permitted init (Call.finish r) l = (p : Pending) × (durable l ≡ some p) × (p.phase ≡ final_phase r)
Permitted init _ l = Unit

-- Every call of the history was permitted by the history before it.
abbrev pub Lawful : (Generation → Bool) → List Event → Type 0
Lawful init [] = Unit
Lawful init (called c r ∷ l) = Permitted init c l × Lawful init l
Lawful init (clock_read n ∷ l) = Lawful init l

-- The generation that a result leaves behind.
abbrev pub loser : Result → Generation
loser Result.accepted = old
loser Result.rolled_back = candidate
