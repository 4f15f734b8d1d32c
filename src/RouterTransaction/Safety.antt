-- ===== src/RouterTransaction/Safety.antt =====
-- The order that the router's cutover and recovery keep, whatever the adapter answers, raises or
-- delays, and whichever record recovery starts from.
use klokast_box.Prelude.{◌≡◌, refl, Bool, false, Option, none, []}
use klokast_box.Effects.Triple.{Holds, Triple-always, Triple-fault, Triple-post}
use klokast_box.RouterTransaction.Contract.{Request, Reason, Pending}
use klokast_box.RouterTransaction.Journal.{Adapter, Generation, candidate}
use klokast_box.RouterTransaction.Cutover.{recover, cutover}
use klokast_box.RouterTransaction.History.{Lawful}
use klokast_box.RouterTransaction.Exclusion.{Settled, fresh}
use klokast_box.RouterTransaction.Exclusion.Recover.{Refused, recover-Triple, recover-settles}
use klokast_box.RouterTransaction.Exclusion.Forward.{cutover-settles}

module _ (init : Generation → Bool) (adapter : Adapter) (request : Request) where
  -- Whatever the adapter answers, raises or delays, a `cutover` from an empty record, the recovery
  -- that it may run included, starts a generation only while the other is known not to run and
  -- under a durable record that marks the start, copies only with both known not to run and onto
  -- a generation that the durable record has not marked as started, and finishes only under the
  -- durable record of the phase that it reports. The candidate is assumed not to run before.
  pub cutover-Lawful :
      init candidate ≡ false
      → Lawful init (cutover adapter request (record { pending = none; log = [] })).1.log
  cutover-Lawful e =
      Triple-always (Triple-post (λ r s h. h.lawful) (cutover-settles init adapter request))
        (record { pending = none; log = [] }) (fresh e)

  -- `recover` keeps the same order from every pending record, and nothing is assumed of which
  -- generations run before.
  pub recover-Lawful :
      (reason : Reason) (pending : Option Pending)
      → Lawful init (recover adapter request reason (record { pending = pending; log = [] })).1.log
  recover-Lawful reason pending =
      Triple-always (Triple-post (λ r s h. h.lawful) (recover-settles init adapter request reason))
        (record { pending = pending; log = [] }) tt

  -- A `cutover` that returns `accepted` or `rolled-back`, with or without a recovery, leaves the
  -- record of that phase in the object and durable, and the other generation known not to run.
  pub cutover_result :
      init candidate ≡ false
      → Holds
          (Settled init)
          (λ _ _. Unit)
          (cutover adapter request (record { pending = none; log = [] }))
  cutover_result e =
      (Triple-fault (λ _ _ _. tt) (cutover-settles init adapter request)).at
        (record { pending = none; log = [] }) (fresh e)

  -- `recover` returns only with the record of the result's phase in the object and durable, and
  -- the other generation known not to run; where it raises, it either was refused at once, with no
  -- call made and the record unchanged, or the object's record says `recovery-failed`, and both
  -- generations are known not to run if the error says that they are fenced.
  pub recover_outcome :
      (reason : Reason) (pending : Option Pending)
      → Holds
          (Settled init)
          (Refused init pending [])
          (recover adapter request reason (record { pending = pending; log = [] }))
  recover_outcome reason pending =
      (Triple-fault (λ e s h. h.1) (recover-Triple init adapter request reason pending [])).at
        (record { pending = pending; log = [] }) (tt, refl, refl)
