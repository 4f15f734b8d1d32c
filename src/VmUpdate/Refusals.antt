-- ===== src/VmUpdate/Refusals.antt =====
-- What the commands of an expired update leave: one whose budget is over, or whose controller is
-- lost.
use klokast_box.Prelude.{
  List, [], ℕ, ◌+◌, ◌≤◌, ◌≡◌, ◌⊎◌, Bool, true, false, not, ◌&&◌, some, ◌∷◌, leb,
}
use klokast_box.VmUpdate.Request.{Request, is_service}
use klokast_box.VmUpdate.Inspection.{Exn}
use klokast_box.VmUpdate.Journal.{
  Event, done, Journal, Host, Transaction, pre_accept, post_boot, clock,
}

-- The replacement's deadline has come, and the update is not a service's that has booted.
abbrev out_of_time : Request → Journal → ℕ → Bool
out_of_time r j now =
    pre_accept j.stage && leb j.deadline now && not (is_service r.kind && post_boot j.stage)

-- The effects of a history, without the reads of the host.
abbrev pub effects_of : List Event → List Event
effects_of [] = []
effects_of (done e b ∷ l) = done e b ∷ effects_of l
effects_of (_ ∷ l) = effects_of l

-- The update has not been accepted, and its replacement deadline has come, which a service's update
-- has only until it booted, or its controller was not seen for ninety seconds.
abbrev pub IsExpired : Request → Journal → ℕ → Type 0
IsExpired r j now =
    (pre_accept j.stage ≡ true)
    × ((((is_service r.kind && post_boot j.stage) ≡ false) × (j.deadline ≤ now))
        ⊎ ((seen : ℕ) × (j.controller ≡ some seen) × (seen + 90 ≤ now)))

-- A clock that does not go back from one event to the next.
abbrev pub IsSteady : Host → Type 0
IsSteady host = (event : Event) (l : List Event) → host.clock l ≤ host.clock (event ∷ l)

-- The journal is this one, no effect was added to a history, and no time is lost.
abbrev IsIdle : Host → Journal → List Event → Transaction → Type 0
IsIdle host j l s =
    (s.journal ≡ some j) × (effects_of s.log ≡ effects_of l) × (host.clock l ≤ host.clock s.log)

-- The exceptions of an expired update.
abbrev pub IsExpiry : Exn → Type 0
IsExpiry e = (e ≡ Exn.over_budget) ⊎ (e ≡ Exn.controller_gone)
