-- ===== src/VmUpdate/Safety.antt =====
-- The order that every run of the engine's commands keeps, whatever the host answers and
-- whichever effects fail.
use klokast_box.Prelude.{◌≡◌, refl, sym, ◌∙◌, Bool, Option, none, some, List, [], ◌∷◌}
use klokast_box.Effects.{Outcome, ok, raised, raise, ◌>>=◌}
use klokast_box.Effects.Triple.{Holds}
use klokast_box.VmUpdate.Request.{Request}
use klokast_box.VmUpdate.Inspection.{Exn, Domain}
use klokast_box.VmUpdate.Journal.{Stage, Journal, Host, Transaction, get_journal}
use klokast_box.VmUpdate.Steps.{Command, Report}
use klokast_box.VmUpdate.Recovery.{step, step_from}
use klokast_box.VmUpdate.History.{journal_of, last_seen, StageIs, reached, Lawful}
use klokast_box.VmUpdate.Order.{Fault}
use klokast_box.VmUpdate.Order.Forward.{any_stage}
use klokast_box.VmUpdate.Order.Backward.{step_from-lawful}

-- An invocation that found this journal.
abbrev pub loaded : Option Journal → Transaction
loaded start = record { journal = start; log = [] }

-- Successive invocations, each from the journal that the one before left, also where it raised.
unfoldable pub run : Host → Request → List Command → Transaction → Transaction
run host r [] s = s
run host r (c ∷ cs) s = run host r cs (step host r c s).1

-- The effects so far were permitted, and the journal is the last one written.
pub record Sound (r : Request) (start : Option Journal) (s : Transaction) : Type 0 where
  pub lawful : Lawful r start s.log
  pub agrees : s.journal ≡ journal_of start s.log

module _ (r : Request) (start : Option Journal) where
  Fault-Sound :
      {allowed : Stage → Bool} (s : Transaction) → Fault r start allowed s → Sound r start s
  Fault-Sound s h = record { lawful = h.lawful; agrees = h.agrees }

  module _ (host : Host) where
    -- What an invocation that finds a journal leaves.
    step_from-Holds :
        (command : Command) (s : Transaction) (j : Journal)
        → s.journal ≡ some j
        → Sound r start s
        → Holds
            (λ report. Fault r start (reached r.kind command j.stage report))
            (λ _. Fault r start any_stage)
            (step_from host r command (some j) s)
    step_from-Holds command s j e h = (step_from-lawful r start host command j).at s (record {
      lawful = h.lawful;
      journal = j;
      current = e;
      written = sym h.agrees ∙ e;
      at_stage = refl;
      inside = refl;
      last = known;
    })
      where
        known : (found : Option Domain) → none ≡ some found → last_seen s.log ≡ some found
        known found absurd = cc

    step_from-Sound :
        (command : Command) (s : Transaction) (q : Option Journal)
        → s.journal ≡ q
        → Sound r start s
        → Sound r start (step_from host r command q s).1
    unfolding step_from raise
    step_from-Sound command s none e h = h
    step_from-Sound command s (some j) e h = outcome _ (step_from-Holds command s j e h)
      where
        outcome :
            (o : Outcome Exn Report × Transaction)
            → Holds
                (λ report. Fault r start (reached r.kind command j.stage report))
                (λ _. Fault r start any_stage)
                o
            → Sound r start o.1
        outcome (ok report, s') h' = Fault-Sound s' h'
        outcome (raised x, s') h' = Fault-Sound s' h'

    step-Sound :
        (command : Command) (s : Transaction)
        → Sound r start s
        → Sound r start (step host r command s).1
    unfolding step get_journal ◌>>=◌
    step-Sound command s h = step_from-Sound command s s.journal refl h

    pub run-Sound :
        (commands : List Command) (s : Transaction)
        → Sound r start s
        → Sound r start (run host r commands s)
    unfolding run
    run-Sound [] s h = h
    run-Sound (c ∷ cs) s h = run-Sound cs _ (step-Sound c s h)

-- Whatever the host answers and whichever effects fail, every invocation in a sequence of commands
-- makes only effects that the history before permits: a generation is started only right after an
-- inspection that found no guest on the disks, the new one only while the journal records its
-- start and the old one only while the new one is not committed; the assignment selects the new
-- generation only once it is committed and the old one only before; the only guest asked to shut
-- down is the old one, and the only guest destroyed is the new one, before it is committed; and
-- the journal's stage moves only along the stages' order, into a recovery or out of it.
pub run-Lawful :
    (host : Host) (r : Request) (start : Option Journal) (commands : List Command)
    → Lawful r start (run host r commands (loaded start)).log
run-Lawful host r start commands =
    (run-Sound r start host commands (loaded start) (record { lawful = tt; agrees = refl })).lawful

-- An invocation that returns has left the journal at the stage that its command leads to from the
-- stage that it found, and only where the command is due at that stage; and a recovery's report
-- names the stage that it left: `recovered` only with the journal at `recovered`, production kept
-- only where the new generation is committed.
pub step-reached :
    (host : Host) (r : Request) (j : Journal) (command : Command)
    → Holds
        (λ report s. StageIs (reached r.kind command j.stage report) s.journal)
        (λ _ _. Unit)
        (step host r command (loaded (some j)))
unfolding step get_journal ◌>>=◌
step-reached host r j command = outcome _ (
    step_from-Holds r (some j) host command (loaded (some j)) j refl
      (record { lawful = tt; agrees = refl }))
  where
    outcome :
        (o : Outcome Exn Report × Transaction)
        → Holds
            (λ report. Fault r (some j) (reached r.kind command j.stage report))
            (λ _. Fault r (some j) any_stage)
            o
        → Holds
            (λ report s. StageIs (reached r.kind command j.stage report) s.journal)
            (λ _ _. Unit)
            o
    outcome (ok report, s) h = (h.within.0, h.agrees ∙ h.within.1, h.within.2)
    outcome (raised x, s) h = tt
