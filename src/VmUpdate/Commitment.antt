-- ===== src/VmUpdate/Commitment.antt =====
-- A committed generation stays: no later command goes back to the old one.
use klokast_box.Prelude.{
  ◌≡◌, refl, sym, ap, ◌∙◌, Bool, true, false, not, ◌&&◌, Option, none, some, List, [], ◌∷◌, arith,
  all,
}
use klokast_box.VmUpdate.Request.{Request, Kind, old, new}
use klokast_box.VmUpdate.Journal.{
  Stage, Journal, Host, Event, looked, observed, done, Effect, Source, journal_after,
}
use klokast_box.VmUpdate.Steps.{Command}
use klokast_box.VmUpdate.History.{
  journal_of, Lawful, Permitted, StageIs, is_committed, edge, keeps_new,
}
use klokast_box.VmUpdate.Safety.{run, loaded, run-Sound}

-- No transition leaves the committed stages.
edge-is_committed :
    (k : Kind) (stage next : Stage)
    → edge k stage next ≡ true
    → is_committed k stage ≡ true
    → is_committed k next ≡ true
edge-is_committed k Stage.armed next e h = ground arith
edge-is_committed k Stage.stopping next e h = ground arith
edge-is_committed k Stage.stopped next e h = ground arith
edge-is_committed k Stage.starting next e h = ground arith
edge-is_committed k Stage.booted next e h = ground arith
edge-is_committed k Stage.tested next e h = ground arith
edge-is_committed k Stage.recovering next e h = ground arith
edge-is_committed k Stage.adopted next e h = ground arith
edge-is_committed k Stage.accepted next e h = ground arith
edge-is_committed k Stage.complete next e h = ground arith
edge-is_committed k Stage.recovered next e h = ground arith
edge-is_committed k Stage.recovery_failed next e h = ground arith

journal_committed : Kind → Option Journal → Bool
journal_committed k none = false
journal_committed k (some j) = is_committed k j.stage

not_both : (a b : Bool) → a ≡ true → not a ≡ true → b ≡ true
not_both a b h n = ground arith

-- Two tests of one journal agree.
same_journal :
    (k : Kind) {q : Option Journal} (i j : Journal)
    → q ≡ some i
    → q ≡ some j
    → is_committed k i.stage ≡ is_committed k j.stage
unfolding journal_committed
same_journal k {q} i j e f = ap (journal_committed k) (sym e ∙ f)

conflict :
    (k : Kind) {b : Bool} {q : Option Journal}
    → StageIs (is_committed k) q
    → StageIs (λ s. not (is_committed k s)) q
    → b ≡ true
conflict k {b} h p =
    not_both (is_committed k p.0.stage) b (sym (same_journal k h.0 p.0 h.1 p.1) ∙ h.2) p.2

written :
    (k : Kind) (j : Journal) {q : Option Journal}
    → StageIs (is_committed k) q
    → StageIs (λ s. edge k s j.stage) q
    → is_committed k j.stage ≡ true
written k j h p =
    edge-is_committed k p.0.stage j.stage p.2 (sym (same_journal k h.0 p.0 h.1 p.1) ∙ h.2)

both_true : {a b : Bool} → a ≡ true → b ≡ true → (a && b) ≡ true
both_true h k = rw h k

module _ (r : Request) (start : Option Journal)
    (committed : StageIs (is_committed r.kind) start) where
  Permitted-keeps_new :
      (e : Effect) (b : Bool) (l : List Event)
      → StageIs (is_committed r.kind) (journal_of start l)
      → Permitted r start e l
      → keeps_new (done e b) ≡ true
  Permitted-keeps_new (Effect.store j) b l h p = refl
  Permitted-keeps_new (Effect.configure new) b l h p = refl
  Permitted-keeps_new (Effect.configure old) b l h p = conflict r.kind h p
  Permitted-keeps_new Effect.unlink b l h p = refl
  Permitted-keeps_new Effect.link b l h p = refl
  Permitted-keeps_new Effect.persist b l h p = refl
  Permitted-keeps_new (Effect.stop u true) b l h p = refl
  Permitted-keeps_new (Effect.stop u false) b l h p = conflict r.kind h p.1
  Permitted-keeps_new (Effect.start Source.staged_new) b l h p = refl
  Permitted-keeps_new (Effect.start Source.installed) b l h p = conflict r.kind h p.0

  Permitted-is_committed :
      (e : Effect) (b : Bool) (l : List Event)
      → StageIs (is_committed r.kind) (journal_of start l)
      → Permitted r start e l
      → StageIs (is_committed r.kind) (journal_after e b (journal_of start l))
  Permitted-is_committed (Effect.store j) true l h p = (j, refl, written r.kind j h p)
  Permitted-is_committed (Effect.store j) false l h p = h
  Permitted-is_committed (Effect.configure side) b l h p = h
  Permitted-is_committed Effect.unlink b l h p = h
  Permitted-is_committed Effect.link b l h p = h
  Permitted-is_committed Effect.persist b l h p = h
  Permitted-is_committed (Effect.stop u g) b l h p = h
  Permitted-is_committed (Effect.start s) b l h p = h

  Lawful-is_committed :
      (l : List Event) → Lawful r start l → StageIs (is_committed r.kind) (journal_of start l)
  Lawful-is_committed [] h = committed
  Lawful-is_committed (looked ∷ l) h = Lawful-is_committed l h
  Lawful-is_committed (observed d ∷ l) h = Lawful-is_committed l h
  Lawful-is_committed (done e b ∷ l) h =
      Permitted-is_committed e b l (Lawful-is_committed l h.1) h.0

  Lawful-keeps_new : (l : List Event) → Lawful r start l → all keeps_new l ≡ true
  Lawful-keeps_new [] h = refl
  Lawful-keeps_new (looked ∷ l) h = Lawful-keeps_new l h
  Lawful-keeps_new (observed d ∷ l) h = Lawful-keeps_new l h
  Lawful-keeps_new (done e b ∷ l) h =
      both_true (Permitted-keeps_new e b l (Lawful-is_committed l h.1) h.0) (Lawful-keeps_new l h.1)

-- From a committed journal, whatever the host answers and whichever commands follow, recoveries
-- and boot recoveries included, nothing selects the old assignment, starts the installed old
-- guest or destroys the new one, and the journal that is left is still committed.
pub run-keeps_new :
    (host : Host) (r : Request) (j : Journal) (commands : List Command)
    → is_committed r.kind j.stage ≡ true
    → (all keeps_new (run host r commands (loaded (some j))).log ≡ true)
      × StageIs (is_committed r.kind) (run host r commands (loaded (some j))).journal
run-keeps_new host r j commands e =
    let s = run host r commands (loaded (some j)) in
    let h =
      run-Sound r (some j) host commands (loaded (some j))
        (record { lawful = tt; agrees = refl }) in
    let c = Lawful-is_committed r (some j) (j, refl, e) s.log h.lawful in
    (Lawful-keeps_new r (some j) (j, refl, e) s.log h.lawful, (c.0, h.agrees ∙ c.1, c.2))
