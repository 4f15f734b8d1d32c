-- ===== src/VmUpdate/Order.antt =====
-- The rules of the engine's actions: each makes only permitted effects.
pub mod Forward
pub mod Rollback
pub mod Backward
use klokast_box.Prelude.{
  ℕ, String, ◌≡◌, refl, sym, ap, ◌∙◌, Bool, true, false, not, Option, none, some, List, [], ◌∷◌,
  arith,
}
use klokast_box.Effects.{Outcome, ok, raised, ◌>>=◌}
use klokast_box.Effects.Triple.{
  Triple, Holds, Triple-bind, Triple-pure, Triple-raise, Triple-if, Triple-require, Triple-weaken,
  Triple-post,
}
use klokast_box.VmUpdate.Request.{Request, Side, old, new}
use klokast_box.VmUpdate.Inspection.{Domain, Exn}
use klokast_box.VmUpdate.Journal.{
  Stage, Journal, Source, Effect, Event, looked, observed, done, Link, Host, Transaction, Tx,
  get_journal, look, effect, clock, record_stage, observe, artifacts, runtime_intent, clear_link,
  assignment, journal_after, after_effect, or_blank, seen_event,
}
use klokast_box.VmUpdate.Guest.{guest}
use klokast_box.VmUpdate.History.{
  journal_of, seen_after, last_seen, is_committed, edge, StageIs, Permitted, Lawful,
}

-- What is known between two actions: the journal's stage, and what the last inspection found.
pub record At (r : Request) (start : Option Journal) (allowed : Stage → Bool) (stage : Stage)
    (seen : Option (Option Domain)) (s : Transaction) : Type 0 where
  pub lawful : Lawful r start s.log
  pub journal : Journal
  pub current : s.journal ≡ some journal
  pub written : journal_of start s.log ≡ some journal
  pub at_stage : journal.stage ≡ stage
  pub inside : allowed stage ≡ true
  pub last : (found : Option Domain) → seen ≡ some found → last_seen s.log ≡ some found

-- What is known after a raise.
pub record Fault (r : Request) (start : Option Journal) (allowed : Stage → Bool) (s : Transaction)
    : Type 0 where
  pub lawful : Lawful r start s.log
  pub within : StageIs allowed (journal_of start s.log)
  pub agrees : s.journal ≡ journal_of start s.log

abbrev pub is_store : Effect → Bool
is_store (Effect.store j) = true
is_store _ = false

-- What is still known of the last inspection after an effect.
abbrev pub seen_after_known : Effect → Option (Option Domain) → Option (Option Domain)
seen_after_known (Effect.stop u g) seen = none
seen_after_known (Effect.start s) seen = none
seen_after_known _ seen = seen

journal_after-plain :
    (e : Effect) (b : Bool) (q : Option Journal) → is_store e ≡ false → journal_after e b q ≡ q
journal_after-plain e b q plain = ground arith

last_after :
    (e : Effect) (seen last : Option (Option Domain))
    → ((found : Option Domain) → seen ≡ some found → last ≡ some found)
    → (found : Option Domain) → seen_after_known e seen ≡ some found
    → seen_after e last ≡ some found
last_after (Effect.store j) seen last h found e = h found e
last_after (Effect.configure side) seen last h found e = h found e
last_after Effect.unlink seen last h found e = h found e
last_after Effect.link seen last h found e = h found e
last_after Effect.persist seen last h found e = h found e
last_after (Effect.stop u g) seen last h found e = cc
last_after (Effect.start s) seen last h found e = cc

module _ (r : Request) (start : Option Journal) (allowed : Stage → Bool) where
  abbrev pub Rule : {A : Type 0} → (Transaction → Type 0) → Tx A → (Transaction → Type 0) → Type 0
  Rule P m Q = Triple P m (λ _. Q) (λ _. Fault r start allowed)

  pub At-Fault :
      {stage : Stage} {seen : Option (Option Domain)} (s : Transaction)
      → At r start allowed stage seen s
      → Fault r start allowed s
  At-Fault s h = record {
    lawful = h.lawful;
    within = (h.journal, h.written, ap allowed h.at_stage ∙ h.inside);
    agrees = h.current ∙ sym h.written;
  }

  -- Between two actions, as a state that satisfies another test of the stage.
  pub At-Fault_as :
      {stage : Stage} {seen : Option (Option Domain)} (p : Stage → Bool)
      → p stage ≡ true
      → (s : Transaction) → At r start allowed stage seen s
      → Fault r start p s
  At-Fault_as p e s h = record {
    lawful = h.lawful;
    within = (h.journal, h.written, ap p h.at_stage ∙ e);
    agrees = h.current ∙ sym h.written;
  }

  pub look-At :
      {A : Type 0} {stage : Stage} {seen : Option (Option Domain)}
      (read : List Event → Outcome Exn A)
      → Rule (At r start allowed stage seen) (look read) (At r start allowed stage seen)
  unfolding look
  look-At {A} {stage} {seen} read = record { at = λ s h. go s h (read s.log) }
    where
      go :
          (s : Transaction)
          → At r start allowed stage seen s
          → (o : Outcome Exn A)
          → Holds
              (λ _. At r start allowed stage seen)
              (λ _. Fault r start allowed)
              (o, record s { log = looked ∷ s.log })
      go s h (ok a) = record {
        lawful = h.lawful;
        journal = h.journal;
        current = h.current;
        written = h.written;
        at_stage = h.at_stage;
        inside = h.inside;
        last = h.last;
      }
      go s h (raised e) = record {
        lawful = h.lawful;
        within = (h.journal, h.written, ap allowed h.at_stage ∙ h.inside);
        agrees = h.current ∙ sym h.written;
      }

  -- A read of the host tells its stage.
  pub At-StageIs :
      {stage : Stage} {seen : Option (Option Domain)} (p : Stage → Bool) (s : Transaction)
      → p stage ≡ true
      → At r start allowed stage seen s
      → StageIs p (journal_of start s.log)
  At-StageIs p s e h = (h.journal, h.written, ap p h.at_stage ∙ e)

  module _ (host : Host) where
    pub clock-At :
        {stage : Stage} {seen : Option (Option Domain)}
        → Rule (At r start allowed stage seen) (clock host) (At r start allowed stage seen)
    unfolding clock
    clock-At = look-At _

    pub artifacts-At :
        {stage : Stage} {seen : Option (Option Domain)} (side : Side)
        → Rule
            (At r start allowed stage seen)
            (artifacts host r side)
            (At r start allowed stage seen)
    unfolding artifacts
    artifacts-At side = look-At _

    pub observe-At :
        {stage : Stage} {seen : Option (Option Domain)} (sides : List Side)
        → Triple
            (At r start allowed stage seen)
            (observe host r sides)
            (λ found. At r start allowed stage (some found))
            (λ _. Fault r start allowed)
    unfolding observe
    observe-At {stage} {seen} sides = record {
      at = λ s h. go s h (guest (host.snapshot s.log) r sides);
    }
      where
        go :
            (s : Transaction)
            → At r start allowed stage seen s
            → (o : Outcome Exn (Option Domain))
            → Holds
                (λ found. At r start allowed stage (some found))
                (λ _. Fault r start allowed)
                (o, record s { log = seen_event host r o ∷ s.log })
        go s h (ok found) = record {
          lawful = h.lawful;
          journal = h.journal;
          current = h.current;
          written = h.written;
          at_stage = h.at_stage;
          inside = h.inside;
          last = λ d e. e;
        }
        go s h (raised e) = record {
          lawful = h.lawful;
          within = (h.journal, h.written, ap allowed h.at_stage ∙ h.inside);
          agrees = h.current ∙ sym h.written;
        }

    -- An effect is permitted before it is made, and leaves the journal alone.
    pub effect-At :
        {stage : Stage} {seen : Option (Option Domain)} (e : Effect)
        → is_store e ≡ false
        → ((s : Transaction) → At r start allowed stage seen s → Permitted r start e s.log)
        → Rule
            (At r start allowed stage seen)
            (effect host e)
            (At r start allowed stage (seen_after_known e seen))
    unfolding effect
    effect-At {stage} {seen} e plain permitted = record {
      at = λ s h. go s h (host.returns s.log e);
    }
      where
        go :
            (s : Transaction)
            → At r start allowed stage seen s
            → (b : Bool)
            → Holds
                (λ _. At r start allowed stage (seen_after_known e seen))
                (λ _. Fault r start allowed)
                (
                  after_effect b,
                  record s { journal = journal_after e b s.journal; log = done e b ∷ s.log },
                )
        go s h true = record {
          lawful = (permitted s h, h.lawful);
          journal = h.journal;
          current = journal_after-plain e true _ plain ∙ h.current;
          written = journal_after-plain e true _ plain ∙ h.written;
          at_stage = h.at_stage;
          inside = h.inside;
          last = last_after e seen (last_seen s.log) h.last;
        }
        go s h false = record {
          lawful = (permitted s h, h.lawful);
          within = (
            h.journal,
            journal_after-plain e false _ plain ∙ h.written,
            ap allowed h.at_stage ∙ h.inside,
          );
          agrees = ap (journal_after e false) (h.current ∙ sym h.written);
        }

    store-At :
        {stage : Stage} {seen : Option (Option Domain)} (after : Stage → Bool) (j : Journal)
        → after j.stage ≡ true
        → edge r.kind stage j.stage ≡ true
        → Rule
            (At r start allowed stage seen)
            (effect host (Effect.store j))
            (At r start after j.stage seen)
    unfolding effect
    store-At {stage} {seen} after j next_inside enters = record {
      at = λ s h. go s h (host.returns s.log (Effect.store j));
    }
      where
        go :
            (s : Transaction)
            → At r start allowed stage seen s
            → (b : Bool)
            → Holds
                (λ _. At r start after j.stage seen)
                (λ _. Fault r start allowed)
                (
                  after_effect b,
                  record s {
                    journal = journal_after (Effect.store j) b s.journal;
                    log = done (Effect.store j) b ∷ s.log;
                  },
                )
        go s h true = record {
          lawful = (At-StageIs (λ t. edge r.kind t j.stage) s enters h, h.lawful);
          journal = j;
          current = refl;
          written = refl;
          at_stage = refl;
          inside = next_inside;
          last = h.last;
        }
        go s h false = record {
          lawful = (At-StageIs (λ t. edge r.kind t j.stage) s enters h, h.lawful);
          within = (h.journal, h.written, ap allowed h.at_stage ∙ h.inside);
          agrees = h.current ∙ sym h.written;
        }

    pub get_journal-At :
        {P : Transaction → Type 0} {F : Exn → Transaction → Type 0}
        → Triple P get_journal (λ _. P) F
    unfolding get_journal
    get_journal-At = record { at = λ s h. h }

    pub record-At :
        {stage : Stage} {seen : Option (Option Domain)} (after : Stage → Bool) (next : Stage)
        (change : Journal → Journal)
        → after next ≡ true
        → edge r.kind stage next ≡ true
        → Rule
            (At r start allowed stage seen)
            (record_stage host next change)
            (At r start after next seen)
    unfolding record_stage
    record-At after next change next_inside enters =
        Triple-bind get_journal-At
          λ journal. Triple-bind clock-At λ now. store-At after _ next_inside enters

    clear_link-At :
        {stage : Stage} {seen : Option (Option Domain)} (found : Link)
        → Rule
            (At r start allowed stage seen)
            (clear_link host r found)
            (At r start allowed stage seen)
    unfolding clear_link
    clear_link-At Link.nothing = Triple-pure tt (λ s h. h)
    clear_link-At Link.managed = effect-At Effect.unlink refl (λ s h. tt)
    clear_link-At Link.foreign = Triple-raise _ At-Fault
    clear_link-At Link.other_entry = Triple-raise _ At-Fault

    pub assignment-At :
        {stage : Stage} {seen : Option (Option Domain)} (side : Side)
        → ((s : Transaction)
            → At r start allowed stage seen s
            → Permitted r start (Effect.configure side) s.log)
        → Rule
            (At r start allowed stage seen)
            (assignment host r side)
            (At r start allowed stage seen)
    unfolding assignment runtime_intent
    assignment-At side permitted = Triple-bind (artifacts-At side) λ _.
        Triple-bind (effect-At (Effect.configure side) refl permitted) λ _.
          Triple-bind (look-At _) λ found. Triple-bind (clear_link-At found) λ _.
            Triple-bind (Triple-bind get_journal-At λ journal. look-At _) λ running.
              Triple-bind
                (Triple-if running (λ _. effect-At Effect.link refl (λ s h. tt))
                  (λ _. Triple-pure tt (λ s h. h)))
                λ _. effect-At Effect.persist refl (λ s h. tt)
