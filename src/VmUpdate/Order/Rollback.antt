-- ===== src/VmUpdate/Order/Rollback.antt =====
-- The restoration of the old guest, and the record of its failure, make only permitted effects.
use klokast_box.Prelude.{
  ℕ, ◌≡◌, refl, ◌∙◌, Bool, true, false, not, ◌||◌, ◌=ₛ◌, eq_iff, if◌then◌else◌, Option, none, some,
  arith,
}
use klokast_box.Effects.{pure}
use klokast_box.Effects.Triple.{
  Triple, Triple-bind, Triple-pure, Triple-raise, Triple-if, Triple-require, Triple-weaken,
  Triple-post, Triple-exists, Triple-fault, Triple-assume,
}
use klokast_box.VmUpdate.Request.{Request, Kind, old}
use klokast_box.VmUpdate.Inspection.{Domain, Exn}
use klokast_box.VmUpdate.Journal.{Stage, Journal, Source, Effect, Host, Transaction, effect}
use klokast_box.VmUpdate.Steps.{is_recovering, Report, is_guest, is_absent, uuid_of, both}
use klokast_box.VmUpdate.Recovery.{
  stop_if_new, stop_if_any, finish_shutdown, in_budget, restore_old, record_failure,
}
use klokast_box.VmUpdate.History.{journal_of, last_seen, is_committed, edge, StageIs, reported}
use klokast_box.VmUpdate.Order.{
  At, Fault, Rule, At-Fault, At-Fault_as, At-StageIs, clock-At, observe-At, effect-At, record-At,
  assignment-At,
}
use klokast_box.VmUpdate.Order.Forward.{any_stage}

recovering-is_committed : (k : Kind) → not (is_committed k Stage.recovering) ≡ true
recovering-is_committed k = ground arith

recovering-edge : (k : Kind) → edge k Stage.recovering Stage.recovering ≡ true
recovering-edge k = ground arith

is_recovering-eq-true : (stage : Stage) → is_recovering stage ≡ true → stage ≡ Stage.recovering
is_recovering-eq-true stage e = ground arith

module _ (r : Request) (start : Option Journal) (host : Host) where
  -- Within a recovery, and what a raise there leaves.
  abbrev In : Option (Option Domain) → Transaction → Type 0
  In seen = At r start is_recovering Stage.recovering seen

  -- A report, and the stage that it stands for.
  abbrev Reported : Report → Transaction → Type 0
  Reported report = Fault r start (reported r.kind report)

  F : {seen : Option (Option Domain)} (s : Transaction) → In seen s → Fault r start is_recovering s
  F = At-Fault r start is_recovering

  not_committed :
      {seen : Option (Option Domain)} (s : Transaction)
      → In seen s
      → StageIs (λ t. not (is_committed r.kind t)) (journal_of start s.log)
  not_committed s h =
      At-StageIs r start is_recovering (λ t. not (is_committed r.kind t)) s
        (recovering-is_committed r.kind) h

  stop_if_new-lawful :
      {seen : Option (Option Domain)} (found : Option Domain)
      → Rule r start is_recovering
          (In seen)
          (stop_if_new host r found)
          (λ s. (w : Option (Option Domain)) × In w s)
  unfolding stop_if_new
  stop_if_new-lawful none = Triple-pure tt (λ s h. (_, h))
  stop_if_new-lawful (some d) =
      Triple-if (d.uuid =ₛ uuid_of r.after)
        (λ e.
          Triple-post (λ a s h. (_, h))
            (effect-At r start is_recovering host (Effect.stop d.uuid false) refl
              (λ s h. ((eq_iff _ _).0 e, not_committed s h))))
        (λ _. Triple-pure tt (λ s h. (_, h)))

  stop_if_any-lawful :
      {seen : Option (Option Domain)} (found : Option Domain)
      → (is_absent found || is_guest found r.before.uuid) ≡ true
      → Rule r start is_recovering
          (In seen)
          (stop_if_any host r found)
          (λ s. (w : Option (Option Domain)) × In w s)
  unfolding stop_if_any
  stop_if_any-lawful none e = Triple-pure tt (λ s h. (_, h))
  stop_if_any-lawful (some d) e =
      Triple-post (λ a s h. (_, h))
        (effect-At r start is_recovering host (Effect.stop d.uuid true) refl
          (λ s h. (eq_iff _ _).0 e))

  finish_shutdown-lawful :
      (pending : Bool) (found : Option Domain)
      → (is_absent found || is_guest found r.before.uuid) ≡ true
      → Triple
          (In (some found))
          (finish_shutdown host r pending found)
          (λ left. In (some left))
          (λ _. Fault r start is_recovering)
  unfolding finish_shutdown
  finish_shutdown-lawful false found e = Triple-pure found (λ s h. h)
  finish_shutdown-lawful true found e = Triple-bind (stop_if_any-lawful found e) λ _.
      Triple-exists λ w. Triple-bind (observe-At r start is_recovering host both) λ again.
        Triple-bind (Triple-require _ _ F) λ _. Triple-assume λ _.
          Triple-bind
            (record-At r start is_recovering host {stage = Stage.recovering} is_recovering
              Stage.recovering _ refl (recovering-edge r.kind))
            λ _. Triple-pure again (λ s h. h)

  in_budget-lawful :
      {seen : Option (Option Domain)} (started : ℕ)
      → Rule r start is_recovering (In seen) (in_budget host r started) (In seen)
  unfolding in_budget
  in_budget-lawful started =
      Triple-bind (clock-At r start is_recovering host)
        λ now. Triple-post (λ a s h. h.0) (Triple-require _ _ F)

  start_installed-lawful :
      (left : Option Domain)
      → Rule r start is_recovering
          (In (some left))
          (if is_absent left then effect host (Effect.start Source.installed) else pure tt)
          (λ s. (w : Option (Option Domain)) × In w s)
  start_installed-lawful none =
      Triple-post (λ a s h. (_, h))
        (effect-At r start is_recovering host (Effect.start Source.installed) refl
          (λ s h. (not_committed s h, h.last none refl)))
  start_installed-lawful (some d) = Triple-pure tt (λ s h. (_, h))

  pub restore_old-lawful :
      (started : ℕ) (pending : Bool) {seen : Option (Option Domain)}
      → Triple
          (In seen)
          (restore_old host r started pending)
          Reported
          (λ _. Fault r start is_recovering)
  unfolding restore_old
  restore_old-lawful started pending = Triple-bind (in_budget-lawful started) λ _.
      Triple-bind (observe-At r start is_recovering host both) λ found.
        Triple-bind (stop_if_new-lawful found) λ _. Triple-exists λ w.
          Triple-bind (observe-At r start is_recovering host both) λ again.
            Triple-bind (Triple-require _ _ F) λ _. Triple-assume λ e.
              Triple-bind (finish_shutdown-lawful pending again e) λ left.
                Triple-bind
                  (assignment-At r start is_recovering host old (λ s h. not_committed s h))
                  λ _. Triple-bind (start_installed-lawful left) λ _. Triple-exists λ w'.
                    Triple-bind (observe-At r start is_recovering host both) λ restarted.
                      Triple-bind (Triple-require _ _ F) λ _. Triple-assume λ _.
                        Triple-bind (in_budget-lawful started) λ _.
                          Triple-bind
                            (record-At r start is_recovering host {stage = Stage.recovering}
                              any_stage Stage.recovered _ refl refl)
                            λ _. Triple-pure Report.recovered (
                              At-Fault_as r start any_stage (reported r.kind Report.recovered) refl)

  -- A raise within a recovery leaves the journal at the recovery's stage.
  Fault-In : (s : Transaction) → Fault r start is_recovering s → In none s
  Fault-In s h = record {
    lawful = h.lawful;
    journal = h.within.0;
    current = h.agrees ∙ h.within.1;
    written = h.within.1;
    at_stage = is_recovering-eq-true _ h.within.2;
    inside = refl;
    last = λ found e. absurd-none found e;
  }
    where
      absurd-none : (found : Option Domain) → none ≡ some found → last_seen s.log ≡ some found
      absurd-none found e = cc

  pub record_failure-lawful :
      (e : Exn)
      → Triple
          (Fault r start is_recovering)
          (record_failure host r e)
          Reported
          (λ _. Fault r start any_stage)
  unfolding record_failure
  record_failure-lawful e =
      Triple-bind
        (Triple-weaken Fault-In (
          Triple-fault (λ _. widen)
            (record-At r start is_recovering host {stage = Stage.recovering} any_stage
              Stage.recovery_failed _ refl refl)))
        λ _. Triple-raise e (At-Fault r start any_stage)
    where
      widen : (s : Transaction) → Fault r start is_recovering s → Fault r start any_stage s
      widen s h = record {
        lawful = h.lawful;
        within = (h.within.0, h.within.1, refl);
        agrees = h.agrees;
      }
