-- ===== src/VmUpdate/Order/Backward.antt =====
-- A recovery and a whole command make only permitted effects.
use klokast_box.Prelude.{
  ◌≡◌, refl, sym, ap, ◌∙◌, Bool, true, false, not, ◌&&◌, Option, none, some, [], ◌∷◌, arith,
}
use klokast_box.Effects.Triple.{
  Triple, Triple-bind, Triple-pure, Triple-raise, Triple-if, Triple-require, Triple-post,
  Triple-handle, Triple-assume,
}
use klokast_box.VmUpdate.Request.{Request, Kind, old, new, is_service}
use klokast_box.VmUpdate.Inspection.{Domain}
use klokast_box.VmUpdate.Journal.{Stage, Journal, Host, Transaction, Tx, pre_accept, post_boot}
use klokast_box.VmUpdate.Steps.{Command, is_recovery, is_recovering, Report}
use klokast_box.VmUpdate.Recovery.{
  roll_back, keep_new, keep_old, recover_from, recover, overdue, step_checked, step_from,
}
use klokast_box.VmUpdate.History.{is_committed, edge, reached_by, reported, reached}
use klokast_box.VmUpdate.Order.{
  At, Fault, Rule, At-Fault, At-Fault_as, At-StageIs, clock-At, observe-At, record-At,
  assignment-At,
}
use klokast_box.VmUpdate.Order.Rollback.{restore_old-lawful, record_failure-lawful}
use klokast_box.VmUpdate.Order.Forward.{any_stage, advance-lawful}

module _ (r : Request) (start : Option Journal) (host : Host) where
  -- From the journal's stage, whatever was seen before.
  abbrev Recovers : Stage → Tx Report → Type 0
  Recovers stage m =
      Triple (At r start any_stage stage none) m (λ report. Fault r start (reported r.kind report))
        (λ _. Fault r start any_stage)

  roll_back-lawful :
      {stage : Stage} (j : Journal)
      → edge r.kind stage Stage.recovering ≡ true
      → Recovers stage (roll_back host r j)
  unfolding roll_back
  roll_back-lawful {stage} j enters = Triple-bind (clock-At r start any_stage host) λ now.
      Triple-bind
        (record-At r start any_stage host {stage = stage} is_recovering Stage.recovering _ refl
          enters)
        λ _.
          Triple-handle (restore_old-lawful r start host _ _) (record_failure-lawful r start host)

  keep_new-lawful :
      {stage : Stage} (report : Report)
      → is_committed r.kind stage ≡ true
      → reported r.kind report stage ≡ true
      → Recovers stage (keep_new host r report)
  unfolding keep_new
  keep_new-lawful report committed says =
      Triple-bind (observe-At r start any_stage host (new ∷ [])) λ _.
        Triple-bind
          (assignment-At r start any_stage host new
            (λ s h. At-StageIs r start any_stage (is_committed r.kind) s committed h))
          λ _. Triple-pure report (At-Fault_as r start any_stage (reported r.kind report) says)

  keep_old-lawful :
      {stage : Stage} (report : Report)
      → not (is_committed r.kind stage) ≡ true
      → reported r.kind report stage ≡ true
      → Recovers stage (keep_old host r report)
  unfolding keep_old
  keep_old-lawful report uncommitted says =
      Triple-bind (observe-At r start any_stage host (old ∷ [])) λ _.
        Triple-bind
          (assignment-At r start any_stage host old (λ s h.
            At-StageIs r start any_stage (λ t. not (is_committed r.kind t)) s uncommitted h))
          λ _. Triple-pure report (At-Fault_as r start any_stage (reported r.kind report) says)

  -- A generation that the service kinds have started is never rolled back.
  recover_from-lawful :
      (stage : Stage) (j : Journal)
      → (is_service r.kind && post_boot stage) ≡ false
      → Recovers stage (recover_from host r stage j)
  unfolding recover_from
  recover_from-lawful Stage.accepted j e = keep_new-lawful _ refl refl
  recover_from-lawful Stage.complete j e = keep_new-lawful _ refl refl
  recover_from-lawful Stage.adopted j e = keep_old-lawful _ (rw e) refl
  recover_from-lawful Stage.recovered j e = keep_old-lawful _ (rw e) refl
  recover_from-lawful Stage.recovery_failed j e = Triple-raise _ (At-Fault r start any_stage)
  recover_from-lawful Stage.armed j e = roll_back-lawful j (rw e)
  recover_from-lawful Stage.stopping j e = roll_back-lawful j (rw e)
  recover_from-lawful Stage.stopped j e = roll_back-lawful j (rw e)
  recover_from-lawful Stage.starting j e = roll_back-lawful j (rw e)
  recover_from-lawful Stage.booted j e = roll_back-lawful j (rw e)
  recover_from-lawful Stage.tested j e = roll_back-lawful j (rw e)
  recover_from-lawful Stage.recovering j e = roll_back-lawful j (rw e)

  service-is_committed :
      (k : Kind) (stage : Stage)
      → (is_service k && post_boot stage) ≡ true
      → is_committed k stage ≡ true
  service-is_committed k stage e = ground arith

  recover-lawful : (j : Journal) → Recovers j.stage (recover host r j)
  unfolding recover
  recover-lawful j =
      Triple-if (is_service r.kind && post_boot j.stage)
        (λ e. keep_new-lawful Report.preserve_service (service-is_committed r.kind j.stage e) e)
        (λ e. recover_from-lawful j.stage j e)

  overdue-lawful :
      {stage : Stage} {seen : Option (Option Domain)} (j : Journal)
      → Rule r start any_stage
          (At r start any_stage stage seen)
          (overdue host r j)
          (At r start any_stage stage seen)
  unfolding overdue
  overdue-lawful j =
      Triple-if (pre_accept j.stage)
        (λ _. Triple-bind (clock-At r start any_stage host) λ now. Triple-pure _ (λ s h. h))
        (λ _. Triple-pure _ (λ s h. h))

  step_checked-lawful :
      (command : Command) (j : Journal)
      → Triple
          (At r start any_stage j.stage none)
          (step_checked host r command j)
          (λ report s.
            (report ≡ Report.nothing) × Fault r start (reached_by r.kind command j.stage) s)
          (λ _. Fault r start any_stage)
  unfolding step_checked
  step_checked-lawful command j = Triple-bind (overdue-lawful j) λ late.
      Triple-bind (Triple-require _ _ (At-Fault r start any_stage)) λ _. Triple-assume λ _.
        Triple-bind (clock-At r start any_stage host) λ now.
          Triple-bind (Triple-require _ _ (At-Fault r start any_stage)) λ _. Triple-assume λ _.
            Triple-bind (advance-lawful r start host command j.stage)
              λ _. Triple-pure Report.nothing (λ s h. (refl, h))

  reached-recovery :
      (command : Command) (stage : Stage) (report : Report)
      → is_recovery command ≡ true
      → reached r.kind command stage report ≡ reported r.kind report
  reached-recovery Command.recover_command stage report e = refl
  reached-recovery Command.boot_recover stage report e = refl
  reached-recovery Command.heartbeat stage report e = cc
  reached-recovery Command.stop stage report e = cc
  reached-recovery Command.start stage report e = cc
  reached-recovery Command.tested stage report e = cc
  reached-recovery Command.accept stage report e = cc
  reached-recovery Command.complete stage report e = cc
  reached-recovery Command.unknown stage report e = cc

  reached-nothing :
      (command : Command) (stage : Stage)
      → is_recovery command ≡ false
      → reached r.kind command stage Report.nothing ≡ reached_by r.kind command stage
  reached-nothing Command.recover_command stage e = cc
  reached-nothing Command.boot_recover stage e = cc
  reached-nothing Command.heartbeat stage e = refl
  reached-nothing Command.stop stage e = refl
  reached-nothing Command.start stage e = refl
  reached-nothing Command.tested stage e = refl
  reached-nothing Command.accept stage e = refl
  reached-nothing Command.complete stage e = refl
  reached-nothing Command.unknown stage e = refl

  Fault-same :
      {p q : Stage → Bool} → p ≡ q → (s : Transaction) → Fault r start p s → Fault r start q s
  Fault-same {p} {q} e s h = record {
    lawful = h.lawful;
    within = (h.within.0, h.within.1, sym (ap (λ f. f h.within.0.stage) e) ∙ h.within.2);
    agrees = h.agrees;
  }

  pub step_from-lawful :
      (command : Command) (j : Journal)
      → Triple
          (At r start any_stage j.stage none)
          (step_from host r command (some j))
          (λ report. Fault r start (reached r.kind command j.stage report))
          (λ _. Fault r start any_stage)
  unfolding step_from
  step_from-lawful command j =
      Triple-if (is_recovery command)
        (λ e.
          Triple-post (λ report s. Fault-same (sym (reached-recovery command j.stage report e)) s)
            (recover-lawful j))
        (λ e.
          Triple-post
            (λ report s h.
              Fault-same
                (sym (reached-nothing command j.stage e)
                  ∙ ap (reached r.kind command j.stage) (sym h.0))
                s h.1)
            (step_checked-lawful command j))
