-- ===== src/VmUpdate/Inspection.antt =====
-- vm_update_engine.py `Transaction.disks`, `Transaction.artifacts`: what is
-- read of the host before a stage is passed. One call reads one snapshot of the host.
pub mod Recorded
use klokast_box.Prelude.{
  ℕ, String, Bool, not, ◌&&◌, Option, none, some, List, [], ◌∷◌, ◌==◌, ◌=ₛ◌, if◌then◌else◌, length,
  all, elem, dedup,
}
use klokast_box.Checks.{Outcome, ok, ◌>>=◌, check, or_raise}
use klokast_box.VmUpdate.Request.{LvIdentity, ArtifactIdentity, Side, Request, generation}

-- What `native.lv` reports of a logical volume.
pub record Lv : Type 0 where
  pub uuid : String
  pub bytes : ℕ
  pub device : ℕ

-- An entry of a domain's `disks`; none where the field is missing or of another type.
pub record Attachment : Type 0 where
  pub pdev_path : Option String
  pub vdev : Option String
  pub readwrite : Option ℕ

-- A record of `xl list`; `disks` is none where Xen reported no list.
pub record Domain : Type 0 where
  pub domid : ℕ
  pub name : String
  pub uuid : String
  pub disks : Option (List Attachment)

-- The host at one moment; none where the native call raises. `device` raises too for a path that
-- is not under /dev/.
pub record Snapshot : Type 0 where
  pub lv : String → Option Lv
  pub device : String → Option ℕ
  pub is_unmounted : List (String × Lv) → Bool
  pub inventory : Option (List Domain)

pub data Exn : Type 0 where
  native_error missing_field artifact_changed volume_changed devices_overlap still_mounted : Exn
  no_attachments unsupported_attachment identity_changed wrong_generation : Exn
  disks_differ mappings_differ foreign_holder : Exn
  autostart_destination autostart_unmanaged intent_differs : Exn
  not_armed over_budget controller_gone not_live watcher_missing candidate_early : Exn
  old_still_held guest_appeared not_finalized not_started service_not_started : Exn
  checks_incomplete checks_changed candidate_absent accepted_absent out_of_order : Exn
  unarmed_recovery recovery_failed_before recovery_over_budget candidate_holds : Exn
  shutdown_pending old_not_restarted : Exn

abbrev pub has : ℕ → List ℕ → Bool
has = elem ◌==◌

-- `a & b`, as a test.
abbrev pub meets : List ℕ → List ℕ → Bool
meets a b = not (all (λ n. not (has n b)) a)

abbrev pub find : String → List (String × Lv) → Option Lv
find p [] = none
find p ((q, v) ∷ l) = if q =ₛ p then some v else find p l

-- `actual[path] = item`
abbrev pub put : String → Lv → List (String × Lv) → List (String × Lv)
put p v [] = (p, v) ∷ []
put p v ((q, w) ∷ l) = if q =ₛ p then (p, v) ∷ l else (q, w) ∷ put p v l

abbrev pub devices_of : List (String × Lv) → List ℕ
devices_of [] = []
devices_of ((p, v) ∷ l) = v.device ∷ devices_of l

module _ (now : Snapshot) where
  -- The recorded volumes of one generation, added to those read before.
  unfoldable pub read_volumes :
      List (String × LvIdentity) → List (String × Lv) → Outcome Exn (List (String × Lv))
  read_volumes [] actual = ok actual
  read_volumes ((path, expected) ∷ rest) actual =
      or_raise (now.lv path) Exn.native_error >>= λ item.
      check (item.uuid =ₛ expected.uuid && item.bytes == expected.bytes) Exn.volume_changed >>= λ _.
      read_volumes rest (put path item actual)

  -- `disks(sides)`, for the generations of the sides.
  unfoldable pub read_sides :
      Request → List Side → List (String × Lv) → Outcome Exn (List (String × Lv))
  read_sides r [] actual = ok actual
  read_sides r (side ∷ sides) actual = or_raise (generation r side) Exn.missing_field >>= λ g.
      read_volumes g.disks actual >>= λ more. read_sides r sides more

  unfoldable pub disks : Request → List Side → Outcome Exn (List (String × Lv))
  disks r sides = read_sides r sides [] >>= λ actual.
      check (length (dedup ◌==◌ (devices_of actual)) == length actual) Exn.devices_overlap >>= λ _.
      check (now.is_unmounted actual) Exn.still_mounted >>= λ _. ok actual

-- `artifacts(side)`: every recorded boot artifact still has its recorded identity.
unfoldable pub check_artifacts :
    (String → Option ArtifactIdentity) → List (String × ArtifactIdentity) → Outcome Exn (Unit {0})
check_artifacts read [] = ok tt
check_artifacts read ((path, expected) ∷ rest) =
    let others = check_artifacts read rest in
    or_raise (read path) Exn.native_error >>= λ item.
    check (item.sha256 =ₛ expected.sha256 && item.bytes == expected.bytes) Exn.artifact_changed
    >>= λ _. others
