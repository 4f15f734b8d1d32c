-- ===== src/VmUpdate/Guest.antt =====
-- vm_update_engine.py `Transaction.guest`: the running guest of the role, and who holds its disks.
pub mod Exclusive
use klokast_box.Prelude.{
  ℕ, String, Bool, true, false, not, ◌&&◌, Option, none, some, List, [], ◌∷◌, ◌==◌, ◌=ₛ◌,
  if◌then◌else◌, length, elem, same_set, dedup,
}
use klokast_box.Checks.{Outcome, ok, ◌>>=◌, check, or_raise}
use klokast_box.VmUpdate.Request.{
  role_name, LvIdentity, DiskEntry, Side, old, new, Generation, Request, generation,
}
use klokast_box.VmUpdate.Inspection.{
  Lv, Attachment, Domain, Snapshot, Exn, meets, find, devices_of, disks,
}

module _ (now : Snapshot) where
  -- The devices behind a domain's attachments.
  unfoldable pub attached : List Attachment → Outcome Exn (List ℕ)
  attached [] = ok []
  attached (a ∷ rest) =
      let others = attached rest in
      or_raise a.pdev_path Exn.unsupported_attachment >>= λ path.
      or_raise (now.device path) Exn.unsupported_attachment >>= λ n. others >>= λ ns. ok (n ∷ ns)

-- A device with its name in the guest and its write mode.
pub record Mapping : Type 0 where
  pub device : ℕ
  pub vdev : Option String
  pub readwrite : Option ℕ

same_vdev : Option String → Option String → Bool
same_vdev (some v) (some w) = v =ₛ w
same_vdev none none = true
same_vdev _ _ = false

same_mode : Option ℕ → Option ℕ → Bool
same_mode (some v) (some w) = v == w
same_mode none none = true
same_mode _ _ = false

unfoldable pub same_mapping : Mapping → Mapping → Bool
unfolding same_vdev same_mode
same_mapping m n =
    m.device == n.device && same_vdev m.vdev n.vdev && same_mode m.readwrite n.readwrite

-- The devices in `attached` order, with the attachments that they belong to.
unfoldable pub mappings : List ℕ → List Attachment → List Mapping
mappings (n ∷ ns) (a ∷ rest) =
    record { device = n; vdev = a.vdev; readwrite = a.readwrite } ∷ mappings ns rest
mappings _ _ = []

-- `actual[path]['device']` for the recorded disks of a generation.
unfoldable pub recorded_devices :
    List (String × Lv) → List (String × LvIdentity) → Outcome Exn (List ℕ)
recorded_devices actual [] = ok []
recorded_devices actual ((path, _) ∷ rest) =
    let others = recorded_devices actual rest in
    or_raise (find path actual) Exn.missing_field >>= λ v. others >>= λ ns. ok (v.device ∷ ns)

unfoldable pub expected_mappings : List (String × Lv) → List DiskEntry → Outcome Exn (List Mapping)
expected_mappings actual [] = ok []
expected_mappings actual (entry ∷ rest) =
    let others = expected_mappings actual rest in
    or_raise (find entry.path actual) Exn.missing_field >>= λ v. others >>= λ ms.
    ok (record { device = v.device; vdev = some entry.vdev; readwrite = some 1 } ∷ ms)

new_side : String → Option Generation → Option Side
new_side uuid none = none
new_side uuid (some g) = if uuid =ₛ g.uuid then some new else none

-- The generation that a domain's UUID names; none for any other UUID.
unfoldable pub side_of : Request → String → Option Side
unfolding new_side
side_of r uuid = if uuid =ₛ r.before.uuid then some old else new_side uuid r.after

abbrev pub is_side : Side → Side → Bool
is_side old old = true
is_side new new = true
is_side _ _ = false

abbrev pub is_none : {A : Type 0} → Option A → Bool
is_none none = true
is_none (some a) = false

module _ (r : Request) (sides : List Side) (actual : List (String × Lv)) where
  -- The tests of the domain that has the role's name.
  unfoldable pub check_target :
      Domain → List Attachment → List ℕ → Option Domain → Outcome Exn (Unit {0})
  check_target d attachments devices found = check (is_none found) Exn.identity_changed >>= λ _.
      or_raise (side_of r d.uuid) Exn.identity_changed >>= λ side.
      check (elem is_side side sides) Exn.wrong_generation >>= λ _.
      or_raise (generation r side) Exn.missing_field >>= λ g.
      recorded_devices actual g.disks >>= λ expected.
      check (same_set ◌==◌ devices expected) Exn.disks_differ >>= λ _.
      expected_mappings actual g.config_disks >>= λ wanted.
      check
        (length attachments == length (dedup same_mapping wanted)
          && same_set same_mapping (mappings devices attachments) wanted)
        Exn.mappings_differ

  module _ (now : Snapshot) where
    -- A domain that has the role's name, or another.
    unfoldable pub place :
        Bool → Domain → List Attachment → List ℕ → Option Domain → Outcome Exn (Option Domain)
    unfolding check_target
    place true d attachments devices found =
        check_target d attachments devices found >>= λ _. ok (some d)
    place false d attachments devices found =
        check (not (meets devices (devices_of actual))) Exn.foreign_holder >>= λ _. ok found

    unfoldable pub examine_guest : Domain → Option Domain → Outcome Exn (Option Domain)
    unfolding place
    examine_guest d found = or_raise d.disks Exn.no_attachments >>= λ attachments.
        attached now attachments >>= λ devices.
        place (d.name =ₛ role_name r.role) d attachments devices found

    -- One round of the loop over the inventory: `found` after the domain.
    unfoldable pub examine : Domain → Option Domain → Outcome Exn (Option Domain)
    unfolding examine_guest
    examine d found = if d.domid == 0 then ok found else examine_guest d found

    unfoldable pub examine_all : List Domain → Option Domain → Outcome Exn (Option Domain)
    unfolding examine
    examine_all [] found = ok found
    examine_all (d ∷ ds) found = examine d found >>= examine_all ds

-- `guest(sides)`: the running guest of the role, if there is one.
unfoldable pub guest : Snapshot → Request → List Side → Outcome Exn (Option Domain)
unfolding disks examine_all
guest now r sides = disks now r sides >>= λ actual.
    or_raise now.inventory Exn.native_error >>= λ domains.
    examine_all r sides actual now domains none
