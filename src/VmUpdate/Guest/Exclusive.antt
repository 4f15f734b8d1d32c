-- ===== src/VmUpdate/Guest/Exclusive.antt =====
-- What `guest` establishes: the guest that it returns runs on exactly its recorded disks, and no
-- other domain holds a disk of the transaction.
use klokast_box.Prelude.{
  ℕ, String, ◌≡◌, ◌≢◌, refl, sym, ◌⊎◌, inl, inr, Bool, true, false, not, Option, none, some, List,
  [], ◌∷◌, ◌==◌, ◌=ₛ◌, if◌then◌else◌, elem, same_set, All, arith, Bool-cases, ==_iff, eq_iff,
  and-eq-true, all,
}
use klokast_box.Checks.{Outcome, ok, check, or_raise, >>=-Returned, check-eq-ok, or_raise-eq-ok}
use klokast_box.VmUpdate.Request.{role_name, Side, Generation, Request, generation}
use klokast_box.VmUpdate.Inspection.{
  Lv, Attachment, Domain, Snapshot, Exn, meets, devices_of, disks,
}
use klokast_box.VmUpdate.Inspection.Recorded.{HasRecordedDisks, disks-HasRecordedDisks}
use klokast_box.VmUpdate.Guest.{
  attached, side_of, recorded_devices, expected_mappings, mappings, same_mapping, Mapping,
  check_target, place, examine_guest, examine, examine_all, guest, is_side, is_none,
}

not-eq-true : (b : Bool) → not b ≡ true → b ≡ false
not-eq-true b h = ground arith

not-eq-false : (b : Bool) → not b ≡ false → b ≡ true
not-eq-false b h = ground arith

all-elem :
    (p : ℕ → Bool) (xs : List ℕ) (n : ℕ) → all p xs ≡ true → elem ◌==◌ n xs ≡ true → p n ≡ true
all-elem p [] n h e = cc
all-elem p (x ∷ xs) n h e = elim (Bool-cases (n == x)) [
  | inl same ↦ rw ((==_iff n x).0 same) (and-eq-true _ _ h).0
  | inr differs ↦ all-elem p xs n (and-eq-true _ _ h).1 (rw differs at e)
]

Bool-ext : (a b : Bool) → (a ≡ true → b ≡ true) → (b ≡ true → a ≡ true) → a ≡ b
Bool-ext true b f g = sym (f refl)
Bool-ext false true f g = g refl
Bool-ext false false f g = refl

meets-eq-false :
    (xs ys : List ℕ)
    → meets xs ys ≡ false
    → (n : ℕ) → elem ◌==◌ n xs ≡ true
    → elem ◌==◌ n ys ≡ false
meets-eq-false xs ys h n e =
    not-eq-true _ (all-elem (λ m. not (elem ◌==◌ m ys)) xs n (not-eq-false _ h) e)

same_set-elem :
    (xs ys : List ℕ) → same_set ◌==◌ xs ys ≡ true → (n : ℕ) → elem ◌==◌ n xs ≡ elem ◌==◌ n ys
same_set-elem xs ys h n =
    let parts = and-eq-true _ _ h in
    Bool-ext (elem ◌==◌ n xs) (elem ◌==◌ n ys) (all-elem (λ m. elem ◌==◌ m ys) xs n parts.0)
      (all-elem (λ m. elem ◌==◌ m xs) ys n parts.1)

is_none-eq-true : {A : Type 0} (o : Option A) → is_none o ≡ true → o ≡ none
is_none-eq-true none h = refl
is_none-eq-true (some a) h = cc

some-ne-none : {A : Type 0} {a : A} → some a ≢ none
some-ne-none h = cc

ok-injective : {A : Type 0} {a b : A} → ◌≡◌ {A = Outcome Exn A} (ok a) (ok b) → a ≡ b
ok-injective h = cc

module _ (now : Snapshot) (r : Request) (sides : List Side) (actual : List (String × Lv)) where
  -- The control domain, or a guest that has another name and none of the transaction's devices.
  pub Detached : Domain → Type 0
  Detached d =
      (d.domid ≡ 0)
      ⊎ ((attachments : List Attachment) × (devices : List ℕ) × (d.disks ≡ some attachments)
          × (attached now attachments ≡ ok devices)
          × ((d.name =ₛ role_name r.role) ≡ false)
          × ((n : ℕ) → elem ◌==◌ n devices ≡ true → elem ◌==◌ n (devices_of actual) ≡ false))

  -- A guest of the role that runs on exactly the disks recorded for its generation, which is one
  -- of the sides, under their recorded names and for writing.
  pub record Target (d : Domain) : Type 0 where
    side : Side
    generation_of : Generation
    attachments : List Attachment
    devices : List ℕ
    recorded : List ℕ
    wanted : List Mapping
    not_control : (d.domid == 0) ≡ false
    named : d.name ≡ role_name r.role
    selected : side_of r d.uuid ≡ some side
    allowed : elem is_side side sides ≡ true
    has_generation : generation r side ≡ some generation_of
    disks_of : d.disks ≡ some attachments
    devices_of_disks : attached now attachments ≡ ok devices
    recorded_of : recorded_devices actual generation_of.disks ≡ ok recorded
    exact : (n : ℕ) → elem ◌==◌ n devices ≡ elem ◌==◌ n recorded
    wanted_of : expected_mappings actual generation_of.config_disks ≡ ok wanted
    mapped : same_set same_mapping (mappings devices attachments) wanted ≡ true

  -- At most one domain of the inventory is the target, and all others are detached.
  pub Account : List Domain → Option Domain → Type 0
  Account [] none = Unit
  Account [] (some d) = ⊥
  Account (d ∷ ds) found =
      (Detached d × Account ds found) ⊎ ((found ≡ some d) × Target d × All Detached ds)

  target :
      (d : Domain) (attachments : List Attachment) (devices : List ℕ) (found : Option Domain)
      {u : Unit {0}}
      → (d.domid == 0) ≡ false
      → d.name ≡ role_name r.role
      → d.disks ≡ some attachments
      → attached now attachments ≡ ok devices
      → check_target r sides actual d attachments devices found ≡ ok u
      → (found ≡ none) × Target d
  unfolding check_target
  target d attachments devices found control named ds dv h =
      let a = >>=-Returned (check (is_none found) Exn.identity_changed) _ h in
      let b = >>=-Returned (or_raise (side_of r d.uuid) Exn.identity_changed) _ a.2 in
      let c = >>=-Returned (check (elem is_side b.0 sides) Exn.wrong_generation) _ b.2 in
      let g = >>=-Returned (or_raise (generation r b.0) Exn.missing_field) _ c.2 in
      let e = >>=-Returned (recorded_devices actual g.0.disks) _ g.2 in
      let f = >>=-Returned (check (same_set ◌==◌ devices e.0) Exn.disks_differ) _ e.2 in
      let w = >>=-Returned (expected_mappings actual g.0.config_disks) _ f.2 in
      (
        is_none-eq-true found (check-eq-ok _ _ a.1),
        record {
          side = b.0;
          generation_of = g.0;
          attachments = attachments;
          devices = devices;
          recorded = e.0;
          wanted = w.0;
          not_control = control;
          named = named;
          selected = or_raise-eq-ok _ _ b.1;
          allowed = check-eq-ok _ _ c.1;
          has_generation = or_raise-eq-ok _ _ g.1;
          disks_of = ds;
          devices_of_disks = dv;
          recorded_of = e.1;
          exact = same_set-elem _ _ (check-eq-ok _ _ f.1);
          wanted_of = w.1;
          mapped = (and-eq-true _ _ (check-eq-ok _ _ w.2)).1;
        },
      )

  -- The two ways through a round.
  Round : Domain → Option Domain → Option Domain → Type 0
  Round d found found' =
      (Detached d × (found' ≡ found)) ⊎ ((found ≡ none) × (found' ≡ some d) × Target d)

  place-Round :
      (b : Bool) (d : Domain) (attachments : List Attachment) (devices : List ℕ)
      (found : Option Domain) {found' : Option Domain}
      → (d.name =ₛ role_name r.role) ≡ b
      → (d.domid == 0) ≡ false
      → d.disks ≡ some attachments
      → attached now attachments ≡ ok devices
      → place r sides actual now b d attachments devices found ≡ ok found'
      → Round d found found'
  unfolding place Round Detached
  place-Round true d attachments devices found named control ds dv h =
      let c = >>=-Returned (check_target r sides actual d attachments devices found) _ h in
      let e = target d attachments devices found control ((eq_iff _ _).0 named) ds dv c.1 in
      inr (e.0, sym (ok-injective c.2), e.1)
  place-Round false d attachments devices found named control ds dv h =
      let c =
        >>=-Returned (check (not (meets devices (devices_of actual))) Exn.foreign_holder) _ h in
      let apart = meets-eq-false devices _ (not-eq-true _ (check-eq-ok _ _ c.1)) in
      inl (inr (attachments, devices, ds, dv, named, apart), sym (ok-injective c.2))

  if-Round :
      (b : Bool) (d : Domain) (found : Option Domain) {found' : Option Domain}
      → (d.domid == 0) ≡ b
      → (if b then ok found else examine_guest r sides actual now d found) ≡ ok found'
      → Round d found found'
  unfolding examine_guest Round Detached
  if-Round true d found e h = inl (inl ((==_iff _ _).0 e), sym (ok-injective h))
  if-Round false d found e h =
      let a = >>=-Returned (or_raise d.disks Exn.no_attachments) _ h in
      let b = >>=-Returned (attached now a.0) _ a.2 in
      place-Round _ d a.0 b.0 found refl e (or_raise-eq-ok _ _ a.1) b.1 b.2

  examine-Round :
      (d : Domain) (found : Option Domain) {found' : Option Domain}
      → examine r sides actual now d found ≡ ok found'
      → Round d found found'
  unfolding examine
  examine-Round d found h = if-Round _ d found refl h

  -- Once the target is found, a round finds nothing else.
  Round-some : (d g : Domain) (f : Option Domain) → Round d (some g) f → Detached d × (f ≡ some g)
  unfolding Round
  Round-some d g f (inl (detached, e)) = (detached, e)
  Round-some d g f (inr x) = absurd (some-ne-none x.0)

  examine_all-found :
      (ds : List Domain) (g : Domain) (found : Option Domain)
      → examine_all r sides actual now ds (some g) ≡ ok found
      → (found ≡ some g) × All Detached ds
  unfolding examine_all
  examine_all-found [] g found h = (sym (ok-injective h), tt)
  examine_all-found (d ∷ ds) g found h =
      let a = >>=-Returned (examine r sides actual now d (some g)) _ h in
      let b = Round-some d g a.0 (examine-Round d (some g) a.1) in
      let rest = examine_all-found ds g found (rw b.1 at a.2) in (rest.0, (b.0, rest.1))

  Account-step :
      (d : Domain) (ds : List Domain) (f found : Option Domain)
      → Round d none f
      → examine_all r sides actual now ds f ≡ ok found
      → (examine_all r sides actual now ds none ≡ ok found → Account ds found)
      → Account (d ∷ ds) found
  unfolding Round Account
  Account-step d ds f found (inl (detached, e)) h ih = inl (detached, ih (rw e at h))
  Account-step d ds f found (inr (_, e, t)) h ih =
      let rest = examine_all-found ds d found (rw e at h) in inr (rest.0, t, rest.1)

  examine_all-Account :
      (ds : List Domain) (found : Option Domain)
      → examine_all r sides actual now ds none ≡ ok found
      → Account ds found
  unfolding examine_all Account
  examine_all-Account [] none h = tt
  examine_all-Account [] (some g) h = cc
  examine_all-Account (d ∷ ds) found h =
      let a = >>=-Returned (examine r sides actual now d none) _ h in
      Account-step d ds a.0 found (examine-Round d none a.1) a.2 (examine_all-Account ds found)

-- Where `guest` returns, every volume that the request records for one of the sides is there with
-- its recorded identity and size, and it is the one whose device the guests are compared with; and of
-- the domains of the inventory at most one is the guest of the role, the one returned, on exactly its
-- recorded disks, under their recorded names; every other one is the control domain, or has another
-- name and none of these devices.
pub guest-Account :
    (now : Snapshot) (r : Request) (sides : List Side) (found : Option Domain)
    → guest now r sides ≡ ok found
    → (actual : List (String × Lv)) × (domains : List Domain) × (disks now r sides ≡ ok actual)
      × (now.inventory ≡ some domains)
      × All (HasRecordedDisks now r actual) sides
      × Account now r sides actual domains found
unfolding guest
guest-Account now r sides found h =
    let a = >>=-Returned (disks now r sides) _ h in
    let b = >>=-Returned (or_raise now.inventory Exn.native_error) _ a.2 in
    (
      a.0,
      b.0,
      a.1,
      or_raise-eq-ok _ _ b.1,
      disks-HasRecordedDisks now r sides a.0 a.1,
      examine_all-Account now r sides a.0 b.0 found b.2,
    )
