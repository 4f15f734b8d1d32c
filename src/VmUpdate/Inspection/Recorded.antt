-- ===== src/VmUpdate/Inspection/Recorded.antt =====
-- The volumes that `disks` read are those that the request records.
use klokast_box.Prelude.{
  String, ◌≡◌, refl, sym, ◌∙◌, ap, true, false, ◌&&◌, some, List, [], ◌∷◌, ◌==◌, ◌=ₛ◌,
  if◌then◌else◌, All, Bool-cases, ==_iff, eq_iff, and-eq-true, inl, inr, arith, length, dedup,
}
use klokast_box.Checks.{
  ◌>>=◌, ok, check, or_raise, >>=-Returned, check-eq-ok, or_raise-eq-ok, ok-injective,
}
use klokast_box.VmUpdate.Request.{LvIdentity, Side, Generation, Request, generation}
use klokast_box.VmUpdate.Inspection.{
  Lv, Snapshot, Exn, find, put, devices_of, read_volumes, read_sides, disks,
}

find-put :
    (p q : String) (v : Lv) (l : List (String × Lv))
    → find p (put q v l) ≡ (if q =ₛ p then some v else find p l)
find-put p q v [] = refl
find-put p q v ((k, w) ∷ l) = elim (Bool-cases (k =ₛ q)) [
  | inl same ↦ elim (Bool-cases (q =ₛ p)) [
    | inl here ↦ rw (same, here) refl
    | inr away ↦
        let other = ap (λ x. x =ₛ p) ((eq_iff k q).0 same) ∙ away in rw (same, away, other) refl
  ]
  | inr differs ↦ elim (Bool-cases (k =ₛ p)) [
    | inl here ↦
        let other = ap (λ x. q =ₛ x) (sym ((eq_iff k p).0 here)) ∙ swapped k q differs in
        rw (differs, here, other) refl
    | inr away ↦ rw (differs, away) (find-put p q v l)
  ]
]
  where
    swapped : (a b : String) → (a =ₛ b) ≡ false → (b =ₛ a) ≡ false
    swapped a b h = ground (arith, eq_iff a b, eq_iff b a)

module _ (now : Snapshot) where
  -- The volume of this path, as the host reports it, was read.
  abbrev pub IsRead : List (String × Lv) → String → Lv → Type 0
  IsRead actual path item = (now.lv path ≡ some item) × (find path actual ≡ some item)

  -- What was read stays read when more is.
  abbrev Keeps : List (String × Lv) → List (String × Lv) → Type 0
  Keeps before after =
      (path : String) (item : Lv) → IsRead before path item → IsRead after path item

  -- A recorded volume is there with its recorded identity and size, and is the one that was read.
  abbrev pub IsRecorded : List (String × Lv) → String × LvIdentity → Type 0
  IsRecorded actual (path, expected) =
      (item : Lv) × IsRead actual path item
      × (item.uuid ≡ expected.uuid)
      × (item.bytes ≡ expected.bytes)

  -- The side has a generation, and all volumes of the generation are so.
  abbrev pub HasRecordedDisks : Request → List (String × Lv) → Side → Type 0
  HasRecordedDisks r actual side =
      (g : Generation) × (generation r side ≡ some g) × All (IsRecorded actual) g.disks

  put-Keeps :
      (q : String) (v : Lv) (l : List (String × Lv)) → now.lv q ≡ some v → Keeps l (put q v l)
  put-Keeps q v l h p w read = elim (Bool-cases (q =ₛ p)) [
    | inl same ↦
        let at : some v ≡ some w = sym h ∙ ap now.lv ((eq_iff q p).0 same) ∙ read.0 in
        (read.0, find-put p q v l ∙ rw same at)
    | inr differs ↦ (read.0, find-put p q v l ∙ rw differs read.1)
  ]

  put-IsRead :
      (q : String) (v : Lv) (l : List (String × Lv)) → now.lv q ≡ some v → IsRead (put q v l) q v
  put-IsRead q v l h =
      let same : (q =ₛ q) ≡ true = (eq_iff q q).1 refl in (h, find-put q q v l ∙ rw same refl)

  read_volumes-IsRecorded :
      (entries : List (String × LvIdentity)) (before after : List (String × Lv))
      → read_volumes now entries before ≡ ok after
      → All (IsRecorded after) entries × Keeps before after
  unfolding read_volumes
  read_volumes-IsRecorded [] before after h =
      (tt, λ p v read. (read.0, ap (find p) (sym (ok-injective h)) ∙ read.1))
  read_volumes-IsRecorded ((path, expected) ∷ rest) before after h =
      let v = >>=-Returned (or_raise (now.lv path) Exn.native_error) _ h in
      let c =
        >>=-Returned
          (check (v.0.uuid =ₛ expected.uuid && v.0.bytes == expected.bytes) Exn.volume_changed) _
          v.2 in
      let there = or_raise-eq-ok _ _ v.1 in
      let same = and-eq-true _ _ (check-eq-ok _ _ c.1) in
      let more = read_volumes-IsRecorded rest (put path v.0 before) after c.2 in
      (
        (
          (
            v.0,
            more.1 path v.0 (put-IsRead path v.0 before there),
            (eq_iff _ _).0 same.0,
            (==_iff _ _).0 same.1,
          ),
          more.0,
        ),
        λ p w read. more.1 p w (put-Keeps path v.0 before there p w read),
      )

  All-Keeps :
      (before after : List (String × Lv)) (entries : List (String × LvIdentity))
      → Keeps before after
      → All (IsRecorded before) entries
      → All (IsRecorded after) entries
  All-Keeps before after [] k h = tt
  All-Keeps before after ((path, expected) ∷ rest) k h =
      ((h.0.0, k path h.0.0 h.0.1, h.0.2, h.0.3), All-Keeps before after rest k h.1)

  read_sides-HasRecordedDisks :
      (r : Request) (sides : List Side) (before after : List (String × Lv))
      → read_sides now r sides before ≡ ok after
      → All (HasRecordedDisks r after) sides × Keeps before after
  unfolding read_sides
  read_sides-HasRecordedDisks r [] before after h =
      (tt, λ p v read. (read.0, ap (find p) (sym (ok-injective h)) ∙ read.1))
  read_sides-HasRecordedDisks r (side ∷ sides) before after h =
      let g = >>=-Returned (or_raise (generation r side) Exn.missing_field) _ h in
      let m = >>=-Returned (read_volumes now g.0.disks before) _ g.2 in
      let here = read_volumes-IsRecorded g.0.disks before m.0 m.1 in
      let more = read_sides-HasRecordedDisks r sides m.0 after m.2 in
      (
        ((g.0, or_raise-eq-ok _ _ g.1, All-Keeps m.0 after g.0.disks more.1 here.0), more.0),
        λ p w read. more.1 p w (here.1 p w read),
      )

  pub disks-HasRecordedDisks :
      (r : Request) (sides : List Side) (actual : List (String × Lv))
      → disks now r sides ≡ ok actual
      → All (HasRecordedDisks r actual) sides
  unfolding disks
  disks-HasRecordedDisks r sides actual h =
      let a = >>=-Returned (read_sides now r sides []) _ h in
      (read_sides-HasRecordedDisks r sides [] actual (a.1 ∙ ap ok (unchanged a.0 a.2))).0
    where
      unchanged :
          (read : List (String × Lv))
          → (check (length (dedup ◌==◌ (devices_of read)) == length read) Exn.devices_overlap
              >>= λ _. check (now.is_unmounted read) Exn.still_mounted >>= λ _. ok read)
            ≡ ok actual
          → read ≡ actual
      unchanged read e =
          let b =
            >>=-Returned
              (check (length (dedup ◌==◌ (devices_of read)) == length read) Exn.devices_overlap) _
              e in
          let c = >>=-Returned (check (now.is_unmounted read) Exn.still_mounted) _ b.2 in
          ok-injective c.2
