-- ===== src/ResourceCompiler/Ledger/Groups.antt =====
-- Grouping claims by their file, and sorting the groups.
use klokast_box.Prelude.{
  String, ◌≡◌, refl, sym, ap, subst, ◌∙◌, inl, inr, Bool, true, false, ◌||◌, List, [], ◌∷◌, ◌++◌,
  ◌=ₛ◌, eq_iff, arith, if◌then◌else◌, Bool-cases, and-eq-true, All,
}
use klokast_box.ResourceCompiler.Rules.{Claim}
use klokast_box.ResourceCompiler.Ledger.{
  texts_ltb, same_texts, file_key, Groups, add_claim, group_claims, insert_group, sort_groups,
}

-- The claims of a file, in their order.
abbrev pub claims_for : List String → List Claim → List Claim
claims_for k [] = []
claims_for k (c ∷ cs) =
    let later = claims_for k cs in if same_texts (file_key c) k then c ∷ later else later

abbrev pub lookup_group : List String → Groups → List Claim
lookup_group k [] = []
lookup_group k ((e, cs) ∷ rest) = if same_texts e k then cs else lookup_group k rest

abbrev pub key_in : List String → List (List String) → Bool
key_in k [] = false
key_in k (e ∷ es) = same_texts e k || key_in k es

-- Keys of which no two are the same.
abbrev pub Unique : List (List String) → Type 0
Unique [] = Unit {0}
Unique (k ∷ ks) = (key_in k ks ≡ false) × Unique ks

abbrev pub keys_of : Groups → List (List String)
keys_of [] = []
keys_of ((e, cs) ∷ rest) = e ∷ keys_of rest

same_texts-eq : (s t : List String) → same_texts s t ≡ true → s ≡ t
same_texts-eq [] [] h = refl
same_texts-eq [] (u ∷ t) h = cc
same_texts-eq (c ∷ s) [] h = cc
same_texts-eq (c ∷ s) (u ∷ t) h =
    let p = and-eq-true (c =ₛ u) (same_texts s t) h in
    let a = (eq_iff c u).0 p.0 in let b = same_texts-eq s t p.1 in λ i. a i ∷ b i

pub same_texts_self : (s : List String) → same_texts s s ≡ true
same_texts_self [] = refl
same_texts_self (c ∷ s) = ground (arith, eq_iff c c, same_texts_self s)

-- What is the same as two texts makes them the same.
same_both :
    (s t k : List String) → same_texts s t ≡ false → same_texts s k ≡ true → same_texts t k ≡ false
same_both s t k h e = elim (Bool-cases (same_texts t k)) [
  | inl both ↦ absurd (
      differ (
        sym h
        ∙ subst (λ x. same_texts s x ≡ true) (same_texts-eq s k e ∙ sym (same_texts-eq t k both))
            (same_texts_self s)))
  | inr other ↦ other
]
  where
    differ : ◌≡◌ {A = Bool} false true → ⊥
    differ x = cc

pub append-[] : {A : Type 0} (xs : List A) → xs ++ [] ≡ xs
append-[] [] = refl
append-[] (x ∷ xs) = ap (λ l. x ∷ l) (append-[] xs)

append_assoc : {A : Type 0} (xs ys zs : List A) → (xs ++ ys) ++ zs ≡ xs ++ (ys ++ zs)
append_assoc [] ys zs = refl
append_assoc (x ∷ xs) ys zs = ap (λ l. x ∷ l) (append_assoc xs ys zs)

-- A claim is added to the group of its file.
add_claim-lookup_group :
    (k : List String) (c : Claim) (gs : Groups)
    → lookup_group k (add_claim c gs) ≡ lookup_group k gs ++ claims_for k (c ∷ [])
unfolding add_claim
add_claim-lookup_group k c [] = refl
add_claim-lookup_group k c ((e, cs) ∷ rest) = elim (Bool-cases (same_texts e (file_key c))) [
  | inl same ↦
      let at = same_texts-eq e (file_key c) same in
      elim (Bool-cases (same_texts e k)) [
        | inl here ↦
            let there = ap (λ x. same_texts x k) (sym at) ∙ here in rw (same, here, there) refl
        | inr other ↦
            let there = ap (λ x. same_texts x k) (sym at) ∙ other in
            rw (same, other, there) (sym (append-[] (lookup_group k rest)))
      ]
  | inr differs ↦ elim (Bool-cases (same_texts e k)) [
    | inl here ↦
        let there = same_both e (file_key c) k differs here in
        rw (differs, here, there) (sym (append-[] cs))
    | inr other ↦ rw (differs, other) (add_claim-lookup_group k c rest)
  ]
]

claims_for-head :
    (k : List String) (c : Claim) (cs : List Claim)
    → claims_for k (c ∷ []) ++ claims_for k cs ≡ claims_for k (c ∷ cs)
claims_for-head k c cs = elim (Bool-cases (same_texts (file_key c) k)) [
  | inl here ↦ rw here refl
  | inr other ↦ rw other refl
]

pub group_claims-lookup_group :
    (k : List String) (gs : Groups) (cs : List Claim)
    → lookup_group k (group_claims gs cs) ≡ lookup_group k gs ++ claims_for k cs
unfolding group_claims
group_claims-lookup_group k gs [] = sym (append-[] (lookup_group k gs))
group_claims-lookup_group k gs (c ∷ cs) =
    group_claims-lookup_group k (add_claim c gs) cs
    ∙ ap (λ l. l ++ claims_for k cs) (add_claim-lookup_group k c gs)
    ∙ append_assoc (lookup_group k gs) (claims_for k (c ∷ [])) (claims_for k cs)
    ∙ ap (λ l. lookup_group k gs ++ l) (claims_for-head k c cs)

same_texts_symmetric : (s t : List String) → same_texts s t ≡ false → same_texts t s ≡ false
same_texts_symmetric s t h = same_both s t s h (same_texts_self s)

-- The keys of groups after a claim was added.
add_claim-key_in :
    (x : List String) (c : Claim) (gs : Groups)
    → key_in x (keys_of (add_claim c gs)) ≡ (key_in x (keys_of gs) || same_texts (file_key c) x)
unfolding add_claim
add_claim-key_in x c [] = ground arith
add_claim-key_in x c ((e, cs) ∷ rest) = elim (Bool-cases (same_texts e (file_key c))) [
  | inl same ↦ rw same (
      absorb (same_texts e x) (key_in x (keys_of rest)) (same_texts (file_key c) x)
        (ap (λ y. same_texts y x) (same_texts-eq e (file_key c) same)))
  | inr differs ↦ rw differs (
      regroup (same_texts e x) _ (key_in x (keys_of rest)) (same_texts (file_key c) x)
        (add_claim-key_in x c rest))
]
  where
    absorb : (a b d : Bool) → a ≡ d → (a || b) ≡ ((a || b) || d)
    absorb a b d h = ground arith

    regroup : (a m b d : Bool) → m ≡ (b || d) → (a || m) ≡ ((a || b) || d)
    regroup a m b d h = ground arith

either_false : (a b : Bool) → a ≡ false → b ≡ false → (a || b) ≡ false
either_false a b h k = ground arith

neither : (a b : Bool) → (a || b) ≡ false → (a ≡ false) × (b ≡ false)
neither a b h = (ground arith, ground arith)

add_claim-Unique :
    (c : Claim) (gs : Groups) → Unique (keys_of gs) → Unique (keys_of (add_claim c gs))
unfolding add_claim
add_claim-Unique c [] u = (refl, tt)
add_claim-Unique c ((e, cs) ∷ rest) u = elim (Bool-cases (same_texts e (file_key c))) [
  | inl same ↦ rw same u
  | inr differs ↦ rw differs (
    add_claim-key_in e c rest ∙ either_false _ _ u.0 (same_texts_symmetric e (file_key c) differs),
    add_claim-Unique c rest u.1,
  )
]

-- A group has a first claim, which is for the file of the group.
abbrev pub HasFirst : List String × List Claim → Type 0
HasFirst group =
    (first : Claim) × (rest : List Claim) × (group.1 ≡ first ∷ rest) × (file_key first ≡ group.0)

add_claim-HasFirst : (c : Claim) (gs : Groups) → All HasFirst gs → All HasFirst (add_claim c gs)
unfolding add_claim
add_claim-HasFirst c [] h = ((c, [], refl, refl), tt)
add_claim-HasFirst c ((e, cs) ∷ rest) h = elim (Bool-cases (same_texts e (file_key c))) [
  | inl same ↦ rw same ((h.0.0, h.0.1 ++ c ∷ [], ap (λ l. l ++ c ∷ []) h.0.2, h.0.3), h.1)
  | inr differs ↦ rw differs (h.0, add_claim-HasFirst c rest h.1)
]

-- Groups whose keys differ, each with its first claim.
abbrev pub Grouped : Groups → Type 0
Grouped gs = Unique (keys_of gs) × All HasFirst gs

pub group_claims-Grouped :
    (gs : Groups) (cs : List Claim) → Grouped gs → Grouped (group_claims gs cs)
unfolding group_claims
group_claims-Grouped gs [] g = g
group_claims-Grouped gs (c ∷ cs) g =
    group_claims-Grouped (add_claim c gs) cs
      (add_claim-Unique c gs g.0, add_claim-HasFirst c gs g.1)

module _ (g : List String × List Claim) where
  insert_group-key_in :
      (x : List String) (gs : Groups)
      → key_in x (keys_of (insert_group g gs)) ≡ (same_texts g.0 x || key_in x (keys_of gs))
  unfolding insert_group
  insert_group-key_in x [] = refl
  insert_group-key_in x (o ∷ rest) = elim (Bool-cases (texts_ltb o.0 g.0)) [
    | inl before ↦ rw before (
        swap (same_texts o.0 x) _ (same_texts g.0 x) (key_in x (keys_of rest))
          (insert_group-key_in x rest))
    | inr after ↦ rw after refl
  ]
    where
      swap : (a m b d : Bool) → m ≡ (b || d) → (a || m) ≡ (b || (a || d))
      swap a m b d h = ground arith

  insert_group-Unique :
      (gs : Groups)
      → key_in g.0 (keys_of gs) ≡ false
      → Unique (keys_of gs)
      → Unique (keys_of (insert_group g gs))
  unfolding insert_group
  insert_group-Unique [] n u = (refl, tt)
  insert_group-Unique (o ∷ rest) n u =
      let p = neither (same_texts o.0 g.0) (key_in g.0 (keys_of rest)) n in
      elim (Bool-cases (texts_ltb o.0 g.0)) [
        | inl before ↦ rw before (
          insert_group-key_in o.0 rest ∙ either_false _ _ (same_texts_symmetric o.0 g.0 p.0) u.0,
          insert_group-Unique rest p.1 u.1,
        )
        | inr after ↦ rw after (n, u)
      ]

  insert_group-lookup_group :
      (k : List String) (gs : Groups)
      → key_in g.0 (keys_of gs) ≡ false
      → lookup_group k (insert_group g gs) ≡ (if same_texts g.0 k then g.1 else lookup_group k gs)
  unfolding insert_group
  insert_group-lookup_group k [] n = refl
  insert_group-lookup_group k (o ∷ rest) n =
      let p = neither (same_texts o.0 g.0) (key_in g.0 (keys_of rest)) n in
      elim (Bool-cases (texts_ltb o.0 g.0)) [
        | inl before ↦ elim (Bool-cases (same_texts o.0 k)) [
          | inl here ↦ let there = same_both o.0 g.0 k p.0 here in rw (before, here, there) refl
          | inr other ↦ rw (before, other) (insert_group-lookup_group k rest p.1)
        ]
        | inr after ↦ rw after refl
      ]

  insert_group-HasFirst :
      (gs : Groups) → HasFirst g → All HasFirst gs → All HasFirst (insert_group g gs)
  unfolding insert_group
  insert_group-HasFirst [] f h = (f, tt)
  insert_group-HasFirst (o ∷ rest) f h = elim (Bool-cases (texts_ltb o.0 g.0)) [
    | inl before ↦ rw before (h.0, insert_group-HasFirst rest f h.1)
    | inr after ↦ rw after (f, h)
  ]

sort_groups-key_in :
    (x : List String) (gs : Groups) → key_in x (keys_of (sort_groups gs)) ≡ key_in x (keys_of gs)
unfolding sort_groups
sort_groups-key_in x [] = refl
sort_groups-key_in x (g ∷ gs) =
    insert_group-key_in g x (sort_groups gs)
    ∙ ap (λ b. same_texts g.0 x || b) (sort_groups-key_in x gs)

pub sort_groups-Grouped : (gs : Groups) → Grouped gs → Grouped (sort_groups gs)
unfolding sort_groups
sort_groups-Grouped [] h = h
sort_groups-Grouped (g ∷ gs) h =
    let later = sort_groups-Grouped gs (h.0.1, h.1.1) in
    (
      insert_group-Unique g (sort_groups gs) (sort_groups-key_in g.0 gs ∙ h.0.0) later.0,
      insert_group-HasFirst g (sort_groups gs) h.1.0 later.1,
    )

pub sort_groups-lookup_group :
    (k : List String) (gs : Groups)
    → Unique (keys_of gs)
    → lookup_group k (sort_groups gs) ≡ lookup_group k gs
unfolding sort_groups
sort_groups-lookup_group k [] u = refl
sort_groups-lookup_group k (g ∷ gs) u =
    insert_group-lookup_group g k (sort_groups gs) (sort_groups-key_in g.0 gs ∙ u.0)
    ∙ ap (λ l. if same_texts g.0 k then g.1 else l) (sort_groups-lookup_group k gs u.1)
