-- ===== src/ResourceCompiler/Ledger/Owners.antt =====
-- What the file of a rule says of the claims that it is built of.
use klokast_box.Prelude.{
  String, ◌≡◌, refl, sym, ap, ◌∙◌, inl, inr, Bool, true, false, not, ◌&&◌, ◌||◌, List, [], ◌∷◌,
  ◌=ₛ◌, eq_iff, arith, Bool-cases, and-eq-true, All,
}
use klokast_box.Checks.{ok, check, >>=-Returned, check-eq-ok, check-not-eq-ok, ok-injective}
use klokast_box.ResourceModel.TextLists.{in_list}
use klokast_box.ResourceModel.Placement.{codes_ltb, insert_text, sorted_texts, has_some}
use klokast_box.ResourceModel.Placement.Order.{ascending, sorted_texts-ascending, sorted_texts-elem}
use klokast_box.Prelude.Text.{codes}
use klokast_box.ResourceCompiler.Rules.{Digests, Claim}
use klokast_box.ResourceCompiler.Ledger.{
  apps_of, exclusive_apps, several, same_content, EffectiveFile, build_effective_resource_file,
}

abbrev pub any_exclusive : List Claim → Bool
any_exclusive [] = false
any_exclusive (c ∷ cs) = c.exclusive || any_exclusive cs

has_some-insert_text : (s : String) (ts : List String) → has_some (insert_text s ts) ≡ true
unfolding insert_text
has_some-insert_text s [] = refl
has_some-insert_text s (t ∷ ts) = elim (Bool-cases (s =ₛ t)) [
  | inl same ↦ rw same refl
  | inr other ↦ elim (Bool-cases (codes_ltb (codes s) (codes t))) [
    | inl before ↦ rw (other, before) refl
    | inr after ↦ rw (other, after) refl
  ]
]

has_some-sorted_texts : (ss : List String) → has_some (sorted_texts ss) ≡ has_some ss
unfolding sorted_texts
has_some-sorted_texts [] = refl
has_some-sorted_texts (s ∷ ss) = has_some-insert_text s (sorted_texts ss)

has_some-exclusive_apps : (cs : List Claim) → has_some (exclusive_apps cs) ≡ any_exclusive cs
has_some-exclusive_apps [] = refl
has_some-exclusive_apps (c ∷ cs) = elim (Bool-cases c.exclusive) [
  | inl on ↦ rw on refl
  | inr off ↦ rw off (has_some-exclusive_apps cs)
]

-- A list that has a text, and no two, is that text.
only_one : (s : String) (ts : List String) → several ts ≡ false → in_list s ts ≡ true → ts ≡ s ∷ []
only_one s [] h e = cc
only_one s (t ∷ []) h e = ap (λ x. x ∷ []) (sym ((eq_iff s t).0 (or_false (s =ₛ t) e)))
  where
    or_false : (a : Bool) → (a || false) ≡ true → a ≡ true
    or_false a k = ground arith
only_one s (t ∷ u ∷ ts) h e = cc

same_content-All :
    (first : Claim) (cs : List Claim)
    → same_content first cs ≡ true
    → All (λ c. c.content_sha256 ≡ first.content_sha256) cs
same_content-All first [] h = tt
same_content-All first (c ∷ cs) h =
    let p = and-eq-true (c.content_sha256 =ₛ first.content_sha256) _ h in
    ((eq_iff c.content_sha256 first.content_sha256).0 p.0, same_content-All first cs p.1)

listed_first : (s : String) (ss : List String) → in_list s (s ∷ ss) ≡ true
listed_first s ss = ground (arith, eq_iff s s)

-- A file and the claims that it is built of.
pub record Accounts (first : Claim) (rest : List Claim) (file : EffectiveFile) : Type 0 where
  pub sorted_owners : ascending file.owners ≡ true
  pub owners : (app : String) → in_list app file.owners ≡ in_list app (apps_of (first ∷ rest))
  pub exclusive : file.exclusive ≡ any_exclusive (first ∷ rest)
  pub alone : any_exclusive (first ∷ rest) ≡ true → file.owners ≡ first.app ∷ []
  pub content : All (λ c. c.content_sha256 ≡ first.content_sha256) rest

-- Where the file of some claims is built, its owners are the applications of these claims, in
-- ascending order; it is exclusive exactly where one of the claims is, and then it has one owner;
-- and all claims have the checksum of the same rendered rule.
pub build_effective_resource_file_sound :
    (digests : Digests) (first : Claim) (rest : List Claim) (file : EffectiveFile)
    → build_effective_resource_file digests (first ∷ rest) ≡ ok file
    → Accounts first rest file
unfolding build_effective_resource_file
build_effective_resource_file_sound digests first rest file h =
    let claims = first ∷ rest in
    let names = sorted_texts (apps_of claims) in
    let shut = has_some (sorted_texts (exclusive_apps claims)) in
    let x = >>=-Returned (check (not (shut && several names)) _) _ h in
    let c = >>=-Returned (check (same_content first rest) _) _ x.2 in
    let same = ok-injective c.2 in
    let at_owners = ap (λ f. f.owners) (sym same) in
    let shut-eq = has_some-sorted_texts (exclusive_apps claims) ∙ has_some-exclusive_apps claims in
    record {
      sorted_owners = ap ascending at_owners ∙ sorted_texts-ascending (apps_of claims);
      owners = λ app. ap (in_list app) at_owners ∙ sorted_texts-elem app (apps_of claims);
      exclusive = ap (λ f. f.exclusive) (sym same) ∙ shut-eq;
      alone = λ on.
          at_owners
          ∙ only_one first.app names
              (then_false shut (several names) (shut-eq ∙ on) (check-not-eq-ok _ _ x.1))
              (sorted_texts-elem first.app (apps_of claims)
                ∙ listed_first first.app (apps_of rest));
      content = same_content-All first rest (check-eq-ok _ _ c.1);
    }
  where
    then_false : (a b : Bool) → a ≡ true → (a && b) ≡ false → b ≡ false
    then_false a b k e = ground arith
