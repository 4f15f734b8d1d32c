-- ===== src/ResourceCompiler/Ledger/Refines.antt =====
-- The ledger against its description: one file for each rule that applications claim.
use klokast_box.Prelude.{
  String, ◌≡◌, refl, sym, ap, subst, ◌∙◌, ◌⊎◌, inl, inr, not, ◌&&◌, Option, none, some, List, [],
  ◌∷◌, ◌++◌, if◌then◌else◌, Bool-cases, All,
}
use klokast_box.Checks.{ok, check, >>=-Returned, ok-injective}
use klokast_box.ResourceModel.Placement.{sorted_texts, has_some}
use klokast_box.ResourceCompiler.Rules.{RouterRule, VmRule, kind_text, Digests, Claim}
use klokast_box.ResourceCompiler.Ledger.{
  same_texts, same_content, several, apps_of, exclusive_apps, file_key, EffectiveFile, Groups,
  group_claims, sort_groups, Ledger, build_effective_resource_file, router_claims, vm_claims,
  effective_files_of, build_app_resource_ledger,
}
use klokast_box.ResourceCompiler.Ledger.Groups.{
  claims_for, lookup_group, Unique, keys_of, HasFirst, group_claims-lookup_group,
  group_claims-Grouped, sort_groups-Grouped, sort_groups-lookup_group,
}

abbrev pub key_of : EffectiveFile → List String
key_of file = file.node ∷ file.host_role ∷ kind_text file.kind ∷ file.key ∷ []

abbrev pub find_file : List String → List EffectiveFile → Option EffectiveFile
find_file k [] = none
find_file k (f ∷ fs) = if same_texts (key_of f) k then some f else find_file k fs

abbrev pub file_keys : List EffectiveFile → List (List String)
file_keys [] = []
file_keys (f ∷ fs) = key_of f ∷ file_keys fs

module _ (digests : Digests) where
  build-key_of :
      (first : Claim) (rest : List Claim) (file : EffectiveFile)
      → build_effective_resource_file digests (first ∷ rest) ≡ ok file
      → file_key first ≡ key_of file
  unfolding build_effective_resource_file
  build-key_of first rest file h =
      let x =
        >>=-Returned
          (check
            (not (
              has_some (sorted_texts (exclusive_apps (first ∷ rest)))
              && several (sorted_texts (apps_of (first ∷ rest)))))
            _)
          _ h in
      let c = >>=-Returned (check (same_content first rest) _) _ x.2 in ap key_of (ok-injective c.2)

  -- A list of claims has no file if it is empty, and else the file that is built of them.
  abbrev pub Filed : List String → List Claim → List EffectiveFile → Type 0
  Filed k claims files =
      ((claims ≡ []) × (find_file k files ≡ none))
      ⊎ ((file : EffectiveFile) × (find_file k files ≡ some file)
          × (build_effective_resource_file digests claims ≡ ok file))

  effective_files_of-Filed :
      (k : List String) (gs : Groups) (files : List EffectiveFile)
      → effective_files_of digests gs ≡ ok files
      → All HasFirst gs
      → Filed k (lookup_group k gs) files × (file_keys files ≡ keys_of gs)
  unfolding effective_files_of
  effective_files_of-Filed k [] files h f =
      subst (λ l. Filed k [] l × (file_keys l ≡ [])) (ok-injective h) (inl (refl, refl), refl)
  effective_files_of-Filed k ((e, cs) ∷ rest) files h f =
      let b = >>=-Returned (build_effective_resource_file digests cs) _ h in
      let o = >>=-Returned (effective_files_of digests rest) _ b.2 in
      let at =
        sym f.0.3
        ∙ build-key_of f.0.0 f.0.1 b.0
            (ap (build_effective_resource_file digests) (sym f.0.2) ∙ b.1) in
      let later = effective_files_of-Filed k rest o.0 o.1 f.1 in
      subst (λ l. Filed k (lookup_group k ((e, cs) ∷ rest)) l × (file_keys l ≡ e ∷ keys_of rest))
        (ok-injective o.2)
        (
          elim (Bool-cases (same_texts e k)) [
            | inl here ↦
                let found = ap (λ x. same_texts x k) (sym at) ∙ here in
                rw (here, found) (inr (b.0, refl, b.1))
            | inr other ↦
                let missed = ap (λ x. same_texts x k) (sym at) ∙ other in rw (other, missed) later.0
          ],
          ap (λ x. x ∷ file_keys o.0) (sym at) ∙ ap (λ l. e ∷ l) later.1,
        )

  -- Where the ledger of the applications is built, for each node, role, kind and key there is a file
  -- exactly where some rule claims it; that file is the one that is built of all claims of that
  -- rule, those of router rules first; and no two files are for the same.
  pub build_app_resource_ledger_refines :
      (router_rules : List RouterRule) (vm_rules : List VmRule) (ledger : Ledger)
      → build_app_resource_ledger digests router_rules vm_rules ≡ ok ledger
      → (router : List Claim) × (vm : List Claim) × (router_claims digests router_rules ≡ ok router)
        × (vm_claims digests vm_rules ≡ ok vm)
        × ((k : List String) → Filed k (claims_for k (router ++ vm)) ledger.effective_files)
        × Unique (file_keys ledger.effective_files)
  unfolding build_app_resource_ledger
  build_app_resource_ledger_refines router_rules vm_rules ledger h =
      let r = >>=-Returned (router_claims digests router_rules) _ h in
      let v = >>=-Returned (vm_claims digests vm_rules) _ r.2 in
      let claims = r.0 ++ v.0 in
      let groups = group_claims [] claims in
      let e = >>=-Returned (effective_files_of digests (sort_groups groups)) _ v.2 in
      let g = group_claims-Grouped [] claims (tt, tt) in
      let s = sort_groups-Grouped groups g in
      let same = ap (λ l. l.effective_files) (ok-injective e.2) in
      (
        r.0,
        v.0,
        r.1,
        v.1,
        (λ k. subst (Filed k (claims_for k claims)) same (
            subst (λ cs. Filed k cs e.0)
              (sort_groups-lookup_group k groups g.0 ∙ group_claims-lookup_group k [] claims)
              (effective_files_of-Filed k (sort_groups groups) e.0 e.1 s.1).0)),
        subst (λ l. Unique (file_keys l)) same
            (subst Unique (sym (effective_files_of-Filed [] (sort_groups groups) e.0 e.1 s.1).1)
              s.0),
      )
