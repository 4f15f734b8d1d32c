-- ===== src/ResourceCompiler/Hosts/Reached.antt =====
-- The hosts of a scope: none is left out and none is there twice.
use klokast_box.Prelude.{
  String, ◌≡◌, refl, sym, ap, subst, ◌∙◌, inl, inr, Bool, true, false, not, ◌||◌, List, [], ◌∷◌,
  ◌++◌, ◌=ₛ◌, eq_iff, arith, if◌then◌else◌, Bool-cases, All,
}
use klokast_box.Checks.{ok, >>=-Returned, ok-injective, if-eq-ok}
use klokast_box.ResourceModel.TextLists.{in_list, all_distinct, elem-append, distinct-append}
use klokast_box.ResourceModel.Placement.{sorted_texts}
use klokast_box.ResourceCompiler.Ledger.{EffectiveFile}
use klokast_box.ResourceCompiler.Hosts.{
  Compiled, resource_host_for_effective_file, add_host, add_hosts, is_router_file, files_where,
  is_in_scope, file_hosts, cleanup_hosts, app_hosts, vm_hosts, resource_hosts_for_scope,
}

add_host-elem :
    (h : String) (hosts : List String) (host : String)
    → in_list h (add_host hosts host) ≡ (in_list h hosts || (h =ₛ host))
unfolding add_host
add_host-elem h hosts host = elim (Bool-cases (in_list host hosts)) [
  | inl there ↦ rw there (elim (Bool-cases (h =ₛ host)) [
    | inl same ↦ rw same (
        both_true (in_list h hosts)
          (subst (λ x. in_list x hosts ≡ true) (sym ((eq_iff h host).0 same)) there))
    | inr other ↦ rw other (or_false (in_list h hosts))
  ])
  | inr fresh ↦ rw fresh (
      elem-append h hosts (host ∷ []) ∙ ap (λ b. in_list h hosts || b) (sym (or_false (h =ₛ host))))
]
  where
    both_true : (a : Bool) → a ≡ true → a ≡ (a || true)
    both_true a k = ground arith

    or_false : (a : Bool) → a ≡ (a || false)
    or_false a = ground arith

add_hosts-elem :
    (h : String) (seen hosts : List String)
    → in_list h (add_hosts seen hosts) ≡ (in_list h seen || in_list h hosts)
unfolding add_hosts
add_hosts-elem h seen [] = or_false (in_list h seen)
  where
    or_false : (a : Bool) → a ≡ (a || false)
    or_false a = ground arith
add_hosts-elem h seen (host ∷ rest) =
    add_hosts-elem h (add_host seen host) rest
    ∙ ap (λ b. b || in_list h rest) (add_host-elem h seen host)
    ∙ regroup (in_list h seen) (h =ₛ host) (in_list h rest)
  where
    regroup : (a b c : Bool) → ((a || b) || c) ≡ (a || (b || c))
    regroup a b c = ground arith

add_hosts-all_distinct :
    (seen hosts : List String)
    → all_distinct seen ≡ true
    → all_distinct (add_hosts seen hosts) ≡ true
unfolding add_hosts add_host
add_hosts-all_distinct seen [] d = d
add_hosts-all_distinct seen (host ∷ rest) d = elim (Bool-cases (in_list host seen)) [
  | inl there ↦ rw there (add_hosts-all_distinct seen rest d)
  | inr fresh ↦
      rw fresh (add_hosts-all_distinct (seen ++ host ∷ []) rest (distinct-append host seen fresh d))
]

-- A file in the scope has a host, which is in the list.
abbrev pub IsReached : List String → List String → EffectiveFile → Type 0
IsReached scope hosts file =
    is_in_scope scope file.owners ≡ true
    → (host : String) × (resource_host_for_effective_file file ≡ ok host)
      × (in_list host hosts ≡ true)

more-IsReached :
    (scope : List String) (hosts more : List String)
    → ((h : String) → in_list h hosts ≡ true → in_list h more ≡ true)
    → (files : List EffectiveFile) → All (IsReached scope hosts) files
    → All (IsReached scope more) files
more-IsReached scope hosts more grows [] h = tt
more-IsReached scope hosts more grows (f ∷ fs) h = (
  (λ on. let r = h.0 on in (r.0, r.1, grows r.0 r.2)),
  more-IsReached scope hosts more grows fs h.1,
)

file_hosts-IsReached :
    (scope : List String) (files : List EffectiveFile) (hosts : List String)
    → file_hosts scope files ≡ ok hosts
    → All (IsReached scope hosts) files
unfolding file_hosts
file_hosts-IsReached scope [] hosts h = tt
file_hosts-IsReached scope (f ∷ fs) hosts h = elim (if-eq-ok (is_in_scope scope f.owners) _ _ h) [
  | inl here ↦
      let n = >>=-Returned (resource_host_for_effective_file f) _ here.1 in
      let o = >>=-Returned (file_hosts scope fs) _ n.2 in
      subst (λ hs. All (IsReached scope hs) (f ∷ fs)) (ok-injective o.2)
        (
          (λ on. (n.0, n.1, first_in n.0 o.0)),
          more-IsReached scope o.0 (n.0 ∷ o.0) (λ x e. later x n.0 o.0 e) fs
              (file_hosts-IsReached scope fs o.0 o.1),
        )
  | inr other ↦
      ((λ on. absurd (differ (sym on ∙ other.0))), file_hosts-IsReached scope fs hosts other.1)
]
  where
    differ : ◌≡◌ {A = Bool} true false → ⊥
    differ e = cc

    first_in : (s : String) (ss : List String) → in_list s (s ∷ ss) ≡ true
    first_in s ss = ground (arith, eq_iff s s)

    later : (x s : String) (ss : List String) → in_list x ss ≡ true → in_list x (s ∷ ss) ≡ true
    later x s ss e = ground arith

-- What holds of both parts of a list holds of the list.
All-files :
    (P : EffectiveFile → Type 0) (fs : List EffectiveFile)
    → All P (files_where is_router_file fs ++ files_where (λ f. not (is_router_file f)) fs)
    → All P fs
All-files P fs h =
    joined fs (parts (files_where is_router_file fs) _ h).0
      (parts (files_where is_router_file fs) _ h).1
  where
    parts : (xs ys : List EffectiveFile) → All P (xs ++ ys) → All P xs × All P ys
    parts [] ys a = (tt, a)
    parts (x ∷ xs) ys a = let r = parts xs ys a.1 in ((a.0, r.0), r.1)

    joined :
        (gs : List EffectiveFile)
        → All P (files_where is_router_file gs)
        → All P (files_where (λ f. not (is_router_file f)) gs)
        → All P gs
    joined [] a b = tt
    joined (g ∷ gs) a b = elim (Bool-cases (is_router_file g)) [
      | inl router ↦
          let a' =
            subst
              (λ t.
                All P
                  (if t then g ∷ files_where is_router_file gs else files_where is_router_file gs))
              router a in
          let b' =
            subst
              (λ t. All P (
                if not t
                then g ∷ files_where (λ f. not (is_router_file f)) gs
                else files_where (λ f. not (is_router_file f)) gs))
              router b in
          (a'.0, joined gs a'.1 b')
      | inr guest ↦
          let a' =
            subst
              (λ t.
                All P
                  (if t then g ∷ files_where is_router_file gs else files_where is_router_file gs))
              guest a in
          let b' =
            subst
              (λ t. All P (
                if not t
                then g ∷ files_where (λ f. not (is_router_file f)) gs
                else files_where (λ f. not (is_router_file f)) gs))
              guest b in
          (b'.0, joined gs a' b'.1)
    ]

-- Where the hosts of a scope are found, no host is there twice, and every file of the plan whose
-- owners are in the scope has its host among them.
pub resource_hosts_for_scope_sound :
    (compiled : Compiled) (scope hosts : List String)
    → resource_hosts_for_scope compiled scope ≡ ok hosts
    → (all_distinct hosts ≡ true) × All (IsReached scope hosts) compiled.effective_files
unfolding resource_hosts_for_scope
resource_hosts_for_scope_sound compiled scope hosts h =
    let fs = compiled.effective_files in
    let files = files_where is_router_file fs ++ files_where (λ f. not (is_router_file f)) fs in
    let f = >>=-Returned (file_hosts scope files) _ h in
    let c = >>=-Returned (cleanup_hosts scope compiled.cleanup_scopes) _ f.2 in
    let a = >>=-Returned (app_hosts compiled.apps (sorted_texts scope)) _ c.2 in
    let rest = c.0 ++ (a.0 ++ vm_hosts scope compiled.app_vm_specs) in
    let same = ok-injective a.2 in
    (
      ap all_distinct (sym same) ∙ add_hosts-all_distinct [] (f.0 ++ rest) refl,
      All-files (IsReached scope hosts) fs (
          more-IsReached scope f.0 hosts
            (λ x e.
              ap (in_list x) (sym same)
              ∙ add_hosts-elem x [] (f.0 ++ rest)
              ∙ elem-append x f.0 rest
              ∙ ap (λ b. b || in_list x rest) e)
            files (file_hosts-IsReached scope files f.0 f.1)),
    )
