-- ===== src/Kubernetes/Admin.antt =====
-- Which ServiceAccounts count as administrators of the cluster.
use identity_attack_graph.Prelude.{
  String, ◌≡◌, refl, ap, ◌∙◌, Bool, true, false, not, ◌++◌, ◌&&◌, ◌||◌, ◌==◌, string_eq, List, [],
  ◌∷◌, foldl, arith, if◌then◌else◌, ◌↔◌, Memᴰ, sym,
}
use identity_attack_graph.Prelude.Folds.{any_of, any_of_iff, contains_iff}
unfoldable use identity_attack_graph.Prelude.{contains}
use identity_attack_graph.Kubernetes.{
  nothing_seen, PolicyRule, RuleScope, RbacAnalysis, Seen, all_wild, take_rule, take_entry,
  take_entries, level_of, analyze_entries, add_role_name,
}

-- The rule names every group, every resource and every verb by the wildcard.
abbrev pub IsUnlimited : PolicyRule → Type 0
IsUnlimited r = Memᴰ "*" r.api_groups × Memᴰ "*" r.resources × Memᴰ "*" r.verbs

-- The entry holds for the whole cluster and has an unlimited rule.
abbrev pub GrantsCluster : RuleScope → Type 0
GrantsCluster e = (e.cluster ≡ true) × ((r : PolicyRule) × Memᴰ r e.rules × IsUnlimited r)

all_wild_iff : (r : PolicyRule) → (all_wild r ≡ true) ↔ IsUnlimited r
unfolding all_wild
all_wild_iff r =
    let (g, g') = contains_iff r.api_groups "*" in
    let (s, s') = contains_iff r.resources "*" in
    let (v, v') = contains_iff r.verbs "*" in
    (
      λ q. (g (ground arith), s (ground arith), v (ground arith)),
      λ (m, n, o). let p = g' m in let q = s' n in let t = v' o in ground arith,
    )

-- The tests that the loops come to.
abbrev grants_cluster : RuleScope → Bool
grants_cluster e = e.cluster && any_of all_wild e.rules

grants_cluster_iff : (e : RuleScope) → (grants_cluster e ≡ true) ↔ GrantsCluster e
grants_cluster_iff e =
    let (to, from) = any_of_iff all_wild all_wild_iff e.rules in
    (
      λ q. (ground arith, to (ground arith)),
      λ (h, some_rule). let q = from some_rule in ground arith,
    )

or_assoc : (a b c : Bool) → (a || b || c) ≡ (a || (b || c))
or_assoc a b c = ground arith

spread : (s c r q : Bool) → ((s || (c && r)) || (c && q)) ≡ (s || (c && (r || q)))
spread s c r q = ground arith

named_level :
    (name : String) (a : RbacAnalysis) → (add_role_name name a).privilege_level ≡ a.privilege_level
unfolding add_role_name
named_level name a = by_test (not (name == "") && not (contains a.role_names name))
  where
    by_test :
        (b : Bool)
        → (if b then record a { role_names = a.role_names ++ name ∷ [] } else a).privilege_level
          ≡ a.privilege_level
    by_test true = refl
    by_test false = refl

module _ (lower : String → String) where
  rules_admin :
      (cluster : Bool) (s : Seen) (rs : List PolicyRule)
      → (foldl (take_rule lower cluster) s rs).cluster_admin
        ≡ (s.cluster_admin || (cluster && any_of all_wild rs))
  unfolding take_rule
  rules_admin cluster s [] = ground arith
  rules_admin cluster s (r ∷ rs) =
      rules_admin cluster (take_rule lower cluster s r) rs
      ∙ spread s.cluster_admin cluster (all_wild r) (any_of all_wild rs)

  entries_admin :
      (s : Seen) (es : List RuleScope)
      → (take_entries lower s es).cluster_admin ≡ (s.cluster_admin || any_of grants_cluster es)
  unfolding take_entries take_entry
  entries_admin s [] = ground arith
  entries_admin s (e ∷ es) =
      entries_admin (take_entry lower s e) es
      ∙ ap (λ b. b || any_of grants_cluster es)
          (rules_admin e.cluster (record s { analysis = add_role_name e.role_name s.analysis })
            e.rules)
      ∙ or_assoc s.cluster_admin (grants_cluster e) (any_of grants_cluster es)

  rules_level :
      (cluster : Bool) (s : Seen) (rs : List PolicyRule)
      → (foldl (take_rule lower cluster) s rs).analysis.privilege_level ≡ s.analysis.privilege_level
  unfolding take_rule
  rules_level cluster s [] = refl
  rules_level cluster s (r ∷ rs) = rules_level cluster (take_rule lower cluster s r) rs

  entries_level :
      (s : Seen) (es : List RuleScope)
      → (take_entries lower s es).analysis.privilege_level ≡ s.analysis.privilege_level
  unfolding take_entries take_entry
  entries_level s [] = refl
  entries_level s (e ∷ es) =
      entries_level (take_entry lower s e) es
      ∙ rules_level e.cluster (record s { analysis = add_role_name e.role_name s.analysis }) e.rules
      ∙ named_level e.role_name s.analysis

  level_admin :
      (s : Seen)
      → s.analysis.privilege_level ≡ "read"
      → (level_of lower s == "admin") ≡ s.cluster_admin
  unfolding level_of
  level_admin s h =
      by_flags s.cluster_admin (s.analysis.has_escalation || (s.pod_exec || s.ns_admin)) s.has_write
        s.has_read s.analysis.privilege_level h
    where
      by_flags :
          (a b c d : Bool) (l : String)
          → l ≡ "read"
          → ((if a
                then "admin"
                else if b
                then "privileged"
                else if c
                then "write"
                else if d
                then "read"
                else l)
              == "admin")
            ≡ a
      by_flags true b c d l q = refl
      by_flags false true c d l q = refl
      by_flags false false true d l q = refl
      by_flags false false false true l q = refl
      by_flags false false false false l q = ap (λ t. t == "admin") q

  analyze_entries_flag :
      (cluster_name : String) (es : List RuleScope)
      → ((analyze_entries lower cluster_name es).privilege_level == "admin")
        ≡ any_of grants_cluster es
  unfolding analyze_entries
  analyze_entries_flag cluster_name es =
      level_admin (take_entries lower (nothing_seen) es) (entries_level nothing_seen es)
      ∙ entries_admin nothing_seen es

  -- A ServiceAccount is classified `admin` exactly if one of its entries holds for the whole cluster
  -- and has a rule that names every group, every resource and every verb by the wildcard.
  pub analyze_entries_admin :
      (cluster_name : String) (es : List RuleScope)
      → ((analyze_entries lower cluster_name es).privilege_level ≡ "admin")
        ↔ ((e : RuleScope) × Memᴰ e es × GrantsCluster e)
  analyze_entries_admin cluster_name es =
      let l = (analyze_entries lower cluster_name es).privilege_level in
      let (text, text') = string_eq.beq_iff l "admin" in
      let (to, from) = any_of_iff grants_cluster grants_cluster_iff es in
      let flag = analyze_entries_flag cluster_name es in
      (λ q. to (sym flag ∙ text' q), λ h. text (flag ∙ from h))
