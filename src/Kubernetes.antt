-- ===== src/Kubernetes.antt =====
-- internal/collectors/k8s/rbac.go: the privilege picture of a ServiceAccount.
pub mod Admin
use identity_attack_graph.Prelude.{
  ℕ, ◌+◌, String, ◌==◌, string_eq, Bool, true, false, not, ◌&&◌, ◌||◌, List, [], ◌∷◌, ◌++◌, map,
  foldl, Option, some, none, if◌then◌else◌,
}
unfoldable use identity_attack_graph.Prelude.{contains}
use identity_attack_graph.Prelude.Texts.{◌<>◌}
use identity_attack_graph.Models.{Criticality, crit_high, crit_crown_jewel}

pub record PolicyRule : Type 0 where
  pub api_groups : List String
  pub resources : List String
  pub verbs : List String
  pub resource_names : List String
  pub non_resource_urls : List String

pub record RuleScope : Type 0 where
  pub rules : List PolicyRule
  pub cluster : Bool
  pub scope_urn : String
  pub role_name : String

pub record RbacBinding : Type 0 where
  pub urn : String
  pub kind : String
  pub crit : Criticality
  pub actions : List String

pub record RbacAnalysis : Type 0 where
  pub privilege_level : String
  pub wildcard_verbs : ℕ
  pub has_escalation : Bool
  pub permission_count : ℕ
  pub bindings : List RbacBinding
  pub role_names : List String

abbrev pub escalation_verbs : List String
escalation_verbs = "bind" ∷ "escalate" ∷ "impersonate" ∷ []

abbrev pub rbac_resources : List String
rbac_resources = "roles" ∷ "clusterroles" ∷ "rolebindings" ∷ "clusterrolebindings" ∷ []

abbrev pub write_verbs : List String
write_verbs = "create" ∷ "update" ∷ "patch" ∷ "delete" ∷ "deletecollection" ∷ []

abbrev pub read_verbs : List String
read_verbs = "get" ∷ "list" ∷ "watch" ∷ []

-- The analysis with the variables that the loops write beside it.
pub record Seen : Type 0 where
  pub analysis : RbacAnalysis
  pub has_write : Bool
  pub has_read : Bool
  pub cluster_admin : Bool
  pub ns_admin : Bool
  pub secrets_cluster : Bool
  pub secrets_ns : Bool
  pub pod_exec : Bool

-- The variables before the loops.
abbrev pub nothing_seen : Seen
nothing_seen = record {
  analysis = record {
    privilege_level = "read";
    wildcard_verbs = 0;
    has_escalation = false;
    permission_count = 0;
    bindings = [];
    role_names = [];
  };
  has_write = false;
  has_read = false;
  cluster_admin = false;
  ns_admin = false;
  secrets_cluster = false;
  secrets_ns = false;
  pod_exec = false;
}

unfoldable pub all_wild : PolicyRule → Bool
unfolding contains
all_wild r = contains r.api_groups "*" && (contains r.resources "*" && contains r.verbs "*")

unfoldable pub add_role_name : String → RbacAnalysis → RbacAnalysis
unfolding contains
add_role_name name a =
    if not (name == "") && not (contains a.role_names name)
    then record a { role_names = a.role_names ++ name ∷ [] }
    else a

-- `addBinding`; the map of seen names holds those of the bindings.
unfoldable pub add_binding : Bool → RbacBinding → RbacAnalysis → RbacAnalysis
unfolding contains
add_binding on b a =
    if on && not (contains (map (λ (c : RbacBinding). c.urn) a.bindings) b.urn)
    then record a { bindings = a.bindings ++ b ∷ [] }
    else a

-- `lower` is `strings.ToLower`.
module _ (lower : String → String) where
  unfoldable pub contains_any : List String → List String → Bool
  unfolding contains
  contains_any [] set = false
  contains_any (x ∷ xs) set = contains set (lower x) || contains_any xs set

  unfoldable pub writes : PolicyRule → Bool
  unfolding contains contains_any
  writes r = contains r.verbs "*" || contains_any r.verbs write_verbs

  unfoldable pub reads_secrets : PolicyRule → Bool
  unfolding contains contains_any
  reads_secrets r =
      (contains r.resources "*" || contains r.resources "secrets")
      && (contains r.verbs "*" || contains_any r.verbs read_verbs)

  unfoldable pub escalates : PolicyRule → Bool
  unfolding contains contains_any writes
  escalates r =
      contains_any r.verbs escalation_verbs
      || ((contains r.api_groups "*" || contains r.api_groups "rbac.authorization.k8s.io")
          && ((contains r.resources "*" || contains_any r.resources rbac_resources) && writes r))

  -- The body of the loop over the rules of an entry.
  unfoldable pub take_rule : Bool → Seen → PolicyRule → Seen
  unfolding contains all_wild reads_secrets escalates writes contains_any
  take_rule cluster s r = record s {
    analysis = record s.analysis {
      permission_count = s.analysis.permission_count + 1;
      wildcard_verbs =
          if contains r.verbs "*" then s.analysis.wildcard_verbs + 1 else s.analysis.wildcard_verbs;
      has_escalation = s.analysis.has_escalation || (reads_secrets r || escalates r);
    };
    cluster_admin = s.cluster_admin || (cluster && all_wild r);
    ns_admin = s.ns_admin || (not cluster && all_wild r);
    secrets_cluster = s.secrets_cluster || (cluster && reads_secrets r);
    secrets_ns = s.secrets_ns || (not cluster && reads_secrets r);
    pod_exec =
        s.pod_exec || (contains r.resources "pods/exec" || contains r.resources "pods/attach");
    has_write = s.has_write || writes r;
    has_read = s.has_read || contains_any r.verbs read_verbs;
  }

  -- The body of the loop over the entries.
  unfoldable pub take_entry : Seen → RuleScope → Seen
  unfolding take_rule add_role_name
  take_entry s e =
      foldl (take_rule e.cluster) (record s { analysis = add_role_name e.role_name s.analysis })
        e.rules

  unfoldable pub take_entries : Seen → List RuleScope → Seen
  unfolding take_entry
  take_entries = foldl take_entry

  -- The last `switch`.
  unfoldable pub level_of : Seen → String
  level_of s =
      if s.cluster_admin
      then "admin"
      else if s.analysis.has_escalation || (s.pod_exec || s.ns_admin)
      then "privileged"
      else if s.has_write
      then "write"
      else if s.has_read
      then "read"
      else s.analysis.privilege_level

  unfoldable pub analyze_entries : String → List RuleScope → RbacAnalysis
  unfolding take_entries add_binding level_of
  analyze_entries cluster_name entries =
      let s = take_entries nothing_seen entries in
      let bound : String → String → Criticality → List String → RbacBinding =
        λ name kind crit actions. record {
          urn = "k8s:" <> (cluster_name <> name);
          kind = kind;
          crit = crit;
          actions = actions;
        } in
      let b =
        add_binding s.cluster_admin (bound ":*" "k8s_cluster" crit_crown_jewel ("*" ∷ []))
          s.analysis in
      let b =
        add_binding s.secrets_cluster
          (bound ":cluster:secrets" "k8s_secret" crit_crown_jewel ("get" ∷ "list" ∷ [])) b in
      let b =
        add_binding (not s.secrets_cluster && s.secrets_ns)
          (bound ":namespace:secrets" "k8s_secret" crit_high ("get" ∷ "list" ∷ [])) b in
      let b = add_binding s.pod_exec (bound ":pods:exec" "k8s_pod" crit_high ("create" ∷ [])) b in
      record b { privilege_level = level_of s }

  unfoldable pub builtin_rules : String → Option (List PolicyRule)
  builtin_rules name =
      let n = lower name in
      let rule : List String → List String → List String → PolicyRule = λ groups resources verbs.
        record {
          api_groups = groups;
          resources = resources;
          verbs = verbs;
          resource_names = [];
          non_resource_urls = [];
        } in
      if n == "cluster-admin"
      then some (rule ("*" ∷ []) ("*" ∷ []) ("*" ∷ []) ∷ [])
      else if n == "admin" || n == "edit"
      then some (
          rule ("*" ∷ []) ("*" ∷ [])
            ("create" ∷ "update" ∷ "patch" ∷ "delete" ∷ "get" ∷ "list" ∷ "watch" ∷ [])
          ∷ rule ("" ∷ []) ("secrets" ∷ []) read_verbs
          ∷ [])
      else if n == "view"
      then some (rule ("*" ∷ []) ("*" ∷ []) read_verbs ∷ [])
      else none
