-- ===== src/Aws/Policy.antt =====
-- internal/collectors/aws/policy.go: `analyzePolicies` and the classification of actions.
pub mod Crown
pub mod Level
use identity_attack_graph.Prelude.{
  ℕ, ◌+◌, ◌==◌, string_eq, String, Bool, true, false, not, ◌&&◌, ◌||◌, List, [], ◌∷◌, ◌++◌, foldl,
  Option, some, none, length, ltb, if◌then◌else◌,
}
unfoldable use identity_attack_graph.Prelude.{contains}
use identity_attack_graph.Prelude.Texts.{Strings, has_suffix, has_any}
use identity_attack_graph.Models.{Criticality, crit_low, crit_medium, crit_high, criticality_rank}
use identity_attack_graph.Aws.Tags.{CritResolver, service_of, criticality_for}

-- `statement`, by the fields that are analysed here.
pub record Statement : Type 0 where
  pub sid : String
  pub effect : String
  pub action : List String
  pub not_action : List String
  pub resource : List String

pub record Binding : Type 0 where
  pub resource_urn : String
  pub actions : List String
  pub effect : String
  pub criticality : Criticality

pub record PolicyAnalysis : Type 0 where
  pub permission_count : ℕ
  pub wildcard_action_count : ℕ
  pub wildcard_resource_count : ℕ
  pub has_priv_escalation : Bool
  pub privilege_level : String
  pub bindings : List Binding

-- The analysis with the variables that the loops write beside it.
pub record Progress : Type 0 where
  pub analysis : PolicyAnalysis
  pub has_write : Bool
  pub has_admin : Bool

-- The variables of a statement's loop over its actions.
pub record Acted : Type 0 where
  pub progress : Progress
  pub crit : Criticality

abbrev pub priv_escalation_actions : List String
priv_escalation_actions =
    "iam:createaccesskey" ∷ "iam:createloginprofile" ∷ "iam:updateloginprofile"
    ∷ "iam:attachuserpolicy" ∷ "iam:attachgrouppolicy" ∷ "iam:attachrolepolicy"
    ∷ "iam:putuserpolicy" ∷ "iam:putgrouppolicy" ∷ "iam:putrolepolicy" ∷ "iam:createpolicyversion"
    ∷ "iam:setdefaultpolicyversion" ∷ "iam:passrole" ∷ "iam:updateassumerolepolicy"
    ∷ "sts:assumerole" ∷ "lambda:createfunction" ∷ "lambda:updatefunctioncode"
    ∷ "lambda:invokefunction" ∷ "glue:createdevendpoint" ∷ "cloudformation:createstack"
    ∷ "datapipeline:createpipeline" ∷ "ec2:runinstances" ∷ []

abbrev pub data_services : List String
data_services =
    "s3" ∷ "dynamodb" ∷ "rds" ∷ "kms" ∷ "secretsmanager" ∷ "ssm" ∷ "redshift" ∷ "es" ∷ []

unfoldable pub non_empty : List String → List String
non_empty [] = []
non_empty (v ∷ vs) = let rest = non_empty vs in if v == "" then rest else v ∷ rest

-- The loop of `dedupeLower`, which compares the texts as they are.
unfoldable pub dedupe_from : List String → List String → List String
unfolding contains
dedupe_from seen [] = []
dedupe_from seen (v ∷ vs) =
    let again = dedupe_from seen vs in
    let fresh = dedupe_from (v ∷ seen) vs in if v == "" || contains seen v then again else v ∷ fresh

unfoldable pub dedupe_lower : List String → List String
unfolding dedupe_from
dedupe_lower = dedupe_from []

unfoldable pub is_write_action : String → Bool
unfolding has_any
is_write_action la =
    (la == "*" || (la == "*:*" || has_suffix la ":*"))
    || has_any la (
        ":put" ∷ ":create" ∷ ":delete" ∷ ":update" ∷ ":write" ∷ ":modify" ∷ ":attach" ∷ ":set"
        ∷ ":remove" ∷ ":terminate" ∷ [])

unfoldable pub count_star : List String → ℕ
count_star [] = 0
count_star (r ∷ rs) = let n = count_star rs in if r == "*" then n + 1 else n

abbrev pub no_progress : Progress
no_progress = record {
  analysis = record {
    permission_count = 0;
    wildcard_action_count = 0;
    wildcard_resource_count = 0;
    has_priv_escalation = false;
    privilege_level = "read";
    bindings = [];
  };
  has_write = false;
  has_admin = false;
}

module _ (u : Strings) where
  unfoldable pub action_criticality : String → List String → Criticality
  unfolding contains service_of non_empty is_write_action
  action_criticality action resources =
      let on_data = contains data_services (service_of u action) in
      if action == "*" || (action == "*:*" || action == "iam:*")
      then crit_high
      else if contains (non_empty resources) "*" && on_data
      then crit_high
      else if on_data && is_write_action action
      then crit_medium
      else crit_low

  unfoldable pub take_action : List String → Acted → String → Acted
  unfolding contains is_write_action action_criticality criticality_rank
  take_action resources s act =
      let la = u.lower act in
      let p = s.progress in
      let a = p.analysis in
      let c = action_criticality la resources in
      record {
        progress = record {
          analysis = record a {
            wildcard_action_count =
                if act == "*" || has_suffix act ":*"
                then a.wildcard_action_count + 1
                else a.wildcard_action_count;
            has_priv_escalation = a.has_priv_escalation || contains priv_escalation_actions la;
          };
          has_write = p.has_write || is_write_action la;
          has_admin = p.has_admin || (act == "*" || (act == "*:*" || la == "iam:*"));
        };
        crit = if ltb (criticality_rank s.crit) (criticality_rank c) then c else s.crit;
      }

  -- `tag_crit` is `resolver.criticalityFor`.
  module _ (tag_crit : String → List String → Criticality) where
    unfoldable pub bind_resource : List String → Criticality → List Binding → String → List Binding
    unfolding criticality_rank dedupe_lower
    bind_resource actions crit bs res =
        let t = tag_crit res actions in
        bs
        ++ record {
          resource_urn = res;
          actions = dedupe_lower actions;
          effect = "allow";
          criticality = if ltb (criticality_rank crit) (criticality_rank t) then t else crit;
        }
          ∷ []

    unfoldable pub take_statement : Progress → Statement → Progress
    unfolding take_action bind_resource non_empty count_star
    take_statement p st =
        if u.equal_fold st.effect "Allow"
        then (let a = p.analysis in
            let counted = record p {
              analysis = record a {
                permission_count = a.permission_count + length st.action;
                wildcard_resource_count =
                    a.wildcard_resource_count + count_star (non_empty st.resource);
              };
            } in
            let s =
              foldl (take_action st.resource) (record { progress = counted; crit = crit_low })
                st.action in
            let b = s.progress.analysis in
            record s.progress {
              analysis = record b {
                bindings =
                    foldl (bind_resource st.action s.crit) b.bindings (non_empty st.resource);
              };
            })
        else p

    unfoldable pub take_document : Progress → Option (List Statement) → Progress
    unfolding take_statement
    take_document p none = p
    take_document p (some statements) = foldl take_statement p statements

    -- Each document is given by what `decodePolicy` makes of it, `none` for an error.
    unfoldable pub analyze_policies : List (Option (List Statement)) → PolicyAnalysis
    unfolding take_document
    analyze_policies docs =
        let p = foldl take_document no_progress docs in
        record p.analysis {
          privilege_level =
              if p.has_admin
              then "admin"
              else if p.analysis.has_priv_escalation
              then "privileged"
              else if p.has_write
              then "write"
              else "read";
        }
