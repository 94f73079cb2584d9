-- ===== src/Remediate.antt =====
-- internal/remediate/remediate.go: the catalogue of actions, what each is taken to change, and the
-- plans with their projected effect. A changed input is a new value here, as `cloneInput` makes one.
pub mod Detected
pub mod Effects
use identity_attack_graph.Prelude.{
  String, ◌==◌, string_eq, Bool, true, false, ◌||◌, not, List, [], ◌∷◌, map, Option, some, none,
  if◌then◌else◌,
}
use identity_attack_graph.Prelude.Map.{Map, find, insert}
use identity_attack_graph.Prelude.Int.{ℤ, pos, ltb_ℤ}
use identity_attack_graph.Prelude.Int64.{◌-₆₄◌}
use identity_attack_graph.Models.{Any, Attributes, crit_crown_jewel}
use identity_attack_graph.Models.Inventory.{Role, ResourceBinding, TrustEdge}
use identity_attack_graph.Graph.BlastRadius.{BlastRadius}
use identity_attack_graph.Risk.{Input}
use identity_attack_graph.Risk.Factors.{is_admin_level}

-- `graph.BlastRadius{}`
abbrev pub zero_radius : BlastRadius
zero_radius = record {
  reachable_resources = 0;
  high_crit_count = 0;
  crown_jewel_count = 0;
  nearest_crown_jewel = pos 0;
  reaches_admin = false;
}

unfoldable pub clear_exposures_and_keys : Input → Input
clear_exposures_and_keys x = record x { exposures = []; creds = [] }

unfoldable pub clear_keys : Input → Input
clear_keys x = record x { creds = [] }

unfoldable pub decommission : Input → Input
decommission x = record x {
  roles = [];
  bindings = [];
  creds = [];
  exposures = [];
  trust = [];
  blast = zero_radius;
}

unfoldable pub keep_roles : List Role → List Role
unfolding is_admin_level
keep_roles [] = []
keep_roles (r ∷ rs) =
    let rest = keep_roles rs in
    if is_admin_level r
    then rest
    else record r { wildcard_action_count = pos 0; wildcard_resource_count = pos 0 } ∷ rest

unfoldable pub keep_bindings : List ResourceBinding → List ResourceBinding
keep_bindings [] = []
keep_bindings (b ∷ bs) =
    let rest = keep_bindings bs in
    if b.resource_criticality == crit_crown_jewel then rest else b ∷ rest

unfoldable pub least_privilege : Input → Input
unfolding keep_roles keep_bindings
least_privilege x = record x {
  roles = keep_roles x.roles;
  bindings = keep_bindings x.bindings;
  blast = zero_radius;
}

-- The loop over `t.Condition`.
unfoldable pub copy_condition : Attributes → Attributes → Attributes
unfolding insert
copy_condition condition [] = condition
copy_condition condition ((k, v) ∷ m) =
    copy_condition (if not (k == "guards") then insert k v condition else condition) m

unfoldable pub guard_condition : Attributes → Attributes
unfolding copy_condition
guard_condition = copy_condition (("guards", Any.strings ("mfa" ∷ "external_id" ∷ [])) ∷ [])

unfoldable pub guard_edge : TrustEdge → TrustEdge
unfolding guard_condition
guard_edge t = record t { condition = guard_condition t.condition }

unfoldable pub guard_trust : Input → Input
unfolding guard_edge
guard_trust x = record x { trust = map guard_edge x.trust }

unfoldable pub break_trust : Input → Input
break_trust x = record x { trust = []; blast = zero_radius }

pub record Recommendation : Type 0 where
  pub action : String
  pub rationale : String
  pub mutate : Option (Input → Input)

abbrev rec : String → String → Option (Input → Input) → Recommendation
rec action rationale mutate = record { action = action; rationale = rationale; mutate = mutate }

unfoldable pub catalog : Map String (List Recommendation)
unfolding clear_exposures_and_keys clear_keys decommission least_privilege guard_trust break_trust
catalog =
    (
      "secret_exposed_in_repo",
      rec "rotate" "Rotate the exposed credential and purge it from history."
            (some clear_exposures_and_keys)
          ∷ rec "revoke" "Revoke the leaked credential immediately if rotation is delayed."
              (some clear_keys)
          ∷ [],
    )
    ∷ (
      "stale_access_key",
      rec "disable_key" "Disable the unused key, then delete after a grace period."
            (some clear_keys)
          ∷ rec "revoke" "Delete the unused credential." (some clear_keys)
          ∷ [],
    )
    ∷ (
      "stale_identity",
      rec "remove_identity" "Decommission the dormant identity." (some decommission) ∷ [],
    )
    ∷ (
      "orphaned_identity",
      rec "remove_identity" "Remove the unaccounted-for identity (or assign an owner)."
            (some decommission)
          ∷ [],
    )
    ∷ (
      "over_privileged_sa",
      rec "reduce_scope" "Replace admin/wildcard grants with least-privilege permissions."
            (some least_privilege)
          ∷ [],
    )
    ∷ (
      "privilege_creep",
      rec "reduce_scope" "Trim permissions back toward the peer-group baseline."
            (some least_privilege)
          ∷ [],
    )
    ∷ (
      "conditionless_assume_role",
      rec "add_condition" "Require ExternalId/MFA on the assume-role trust." (some guard_trust)
          ∷ rec "break_trust" "Remove the trust relationship if it is unnecessary."
              (some break_trust)
          ∷ [],
    )
    ∷ (
      "wildcard_trust",
      rec "break_trust" "Remove the wildcard/external trust principal." (some break_trust)
          ∷ rec "add_condition" "Constrain the principal and add conditions." (some guard_trust)
          ∷ [],
    )
    ∷ (
      "high_blast_radius",
      rec "reduce_scope" "Cut the privileges that reach crown-jewel resources."
            (some least_privilege)
          ∷ rec "break_trust" "Break the assume-role chain into the high-impact target."
              (some break_trust)
          ∷ [],
    )
    ∷ (
      "ai_agent_overscoped",
      rec "reduce_scope" "Scope the agent's API/tool access to least privilege."
            (some least_privilege)
          ∷ rec "shorten_ttl" "Shorten the agent credential TTL." none
          ∷ [],
    )
    ∷ (
      "impossible_travel",
      rec "require_mfa" "Force re-auth with MFA and investigate the session." none ∷ [],
    )
    ∷ (
      "unusual_geo",
      rec "require_mfa" "Require MFA from new locations; verify the access is expected." none ∷ [],
    )
    ∷ (
      "first_use_sensitive_action",
      rec "require_mfa" "Require MFA for sensitive actions; confirm the change was intended." none
          ∷ [],
    )
    ∷ (
      "usage_spike",
      rec "require_mfa" "Throttle and require MFA while investigating the spike." none ∷ [],
    )
    ∷ []

pub record Plan : Type 0 where
  pub action : String
  pub rationale : String
  pub risk_after : ℤ
  pub risk_delta : ℤ

-- `composite` is `engine.Score(cp).Composite`.
module _ (composite : Input → ℤ) where
  unfoldable pub plan_for : Input → ℤ → Recommendation → Plan
  unfolding ◌-₆₄◌
  plan_for x current r =
      let after : ℤ = elim r.mutate [ some change ↦ composite (change x) | none ↦ current ] in
      let delta = current -₆₄ after in
      record {
        action = r.action;
        rationale = r.rationale;
        risk_after = after;
        risk_delta = if ltb_ℤ delta (pos 0) then pos 0 else delta;
      }

  unfoldable pub recommend : String → Input → ℤ → List Plan
  unfolding catalog find plan_for
  recommend detector x current = elim (find detector catalog) [
    | none ↦ []
    | some recs ↦ map (plan_for x current) recs
  ]
