-- ===== src/Tests/Risks.antt =====
-- The scores and the remediation of one identity, and the privileges of a ServiceAccount. The floats of the
-- test are integers.
use identity_attack_graph.Prelude.{
  String, ◌≡◌, ◌↔◌, refl, string_eq, true, false, List, [], ◌∷◌, Memᴰ, some, none, All,
}
unfoldable use identity_attack_graph.Prelude.{contains}
use identity_attack_graph.Prelude.Int.{ℤ, pos, ◌+ℤ◌, ◌*ℤ◌}
use identity_attack_graph.Models.Inventory.{TrustEdge}
use identity_attack_graph.Graph.BlastRadius.{no_radius}
use identity_attack_graph.Risk.{Weights, Input, Factor, strong_trust_condition}
use identity_attack_graph.Risk.Factors.{trust}
use identity_attack_graph.Risk.Score.{Floats, score}
use identity_attack_graph.Risk.Score.Bounds.{InScale, score-InScale}
use identity_attack_graph.Risk.Score.Guards.{AllGuarded, Assumable, strong_trust_condition_lem}
use identity_attack_graph.Kubernetes.{RuleScope, analyze_entries}
use identity_attack_graph.Kubernetes.Admin.{GrantsCluster, analyze_entries_admin}
use identity_attack_graph.Remediate.{guard_trust}
use identity_attack_graph.Remediate.Effects.{guard_trust_strong, guard_trust_silences}

abbrev whole_numbers : Floats
whole_numbers = record {
  Float = ℤ;
  zero = pos 0;
  half = pos 0;
  add = ◌+ℤ◌;
  mul = ◌*ℤ◌;
  of_int = λ n. n;
  to_int = λ n. n;
}

abbrev some_weights : Weights ℤ
some_weights = record {
  weights = ("trust", pos 1) ∷ [];
  severity_bands = ("critical", pos 80) ∷ ("high", pos 60) ∷ ("medium", pos 30) ∷ [];
  signals = ("trust", ("conditionless_assume", pos 40) ∷ []) ∷ [];
  urgency = [];
}

abbrev bare_edge : TrustEdge
bare_edge = record {
  id = 1;
  src_identity_id = none;
  src_role_id = none;
  dst_identity_id = some 7;
  dst_role_id = none;
  edge_type = "can_assume";
  condition = [];
  observed = false;
  account_ref = "";
  source = "";
}

abbrev pub subject : Input
subject = record {
  identity = record {
    id = 7;
    kind = "service_account";
    name = "deployer";
    arn_or_email = "";
    provider = "aws";
    state = "active";
    owner_id = none;
    created_at_source = none;
    last_seen_at = none;
    last_rotated_at = none;
    is_ai_agent = false;
    ai_agent_meta = [];
    attributes = [];
    prov = record {
      source = "";
      external_id = "";
      account_ref = "";
      collector_run_id = none;
      collected_at = none;
      raw_hash = "";
    };
  };
  creds = [];
  roles = [];
  bindings = [];
  trust = bare_edge ∷ [];
  exposures = [];
  anomalies = record {
    impossible_travel = false;
    new_region = false;
    new_asn_or_runtime = false;
    usage_spike = false;
    first_use_sensitive = false;
    off_hours_burst = false;
  };
  blast = no_radius;
  peer_permission_p90 = pos 0;
  peer_reachable_p90 = pos 0;
  trust_chain_depth = pos 0;
  now = 0;
}

abbrev as_listed : List (String × Factor) → List (String × Factor)
as_listed fs = fs

score-InScale_example :
    InScale (score whole_numbers some_weights as_listed subject).composite
    × InScale (score whole_numbers some_weights as_listed subject).urgency
    × All
        (λ (entry : String × Factor). InScale entry.1.score)
        (score whole_numbers some_weights as_listed subject).factors
score-InScale_example = score-InScale whole_numbers some_weights as_listed subject

strong_trust_condition_example :
    (strong_trust_condition (bare_edge ∷ []) ≡ true)
    ↔ (((t : TrustEdge) × Memᴰ t (bare_edge ∷ []) × Assumable t) × AllGuarded (bare_edge ∷ []))
strong_trust_condition_example = strong_trust_condition_lem (bare_edge ∷ [])

guard_trust_strong_example : strong_trust_condition (guard_trust subject).trust ≡ true
guard_trust_strong_example = guard_trust_strong subject bare_edge (Memᴰ.head refl) refl

guard_trust_silences_example :
    contains (trust some_weights (guard_trust subject)).signals "conditionless_assume" ≡ false
guard_trust_silences_example = guard_trust_silences some_weights subject

abbrev same_text : String → String
same_text s = s

abbrev bound_to : List RuleScope
bound_to =
    record {
      rules =
          record {
            api_groups = "*" ∷ [];
            resources = "*" ∷ [];
            verbs = "*" ∷ [];
            resource_names = [];
            non_resource_urls = [];
          }
          ∷ [];
      cluster = true;
      scope_urn = "cluster";
      role_name = "cluster-admin";
    }
    ∷ []

analyze_entries_admin_example :
    ((analyze_entries same_text "prod" bound_to).privilege_level ≡ "admin")
    ↔ ((e : RuleScope) × Memᴰ e bound_to × GrantsCluster e)
analyze_entries_admin_example = analyze_entries_admin same_text "prod" bound_to
