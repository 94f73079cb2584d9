-- ===== src/Detect/Subject.antt =====
-- internal/detect/detect.go: what a detector is given.
use identity_attack_graph.Prelude.{String, List, Option}
use identity_attack_graph.Prelude.Int.{ℤ}
use identity_attack_graph.Models.{FloatBits, UsageEvent}
use identity_attack_graph.Models.Inventory.{
  Identity, Credential, Role, ResourceBinding, TrustEdge, Exposure,
}
use identity_attack_graph.Models.Records.{Owner, Workload}
use identity_attack_graph.Graph.BlastRadius.{BlastRadius}
use identity_attack_graph.Graph.AttackPaths.{AttackPath}

pub record Subject : Type 0 where
  pub identity : Identity
  pub owner : Option Owner
  pub creds : List Credential
  pub roles : List Role
  pub bindings : List ResourceBinding
  pub trust : List TrustEdge
  pub exposures : List Exposure
  pub workloads : List Workload
  pub usage : List UsageEvent
  pub blast : BlastRadius
  pub paths : List AttackPath
  pub peer_permission_p90 : ℤ

-- A `time.Duration` is its number of nanoseconds.
pub record Config : Type 0 where
  pub stale_window : ℤ
  pub max_cred_age : ℤ
  pub max_rotation_age : ℤ
  pub impossible_travel_kmh : FloatBits
  pub usage_spike_sigma : FloatBits
  pub anomaly_warmup_events : ℤ
  pub egress_allowlist : List String
