-- ===== src/Models/Inventory.antt =====
-- internal/models/models.go: the records of the inventory that the risk engine and the remediation
-- read. Of `Identity` the fields that only the store fills in are left out.
use identity_attack_graph.Prelude.{String, Bool, List, Option}
use identity_attack_graph.Prelude.Int.{ℤ}
use identity_attack_graph.Models.{Uuid, Time, Attributes, Criticality}
use identity_attack_graph.Models.Records.{Provenance}

pub record Identity : Type 0 where
  pub id : Uuid
  pub kind : String
  pub name : String
  pub arn_or_email : String
  pub provider : String
  pub state : String
  pub owner_id : Option Uuid
  pub created_at_source : Option Time
  pub last_seen_at : Option Time
  pub last_rotated_at : Option Time
  pub is_ai_agent : Bool
  pub ai_agent_meta : Attributes
  pub attributes : Attributes
  pub prov : Provenance

pub record Credential : Type 0 where
  pub id : Uuid
  pub identity_id : Uuid
  pub cred_type : String
  pub external_id : String
  pub status : String
  pub created_at_source : Option Time
  pub last_used_at : Option Time
  pub last_used_region : String
  pub last_used_service : String
  pub expires_at : Option Time
  pub account_ref : String
  pub source : String

pub record Role : Type 0 where
  pub id : Uuid
  pub provider : String
  pub external_id : String
  pub account_ref : String
  pub name : String
  pub policy_document : Attributes
  pub trust_policy : Attributes
  pub privilege_level : String
  pub is_assumable : Bool
  pub permission_count : ℤ
  pub wildcard_action_count : ℤ
  pub wildcard_resource_count : ℤ
  pub owner_identity_id : Option Uuid
  pub source : String

pub record TrustEdge : Type 0 where
  pub id : Uuid
  pub src_identity_id : Option Uuid
  pub src_role_id : Option Uuid
  pub dst_identity_id : Option Uuid
  pub dst_role_id : Option Uuid
  pub edge_type : String
  pub condition : Attributes
  pub observed : Bool
  pub account_ref : String
  pub source : String

pub record ResourceBinding : Type 0 where
  pub id : Uuid
  pub identity_id : Option Uuid
  pub role_id : Option Uuid
  pub resource_urn : String
  pub resource_kind : String
  pub resource_criticality : Criticality
  pub actions : List String
  pub effect : String
  pub account_ref : String
  pub source : String

pub record Exposure : Type 0 where
  pub id : Uuid
  pub repository_id : Option Uuid
  pub identity_id : Option Uuid
  pub secret_id : Option Uuid
  pub path : String
  pub commit_sha : String
  pub line : ℤ
  pub pattern : String
  pub fingerprint : String
  pub verified : Bool
  pub source : String
