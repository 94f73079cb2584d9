-- ===== src/Models/Records.antt =====
-- internal/models/models.go: the kinds of identity, and the records of the inventory and of the
-- platform's bookkeeping that no modelled operation reads.
use identity_attack_graph.Prelude.{String, Bool, Option}
use identity_attack_graph.Prelude.Int.{ℤ}
use identity_attack_graph.Models.{Uuid, Time, Attributes}

abbrev pub IdentityKind : Type 0
IdentityKind = String

abbrev pub kind_aws_iam_user : IdentityKind
kind_aws_iam_user = "aws_iam_user"

abbrev pub kind_aws_iam_role : IdentityKind
kind_aws_iam_role = "aws_iam_role"

abbrev pub kind_aws_sts_session : IdentityKind
kind_aws_sts_session = "aws_sts_session"

abbrev pub kind_gcp_service_account : IdentityKind
kind_gcp_service_account = "gcp_service_account"

abbrev pub kind_k8s_service_account : IdentityKind
kind_k8s_service_account = "k8s_service_account"

abbrev pub kind_workload_identity : IdentityKind
kind_workload_identity = "workload_identity"

abbrev pub kind_api_client : IdentityKind
kind_api_client = "api_client"

abbrev pub kind_ai_agent : IdentityKind
kind_ai_agent = "ai_agent"

abbrev pub kind_other : IdentityKind
kind_other = "other"

pub record Provenance : Type 0 where
  pub source : String
  pub external_id : String
  pub account_ref : String
  pub collector_run_id : Option Uuid
  pub collected_at : Option Time
  pub raw_hash : String

pub record Secret : Type 0 where
  pub id : Uuid
  pub store : String
  pub external_id : String
  pub account_ref : String
  pub name : String
  pub last_rotated_at : Option Time
  pub rotation_enabled : Bool
  pub version_count : ℤ
  pub material_fingerprint : String
  pub referenced_by_count : ℤ
  pub last_accessed_at : Option Time
  pub source : String

pub record Workload : Type 0 where
  pub id : Uuid
  pub kind : String
  pub external_id : String
  pub account_ref : String
  pub name : String
  pub environment : String
  pub identity_id : Option Uuid
  pub attributes : Attributes
  pub source : String

pub record Repository : Type 0 where
  pub id : Uuid
  pub provider : String
  pub external_id : String
  pub org : String
  pub name : String
  pub visibility : String
  pub default_branch : String
  pub last_scanned_at : Option Time
  pub source : String

pub record Owner : Type 0 where
  pub id : Uuid
  pub kind : String
  pub email : String
  pub display_name : String
  pub source : String

pub record RemediationAction : Type 0 where
  pub id : Uuid
  pub finding_id : Uuid
  pub action : String
  pub status : String
  pub risk_before : ℤ
  pub risk_after : ℤ
  pub risk_delta : ℤ
  pub assignee : String
  pub notes : String

pub record CollectorRun : Type 0 where
  pub id : Uuid
  pub collector : String
  pub account_ref : String
  pub records_in : ℤ
  pub records_upserted : ℤ
  pub errors : ℤ
  pub status : String
  pub started_at : Time
  pub finished_at : Option Time

pub record Suppression : Type 0 where
  pub id : Uuid
  pub detector : String
  pub identity_id : Option Uuid
  pub reason : String
  pub created_by : String
  pub expires_at : Option Time
  pub created_at : Time

pub record Snapshot : Type 0 where
  pub id : Uuid
  pub started_at : Time
  pub finished_at : Option Time
  pub scope : Attributes
  pub entity_counts : Attributes

pub record AuditEntry : Type 0 where
  pub id : Uuid
  pub actor : String
  pub action : String
  pub target_type : String
  pub target_id : String
  pub before : Attributes
  pub after : Attributes
  pub at : Time
