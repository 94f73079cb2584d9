-- ===== src/Models.antt =====
-- internal/models/models.go: the enums, and the records of the graph and of findings. A typed string of
-- the source stays a text here. A `uuid.UUID` is the number that its 16 bytes spell, and `uuid.Nil`
-- is 0; the code compares such values and does nothing else with them.
pub mod Inventory
pub mod Records
use identity_attack_graph.Prelude.{
  ℕ, String, ◌==◌, string_eq, Bool, List, [], ◌∷◌, Option, if◌then◌else◌,
}
use identity_attack_graph.Prelude.Map.{Map}
use identity_attack_graph.Prelude.Int.{ℤ}

abbrev pub Uuid : Type 0
Uuid = ℕ

abbrev pub nil_uuid : Uuid
nil_uuid = 0

-- A float64 that is only carried along, by its bit pattern.
abbrev pub FloatBits : Type 0
FloatBits = ℕ

-- An instant, in nanoseconds from Go's zero `time.Time`; the program has no earlier one.
abbrev pub Time : Type 0
Time = ℕ

mutual
  -- A value of type `any`, by the dynamic types that the code asserts or writes. Of a `[]any` the
  -- code reads the length alone. A nil pointer to an instant is `instant none`.
  pub data Any : Type 0 where
    text : String → Any
    bool : Bool → Any
    int : ℤ → Any
    real : FloatBits → Any
    instant : Option Time → Any
    strings : List String → Any
    anys : ℕ → Any
    object : Fields → Any
    other : Any

  -- A `map[string]any` inside a value.
  pub data Fields : Type 0 where
    no_field : Fields
    field : String → Any → Fields → Fields

-- `map[string]any`
abbrev pub Attributes : Type 0
Attributes = Map String Any

unfoldable pub fields_of : Attributes → Fields
fields_of [] = no_field
fields_of ((k, v) ∷ m) = field k v (fields_of m)

abbrev pub Criticality : Type 0
Criticality = String

abbrev pub crit_low : Criticality
crit_low = "low"

abbrev pub crit_medium : Criticality
crit_medium = "medium"

abbrev pub crit_high : Criticality
crit_high = "high"

abbrev pub crit_crown_jewel : Criticality
crit_crown_jewel = "crown_jewel"

unfoldable pub criticality_rank : Criticality → ℕ
criticality_rank c =
    if c == crit_crown_jewel
    then 3
    else if c == crit_high
    then 2
    else if c == crit_medium
    then 1
    else 0

abbrev pub Severity : Type 0
Severity = String

abbrev pub sev_info : Severity
sev_info = "info"

abbrev pub sev_low : Severity
sev_low = "low"

abbrev pub sev_medium : Severity
sev_medium = "medium"

abbrev pub sev_high : Severity
sev_high = "high"

abbrev pub sev_critical : Severity
sev_critical = "critical"

unfoldable pub severity_rank : Severity → ℕ
severity_rank s =
    if s == sev_critical
    then 4
    else if s == sev_high
    then 3
    else if s == sev_medium
    then 2
    else if s == sev_low
    then 1
    else 0

-- `models.GraphNode`; a nil `EntityID` is `none`.
pub record GraphNode : Type 0 where
  pub id : Uuid
  pub node_type : String
  pub entity_id : Option Uuid
  pub account_ref : String
  pub label : String
  pub criticality : Criticality
  pub attributes : Attributes

-- `models.GraphEdge`
pub record GraphEdge : Type 0 where
  pub id : Uuid
  pub src_node_id : Uuid
  pub dst_node_id : Uuid
  pub edge_type : String
  pub weight : FloatBits
  pub observed : Bool
  pub attributes : Attributes

-- `models.Finding`, less the fields that the store fills in.
pub record Finding : Type 0 where
  pub detector : String
  pub category : String
  pub severity : Severity
  pub confidence : ℕ
  pub identity_id : Option Uuid
  pub title : String
  pub narrative : String
  pub evidence : Attributes
  pub fingerprint : String
  pub status : String
  pub first_seen_at : Time
  pub last_seen_at : Time

pub record UsageEvent : Type 0 where
  pub id : Uuid
  pub identity_id : Uuid
  pub event_time : Time
  pub event_name : String
  pub event_source : String
  pub src_ip : String
  pub src_asn : ℤ
  pub src_region : String
  pub src_country : String
  pub user_agent : String
  pub runtime : String
  pub mfa_used : Bool
  pub error_code : String
  pub account_ref : String
  pub source : String
