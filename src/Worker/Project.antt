-- ===== src/Worker/Project.antt =====
-- cmd/worker/graphbuild.go: `projectGraph` and `capabilityEdgeType`. The loops write the calls that
-- they make, and the maps that they fill, into a state.
pub mod Raised
pub mod Linked
pub mod Resources
use identity_attack_graph.Prelude.{
  ℕ, ◌+◌, ◌==◌, nat_eq, string_eq, String, Bool, true, false, ◌&&◌, ◌||◌, List, [], ◌∷◌, foldl,
  Option, some, none, ltb, if◌then◌else◌,
}
use identity_attack_graph.Prelude.Fallible.{◌>>=◌}
use identity_attack_graph.Prelude.Map.{Map, find_or, insert}
use identity_attack_graph.Models.{
  Uuid, nil_uuid, Any, text, bool, FloatBits, Criticality, crit_low, crit_high, criticality_rank,
  GraphNode, GraphEdge,
}
use identity_attack_graph.Models.Inventory.{Identity, Role, ResourceBinding, TrustEdge}
use identity_attack_graph.Models.Records.{Workload}
use identity_attack_graph.Worker.Store.{Call, put_node, put_edge, GraphRepo}

-- The float64 1
abbrev pub unit_weight : FloatBits
unit_weight = 4607182418800017408

unfoldable pub capability_edge_type : String → String
capability_edge_type t =
    if t == "can_assume" then "assumes" else if t == "can_impersonate" then "impersonates" else t

-- What the projection keeps; the latest call stands first.
pub record Projection : Type 0 where
  pub calls : List Call
  pub node_id : Map Uuid Uuid
  pub owned_by : Map Uuid Uuid
  pub urn_node : Map String Uuid
  pub edges : ℕ

abbrev pub no_projection : Projection
no_projection = record { calls = []; node_id = []; owned_by = []; urn_node = []; edges = 0 }

-- What the five reads of the store deliver.
pub record Entities : Type 0 where
  pub idents : List Identity
  pub roles : List Role
  pub bindings : List ResourceBinding
  pub trust : List TrustEdge
  pub workloads : List Workload

abbrev pub identity_node : Identity → GraphNode
identity_node i = record {
  id = nil_uuid;
  node_type = "identity";
  entity_id = some i.id;
  account_ref = i.prov.account_ref;
  label = i.name;
  criticality = crit_low;
  attributes =
      ("kind", text i.kind)
      ∷ ("provider", text i.provider)
      ∷ ("is_ai_agent", bool i.is_ai_agent)
      ∷ [];
}

abbrev pub role_node : Role → GraphNode
role_node r = record {
  id = nil_uuid;
  node_type = "role";
  entity_id = some r.id;
  account_ref = r.account_ref;
  label = r.name;
  criticality =
      if r.privilege_level == "admin" || r.privilege_level == "privileged"
      then crit_high
      else crit_low;
  attributes = ("privilege_level", text r.privilege_level) ∷ [];
}

abbrev pub workload_node : Workload → GraphNode
workload_node w = record {
  id = nil_uuid;
  node_type = "workload";
  entity_id = some w.id;
  account_ref = w.account_ref;
  label = w.name;
  criticality = "";
  attributes = [];
}

unfoldable pub raise_urn : Map String Criticality → ResourceBinding → Map String Criticality
unfolding criticality_rank find_or insert
raise_urn m b =
    let c = b.resource_criticality in
    if ltb (criticality_rank (find_or "" b.resource_urn m)) (criticality_rank c)
    then insert b.resource_urn c m
    else m

unfoldable pub note_account : Map String String → ResourceBinding → Map String String
unfolding insert
note_account m b = insert b.resource_urn b.account_ref m

-- `if a != nil { x = nodeID[*a] }`
unfoldable pub look_up : Map Uuid Uuid → Option Uuid → Uuid
unfolding find_or
look_up m none = nil_uuid
look_up m (some k) = find_or nil_uuid k m

-- The second entity counts where the first left the nil identifier.
unfoldable pub endpoint : Map Uuid Uuid → Option Uuid → Option Uuid → Uuid
unfolding look_up
endpoint m a b = let x = look_up m a in if x == nil_uuid then look_up m b else x

-- `resource_id` is `DeterministicID` with the kind "resource".
unfoldable pub resource_node :
    (String → Uuid) → Map String String → String → Criticality → GraphNode
unfolding find_or
resource_node resource_id urn_acct urn crit = record {
  id = nil_uuid;
  node_type = "resource";
  entity_id = some (resource_id urn);
  account_ref = find_or "" urn urn_acct;
  label = urn;
  criticality = crit;
  attributes = [];
}

abbrev pub called : GraphNode → Projection → Projection
called n p = record p { calls = put_node n ∷ p.calls }

-- What the loops do with the answer to the call: after an error they go on to the next entity.
unfoldable pub note_node : Uuid → Option Uuid → Projection → Projection
unfolding insert
note_node entity none p = p
note_node entity (some id) p = record p { node_id = insert entity id p.node_id }

unfoldable pub note_owner : Uuid → Option Uuid → Map Uuid Uuid → Map Uuid Uuid
unfolding insert
note_owner role none m = m
note_owner role (some owner) m = insert role owner m

unfoldable pub note_role : Role → Option Uuid → Projection → Projection
unfolding insert note_owner
note_role r none p = p
note_role r (some id) p = record p {
  node_id = insert r.id id p.node_id;
  owned_by = note_owner r.id r.owner_identity_id p.owned_by;
}

unfoldable pub note_urn : String → Option Uuid → Projection → Projection
unfolding insert
note_urn urn none p = p
note_urn urn (some id) p = record p { urn_node = insert urn id p.urn_node }

module _ (repo : GraphRepo) where
  -- A node whose entity is looked up by its identifier afterwards.
  unfoldable pub add_entity : Uuid → GraphNode → Projection → Projection
  unfolding note_node
  add_entity entity n p = note_node entity (repo.upsert_node p.calls n) (called n p)

  unfoldable pub add_identity : Projection → Identity → Projection
  unfolding add_entity
  add_identity p i = add_entity i.id (identity_node i) p

  unfoldable pub add_workload : Projection → Workload → Projection
  unfolding add_entity
  add_workload p w = add_entity w.id (workload_node w) p

  unfoldable pub add_role : Projection → Role → Projection
  unfolding note_role
  add_role p r = let n = role_node r in note_role r (repo.upsert_node p.calls n) (called n p)

  unfoldable pub upsert : Uuid → Uuid → String → Bool → Projection → Projection
  upsert src dst et observed p =
      let e : GraphEdge = record {
        id = nil_uuid;
        src_node_id = src;
        dst_node_id = dst;
        edge_type = et;
        weight = unit_weight;
        observed = observed;
        attributes = [];
      } in
      if src == nil_uuid || dst == nil_uuid then p else record p {
        calls = put_edge e ∷ p.calls;
        edges = if repo.upsert_edge p.calls e then p.edges + 1 else p.edges;
      }

  unfoldable pub add_trust : Projection → TrustEdge → Projection
  unfolding endpoint upsert capability_edge_type
  add_trust p t =
      upsert (endpoint p.node_id t.src_identity_id t.src_role_id)
        (endpoint p.node_id t.dst_role_id t.dst_identity_id) (capability_edge_type t.edge_type)
        t.observed p

  unfoldable pub add_binding : Projection → ResourceBinding → Projection
  unfolding endpoint upsert find_or
  add_binding p b =
      upsert (endpoint p.node_id b.identity_id b.role_id)
        (find_or nil_uuid b.resource_urn p.urn_node) "binds_to" false p

  unfoldable pub add_use : Projection → Workload → Projection
  unfolding upsert find_or
  add_use p w = elim w.identity_id [
    | none ↦ p
    | some i ↦
        upsert (find_or nil_uuid w.id p.node_id) (find_or nil_uuid i p.node_id) "uses" false p
  ]

  unfoldable pub add_permissions : Projection → Uuid × Uuid → Projection
  unfolding upsert find_or
  add_permissions p (role, owner) =
      upsert (find_or nil_uuid owner p.node_id) (find_or nil_uuid role p.node_id) "has_permissions"
        false p

  module _ (resource_id : String → Uuid) (urn_acct : Map String String) where
    unfoldable pub add_resource : Projection → String × Criticality → Projection
    unfolding note_urn resource_node
    add_resource p (urn, crit) =
        let n = resource_node resource_id urn_acct urn crit in
        note_urn urn (repo.upsert_node p.calls n) (called n p)

  -- The loops that write nodes, and those that write edges.
  unfoldable pub write_nodes : (String → Uuid) → Entities → Projection
  unfolding add_identity add_role raise_urn note_account add_resource add_workload
  write_nodes resource_id x =
      let urn_crit = foldl raise_urn [] x.bindings in
      let urn_acct = foldl note_account [] x.bindings in
      let p1 = foldl add_identity no_projection x.idents in
      let p2 = foldl add_role p1 x.roles in
      let p3 = foldl (add_resource resource_id urn_acct) p2 urn_crit in
      foldl add_workload p3 x.workloads

  unfoldable pub write_edges : Entities → Projection → Projection
  unfolding add_trust add_binding add_use
  write_edges x p =
      let p1 = foldl add_trust p x.trust in
      let p2 = foldl add_binding p1 x.bindings in foldl add_use p2 x.workloads

  unfoldable pub connect_owners : Projection → Projection
  unfolding add_permissions
  connect_owners p = foldl add_permissions p p.owned_by

  -- What follows the reads.
  unfoldable pub project : (String → Uuid) → Entities → Projection
  unfolding write_nodes write_edges connect_owners
  project resource_id x = connect_owners (write_edges x (write_nodes resource_id x))

  -- An error of a read ends the projection before it has written anything.
  unfoldable pub project_graph :
      (String → Uuid)
      → Option (List Identity)
      → Option (List Role)
      → Option (List ResourceBinding)
      → Option (List TrustEdge)
      → Option (List Workload)
      → Option Projection
  unfolding project
  project_graph resource_id idents roles bindings trust workloads = do
    i ← idents
    r ← roles
    b ← bindings
    t ← trust
    w ← workloads
    some (
        project resource_id
          (record { idents = i; roles = r; bindings = b; trust = t; workloads = w }))
