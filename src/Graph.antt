-- ===== src/Graph.antt =====
-- internal/graph/graph.go and load.go: the graph, its construction and its queries.
pub mod Build
pub mod Search
pub mod Reachable
pub mod TrustDepth
pub mod AttackPaths
pub mod BlastRadius
pub mod Explain
pub mod Percentile
use identity_attack_graph.Prelude.{
  ℕ, String, ◌==◌, nat_eq, string_eq, Bool, true, false, not, ◌||◌, List, [], ◌∷◌, ◌++◌, Option,
  none, some, foldl, length, if◌then◌else◌,
}
unfoldable use identity_attack_graph.Prelude.{contains}
use identity_attack_graph.Prelude.Map.{Map, find, insert, find_or}
use identity_attack_graph.Models.{
  Uuid, nil_uuid, FloatBits, Any, Attributes, Criticality, crit_low, crit_high, crit_crown_jewel,
  GraphNode, GraphEdge,
}

pub record Node : Type 0 where
  pub id : Uuid
  pub entity_id : Uuid
  pub kind : String
  pub label : String
  pub criticality : Criticality
  pub attributes : Attributes

pub record Edge : Type 0 where
  pub src : Uuid
  pub dst : Uuid
  pub kind : String
  pub weight : FloatBits
  pub observed : Bool
  pub attributes : Attributes

pub record Graph : Type 0 where
  pub nodes : Map Uuid Node
  pub out : Map Uuid (List Edge)
  pub inn : Map Uuid (List Edge)
  pub by_entity : Map Uuid Uuid

abbrev pub new : Graph
new = record { nodes = []; out = []; inn = []; by_entity = [] }

unfoldable pub add_node : Graph → Node → Graph
add_node g n = record g {
  nodes = insert n.id n g.nodes;
  by_entity = if n.entity_id == nil_uuid then g.by_entity else insert n.entity_id n.id g.by_entity;
}

unfoldable pub add_edge : Graph → Edge → Graph
add_edge g e = record g {
  out = insert e.src (find_or [] e.src g.out ++ e ∷ []) g.out;
  inn = insert e.dst (find_or [] e.dst g.inn ++ e ∷ []) g.inn;
}

unfoldable pub node_id_for_entity : Graph → Uuid → Option Uuid
node_id_for_entity g entity = find entity g.by_entity

unfoldable pub node : Graph → Uuid → Option Node
node g id = find id g.nodes

unfoldable pub node_count : Graph → ℕ
node_count g = length g.nodes

-- `g.out[id]` and `g.in[id]`
unfoldable pub out_of : Graph → Uuid → List Edge
out_of g id = find_or [] id g.out

unfoldable pub in_of : Graph → Uuid → List Edge
in_of g id = find_or [] id g.inn

unfoldable pub is_capability_edge : String → Bool
unfolding contains
is_capability_edge t =
    contains
      ("uses" ∷ "assumes" ∷ "impersonates" ∷ "can_mint_token" ∷ "binds_to" ∷ "references"
        ∷ "federated_from" ∷ "has_permissions" ∷ [])
      t

unfoldable pub is_trust_edge : String → Bool
unfolding contains
is_trust_edge t = contains ("assumes" ∷ "impersonates" ∷ "federated_from" ∷ "can_mint_token" ∷ []) t

-- `lvl, _ := attrs[key].(string)`: the zero value where the entry is missing or no string.
unfoldable pub string_attribute : String → Attributes → String
unfolding find
string_attribute key attrs = elim (find key attrs) [
  | some v ↦ elim v [ Any.text s ↦ s | _ ↦ "" ]
  | none ↦ ""
]

-- `lvl == "admin" || lvl == "privileged"` on the privilege level of a role
unfoldable pub is_privileged : Node → Bool
unfolding string_attribute
is_privileged n =
    let lvl = string_attribute "privilege_level" n.attributes in
    (lvl == "admin" || lvl == "privileged")

-- The first loop of `FromModels`.
unfoldable pub node_of_model : GraphNode → Node
node_of_model n = record {
  id = n.id;
  entity_id = elim n.entity_id [ some e ↦ e | none ↦ nil_uuid ];
  kind = n.node_type;
  label = n.label;
  criticality = n.criticality;
  attributes = n.attributes;
}

unfoldable pub edge_of_model : GraphEdge → Edge
edge_of_model e = record {
  src = e.src_node_id;
  dst = e.dst_node_id;
  kind = e.edge_type;
  weight = e.weight;
  observed = e.observed;
  attributes = e.attributes;
}

unfoldable pub load_nodes : Graph → List GraphNode → Graph
unfolding add_node node_of_model
load_nodes g ns = foldl (λ h n. add_node h (node_of_model n)) g ns

unfoldable pub load_edges : Graph → List GraphEdge → Graph
unfolding add_edge edge_of_model
load_edges g es = foldl (λ h e. add_edge h (edge_of_model e)) g es

unfoldable pub from_models : List GraphNode → List GraphEdge → Graph
unfolding load_nodes load_edges
from_models nodes edges = load_edges (load_nodes new nodes) edges
