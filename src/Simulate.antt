-- ===== src/Simulate.antt =====
-- internal/simulate/simulate.go: the narration of an attack path and the choice of the path to tell.
pub mod Story
pub mod Choice
use identity_attack_graph.Prelude.{
  ℕ, suc, String, ◌==◌, nat_eq, string_eq, Bool, true, false, ◌&&◌, ◌||◌, List, [], ◌∷◌, ◌++◌,
  Option, some, none, ltb, length, if◌then◌else◌,
}
use identity_attack_graph.Prelude.Texts.{◌<>◌, decimal}
use identity_attack_graph.Prelude.Pick.{pick}
use identity_attack_graph.Models.{Uuid, Criticality, crit_crown_jewel}
use identity_attack_graph.Graph.{Graph, Node, Edge, node}
use identity_attack_graph.Graph.AttackPaths.{AttackPath, last_node}
use identity_attack_graph.Graph.Explain.{edge_before}

pub record Step : Type 0 where
  pub index : ℕ
  pub actor : String
  pub node_type : String
  pub verb : String
  pub via : String
  pub criticality : Criticality

pub record Scenario : Type 0 where
  pub start_label : String
  pub end_label : String
  pub impact : Criticality
  pub hops : ℕ
  pub cross_cloud : Bool
  pub steps : List Step
  pub summary : String

unfoldable pub verb_for : String → String
verb_for edge_type =
    if edge_type == "assumes" || edge_type == "can_assume"
    then "assumes role"
    else if edge_type == "impersonates" || edge_type == "can_impersonate"
    then "impersonates"
    else if edge_type == "federated_from"
    then "federates into"
    else if edge_type == "binds_to"
    then "gains access to"
    else if edge_type == "has_permissions"
    then "wields the permissions of"
    else if edge_type == "uses"
    then "runs as"
    else if edge_type == "can_mint_token"
    then "mints a token for"
    else edge_type

-- The last actor of some steps, where there is one.
unfoldable pub end_of : String → List Step → String
end_of label [] = label
end_of label (s ∷ ss) = end_of s.actor ss

-- `uuid_text` is `uuid.UUID.String`, of another module.
module _ (uuid_text : Uuid → String) (g : Graph) where
  -- The step before its verb is set.
  unfoldable pub bare_step : ℕ → Uuid → Step
  bare_step j id = record {
    index = j;
    actor = elim (node g id) [ some n ↦ n.label | none ↦ uuid_text id ];
    node_type = elim (node g id) [ some n ↦ n.kind | none ↦ "" ];
    verb = "";
    via = "";
    criticality = elim (node g id) [ some n ↦ n.criticality | none ↦ "" ];
  }

  -- The body of the loop over `p.Nodes`.
  unfoldable pub narrate_node : List Edge → Scenario → ℕ → Uuid → Scenario
  unfolding bare_step edge_before verb_for
  narrate_node edges sc j id =
      let step = bare_step j id in
      if j == 0
      then record sc {
        start_label = step.actor;
        steps = sc.steps ++ record step { verb = "foothold" } ∷ [];
      }
      else elim (edge_before edges j) [
        | none ↦ record sc { steps = sc.steps ++ step ∷ [] }
        | some e ↦ record sc {
          cross_cloud = if e.kind == "federated_from" then true else sc.cross_cloud;
          steps = sc.steps ++ record step { via = e.kind; verb = verb_for e.kind } ∷ [];
        }
      ]

  unfoldable pub narrate_nodes : List Edge → Scenario → ℕ → List Uuid → Scenario
  unfolding narrate_node
  narrate_nodes edges sc j [] = sc
  narrate_nodes edges sc j (id ∷ ids) = narrate_nodes edges (narrate_node edges sc j id) (suc j) ids

  unfoldable pub narrate_path : AttackPath → Scenario
  unfolding narrate_nodes end_of decimal
  narrate_path p =
      let empty : Scenario = record {
        start_label = "";
        end_label = "";
        impact = p.impact;
        hops = p.hops;
        cross_cloud = false;
        steps = [];
        summary = "";
      } in
      let told = narrate_nodes p.edges empty 0 p.nodes in
      let ended = record told { end_label = end_of told.end_label told.steps } in
      if ltb 1 (length ended.steps)
      then record ended {
        summary =
            ended.start_label
            <> " → "
            <> ended.end_label
            <> " ("
            <> p.impact
            <> ") in "
            <> decimal p.hops
            <> " hop(s)";
      }
      else ended

unfoldable pub best_path : List AttackPath → Option AttackPath
best_path [] = none
best_path (p ∷ ps) = some p

-- The path has nodes, and the last is a crown-jewel resource of the graph.
unfoldable pub ends_at_crown : Graph → AttackPath → Bool
unfolding last_node
ends_at_crown g p = elim p.nodes [
  | [] ↦ false
  | first ∷ rest ↦ elim (node g (last_node first rest)) [
    | none ↦ false
    | some last ↦ last.kind == "resource" && last.criticality == crit_crown_jewel
  ]
]

abbrev pub longer : AttackPath → AttackPath → Bool
longer a b = ltb b.hops a.hops

unfoldable pub most_illustrative : Graph → List AttackPath → Option AttackPath
unfolding pick ends_at_crown best_path
most_illustrative g paths = elim (pick (ends_at_crown g) longer none paths) [
  | some best ↦ some best
  | none ↦ best_path paths
]
