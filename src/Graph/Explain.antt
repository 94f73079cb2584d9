-- ===== src/Graph/Explain.antt =====
-- internal/graph/load.go: `PathStep`, `PathView`, `Explain` and `narrate`.
pub mod Labels
use identity_attack_graph.Prelude.{
  ℕ, suc, ◌+◌, ◌-◌, String, Bool, ◌&&◌, List, [], ◌∷◌, Option, some, none, length, get_elem?, ltb,
  if◌then◌else◌,
}
use identity_attack_graph.Prelude.Texts.{◌<>◌, decimal}
use identity_attack_graph.Models.{Uuid}
use identity_attack_graph.Graph.{Graph, Node, Edge, node}
use identity_attack_graph.Graph.AttackPaths.{AttackPath, last_node}

pub record PathStep : Type 0 where
  pub node : String
  pub kind : String
  pub criticality : String
  pub via : String

pub record PathView : Type 0 where
  pub rank : ℕ
  pub impact : String
  pub hops : ℕ
  pub narrative : String
  pub steps : List PathStep

-- The edge before the node at index `j`, where `j > 0 && j-1 < len(p.Edges)`.
unfoldable pub edge_before : List Edge → ℕ → Option Edge
edge_before edges j =
    if ltb 0 j && ltb (j - 1) (length edges) then get_elem? edges (j - 1) else none

-- The loop over `p.Edges` in `narrate`; `i` is its counter.
unfoldable pub via_text : ℕ → String → List Edge → String
via_text i via [] = via
via_text i via (e ∷ es) = via_text (suc i) ((if ltb 0 i then via <> " → " else via) <> e.kind) es

-- `uuid_text` is `uuid.UUID.String`, of another module.
module _ (uuid_text : Uuid → String) (g : Graph) where
  unfoldable pub label_of : Uuid → String
  label_of id = elim (node g id) [ some n ↦ n.label | none ↦ uuid_text id ]

  unfoldable pub path_step : List Edge → ℕ → Uuid → PathStep
  unfolding label_of edge_before
  path_step edges j id = record {
    node = label_of id;
    kind = elim (node g id) [ some n ↦ n.kind | none ↦ "" ];
    criticality = elim (node g id) [ some n ↦ n.criticality | none ↦ "" ];
    via = elim (edge_before edges j) [ some e ↦ e.kind | none ↦ "" ];
  }

  unfoldable pub path_steps : List Edge → ℕ → List Uuid → List PathStep
  unfolding path_step
  path_steps edges j [] = []
  path_steps edges j (id ∷ ids) = path_step edges j id ∷ path_steps edges (suc j) ids

  unfoldable pub narrate : AttackPath → String
  unfolding via_text label_of last_node decimal
  narrate p = elim p.nodes [
    | [] ↦ ""
    | first ∷ [] ↦ ""
    | first ∷ second ∷ rest ↦
        label_of first
        <> " can reach "
        <> label_of (last_node second rest)
        <> " ("
        <> p.impact
        <> ") in "
        <> decimal p.hops
        <> " hop(s) via "
        <> via_text 0 "" p.edges
        <> "."
  ]

  unfoldable pub explain_from : ℕ → List AttackPath → List PathView
  unfolding path_steps narrate
  explain_from i [] = []
  explain_from i (p ∷ ps) =
      record {
        rank = i + 1;
        impact = p.impact;
        hops = p.hops;
        narrative = narrate p;
        steps = path_steps p.edges 0 p.nodes;
      }
      ∷ explain_from (suc i) ps

  unfoldable pub explain : List AttackPath → List PathView
  unfolding explain_from
  explain = explain_from 0
