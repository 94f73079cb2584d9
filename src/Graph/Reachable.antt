-- ===== src/Graph/Reachable.antt =====
-- internal/graph/graph.go: `Reachable`.
pub mod Exact
use identity_attack_graph.Prelude.{ℕ, nat_eq, false, []}
use identity_attack_graph.Prelude.Map.{Map, insert}
use identity_attack_graph.Models.{Uuid}
use identity_attack_graph.Graph.{Graph, is_capability_edge}
use identity_attack_graph.Graph.Search.{Policy, run, start_search, enough_rounds}

-- The map is written when a node is pushed.
abbrev pub reach_policy : Policy (Unit {0}) (Map Uuid ℕ)
reach_policy = record {
  follows = is_capability_edge;
  extend = λ t e. t;
  on_push = λ out x. insert x.id x.hops out;
  on_pop = λ out x. (out, false);
}

unfoldable pub reachable : Graph → Uuid → ℕ → Map Uuid ℕ
unfolding run start_search enough_rounds insert is_capability_edge
reachable g start max_hops =
    (run reach_policy g max_hops (enough_rounds g) (start_search reach_policy start tt [])).acc
