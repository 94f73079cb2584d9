-- ===== src/Graph/TrustDepth.antt =====
-- internal/graph/graph.go: `TrustChainDepth`.
pub mod Greatest
use identity_attack_graph.Prelude.{ℕ, Bool, false, ltb, if◌then◌else◌}
use identity_attack_graph.Models.{Uuid}
use identity_attack_graph.Graph.{Graph, is_trust_edge}
use identity_attack_graph.Graph.Search.{Policy, Item, run, start_search, enough_rounds}

-- `if cur.hops > depth { depth = cur.hops }`
abbrev pub deepen : ℕ → Item (Unit {0}) → ℕ × Bool
deepen depth x = (if ltb depth x.hops then x.hops else depth, false)

abbrev pub trust_policy : Policy (Unit {0}) ℕ
trust_policy = record {
  follows = is_trust_edge;
  extend = λ t e. t;
  on_push = λ depth x. depth;
  on_pop = deepen;
}

unfoldable pub trust_chain_depth : Graph → Uuid → ℕ → ℕ
unfolding run start_search enough_rounds is_trust_edge
trust_chain_depth g start max_hops =
    (run trust_policy g max_hops (enough_rounds g) (start_search trust_policy start tt 0)).acc
