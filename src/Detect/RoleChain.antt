-- ===== src/Detect/RoleChain.antt =====
-- internal/detect/rolechain.go: the choice of the chain that `suspicious_role_chain` reports.
pub mod Deepest
use identity_attack_graph.Prelude.{
  ℕ, suc, String, ◌==◌, nat_eq, Bool, ◌&&◌, ◌||◌, List, [], ◌∷◌, map, Option, none, ltb, leb,
  if◌then◌else◌,
}
use identity_attack_graph.Prelude.Pick.{pick}
use identity_attack_graph.Models.{criticality_rank, UsageEvent}
use identity_attack_graph.Graph.{Edge, is_trust_edge}
use identity_attack_graph.Graph.AttackPaths.{AttackPath}

unfoldable pub count_trust_edges : List Edge → ℕ
unfolding is_trust_edge
count_trust_edges [] = 0
count_trust_edges (e ∷ es) =
    let n = count_trust_edges es in if is_trust_edge e.kind then suc n else n

unfoldable pub better_chain : AttackPath → AttackPath → Bool
unfolding criticality_rank
better_chain a b =
    let ra = criticality_rank a.impact in
    let rb = criticality_rank b.impact in if ra == rb then ltb b.hops a.hops else ltb rb ra

-- Not `p.Hops < 2 || countTrustEdges(p.Edges) < 1`.
unfoldable pub is_chain : AttackPath → Bool
unfolding count_trust_edges
is_chain p = leb 2 p.hops && leb 1 (count_trust_edges p.edges)

unfoldable pub deepest_trust_chain : List AttackPath → Option AttackPath
unfolding pick is_chain better_chain
deepest_trust_chain = pick is_chain better_chain none

unfoldable pub edge_sequence : List Edge → List String
edge_sequence = map (λ (e : Edge). e.kind)

-- `lower` is `strings.ToLower` and `has` is `strings.Contains`.
unfoldable pub observed_pivot_count :
    (String → String) → (String → String → Bool) → List UsageEvent → ℕ
observed_pivot_count lower has [] = 0
observed_pivot_count lower has (u ∷ us) =
    let n = observed_pivot_count lower has us in
    let name = lower u.event_name in
    if has name "assumerole" || (has name "impersonate" || has name "generateaccesstoken")
    then suc n
    else n
