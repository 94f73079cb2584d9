-- ===== src/Tests/Graphs.antt =====
-- A small graph: a service account that assumes a role, which reads a database and impersonates an
-- administrator.
use identity_attack_graph.Graph.Percentile.{percentile}
use identity_attack_graph.Graph.Percentile.Rank.{how_many, place, percentile_rank}
use identity_attack_graph.Prelude.{◌/◌, leb}
use mathlib.Core.List.{Perm, Permᴰ}
use identity_attack_graph.Prelude.{
  ℕ, ◌+◌, ◌*◌, nat_eq, string_eq, String, ◌≡◌, ◌≢◌, ◌≤◌, ◌<◌, ◌↔◌, ◌⊎◌, refl, true, List, [], ◌∷◌,
  Memᴰ, some, none, arith, length, ltb,
}
use identity_attack_graph.Prelude.Map.{find, find_or}
use identity_attack_graph.Prelude.Pairs.{Pairs}
use identity_attack_graph.Models.{Uuid, nil_uuid, GraphNode, GraphEdge, Criticality, Any}
use identity_attack_graph.Graph.{
  Graph, is_capability_edge, is_trust_edge, from_models, out_of, in_of, node, node_id_for_entity,
  node_of_model,
}
use identity_attack_graph.Graph.Build.{
  from_models_adjacency, from_models_nodes, loaded_of, leaves, enters, last_with, node_with,
  entity_with,
}
use identity_attack_graph.Graph.Search.{run, start_search, enough_rounds}
use identity_attack_graph.Graph.Search.Walk.{IsDistance}
use identity_attack_graph.Graph.Search.Termination.{start_ends}
use identity_attack_graph.Graph.Reachable.{reachable, reach_policy}
use identity_attack_graph.Graph.Reachable.Exact.{reachable_exact}
use identity_attack_graph.Graph.TrustDepth.{trust_chain_depth}
use identity_attack_graph.Graph.TrustDepth.Greatest.{trust_chain_depth_greatest}
use identity_attack_graph.Graph.AttackPaths.{AttackPath, attack_paths, target_impact}
use identity_attack_graph.Graph.AttackPaths.Chains.{IsRoute}
use identity_attack_graph.Graph.AttackPaths.Targets.{IsTarget, EndApart}
use identity_attack_graph.Graph.AttackPaths.Order.{Ranked}
use identity_attack_graph.Graph.AttackPaths.Ranked.{
  IsAttackPath, attack_paths_sound, attack_paths_complete,
}
use identity_attack_graph.Graph.BlastRadius.{roll_up, compute_blast_radius}
use identity_attack_graph.Graph.BlastRadius.Exact.{Within, IsCrownJewel, nearest_exact}
use identity_attack_graph.Graph.BlastRadius.AnyOrder.{roll_up_any_order}
use identity_attack_graph.Graph.BlastRadius.Counts.{
  count, is_resource, is_crown_jewel, is_high, is_admin_role, roll_up_counts,
}
use identity_attack_graph.Prelude.Int.{pos, negsuc}
use mathlib.Core.Option

abbrev plain : Uuid → String → Criticality → GraphNode
plain id kind criticality = record {
  id = id;
  node_type = kind;
  entity_id = some (id + 100);
  account_ref = "";
  label = kind;
  criticality = criticality;
  attributes = [];
}

abbrev pub arrow : Uuid → String → Uuid → GraphEdge
arrow src kind dst = record {
  id = src * 10 + dst;
  src_node_id = src;
  dst_node_id = dst;
  edge_type = kind;
  weight = 0;
  observed = true;
  attributes = [];
}

abbrev pub world_nodes : List GraphNode
world_nodes =
    plain 1 "identity" "low"
    ∷ plain 2 "role" "low"
    ∷ plain 3 "resource" "crown_jewel"
    ∷ record (plain 4 "role" "low") { attributes = ("privilege_level", Any.text "admin") ∷ [] }
    ∷ plain 5 "resource" "high"
    ∷ []

abbrev pub world_edges : List GraphEdge
world_edges =
    arrow 1 "assumes" 2
    ∷ arrow 2 "has_permissions" 3
    ∷ arrow 2 "impersonates" 4
    ∷ arrow 1 "owned_by" 5
    ∷ arrow 4 "binds_to" 5
    ∷ arrow 4 "assumes" 1
    ∷ []

abbrev pub world : Graph
world = from_models world_nodes world_edges

program : Unit {0}
unfolding from_models reachable trust_chain_depth attack_paths node
program = tt

runs :
    (find 3 (reachable world 1 8) ≡ some 2)
    × (find 5 (reachable world 1 2) ≡ none)
    × (trust_chain_depth world 1 6 ≡ 2)
    × (length (attack_paths world 1 6 10) ≡ 3)
unfolding program find find_or
runs = (refl, refl, refl, refl)

reachable_exact_example :
    (find 3 (reachable world 1 8) ≡ some 2)
    ↔ ((0 < 2) × (2 ≤ 8) × IsDistance world is_capability_edge 1 2 3)
reachable_exact_example = reachable_exact world 1 8 3 2

three_paths : length (attack_paths world 1 6 10) ≡ 3
three_paths = runs.3

found_resource : find 3 (reachable world 1 8) ≡ some 2
found_resource = runs.0

attack_paths_sound_example :
    ((p : AttackPath) → Memᴰ p (attack_paths world 1 6 10) → IsAttackPath world 1 6 10 p)
    × Pairs (EndApart 1) (attack_paths world 1 6 10)
    × Ranked (attack_paths world 1 6 10)
    × (length (attack_paths world 1 6 10) ≤ 10)
attack_paths_sound_example = attack_paths_sound world 1 6 10

database : IsTarget world 1 3 "crown_jewel"
unfolding program find target_impact
database = record {
  info = node_of_model (plain 3 "resource" "crown_jewel");
  here = refl;
  accepted = refl;
  elsewhere = omega arith;
}

attack_paths_complete_example :
    (p : AttackPath) × Memᴰ p (attack_paths world 1 6 10)
    × IsRoute world 1 3 p.nodes p.edges p.hops
    × (p.hops ≡ 2)
    × (p.impact ≡ "crown_jewel")
attack_paths_complete_example =
    attack_paths_complete world 1 6 10 (omega (arith, three_paths)) 3 2 "crown_jewel" database
      (reachable_exact_example.0 found_resource).2 (omega arith)

trust_chain_depth_greatest_example :
    ((v : Uuid) × IsDistance world is_trust_edge 1 (trust_chain_depth world 1 6) v
      × (trust_chain_depth world 1 6 ≤ 6))
    × ((n : ℕ) (v : Uuid)
        → IsDistance world is_trust_edge 1 n v
        → n ≤ 6
        → n ≤ trust_chain_depth world 1 6)
trust_chain_depth_greatest_example = trust_chain_depth_greatest world 1 6

nearest_exact_example :
    let z = (compute_blast_radius world 1 8).nearest_crown_jewel in
    (z ≡ negsuc 0) × ((v : Uuid) (n : ℕ) → Within world 1 8 v n → ¬ IsCrownJewel world v)
    ⊎ ((v : Uuid) × (n : ℕ) × Within world 1 8 v n
        × IsCrownJewel world v
        × (z ≡ pos n)
        × ((w : Uuid) (m : ℕ) → Within world 1 8 w m → IsCrownJewel world w → n ≤ m))
nearest_exact_example = nearest_exact world 1 8

abbrev entries : List (Uuid × ℕ)
entries = (2, 1) ∷ (3, 2) ∷ (4, 2) ∷ (5, 3) ∷ []

abbrev shuffled : List (Uuid × ℕ)
shuffled = (3, 2) ∷ (2, 1) ∷ (4, 2) ∷ (5, 3) ∷ []

roll_up_counts_example :
    ((roll_up world entries).reachable_resources ≡ count world is_resource entries)
    × ((roll_up world entries).crown_jewel_count ≡ count world is_crown_jewel entries)
    × ((roll_up world entries).high_crit_count ≡ count world is_high entries)
    × ((roll_up world entries).reaches_admin ≡ ltb 0 (count world is_admin_role entries))
roll_up_counts_example = roll_up_counts world entries

shuffled-Perm : Perm entries shuffled
shuffled-Perm = ∣ Permᴰ.swap refl refl ∣₁

roll_up_any_order_example : roll_up world entries ≡ roll_up world shuffled
roll_up_any_order_example = roll_up_any_order world entries shuffled shuffled-Perm

start_ends_example :
    let s = run reach_policy world 8 (enough_rounds world) (start_search reach_policy 1 tt []) in
    (s.queue ≡ []) ⊎ (s.halted ≡ true)
start_ends_example = start_ends reach_policy world 8 1 tt []

from_models_adjacency_example :
    (out_of world 2 ≡ loaded_of (leaves 2) world_edges)
    × (in_of world 2 ≡ loaded_of (enters 2) world_edges)
from_models_adjacency_example = from_models_adjacency 2 world_nodes world_edges

from_models_nodes_example :
    (node world 3 ≡ Option.map node_of_model (last_with (node_with 3) world_nodes))
    × (◌≢◌ {A = Uuid} 3 nil_uuid
        → node_id_for_entity world 3
          ≡ Option.map (λ (n : GraphNode). n.id) (last_with (entity_with 3) world_nodes))
from_models_nodes_example = from_models_nodes world_nodes world_edges 3

abbrev halfway : ℕ → ℕ
halfway k = (k + 1) / 2

abbrev counts : List ℕ
counts = 5 ∷ 1 ∷ 4 ∷ 1 ∷ []

percentile_rank_example :
    (how_many (λ y. ltb y (percentile halfway counts)) counts ≤ place halfway 4)
    × (place halfway 4 < how_many (λ y. leb y (percentile halfway counts)) counts)
percentile_rank_example = percentile_rank halfway counts (omega arith)
