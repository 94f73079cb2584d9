-- ===== src/Tests/Reports.antt =====
-- What is told and reported of the paths of the small graph.
use identity_attack_graph.Prelude.{
  ℕ, ◌+◌, ◌==◌, nat_eq, string_eq, String, ◌≡◌, ◌≤◌, ◌⊎◌, refl, true, false, List, [], ◌∷◌, Memᴰ,
  map, some, none, arith, length, ◌<◌,
}
use identity_attack_graph.Prelude.Pairs.{Pairs}
use identity_attack_graph.Models.{Uuid, Finding}
use identity_attack_graph.Graph.{Graph, Edge, edge_of_model, out_of}
use identity_attack_graph.Graph.AttackPaths.{AttackPath}
use identity_attack_graph.Graph.AttackPaths.Chains.{IsRoute}
use identity_attack_graph.Graph.Explain.{PathStep, path_steps, label_of}
use identity_attack_graph.Graph.Explain.Labels.{kinds, steps_of_route}
use identity_attack_graph.Simulate.{narrate_path, verb_for, most_illustrative}
use identity_attack_graph.Simulate.Story.{verbs, federates, narrate_path_of_route}
use identity_attack_graph.Simulate.Choice.{EndsAtCrown, IsTold, most_illustrative_lem}
use identity_attack_graph.Detect.Engine.{run_engine}
use identity_attack_graph.Detect.Engine.Deduped.{
  BySeverity, Differ, all_findings, kept_as, key, run_engine_deduped,
}
use identity_attack_graph.Detect.RoleChain.{deepest_trust_chain, count_trust_edges, is_chain}
use identity_attack_graph.Detect.RoleChain.Deepest.{NoDeeper, deepest_trust_chain_lem}
use identity_attack_graph.Tests.Graphs.{world, arrow}

abbrev shown : Uuid → String
shown u = "node"

abbrev first_edge : Edge
first_edge = edge_of_model (arrow 1 "assumes" 2)

abbrev second_edge : Edge
second_edge = edge_of_model (arrow 2 "has_permissions" 3)

abbrev to_database : AttackPath
to_database = record {
  nodes = 1 ∷ 2 ∷ 3 ∷ [];
  edges = first_edge ∷ second_edge ∷ [];
  impact = "crown_jewel";
  hops = 2;
}

program : Unit {0}
unfolding identity_attack_graph.Graph.from_models out_of identity_attack_graph.Prelude.Map.find_or
    identity_attack_graph.Prelude.Map.insert identity_attack_graph.Graph.is_capability_edge
program = tt

to_database-IsRoute : IsRoute world 1 3 (1 ∷ 2 ∷ 3 ∷ []) (first_edge ∷ second_edge ∷ []) 2
unfolding program
to_database-IsRoute = record {
  chain = (
    record { listed = Memᴰ.head refl; followed = refl },
    (record { listed = Memᴰ.head refl; followed = refl }, refl),
  );
  nodes_eq = refl;
  hops_eq = refl;
}

steps_of_route_example :
    let steps = path_steps shown world (first_edge ∷ second_edge ∷ []) 0 (1 ∷ 2 ∷ 3 ∷ []) in
    (map (λ (s : PathStep). s.node) steps ≡ map (label_of shown world) (1 ∷ 2 ∷ 3 ∷ []))
    × (map (λ (s : PathStep). s.via) steps ≡ "" ∷ kinds (first_edge ∷ second_edge ∷ []))
    × (length steps ≡ 2 + 1)
steps_of_route_example =
    steps_of_route shown world 1 3 (1 ∷ 2 ∷ 3 ∷ []) (first_edge ∷ second_edge ∷ []) 2
      to_database-IsRoute

narrate_path_of_route_example :
    let sc = narrate_path shown world to_database in
    (verbs sc.steps ≡ "foothold" ∷ map verb_for (kinds to_database.edges))
    × (length sc.steps ≡ 2 + 1)
    × (sc.cross_cloud ≡ federates to_database.edges)
narrate_path_of_route_example =
    narrate_path_of_route shown world 1 3 to_database to_database-IsRoute

most_illustrative_example :
    ((b : AttackPath) × (most_illustrative world (to_database ∷ []) ≡ some b)
      × IsTold world (to_database ∷ []) b)
    ⊎ ((p : AttackPath) → Memᴰ p (to_database ∷ []) → ¬ EndsAtCrown world p)
      × (((to_database ∷ [] ≡ []) × (most_illustrative world (to_database ∷ []) ≡ none))
          ⊎ ((p : AttackPath) × (rest : List AttackPath) × (to_database ∷ [] ≡ p ∷ rest)
              × (most_illustrative world (to_database ∷ []) ≡ some p)))
most_illustrative_example = most_illustrative_lem world (to_database ∷ [])

abbrev stale : Finding
stale = record {
  detector = "stale_identity";
  category = "hygiene";
  severity = "low";
  confidence = 80;
  identity_id = some 1;
  title = "";
  narrative = "";
  evidence = [];
  fingerprint = "";
  status = "open";
  first_seen_at = 0;
  last_seen_at = 0;
}

abbrev leaked : Finding
leaked = record stale { detector = "secret_exposed_in_repo"; severity = "critical" }

abbrev found : List (List Finding)
found = (stale ∷ []) ∷ (leaked ∷ stale ∷ []) ∷ []

abbrev same_text : String → String
same_text s = s

run_engine_deduped_example :
    let out = run_engine same_text shown 5 found in
    BySeverity out
    × Pairs Differ out
    × ((f : Finding)
        → Memᴰ f out
        → (e : Finding) × Memᴰ e (all_findings found) × (f ≡ kept_as same_text shown 5 e))
    × ((e : Finding)
        → Memᴰ e (all_findings found)
        → (f : Finding) × Memᴰ f out × (f.fingerprint ≡ key same_text shown 5 e))
run_engine_deduped_example = run_engine_deduped same_text shown 5 found

deepest_trust_chain_example :
    ((deepest_trust_chain (to_database ∷ []) ≡ none)
      × ((p : AttackPath)
          → Memᴰ p (to_database ∷ [])
          → (p.hops < 2) ⊎ (count_trust_edges p.edges ≡ 0)))
    ⊎ ((b : AttackPath) × (deepest_trust_chain (to_database ∷ []) ≡ some b)
        × Memᴰ b (to_database ∷ [])
        × (2 ≤ b.hops)
        × (1 ≤ count_trust_edges b.edges)
        × ((p : AttackPath) → Memᴰ p (to_database ∷ []) → is_chain p ≡ true → NoDeeper p b))
deepest_trust_chain_example = deepest_trust_chain_lem (to_database ∷ [])
