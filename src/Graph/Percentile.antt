-- ===== src/Graph/Percentile.antt =====
-- internal/graph/load.go: `percentile` and `ReachableCountP90`.
pub mod Rank
use identity_attack_graph.Prelude.{
  ℕ, zero, suc, ◌-◌, String, ◌==◌, string_eq, Bool, List, [], ◌∷◌, ◌++◌, Option, some, none, ltb,
  leb, length, get_elem?, if◌then◌else◌,
}
use identity_attack_graph.Models.{Uuid}
use identity_attack_graph.Graph.{Graph, Node}
use identity_attack_graph.Graph.BlastRadius.{compute_blast_radius}

-- The inner loop, with `vals[i]` first: what stands in `vals[i]` after it, and the rest.
unfoldable pub exchange : ℕ → List ℕ → ℕ × List ℕ
exchange x [] = (x, [])
exchange x (y ∷ ys) =
    let lower = exchange y ys in
    let kept = exchange x ys in if ltb y x then (lower.0, x ∷ lower.1) else (kept.0, y ∷ kept.1)

-- The outer loop, for the given number of rounds.
unfoldable pub exchange_sort : ℕ → List ℕ → List ℕ
unfolding exchange
exchange_sort zero xs = xs
exchange_sort (suc n) [] = []
exchange_sort (suc n) (x ∷ xs) = let (least, rest) = exchange x xs in least ∷ exchange_sort n rest

-- `nearest` is `int(p*float64(k) + 0.5)`, as a function of k.
unfoldable pub percentile : (ℕ → ℕ) → List ℕ → ℕ
unfolding exchange_sort
percentile nearest [] = 0
percentile nearest (x ∷ xs) =
    let vals = exchange_sort (length (x ∷ xs)) (x ∷ xs) in
    let idx = nearest (length vals - 1) in
    let idx' = if leb (length vals) idx then length vals - 1 else idx in
    elim (get_elem? vals idx') [ some v ↦ v | none ↦ 0 ]

-- The loop over the nodes, in an order in which `range` may deliver them.
unfoldable pub identity_counts : Graph → ℕ → List (Uuid × Node) → List ℕ
unfolding compute_blast_radius
identity_counts g max_hops [] = []
identity_counts g max_hops ((id, n) ∷ ns) =
    let rest = identity_counts g max_hops ns in
    if n.kind == "identity"
    then (compute_blast_radius g id max_hops).reachable_resources ∷ rest
    else rest

unfoldable pub reachable_count_p90 : (ℕ → ℕ) → Graph → ℕ → ℕ
unfolding percentile identity_counts
reachable_count_p90 nearest g max_hops = percentile nearest (identity_counts g max_hops g.nodes)
