-- ===== src/Graph/AttackPaths.antt =====
-- internal/graph/graph.go: `Path` (here `AttackPath`), `targetImpact` and `AttackPaths`.
pub mod Chains
pub mod Targets
pub mod Order
pub mod Ranked
use identity_attack_graph.Prelude.{
  ℕ, ◌*◌, String, ◌==◌, nat_eq, string_eq, Bool, true, false, ◌&&◌, ◌||◌, not, List, [], ◌∷◌, ◌++◌,
  some, none, length, take, ltb, leb, if◌then◌else◌,
}
unfoldable use identity_attack_graph.Prelude.{contains}
use identity_attack_graph.Prelude.Sort.{slice_stable}
use identity_attack_graph.Models.{
  Uuid, Criticality, crit_low, crit_high, crit_crown_jewel, criticality_rank,
}
use identity_attack_graph.Graph.{Graph, Node, Edge, node, is_capability_edge, is_privileged}
use identity_attack_graph.Graph.Search.{Policy, Item, run, start_search, enough_rounds}

pub record AttackPath : Type 0 where
  pub nodes : List Uuid
  pub edges : List Edge
  pub impact : Criticality
  pub hops : ℕ

unfoldable pub target_impact : Node → Criticality × Bool
unfolding is_privileged
target_impact n =
    if n.kind == "resource" && (n.criticality == crit_crown_jewel || n.criticality == crit_high)
    then (n.criticality, true)
    else if n.kind == "role" && is_privileged n
    then (crit_crown_jewel, true)
    else (crit_low, false)

-- The fields `path` and `edges` of a `state`.
pub record Trail : Type 0 where
  pub path : List Uuid
  pub edges : List Edge

-- The variables that the loop writes beside the queue and `visited`.
pub record Gathered : Type 0 where
  pub results : List AttackPath
  pub visited_target : List Uuid

unfoldable pub path_of : Item Trail → Criticality → AttackPath
path_of c impact = record {
  nodes = c.trail.path;
  edges = c.trail.edges;
  impact = impact;
  hops = c.hops;
}

-- The first `if` of the loop's body; the flag is set by its `break`.
unfoldable pub gather : Graph → Uuid → ℕ → Gathered → Item Trail → Gathered × Bool
unfolding node target_impact path_of contains
gather g start limit a c = elim (node g c.id) [
  | none ↦ (a, false)
  | some n ↦
      let (impact, is_target) = target_impact n in
      let results = a.results ++ path_of c impact ∷ [] in
      if not (c.id == start) && (is_target && not (contains a.visited_target c.id))
      then (
        record { results = results; visited_target = c.id ∷ a.visited_target },
        leb (limit * 3) (length results),
      )
      else (a, false)
]

abbrev pub attack_policy : Graph → Uuid → ℕ → Policy Trail Gathered
attack_policy g start limit = record {
  follows = is_capability_edge;
  extend = λ t e. record { path = t.path ++ e.dst ∷ []; edges = t.edges ++ e ∷ [] };
  on_push = λ a x. a;
  on_pop = gather g start limit;
}

-- The node at which a path ends.
unfoldable pub last_node : Uuid → List Uuid → Uuid
last_node id [] = id
last_node id (next ∷ ids) = last_node next ids

-- The order that `sort.SliceStable` is given.
unfoldable pub before : AttackPath → AttackPath → Bool
unfolding criticality_rank
before a b =
    let ri = criticality_rank a.impact in
    let rj = criticality_rank b.impact in if nat_eq.beq ri rj then ltb a.hops b.hops else ltb rj ri

unfoldable pub attack_paths : Graph → Uuid → ℕ → ℕ → List AttackPath
unfolding run start_search enough_rounds is_capability_edge gather before slice_stable
attack_paths g start max_hops limit =
    let p = attack_policy g start limit in
    let trail : Trail = record { path = start ∷ []; edges = [] } in
    let found =
      (run p g max_hops (enough_rounds g)
        (start_search p start trail (record { results = []; visited_target = [] }))).acc.results in
    let results = slice_stable before found in
    if ltb limit (length results) then take limit results else results
