-- ===== src/Graph/BlastRadius.antt =====
-- internal/graph/graph.go: `BlastRadius` and `ComputeBlastRadius`.
pub mod AnyOrder
pub mod Exact
pub mod Counts
use identity_attack_graph.Prelude.{
  ℕ, ◌+◌, String, ◌==◌, string_eq, Bool, true, false, ◌&&◌, ◌||◌, List, some, none, foldl,
  if◌then◌else◌,
}
use identity_attack_graph.Prelude.Int.{ℤ, pos, negsuc, ltb_ℤ, beq_ℤ}
use identity_attack_graph.Models.{Uuid, crit_high, crit_crown_jewel}
use identity_attack_graph.Graph.{Graph, Node, node, is_privileged}
use identity_attack_graph.Graph.Reachable.{reachable}

pub record BlastRadius : Type 0 where
  pub reachable_resources : ℕ
  pub high_crit_count : ℕ
  pub crown_jewel_count : ℕ
  pub nearest_crown_jewel : ℤ
  pub reaches_admin : Bool

-- `BlastRadius{NearestCrownJewel: -1}`
abbrev pub no_radius : BlastRadius
no_radius = record {
  reachable_resources = 0;
  high_crit_count = 0;
  crown_jewel_count = 0;
  nearest_crown_jewel = negsuc 0;
  reaches_admin = false;
}

-- The two switches of the loop's body.
unfoldable pub roll_node : BlastRadius → Node → ℕ → BlastRadius
unfolding is_privileged
roll_node br n hops =
    if n.kind == "resource"
    then (let counted = record br { reachable_resources = br.reachable_resources + 1 } in
        if n.criticality == crit_crown_jewel
        then record counted {
          crown_jewel_count = counted.crown_jewel_count + 1;
          nearest_crown_jewel =
              if beq_ℤ counted.nearest_crown_jewel (negsuc 0)
                || ltb_ℤ (pos hops) counted.nearest_crown_jewel
              then pos hops
              else counted.nearest_crown_jewel;
        }
        else if n.criticality == crit_high
        then record counted { high_crit_count = counted.high_crit_count + 1 }
        else counted)
    else if n.kind == "role" && is_privileged n
    then record br { reaches_admin = true }
    else br

unfoldable pub roll : Graph → BlastRadius → Uuid × ℕ → BlastRadius
unfolding node roll_node
roll g br (id, hops) = elim (node g id) [ none ↦ br | some n ↦ roll_node br n hops ]

-- The loop, over the entries of the map in the order in which `range` delivers them.
unfoldable pub roll_up : Graph → List (Uuid × ℕ) → BlastRadius
unfolding roll
roll_up g = foldl (roll g) no_radius

unfoldable pub compute_blast_radius : Graph → Uuid → ℕ → BlastRadius
unfolding roll_up reachable
compute_blast_radius g start max_hops = roll_up g (reachable g start max_hops)
