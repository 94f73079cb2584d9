-- ===== src/Graph/Search.antt =====
-- internal/graph/graph.go: the queue loop that `Reachable`, `TrustChainDepth` and `AttackPaths`
-- share, over what differs between them: the edges that are followed, what a queue entry carries
-- beside a node and its hops, and what is recorded when an entry is pushed or popped.
pub mod Walk
pub mod Invariant
pub mod Step
pub mod Round
pub mod Termination
pub mod Sound
pub mod Complete
use identity_attack_graph.Prelude.{
  ℕ, zero, suc, ◌+◌, String, nat_eq, Bool, true, false, not, ◌&&◌, List, [], ◌∷◌, ◌++◌, foldl,
  length, leb, if◌then◌else◌,
}
unfoldable use identity_attack_graph.Prelude.{contains}
use identity_attack_graph.Models.{Uuid}
use identity_attack_graph.Graph.{Edge, Graph, out_of}

-- `qi` and `state` of the source; `trail` is the path and the edges of a `state`.
pub record Item (T : Type 0) : Type 0 where
  pub id : Uuid
  pub hops : ℕ
  pub trail : T

-- `visited` lists the keys of the map of that name, whose values are all true. `halted` is set by
-- the `break` of the loop.
pub record Search (T A : Type 0) : Type 0 where
  pub visited : List Uuid
  pub queue : List (Item T)
  pub acc : A
  pub halted : Bool

-- `on_pop` also says whether the loop breaks.
pub record Policy (T A : Type 0) : Type 0 where
  pub follows : String → Bool
  pub extend : T → Edge → T
  pub on_push : A → Item T → A
  pub on_pop : A → Item T → A × Bool

module _ {T A : Type 0} (p : Policy T A) where
  unfoldable pub next_item : Item T → Edge → Item T
  next_item c e = record { id = e.dst; hops = c.hops + 1; trail = p.extend c.trail e }

  -- The body of the loop over the edges out of the popped node.
  unfoldable pub offer : Item T → Search T A → Edge → Search T A
  unfolding next_item contains
  offer c s e =
      if p.follows e.kind && not (contains s.visited e.dst)
      then record s {
        visited = e.dst ∷ s.visited;
        queue = s.queue ++ next_item c e ∷ [];
        acc = p.on_push s.acc (next_item c e);
      }
      else s

  unfoldable pub scan : Item T → Search T A → List Edge → Search T A
  scan c = foldl (offer c)

  -- One round, after `c` left the head of the queue.
  unfoldable pub round : Graph → ℕ → Search T A → Item T → List (Item T) → Search T A
  unfolding scan offer out_of
  round g max_hops s c rest =
      let (acc, stop) = p.on_pop s.acc c in
      let popped = record s { queue = rest; acc = acc; halted = stop } in
      if stop then popped else if leb max_hops c.hops then popped else scan c popped (out_of g c.id)

  unfoldable pub run : Graph → ℕ → ℕ → Search T A → Search T A
  unfolding round
  run g max_hops zero s = s
  run g max_hops (suc fuel) s = elim s.halted [
    | true ↦ s
    | false ↦ elim s.queue [ [] ↦ s | c ∷ rest ↦ run g max_hops fuel (round g max_hops s c rest) ]
  ]

  unfoldable pub start_search : Uuid → T → A → Search T A
  start_search start t a = record {
    visited = start ∷ [];
    queue = record { id = start; hops = 0; trail = t } ∷ [];
    acc = a;
    halted = false;
  }

-- Every edge of the graph, by the lists that `out` holds.
unfoldable pub edge_lists : List (Uuid × List Edge) → List Edge
edge_lists [] = []
edge_lists ((_, es) ∷ m) = es ++ edge_lists m

-- A node is pushed at most once, and only at an edge that leads to it.
unfoldable pub enough_rounds : Graph → ℕ
unfolding edge_lists
enough_rounds g = suc (length (edge_lists g.out))
