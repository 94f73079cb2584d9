-- ===== src/Worker/Store.antt =====
-- internal/store/misc.go: the table of the graph as the worker sees it. What the database answers
-- to a call is a parameter; it may depend on every call made before.
use identity_attack_graph.Prelude.{Bool, List, ◌∷◌, ◌≡◌, Option, some}
use identity_attack_graph.Models.{Uuid, GraphNode, GraphEdge}

-- `UpsertNode` and `UpsertEdge`
pub data Call : Type 0 where
  put_node : GraphNode → Call
  put_edge : GraphEdge → Call

-- The answers, by the calls made before, the latest first: the identifier of the row or `none` for
-- an error, and whether an edge was written.
pub record GraphRepo : Type 0 where
  pub upsert_node : List Call → GraphNode → Option Uuid
  pub upsert_edge : List Call → GraphEdge → Bool

-- The identifier was answered to one of the calls.
pub data Answered (repo : GraphRepo) : List Call → Uuid → Type 0 where
  answered :
      {cs : List Call} {n : GraphNode} {id : Uuid}
      → repo.upsert_node cs n ≡ some id
      → Answered repo (put_node n ∷ cs) id
  earlier :
      {cs : List Call} {c : Call} {id : Uuid} → Answered repo cs id → Answered repo (c ∷ cs) id
