-- ===== src/Graph/Build.antt =====
-- What `FromModels` builds: the adjacency lists, the nodes and the index of entities.
use mathlib.Core.List.{append_assoc, append-nil}
use mathlib.Core.Option
use identity_attack_graph.Prelude.{
  nat_eq, ◌==◌, ◌≡◌, ◌≢◌, refl, sym, ◌∙◌, ap, Bool, false, List, [], ◌∷◌, ◌++◌, map, keep, Option,
  some, none, arith, if◌then◌else◌, Bool-cases, inl, inr, nat_beq_iff, Option-cases,
}
use identity_attack_graph.Prelude.Map.{Map, find, find_or, insert, find-insert, find_or-insert}
use identity_attack_graph.Models.{Uuid, GraphNode, GraphEdge, nil_uuid}
use identity_attack_graph.Graph.{
  Graph, Edge, new, add_node, add_edge, node, node_id_for_entity, out_of, in_of, node_of_model,
  edge_of_model, load_nodes, load_edges, from_models,
}

-- An element pushed to the list of a key stands behind that list, and in no other.
push_listed :
    (m : Map Uuid (List Edge)) (k j : Uuid) (x : Edge)
    → find_or [] j (insert k (find_or [] k m ++ x ∷ []) m)
      ≡ find_or [] j m ++ (if k == j then x ∷ [] else [])
push_listed m k j x =
    find_or-insert [] k j (find_or [] k m ++ x ∷ []) m ∙ (elim (Bool-cases (k == j)) [
      | inl same ↦ rw (same, (nat_beq_iff k j).0 same)
      | inr other ↦ rw (other, append-nil)
    ])

-- The edge that stands for a persisted one.
abbrev pub as_loaded : GraphEdge → Edge
as_loaded e = record {
  src = e.src_node_id;
  dst = e.dst_node_id;
  kind = e.edge_type;
  weight = e.weight;
  observed = e.observed;
  attributes = e.attributes;
}

-- What the persisted edges that pass a test stand for.
abbrev pub loaded_of : (GraphEdge → Bool) → List GraphEdge → List Edge
loaded_of p es = map as_loaded (keep p es)

loaded_of_regroup :
    (p : GraphEdge → Bool) (xs : List Edge) (es : List GraphEdge) (e : GraphEdge)
    → (xs ++ (if p e then as_loaded e ∷ [] else [])) ++ loaded_of p es ≡ xs ++ loaded_of p (e ∷ es)
loaded_of_regroup p xs es e =
    append_assoc xs (if p e then as_loaded e ∷ [] else []) (loaded_of p es) ∙ ap (λ l. xs ++ l) kept
  where
    kept : (if p e then as_loaded e ∷ [] else []) ++ loaded_of p es ≡ loaded_of p (e ∷ es)
    kept = ground arith

module _ (u : Uuid) where
  abbrev pub leaves : GraphEdge → Bool
  leaves e = e.src_node_id == u

  abbrev pub enters : GraphEdge → Bool
  enters e = e.dst_node_id == u

  out_of-load_edges :
      (g : Graph) (es : List GraphEdge)
      → out_of (load_edges g es) u ≡ out_of g u ++ loaded_of leaves es
  unfolding out_of load_edges edge_of_model
  out_of-load_edges g [] = sym (append-nil (find_or [] u g.out))
  out_of-load_edges g (e ∷ es) =
      out_of-load_edges (add_edge g (edge_of_model e)) es
      ∙ ap (λ l. l ++ loaded_of leaves es) (push_listed g.out e.src_node_id u (as_loaded e))
      ∙ loaded_of_regroup leaves (out_of g u) es e

  in_of-load_edges :
      (g : Graph) (es : List GraphEdge)
      → in_of (load_edges g es) u ≡ in_of g u ++ loaded_of enters es
  unfolding in_of load_edges edge_of_model
  in_of-load_edges g [] = sym (append-nil (find_or [] u g.inn))
  in_of-load_edges g (e ∷ es) =
      in_of-load_edges (add_edge g (edge_of_model e)) es
      ∙ ap (λ l. l ++ loaded_of enters es) (push_listed g.inn e.dst_node_id u (as_loaded e))
      ∙ loaded_of_regroup enters (in_of g u) es e

  out_of-load_nodes : (g : Graph) (ns : List GraphNode) → out_of (load_nodes g ns) u ≡ out_of g u
  unfolding out_of load_nodes
  out_of-load_nodes g [] = refl
  out_of-load_nodes g (n ∷ ns) = out_of-load_nodes (add_node g (node_of_model n)) ns

  in_of-load_nodes : (g : Graph) (ns : List GraphNode) → in_of (load_nodes g ns) u ≡ in_of g u
  unfolding in_of load_nodes
  in_of-load_nodes g [] = refl
  in_of-load_nodes g (n ∷ ns) = in_of-load_nodes (add_node g (node_of_model n)) ns

  -- The edges out of a node of the loaded graph are those of the persisted edges whose source it
  -- is, the edges into it those of the persisted edges whose target it is, each as often and in the
  -- order in which they were loaded, and with its source, target, type, weight, observed flag
  -- and attributes.
  pub from_models_adjacency :
      (ns : List GraphNode) (es : List GraphEdge)
      → (out_of (from_models ns es) u ≡ loaded_of leaves es)
        × (in_of (from_models ns es) u ≡ loaded_of enters es)
  unfolding from_models
  from_models_adjacency ns es = (
    out_of-load_edges (load_nodes new ns) es
        ∙ ap (λ l. l ++ loaded_of leaves es) (out_of-load_nodes new ns ∙ out_of-new),
    in_of-load_edges (load_nodes new ns) es
        ∙ ap (λ l. l ++ loaded_of enters es) (in_of-load_nodes new ns ∙ in_of-new),
  )
    where
      out_of-new : out_of new u ≡ []
      out_of-new = unfold out_of find_or in refl

      in_of-new : in_of new u ≡ []
      in_of-new = unfold in_of find_or in refl

-- The last of the persisted nodes that pass a test.
abbrev pub last_with : (GraphNode → Bool) → List GraphNode → Option GraphNode
last_with p [] = none
last_with p (n ∷ ns) =
    let later = last_with p ns in
    elim later [ some m ↦ some m | none ↦ if p n then some n else none ]

abbrev pub node_with : Uuid → GraphNode → Bool
node_with v n = n.id == v

-- The node stands for the entity `v`.
abbrev pub entity_with : Uuid → GraphNode → Bool
entity_with v n = elim n.entity_id [ some e ↦ e == v | none ↦ false ]

node-load_edges :
    (g : Graph) (es : List GraphEdge)
    → ((load_edges g es).nodes ≡ g.nodes) × ((load_edges g es).by_entity ≡ g.by_entity)
unfolding load_edges
node-load_edges g [] = (refl, refl)
node-load_edges g (e ∷ es) = node-load_edges (add_edge g (edge_of_model e)) es

node-load_nodes :
    (g : Graph) (ns : List GraphNode) (v : Uuid)
    → find v (load_nodes g ns).nodes ≡ elim (last_with (node_with v) ns) [
      | some n ↦ some (node_of_model n)
      | none ↦ find v g.nodes
    ]
unfolding load_nodes
node-load_nodes g [] v = refl
node-load_nodes g (n ∷ ns) v =
    node-load_nodes (add_node g (node_of_model n)) ns v
    ∙ ground (arith, find-insert n.id v (node_of_model n) g.nodes)

entity-load_nodes :
    (g : Graph) (ns : List GraphNode) (v : Uuid)
    → v ≢ nil_uuid
    → find v (load_nodes g ns).by_entity
      ≡ elim (last_with (entity_with v) ns) [ some n ↦ some n.id | none ↦ find v g.by_entity ]
unfolding load_nodes
entity-load_nodes g [] v h = refl
entity-load_nodes g (n ∷ ns) v h =
    entity-load_nodes (add_node g (node_of_model n)) ns v h ∙ elim (Option-cases n.entity_id) [
      | inl nil ↦ ground arith
      | inr (e, known) ↦ ground (arith, find-insert e v n.id g.by_entity)
    ]

-- A node of the loaded graph is the last that was loaded under its id; a source entity is looked up
-- as the last node that names it.
pub from_models_nodes :
    (ns : List GraphNode) (es : List GraphEdge) (v : Uuid)
    → (node (from_models ns es) v ≡ Option.map node_of_model (last_with (node_with v) ns))
      × (v ≢ nil_uuid
          → node_id_for_entity (from_models ns es) v
            ≡ Option.map (λ (n : GraphNode). n.id) (last_with (entity_with v) ns))
unfolding from_models node node_id_for_entity find
from_models_nodes ns es v =
    let (nodes, entities) = node-load_edges (load_nodes new ns) es in
    (
      ap (find v) nodes ∙ node-load_nodes new ns v ∙ ground arith,
      λ h. ap (find v) entities ∙ entity-load_nodes new ns v h ∙ ground arith,
    )
