-- ===== src/Graph/Explain/Labels.antt =====
-- The steps of an explained path name its nodes and the edges between them.
use mathlib.Core.Path.{ap₂, subst₂}
use mathlib.Core.List.{append_assoc}
use identity_attack_graph.Prelude.{
  ℕ, suc, ◌+◌, ◌-◌, String, ◌≡◌, refl, sym, ap, ◌∙◌, List, [], ◌∷◌, ◌++◌, map, Option, some, none,
  length, get_elem?, arith, subst, length-append, length-map,
}
use identity_attack_graph.Models.{Uuid}
use identity_attack_graph.Graph.{Graph, Edge}
use identity_attack_graph.Graph.AttackPaths.Chains.{IsRoute}
use identity_attack_graph.Graph.Explain.{PathStep, label_of, edge_before, path_step, path_steps}

abbrev pub kinds : List Edge → List String
kinds = map (λ (e : Edge). e.kind)

abbrev pub ends : List Edge → List Uuid
ends = map (λ (e : Edge). e.dst)

abbrev via_of : Option Edge → String
via_of none = ""
via_of (some e) = e.kind

get_elem?-append :
    (pre : List Edge) (e : Edge) (suf : List Edge)
    → get_elem? (pre ++ e ∷ suf) (length pre) ≡ some e
get_elem?-append [] e suf = refl
get_elem?-append (x ∷ pre) e suf = get_elem?-append pre e suf

pub edge_before-eq :
    (pre : List Edge) (e : Edge) (suf : List Edge)
    → edge_before (pre ++ e ∷ suf) (suc (length pre)) ≡ some e
unfolding edge_before
edge_before-eq pre e suf =
    ground (arith, get_elem?-append pre e suf, length-append pre (e ∷ suf), sub_one (length pre))
  where
    sub_one : (n : ℕ) → suc n - 1 ≡ n
    sub_one n = omega arith

module _ (uuid_text : Uuid → String) (g : Graph) where
  -- From the node behind the edges `pre` on, the steps name the edges that are left.
  vias_from :
      (pre suf : List Edge)
      → map
          (λ (s : PathStep). s.via)
          (path_steps uuid_text g (pre ++ suf) (suc (length pre)) (ends suf))
        ≡ kinds suf
  unfolding path_steps path_step
  vias_from pre [] = refl
  vias_from pre (e ∷ suf) = ap₂ ◌∷◌ (ap via_of (edge_before-eq pre e suf)) (
      subst₂
        (λ es n.
          map (λ (s : PathStep). s.via) (path_steps uuid_text g es (suc n) (ends suf)) ≡ kinds suf)
        (append_assoc pre (e ∷ []) suf) (omega (arith, length-append pre (e ∷ [])))
        (vias_from (pre ++ e ∷ []) suf))

  nodes_from :
      (edges : List Edge) (j : ℕ) (ids : List Uuid)
      → map (λ (s : PathStep). s.node) (path_steps uuid_text g edges j ids)
        ≡ map (label_of uuid_text g) ids
  unfolding path_steps
  nodes_from edges j [] = refl
  nodes_from edges j (id ∷ ids) = ap (◌∷◌ (label_of uuid_text g id)) (nodes_from edges (suc j) ids)

  -- Of a path that is a route, the steps name the nodes in their order; the first was reached by
  -- nothing, and each other by the edge that the route takes to it.
  pub steps_of_route :
      (start v : Uuid) (nodes : List Uuid) (edges : List Edge) (hops : ℕ)
      → IsRoute g start v nodes edges hops
      → let steps = path_steps uuid_text g edges 0 nodes in
        (map (λ (s : PathStep). s.node) steps ≡ map (label_of uuid_text g) nodes)
        × (map (λ (s : PathStep). s.via) steps ≡ "" ∷ kinds edges)
        × (length steps ≡ hops + 1)
  unfolding path_steps
  steps_of_route start v nodes edges hops r = (
    nodes_from edges 0 nodes,
    subst
        (λ ns. map (λ (s : PathStep). s.via) (path_steps uuid_text g edges 0 ns) ≡ "" ∷ kinds edges)
        (sym r.nodes_eq) (ap (◌∷◌ "") (vias_from [] edges)),
    length-path_steps edges 0 nodes
        ∙ ap (length {A = Uuid}) r.nodes_eq
        ∙ omega (arith, length-map edges (λ (e : Edge). e.dst), r.hops_eq),
  )
    where
      length-path_steps :
          (es : List Edge) (j : ℕ) (ids : List Uuid)
          → length (path_steps uuid_text g es j ids) ≡ length ids
      length-path_steps es j [] = refl
      length-path_steps es j (id ∷ ids) = ap suc (length-path_steps es (suc j) ids)
