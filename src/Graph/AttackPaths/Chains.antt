-- ===== src/Graph/AttackPaths/Chains.antt =====
-- The path and the edges that a queue entry carries belong together.
use identity_attack_graph.Prelude.{
  ℕ, ◌≡◌, refl, String, Bool, List, [], ◌∷◌, ◌++◌, map, arith, length, length-append, sym, subst,
  ap, ◌∙◌,
}
use identity_attack_graph.Models.{Uuid}
use identity_attack_graph.Graph.{Graph, Edge, is_capability_edge}
use identity_attack_graph.Graph.Search.{Item, next_item}
use identity_attack_graph.Graph.Search.Walk.{Hop}
use identity_attack_graph.Graph.AttackPaths.{Trail, attack_policy, last_node}

-- Each edge leaves the node at which the one before it ends.
abbrev pub Chain : Graph → (String → Bool) → Uuid → List Edge → Uuid → Type 0
Chain g follows u [] v = u ≡ v
Chain g follows u (e ∷ es) v = Hop g follows u e × Chain g follows e.dst es v

pub Chain-concat :
    (g : Graph) (follows : String → Bool) (u v : Uuid) (es : List Edge) (e : Edge)
    → Chain g follows u es v
    → Hop g follows v e
    → Chain g follows u (es ++ e ∷ []) e.dst
Chain-concat g follows u v [] e c h = (subst (λ w. Hop g follows w e) (sym c) h, refl)
Chain-concat g follows u v (d ∷ es) e c h = (c.0, Chain-concat g follows d.dst v es e c.1 h)

targets-concat :
    (es : List Edge) (e : Edge)
    → map (λ (d : Edge). d.dst) (es ++ e ∷ []) ≡ map (λ (d : Edge). d.dst) es ++ e.dst ∷ []
targets-concat [] e = refl
targets-concat (d ∷ es) e = ap (◌∷◌ d.dst) (targets-concat es e)

-- `nodes` are the source and the ends of `edges`, which lead from the source to `v`.
pub record IsRoute (g : Graph) (start v : Uuid) (nodes : List Uuid) (edges : List Edge) (hops : ℕ)
    : Type 0 where
  pub chain : Chain g is_capability_edge start edges v
  pub nodes_eq : nodes ≡ start ∷ map (λ (e : Edge). e.dst) edges
  pub hops_eq : length edges ≡ hops

abbrev pub IsTrail : Graph → Uuid → Item Trail → Type 0
IsTrail g start x = IsRoute g start x.id x.trail.path x.trail.edges x.hops

pub next-IsTrail :
    (g : Graph) (start : Uuid) (limit : ℕ) (c : Item Trail) (e : Edge)
    → IsTrail g start c
    → Hop g is_capability_edge c.id e
    → IsTrail g start (next_item (attack_policy g start limit) c e)
unfolding next_item
next-IsTrail g start limit c e t h = record {
  chain = Chain-concat g is_capability_edge start c.id c.trail.edges e t.chain h;
  nodes_eq =
      ap (λ ns. ns ++ e.dst ∷ []) t.nodes_eq
      ∙ ap (◌∷◌ start) (sym (targets-concat c.trail.edges e));
  hops_eq = omega (arith, length-append c.trail.edges (e ∷ []), t.hops_eq);
}

-- A route ends at the last of its nodes.
pub last_node-route :
    (g : Graph) (start v : Uuid) (nodes : List Uuid) (edges : List Edge) (hops : ℕ)
    → IsRoute g start v nodes edges hops
    → last_node start nodes ≡ v
unfolding last_node
last_node-route g start v nodes edges hops r =
    ap (last_node start) r.nodes_eq ∙ along start edges r.chain
  where
    along :
        (u : Uuid) (es : List Edge)
        → Chain g is_capability_edge u es v
        → last_node u (map (λ (e : Edge). e.dst) es) ≡ v
    along u [] c = c
    along u (e ∷ es) c = along e.dst es c.1
