-- ===== src/Worker/Project/Resources.antt =====
-- Which resources a projection writes as nodes of the graph.
use mathlib.Core.List.Memᴰ
use identity_attack_graph.Prelude.{
  ◌≤◌, ◌<◌, ◌==◌, nat_eq, string_eq, String, ◌≡◌, ◌⊎◌, ◌↔◌, inl, inr, ⊎_elim, refl, sym, ap, subst,
  ◌∙◌, Bool, false, ◌||◌, List, [], ◌∷◌, foldl, Memᴰ, Option, some, none, Bool-cases, Option-cases,
  if◌then◌else◌,
}
use identity_attack_graph.Prelude.Map.{Map, find_or}
use identity_attack_graph.Prelude.Folds.{foldl-keeps}
use identity_attack_graph.Models.{Uuid, nil_uuid, Criticality, criticality_rank}
use identity_attack_graph.Models.Inventory.{Identity, Role, ResourceBinding, TrustEdge}
use identity_attack_graph.Models.Records.{Workload}
use identity_attack_graph.Worker.Store.{Call, put_node, put_edge, GraphRepo}
use identity_attack_graph.Worker.Project.{
  Projection, Entities, identity_node, workload_node, endpoint, capability_edge_type, no_projection,
  called, note_node, note_role, note_urn, add_entity, add_identity, add_role, add_workload, upsert,
  add_trust, add_binding, add_use, add_permissions, add_resource, resource_node, role_node,
  raise_urn, note_account, write_nodes, write_edges, connect_owners, project,
}
use identity_attack_graph.Worker.Project.Raised.{IsRaised, raise_urns_entry, raise_urns_covers}

-- The resources among the nodes that were written, each with its criticality, the latest first.
abbrev pub resources_of : List Call → List (String × Criticality)
resources_of [] = []
resources_of (put_edge e ∷ cs) = resources_of cs
resources_of (put_node n ∷ cs) =
    let rest = resources_of cs in
    if n.node_type == "resource" then (n.label, n.criticality) ∷ rest else rest

abbrev Same : List (String × Criticality) → Projection → Type 0
Same rs p = resources_of p.calls ≡ rs

note_node-calls : (e : Uuid) (o : Option Uuid) (p : Projection) → (note_node e o p).calls ≡ p.calls
unfolding note_node
note_node-calls e none p = refl
note_node-calls e (some id) p = refl

note_role-calls : (r : Role) (o : Option Uuid) (p : Projection) → (note_role r o p).calls ≡ p.calls
unfolding note_role
note_role-calls r none p = refl
note_role-calls r (some id) p = refl

note_urn-calls :
    (urn : String) (o : Option Uuid) (p : Projection) → (note_urn urn o p).calls ≡ p.calls
unfolding note_urn
note_urn-calls urn none p = refl
note_urn-calls urn (some id) p = refl

-- `foldl` with a function that writes the elements themselves.
pushed : List (String × Criticality) → List (String × Criticality) → List (String × Criticality)
pushed acc [] = acc
pushed acc (w ∷ ws) = pushed (w ∷ acc) ws

pushed-mem :
    (acc ws : List (String × Criticality)) (w : String × Criticality)
    → Memᴰ w (pushed acc ws) ↔ (Memᴰ w acc ⊎ Memᴰ w ws)
unfolding pushed
pushed-mem acc [] w = (λ m. inl m, λ m. ⊎_elim (λ a. a) (λ n. absurd (Memᴰ.not-nil n)) m)
pushed-mem acc (v ∷ ws) w =
    let (to, from) = pushed-mem (v ∷ acc) ws w in
    (
      λ m.
          ⊎_elim (λ a. ⊎_elim (λ q. inr (Memᴰ.head q)) (λ n. inl n) (Memᴰ.cases_cons a))
            (λ n. inr (Memᴰ.tail n)) (to m),
      λ m. from (
          ⊎_elim (λ a. inl (Memᴰ.tail a))
            (λ n. ⊎_elim (λ q. inl (Memᴰ.head q)) (λ k. inr k) (Memᴰ.cases_cons n)) m),
    )

module _ (repo : GraphRepo) where
  add_identity-Same :
      (p : Projection) (i : Identity)
      → resources_of (add_identity repo p i).calls ≡ resources_of p.calls
  unfolding add_identity add_entity
  add_identity-Same p i =
      let n = identity_node i in
      ap resources_of (note_node-calls i.id (repo.upsert_node p.calls n) (called n p))

  add_workload-Same :
      (p : Projection) (w : Workload)
      → resources_of (add_workload repo p w).calls ≡ resources_of p.calls
  unfolding add_workload add_entity
  add_workload-Same p w =
      let n = workload_node w in
      ap resources_of (note_node-calls w.id (repo.upsert_node p.calls n) (called n p))

  add_role-Same :
      (p : Projection) (r : Role) → resources_of (add_role repo p r).calls ≡ resources_of p.calls
  unfolding add_role
  add_role-Same p r =
      let n = role_node r in
      ap resources_of (note_role-calls r (repo.upsert_node p.calls n) (called n p))

  upsert-Same :
      (src dst : Uuid) (et : String) (o : Bool) (p : Projection)
      → resources_of (upsert repo src dst et o p).calls ≡ resources_of p.calls
  unfolding upsert
  upsert-Same src dst et o p = elim (Bool-cases (src == nil_uuid || dst == nil_uuid)) [
    | inl dropped ↦ rw dropped refl
    | inr kept ↦ rw kept refl
  ]

  add_trust-Same :
      (p : Projection) (t : TrustEdge)
      → resources_of (add_trust repo p t).calls ≡ resources_of p.calls
  unfolding add_trust
  add_trust-Same p t =
      upsert-Same (endpoint p.node_id t.src_identity_id t.src_role_id)
        (endpoint p.node_id t.dst_role_id t.dst_identity_id) (capability_edge_type t.edge_type)
        t.observed p

  add_binding-Same :
      (p : Projection) (b : ResourceBinding)
      → resources_of (add_binding repo p b).calls ≡ resources_of p.calls
  unfolding add_binding
  add_binding-Same p b =
      upsert-Same (endpoint p.node_id b.identity_id b.role_id)
        (find_or nil_uuid b.resource_urn p.urn_node) "binds_to" false p

  add_use-Same :
      (p : Projection) (w : Workload) → resources_of (add_use repo p w).calls ≡ resources_of p.calls
  unfolding add_use
  add_use-Same p w = elim (Option-cases w.identity_id) [
    | inl unbound ↦ rw unbound refl
    | inr (i, q) ↦ rw q (
        upsert-Same (find_or nil_uuid w.id p.node_id) (find_or nil_uuid i p.node_id) "uses" false p)
  ]

  add_permissions-Same :
      (p : Projection) (w : Uuid × Uuid)
      → resources_of (add_permissions repo p w).calls ≡ resources_of p.calls
  unfolding add_permissions
  add_permissions-Same p (role, owner) =
      upsert-Same (find_or nil_uuid owner p.node_id) (find_or nil_uuid role p.node_id)
        "has_permissions" false p

  loop-Same :
      {A : Type 0} (f : Projection → A → Projection)
      → ((p : Projection) (a : A) → resources_of (f p a).calls ≡ resources_of p.calls)
      → (p : Projection) (xs : List A) → resources_of (foldl f p xs).calls ≡ resources_of p.calls
  loop-Same f same p xs =
      foldl-keeps (Same (resources_of p.calls)) f p xs refl (λ q a m h. same q a ∙ h)

  module _ (resource_id : String → Uuid) where
    add_resources-pushed :
        (acct : Map String String) (p : Projection) (ws : List (String × Criticality))
        → resources_of (foldl (add_resource repo resource_id acct) p ws).calls
          ≡ pushed (resources_of p.calls) ws
    unfolding add_resource pushed resource_node
    add_resources-pushed acct p [] = refl
    add_resources-pushed acct p ((urn, crit) ∷ ws) =
        add_resources-pushed acct (add_resource repo resource_id acct p (urn, crit)) ws
        ∙ (let n = resource_node resource_id acct urn crit in
            ap (λ r. pushed (resources_of r) ws)
              (note_urn-calls urn (repo.upsert_node p.calls n) (called n p)))

    write_nodes-resources :
        (x : Entities)
        → resources_of (write_nodes repo resource_id x).calls
          ≡ pushed [] (foldl raise_urn [] x.bindings)
    unfolding write_nodes
    write_nodes-resources x =
        let acct = foldl note_account [] x.bindings in
        let crit = foldl raise_urn [] x.bindings in
        let p1 = foldl (add_identity repo) no_projection x.idents in
        let p2 = foldl (add_role repo) p1 x.roles in
        let p3 = foldl (add_resource repo resource_id acct) p2 crit in
        loop-Same (add_workload repo) add_workload-Same p3 x.workloads
        ∙ add_resources-pushed acct p2 crit
        ∙ ap (λ r. pushed r crit)
            (loop-Same (add_role repo) add_role-Same p1 x.roles
              ∙ loop-Same (add_identity repo) add_identity-Same no_projection x.idents)

    project-resources :
        (x : Entities)
        → resources_of (project repo resource_id x).calls
          ≡ pushed [] (foldl raise_urn [] x.bindings)
    unfolding project write_edges connect_owners
    project-resources x =
        let p = write_nodes repo resource_id x in
        let p1 = foldl (add_trust repo) p x.trust in
        let p2 = foldl (add_binding repo) p1 x.bindings in
        let p3 = foldl (add_use repo) p2 x.workloads in
        loop-Same (add_permissions repo) add_permissions-Same p3 p3.owned_by
        ∙ loop-Same (add_use repo) add_use-Same p2 x.workloads
        ∙ loop-Same (add_binding repo) add_binding-Same p1 x.bindings
        ∙ loop-Same (add_trust repo) add_trust-Same p x.trust
        ∙ write_nodes-resources x

    -- A resource is written as a node exactly if some binding to it has a criticality above the
    -- lowest rank; then it is written with a criticality that one of its bindings declares and
    -- that none of them exceeds.
    pub project_resources :
        (x : Entities) (urn : String)
        → (((c : Criticality) × Memᴰ (urn, c) (resources_of (project repo resource_id x).calls)) ↔ (
            (b : ResourceBinding) × Memᴰ b x.bindings
            × (b.resource_urn ≡ urn)
            × (0 < criticality_rank b.resource_criticality)))
          × ((c : Criticality)
              → Memᴰ (urn, c) (resources_of (project repo resource_id x).calls)
              → IsRaised x.bindings (urn, c)
                × ((b : ResourceBinding)
                    → Memᴰ b x.bindings
                    → b.resource_urn ≡ urn
                    → criticality_rank b.resource_criticality ≤ criticality_rank c))
    project_resources x urn =
        let crit = foldl raise_urn [] x.bindings in
        let q = project-resources x in
        let entry : (c : Criticality)
            → Memᴰ (urn, c) (resources_of (project repo resource_id x).calls)
            → Memᴰ (urn, c) crit =
          λ c m.
            ⊎_elim (λ n. absurd (Memᴰ.not-nil n)) (λ n. n)
              ((pushed-mem [] crit (urn, c)).0 (subst (Memᴰ (urn, c)) q m)) in
        (
          (
            λ (c, m).
                let r = (raise_urns_entry x.bindings urn c (entry c m)).0 in
                (
                  r.binding,
                  r.bound,
                  r.of_urn,
                  subst (λ d. 0 < criticality_rank d) (sym r.declared) r.positive,
                ),
            λ (b, m, of_urn, high).
                let (c, n) = raise_urns_covers x.bindings b m high in
                (
                  c,
                  subst (Memᴰ (urn, c)) (sym q) (
                      (pushed-mem [] crit (urn, c)).1
                        (inr (subst (λ u. Memᴰ (u, c) crit) of_urn n))),
                ),
          ),
          λ c m. raise_urns_entry x.bindings urn c (entry c m),
        )
