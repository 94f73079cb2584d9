-- ===== src/Worker/Project/Linked.antt =====
-- Which edges a projection writes: an invariant of the calls made so far.
use identity_attack_graph.Prelude.{
  ◌==◌, nat_eq, string_eq, String, ◌≡◌, ◌≢◌, ◌⊎◌, inl, inr, refl, sym, ap, subst, ◌∙◌, Bool, false,
  ◌||◌, List, [], ◌∷◌, foldl, Option, some, none, arith, Bool-cases, Option-cases, if◌then◌else◌,
  Eq,
}
use identity_attack_graph.Prelude.Map.{Map, find, find_or, insert, find-insert}
use identity_attack_graph.Prelude.Folds.{foldl-keeps}
use identity_attack_graph.Models.{Uuid, nil_uuid, Criticality, GraphNode, GraphEdge}
use identity_attack_graph.Models.Inventory.{Identity, Role, ResourceBinding, TrustEdge}
use identity_attack_graph.Models.Records.{Workload}
use identity_attack_graph.Worker.Store.{
  Call, put_node, put_edge, GraphRepo, Answered, answered, earlier,
}
use identity_attack_graph.Worker.Project.{
  Projection, Entities, no_projection, look_up, endpoint, called, note_node, note_role, note_urn,
  capability_edge_type, add_entity, add_identity, add_role, add_workload, upsert, add_trust,
  add_binding, add_use, add_permissions, add_resource, resource_node, role_node, raise_urn,
  note_account, write_nodes, write_edges, connect_owners, project,
}

neither : (a b : Uuid) → (a == nil_uuid || b == nil_uuid) ≡ false → (a ≢ nil_uuid) × (b ≢ nil_uuid)
neither a b h = (λ q. absurd (ground (arith, q, h)), λ q. absurd (ground (arith, q, h)))

module _ (repo : GraphRepo) where
  -- Every edge is written after its ends were answered as nodes of this projection.
  pub data Linked : List Call → Type 0 where
    start : Linked []
    after_node : {cs : List Call} → (n : GraphNode) → Linked cs → Linked (put_node n ∷ cs)
    after_edge :
        {cs : List Call}
        → (e : GraphEdge) → e.src_node_id ≢ nil_uuid
        → e.dst_node_id ≢ nil_uuid
        → Answered repo cs e.src_node_id
        → Answered repo cs e.dst_node_id
        → Linked cs
        → Linked (put_edge e ∷ cs)

  -- Every value of the map was answered.
  abbrev Known : {K : Type 0} ⦃e : Eq K⦄ → List Call → Map K Uuid → Type 0
  Known {K} cs m = (k : K) (v : Uuid) → find k m ≡ some v → Answered repo cs v

  record IsSound (p : Projection) : Type 0 where
    linked : Linked p.calls
    nodes : Known p.calls p.node_id
    urns : Known p.calls p.urn_node

  Known-later :
      {K : Type 0} ⦃e : Eq K⦄ {cs : List Call} {c : Call} (m : Map K Uuid)
      → Known cs m
      → Known (c ∷ cs) m
  Known-later m h k v q = earlier (h k v q)

  Known-insert :
      {K : Type 0} ⦃e : Eq K⦄ {cs : List Call} (m : Map K Uuid) (j : K) (id : Uuid)
      → Answered repo cs id
      → Known cs m
      → Known cs (insert j id m)
  Known-insert {K} ⦃e⦄ m j id a h k v q =
      let r : (if j == k then some id else find k m) ≡ some v =
        sym (find-insert {K = K} {V = Uuid} ⦃e = e⦄ j k id m) ∙ q in
      elim (Bool-cases (j == k)) [
        | inl same ↦ subst (Answered repo _) (some_eq (rw same at r)) a
        | inr other ↦ h k v (rw other at r)
      ]
    where
      some_eq : {a b : Uuid} → ◌≡◌ {A = Option Uuid} (some a) (some b) → a ≡ b
      some_eq q = cc q

  known :
      {cs : List Call} {v : Uuid}
      → (v ≡ nil_uuid) ⊎ Answered repo cs v
      → v ≢ nil_uuid
      → Answered repo cs v
  known (inl q) h = absurd (h q)
  known (inr a) h = a

  -- An identifier that is looked up is nil or was answered.
  abbrev KnownId : List Call → Uuid → Type 0
  KnownId cs v = (v ≡ nil_uuid) ⊎ Answered repo cs v

  find_or-KnownId :
      {K : Type 0} ⦃e : Eq K⦄ (cs : List Call) (m : Map K Uuid) (k : K)
      → Known cs m
      → KnownId cs (find_or nil_uuid k m)
  unfolding find_or
  find_or-KnownId ⦃e⦄ cs m k h = elim (Option-cases (find k m)) [
    | inl q ↦ inl (found none q)
    | inr (v, q) ↦ inr (subst (Answered repo cs) (sym (found (some v) q)) (h k v q))
  ]
    where
      found :
          (o : Option Uuid)
          → find ⦃e = e⦄ k m ≡ o
          → (elim (find ⦃e = e⦄ k m) [ some v ↦ v | none ↦ nil_uuid ])
            ≡ (elim o [ some v ↦ v | none ↦ nil_uuid ])
      found o q = ap (λ x. elim x [ some v ↦ v | none ↦ nil_uuid ]) q

  look_up-KnownId :
      (cs : List Call) (m : Map Uuid Uuid) (a : Option Uuid) → Known cs m → KnownId cs (look_up m a)
  unfolding look_up
  look_up-KnownId cs m none h = inl refl
  look_up-KnownId cs m (some k) h = find_or-KnownId cs m k h

  endpoint-KnownId :
      (cs : List Call) (m : Map Uuid Uuid) (a b : Option Uuid)
      → Known cs m
      → KnownId cs (endpoint m a b)
  unfolding endpoint
  endpoint-KnownId cs m a b h = elim (Bool-cases (look_up m a == nil_uuid)) [
    | inl absent ↦ rw absent (look_up-KnownId cs m b h)
    | inr there ↦ rw there (look_up-KnownId cs m a h)
  ]

  upsert-IsSound :
      (p : Projection) (src dst : Uuid) (et : String) (o : Bool)
      → KnownId p.calls src
      → KnownId p.calls dst
      → IsSound p
      → IsSound (upsert repo src dst et o p)
  unfolding upsert
  upsert-IsSound p src dst et o s d h = elim (Bool-cases (src == nil_uuid || dst == nil_uuid)) [
    | inl dropped ↦ rw dropped h
    | inr kept ↦
        let (s', d') = neither src dst kept in
        rw kept record {
          linked = after_edge _ s' d' (known s s') (known d d') h.linked;
          nodes = Known-later p.node_id h.nodes;
          urns = Known-later p.urn_node h.urns;
        }
  ]

  called-IsSound : (p : Projection) (n : GraphNode) → IsSound p → IsSound (called n p)
  called-IsSound p n h = record {
    linked = after_node n h.linked;
    nodes = Known-later p.node_id h.nodes;
    urns = Known-later p.urn_node h.urns;
  }

  note_node-IsSound :
      (entity : Uuid) (o : Option Uuid) (p : Projection)
      → ((id : Uuid) → o ≡ some id → Answered repo p.calls id)
      → IsSound p
      → IsSound (note_node entity o p)
  unfolding note_node
  note_node-IsSound entity none p a h = h
  note_node-IsSound entity (some id) p a h = record {
    linked = h.linked;
    nodes = Known-insert p.node_id entity id (a id refl) h.nodes;
    urns = h.urns;
  }

  note_role-IsSound :
      (r : Role) (o : Option Uuid) (p : Projection)
      → ((id : Uuid) → o ≡ some id → Answered repo p.calls id)
      → IsSound p
      → IsSound (note_role r o p)
  unfolding note_role
  note_role-IsSound r none p a h = h
  note_role-IsSound r (some id) p a h = record {
    linked = h.linked;
    nodes = Known-insert p.node_id r.id id (a id refl) h.nodes;
    urns = h.urns;
  }

  note_urn-IsSound :
      (urn : String) (o : Option Uuid) (p : Projection)
      → ((id : Uuid) → o ≡ some id → Answered repo p.calls id)
      → IsSound p
      → IsSound (note_urn urn o p)
  unfolding note_urn
  note_urn-IsSound urn none p a h = h
  note_urn-IsSound urn (some id) p a h = record {
    linked = h.linked;
    nodes = h.nodes;
    urns = Known-insert p.urn_node urn id (a id refl) h.urns;
  }

  add_role-IsSound : (p : Projection) (r : Role) → IsSound p → IsSound (add_role repo p r)
  unfolding add_role
  add_role-IsSound p r h =
      note_role-IsSound r _ (called (role_node r) p) (λ id q. answered q)
        (called-IsSound p (role_node r) h)

  add_entity-IsSound :
      (entity : Uuid) (n : GraphNode) (p : Projection)
      → IsSound p
      → IsSound (add_entity repo entity n p)
  unfolding add_entity
  add_entity-IsSound entity n p h =
      note_node-IsSound entity _ (called n p) (λ id q. answered q) (called-IsSound p n h)

  add_identity-IsSound :
      (p : Projection) (i : Identity) → IsSound p → IsSound (add_identity repo p i)
  unfolding add_identity
  add_identity-IsSound p i h = add_entity-IsSound i.id _ p h

  add_workload-IsSound :
      (p : Projection) (w : Workload) → IsSound p → IsSound (add_workload repo p w)
  unfolding add_workload
  add_workload-IsSound p w h = add_entity-IsSound w.id _ p h

  all_keep :
      {A : Type 0} {p : Projection} (f : Projection → A → Projection)
      → ((q : Projection) (a : A) → IsSound q → IsSound (f q a))
      → (xs : List A) → IsSound p
      → IsSound (foldl f p xs)
  all_keep f keep xs h = foldl-keeps IsSound f _ xs h (λ q a m k. keep q a k)

  none_found :
      {K : Type 0} ⦃e : Eq K⦄ → (k : K) (v : Uuid) → find k [] ≡ some v → Answered repo [] v
  unfolding find
  none_found k v q = cc q

  add_trust-IsSound : (p : Projection) (t : TrustEdge) → IsSound p → IsSound (add_trust repo p t)
  unfolding add_trust
  add_trust-IsSound p t h =
      upsert-IsSound p (endpoint p.node_id t.src_identity_id t.src_role_id)
        (endpoint p.node_id t.dst_role_id t.dst_identity_id) (capability_edge_type t.edge_type)
        t.observed (endpoint-KnownId p.calls p.node_id _ _ h.nodes)
        (endpoint-KnownId p.calls p.node_id _ _ h.nodes) h

  add_binding-IsSound :
      (p : Projection) (b : ResourceBinding) → IsSound p → IsSound (add_binding repo p b)
  unfolding add_binding
  add_binding-IsSound p b h =
      upsert-IsSound p _ _ _ _ (endpoint-KnownId p.calls p.node_id _ _ h.nodes)
        (find_or-KnownId p.calls p.urn_node _ h.urns) h

  add_use-IsSound : (p : Projection) (w : Workload) → IsSound p → IsSound (add_use repo p w)
  unfolding add_use
  add_use-IsSound p w h = elim (Option-cases w.identity_id) [
    | inl unbound ↦ rw unbound h
    | inr (i, q) ↦ rw q (
        upsert-IsSound p _ _ _ _ (find_or-KnownId p.calls p.node_id _ h.nodes)
          (find_or-KnownId p.calls p.node_id _ h.nodes) h)
  ]

  add_permissions-IsSound :
      (p : Projection) (w : Uuid × Uuid) → IsSound p → IsSound (add_permissions repo p w)
  unfolding add_permissions
  add_permissions-IsSound p (role, owner) h =
      upsert-IsSound p _ _ _ _ (find_or-KnownId p.calls p.node_id _ h.nodes)
        (find_or-KnownId p.calls p.node_id _ h.nodes) h

  module _ (resource_id : String → Uuid) where
    add_resource-IsSound :
        (acct : Map String String) (p : Projection) (r : String × Criticality)
        → IsSound p
        → IsSound (add_resource repo resource_id acct p r)
    unfolding add_resource
    add_resource-IsSound acct p (urn, crit) h =
        let n = resource_node resource_id acct urn crit in
        note_urn-IsSound urn _ (called n p) (λ id q. answered q) (called-IsSound p n h)

    write_nodes-IsSound : (x : Entities) → IsSound (write_nodes repo resource_id x)
    unfolding write_nodes
    write_nodes-IsSound x =
        let acct = foldl note_account [] x.bindings in
        let s0 : IsSound no_projection = record {
          linked = start;
          nodes = none_found;
          urns = none_found;
        } in
        let s1 = all_keep (add_identity repo) add_identity-IsSound x.idents s0 in
        let s2 = all_keep (add_role repo) add_role-IsSound x.roles s1 in
        let s3 =
          all_keep (add_resource repo resource_id acct) (add_resource-IsSound acct)
            (foldl raise_urn [] x.bindings) s2 in
        all_keep (add_workload repo) add_workload-IsSound x.workloads s3

    -- However the database answers, the projection writes an edge only between two nodes that it
    -- has written before and whose identifiers were answered to it, neither of them nil.
    pub project-Linked : (x : Entities) → Linked (project repo resource_id x).calls
    unfolding project write_edges connect_owners
    project-Linked x =
        let s1 = all_keep (add_trust repo) add_trust-IsSound x.trust (write_nodes-IsSound x) in
        let s2 = all_keep (add_binding repo) add_binding-IsSound x.bindings s1 in
        let s3 = all_keep (add_use repo) add_use-IsSound x.workloads s2 in
        let p = write_edges repo x (write_nodes repo resource_id x) in
        (all_keep (add_permissions repo) add_permissions-IsSound p.owned_by s3).linked
