-- ===== src/Graph/AttackPaths/Targets.antt =====
-- The paths that the loop gathers are those to the targets that it has popped.
use mathlib.Core.List.Memᴰ
use identity_attack_graph.Prelude.{
  ℕ, ◌*◌, ◌≤◌, ◌≡◌, ◌≢◌, refl, nat_eq, Bool, true, false, List, [], ◌∷◌, ◌++◌, Memᴰ, arith, length,
  sym, subst, ap, ◌∙◌, inl, inr, some, mem-All, Option-cases, Bool-cases, ◌==◌, leb, nat_beq_iff,
}
unfoldable use identity_attack_graph.Prelude.{contains}
use identity_attack_graph.Prelude.Pairs.{Pairs, Pairs-concat}
use identity_attack_graph.Models.{Uuid, Criticality}
use identity_attack_graph.Graph.{Graph, Node, node}
use identity_attack_graph.Graph.Search.{Item}
use identity_attack_graph.Graph.Search.Step.{contains-cons}
use identity_attack_graph.Graph.AttackPaths.{
  AttackPath, Trail, Gathered, path_of, target_impact, gather, last_node,
}
use identity_attack_graph.Graph.AttackPaths.Chains.{IsTrail, last_node-route}

-- A node other than the source that `targetImpact` accepts, with its impact.
pub record IsTarget (g : Graph) (start v : Uuid) (impact : Criticality) : Type 0 where
  pub info : Node
  pub here : node g v ≡ some info
  pub accepted : target_impact info ≡ (impact, true)
  pub elsewhere : v ≢ start

accepted_pair : (t : Criticality × Bool) → t.1 ≡ true → t ≡ (t.0, true)
accepted_pair (c, b) h = ap (λ x. (c, x)) h

module _ (g : Graph) (start v : Uuid) (n : Node) (here : node g v ≡ some n) where
  -- The target status of a node is read off its record.
  target-eq : (impact : Criticality) → IsTarget g start v impact → target_impact n ≡ (impact, true)
  target-eq impact t =
      let q : t.info ≡ n = cc (t.here, here) in
      subst (λ w. target_impact w ≡ (impact, true)) q t.accepted

  none_accepted : (target_impact n).1 ≡ false → (impact : Criticality) → ¬ IsTarget g start v impact
  none_accepted h impact t =
      let q : (target_impact n).1 ≡ true =
        ap (λ (w : Criticality × Bool). w.1) (target-eq impact t) in
      cc (h, q)

  one_impact : (impact : Criticality) → IsTarget g start v impact → impact ≡ (target_impact n).0
  one_impact impact t = sym (ap (λ (w : Criticality × Bool). w.0) (target-eq impact t))

-- Paths that end at different nodes.
abbrev pub EndApart : Uuid → AttackPath → AttackPath → Type 0
EndApart start p q = last_node start p.nodes ≢ last_node start q.nodes

module _ (g : Graph) (start : Uuid) (limit : ℕ) where
  pub record Gathers (done order : List (Item Trail)) (a : Gathered) (b : Bool) : Type 0 where
    pub sound :
        (p : AttackPath)
        → Memᴰ p a.results
        → (x : Item Trail) × Memᴰ x done × IsTarget g start x.id p.impact × (p ≡ path_of x p.impact)
    pub full :
        (x : Item Trail) (impact : Criticality)
        → Memᴰ x done
        → IsTarget g start x.id impact
        → Memᴰ (path_of x impact) a.results
    pub once :
        (v : Uuid)
        → contains a.visited_target v ≡ true
        → (x : Item Trail) × Memᴰ x done × (x.id ≡ v)
    pub broken : b ≡ true → limit * 3 ≤ length a.results
    pub ends :
        (p : AttackPath)
        → Memᴰ p a.results
        → (x : Item Trail) × Memᴰ x done × (last_node start p.nodes ≡ x.id)
    pub apart : Pairs (EndApart start) a.results

  module _ (done order : List (Item Trail)) (a : Gathered) (x : Item Trail)
      (fresh : (y : Item Trail) → Memᴰ y done → y.id ≢ x.id) (fine : IsTrail g start x)
      (h : Gathers done order a false) where
    -- Where `x` is no target, nothing is recorded.
    Gathers-skip :
        ((impact : Criticality) → ¬ IsTarget g start x.id impact)
        → Gathers (done ++ x ∷ []) order a false
    Gathers-skip none_here = record {
      sound = λ p m. let (y, m', t, q) = h.sound p m in (y, Memᴰ.append_left (x ∷ []) m', t, q);
      full = λ y impact m t. elim (Memᴰ.append_cases done m) [
        | inl old ↦ h.full y impact old t
        | inr last ↦ absurd (
            none_here impact (
              subst (λ (w : Item Trail). IsTarget g start w.id impact) (Memᴰ.eq_of_singleton last)
                t))
      ];
      once = λ v c. let (y, m, q) = h.once v c in (y, Memᴰ.append_left (x ∷ []) m, q);
      broken = λ c. cc;
      ends = λ p m. let (y, m', q) = h.ends p m in (y, Memᴰ.append_left (x ∷ []) m', q);
      apart = h.apart;
    }

    not_seen : contains a.visited_target x.id ≡ false
    not_seen = elim (Bool-cases (contains a.visited_target x.id)) [
      | inl t ↦ let (y, m, q) = h.once x.id t in absurd (fresh y m q)
      | inr f ↦ f
    ]

    ended : last_node start x.trail.path ≡ x.id
    ended = last_node-route g start x.id x.trail.path x.trail.edges x.hops fine

    -- Where `x` is a target, its path is added.
    Gathers-add :
        (impact : Criticality)
        → IsTarget g start x.id impact
        → ((other : Criticality) → IsTarget g start x.id other → other ≡ impact)
        → let results = a.results ++ path_of x impact ∷ [] in
          Gathers
            (done ++ x ∷ [])
            order
            (record { results = results; visited_target = x.id ∷ a.visited_target })
            (leb (limit * 3) (length results))
    unfolding path_of
    Gathers-add impact target only = record {
      sound = λ p m. elim (Memᴰ.append_cases a.results m) [
        | inl old ↦ let (y, m', t, q) = h.sound p old in (y, Memᴰ.append_left (x ∷ []) m', t, q)
        | inr last ↦
            let q = Memᴰ.eq_of_singleton last in
            let same : p.impact ≡ impact = ap (λ (w : AttackPath). w.impact) q in
            (
              x,
              Memᴰ.append_right done (Memᴰ.head refl),
              subst (IsTarget g start x.id) (sym same) target,
              q ∙ ap (path_of x) (sym same),
            )
      ];
      full = λ y other m t. elim (Memᴰ.append_cases done m) [
        | inl old ↦ Memᴰ.append_left (path_of x impact ∷ []) (h.full y other old t)
        | inr last ↦
            let q = Memᴰ.eq_of_singleton last in
            let t' = subst (λ (w : Item Trail). IsTarget g start w.id other) q t in
            Memᴰ.append_right a.results
              (Memᴰ.head (ap (λ w. path_of w other) q ∙ ap (path_of x) (only other t')))
      ];
      once = λ v c. elim (contains-cons x.id v a.visited_target c) [
        | inl q ↦ (x, Memᴰ.append_right done (Memᴰ.head refl), q)
        | inr old ↦ let (y, m, q) = h.once v old in (y, Memᴰ.append_left (x ∷ []) m, q)
      ];
      broken = λ c. ground arith;
      ends = λ p m. elim (Memᴰ.append_cases a.results m) [
        | inl old ↦ let (y, m', q) = h.ends p old in (y, Memᴰ.append_left (x ∷ []) m', q)
        | inr last ↦ (
          x,
          Memᴰ.append_right done (Memᴰ.head refl),
          ap (λ (w : AttackPath). last_node start w.nodes) (Memᴰ.eq_of_singleton last) ∙ ended,
        )
      ];
      apart = Pairs-concat (EndApart start) a.results (path_of x impact) h.apart (
          mem-All _ a.results
            (λ p m q. let (y, m', q') = h.ends p m in fresh y m' (sym q' ∙ q ∙ ended)));
    }

    pub gather-Gathers :
        Gathers (done ++ x ∷ []) order (gather g start limit a x).0 (gather g start limit a x).1
    unfolding gather
    gather-Gathers = elim (Option-cases (node g x.id)) [
      | inl absent ↦ rw (absent, gather) (Gathers-skip (λ impact t. cc (absent, t.here)))
      | inr (n, present) ↦ elim (Bool-cases (x.id == start)) [
        | inl at_start ↦
            rw (present, gather, at_start)
              (Gathers-skip (λ impact t. t.elsewhere ((nat_beq_iff x.id start).0 at_start)))
        | inr away ↦ elim (Bool-cases (target_impact n).1) [
          | inr refused ↦
              rw (present, gather, away, refused)
                (Gathers-skip (none_accepted g start x.id n present refused))
          | inl taken ↦
              rw (present, gather, away, taken, not_seen)
                (Gathers-add (target_impact n).0
                  (record {
                    info = n;
                    here = present;
                    accepted = accepted_pair (target_impact n) taken;
                    elsewhere = λ q. cc (away, (nat_beq_iff x.id start).1 q);
                  })
                  (one_impact g start x.id n present))
        ]
      ]
    ]
