-- ===== src/Graph/AttackPaths/Ranked.antt =====
-- What `AttackPaths` returns.
use mathlib.Core.List.Memᴰ
use identity_attack_graph.Prelude.{
  ℕ, ◌≤◌, ◌<◌, ◌≡◌, refl, false, List, [], ◌∷◌, Memᴰ, arith, length, sym, subst, ap, ◌∙◌, inl, inr,
  Bool-cases, ltb, take, length-take-le, length-take_of_le, Memᴰ-take, if◌then◌else◌, ⊎_elim,
}
unfoldable use identity_attack_graph.Prelude.{contains}
use identity_attack_graph.Prelude.Sort.{
  slice_stable, mem-slice_stable, slice_stable-mem, length-slice_stable,
}
use identity_attack_graph.Prelude.Pairs.{Pairs, take-Pairs, slice_stable-Pairs}
use identity_attack_graph.Models.{Uuid, Criticality}
use identity_attack_graph.Graph.{Graph, is_capability_edge}
use identity_attack_graph.Graph.Search.Walk.{IsDistance}
use identity_attack_graph.Graph.Search.Invariant.{Claim}
use identity_attack_graph.Graph.Search.Sound.{finishes, Finished, whole_run}
use identity_attack_graph.Graph.Search.Complete.{order-IsDistance, distance_found, order-done}
use identity_attack_graph.Graph.AttackPaths.{
  AttackPath, Trail, Gathered, path_of, attack_policy, attack_paths, before,
}
use identity_attack_graph.Graph.AttackPaths.Chains.{IsRoute, IsTrail, next-IsTrail}
use identity_attack_graph.Graph.AttackPaths.Targets.{IsTarget, Gathers, gather-Gathers, EndApart}
use identity_attack_graph.Graph.AttackPaths.Order.{Ranked, slice_stable-Ranked, take-Ranked}

module _ (g : Graph) (start : Uuid) (max_hops limit : ℕ) where
  gathers : Claim g (attack_policy g start limit)
  gathers = record {
    Good = IsTrail g start;
    Kept = Gathers g start limit;
    good_next = next-IsTrail g start limit;
    keep_push = λ done order a x fresh far h. record {
      sound = h.sound;
      full = h.full;
      once = h.once;
      broken = h.broken;
      ends = h.ends;
      apart = h.apart;
    };
    keep_pop =
        λ done order a x fresh fine h. gather-Gathers g start limit done order a x fresh fine h;
  }

  abbrev trail : Trail
  trail = record { path = start ∷ []; edges = [] }

  abbrev nothing : Gathered
  nothing = record { results = []; visited_target = [] }

  search : Finished gathers start max_hops trail nothing
  unfolding gathers contains
  search =
      finishes gathers start max_hops trail nothing
        (record { chain = refl; nodes_eq = refl; hops_eq = refl })
        (record {
          sound = λ p m. absurd (Memᴰ.not-nil m);
          full = λ x i m. absurd (Memᴰ.not-nil m);
          once = λ v h. cc;
          broken = λ h. cc;
          ends = λ p m. absurd (Memᴰ.not-nil m);
          apart = tt;
        })

  -- A path along capability edges from the source to a target, with as many hops as the distance.
  pub record IsAttackPath (p : AttackPath) : Type 0 where
    pub target : Uuid
    pub is_target : IsTarget g start target p.impact
    pub route : IsRoute g start target p.nodes p.edges p.hops
    pub distance : IsDistance g is_capability_edge start p.hops target
    pub near : p.hops ≤ max_hops

  abbrev found : List AttackPath
  found = (whole_run gathers start max_hops trail nothing).acc.results

  found-IsAttackPath : (p : AttackPath) → Memᴰ p found → IsAttackPath p
  unfolding path_of gathers
  found-IsAttackPath p m =
      let f = search in
      let (x, at, target, q) = f.inv.frontier.kept.sound p m in
      let pushed = subst (Memᴰ x) (sym f.inv.frontier.split) (Memᴰ.append_left _ at) in
      subst IsAttackPath (sym q) (record {
        target = x.id;
        is_target = target;
        route = f.inv.frontier.good x pushed;
        distance = order-IsDistance gathers start max_hops f.done f.order _ f.inv x pushed;
        near = f.inv.frontier.within x pushed;
      })

  -- Unless the loop broke off, there is a path to every target within the bound.
  found-all :
      (whole_run gathers start max_hops trail nothing).halted ≡ false
      → (v : Uuid) (n : ℕ) (impact : Criticality) → IsTarget g start v impact
      → IsDistance g is_capability_edge start n v
      → n ≤ max_hops
      → (p : AttackPath) × Memᴰ p found
        × IsRoute g start v p.nodes p.edges p.hops
        × (p.hops ≡ n)
        × (p.impact ≡ impact)
  unfolding path_of gathers
  found-all on v n impact target d h =
      let f = search in
      let empty = ⊎_elim (λ q. q) (λ b. cc) f.ended in
      let (y, m, q, q') =
        distance_found gathers start max_hops f.done f.order _ f.inv empty on n v d h in
      let popped =
        subst (Memᴰ y) (order-done gathers start max_hops f.done f.order _ f.inv empty on) m in
      let target' = subst (λ w. IsTarget g start w impact) (sym q) target in
      (
        path_of y impact,
        f.inv.frontier.kept.full y impact popped target',
        subst (λ w. IsRoute g start w y.trail.path y.trail.edges y.hops) q
            (f.inv.frontier.good y m),
        q',
        refl,
      )

  abbrev returned : List AttackPath
  returned = attack_paths g start max_hops limit

  abbrev sorted : List AttackPath
  sorted = slice_stable before found

  returned-eq : returned ≡ (if ltb limit (length sorted) then take limit sorted else sorted)
  unfolding attack_paths gathers
  returned-eq = refl

  returned-found : {p : AttackPath} → Memᴰ p returned → Memᴰ p found
  returned-found {p} m = elim (Bool-cases (ltb limit (length sorted))) [
    | inl many ↦ mem-slice_stable before found (Memᴰ-take limit _ (rw (returned-eq, many) at m))
    | inr few ↦ mem-slice_stable before found (rw (returned-eq, few) at m)
  ]

  returned-Ranked : Ranked returned
  returned-Ranked = elim (Bool-cases (ltb limit (length sorted))) [
    | inl many ↦ rw (returned-eq, many) (take-Ranked limit sorted (slice_stable-Ranked found))
    | inr few ↦ rw (returned-eq, few) (slice_stable-Ranked found)
  ]

  returned-apart : Pairs (EndApart start) returned
  unfolding gathers
  returned-apart =
      let all =
        slice_stable-Pairs (EndApart start) before (λ p q h e. h (sym e)) found
          search.inv.frontier.kept.apart in
      elim (Bool-cases (ltb limit (length sorted))) [
        | inl many ↦ rw (returned-eq, many) (take-Pairs (EndApart start) limit sorted all)
        | inr few ↦ rw (returned-eq, few) all
      ]

  length-returned : length returned ≤ limit
  length-returned = elim (Bool-cases (ltb limit (length sorted))) [
    | inl many ↦ rw (returned-eq, many) (length-take-le limit sorted)
    | inr few ↦ rw (returned-eq, few) (ground arith)
  ]

  -- Fewer paths than the limit are all that were found.
  returned_few : length returned < limit → (returned ≡ sorted) × (length found < limit)
  returned_few h = elim (Bool-cases (ltb limit (length sorted))) [
    | inl many ↦
        let h' : length (take limit sorted) < limit =
          subst (λ l. length l < limit) (returned-eq ∙ rw many) h in
        absurd (omega (arith, length-take_of_le limit sorted (ground arith)))
    | inr few ↦
        let e : returned ≡ sorted = returned-eq ∙ rw few in
        (e, omega (arith, ap (length {A = AttackPath}) e, length-slice_stable before found))
  ]

  not_broken :
      length found < limit → (whole_run gathers start max_hops trail nothing).halted ≡ false
  unfolding gathers
  not_broken h = elim (Bool-cases (whole_run gathers start max_hops trail nothing).halted) [
    | inl b ↦ absurd (omega (arith, search.inv.frontier.kept.broken b))
    | inr on ↦ on
  ]

  -- Every returned path is a route along capability edges to a target other than the source, with
  -- as few hops as any such route and no more than maxHops; no two paths end at the same node; the
  -- paths are ranked by impact, then by hops; and there are at most `limit` of them.
  pub attack_paths_sound :
      ((p : AttackPath) → Memᴰ p returned → IsAttackPath p)
      × Pairs (EndApart start) returned
      × Ranked returned
      × (length returned ≤ limit)
  attack_paths_sound = (
    λ p m. found-IsAttackPath p (returned-found m),
    returned-apart,
    returned-Ranked,
    length-returned,
  )

  -- Where fewer than `limit` paths are returned none is missing: each target within maxHops has its
  -- path, with its impact, and the distance as its hops.
  pub attack_paths_complete :
      length returned < limit
      → (v : Uuid) (n : ℕ) (impact : Criticality) → IsTarget g start v impact
      → IsDistance g is_capability_edge start n v
      → n ≤ max_hops
      → (p : AttackPath) × Memᴰ p returned
        × IsRoute g start v p.nodes p.edges p.hops
        × (p.hops ≡ n)
        × (p.impact ≡ impact)
  attack_paths_complete few v n impact target d h =
      let (same, fewer) = returned_few few in
      let (p, m, route, hops, rank) = found-all (not_broken fewer) v n impact target d h in
      (p, subst (Memᴰ p) (sym same) (slice_stable-mem before found m), route, hops, rank)
