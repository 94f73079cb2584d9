-- ===== src/Graph/Reachable/Exact.antt =====
-- What `Reachable` returns.
use mathlib.Core.List.Memᴰ
use mathlib.Core.Path.{subst₂}
use identity_attack_graph.Prelude.{
  ℕ, ◌≤◌, ◌<◌, ◌≡◌, refl, ◌↔◌, nat_eq, Bool, true, false, List, [], ◌∷◌, ◌++◌, Memᴰ, arith, inl,
  inr, subst, sym, ap, ◌∙◌, some, ltb, if◌then◌else◌, Bool-cases, ⊎_elim, All-mem,
}
use identity_attack_graph.Prelude.Map.{Map, find, insert, Keyed, insert_fresh, find-mem, mem-find}
use identity_attack_graph.Models.{Uuid}
use identity_attack_graph.Graph.{Graph, is_capability_edge}
use identity_attack_graph.Graph.Search.{Item}
use identity_attack_graph.Graph.Search.Walk.{IsDistance}
use identity_attack_graph.Graph.Search.Invariant.{Claim, Distinct}
use identity_attack_graph.Graph.Search.Sound.{finishes}
use identity_attack_graph.Graph.Search.Complete.{order-IsDistance, distance_found}
use identity_attack_graph.Graph.Reachable.{reach_policy, reachable}

abbrev Entry : Type 0
Entry = Item (Unit {0})

-- The entries that stand in the map: all but the first.
reached : List Entry → Map Uuid ℕ
reached [] = []
reached (x ∷ xs) = if ltb 0 x.hops then (x.id, x.hops) ∷ reached xs else reached xs

reached-concat :
    (xs : List Entry) (x : Entry)
    → 0 < x.hops
    → reached (xs ++ x ∷ []) ≡ reached xs ++ (x.id, x.hops) ∷ []
unfolding reached
reached-concat [] x h = ground arith
reached-concat (y ∷ xs) x h = ground (arith, reached-concat xs x h)

mem-reached :
    (xs : List Entry) (w : Uuid × ℕ)
    → Memᴰ w (reached xs)
    → (x : Entry) × Memᴰ x xs × (x.id ≡ w.0) × (x.hops ≡ w.1) × (0 < x.hops)
unfolding reached
mem-reached [] w m = absurd (Memᴰ.not-nil m)
mem-reached (x ∷ xs) w m = elim (Bool-cases (ltb 0 x.hops)) [
  | inl far ↦ elim (Memᴰ.cases_cons (rw far at m)) [
    | inl q ↦ (
      x,
      Memᴰ.head refl,
      sym (ap (λ (v : Uuid × ℕ). v.0) q),
      sym (ap (λ (v : Uuid × ℕ). v.1) q),
      ground arith,
    )
    | inr later ↦
        let (y, at, q, q', far') = mem-reached xs w later in (y, Memᴰ.tail at, q, q', far')
  ]
  | inr root ↦
      let (y, at, q, q', far') = mem-reached xs w (rw root at m) in (y, Memᴰ.tail at, q, q', far')
]

reached-mem :
    (xs : List Entry) (x : Entry) → Memᴰ x xs → 0 < x.hops → Memᴰ (x.id, x.hops) (reached xs)
unfolding reached
reached-mem [] x m h = absurd (Memᴰ.not-nil m)
reached-mem (y ∷ xs) x m h = elim (Memᴰ.cases_cons m) [
  | inl q ↦
      let far : ltb 0 x.hops ≡ true = ground arith in
      rw (subst (λ (w : Entry). ltb 0 w.hops ≡ true) q far)
        (Memᴰ.head (ap (λ (w : Entry). (w.id, w.hops)) q))
  | inr later ↦ elim (Bool-cases (ltb 0 y.hops)) [
    | inl far ↦ rw far (Memᴰ.tail (reached-mem xs x later h))
    | inr near ↦ rw near (reached-mem xs x later h)
  ]
]

reached-Keyed : (xs : List Entry) → Distinct xs → Keyed (reached xs)
unfolding reached
reached-Keyed [] d = tt
reached-Keyed (x ∷ xs) d = elim (Bool-cases (ltb 0 x.hops)) [
  | inl far ↦ rw far (
    λ w m q. let (y, at, same, _, _) = mem-reached xs w m in All-mem _ xs d.0 at (sym (same ∙ q)),
    reached-Keyed xs d.1,
  )
  | inr near ↦ rw near (reached-Keyed xs d.1)
]

-- The map holds what was pushed, in the order of the pushes, and the loop never breaks.
abbrev Records : List Entry → List Entry → Map Uuid ℕ → Bool → Type 0
Records done order out b = (b ≡ false) × (out ≡ reached order)

records : (g : Graph) → Claim g reach_policy
records g = record {
  Good = λ x. Unit {0};
  Kept = Records;
  good_next = λ c e fine hop. tt;
  keep_push = λ done order out x fresh far kept. (
    refl,
    ap (insert x.id x.hops) kept.1
        ∙ insert_fresh x.id x.hops (reached order)
            (λ w m q. let (y, at, same, _, _) = mem-reached order w m in fresh y at (same ∙ q))
        ∙ sym (reached-concat order x far),
  );
  keep_pop = λ done order out x fresh fine kept. (refl, kept.1);
}

module _ (g : Graph) (start : Uuid) (max_hops : ℕ) where
  abbrev Summary : Type 0
  Summary =
      (order : List Entry) × (reachable g start max_hops ≡ reached order)
      × Distinct order
      × ((x : Entry)
          → Memᴰ x order
          → IsDistance g is_capability_edge start x.hops x.id × (x.hops ≤ max_hops))
      × ((n : ℕ) (v : Uuid)
          → IsDistance g is_capability_edge start n v
          → n ≤ max_hops
          → (y : Entry) × Memᴰ y order × (y.id ≡ v) × (y.hops ≡ n))

  summary : Summary
  unfolding reachable records reached
  summary =
      let f = finishes (records g) start max_hops tt [] tt (refl, refl) in
      let k = records g in
      let on = f.inv.frontier.kept.0 in
      let empty = ⊎_elim (λ q. q) (λ h. cc) f.ended in
      (
        f.order,
        f.inv.frontier.kept.1,
        f.inv.frontier.distinct,
        λ x m. (
          order-IsDistance k start max_hops f.done f.order _ f.inv x m,
          f.inv.frontier.within x m,
        ),
        distance_found k start max_hops f.done f.order _ f.inv empty on,
      )

  -- `Reachable` maps a node to n exactly if n is the number of hops of a shortest walk to it along
  -- capability edges, and 1 ≤ n ≤ maxHops.
  pub reachable_exact :
      (v : Uuid) (n : ℕ)
      → (find v (reachable g start max_hops) ≡ some n)
        ↔ ((0 < n) × (n ≤ max_hops) × IsDistance g is_capability_edge start n v)
  reachable_exact v n =
      let (order, same, distinct, exact, all) = summary in
      (
        λ h.
            let (x, m, q, q', far) =
              mem-reached order (v, n) (find-mem v n (reached order) (rw same at h)) in
            let (d, near) = exact x m in
            (
              subst (λ k. 0 < k) q' far,
              subst (λ k. k ≤ max_hops) q' near,
              subst₂ (λ k w. IsDistance g is_capability_edge start k w) q' q d,
            ),
        λ h.
            let (y, m, q, q') = all n v h.2 h.1 in
            rw same (
              mem-find v n (reached order) (reached-Keyed order distinct) (
                subst₂ (λ w k. Memᴰ (w, k) (reached order)) q q'
                  (reached-mem order y m (omega arith)))),
      )

  -- The entries of the map are for different nodes.
  pub reachable-Keyed : Keyed (reachable g start max_hops)
  reachable-Keyed =
      let (order, same, distinct, _, _) = summary in rw same (reached-Keyed order distinct)
