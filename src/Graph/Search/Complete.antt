-- ===== src/Graph/Search/Complete.antt =====
-- Hops are distances, and the nodes within the bound are all found.
use mathlib.Core.List.Memᴰ
use mathlib.Core.List.{append-nil}
use native.Mathlib.Decide.{dec_lt}
use identity_attack_graph.Prelude.{
  ℕ, suc, ◌≤◌, ◌≡◌, false, List, [], ◌++◌, Memᴰ, arith, inl, inr, subst, sym, ap, ◌∙◌,
}
use identity_attack_graph.Models.{Uuid}
use identity_attack_graph.Graph.{Graph}
use identity_attack_graph.Graph.Search.{Item, Search, Policy}
use identity_attack_graph.Graph.Search.Walk.{Walk, here, step, IsDistance}
use identity_attack_graph.Graph.Search.Invariant.{Claim, Closed, Inv, Tidy-lower, Distinct-eq}

module _ {T A : Type 0} {g : Graph} {p : Policy T A} (k : Claim g p) (start : Uuid) (max_hops : ℕ)
    (done order : List (Item T)) (s : Search T A) (i : Inv k start max_hops done order s) where
  open i use {lo, frontier, closed, below}

  -- A pushed entry for `v` that is at most `n` hops away.
  abbrev Found : ℕ → Uuid → Type 0
  Found n v = (y : Item T) × Memᴰ y order × (y.id ≡ v) × (y.hops ≤ n)

  -- Walks up to a bound are found if the edges below it were seen.
  reach_by_walk :
      (bound : ℕ)
      → Closed k start max_hops bound order order
      → {n : ℕ} {v : Uuid} → Walk g p.follows start n v
      → n ≤ bound
      → n ≤ max_hops
      → Found n v
  reach_by_walk bound all here h m = let (x, at, q, z) = frontier.rooted in (x, at, q, omega arith)
  reach_by_walk bound all (step {n} {u} {v} e w hop q) h m =
      let (x, at, same, near) = reach_by_walk bound all w (omega arith) (omega arith) in
      let (y, at', q', near') = all x e at (omega arith) (omega arith) (rw same hop) in
      (y, at', q' ∙ q, omega arith)

  order-Closed-lo : Closed k start max_hops lo order order
  order-Closed-lo x e m bound room hop =
      elim (Memᴰ.append_cases done (subst (Memᴰ x) frontier.split m)) [
        | inl old ↦ below x e old bound room hop
        | inr waiting ↦ absurd (omega (arith, Tidy-lower lo (suc lo) s.queue frontier.tidy waiting))
      ]

  hops_least : (x : Item T) → Memᴰ x order → (m : ℕ) → Walk g p.follows start m x.id → x.hops ≤ m
  hops_least x at m w = elim (dec_lt m x.hops) [
    | yes less ↦
        let (y, at', q, near) =
          reach_by_walk lo order-Closed-lo w (omega (arith, frontier.bounded x at))
            (omega (arith, frontier.within x at)) in
        omega (arith, Distinct-eq order frontier.distinct x y at at' (sym q))
    | no h ↦ omega arith
  ]

  -- The hops of an entry are the distance of its node, also before the search has ended.
  pub order-IsDistance : (x : Item T) → Memᴰ x order → IsDistance g p.follows start x.hops x.id
  order-IsDistance x at = record { walk = frontier.walks x at; least = hops_least x at }

  module _ (empty : s.queue ≡ []) (on : s.halted ≡ false) where
    pub order-done : order ≡ done
    order-done = frontier.split ∙ ap (λ q. done ++ q) empty ∙ append-nil done

    -- At the end every node within the bound was found, at its distance.
    pub distance_found :
        (n : ℕ) (v : Uuid)
        → IsDistance g p.follows start n v
        → n ≤ max_hops
        → (y : Item T) × Memᴰ y order × (y.id ≡ v) × (y.hops ≡ n)
    distance_found n v d h =
        let (y, at, q, near) =
          reach_by_walk max_hops
            (subst (λ l. Closed k start max_hops max_hops l order) (sym order-done) (closed on))
            d.walk h h in
        let far = d.least y.hops (subst (Walk g p.follows start y.hops) q (frontier.walks y at)) in
        (y, at, q, omega arith)
