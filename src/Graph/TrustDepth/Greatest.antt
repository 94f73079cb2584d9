-- ===== src/Graph/TrustDepth/Greatest.antt =====
-- What `TrustChainDepth` returns.
use mathlib.Core.List.Memᴰ
use identity_attack_graph.Prelude.{
  ℕ, ◌≤◌, ◌≡◌, refl, Bool, false, List, [], ◌∷◌, ◌++◌, Memᴰ, arith, inl, inr, subst, sym, ltb,
  Bool-cases, ⊎_elim, ◌⊎◌,
}
use identity_attack_graph.Models.{Uuid}
use identity_attack_graph.Graph.{Graph, is_trust_edge}
use identity_attack_graph.Graph.Search.{Item}
use identity_attack_graph.Graph.Search.Walk.{IsDistance, here}
use identity_attack_graph.Graph.Search.Invariant.{Claim}
use identity_attack_graph.Graph.Search.Sound.{finishes}
use identity_attack_graph.Graph.Search.Complete.{order-IsDistance, distance_found, order-done}
use identity_attack_graph.Graph.TrustDepth.{deepen, trust_policy, trust_chain_depth}

abbrev Entry : Type 0
Entry = Item (Unit {0})

-- The depth bounds the hops of all that were popped, and is the hops of one of them or 0.
abbrev Deepest : List Entry → List Entry → ℕ → Bool → Type 0
Deepest done order depth b =
    (b ≡ false)
    × ((x : Entry) → Memᴰ x done → x.hops ≤ depth)
    × ((depth ≡ 0) ⊎ ((x : Entry) × Memᴰ x done × (x.hops ≡ depth)))

deepen-Deepest :
    (done order : List Entry) (depth : ℕ) (x : Entry)
    → Deepest done order depth false
    → Deepest (done ++ x ∷ []) order (deepen depth x).0 (deepen depth x).1
deepen-Deepest done order depth x (_, bound, at) = elim (Bool-cases (ltb depth x.hops)) [
  | inl more ↦ rw more (
    refl,
    λ y m. elim (Memᴰ.append_cases done m) [
      | inl old ↦ ground (arith, bound y old)
      | inr last ↦
          subst (λ (w : Entry). w.hops ≤ x.hops) (sym (Memᴰ.eq_of_singleton last)) (omega arith)
    ],
    inr (x, Memᴰ.append_right done (Memᴰ.head refl), refl),
  )
  | inr less ↦ rw less (
    refl,
    λ y m. elim (Memᴰ.append_cases done m) [
      | inl old ↦ bound y old
      | inr last ↦
          subst (λ (w : Entry). w.hops ≤ depth) (sym (Memᴰ.eq_of_singleton last)) (ground arith)
    ],
    ⊎_elim inl (λ (y, m, q). inr (y, Memᴰ.append_left (x ∷ []) m, q)) at,
  )
]

deepest : (g : Graph) → Claim g trust_policy
deepest g = record {
  Good = λ x. Unit {0};
  Kept = Deepest;
  good_next = λ c e fine hop. tt;
  keep_push = λ done order depth x fresh far kept. kept;
  keep_pop = λ done order depth x fresh fine kept. deepen-Deepest done order depth x kept;
}

module _ (g : Graph) (start : Uuid) (max_hops : ℕ) where
  -- `TrustChainDepth` is the greatest number n ≤ maxHops such that some node is n hops away along
  -- trust edges, by a shortest walk.
  pub trust_chain_depth_greatest :
      ((v : Uuid) × IsDistance g is_trust_edge start (trust_chain_depth g start max_hops) v
        × (trust_chain_depth g start max_hops ≤ max_hops))
      × ((n : ℕ) (v : Uuid)
          → IsDistance g is_trust_edge start n v
          → n ≤ max_hops
          → n ≤ trust_chain_depth g start max_hops)
  unfolding trust_chain_depth deepest
  trust_chain_depth_greatest =
      let k = deepest g in
      let f = finishes k start max_hops tt 0 tt (refl, λ x m. absurd (Memᴰ.not-nil m), inl refl) in
      let (on, bound, at) = f.inv.frontier.kept in
      let empty = ⊎_elim (λ q. q) (λ h. cc) f.ended in
      let all = order-done k start max_hops f.done f.order _ f.inv empty on in
      (
        elim at [
          | inl zero_deep ↦ (
            start,
            subst (λ n. IsDistance g is_trust_edge start n start) (sym zero_deep)
                (record { walk = here; least = λ m w. omega arith }),
            omega arith,
          )
          | inr (y, m, q) ↦
              let m' = subst (Memᴰ y) (sym all) m in
              (
                y.id,
                subst (λ n. IsDistance g is_trust_edge start n y.id) q
                    (order-IsDistance k start max_hops f.done f.order _ f.inv y m'),
                omega (arith, f.inv.frontier.within y m'),
              )
        ],
        λ n v d h.
            let (y, m, q, q') =
              distance_found k start max_hops f.done f.order _ f.inv empty on n v d h in
            omega (arith, bound y (subst (Memᴰ y) all m)),
      )
