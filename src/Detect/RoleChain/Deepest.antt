-- ===== src/Detect/RoleChain/Deepest.antt =====
-- Which chain is reported.
use identity_attack_graph.Prelude.{
  ℕ, ◌≤◌, ◌<◌, ◌≡◌, ◌⊎◌, refl, Bool, true, false, List, Memᴰ, Option, some, none, inl, inr, arith,
  ltb, nat_beq, if◌then◌else◌, leb, ◌&&◌, sym, ◌∙◌,
}
use identity_attack_graph.Prelude.Pick.{pick, IsPick, pick-IsPick}
use identity_attack_graph.Models.{criticality_rank}
use identity_attack_graph.Graph.AttackPaths.{AttackPath}
use identity_attack_graph.Detect.RoleChain.{
  better_chain, count_trust_edges, is_chain, deepest_trust_chain,
}

-- `a` is no better than `b`: of a lower impact, or of the same with no more hops.
abbrev pub NoDeeper : AttackPath → AttackPath → Type 0
NoDeeper a b =
    (criticality_rank a.impact < criticality_rank b.impact)
    ⊎ (criticality_rank a.impact ≡ criticality_rank b.impact) × (a.hops ≤ b.hops)

abbrev better_by : ℕ → ℕ → ℕ → ℕ → Bool
better_by ra rb m n = if nat_beq ra rb then ltb n m else ltb rb ra

better_by_lower :
    (a b c x y z : ℕ)
    → better_by b a y x ≡ true
    → better_by c a z x ≡ false
    → better_by c b z y ≡ false
better_by_lower a b c x y z p q = ground arith

better_by_not : (a b x y : ℕ) → better_by a b x y ≡ false → (a < b) ⊎ (a ≡ b) × (x ≤ y)
better_by_not a b x y h = ground arith

better_by_self : (a x : ℕ) → better_by a a x x ≡ false
better_by_self a x = ground arith

better_chain-eq :
    (p q : AttackPath)
    → better_chain p q
      ≡ better_by (criticality_rank p.impact) (criticality_rank q.impact) p.hops q.hops
unfolding better_chain
better_chain-eq p q = refl

is_chain-parts :
    (p : AttackPath) → is_chain p ≡ true → (2 ≤ p.hops) × (1 ≤ count_trust_edges p.edges)
unfolding is_chain
is_chain-parts p h = by_count p.hops (count_trust_edges p.edges) h
  where
    by_count : (m n : ℕ) → (leb 2 m && leb 1 n) ≡ true → (2 ≤ m) × (1 ≤ n)
    by_count m n q = ground arith

is_chain-not :
    (p : AttackPath) → is_chain p ≡ false → (p.hops < 2) ⊎ (count_trust_edges p.edges ≡ 0)
unfolding is_chain
is_chain-not p h = by_count p.hops (count_trust_edges p.edges) h
  where
    by_count : (m n : ℕ) → (leb 2 m && leb 1 n) ≡ false → (m < 2) ⊎ (n ≡ 0)
    by_count m n q = ground arith

-- `deepestTrustChain` returns a path of at least two hops with a trust edge, than which no other such
-- path has a higher impact, or the same impact and more hops; and nothing only where every path has
-- fewer than two hops or no trust edge.
pub deepest_trust_chain_lem :
    (ps : List AttackPath)
    → ((deepest_trust_chain ps ≡ none)
        × ((p : AttackPath) → Memᴰ p ps → (p.hops < 2) ⊎ (count_trust_edges p.edges ≡ 0)))
      ⊎ ((b : AttackPath) × (deepest_trust_chain ps ≡ some b)
          × Memᴰ b ps
          × (2 ≤ b.hops)
          × (1 ≤ count_trust_edges b.edges)
          × ((p : AttackPath) → Memᴰ p ps → is_chain p ≡ true → NoDeeper p b))
deepest_trust_chain_lem ps =
    by_choice (deepest_trust_chain ps) refl (unfold deepest_trust_chain in picked)
  where
    picked : IsPick is_chain better_chain ps (pick is_chain better_chain none ps)
    picked =
        pick-IsPick is_chain better_chain
          (λ a. better_chain-eq a a ∙ better_by_self (criticality_rank a.impact) a.hops)
          (λ a b c p q.
            better_chain-eq c b
            ∙ better_by_lower (criticality_rank a.impact) (criticality_rank b.impact)
                (criticality_rank c.impact) a.hops b.hops c.hops (sym (better_chain-eq b a) ∙ p)
                (sym (better_chain-eq c a) ∙ q))
          ps

    by_choice :
        (o : Option AttackPath)
        → deepest_trust_chain ps ≡ o
        → IsPick is_chain better_chain ps o
        → ((deepest_trust_chain ps ≡ none)
            × ((p : AttackPath) → Memᴰ p ps → (p.hops < 2) ⊎ (count_trust_edges p.edges ≡ 0)))
          ⊎ ((b : AttackPath) × (deepest_trust_chain ps ≡ some b)
              × Memᴰ b ps
              × (2 ≤ b.hops)
              × (1 ≤ count_trust_edges b.edges)
              × ((p : AttackPath) → Memᴰ p ps → is_chain p ≡ true → NoDeeper p b))
    by_choice none e h = inl (e, λ p m. is_chain-not p (h p m))
    by_choice (some b) e h =
        let (long, pivots) = is_chain-parts b h.1 in
        inr (
          b,
          e,
          h.0,
          long,
          pivots,
          λ p m f.
              better_by_not (criticality_rank p.impact) (criticality_rank b.impact) p.hops b.hops
                (sym (better_chain-eq p b) ∙ h.2 p m f),
        )
