-- ===== src/Graph/AttackPaths/Order.antt =====
-- The order of the paths: higher impact first, then fewer hops.
use identity_attack_graph.Prelude.{
  ℕ, ◌≤◌, ◌<◌, ◌≡◌, ◌⊎◌, true, false, List, arith, take, All, ◌∷◌, [], zero, suc, ltb, nat_beq,
  if◌then◌else◌,
}
use identity_attack_graph.Prelude.Sort.{slice_stable, Ordered, slice_stable-Ordered}
use identity_attack_graph.Models.{criticality_rank}
use identity_attack_graph.Graph.AttackPaths.{AttackPath, before}

-- `a` may stand in front of `b`.
abbrev pub Precedes : AttackPath → AttackPath → Type 0
Precedes a b =
    (criticality_rank b.impact < criticality_rank a.impact)
    ⊎ (criticality_rank b.impact ≡ criticality_rank a.impact) × (a.hops ≤ b.hops)

-- Each path may stand in front of all that follow it.
abbrev pub Ranked : List AttackPath → Type 0
Ranked [] = Unit
Ranked (x ∷ xs) = All (Precedes x) xs × Ranked xs

before-asym : (a b : AttackPath) → before a b ≡ true → before b a ≡ false
unfolding before
before-asym a b h = ground arith

rank_trans :
    (i j k x y z : ℕ)
    → (if nat_beq k j then ltb z y else ltb j k) ≡ false
    → (if nat_beq j i then ltb y x else ltb i j) ≡ false
    → (if nat_beq k i then ltb z x else ltb i k) ≡ false
rank_trans i j k x y z p q = ground arith

before_trans : (a b c : AttackPath) → before c b ≡ false → before b a ≡ false → before c a ≡ false
unfolding before
before_trans a b c h h' =
    rank_trans (criticality_rank a.impact) (criticality_rank b.impact) (criticality_rank c.impact)
      a.hops b.hops c.hops h h'

not_before : (a b : AttackPath) → before b a ≡ false → Precedes a b
unfolding before
not_before a b h = by_rank (criticality_rank a.impact) (criticality_rank b.impact) h
  where
    by_rank :
        (i j : ℕ)
        → (if nat_beq j i then ltb b.hops a.hops else ltb i j) ≡ false
        → (j < i) ⊎ (j ≡ i) × (a.hops ≤ b.hops)
    by_rank i j p = ground arith

Ordered-Ranked : (ps : List AttackPath) → Ordered before ps → Ranked ps
Ordered-Ranked [] o = tt
Ordered-Ranked (x ∷ xs) o = (all xs o.0, Ordered-Ranked xs o.1)
  where
    all : (ys : List AttackPath) → All (λ y. before y x ≡ false) ys → All (Precedes x) ys
    all [] h = tt
    all (y ∷ ys) h = (not_before x y h.0, all ys h.1)

pub slice_stable-Ranked : (ps : List AttackPath) → Ranked (slice_stable before ps)
slice_stable-Ranked ps =
    Ordered-Ranked (slice_stable before ps)
      (slice_stable-Ordered before before-asym before_trans ps)

pub take-Ranked : (n : ℕ) (ps : List AttackPath) → Ranked ps → Ranked (take n ps)
take-Ranked zero ps r = tt
take-Ranked (suc n) [] r = tt
take-Ranked (suc n) (x ∷ xs) r = (all n xs r.0, take-Ranked n xs r.1)
  where
    all : (m : ℕ) (ys : List AttackPath) → All (Precedes x) ys → All (Precedes x) (take m ys)
    all zero ys h = tt
    all (suc m) [] h = tt
    all (suc m) (y ∷ ys) h = (h.0, all m ys h.1)
