-- ===== src/Graph/BlastRadius/Exact.antt =====
-- What `ComputeBlastRadius` returns.
use mathlib.Core.List.Memᴰ
use text.Mathlib.TextEquality.{eq_iff}
use identity_attack_graph.Prelude.{
  ℕ, nat_eq, ◌≤◌, ◌<◌, string_eq, ◌≡◌, ◌⊎◌, ◌↔◌, refl, sym, ◌∙◌, ap, subst, List, [], ◌∷◌, Memᴰ,
  foldl, arith, if◌then◌else◌, some, Option-cases, inl, inr, ltb, ⊎_elim,
}
use identity_attack_graph.Prelude.Map.{find-mem, mem-find}
use identity_attack_graph.Prelude.Int.{ℤ, pos, negsuc, pos_part}
use identity_attack_graph.Models.{Uuid, crit_crown_jewel}
use identity_attack_graph.Graph.{Graph, Node, node, is_capability_edge}
use identity_attack_graph.Graph.Search.Walk.{IsDistance}
use identity_attack_graph.Graph.Reachable.{reachable}
use identity_attack_graph.Graph.Reachable.Exact.{reachable_exact, reachable-Keyed}
use identity_attack_graph.Graph.BlastRadius.{
  BlastRadius, no_radius, roll, roll_up, compute_blast_radius,
}
use identity_attack_graph.Graph.BlastRadius.AnyOrder.{
  Effect, nothing, plain, high, admin, apply, effect, effect_of, roll-apply,
}

-- The node of an entry is a resource of the highest criticality.
pub record IsCrownJewel (g : Graph) (v : Uuid) : Type 0 where
  pub info : Node
  pub here : node g v ≡ some info
  pub resource : info.kind ≡ "resource"
  pub crown : info.criticality ≡ crit_crown_jewel

crown-effect : (g : Graph) (v : Uuid) (n : ℕ) → IsCrownJewel g v → effect g (v, n) ≡ Effect.crown n
unfolding effect effect_of
crown-effect g v n j =
    let record { info = i; here = h; resource = r; crown = c } = j in
    rw (h, effect) (ground (arith, eq_iff i.kind "resource", eq_iff i.criticality "crown_jewel"))

effect_of-crown :
    (i : Node) (n m : ℕ)
    → effect_of i n ≡ Effect.crown m
    → (i.kind ≡ "resource") × (i.criticality ≡ crit_crown_jewel) × (m ≡ n)
unfolding effect_of
effect_of-crown i n m h =
    ground (arith, eq_iff i.kind "resource", eq_iff i.criticality "crown_jewel")

effect-crown :
    (g : Graph) (v : Uuid) (n m : ℕ) → effect g (v, n) ≡ Effect.crown m → IsCrownJewel g v × (m ≡ n)
unfolding effect
effect-crown g v n m h = elim (Option-cases (node g v)) [
  | inl absent ↦ absurd (not_crown m (rw (absent, effect) at h))
  | inr (i, present) ↦
      let (r, c, q) = effect_of-crown i n m (rw (present, effect) at h) in
      (record { info = i; here = present; resource = r; crown = c }, q)
]
  where
    not_crown : (k : ℕ) → Effect.nothing ≡ Effect.crown k → ⊥
    not_crown k e = cc

-- `n` bounds a found distance.
abbrev Closer : ℤ → ℕ → Type 0
Closer z n = (m : ℕ) × (z ≡ pos m) × (m ≤ n)

-- One step: the nearest is kept or is the new one, and lies below both.
record Nearer (b b' : BlastRadius) (e : Effect) : Type 0 where
  from :
      (b'.nearest_crown_jewel ≡ b.nearest_crown_jewel)
      ⊎ ((n : ℕ) × (e ≡ Effect.crown n) × (b'.nearest_crown_jewel ≡ pos n))
  keeps : (k : ℕ) → b.nearest_crown_jewel ≡ pos k → Closer b'.nearest_crown_jewel k
  takes :
      (n : ℕ)
      → e ≡ Effect.crown n
      → (b.nearest_crown_jewel ≡ negsuc 0) ⊎ ((k : ℕ) × (b.nearest_crown_jewel ≡ pos k))
      → Closer b'.nearest_crown_jewel n

abbrev IsFound : BlastRadius → Type 0
IsFound b = (b.nearest_crown_jewel ≡ negsuc 0) ⊎ ((k : ℕ) × (b.nearest_crown_jewel ≡ pos k))

apply-Nearer : (e : Effect) (b : BlastRadius) → Nearer b (apply e b) e
unfolding apply
apply-Nearer (Effect.crown n) b = record {
  from = ground arith;
  keeps = λ k h. rw h (if ltb n k then n else k, ground arith, ground arith);
  takes = λ m q h. elim h [
    | inl unset ↦ rw unset (n, refl, ground arith)
    | inr (k, set) ↦ rw set (if ltb n k then n else k, ground arith, ground arith)
  ];
}
apply-Nearer nothing b = record {
  from = inl refl;
  keeps = λ k h. (k, h, omega arith);
  takes = λ n q h. cc;
}
apply-Nearer plain b = record {
  from = inl refl;
  keeps = λ k h. (k, h, omega arith);
  takes = λ n q h. cc;
}
apply-Nearer high b = record {
  from = inl refl;
  keeps = λ k h. (k, h, omega arith);
  takes = λ n q h. cc;
}
apply-Nearer admin b = record {
  from = inl refl;
  keeps = λ k h. (k, h, omega arith);
  takes = λ n q h. cc;
}

module _ (g : Graph) where
  -- What the loop over some entries leaves in `NearestCrownJewel`.
  record Rolled (b b' : BlastRadius) (xs : List (Uuid × ℕ)) : Type 0 where
    origin :
        (b'.nearest_crown_jewel ≡ b.nearest_crown_jewel)
        ⊎ ((v : Uuid) × (n : ℕ) × Memᴰ (v, n) xs
            × IsCrownJewel g v
            × (b'.nearest_crown_jewel ≡ pos n))
    bound : (k : ℕ) → b.nearest_crown_jewel ≡ pos k → Closer b'.nearest_crown_jewel k
    least : (v : Uuid) (n : ℕ) → Memᴰ (v, n) xs → IsCrownJewel g v → Closer b'.nearest_crown_jewel n

  nearest_after : (e : Effect) (b : BlastRadius) → IsFound b → IsFound (apply e b)
  nearest_after e b h = elim (apply-Nearer e b).from [
    | inl same ↦ ⊎_elim (λ q. inl (same ∙ q)) (λ (k, q). inr (k, same ∙ q)) h
    | inr (n, _, q) ↦ inr (n, q)
  ]

  foldl-Rolled :
      (b : BlastRadius) (xs : List (Uuid × ℕ)) → IsFound b → Rolled b (foldl (roll g) b xs) xs
  foldl-Rolled b [] h = record {
    origin = inl refl;
    bound = λ k q. (k, q, omega arith);
    least = λ v n m. absurd (Memᴰ.not-nil m);
  }
  foldl-Rolled b ((v, n) ∷ xs) h = rw (roll-apply g b (v, n)) (
      let e = effect g (v, n) in
      let first = apply-Nearer e b in
      let rest = foldl-Rolled (apply e b) xs (nearest_after e b h) in
      record {
        origin = elim rest.origin [
          | inr (w, m, at, j, q) ↦ inr (w, m, Memᴰ.tail at, j, q)
          | inl same ↦ elim first.from [
            | inl same' ↦ inl (same ∙ same')
            | inr (m, q, near) ↦
                let (j, q') = effect-crown g v n m q in
                inr (v, n, Memᴰ.head refl, j, same ∙ near ∙ ap pos q')
          ]
        ];
        bound = λ k q.
            let (m, q', le) = first.keeps k q in
            let (m', at, le') = rest.bound m q' in (m', at, omega arith);
        least = λ w k at j. elim (Memᴰ.cases_cons at) [
          | inr later ↦ rest.least w k later j
          | inl q ↦
              let here = crown-effect g w k j in
              let same : e ≡ Effect.crown k = subst (λ x. effect g x ≡ Effect.crown k) q here in
              let (m, q', le) = first.takes k same h in
              let (m', at', le') = rest.bound m q' in (m', at', omega arith)
        ];
      })

  -- The distance of a nearest crown jewel of the entries, or -1 where there is none.
  abbrev IsNearest : List (Uuid × ℕ) → ℤ → Type 0
  IsNearest xs z =
      (z ≡ negsuc 0) × ((v : Uuid) (n : ℕ) → Memᴰ (v, n) xs → ¬ IsCrownJewel g v)
      ⊎ ((v : Uuid) × (n : ℕ) × Memᴰ (v, n) xs
          × IsCrownJewel g v
          × (z ≡ pos n)
          × ((w : Uuid) (m : ℕ) → Memᴰ (w, m) xs → IsCrownJewel g w → n ≤ m))

  roll_up-IsNearest : (xs : List (Uuid × ℕ)) → IsNearest xs (roll_up g xs).nearest_crown_jewel
  unfolding roll_up
  roll_up-IsNearest xs =
      let r = foldl-Rolled no_radius xs (inl refl) in
      elim r.origin [
        | inl unset ↦ inl (unset, λ v n m j. let (k, q, _) = r.least v n m j in cc (unset, q))
        | inr (v, n, m, j, q) ↦ inr (
          v,
          n,
          m,
          j,
          q,
          λ w k m' j'.
              let (i, q', le) = r.least w k m' j' in
              let same : pos_part (pos i) ≡ pos_part (pos n) = ap pos_part (sym q' ∙ q) in
              omega arith,
        )
      ]

-- A node that the search finds: n ≥ 1 hops away by a shortest walk, and within maxHops.
abbrev pub Within : Graph → Uuid → ℕ → Uuid → ℕ → Type 0
Within g start max_hops v n = (0 < n) × (n ≤ max_hops) × IsDistance g is_capability_edge start n v

module _ (g : Graph) (start : Uuid) (max_hops : ℕ) where
  entry-Within :
      (v : Uuid) (n : ℕ) → Memᴰ (v, n) (reachable g start max_hops) ↔ Within g start max_hops v n
  entry-Within v n = (
    λ m.
        (reachable_exact g start max_hops v n).0
          (mem-find v n (reachable g start max_hops) (reachable-Keyed g start max_hops) m),
    λ w. find-mem v n (reachable g start max_hops) ((reachable_exact g start max_hops v n).1 w),
  )

  -- `NearestCrownJewel` is -1 where no crown jewel is found within maxHops, and otherwise the
  -- distance of one than which none is nearer.
  pub nearest_exact :
      let z = (compute_blast_radius g start max_hops).nearest_crown_jewel in
      (z ≡ negsuc 0) × ((v : Uuid) (n : ℕ) → Within g start max_hops v n → ¬ IsCrownJewel g v)
      ⊎ ((v : Uuid) × (n : ℕ) × Within g start max_hops v n
          × IsCrownJewel g v
          × (z ≡ pos n)
          × ((w : Uuid) (m : ℕ) → Within g start max_hops w m → IsCrownJewel g w → n ≤ m))
  unfolding compute_blast_radius
  nearest_exact = elim (roll_up-IsNearest g (reachable g start max_hops)) [
    | inl (unset, no_jewel) ↦ inl (unset, λ v n w. no_jewel v n ((entry-Within v n).1 w))
    | inr (v, n, m, j, q, least) ↦ inr (
      v,
      n,
      (entry-Within v n).0 m,
      j,
      q,
      λ w k within j'. least w k ((entry-Within w k).1 within) j',
    )
  ]
