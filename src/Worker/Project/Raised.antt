-- ===== src/Worker/Project/Raised.antt =====
-- The criticality under which a resource enters the graph.
use mathlib.Core.List.Memᴰ
use identity_attack_graph.Prelude.{
  ℕ, ◌≤◌, ◌<◌, ◌==◌, string_eq, String, ◌≡◌, inl, inr, ⊎_elim, refl, sym, ap, subst, ◌∙◌, true,
  false, List, [], ◌∷◌, foldl, Memᴰ, Option, some, none, arith, ltb, Bool-cases, Option-cases,
}
use identity_attack_graph.Prelude.Map.{
  Map, Keyed, find, find_or, insert, insert-Keyed, find_or-insert, find-mem, mem-find, mem-insert,
}
use identity_attack_graph.Prelude.Folds.{foldl-keeps}
use identity_attack_graph.Models.{Criticality, criticality_rank}
use identity_attack_graph.Models.Inventory.{ResourceBinding}
use identity_attack_graph.Worker.Project.{raise_urn}

ltb-true : (a b : ℕ) → ltb a b ≡ true → a < b
ltb-true a b h = ground arith

ltb-false : (a b : ℕ) → ltb a b ≡ false → b ≤ a
ltb-false a b h = ground arith

abbrev rank_of : String → Map String Criticality → ℕ
rank_of urn m = criticality_rank (find_or "" urn m)

abbrev or_empty : Option Criticality → Criticality
or_empty o = elim o [ some v ↦ v | none ↦ "" ]

lowest : {A : Type 0} {n : ℕ} → 0 < n → n ≤ criticality_rank "" → A
unfolding criticality_rank
lowest h k = absurd (omega (arith, h, k))

-- Writing a criticality that is no lower lowers no rank.
insert_rank :
    (m : Map String Criticality) (k urn : String) (c : Criticality)
    → rank_of k m ≤ criticality_rank c
    → (rank_of urn m ≤ rank_of urn (insert k c m))
      × (k ≡ urn → criticality_rank c ≤ rank_of urn (insert k c m))
insert_rank m k urn c h =
    let q = ap criticality_rank (find_or-insert "" k urn c m) in
    elim (Bool-cases (k == urn)) [
      | inl same ↦
          let at : k ≡ urn = (string_eq.beq_iff k urn).0 same in
          let h' : rank_of urn m ≤ criticality_rank c =
            subst (λ u. rank_of u m ≤ criticality_rank c) at h in
          let r = rw same at q in (omega (arith, h', r), λ _. omega (arith, r))
      | inr other ↦
          let r = rw other at q in
          (omega (arith, r), λ at. absurd (let t = (string_eq.beq_iff k urn).1 at in cc (t, other)))
    ]

raise_urn_rank :
    (m : Map String Criticality) (b : ResourceBinding) (urn : String)
    → (rank_of urn m ≤ rank_of urn (raise_urn m b))
      × (b.resource_urn ≡ urn
          → criticality_rank b.resource_criticality ≤ rank_of urn (raise_urn m b))
unfolding raise_urn
raise_urn_rank m b urn =
    let c = b.resource_criticality in
    elim (Bool-cases (ltb (rank_of b.resource_urn m) (criticality_rank c))) [
      | inr low ↦
          rw low
            (omega arith, λ q. subst (λ u. criticality_rank c ≤ rank_of u m) q (ltb-false _ _ low))
      | inl high ↦
          rw high
            (insert_rank m b.resource_urn urn c (let h = ltb-true _ _ high in omega (arith, h)))
    ]

raise_urns_rank :
    (m : Map String Criticality) (bs : List ResourceBinding) (urn : String)
    → (rank_of urn m ≤ rank_of urn (foldl raise_urn m bs))
      × ((b : ResourceBinding)
          → Memᴰ b bs
          → b.resource_urn ≡ urn
          → criticality_rank b.resource_criticality ≤ rank_of urn (foldl raise_urn m bs))
raise_urns_rank m [] urn = (omega arith, λ b at. absurd (Memᴰ.not-nil at))
raise_urns_rank m (d ∷ bs) urn =
    let (grown, later) = raise_urns_rank (raise_urn m d) bs urn in
    let (kept, here) = raise_urn_rank m d urn in
    (
      omega (arith, grown, kept),
      λ b at q. elim (Memᴰ.cases_cons at) [
        | inr rest ↦ later b rest q
        | inl first ↦
            let own : criticality_rank b.resource_criticality ≤ rank_of urn (raise_urn m d) =
              subst (λ x. criticality_rank x.resource_criticality ≤ rank_of urn (raise_urn m d))
                (sym first) (here (sym (ap (λ (x : ResourceBinding). x.resource_urn) first) ∙ q)) in
            omega (arith, own, grown)
      ],
    )

module _ (bs : List ResourceBinding) where
  -- The entry is a binding's, and of a rank above the lowest.
  pub record IsRaised (w : String × Criticality) : Type 0 where
    pub binding : ResourceBinding
    pub bound : Memᴰ binding bs
    pub of_urn : binding.resource_urn ≡ w.0
    pub declared : binding.resource_criticality ≡ w.1
    pub positive : 0 < criticality_rank w.1

  abbrev IsRolled : Map String Criticality → Type 0
  IsRolled m = Keyed m × ((w : String × Criticality) → Memᴰ w m → IsRaised w)

  raise_urn-IsRolled :
      (m : Map String Criticality) (b : ResourceBinding)
      → Memᴰ b bs
      → IsRolled m
      → IsRolled (raise_urn m b)
  unfolding raise_urn
  raise_urn-IsRolled m b at h =
      let c = b.resource_criticality in
      elim (Bool-cases (ltb (rank_of b.resource_urn m) (criticality_rank c))) [
        | inr low ↦ rw low h
        | inl high ↦ rw high (
          insert-Keyed b.resource_urn c m h.0,
          λ w n.
              ⊎_elim
                (λ q. subst IsRaised (sym q) (record {
                  binding = b;
                  bound = at;
                  of_urn = refl;
                  declared = refl;
                  positive = let k = ltb-true _ _ high in omega (arith, k);
                }))
                (λ old. h.1 w old) (mem-insert w b.resource_urn c m n),
        )
      ]

  raise_urns-IsRolled : IsRolled (foldl raise_urn [] bs)
  raise_urns-IsRolled =
      foldl-keeps IsRolled raise_urn [] bs (tt, λ w m. absurd (Memᴰ.not-nil m))
        (λ m b at h. raise_urn-IsRolled m b at h)

  -- The map holds for a resource the greatest criticality of its bindings, and holds no resource
  -- all of whose bindings have the lowest rank.
  pub raise_urns_entry :
      (urn : String) (c : Criticality)
      → Memᴰ (urn, c) (foldl raise_urn [] bs)
      → IsRaised (urn, c)
        × ((b : ResourceBinding)
            → Memᴰ b bs
            → b.resource_urn ≡ urn
            → criticality_rank b.resource_criticality ≤ criticality_rank c)
  unfolding find_or
  raise_urns_entry urn c at =
      let (keyed, entries) = raise_urns-IsRolled in
      let q = mem-find urn c (foldl raise_urn [] bs) keyed at in
      (
        entries (urn, c) at,
        λ b m r.
            subst (λ o. criticality_rank b.resource_criticality ≤ criticality_rank (or_empty o)) q
              ((raise_urns_rank [] bs urn).1 b m r),
      )

  pub raise_urns_covers :
      (b : ResourceBinding)
      → Memᴰ b bs
      → 0 < criticality_rank b.resource_criticality
      → (c : Criticality) × Memᴰ (b.resource_urn, c) (foldl raise_urn [] bs)
  unfolding find_or
  raise_urns_covers b at h =
      let m = foldl raise_urn [] bs in
      elim (Option-cases (find b.resource_urn m)) [
        | inr (c, q) ↦ (c, find-mem b.resource_urn c m q)
        | inl q ↦
            let k : criticality_rank b.resource_criticality ≤ criticality_rank "" =
              subst (λ o. criticality_rank b.resource_criticality ≤ criticality_rank (or_empty o)) q
                ((raise_urns_rank [] bs b.resource_urn).1 b at refl) in
            absurd (lowest h k)
      ]
