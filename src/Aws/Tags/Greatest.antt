-- ===== src/Aws/Tags/Greatest.antt =====
-- Which declared criticality a binding takes over.
use mathlib.Core.List.Memᴰ
use identity_attack_graph.Prelude.{
  ℕ, ◌≤◌, nat_eq, String, ◌≡◌, ◌≢◌, ◌⊎◌, ◌↔◌, inl, inr, ⊎_elim, refl, ap, subst, ◌∙◌, Bool, true,
  false, not, ◌&&◌, List, [], ◌∷◌, ◌++◌, Memᴰ, arith, leb, if◌then◌else◌,
}
use identity_attack_graph.Prelude.Texts.{Strings, bytes}
use identity_attack_graph.Models.{Criticality, crit_low, criticality_rank}
use identity_attack_graph.Aws.Glob.Matches.{Matches}
use identity_attack_graph.Aws.Glob.Exact.{NoStar, glob_match_exact}
use identity_attack_graph.Aws.Tags.Prefix.{NoWildcard, begins_iff, literal_prefix_iff}
use identity_attack_graph.Aws.Tags.{
  CritResolver, literal_prefix, begins, is_nil, resource_reaches, actions_cover_service,
  service_of_arn, raise_to, raise_all, criticality_for,
}

leb-true : (a b : ℕ) → leb a b ≡ true → a ≤ b
leb-true a b h = ground arith

leb-false : (a b : ℕ) → leb a b ≡ false → b ≤ a
leb-false a b h = ground arith

taken :
    (b c : Criticality) (low covers reaches : Bool)
    → let next = if low then b else if not covers then b else if reaches then c else b in
      (next ≡ b) × ((low ≡ true) ⊎ ((covers && reaches) ≡ false))
      ⊎ (next ≡ c) × (low ≡ false) × ((covers && reaches) ≡ true)
taken b c true covers reaches = inl (refl, inl refl)
taken b c false false reaches = inl (refl, inr refl)
taken b c false true true = inr (refl, refl, refl)
taken b c false true false = inl (refl, inr refl)

entry_eq :
    {V : Type 0} {a b : String} {c d : V} → ◌≡◌ {A = String × V} (a, c) (b, d) → (a ≡ b) × (c ≡ d)
entry_eq {V} q = (ap (λ (x : String × V). x.0) q, ap (λ (x : String × V). x.1) q)

module _ (u : Strings) (split : String → List String) (resource : String)
    (actions : List String) where
  -- The tagged resource is reached, and some action applies to its service.
  abbrev pub applies : String → Bool
  applies arn =
      actions_cover_service u actions (service_of_arn u split arn)
      && resource_reaches (bytes resource) (bytes arn)

  pub record IsGreatest (best : Criticality) (r : CritResolver) (c : Criticality) : Type 0 where
    pub from : (c ≡ best) ⊎ ((arn : String) × Memᴰ (arn, c) r × (applies arn ≡ true))
    pub above : criticality_rank best ≤ criticality_rank c
    pub upper :
        (arn : String) (d : Criticality)
        → Memᴰ (arn, d) r
        → applies arn ≡ true
        → criticality_rank d ≤ criticality_rank c

  raise_to_cases :
      (best : Criticality) (arn : String) (crit : Criticality)
      → let next = raise_to u split resource actions best (arn, crit) in
        (next ≡ best) × (applies arn ≡ true → criticality_rank crit ≤ criticality_rank best)
        ⊎ (next ≡ crit) × (applies arn ≡ true) × (criticality_rank best ≤ criticality_rank crit)
  unfolding raise_to
  raise_to_cases best arn crit =
      let low = leb (criticality_rank crit) (criticality_rank best) in
      ⊎_elim
        (λ (q, why).
          inl (q, λ ok. elim why [ inl h ↦ leb-true _ _ h | inr h ↦ absurd (cc (h, ok)) ]))
        (λ (q, h, ok). inr (q, ok, leb-false _ _ h))
        (taken best crit low (actions_cover_service u actions (service_of_arn u split arn))
          (resource_reaches (bytes resource) (bytes arn)))

  raise_all-IsGreatest :
      (best : Criticality) (r : CritResolver)
      → IsGreatest best r (raise_all u split resource actions best r)
  unfolding raise_all
  raise_all-IsGreatest best [] = record {
    from = inl refl;
    above = omega arith;
    upper = λ arn d m. absurd (Memᴰ.not-nil m);
  }
  raise_all-IsGreatest best ((arn, crit) ∷ r) =
      let ih = raise_all-IsGreatest (raise_to u split resource actions best (arn, crit)) r in
      let step = raise_to_cases best arn crit in
      record {
        from =
            ⊎_elim
              (λ q.
                ⊎_elim (λ s. inl (q ∙ s.0))
                  (λ s. inr (arn, Memᴰ.head (ap (λ c. (arn, c)) (q ∙ s.0)), s.1)) step)
              (λ (a, m, ok). inr (a, Memᴰ.tail m, ok)) ih.from;
        above =
            ⊎_elim (λ s. omega (arith, ih.above, ap criticality_rank s.0))
              (λ s. omega (arith, ih.above, ap criticality_rank s.0, s.2)) step;
        upper = λ a d m ok. elim (Memᴰ.cases_cons m) [
          | inr later ↦ ih.upper a d later ok
          | inl q ↦
              let (same, value) = entry_eq q in
              let ok' = subst (λ t. applies t ≡ true) same ok in
              ⊎_elim
                (λ s.
                  omega
                    (arith, ih.above, ap criticality_rank s.0, s.1 ok', ap criticality_rank value))
                (λ s. omega (arith, ih.above, ap criticality_rank s.0, ap criticality_rank value))
                step
        ];
      }

  -- A binding takes over the criticality of a tagged resource that it reaches with an action for
  -- its service, and none such ranks higher; where it reaches none it stays low.
  pub criticality_for_greatest :
      (r : CritResolver)
      → let c = criticality_for u split r resource actions in
        ((c ≡ crit_low) ⊎ ((arn : String) × Memᴰ (arn, c) r × (applies arn ≡ true)))
        × ((arn : String) (d : Criticality)
            → Memᴰ (arn, d) r
            → applies arn ≡ true
            → criticality_rank d ≤ criticality_rank c)
  unfolding criticality_for
  criticality_for_greatest r = let g = raise_all-IsGreatest crit_low r in (g.from, g.upper)

is_nil_iff : (s : List ℕ) → (is_nil s ≡ true) ↔ (s ≡ [])
is_nil_iff [] = (λ h. refl, λ h. refl)
is_nil_iff (c ∷ s) = (λ h. absurd (cc h), λ h. absurd (cc h))

-- A policy resource reaches a tagged one whose name has no `*` exactly if both are written, and
-- either the tagged name matches the pattern, or the pattern starts with the tagged name and a
-- slash, with no wildcard up to there.
pub resource_reaches_lem :
    (pattern arn : List ℕ)
    → NoStar arn
    → (resource_reaches pattern arn ≡ true) ↔ (
        (pattern ≢ [])
        × (arn ≢ [])
        × (Matches pattern arn
            ⊎ ((rest : List ℕ) × (pattern ≡ (arn ++ b'/' ∷ []) ++ rest)
                × NoWildcard (arn ++ b'/' ∷ []))))
unfolding resource_reaches
resource_reaches_lem [] arn plain = (λ h. absurd (cc h), λ h. absurd (h.0 refl))
resource_reaches_lem (p ∷ ps) [] plain = (λ h. absurd (cc h), λ h. absurd (h.1 refl))
resource_reaches_lem (p ∷ ps) (a ∷ rest) plain =
    let (to, from) = glob_match_exact (p ∷ ps) (a ∷ rest) plain in
    let lit = literal_prefix (p ∷ ps) in
    let parent = (a ∷ rest) ++ b'/' ∷ [] in
    let (to', from') = begins_iff lit parent in
    let (up, down) = literal_prefix_iff (p ∷ ps) parent in
    (
      λ h.
          (λ q. cc q, λ q. cc q, ⊎_elim (λ m. inl (to m)) (λ b. inr (up (to' b))) (either _ _ _ h)),
      λ (_, _, why). elim why [
        | inl m ↦ by_match _ (is_nil lit) (begins lit parent) (from m)
        | inr over ↦
            let (more, q) = down over in by_parent _ _ _ (not_nil lit _ q) (from' (more, q))
      ],
    )
  where
    either : (m l b : Bool) → (if m then true else not l && b) ≡ true → (m ≡ true) ⊎ (b ≡ true)
    either m l b h = ground arith

    by_match : (m l b : Bool) → m ≡ true → (if m then true else not l && b) ≡ true
    by_match m l b h = ground arith

    by_parent : (m l b : Bool) → l ≡ false → b ≡ true → (if m then true else not l && b) ≡ true
    by_parent m l b h k = ground arith

    not_nil : (s t : List ℕ) → s ≡ a ∷ t → is_nil s ≡ false
    not_nil s t q = rw q refl
