-- ===== src/Aws/Tags/Prefix.antt =====
-- Prefixes of texts, and what stands in front of the first wildcard of a pattern.
use identity_attack_graph.Prelude.{
  ℕ, nat_eq, ◌≡◌, ◌≢◌, ◌↔◌, inl, inr, refl, sym, subst, Bool, true, false, List, [], ◌∷◌, ◌++◌,
  arith, All, beq_ne, Bool-cases, ◌==◌, ◌||◌,
}
use identity_attack_graph.Aws.Glob.{star, any_one}
use identity_attack_graph.Aws.Tags.{literal_prefix, begins}

pub begins_iff : (s t : List ℕ) → (begins s t ≡ true) ↔ ((rest : List ℕ) × (s ≡ t ++ rest))
unfolding begins
begins_iff s [] = (λ h. (s, refl), λ h. refl)
begins_iff [] (c ∷ t) = (λ h. absurd (cc h), λ h. absurd (cc h.1))
begins_iff (d ∷ s) (c ∷ t) = (
  λ h.
      let (rest, q) = (begins_iff s t).0 (ground arith) in
      let same : d ≡ c = ground arith in (rest, cc (same, q)),
  λ (rest, q).
      let same : d ≡ c = cc q in
      let tail : s ≡ t ++ rest = cc q in let h = (begins_iff s t).1 (rest, tail) in ground arith,
)

-- No byte is a wildcard.
abbrev pub NoWildcard : List ℕ → Type 0
NoWildcard = All (λ c. (c ≢ star) × (c ≢ any_one))

-- The test at which the literal prefix ends.
abbrev is_wild : ℕ → Bool
is_wild c = c == star || c == any_one

is_wild-false : (c : ℕ) → (is_wild c ≡ false) ↔ ((c ≢ star) × (c ≢ any_one))
is_wild-false c = (
  λ h. (λ q. absurd (ground (arith, q)), λ q. absurd (ground (arith, q))),
  λ (h, k). rw (beq_ne c star h, beq_ne c any_one k) refl,
)

pub literal_prefix_iff :
    (s t : List ℕ)
    → ((rest : List ℕ) × (literal_prefix s ≡ t ++ rest))
      ↔ ((rest : List ℕ) × (s ≡ t ++ rest) × NoWildcard t)
unfolding literal_prefix
literal_prefix_iff s [] = (λ h. (s, refl, tt), λ h. (literal_prefix s, refl))
literal_prefix_iff [] (c ∷ t) = (λ h. absurd (cc h.1), λ h. absurd (cc h.1))
literal_prefix_iff (d ∷ s) (c ∷ t) = elim (Bool-cases (is_wild d)) [
  | inl wild ↦ (
    λ (rest, q). absurd (ground arith),
    λ (rest, q, plain).
        let same : d ≡ c = cc q in
        let other : is_wild d ≡ false =
          subst (λ x. is_wild x ≡ false) (sym same) ((is_wild-false c).1 plain.0) in
        absurd (cc (wild, other)),
  )
  | inr other ↦
      let kept : literal_prefix (d ∷ s) ≡ d ∷ literal_prefix s = ground arith in
      (
        λ (rest, q).
            let same : d ≡ c = cc (kept, q) in
            let (more, q', plain) = (literal_prefix_iff s t).0 (rest, cc (kept, q)) in
            (
              more,
              cc (same, q'),
              (subst (λ x. (x ≢ star) × (x ≢ any_one)) same ((is_wild-false d).0 other), plain),
            ),
        λ (rest, q, plain).
            let same : d ≡ c = cc q in
            let (more, q') = (literal_prefix_iff s t).1 (rest, cc q, plain.1) in
            (more, cc (kept, same, q')),
      )
]
