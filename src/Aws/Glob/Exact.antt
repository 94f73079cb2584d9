-- ===== src/Aws/Glob/Exact.antt =====
-- The loop accepts exactly what the pattern means.
use identity_attack_graph.Prelude.{
  ℕ, zero, suc, ◌+◌, ◌*◌, ◌≤◌, ◌≡◌, ◌≢◌, ◌⊎◌, ◌↔◌, inl, inr, refl, sym, subst, ap, List, [], ◌∷◌,
  true, false, ◌==◌, nat_eq, ◌||◌, Option, some, none, length, All, arith, Bool-cases, nat_beq_iff,
  ⊎_elim,
}
use identity_attack_graph.Aws.Glob.{
  star, any_one, Choice, advance, begin_star, resume, choose, only_stars, glob_from, enough_steps,
  glob_match,
}
use identity_attack_graph.Aws.Glob.Matches.{
  Matches, Later, one, head_one, Later-of_match, Later-step, star_of, of_star, star_of_later,
  matches_nothing,
}

abbrev pub NoStar : List ℕ → Type 0
NoStar = All (λ c. c ≢ star)

-- What the choice says of the head of the pattern.
abbrev Chosen : List ℕ → ℕ → Choice → Type 0
Chosen px c (advance ps) = (p : ℕ) × (px ≡ p ∷ ps) × (p ≢ star) × ((p ≡ c) ⊎ (p ≡ any_one))
Chosen px c (begin_star ps) = (p : ℕ) × (px ≡ p ∷ ps) × (p ≡ star)
Chosen px c resume = (s : List ℕ) → Matches px (c ∷ s) → ⊥

no_fit : {p c : ℕ} → (p ≡ c) ⊎ (p ≡ any_one) → (p == c || p == any_one) ≡ false → ⊥
no_fit (inl q) h = ground arith
no_fit (inr q) h = ground arith

choose-Chosen : (px : List ℕ) (c : ℕ) → c ≢ star → Chosen px c (choose px c)
unfolding choose
choose-Chosen [] c h = λ s m. elim m [ ]
choose-Chosen (p ∷ ps) c h = elim (Bool-cases (p == c || p == any_one)) [
  | inl fits ↦ rw fits (p, refl, ground arith, ground arith)
  | inr other ↦ elim (Bool-cases (p == star)) [
    | inl is_star ↦ rw (other, is_star) (p, refl, (nat_beq_iff p star).0 is_star)
    | inr plain ↦ rw (other, plain) (λ s m. no_fit (head_one (ground arith) m).0 other)
  ]
]

module _ (longest widest : ℕ) where
  -- The work that the marks of a text allow.
  abbrev weigh : List ℕ → ℕ
  weigh [] = 0
  weigh (c ∷ s) = (longest + widest + 1) + weigh s

  abbrev Resume : Option (List ℕ × List ℕ) → Type 0
  Resume none = ⊥
  Resume (some (ps, mark)) = Later ps mark

  -- A match after the last star that begins later leaves one of the rest that begins later.
  abbrev Aligned : List ℕ → List ℕ → Option (List ℕ × List ℕ) → Type 0
  Aligned px s none = Unit
  Aligned px s (some (ps, mark)) =
      (Later ps mark → Later px s)
      × NoStar mark
      × (length ps ≤ longest)
      × (length mark ≤ widest)
      × (length s ≤ length mark)

  abbrev budget : List ℕ → Option (List ℕ × List ℕ) → ℕ
  budget s none = (longest + widest + 1) + weigh s
  budget s (some (ps, mark)) = weigh mark

  weigh_mono : (s t : List ℕ) → length s ≤ length t → weigh s ≤ weigh t
  weigh_mono [] t h = omega arith
  weigh_mono (c ∷ s) [] h = absurd (omega arith)
  weigh_mono (c ∷ s) (d ∷ t) h = omega (arith, weigh_mono s t (omega arith))

  Aligned-advance :
      (p c : ℕ) (ps s : List ℕ) (back : Option (List ℕ × List ℕ))
      → p ≢ star
      → Aligned (p ∷ ps) (c ∷ s) back
      → Aligned ps s back × (budget s back ≤ budget (c ∷ s) back)
  Aligned-advance p c ps s none h a = (tt, omega arith)
  Aligned-advance p c ps s (some (qs, mark)) h (on, plain, short, near, behind) =
      (((λ l. advanced (on l)), plain, short, near, omega arith), omega arith)
    where
      advanced : Later (p ∷ ps) (c ∷ s) → Later ps s
      advanced (inl m) = Later-of_match s h m
      advanced (inr l) = Later-step ps s h l

  budget_star :
      (px s : List ℕ) (back : Option (List ℕ × List ℕ))
      → Aligned px s back
      → weigh s ≤ budget s back
  budget_star px s none a = omega arith
  budget_star px s (some (ps, mark)) a = weigh_mono s mark a.4

  resumed :
      (p : ℕ) (ps s : List ℕ) (back : Option (List ℕ × List ℕ))
      → p ≡ star
      → Aligned (p ∷ ps) s back
      → Resume back
      → Matches (p ∷ ps) s
  resumed p ps s none e a r = absurd r
  resumed p ps s (some (qs, mark)) e a r = star_of_later ps s p e (a.0 r)

  nothing_later :
      (px : List ℕ) (back : Option (List ℕ × List ℕ)) → Aligned px [] back → Resume back → ⊥
  nothing_later px none a r = r
  nothing_later px (some (ps, mark)) a r = a.0 r

  abbrev Decides : ℕ → List ℕ → List ℕ → Option (List ℕ × List ℕ) → Type 0
  Decides n px s back = (glob_from n px s back ≡ true) ↔ (Matches px s ⊎ Resume back)

  at_end :
      (px : List ℕ) (back : Option (List ℕ × List ℕ))
      → Aligned px [] back
      → (only_stars px ≡ true) ↔ (Matches px [] ⊎ Resume back)
  at_end px back a = (
    λ h. inl ((matches_nothing px).0 h),
    ⊎_elim (matches_nothing px).1 (λ r. absurd (nothing_later px back a r)),
  )

  -- The loop decides the rest of the match wherever its fuel is enough.
  abbrev Correct : ℕ → Type 0
  Correct n =
      (px s : List ℕ) (back : Option (List ℕ × List ℕ))
      → NoStar s
      → length px ≤ longest
      → length s ≤ widest
      → budget s back + length px + length s ≤ n
      → Aligned px s back
      → Decides n px s back

  module _ (n : ℕ) (ih : Correct n) (px : List ℕ) (c : ℕ) (s : List ℕ) where
    step_advance :
        (back : Option (List ℕ × List ℕ))
        → (ps : List ℕ) → choose px c ≡ advance ps
        → Chosen px c (advance ps)
        → NoStar s
        → length px ≤ longest
        → suc (length s) ≤ widest
        → budget (c ∷ s) back + length px + suc (length s) ≤ suc n
        → Aligned px (c ∷ s) back
        → Decides (suc n) px (c ∷ s) back
    unfolding glob_from
    step_advance back ps q (p, at, ne, fits) plain lp ls e a =
        let short : length px ≡ suc (length ps) = ap length at in
        let (a', le) =
          Aligned-advance p c ps s back ne (subst (λ t. Aligned t (c ∷ s) back) at a) in
        let (to, from) = ih ps s back plain (omega arith) (omega arith) (omega (arith, le)) a' in
        rw (q, glob_from)
          (
            λ h.
                ⊎_elim (λ m. inl (subst (λ t. Matches t (c ∷ s)) (sym at) (one p c ne fits m))) inr
                  (to h),
            ⊎_elim (λ m. from (inl (head_one ne (subst (λ t. Matches t (c ∷ s)) at m)).1))
                (λ r. from (inr r)),
          )

    step_star :
        (back : Option (List ℕ × List ℕ))
        → (ps : List ℕ) → choose px c ≡ begin_star ps
        → Chosen px c (begin_star ps)
        → NoStar (c ∷ s)
        → length px ≤ longest
        → suc (length s) ≤ widest
        → budget (c ∷ s) back + length px + suc (length s) ≤ suc n
        → Aligned px (c ∷ s) back
        → Decides (suc n) px (c ∷ s) back
    unfolding glob_from
    step_star back ps q (p, at, is_star) plain lp ls e a =
        let short : length px ≡ suc (length ps) = ap length at in
        let (to, from) =
          ih ps (c ∷ s) (some (ps, c ∷ s)) plain (omega arith) ls
            (omega (arith, budget_star px (c ∷ s) back a))
            ((λ l. l), plain, omega arith, ls, omega arith) in
        let a' = subst (λ t. Aligned t (c ∷ s) back) at a in
        rw (q, glob_from)
          (
            λ h.
                inl (subst (λ t. Matches t (c ∷ s)) (sym at) (star_of ps (c ∷ s) p is_star (to h))),
            ⊎_elim (λ m. from (of_star is_star (subst (λ t. Matches t (c ∷ s)) at m)))
                (λ r. from (of_star is_star (resumed p ps (c ∷ s) back is_star a' r))),
          )

    step_resume :
        (back : Option (List ℕ × List ℕ))
        → choose px c ≡ resume
        → Chosen px c resume
        → budget (c ∷ s) back + length px + suc (length s) ≤ suc n
        → Aligned px (c ∷ s) back
        → Decides (suc n) px (c ∷ s) back
    unfolding glob_from
    step_resume none q stuck e a =
        rw (q, glob_from) (λ h. absurd (cc h), ⊎_elim (λ m. absurd (stuck s m)) (λ r. absurd r))
    step_resume (some (ps, [])) q stuck e a =
        rw (q, glob_from) (λ h. absurd (cc h), ⊎_elim (λ m. absurd (stuck s m)) (λ r. absurd r))
    step_resume (some (ps, m ∷ ms)) q stuck e a =
        let (to, from) =
          ih ps ms (some (ps, ms)) a.1.1 a.2 (omega (arith, a.3)) (omega (arith, a.2, a.3))
            ((λ l. l), a.1.1, a.2, omega (arith, a.3), omega arith) in
        rw (q, glob_from) (λ h. inr (to h), ⊎_elim (λ k. absurd (stuck s k)) from)

  glob_from_exact : (n : ℕ) → Correct n
  unfolding glob_from
  glob_from_exact zero px [] back plain lp ls e a = at_end px back a
  glob_from_exact zero px (c ∷ s) back plain lp ls e a = absurd (omega arith)
  glob_from_exact (suc n) px [] back plain lp ls e a = at_end px back a
  glob_from_exact (suc n) px (c ∷ s) back plain lp ls e a =
      by_choice (glob_from_exact n) (choose px c) refl (choose-Chosen px c plain.0)
    where
      by_choice :
          Correct n
          → (ch : Choice) → choose px c ≡ ch
          → Chosen px c ch
          → Decides (suc n) px (c ∷ s) back
      by_choice ih (advance ps) q chosen =
          step_advance n ih px c s back ps q chosen plain.1 lp ls e a
      by_choice ih (begin_star ps) q chosen = step_star n ih px c s back ps q chosen plain lp ls e a
      by_choice ih resume q stuck = step_resume n ih px c s back q stuck e a

weigh-eq :
    (longest widest : ℕ) (s : List ℕ) → weigh longest widest s ≡ length s * (longest + widest + 1)
weigh-eq longest widest [] = grind arith
weigh-eq longest widest (c ∷ s) = grind (arith, weigh-eq longest widest s)

fuel : (p s k : ℕ) → k ≡ s * (p + s + 1) → p + s + 1 + k + p + s ≤ (s + 2) * (p + s + 1)
fuel p s k q = grind arith

-- `globMatch` accepts a text without `*` exactly if it is what the pattern means.
pub glob_match_exact :
    (pattern s : List ℕ) → NoStar s → (glob_match pattern s ≡ true) ↔ Matches pattern s
unfolding glob_match enough_steps
glob_match_exact pattern s plain =
    let (to, from) =
      glob_from_exact (length pattern) (length s) _ pattern s none plain (omega arith) (omega arith)
        (fuel (length pattern) (length s) (weigh (length pattern) (length s) s)
          (weigh-eq (length pattern) (length s) s))
        tt in
    (λ h. ⊎_elim (λ m. m) (λ r. absurd r) (to h), λ m. from (inl m))
