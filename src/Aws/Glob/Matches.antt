-- ===== src/Aws/Glob/Matches.antt =====
-- What a pattern means, and the facts on it that the loop rests on.
use identity_attack_graph.Prelude.{
  ℕ, ◌≡◌, ◌≢◌, ◌⊎◌, inl, inr, refl, List, [], ◌∷◌, true, nat_eq, ◌↔◌, arith, nat_beq_iff,
}
use identity_attack_graph.Aws.Glob.{star, any_one, only_stars}

-- `*` stands for any run of bytes, `?` for one byte, and every other byte for itself.
pub data Matches : List ℕ → List ℕ → Type 0 where
  done : Matches [] []
  one :
      {ps s : List ℕ} (p c : ℕ)
      → p ≢ star
      → (p ≡ c) ⊎ (p ≡ any_one)
      → Matches ps s
      → Matches (p ∷ ps) (c ∷ s)
  skip : {ps s : List ℕ} (p : ℕ) → p ≡ star → Matches ps s → Matches (p ∷ ps) s
  grow : {ps s : List ℕ} (p c : ℕ) → p ≡ star → Matches (p ∷ ps) s → Matches (p ∷ ps) (c ∷ s)

-- The pattern matches what is left of the text after some bytes, at least one.
abbrev pub Later : List ℕ → List ℕ → Type 0
Later ps [] = ⊥
Later ps (c ∷ s) = Matches ps s ⊎ Later ps s

-- Past one byte.
pub head_one :
    {ps s : List ℕ} {p c : ℕ}
    → p ≢ star
    → Matches (p ∷ ps) (c ∷ s)
    → ((p ≡ c) ⊎ (p ≡ any_one)) × Matches ps s
head_one h (one p c ne fits m) = (fits, m)
head_one h (skip p e m) = absurd (h e)
head_one h (grow p c e m) = absurd (h e)

not_empty : {ps : List ℕ} {p : ℕ} → p ≢ star → Matches (p ∷ ps) [] → ⊥
not_empty h (skip p e m) = h e

pub Later-of_match : {ps : List ℕ} (s : List ℕ) {p : ℕ} → p ≢ star → Matches (p ∷ ps) s → Later ps s
Later-of_match [] h m = absurd (not_empty h m)
Later-of_match (c ∷ s) h m = inl (head_one h m).1

pub Later-step : (ps s : List ℕ) {p : ℕ} → p ≢ star → Later (p ∷ ps) s → Later ps s
Later-step ps [] h l = l
Later-step ps (c ∷ s) h (inl m) = inr (Later-of_match s h m)
Later-step ps (c ∷ s) h (inr l) = inr (Later-step ps s h l)

-- A star matches from here or from later on.
pub star_of : (ps s : List ℕ) (p : ℕ) → p ≡ star → Matches ps s ⊎ Later ps s → Matches (p ∷ ps) s
star_of ps s p e (inl m) = skip p e m
star_of ps [] p e (inr l) = absurd l
star_of ps (c ∷ s) p e (inr l) = grow p c e (star_of ps s p e l)

pub of_star : {ps s : List ℕ} {p : ℕ} → p ≡ star → Matches (p ∷ ps) s → Matches ps s ⊎ Later ps s
of_star e (one p c ne fits m) = absurd (ne e)
of_star e (skip p q m) = inl m
of_star e (grow p c q m) = inr (of_star e m)

pub star_of_later : (ps s : List ℕ) (p : ℕ) → p ≡ star → Later (p ∷ ps) s → Matches (p ∷ ps) s
star_of_later ps [] p e l = absurd l
star_of_later ps (c ∷ s) p e (inl m) = grow p c e m
star_of_later ps (c ∷ s) p e (inr l) = grow p c e (star_of_later ps s p e l)

pub matches_nothing : (px : List ℕ) → (only_stars px ≡ true) ↔ Matches px []
unfolding only_stars
matches_nothing [] = (λ h. done, λ m. refl)
matches_nothing (p ∷ ps) = (
  λ h. skip p (ground (arith, nat_beq_iff p star)) ((matches_nothing ps).0 (ground arith)),
  λ m. elim m [ skip p e k ↦ rw ((nat_beq_iff p star).1 e) ((matches_nothing ps).1 k) ],
)
