-- ===== src/Risk/Score/Bounds.antt =====
-- The ranges of the scores, and how the severity follows them.
use identity_attack_graph.Prelude.{
  ℕ, String, ◌≡◌, ◌≤◌, string_eq, refl, Bool, true, false, List, arith, All, ltb, if◌then◌else◌,
}
use identity_attack_graph.Prelude.Map.{find_or}
use identity_attack_graph.Prelude.Int.{ℤ, pos, negsuc, ◌≤ℤ◌, leb_ℤ}
use identity_attack_graph.Models.{severity_rank}
use identity_attack_graph.Risk.{Weights, Input, Factor, clamp, clamp_score}
use identity_attack_graph.Risk.Factors.{privilege, exposure, freshness, usage, trust, blast}
use identity_attack_graph.Risk.Score.{Floats, severity, urgency, factors_of, score}

-- From 0 to 100.
abbrev pub InScale : ℤ → Type 0
InScale z = (n : ℕ) × (z ≡ pos n) × (n ≤ 100)

clamp-InScale : (z : ℤ) → InScale (clamp z)
unfolding clamp
clamp-InScale (pos n) = by_bound (ltb 100 n) refl
  where
    by_bound : (b : Bool) → ltb 100 n ≡ b → InScale (clamp (pos n))
    by_bound true h = (100, ground arith, omega arith)
    by_bound false h = (n, ground arith, ground arith)
clamp-InScale (negsuc n) = (0, ground arith, omega arith)

-- The composite, the urgency and each of the six factors are between 0 and 100, whatever the
-- weights, the points and the arithmetic of the floats.
pub score-InScale :
    (fl : Floats) (w : Weights fl.Float) (range : List (String × Factor) → List (String × Factor))
    (x : Input)
    → InScale (score fl w range x).composite
      × InScale (score fl w range x).urgency
      × All (λ (entry : String × Factor). InScale entry.1.score) (score fl w range x).factors
unfolding score urgency factors_of privilege exposure freshness usage trust blast clamp_score
score-InScale fl w range x = (
  search clamp-InScale,
  search clamp-InScale,
  (
    search clamp-InScale,
    (
      search clamp-InScale,
      (
        search clamp-InScale,
        (search clamp-InScale, (search clamp-InScale, (search clamp-InScale, tt))),
      ),
    ),
  ),
)

-- A higher score never gets a lower severity, in whatever order the bands are configured.
pub severity_monotone :
    {F : Type 0} (w : Weights F) (a b : ℤ)
    → a ≤ℤ b
    → severity_rank (severity w a) ≤ severity_rank (severity w b)
unfolding severity severity_rank
severity_monotone w a b h =
    by_bands (find_or (pos 0) "critical" w.severity_bands) (find_or (pos 0) "high" w.severity_bands)
      (find_or (pos 0) "medium" w.severity_bands)
  where
    ranks :
        (p q r : Bool)
        → severity_rank
            (if p then "critical" else if q then "high" else if r then "medium" else "low")
          ≡ (if p then 4 else if q then 3 else if r then 2 else 1)
    ranks true q r = refl
    ranks false true r = refl
    ranks false false true = refl
    ranks false false false = refl

    by_bands :
        (c d e : ℤ)
        → severity_rank (
            if leb_ℤ c a
            then "critical"
            else if leb_ℤ d a
            then "high"
            else if leb_ℤ e a
            then "medium"
            else "low")
          ≤ severity_rank (
              if leb_ℤ c b
              then "critical"
              else if leb_ℤ d b
              then "high"
              else if leb_ℤ e b
              then "medium"
              else "low")
    by_bands c d e =
        rw (ranks (leb_ℤ c a) (leb_ℤ d a) (leb_ℤ e a), ranks (leb_ℤ c b) (leb_ℤ d b) (leb_ℤ e b))
          (ground arith)
