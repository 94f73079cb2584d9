-- ===== src/Risk/Score.antt =====
-- internal/risk/score.go: the composite, the urgency and the severity.
pub mod Bounds
pub mod Guards
use identity_attack_graph.Prelude.{
  String, ◌==◌, string_eq, Bool, true, false, List, [], ◌∷◌, ltb, if◌then◌else◌,
}
use identity_attack_graph.Prelude.Map.{Map, find_or}
use identity_attack_graph.Prelude.Int.{ℤ, pos, leb_ℤ}
use identity_attack_graph.Prelude.Int64.{◌+₆₄◌}
use identity_attack_graph.Models.{Severity, sev_low, sev_medium, sev_high, sev_critical}
use identity_attack_graph.Models.Inventory.{Exposure}
use identity_attack_graph.Risk.{Weights, Input, Factor, clamp, some_of, strong_trust_condition}
use identity_attack_graph.Risk.Factors.{privilege, exposure, freshness, usage, trust, blast}

-- The operations of float64 that `Score` calls. `to_int` is Go's conversion, which truncates.
pub record Floats : Type 1 where
  pub Float : Type 0
  pub zero : Float
  pub half : Float
  pub add : Float → Float → Float
  pub mul : Float → Float → Float
  pub of_int : ℤ → Float
  pub to_int : Float → ℤ

pub record Breakdown (F : Type 0) : Type 0 where
  pub composite : ℤ
  pub severity : Severity
  pub urgency : ℤ
  pub factors : Map String Factor
  pub weights : Map String F

unfoldable pub severity : {F : Type 0} → Weights F → ℤ → Severity
unfolding find_or
severity w score =
    let band : String → ℤ = λ name. find_or (pos 0) name w.severity_bands in
    if leb_ℤ (band "critical") score
    then sev_critical
    else if leb_ℤ (band "high") score
    then sev_high
    else if leb_ℤ (band "medium") score
    then sev_medium
    else sev_low

-- `if on { u += e.W.Urgency[name] }`
unfoldable pub raise_if : {F : Type 0} → Weights F → Bool → String → ℤ → ℤ
unfolding find_or ◌+₆₄◌
raise_if w on name u = if on then u +₆₄ find_or (pos 0) name w.urgency else u

unfoldable pub urgency : {F : Type 0} → Weights F → ℤ → Input → ℤ
unfolding some_of raise_if strong_trust_condition clamp
urgency w composite x =
    let verified = some_of (λ (e : Exposure). e.verified) x.exposures in
    let tagged = some_of (λ (e : Exposure). e.pattern == "public") x.exposures in
    let u = raise_if w verified "exposure_verified_live" composite in
    let u = raise_if w (ltb 0 x.blast.crown_jewel_count) "reachable_crown_jewel" u in
    let u = raise_if w tagged "publicly_exposed" u in
    clamp (raise_if w (strong_trust_condition x.trust) "strong_trust_condition" u)

module _ (fl : Floats) (w : Weights fl.Float) where
  unfoldable pub factors_of : Input → Map String Factor
  unfolding privilege exposure freshness usage trust blast
  factors_of x =
      ("privilege", privilege w x)
      ∷ ("exposure", exposure w x)
      ∷ ("freshness", freshness w x)
      ∷ ("usage", usage w x)
      ∷ ("trust", trust w x)
      ∷ ("blast_radius", blast w x)
      ∷ []

  -- The loop over the factors, in the order in which `range` delivers them.
  unfoldable pub weighted_sum : fl.Float → List (String × Factor) → fl.Float
  unfolding find_or
  weighted_sum total [] = total
  weighted_sum total ((name, f) ∷ fs) =
      weighted_sum (fl.add total (fl.mul (find_or fl.zero name w.weights) (fl.of_int f.score))) fs

  -- `range` is the order in which the loop sees the map.
  unfoldable pub score :
      (List (String × Factor) → List (String × Factor)) → Input → Breakdown fl.Float
  unfolding factors_of weighted_sum clamp severity urgency
  score range x =
      let factors = factors_of x in
      let c = clamp (fl.to_int (fl.add (weighted_sum fl.zero (range factors)) fl.half)) in
      record {
        composite = c;
        severity = severity w c;
        urgency = urgency w c x;
        factors = factors;
        weights = w.weights;
      }
