-- ===== src/Remediate/Detected.antt =====
-- What a remediation leaves to detect.
use identity_attack_graph.Prelude.{
  ◌==◌, string_eq, ◌≡◌, refl, ap, ◌∙◌, Bool, true, false, not, ◌&&◌, List, [], ◌∷◌, map,
}
use identity_attack_graph.Models.{Time}
use identity_attack_graph.Models.Inventory.{TrustEdge}
use identity_attack_graph.Detect.Subject.{Subject, Config}
use identity_attack_graph.Detect.Support.{Floats, Format}
use identity_attack_graph.Detect.Access.{
  is_conditionless, conditionless_findings, conditionless_trust,
}
use identity_attack_graph.Risk.{Input}
use identity_attack_graph.Remediate.{guard_edge, guard_trust}
use identity_attack_graph.Remediate.Effects.{guard_condition-guarded}

guarded_edge : (t : TrustEdge) → is_conditionless (guard_edge t) ≡ false
unfolding is_conditionless guard_edge
guarded_edge t =
    ap (λ b. t.edge_type == "can_assume" && not b) (guard_condition-guarded t.condition)
    ∙ and_false (t.edge_type == "can_assume")
  where
    and_false : (b : Bool) → (b && false) ≡ false
    and_false true = refl
    and_false false = refl

module _ (fl : Floats) (fm : Format) where
  guarded_edges :
      (s : Subject) (trust : List TrustEdge)
      → conditionless_findings fl fm s (map guard_edge trust) ≡ []
  unfolding conditionless_findings
  guarded_edges s [] = refl
  guarded_edges s (t ∷ trust) = rw (guarded_edge t) (guarded_edges s trust)

  -- Where the trust edges are those that `guardTrust` leaves, `conditionless_assume_role` finds
  -- nothing.
  pub conditionless_trust_guarded :
      (s : Subject) (x : Input) (cfg : Config) (now : Time)
      → s.trust ≡ (guard_trust x).trust
      → conditionless_trust fl fm s cfg now ≡ []
  unfolding conditionless_trust guard_trust
  conditionless_trust_guarded s x cfg now q =
      ap (conditionless_findings fl fm s) q ∙ guarded_edges s x.trust
