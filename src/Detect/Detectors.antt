-- ===== src/Detect/Detectors.antt =====
-- internal/detect: `suspicious_role_chain`, and the detectors that `NewEngine` wires up.
pub mod Owned
pub mod Anomalies
pub mod Run
use identity_attack_graph.Prelude.{
  ℕ, ◌==◌, string_eq, String, Bool, true, false, List, [], ◌∷◌, map, Option, some, none, ltb,
  if◌then◌else◌,
}
use identity_attack_graph.Prelude.Int.{ℤ, pos}
use identity_attack_graph.Prelude.Texts.{◌<>◌, decimal, has_text}
use identity_attack_graph.Models.{Time, Any, text, int, strings, Finding, UsageEvent, sev_high}
use identity_attack_graph.Graph.AttackPaths.{AttackPath}
use identity_attack_graph.Detect.Subject.{Subject, Config}
use identity_attack_graph.Detect.Engine.{finding, run_engine}
use identity_attack_graph.Detect.RoleChain.{
  deepest_trust_chain, count_trust_edges, observed_pivot_count, edge_sequence,
}
use identity_attack_graph.Detect.Support.{Floats, Format}
use identity_attack_graph.Detect.Hygiene.{orphaned_identity, stale_identity, stale_access_key}
use identity_attack_graph.Detect.Access.{
  over_privileged_sa, conditionless_trust, wildcard_trust, high_blast_radius, ai_agent_overscoped,
}
use identity_attack_graph.Detect.Leaks.{secret_exposed_in_repo}
use identity_attack_graph.Detect.Anomaly.{
  impossible_travel, unusual_geo, new_asn_or_runtime, usage_spike, first_use_sensitive,
  privilege_creep,
}

module _ (fl : Floats) (fm : Format) where
  unfoldable pub chain_finding : Subject → AttackPath → Finding
  unfolding count_trust_edges observed_pivot_count edge_sequence decimal finding
  chain_finding s best =
      let hops = count_trust_edges best.edges in
      let observed = observed_pivot_count fm.lower has_text s.usage in
      let corroborated = ltb 0 observed in
      let corro =
        if corroborated
        then " Corroborated by " <> decimal observed <> " observed assume/impersonate event(s)."
        else "" in
      let ev =
        ("total_hops", int (pos best.hops))
        ∷ ("trust_hops", int (pos hops))
        ∷ ("edge_sequence", strings (edge_sequence best.edges))
        ∷ ("impact", text best.impact)
        ∷ ("observed_pivot_events", int (pos observed))
        ∷ [] in
      let narr =
        "Identity "
        <> fm.quote s.identity.name
        <> " can chain "
        <> decimal hops
        <> " trust hop(s) (assume/impersonate/federate) to reach "
        <> best.impact
        <> " in "
        <> decimal best.hops
        <> " hop(s) — lateral movement that escalates beyond any single direct grant."
        <> corro in
      finding fm.hash32 fm.uuid_text s.identity.id "suspicious_role_chain" "trust" sev_high
        (if corroborated then 82 else 66) "Suspicious role/impersonation chain" narr ev
        (best.impact ∷ (decimal best.hops <> "h") ∷ [])

  unfoldable pub suspicious_role_chain : Subject → Config → Time → List Finding
  unfolding deepest_trust_chain chain_finding
  suspicious_role_chain s cfg now = elim (deepest_trust_chain s.paths) [
    | none ↦ []
    | some best ↦ chain_finding s best ∷ []
  ]

  -- The detectors in their order; `filter` is `filterEgress`.
  module _ (filter : List UsageEvent → List String → List UsageEvent) where
    unfoldable pub detectors : List (Subject → Config → Time → List Finding)
    unfolding orphaned_identity stale_identity stale_access_key over_privileged_sa
        conditionless_trust wildcard_trust secret_exposed_in_repo high_blast_radius
        ai_agent_overscoped impossible_travel unusual_geo new_asn_or_runtime usage_spike
        first_use_sensitive privilege_creep suspicious_role_chain
    detectors =
        orphaned_identity fl fm
        ∷ stale_identity fl fm
        ∷ stale_access_key fl fm
        ∷ over_privileged_sa fl fm
        ∷ conditionless_trust fl fm
        ∷ wildcard_trust fl fm
        ∷ secret_exposed_in_repo fm
        ∷ high_blast_radius fl fm
        ∷ ai_agent_overscoped fl fm
        ∷ impossible_travel fl fm filter
        ∷ unusual_geo fl fm filter
        ∷ new_asn_or_runtime fl fm filter
        ∷ usage_spike fl fm
        ∷ first_use_sensitive fl fm
        ∷ privilege_creep fl fm
        ∷ suspicious_role_chain
        ∷ []

    -- `NewEngine().Run(s, cfg, now)`
    unfoldable pub run_detectors : Subject → Config → Time → List Finding
    unfolding detectors run_engine
    run_detectors s cfg now =
        run_engine fm.hash32 fm.uuid_text now
          (map (λ (d : Subject → Config → Time → List Finding). d s cfg now) detectors)
