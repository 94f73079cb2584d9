-- ===== src/Detect/Detectors/Anomalies.antt =====
-- What the findings of the detectors over usage have in common.
use identity_attack_graph.Prelude.{
  ◌*◌, ◌==◌, nat_eq, string_eq, String, refl, not, ◌||◌, List, [], ◌∷◌, length, ltb, Option, some,
  none,
}
unfoldable use identity_attack_graph.Prelude.{contains}
use identity_attack_graph.Prelude.Int.{pos, ltb_ℤ, leb_ℤ, beq_ℤ}
use identity_attack_graph.Models.{
  Time, FloatBits, Finding, UsageEvent, sev_low, sev_medium, sev_high, sev_critical,
}
use identity_attack_graph.Graph.AttackPaths.{AttackPath}
use identity_attack_graph.Detect.Subject.{Subject, Config}
use identity_attack_graph.Detect.Engine.{finding}
use identity_attack_graph.Detect.Support.{Floats, Format}
use identity_attack_graph.Detect.Usage.{
  usage_with_geo, split_last, baseline_countries, hourly_buckets, mean_sigma,
}
use identity_attack_graph.Detect.Anomaly.{
  at_last, geo_findings, asn_findings, spike_findings, sensitive_findings, travel_step, fifth,
  too_few, sensitive_actions, seen_event, new_signals, total_permissions, travel_finding,
  travel_speed, travel_from, travel, impossible_travel, unusual_geo, new_asn_or_runtime,
  usage_spike, first_use_sensitive, privilege_creep,
}
use identity_attack_graph.Detect.RoleChain.{deepest_trust_chain}
use identity_attack_graph.Detect.Detectors.{chain_finding, suspicious_role_chain}
use identity_attack_graph.Detect.Detectors.Owned.{
  IsOwn, AllOwn, no-AllOwn, if-AllOwn, one-AllOwn, lone-AllOwn,
}

module _ (s : Subject) (fl : Floats) (fm : Format) where
  pub privilege_creep-AllOwn :
      (cfg : Config) (now : Time) → AllOwn s (privilege_creep fl fm s cfg now)
  unfolding privilege_creep
  privilege_creep-AllOwn cfg now =
      let p90 = s.peer_permission_p90 in
      if-AllOwn s (beq_ℤ p90 (pos 0)) [] _ (no-AllOwn s) (
        if-AllOwn s (leb_ℤ (total_permissions (pos 0) s.roles) p90) [] _ (no-AllOwn s)
          (lone-AllOwn s fl fm "privilege_creep" "privilege" sev_medium 65 _ _ _ [] refl))

  chain_finding-IsOwn : (best : AttackPath) → IsOwn s (chain_finding fl fm s best)
  unfolding chain_finding finding
  chain_finding-IsOwn best = record {
    about = refl;
    opened = refl;
    critical = λ q. absurd (let t = (string_eq.beq_iff sev_high sev_critical).1 q in cc t);
  }

  pub chosen-AllOwn :
      (o : Option AttackPath)
      → AllOwn s (elim o [ none ↦ [] | some best ↦ chain_finding fl fm s best ∷ [] ])
  chosen-AllOwn none = no-AllOwn s
  chosen-AllOwn (some best) = one-AllOwn s _ (chain_finding-IsOwn best)

  pub suspicious_role_chain-AllOwn :
      (cfg : Config) (now : Time) → AllOwn s (suspicious_role_chain fl fm s cfg now)
  unfolding suspicious_role_chain
  suspicious_role_chain-AllOwn cfg now = chosen-AllOwn (deepest_trust_chain s.paths)

  pub at_last-AllOwn :
      {A : Type 0} (f : List A → A → List Finding) (o : Option (List A × A))
      → ((hist : List A) (cur : A) → AllOwn s (f hist cur))
      → AllOwn s (at_last f o)
  unfolding at_last
  at_last-AllOwn f none h = no-AllOwn s
  at_last-AllOwn f (some (hist, cur)) h = h hist cur

  pub first_use_sensitive-AllOwn :
      (cfg : Config) (now : Time) → AllOwn s (first_use_sensitive fl fm s cfg now)
  unfolding first_use_sensitive sensitive_findings
  first_use_sensitive-AllOwn cfg now = if-AllOwn s (ltb (length s.usage) 2) [] _ (no-AllOwn s) (
      at_last-AllOwn (sensitive_findings fl fm s) (split_last s.usage) (λ hist cur.
        if-AllOwn s
          (not (contains sensitive_actions cur.event_name) || seen_event cur.event_name hist) [] _
          (no-AllOwn s)
          (lone-AllOwn s fl fm "first_use_sensitive_action" "anomaly" sev_high 78 _ _ _
            (cur.event_name ∷ []) refl)))

  pub usage_spike-AllOwn : (cfg : Config) (now : Time) → AllOwn s (usage_spike fl fm s cfg now)
  unfolding usage_spike spike_findings
  usage_spike-AllOwn cfg now =
      let buckets = hourly_buckets s.usage (30 * 24) in
      if-AllOwn s (ltb_ℤ (pos (length s.usage)) cfg.anomaly_warmup_events) [] _ (no-AllOwn s) (
        if-AllOwn s (ltb (length buckets) 24) [] _ (no-AllOwn s) (
          at_last-AllOwn (spike_findings fl fm s cfg) (split_last buckets) (λ hist latest.
            let mean = (mean_sigma fl hist).0 in
            let sigma = (mean_sigma fl hist).1 in
            if-AllOwn s
              (fl.equal sigma (fl.of_int (pos 0))
                || fl.less (fl.of_int (pos latest))
                    (fl.add mean (fl.mul cfg.usage_spike_sigma sigma)))
              [] _ (no-AllOwn s)
              (lone-AllOwn s fl fm "usage_spike" "anomaly" sev_medium 70 _ _ _ [] refl))))

  module _ (filter : List UsageEvent → List String → List UsageEvent) where
    pub unusual_geo-AllOwn :
        (cfg : Config) (now : Time) → AllOwn s (unusual_geo fl fm filter s cfg now)
    unfolding unusual_geo geo_findings
    unusual_geo-AllOwn cfg now =
        let usage = filter s.usage cfg.egress_allowlist in
        if-AllOwn s (too_few cfg.anomaly_warmup_events usage) [] _ (no-AllOwn s) (
          at_last-AllOwn (geo_findings fl fm s) (split_last usage) (λ hist recent.
            let c = recent.src_country in
            if-AllOwn s (c == "" || contains (baseline_countries hist) c) [] _ (no-AllOwn s)
              (lone-AllOwn s fl fm "unusual_geo" "anomaly" sev_medium 65 _ _ _ (c ∷ []) refl)))

    pub new_asn_or_runtime-AllOwn :
        (cfg : Config) (now : Time) → AllOwn s (new_asn_or_runtime fl fm filter s cfg now)
    unfolding new_asn_or_runtime asn_findings
    new_asn_or_runtime-AllOwn cfg now =
        let usage = filter s.usage cfg.egress_allowlist in
        if-AllOwn s (too_few cfg.anomaly_warmup_events usage) [] _ (no-AllOwn s) (
          at_last-AllOwn (asn_findings fl fm s) (split_last usage) (λ hist cur.
            let signals = new_signals hist cur in
            if-AllOwn s (length signals == 0) [] _ (no-AllOwn s)
              (lone-AllOwn s fl fm "new_asn_or_runtime" "anomaly" sev_low 55 _ _ _ signals refl)))

    pub travel_step-AllOwn :
        (cfg : Config) (a b : UsageEvent) (rest : List Finding) (o : Option (FloatBits × FloatBits))
        → AllOwn s rest
        → AllOwn s (travel_step fl fm filter s cfg a b rest o)
    unfolding travel_step travel_finding
    travel_step-AllOwn cfg a b rest none h = h
    travel_step-AllOwn cfg a b rest (some (dist, dt)) h =
        if-AllOwn s (fl.less cfg.impossible_travel_kmh (fl.div dist dt)) _ _
          (lone-AllOwn s fl fm "impossible_travel" "anomaly" sev_high 82 _ _ _
            (a.src_country ∷ b.src_country ∷ []) refl)
          h

    pub travel_from-AllOwn :
        (cfg : Config) (a : UsageEvent) (events : List UsageEvent)
        → AllOwn s (travel_from fl fm filter s cfg a events)
    unfolding travel_from
    travel_from-AllOwn cfg a [] = no-AllOwn s
    travel_from-AllOwn cfg a (b ∷ events) =
        travel_step-AllOwn cfg a b _ (travel_speed fl fm filter a b)
          (travel_from-AllOwn cfg b events)

    pub travel-AllOwn :
        (cfg : Config) (events : List UsageEvent) → AllOwn s (travel fl fm filter s cfg events)
    unfolding travel
    travel-AllOwn cfg [] = no-AllOwn s
    travel-AllOwn cfg (e ∷ events) = travel_from-AllOwn cfg e events

    pub impossible_travel-AllOwn :
        (cfg : Config) (now : Time) → AllOwn s (impossible_travel fl fm filter s cfg now)
    unfolding impossible_travel
    impossible_travel-AllOwn cfg now =
        let usage = filter s.usage cfg.egress_allowlist in
        if-AllOwn s (too_few (fifth cfg.anomaly_warmup_events) usage) [] _ (no-AllOwn s)
          (travel-AllOwn cfg (usage_with_geo usage))
