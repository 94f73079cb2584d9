-- ===== src/Detect/Detectors/Run.antt =====
-- The findings of the engine with all its detectors.
use identity_attack_graph.Prelude.{
  ◌==◌, string_eq, String, inl, inr, sym, subst, List, [], ◌∷◌, ◌++◌, map, Memᴰ, All-append,
  All-mem, Bool-cases,
}
use identity_attack_graph.Models.{Time, Finding, UsageEvent}
use identity_attack_graph.Detect.Subject.{Subject, Config}
use identity_attack_graph.Detect.Engine.{with_fingerprint, stamp}
use identity_attack_graph.Detect.Engine.Deduped.{all_findings, kept_as, run_engine_deduped}
use identity_attack_graph.Detect.Support.{Floats, Format}
use identity_attack_graph.Detect.Hygiene.{stale_access_key}
use identity_attack_graph.Detect.Access.{conditionless_trust, wildcard_trust}
use identity_attack_graph.Detect.Leaks.{secret_exposed_in_repo}
use identity_attack_graph.Detect.Anomaly.{
  impossible_travel, unusual_geo, new_asn_or_runtime, usage_spike, first_use_sensitive,
  privilege_creep,
}
use identity_attack_graph.Detect.Detectors.{suspicious_role_chain, detectors, run_detectors}
use identity_attack_graph.Detect.Detectors.Owned.{
  IsOwn, AllOwn, no-AllOwn, orphaned_identity-AllOwn, stale_identity-AllOwn, key_findings-AllOwn,
  over_privileged_sa-AllOwn, conditionless_findings-AllOwn, wildcard_findings-AllOwn,
  high_blast_radius-AllOwn, ai_agent_overscoped-AllOwn, leak_findings-AllOwn,
}
use identity_attack_graph.Detect.Detectors.Anomalies.{
  impossible_travel-AllOwn, unusual_geo-AllOwn, new_asn_or_runtime-AllOwn, usage_spike-AllOwn,
  first_use_sensitive-AllOwn, privilege_creep-AllOwn, suspicious_role_chain-AllOwn,
}

module _ (s : Subject) (fl : Floats) (fm : Format) where
  join-AllOwn : (fs gs : List Finding) → AllOwn s fs → AllOwn s gs → AllOwn s (fs ++ gs)
  join-AllOwn fs gs h k = record { all = All-append (IsOwn s) fs gs h.all k.all }

  stale_access_key-AllOwn :
      (cfg : Config) (now : Time) → AllOwn s (stale_access_key fl fm s cfg now)
  unfolding stale_access_key
  stale_access_key-AllOwn cfg now = key_findings-AllOwn s fl fm cfg now s.creds

  conditionless_trust-AllOwn :
      (cfg : Config) (now : Time) → AllOwn s (conditionless_trust fl fm s cfg now)
  unfolding conditionless_trust
  conditionless_trust-AllOwn cfg now = conditionless_findings-AllOwn s fl fm s.trust

  wildcard_trust-AllOwn : (cfg : Config) (now : Time) → AllOwn s (wildcard_trust fl fm s cfg now)
  unfolding wildcard_trust
  wildcard_trust-AllOwn cfg now = wildcard_findings-AllOwn s fl fm s.trust

  secret_exposed_in_repo-AllOwn :
      (cfg : Config) (now : Time) → AllOwn s (secret_exposed_in_repo fm s cfg now)
  unfolding secret_exposed_in_repo
  secret_exposed_in_repo-AllOwn cfg now = leak_findings-AllOwn s fl fm s.exposures (λ ex m. m)

  module _ (filter : List UsageEvent → List String → List UsageEvent) (cfg : Config)
      (now : Time) where
    abbrev from_usage : List (List Finding)
    from_usage =
        impossible_travel fl fm filter s cfg now
        ∷ unusual_geo fl fm filter s cfg now
        ∷ new_asn_or_runtime fl fm filter s cfg now
        ∷ usage_spike fl fm s cfg now
        ∷ first_use_sensitive fl fm s cfg now
        ∷ privilege_creep fl fm s cfg now
        ∷ suspicious_role_chain fl fm s cfg now
        ∷ []

    usage-AllOwn : AllOwn s (all_findings from_usage)
    usage-AllOwn = join-AllOwn _ _ (impossible_travel-AllOwn s fl fm filter cfg now) (
        join-AllOwn _ _ (unusual_geo-AllOwn s fl fm filter cfg now) (
          join-AllOwn _ _ (new_asn_or_runtime-AllOwn s fl fm filter cfg now) (
            join-AllOwn _ _ (usage_spike-AllOwn s fl fm cfg now) (
              join-AllOwn _ _ (first_use_sensitive-AllOwn s fl fm cfg now) (
                join-AllOwn _ _ (privilege_creep-AllOwn s fl fm cfg now) (
                  join-AllOwn _ _ (suspicious_role_chain-AllOwn s fl fm cfg now) (no-AllOwn s)))))))

    detectors-AllOwn : AllOwn s (
        all_findings (
          map
            (λ (d : Subject → Config → Time → List Finding). d s cfg now)
            (detectors fl fm filter)))
    unfolding detectors
    detectors-AllOwn = join-AllOwn _ _ (orphaned_identity-AllOwn s fl fm cfg now) (
        join-AllOwn _ _ (stale_identity-AllOwn s fl fm cfg now) (
          join-AllOwn _ _ (stale_access_key-AllOwn cfg now) (
            join-AllOwn _ _ (over_privileged_sa-AllOwn s fl fm cfg now) (
              join-AllOwn _ _ (conditionless_trust-AllOwn cfg now) (
                join-AllOwn _ _ (wildcard_trust-AllOwn cfg now) (
                  join-AllOwn _ _ (secret_exposed_in_repo-AllOwn cfg now) (
                    join-AllOwn _ _ (high_blast_radius-AllOwn s fl fm cfg now) (
                      join-AllOwn _ _ (ai_agent_overscoped-AllOwn s fl fm cfg now)
                        usage-AllOwn))))))))

    with_fingerprint-IsOwn :
        (f : Finding) → IsOwn s f → IsOwn s (with_fingerprint fm.hash32 fm.uuid_text f)
    unfolding with_fingerprint
    with_fingerprint-IsOwn f h = elim (Bool-cases (f.fingerprint == "")) [
      | inl q ↦ rw q (record { about = h.about; opened = h.opened; critical = h.critical })
      | inr q ↦ rw q h
    ]

    kept_as-IsOwn : (f : Finding) → IsOwn s f → IsOwn s (kept_as fm.hash32 fm.uuid_text now f)
    unfolding stamp
    kept_as-IsOwn f h =
        let g = with_fingerprint-IsOwn f h in
        record { about = g.about; opened = g.opened; critical = g.critical }

    -- Every finding of the engine with all its detectors is about the identity and open, and it is
    -- critical only if credential material of the identity was found that is verified or public.
    pub run_detectors-IsOwn :
        (f : Finding) → Memᴰ f (run_detectors fl fm filter s cfg now) → IsOwn s f
    unfolding run_detectors
    run_detectors-IsOwn f m =
        let rs =
          map (λ (d : Subject → Config → Time → List Finding). d s cfg now)
            (detectors fl fm filter) in
        let (_, _, origin, _) = run_engine_deduped fm.hash32 fm.uuid_text now rs in
        let (e, at, q) = origin f m in
        subst (IsOwn s) (sym q)
          (kept_as-IsOwn e (All-mem (IsOwn s) (all_findings rs) detectors-AllOwn.all at))
