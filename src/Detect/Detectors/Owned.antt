-- ===== src/Detect/Detectors/Owned.antt =====
-- What every detector's findings have in common, and which of them are critical.
use identity_attack_graph.Prelude.{
  ℕ, ◌==◌, string_eq, nat_eq, String, ◌≡◌, inl, inr, refl, Bool, true, false, not, ◌&&◌, ◌||◌, List,
  [], ◌∷◌, Memᴰ, All, some, Bool-cases, if◌then◌else◌,
}
use identity_attack_graph.Models.{
  Time, Attributes, Finding, Severity, sev_low, sev_medium, sev_high, sev_critical,
}
use identity_attack_graph.Models.Inventory.{Credential, TrustEdge, Exposure}
use identity_attack_graph.Detect.Subject.{Subject, Config}
use identity_attack_graph.Detect.Engine.{finding}
use identity_attack_graph.Detect.Support.{
  Floats, Format, break_glass, present, some_in, days_ago, to_float,
}
use identity_attack_graph.Detect.Hygiene.{
  orphaned_identity, stale_identity, key_findings, key_finding, is_stale, key_stale, over_age,
}
use identity_attack_graph.Detect.Access.{
  over_privileged_sa, conditionless_findings, conditionless_finding, wildcard_findings,
  wildcard_finding, high_blast_radius, ai_agent_overscoped, excess_of, is_conditionless,
}
use identity_attack_graph.Risk.{flag_attribute}
use identity_attack_graph.Prelude.Int.{pos}
use identity_attack_graph.Prelude.Map.{find}
use identity_attack_graph.Detect.Leaks.{leak_findings, leak_finding, exposure_severity}

module _ (s : Subject) where
  -- Credential material of the identity stands in public, or works.
  abbrev pub Leaked : Type 0
  Leaked = (ex : Exposure) × Memᴰ ex s.exposures × ((ex.verified || ex.pattern == "public") ≡ true)

  -- The finding is about the identity, is open, and is critical only for leaked credentials.
  pub record IsOwn (f : Finding) : Type 0 where
    pub about : f.identity_id ≡ some s.identity.id
    pub opened : f.status ≡ "open"
    pub critical : f.severity ≡ sev_critical → Leaked

  pub record AllOwn (fs : List Finding) : Type 0 where
    pub all : All IsOwn fs

  pub no-AllOwn : AllOwn []
  no-AllOwn = record { all = tt }

  pub one-AllOwn : (f : Finding) → IsOwn f → AllOwn (f ∷ [])
  one-AllOwn f h = record { all = (h, tt) }

  pub cons-AllOwn : (f : Finding) (fs : List Finding) → IsOwn f → AllOwn fs → AllOwn (f ∷ fs)
  cons-AllOwn f fs h k = record { all = (h, k.all) }

  pub if-AllOwn :
      (b : Bool) (fs gs : List Finding) → AllOwn fs → AllOwn gs → AllOwn (if b then fs else gs)
  if-AllOwn true fs gs h k = h
  if-AllOwn false fs gs h k = k

  not_critical :
      {A : Type 0} (sev : Severity) → (sev == sev_critical) ≡ false → sev ≡ sev_critical → A
  not_critical sev h q = absurd (let t = (string_eq.beq_iff sev sev_critical).1 q in cc (t, h))

  module _ (fl : Floats) (fm : Format) where
    pub finding-IsOwn :
        (detector category : String) (sev : Severity) (conf : ℕ) (title narrative : String)
        (ev : Attributes) (salient : List String)
        → (sev == sev_critical) ≡ false
        → IsOwn (
            finding fm.hash32 fm.uuid_text s.identity.id detector category sev conf title narrative
              ev salient)
    unfolding finding
    finding-IsOwn detector category sev conf title narrative ev salient h = record {
      about = refl;
      opened = refl;
      critical = λ q. not_critical sev h q;
    }

    pub lone-AllOwn :
        (detector category : String) (sev : Severity) (conf : ℕ) (title narrative : String)
        (ev : Attributes) (salient : List String)
        → (sev == sev_critical) ≡ false
        → AllOwn (
            finding fm.hash32 fm.uuid_text s.identity.id detector category sev conf title narrative
              ev salient
            ∷ [])
    lone-AllOwn detector category sev conf title narrative ev salient h =
        one-AllOwn _ (finding-IsOwn detector category sev conf title narrative ev salient h)

    pub orphaned_identity-AllOwn :
        (cfg : Config) (now : Time) → AllOwn (orphaned_identity fl fm s cfg now)
    unfolding orphaned_identity
    orphaned_identity-AllOwn cfg now =
        if-AllOwn (not (s.identity.state == "active")) [] _ no-AllOwn (
          if-AllOwn (break_glass s.identity) [] _ no-AllOwn (
            if-AllOwn
              ((present s.owner || present s.identity.owner_id)
                || (some_in s.workloads || some_in s.exposures))
              [] _ no-AllOwn
              (lone-AllOwn "orphaned_identity" "hygiene" sev_medium 70 _ _ _ [] refl)))

    pub stale_identity-AllOwn :
        (cfg : Config) (now : Time) → AllOwn (stale_identity fl fm s cfg now)
    unfolding stale_identity
    stale_identity-AllOwn cfg now =
        let old =
          fl.less (fl.of_int (pos 180)) (days_ago fl s.identity.last_seen_at now)
          || not (present s.identity.last_seen_at) in
        if-AllOwn (break_glass s.identity) [] _ no-AllOwn (
          if-AllOwn (not (is_stale s cfg now)) [] _ no-AllOwn (
            lone-AllOwn "stale_identity" "hygiene" (if old then sev_medium else sev_low) 75 _ _ _ []
              (either old)))
      where
        either : (b : Bool) → ((if b then sev_medium else sev_low) == sev_critical) ≡ false
        either true = refl
        either false = refl

    key_finding-IsOwn :
        (cfg : Config) (now : Time) (c : Credential) → IsOwn (key_finding fl fm s cfg now c)
    unfolding key_finding
    key_finding-IsOwn cfg now c =
        finding-IsOwn "stale_access_key" "hygiene"
          (if over_age cfg.max_cred_age now c then sev_high else sev_medium) 80 _ _ _
          (c.external_id ∷ []) (either (over_age cfg.max_cred_age now c))
      where
        either : (b : Bool) → ((if b then sev_high else sev_medium) == sev_critical) ≡ false
        either true = refl
        either false = refl

    pub key_findings-AllOwn :
        (cfg : Config) (now : Time) (creds : List Credential)
        → AllOwn (key_findings fl fm s cfg now creds)
    unfolding key_findings
    key_findings-AllOwn cfg now [] = no-AllOwn
    key_findings-AllOwn cfg now (c ∷ creds) =
        let rest = key_findings-AllOwn cfg now creds in
        if-AllOwn (not (c.status == "active")) _ _ rest (
          if-AllOwn
            (not (key_stale cfg now c)
              && (not (over_age cfg.max_rotation_age now c)
                  && not (over_age cfg.max_cred_age now c)))
            _ _ rest (cons-AllOwn _ _ (key_finding-IsOwn cfg now c) rest))

    pub over_privileged_sa-AllOwn :
        (cfg : Config) (now : Time) → AllOwn (over_privileged_sa fl fm s cfg now)
    unfolding over_privileged_sa
    over_privileged_sa-AllOwn cfg now =
        let x = excess_of s in
        if-AllOwn (not x.admin && (not x.escalation && not x.write_crown)) [] _ no-AllOwn
          (lone-AllOwn "over_privileged_sa" "privilege" sev_high 78 _ _ _ [] refl)

    pub conditionless_findings-AllOwn :
        (trust : List TrustEdge) → AllOwn (conditionless_findings fl fm s trust)
    unfolding conditionless_findings conditionless_finding
    conditionless_findings-AllOwn [] = no-AllOwn
    conditionless_findings-AllOwn (t ∷ trust) =
        let rest = conditionless_findings-AllOwn trust in
        if-AllOwn (is_conditionless t) _ _
          (cons-AllOwn _ _
            (finding-IsOwn "conditionless_assume_role" "trust" sev_high 72 _ _ _
              (fm.uuid_text t.id ∷ []) refl)
            rest)
          rest

    pub wildcard_findings-AllOwn :
        (trust : List TrustEdge) → AllOwn (wildcard_findings fl fm s trust)
    unfolding wildcard_findings wildcard_finding
    wildcard_findings-AllOwn [] = no-AllOwn
    wildcard_findings-AllOwn (t ∷ trust) =
        let rest = wildcard_findings-AllOwn trust in
        if-AllOwn (flag_attribute "wildcard_principal" t.condition) _ _
          (cons-AllOwn _ _
            (finding-IsOwn "wildcard_trust" "trust" sev_high 74 _ _ _ (fm.uuid_text t.id ∷ []) refl)
            rest)
          rest

    pub high_blast_radius-AllOwn :
        (cfg : Config) (now : Time) → AllOwn (high_blast_radius fl fm s cfg now)
    unfolding high_blast_radius
    high_blast_radius-AllOwn cfg now =
        if-AllOwn (s.blast.crown_jewel_count == 0 && not s.blast.reaches_admin) [] _ no-AllOwn
          (lone-AllOwn "high_blast_radius" "blast_radius" sev_high 76 _ _ _ [] refl)

    pub ai_agent_overscoped-AllOwn :
        (cfg : Config) (now : Time) → AllOwn (ai_agent_overscoped fl fm s cfg now)
    unfolding ai_agent_overscoped
    ai_agent_overscoped-AllOwn cfg now =
        let meta = s.identity.ai_agent_meta in
        let ttl = to_float fl (find "ttl_hours" meta) in
        if-AllOwn (not s.identity.is_ai_agent) [] _ no-AllOwn (
          if-AllOwn
            (not (flag_attribute "broad_api_scope" meta)
              && (not (flag_attribute "uncontrolled_tools" meta)
                  && fl.at_most ttl (fl.of_int (pos 24))))
            [] _ no-AllOwn (lone-AllOwn "ai_agent_overscoped" "ai_agent" sev_high 70 _ _ _ [] refl))

    leak_finding-IsOwn : (ex : Exposure) → Memᴰ ex s.exposures → IsOwn (leak_finding fm s ex)
    unfolding leak_finding finding exposure_severity
    leak_finding-IsOwn ex m = record {
      about = refl;
      opened = refl;
      critical = λ q. elim (Bool-cases (ex.verified || ex.pattern == "public")) [
        | inl leaked ↦ (ex, m, leaked)
        | inr kept ↦ not_critical sev_high refl (rw kept at q)
      ];
    }

    pub leak_findings-AllOwn :
        (exposures : List Exposure)
        → ((ex : Exposure) → Memᴰ ex exposures → Memᴰ ex s.exposures)
        → AllOwn (leak_findings fm s exposures)
    unfolding leak_findings
    leak_findings-AllOwn [] h = no-AllOwn
    leak_findings-AllOwn (ex ∷ exposures) h =
        cons-AllOwn _ _ (leak_finding-IsOwn ex (h ex (Memᴰ.head refl)))
          (leak_findings-AllOwn exposures (λ e m. h e (Memᴰ.tail m)))
