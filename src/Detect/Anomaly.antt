-- ===== src/Detect/Anomaly.antt =====
-- internal/detect/anomaly.go: the detectors over the usage history and over privilege.
use identity_attack_graph.Prelude.{
  ℕ, suc, ◌*◌, ◌/◌, ◌-◌, ◌==◌, nat_eq, string_eq, String, Bool, false, not, ◌&&◌, ◌||◌, List, [],
  ◌∷◌, ◌++◌, length, Option, some, none, ltb, if◌then◌else◌,
}
unfoldable use identity_attack_graph.Prelude.{contains}
use identity_attack_graph.Prelude.Int.{ℤ, pos, negsuc, ltb_ℤ, leb_ℤ, beq_ℤ}
use identity_attack_graph.Prelude.Int64.{◌+₆₄◌, ◌-₆₄◌}
use identity_attack_graph.Prelude.Texts.{◌<>◌}
use identity_attack_graph.Models.{
  Time, FloatBits, text, int, real, instant, strings, object, fields_of, Finding, UsageEvent,
  sev_low, sev_medium, sev_high,
}
use identity_attack_graph.Models.Inventory.{Role}
use identity_attack_graph.Detect.Subject.{Subject, Config}
use identity_attack_graph.Detect.Engine.{finding}
use identity_attack_graph.Detect.Support.{Floats, Format, since, int_text, list_text}
use identity_attack_graph.Detect.Usage.{
  split_last, usage_with_geo, baseline_countries, seen_asn, approx_dist_km, hourly_buckets,
  mean_sigma,
}

-- The quotient by 5, which rounds towards 0.
unfoldable pub fifth : ℤ → ℤ
fifth (pos n) = pos (n / 5)
fifth (negsuc n) = if suc n / 5 == 0 then pos 0 else negsuc (suc n / 5 - 1)

unfoldable pub too_few : ℤ → List UsageEvent → Bool
too_few warmup usage = ltb (length usage) 2 || ltb_ℤ (pos (length usage)) warmup

abbrev pub sensitive_actions : List String
sensitive_actions =
    "iam:CreateUser" ∷ "iam:AttachRolePolicy" ∷ "iam:PassRole" ∷ "iam:CreatePolicyVersion"
    ∷ "sts:AssumeRole" ∷ "kms:Decrypt" ∷ "secretsmanager:GetSecretValue" ∷ "iam:CreateAccessKey"
    ∷ "organizations:*" ∷ []

unfoldable pub seen_event : String → List UsageEvent → Bool
seen_event name [] = false
seen_event name (e ∷ evs) = e.event_name == name || seen_event name evs

-- The known runtimes are those that are not empty.
unfoldable pub seen_runtime : String → List UsageEvent → Bool
seen_runtime runtime [] = false
seen_runtime runtime (e ∷ evs) = e.runtime == runtime || seen_runtime runtime evs

unfoldable pub new_signals : List UsageEvent → UsageEvent → List String
unfolding seen_asn seen_runtime int_text
new_signals hist cur =
    (if not (beq_ℤ cur.src_asn (pos 0)) && not (seen_asn cur.src_asn hist)
      then ("new_asn:" <> int_text cur.src_asn) ∷ []
      else [])
    ++ (if not (cur.runtime == "") && not (seen_runtime cur.runtime hist)
        then ("new_runtime:" <> cur.runtime) ∷ []
        else [])

unfoldable pub total_permissions : ℤ → List Role → ℤ
unfolding ◌+₆₄◌
total_permissions total [] = total
total_permissions total (r ∷ roles) = total_permissions (total +₆₄ r.permission_count) roles

-- What is found at the latest element against those before it.
unfoldable pub at_last {ℓ} :
    {A : Type ℓ} → (List A → A → List Finding) → Option (List A × A) → List Finding
at_last f none = []
at_last f (some (hist, cur)) = f hist cur

module _ (fl : Floats) (fm : Format) where
  unfoldable pub geo_findings : Subject → List UsageEvent → UsageEvent → List Finding
  unfolding baseline_countries contains list_text finding
  geo_findings s hist recent =
      let baseline = baseline_countries hist in
      let c = recent.src_country in
      let ev =
        ("new_country", text c)
        ∷ ("known_countries", strings baseline)
        ∷ ("event_time", instant (some recent.event_time))
        ∷ ("src_ip", text recent.src_ip)
        ∷ [] in
      let narr =
        "Identity "
        <> fm.quote s.identity.name
        <> " was used from "
        <> c
        <> " for the first time (baseline: "
        <> list_text baseline
        <> ")." in
      if c == "" || contains baseline c
      then []
      else finding fm.hash32 fm.uuid_text s.identity.id "unusual_geo" "anomaly" sev_medium 65
          "First use from new country" narr ev (c ∷ [])
        ∷ []

  unfoldable pub asn_findings : Subject → List UsageEvent → UsageEvent → List Finding
  unfolding new_signals list_text finding
  asn_findings s hist cur =
      let signals = new_signals hist cur in
      let ev =
        ("signals", strings signals)
        ∷ ("event_time", instant (some cur.event_time))
        ∷ ("src_ip", text cur.src_ip)
        ∷ [] in
      let narr =
        "Identity "
        <> fm.quote s.identity.name
        <> " accessed from unrecognised ASN/runtime: "
        <> list_text signals
        <> "." in
      if length signals == 0
      then []
      else finding fm.hash32 fm.uuid_text s.identity.id "new_asn_or_runtime" "anomaly" sev_low 55
          "New ASN or runtime observed" narr ev signals
        ∷ []

  unfoldable pub spike_findings : Subject → Config → List ℕ → ℕ → List Finding
  unfolding mean_sigma finding
  spike_findings s cfg hist latest =
      let mean = (mean_sigma fl hist).0 in
      let sigma = (mean_sigma fl hist).1 in
      let n = fl.of_int (pos latest) in
      let z = fl.div (fl.sub n mean) sigma in
      let ev =
        ("bucket_count", int (pos latest))
        ∷ ("baseline_mean", real mean)
        ∷ ("baseline_sigma", real sigma)
        ∷ ("z_score", real z)
        ∷ [] in
      let narr =
        "Identity "
        <> fm.quote s.identity.name
        <> " produced "
        <> fm.fixed 0 n
        <> " events in the latest hour (mean "
        <> fm.fixed 1 mean
        <> ", σ "
        <> fm.fixed 1 sigma
        <> ") — "
        <> fm.fixed 1 z
        <> "σ spike." in
      if fl.equal sigma (fl.of_int (pos 0))
        || fl.less n (fl.add mean (fl.mul cfg.usage_spike_sigma sigma))
      then []
      else finding fm.hash32 fm.uuid_text s.identity.id "usage_spike" "anomaly" sev_medium 70
          "Anomalous usage volume spike" narr ev []
        ∷ []

  unfoldable pub sensitive_findings : Subject → List UsageEvent → UsageEvent → List Finding
  unfolding seen_event contains finding
  sensitive_findings s hist cur =
      let ev =
        ("action", text cur.event_name)
        ∷ ("event_time", instant (some cur.event_time))
        ∷ ("src_ip", text cur.src_ip)
        ∷ ("region", text cur.src_region)
        ∷ [] in
      let narr =
        "Identity "
        <> fm.quote s.identity.name
        <> " invoked sensitive action "
        <> fm.quote cur.event_name
        <> " for the first time. First-time sensitive-action use often marks the pivot point in an intrusion." in
      if not (contains sensitive_actions cur.event_name) || seen_event cur.event_name hist
      then []
      else finding fm.hash32 fm.uuid_text s.identity.id "first_use_sensitive_action" "anomaly"
          sev_high 78 "First use of sensitive action" narr ev (cur.event_name ∷ [])
        ∷ []

  -- `filter` is `filterEgress` with the address functions of the package `net`.
  module _ (filter : List UsageEvent → List String → List UsageEvent) where
    unfoldable pub travel_finding :
        Subject → UsageEvent → UsageEvent → FloatBits → FloatBits → FloatBits → Finding
    unfolding fields_of finding
    travel_finding s a b dist dt speed =
        let seen = λ (e : UsageEvent). object (
          fields_of (
            ("time", instant (some e.event_time))
            ∷ ("country", text e.src_country)
            ∷ ("ip", text e.src_ip)
            ∷ [])) in
        let ev =
          ("event_a", seen a)
          ∷ ("event_b", seen b)
          ∷ ("distance_km", real dist)
          ∷ ("elapsed_hours", real dt)
          ∷ ("implied_kmh", real speed)
          ∷ [] in
        let narr =
          "Identity "
          <> fm.quote s.identity.name
          <> " authenticated from "
          <> a.src_country
          <> " then "
          <> b.src_country
          <> " in "
          <> fm.fixed 1 dt
          <> " hours ("
          <> fm.fixed 0 dist
          <> " km, "
          <> fm.fixed 0 speed
          <> " km/h) — impossible travel." in
        finding fm.hash32 fm.uuid_text s.identity.id "impossible_travel" "anomaly" sev_high 82
          "Impossible travel detected" narr ev (a.src_country ∷ b.src_country ∷ [])

    -- The speed between two events, where the loop computes one.
    unfoldable pub travel_speed : UsageEvent → UsageEvent → Option (FloatBits × FloatBits)
    unfolding since approx_dist_km
    travel_speed a b =
        let zero_km = fl.of_int (pos 0) in
        let dt = fl.hours (since b.event_time a.event_time) in
        let dist = approx_dist_km fl a.src_country b.src_country in
        if a.src_country == "" || (b.src_country == "" || a.src_country == b.src_country)
        then none
        else if fl.at_most dt zero_km
        then none
        else if fl.at_most dist zero_km
        then none
        else some (dist, dt)

    -- The loop body, from what it finds further on.
    unfoldable pub travel_step :
        Subject
        → Config
        → UsageEvent
        → UsageEvent
        → List Finding
        → Option (FloatBits × FloatBits)
        → List Finding
    unfolding travel_finding
    travel_step s cfg a b rest none = rest
    travel_step s cfg a b rest (some (dist, dt)) =
        let speed = fl.div dist dt in
        if fl.less cfg.impossible_travel_kmh speed
        then travel_finding s a b dist dt speed ∷ []
        else rest

    unfoldable pub travel_from : Subject → Config → UsageEvent → List UsageEvent → List Finding
    unfolding travel_speed travel_step
    travel_from s cfg a [] = []
    travel_from s cfg a (b ∷ events) =
        let rest = travel_from s cfg b events in travel_step s cfg a b rest (travel_speed a b)

    unfoldable pub travel : Subject → Config → List UsageEvent → List Finding
    unfolding travel_from
    travel s cfg [] = []
    travel s cfg (e ∷ events) = travel_from s cfg e events

    unfoldable pub impossible_travel : Subject → Config → Time → List Finding
    unfolding travel usage_with_geo too_few fifth
    impossible_travel s cfg now =
        let usage = filter s.usage cfg.egress_allowlist in
        if too_few (fifth cfg.anomaly_warmup_events) usage
        then []
        else travel s cfg (usage_with_geo usage)

    unfoldable pub unusual_geo : Subject → Config → Time → List Finding
    unfolding too_few split_last at_last geo_findings
    unusual_geo s cfg now =
        let usage = filter s.usage cfg.egress_allowlist in
        if too_few cfg.anomaly_warmup_events usage
        then []
        else at_last (geo_findings s) (split_last usage)

    unfoldable pub new_asn_or_runtime : Subject → Config → Time → List Finding
    unfolding too_few split_last at_last asn_findings
    new_asn_or_runtime s cfg now =
        let usage = filter s.usage cfg.egress_allowlist in
        if too_few cfg.anomaly_warmup_events usage
        then []
        else at_last (asn_findings s) (split_last usage)

  unfoldable pub usage_spike : Subject → Config → Time → List Finding
  unfolding hourly_buckets split_last at_last spike_findings
  usage_spike s cfg now =
      let buckets = hourly_buckets s.usage (30 * 24) in
      if ltb_ℤ (pos (length s.usage)) cfg.anomaly_warmup_events
      then []
      else if ltb (length buckets) 24
      then []
      else at_last (spike_findings s cfg) (split_last buckets)

  unfoldable pub first_use_sensitive : Subject → Config → Time → List Finding
  unfolding split_last at_last sensitive_findings
  first_use_sensitive s cfg now =
      if ltb (length s.usage) 2 then [] else at_last (sensitive_findings s) (split_last s.usage)

  unfoldable pub privilege_creep : Subject → Config → Time → List Finding
  unfolding total_permissions ◌-₆₄◌ int_text finding
  privilege_creep s cfg now =
      let total = total_permissions (pos 0) s.roles in
      let p90 = s.peer_permission_p90 in
      let ev =
        ("permission_count", int total)
        ∷ ("peer_p90", int p90)
        ∷ ("excess", int (total -₆₄ p90))
        ∷ [] in
      let narr =
        "Identity "
        <> fm.quote s.identity.name
        <> " has "
        <> int_text total
        <> " permissions, exceeding the peer-group P90 of "
        <> int_text p90
        <> ". Permissions were likely granted over time without commensurate review." in
      if beq_ℤ p90 (pos 0)
      then []
      else if leb_ℤ total p90
      then []
      else finding fm.hash32 fm.uuid_text s.identity.id "privilege_creep" "privilege" sev_medium 65
          "Privilege creep beyond peer baseline" narr ev []
        ∷ []
