-- ===== src/Detect/Leaks.antt =====
-- internal/detect/rules.go and exposure.go: `secret_exposed_in_repo`, for the exposures of an
-- identity and for those of a repository.
use identity_attack_graph.Prelude.{
  ◌==◌, string_eq, String, Bool, ◌||◌, List, [], ◌∷◌, ◌++◌, Option, ltb, if◌then◌else◌,
}
use identity_attack_graph.Prelude.Texts.{◌<>◌, has_any}
use identity_attack_graph.Models.{
  Uuid, Time, text, bool, int, Finding, Severity, sev_high, sev_critical,
}
use identity_attack_graph.Models.Inventory.{Exposure}
use identity_attack_graph.Detect.Subject.{Subject, Config}
use identity_attack_graph.Detect.Engine.{finding, fingerprint_of}
use identity_attack_graph.Detect.Support.{Format}

abbrev pub high_value_patterns : List String
high_value_patterns =
    "aws" ∷ "gcp" ∷ "azure" ∷ "private_key" ∷ "service_account" ∷ "secret_key" ∷ "ssh" ∷ "token"
    ∷ "rsa" ∷ []

unfoldable pub exposure_severity : Exposure → Severity
exposure_severity ex = if ex.verified || ex.pattern == "public" then sev_critical else sev_high

module _ (fm : Format) where
  unfoldable pub is_high_value_pattern : String → Bool
  unfolding has_any
  is_high_value_pattern pattern = has_any (fm.lower pattern) high_value_patterns

  unfoldable pub leak_finding : Subject → Exposure → Finding
  unfolding exposure_severity finding
  leak_finding s ex =
      let reach =
        if ltb 0 s.blast.crown_jewel_count
        then " The exposed credential can reach a crown-jewel resource, making this an immediate priority."
        else "" in
      let ev =
        ("path", text ex.path)
        ∷ ("commit", text ex.commit_sha)
        ∷ ("line", int ex.line)
        ∷ ("pattern", text ex.pattern)
        ∷ ("verified", bool ex.verified)
        ∷ ("fingerprint", text ex.fingerprint)
        ∷ [] in
      let narr =
        "Credential material for identity "
        <> fm.quote s.identity.name
        <> " was found in a repository at "
        <> ex.path
        <> " (pattern "
        <> ex.pattern
        <> ")."
        <> reach in
      finding fm.hash32 fm.uuid_text s.identity.id "secret_exposed_in_repo" "exposure"
        (exposure_severity ex) 85 "Credential material exposed in repository" narr ev
        (ex.fingerprint ∷ [])

  unfoldable pub leak_findings : Subject → List Exposure → List Finding
  unfolding leak_finding
  leak_findings s [] = []
  leak_findings s (ex ∷ exposures) = leak_finding s ex ∷ leak_findings s exposures

  unfoldable pub secret_exposed_in_repo : Subject → Config → Time → List Finding
  unfolding leak_findings
  secret_exposed_in_repo s cfg now = leak_findings s s.exposures

  unfoldable pub exposure_finding : Exposure → Option Uuid → String → Finding
  unfolding is_high_value_pattern fingerprint_of
  exposure_finding ex identity_id repo_label =
      let place = if repo_label == "" then ex.path else repo_label <> ":" <> ex.path in
      let ev =
        (("path", text ex.path)
          ∷ ("line", int ex.line)
          ∷ ("commit", text ex.commit_sha)
          ∷ ("pattern", text ex.pattern)
          ∷ ("verified", bool ex.verified)
          ∷ ("fingerprint", text ex.fingerprint)
          ∷ [])
        ++ (if repo_label == "" then [] else ("repository", text repo_label) ∷ []) in
      record {
        detector = "secret_exposed_in_repo";
        category = "exposure";
        severity =
            if ex.verified || is_high_value_pattern ex.pattern then sev_critical else sev_high;
        confidence = 85;
        identity_id = identity_id;
        title = "Credential material exposed in repository";
        narrative =
            "Credential material (pattern "
            <> fm.quote ex.pattern
            <> ") was found in repository at "
            <> place
            <> ". Rotate and revoke the exposed credential and purge it from history.";
        evidence = ev;
        fingerprint =
            fingerprint_of fm.hash32 fm.uuid_text "secret_exposed_in_repo" identity_id
              (ex.fingerprint ∷ []);
        status = "open";
        first_seen_at = 0;
        last_seen_at = 0;
      }
