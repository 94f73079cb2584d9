-- ===== src/Detect/Engine.antt =====
-- internal/detect/detect.go: `Engine.Run`, `Fingerprint`, `sevRank` and `finding`.
pub mod Deduped
use identity_attack_graph.Prelude.{
  ℕ, String, ◌==◌, nat_eq, string_eq, Bool, true, false, List, [], ◌∷◌, ◌++◌, Option, some, none,
  foldl, ltb, if◌then◌else◌,
}
unfoldable use identity_attack_graph.Prelude.{contains}
use identity_attack_graph.Prelude.Sort.{slice_stable}
use identity_attack_graph.Prelude.Texts.{◌<>◌}
use identity_attack_graph.Models.{
  Uuid, Time, Attributes, Finding, Severity, sev_critical, sev_high, sev_medium, sev_low,
}

unfoldable pub sev_rank : Severity → ℕ
sev_rank s =
    if s == sev_critical
    then 4
    else if s == sev_high
    then 3
    else if s == sev_medium
    then 2
    else if s == sev_low
    then 1
    else 0

-- What `Fingerprint` writes to the hash, in one text.
unfoldable pub salient_text : String → List String → String
salient_text text [] = text
salient_text text (s ∷ ss) = salient_text (text <> ("|" <> s)) ss

-- The variables of `Run`; `seen` lists the keys of the map of that name.
pub record Gathering : Type 0 where
  pub seen : List String
  pub out : List Finding

-- The times that are set before a finding is kept.
unfoldable pub stamp : Time → Finding → Finding
stamp now f = record f {
  first_seen_at = if f.first_seen_at == 0 then now else f.first_seen_at;
  last_seen_at = now;
}

abbrev pub more_severe : Finding → Finding → Bool
more_severe a b = ltb (sev_rank b.severity) (sev_rank a.severity)

-- `hash32` is the first 32 hexadecimal digits of the SHA-256 sum, and `uuid_text` the text of a
-- UUID; both are of other modules.
module _ (hash32 : String → String) (uuid_text : Uuid → String) where
  unfoldable pub fingerprint_of : String → Option Uuid → List String → String
  unfolding salient_text
  fingerprint_of detector id salient =
      hash32 (salient_text (detector <> (elim id [ some i ↦ uuid_text i | none ↦ "" ])) salient)

  -- The constructor of findings, for the subject's identity.
  unfoldable pub finding :
      Uuid → String → String → Severity → ℕ → String → String → Attributes → List String → Finding
  unfolding fingerprint_of
  finding id detector category sev conf title narrative evidence salient = record {
    detector = detector;
    category = category;
    severity = sev;
    confidence = conf;
    identity_id = some id;
    title = title;
    narrative = narrative;
    evidence = evidence;
    fingerprint = fingerprint_of detector (some id) salient;
    status = "open";
    first_seen_at = 0;
    last_seen_at = 0;
  }

  -- `if f.Fingerprint == "" { … }`
  unfoldable pub with_fingerprint : Finding → Finding
  unfolding fingerprint_of
  with_fingerprint f =
      if f.fingerprint == ""
      then record f { fingerprint = fingerprint_of f.detector f.identity_id [] }
      else f

  unfoldable pub take_finding : Time → Gathering → Finding → Gathering
  unfolding with_fingerprint stamp contains
  take_finding now s f =
      let g = with_fingerprint f in
      if contains s.seen g.fingerprint
      then s
      else record { seen = g.fingerprint ∷ s.seen; out = s.out ++ stamp now g ∷ [] }

  -- The loop over the detectors, each given by what it finds for the subject.
  unfoldable pub take_findings : Time → Gathering → List (List Finding) → Gathering
  unfolding take_finding
  take_findings now = foldl (foldl (take_finding now))

  unfoldable pub run_engine : Time → List (List Finding) → List Finding
  unfolding take_findings sev_rank slice_stable
  run_engine now results =
      slice_stable more_severe (take_findings now (record { seen = []; out = [] }) results).out
