-- ===== src/Tests/Detections.antt =====
-- The theorems on the detectors at concrete inputs.
use identity_attack_graph.Prelude.{String, ◌≡◌, refl, true, false, List, [], ◌∷◌, Memᴰ, some, none}
use identity_attack_graph.Prelude.Int.{pos}
use identity_attack_graph.Models.{Finding, UsageEvent}
use identity_attack_graph.Models.Inventory.{Exposure}
use identity_attack_graph.Graph.BlastRadius.{no_radius}
use identity_attack_graph.Remediate.{guard_trust}
use identity_attack_graph.Remediate.Detected.{conditionless_trust_guarded}
use identity_attack_graph.Detect.Subject.{Subject, Config}
use identity_attack_graph.Detect.Engine.Deduped.{kept_as}
use identity_attack_graph.Detect.Support.{Floats, Format}
use identity_attack_graph.Detect.Access.{conditionless_trust}
use identity_attack_graph.Detect.Leaks.{leak_finding}
use identity_attack_graph.Detect.Detectors.{run_detectors}
use identity_attack_graph.Detect.Detectors.Owned.{IsOwn}
use identity_attack_graph.Detect.Detectors.Run.{run_detectors-IsOwn}
use identity_attack_graph.Tests.Risks.{subject}

-- Floats that are all the same.
abbrev no_floats : Floats
no_floats = record {
  of_int = λ n. 0;
  truncated = λ f. pos 0;
  hours = λ d. 0;
  add = λ a b. 0;
  sub = λ a b. 0;
  mul = λ a b. 0;
  div = λ a b. 0;
  sqrt = λ a. 0;
  less = λ a b. false;
  at_most = λ a b. true;
  equal = λ a b. true;
  sin = λ a. 0;
  cos = λ a. 0;
  atan2 = λ a b. 0;
  pi = 0;
  hundredths = λ n. 0;
}

abbrev as_is : Format
as_is = record {
  quote = λ s. s;
  fixed = λ n f. "0";
  hash32 = λ s. s;
  uuid_text = λ i. "id";
  lower = λ s. s;
  date = λ t. "2026-01-01";
}

abbrev leaked_key : Exposure
leaked_key = record {
  id = 5;
  repository_id = none;
  identity_id = some 7;
  secret_id = none;
  path = "deploy.env";
  commit_sha = "c0ffee";
  line = pos 3;
  pattern = "aws";
  fingerprint = "f1";
  verified = true;
  source = "";
}

abbrev watched : Subject
watched = record {
  identity = subject.identity;
  owner = none;
  creds = [];
  roles = [];
  bindings = [];
  trust = (guard_trust subject).trust;
  exposures = leaked_key ∷ [];
  workloads = [];
  usage = [];
  blast = no_radius;
  paths = [];
  peer_permission_p90 = pos 0;
}

abbrev defaults : Config
defaults = record {
  stale_window = pos 0;
  max_cred_age = pos 0;
  max_rotation_age = pos 0;
  impossible_travel_kmh = 0;
  usage_spike_sigma = 0;
  anomaly_warmup_events = pos 0;
  egress_allowlist = [];
}

abbrev unfiltered : List UsageEvent → List String → List UsageEvent
unfiltered evs cidrs = evs

abbrev reported : Finding
reported = kept_as as_is.hash32 as_is.uuid_text 9 (leak_finding as_is watched leaked_key)

one_reported : run_detectors no_floats as_is unfiltered watched defaults 9 ≡ reported ∷ []
unfolding run_detectors guard_trust
one_reported = refl

run_detectors-IsOwn_example : IsOwn watched reported
run_detectors-IsOwn_example =
    run_detectors-IsOwn watched no_floats as_is unfiltered defaults 9 reported
      (rw one_reported (Memᴰ.head refl))

conditionless_trust_guarded_example : conditionless_trust no_floats as_is watched defaults 9 ≡ []
conditionless_trust_guarded_example =
    conditionless_trust_guarded no_floats as_is watched subject defaults 9 refl
