-- ===== src/Tests/Platform.antt =====
-- The theorems on authentication, notification and the worker at concrete inputs.
use mathlib.Core.List.Memᴰ
use identity_attack_graph.Prelude.{
  ℕ, ◌+◌, ◌≤◌, ◌<◌, ap, ⊎_elim, string_eq, String, ◌≡◌, ◌⊎◌, ◌↔◌, refl, true, false, ◌&&◌, List, [],
  ◌∷◌, ◌++◌, map, take, length, leb, Memᴰ, Option, some, none, arith, if◌then◌else◌,
}
unfoldable use identity_attack_graph.Prelude.{contains}
use identity_attack_graph.Prelude.Map.{Map, find}
use identity_attack_graph.Models.{Uuid, Criticality, crit_high, criticality_rank, severity_rank}
use identity_attack_graph.Models.Inventory.{ResourceBinding}
use identity_attack_graph.Notify.{
  Alert, header, max_detailed, severity_order, severities_at_least, slack_payload,
}
use identity_attack_graph.Notify.Bounds.{
  detailed, others, severities_at_least_lem, slack_payload_blocks,
}
use identity_attack_graph.Auth.{
  role_none, role_viewer, role_admin, role_text, parse_role, Principal, TokenEntry, Request, Auth,
  bearer, new_auth, respond,
}
use identity_attack_graph.Auth.Tokens.{token_answer, respond_token, parse_role_round_trip}
use identity_attack_graph.Auth.Jwks.{Jwk, Network, Provider, new_provider, key_by_id, resolve}
use identity_attack_graph.Auth.Jwks.Refreshed.{last_key}
use identity_attack_graph.Auth.Jwks.Published.{
  IsPublished, created, key_by_id-IsPublished, key_by_id_rotates,
}
use identity_attack_graph.Auth.Jwt.{
  JwtConfig, JwtValidator, hmac, Claim, group_claim, secret_bytes, extract_role, key_func,
}
use identity_attack_graph.Auth.Jwt.Claims.{KeyFor, extract_role_highest, key_func_kind}
use identity_attack_graph.Worker.Store.{GraphRepo}
use identity_attack_graph.Worker.Project.{Entities, project}
use identity_attack_graph.Worker.Project.Linked.{Linked, project-Linked}
use identity_attack_graph.Worker.Project.Raised.{IsRaised}
use identity_attack_graph.Worker.Project.Resources.{resources_of, project_resources}
use identity_attack_graph.Worker.Alerts.{Row, Desk, Answers, is_due, run_alerts}
use identity_attack_graph.Worker.Alerts.Sent.{IsDelivered, AllDelivered, run_alerts-AllDelivered}
use identity_attack_graph.Worker.Alerts.Due.{due_count}
use identity_attack_graph.Worker.Alerts.Drain.{sweeps, sweeps_deliver}
use identity_attack_graph.Tests.Texts.{plain}

severities_at_least_example :
    contains (severities_at_least plain "medium") "high"
    ≡ (contains severity_order "high" && leb (severity_rank "medium") (severity_rank "high"))
severities_at_least_example = severities_at_least_lem plain "medium" "high"

abbrev an_alert : Alert
an_alert = record {
  finding_id = "f1";
  detector = "stale_key";
  severity = "high";
  category = "hygiene";
  title = "An old key";
  narrative = "";
  identity_name = "deployer";
  account = "prod";
  first_seen = 5;
  evidence = [];
}

slack_payload_blocks_example :
    let p = slack_payload plain (an_alert ∷ []) in
    p.blocks
    ≡ header p.text
      ∷ (map (detailed plain) (take max_detailed (an_alert ∷ []))
          ++ (if leb 1 max_detailed then [] else others plain 1))
slack_payload_blocks_example = slack_payload_blocks plain (an_alert ∷ [])

abbrev entries : List TokenEntry
entries = record { token = "t1"; subject = "ci"; role = "analyst" } ∷ []

abbrev asking : Request
asking = record { authorization = "bearer t1"; actor = "" }

abbrev no_validator : JwtConfig → Option ℕ
no_validator c = none

abbrev nobody : ℕ → String → Option Principal
nobody v s = none

respond_token_example :
    (a : Auth ℕ) × (new_auth plain no_validator "token" entries none ≡ some a)
    × (respond plain nobody a role_viewer asking
        ≡ token_answer plain entries role_viewer (bearer plain asking))
respond_token_example =
    respond_token plain no_validator nobody entries "token" none role_viewer asking refl

parse_role_round_trip_example : parse_role plain (role_text role_admin) ≡ role_admin
parse_role_round_trip_example = parse_role_round_trip plain role_admin (omega arith) (λ s. refl)

abbrev groups : List String
groups = "viewer" ∷ "admin" ∷ []

abbrev claimed_groups : Map String Claim
claimed_groups = ("role", group_claim groups) ∷ []

extract_role_highest_example :
    let r = extract_role plain claimed_groups "role" in
    ((r ≡ role_none) ⊎ ((g : String) × Memᴰ g groups × (r ≡ parse_role plain g)))
    × ((g : String) → Memᴰ g groups → parse_role plain g ≤ r)
unfolding find
extract_role_highest_example = extract_role_highest plain claimed_groups "role" groups refl

abbrev shared_validator : JwtValidator ℕ
shared_validator = record {
  cfg = record {
    secret = "s3cret";
    public_key_pem = "";
    jwks_url = "";
    jwks_ttl = 0;
    role_claim = "role";
    issuer = "";
    audience = "";
  };
  rsa_pub = none;
  jwks = none;
}

abbrev no_keys : Provider → String → Option ℕ
no_keys p kid = none

key_func_kind_example : KeyFor no_keys shared_validator "k1" hmac (secret_bytes "s3cret")
unfolding key_func
key_func_kind_example =
    key_func_kind no_keys shared_validator hmac "k1" (secret_bytes "s3cret") refl

abbrev a_key : Jwk
a_key = record { kty = "RSA"; kid = "k1"; n = "AQ"; e = "AQ"; alg = "RS256"; use_for = "sig" }

abbrev key_uri : String
key_uri = "https://idp/keys"

abbrev network : Network
network = record { discovery = λ s. none; key_set = λ s. some (a_key ∷ []) }

abbrev trimmed : String → String → String
trimmed s cut = s

abbrev one_byte : String → Option (List ℕ)
one_byte s = some (1 ∷ [])

abbrev empty_cache : Provider
unfolding new_provider
empty_cache = new_provider "" "https://idp/keys" 0

fetched_key :
    (key_by_id plain trimmed one_byte network 7 "k1" empty_cache).0
    ≡ some (record { modulus = 1; exponent = 1 })
unfolding key_by_id new_provider
fetched_key = refl

key_by_id-IsPublished_example :
    IsPublished plain trimmed one_byte (network ∷ []) "k1" (record { modulus = 1; exponent = 1 })
unfolding new_provider
key_by_id-IsPublished_example =
    key_by_id-IsPublished plain trimmed one_byte [] empty_cache network 7 "k1"
      (record { modulus = 1; exponent = 1 }) (created "" "https://idp/keys" 0) fetched_key

key_by_id_rotates_example :
    (key_by_id plain trimmed one_byte network 7 "k1" empty_cache).0
    ≡ last_key plain trimmed one_byte "k1" (a_key ∷ [])
unfolding resolve find new_provider
key_by_id_rotates_example =
    key_by_id_rotates plain trimmed one_byte empty_cache network 7 "k1" "https://idp/keys"
      (a_key ∷ []) refl refl refl

-- A database that numbers the rows by the calls made before.
abbrev numbering : GraphRepo
numbering = record { upsert_node = λ cs n. some (length cs + 1); upsert_edge = λ cs e. true }

abbrev vault_id : String → Uuid
vault_id s = 99

abbrev grant : ResourceBinding
grant = record {
  id = 3;
  identity_id = some 7;
  role_id = none;
  resource_urn = "vault";
  resource_kind = "s3";
  resource_criticality = crit_high;
  actions = [];
  effect = "allow";
  account_ref = "prod";
  source = "";
}

abbrev entities : Entities
entities = record { idents = []; roles = []; bindings = grant ∷ []; trust = []; workloads = [] }

project-Linked_example : Linked numbering (project numbering vault_id entities).calls
project-Linked_example = project-Linked numbering vault_id entities

project_resources_example :
    (((c : Criticality) × Memᴰ
          ("vault", c)
          (resources_of (project numbering vault_id entities).calls))
      ↔ ((b : ResourceBinding) × Memᴰ b (grant ∷ [])
          × (b.resource_urn ≡ "vault")
          × (0 < criticality_rank b.resource_criticality)))
    × ((c : Criticality)
        → Memᴰ ("vault", c) (resources_of (project numbering vault_id entities).calls)
        → IsRaised (grant ∷ []) ("vault", c)
          × ((b : ResourceBinding)
              → Memᴰ b (grant ∷ [])
              → b.resource_urn ≡ "vault"
              → criticality_rank b.resource_criticality ≤ criticality_rank c))
project_resources_example = project_resources numbering vault_id entities "vault"

abbrev a_row : Row
a_row = record {
  id = 4;
  detector = "stale_key";
  category = "hygiene";
  severity = "high";
  title = "An old key";
  narrative = "";
  evidence = [];
  identity_name = "deployer";
  account = "prod";
  first_seen_at = 5;
  status = "open";
  alerted = false;
}

abbrev a_desk : Desk
a_desk = record { findings = a_row ∷ []; delivered = []; alerts_failed = 0; alerts_sent = [] }

abbrev id_name : Uuid → String
id_name n = "f4"

abbrev unmarked : Answers
unmarked = record { claimed = true; sent = true; marked = false }

none_marked : AllDelivered id_name a_desk
none_marked r m q =
    ⊎_elim (λ e. absurd (cc (ap (λ (t : Row). t.alerted) e, q))) (λ n. absurd (Memᴰ.not-nil n))
      (Memᴰ.cases_cons m)

run_alerts-AllDelivered_example :
    AllDelivered id_name (run_alerts id_name ("high" ∷ []) unmarked a_desk).0
run_alerts-AllDelivered_example =
    run_alerts-AllDelivered id_name ("high" ∷ []) unmarked a_desk none_marked

one_due : due_count ("high" ∷ []) a_desk.findings ≡ 1
unfolding is_due contains
one_due = refl

row_is_due : is_due ("high" ∷ []) a_row ≡ true
unfolding is_due contains
row_is_due = refl

sweeps_deliver_example : IsDelivered id_name a_row (sweeps id_name ("high" ∷ []) 1 a_desk).delivered
sweeps_deliver_example =
    sweeps_deliver id_name ("high" ∷ []) 1 a_desk a_row (omega (arith, one_due)) (Memᴰ.head refl)
      row_is_due
