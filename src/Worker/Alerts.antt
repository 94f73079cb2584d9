-- ===== src/Worker/Alerts.antt =====
-- cmd/worker/alerts.go: `runAlerts`, with `ClaimUnalerted` and `MarkAlerted` of
-- internal/store/findings.go on the table of findings as a list of rows.
pub mod Sent
pub mod Due
pub mod Drain
use identity_attack_graph.Prelude.{
  ℕ, ◌+◌, ◌==◌, string_eq, nat_eq, String, Bool, true, false, not, ◌&&◌, ◌||◌, List, [], ◌∷◌, ◌++◌,
  map, keep, take, length, ltb, if◌then◌else◌,
}
unfoldable use identity_attack_graph.Prelude.{contains}
use identity_attack_graph.Prelude.Sort.{slice_stable}
use identity_attack_graph.Models.{Uuid, Time, Attributes}
use identity_attack_graph.Notify.{Alert}

-- `AlertableFinding`, with the columns of its row that the query tests.
pub record Row : Type 0 where
  pub id : Uuid
  pub detector : String
  pub category : String
  pub severity : String
  pub title : String
  pub narrative : String
  pub evidence : Attributes
  pub identity_name : String
  pub account : String
  pub first_seen_at : Time
  pub status : String
  pub alerted : Bool

-- The table, what the sink has accepted, and the counters.
pub record Desk : Type 0 where
  pub findings : List Row
  pub delivered : List Alert
  pub alerts_failed : ℕ
  pub alerts_sent : List String

-- Which of the calls out of the process succeed in a sweep.
pub record Answers : Type 0 where
  pub claimed : Bool
  pub sent : Bool
  pub marked : Bool

-- The `WHERE` clause
unfoldable pub is_due : List String → Row → Bool
unfolding contains
is_due severities r = r.status == "open" && (not r.alerted && contains severities r.severity)

abbrev pub older : Row → Row → Bool
older a b = ltb a.first_seen_at b.first_seen_at

-- The limit is the one that `runAlerts` asks for. Of rows that are equally old the database may
-- deliver any first; here the order of the table decides.
abbrev pub batch : ℕ
batch = 100

unfoldable pub claim_unalerted : List String → List Row → List Row
unfolding is_due slice_stable
claim_unalerted severities rows = take batch (slice_stable older (keep (is_due severities) rows))

unfoldable pub mark_row : List Uuid → Row → Row
unfolding contains
mark_row ids r = if contains ids r.id then record r { alerted = true } else r

unfoldable pub mark_alerted : List Uuid → List Row → List Row
unfolding mark_row
mark_alerted ids rows = map (mark_row ids) rows

-- `id_text` is the text of a UUID.
module _ (id_text : Uuid → String) where
  abbrev pub alert_of : Row → Alert
  alert_of f = record {
    finding_id = id_text f.id;
    detector = f.detector;
    severity = f.severity;
    category = f.category;
    title = f.title;
    narrative = f.narrative;
    identity_name = f.identity_name;
    account = f.account;
    first_seen = f.first_seen_at;
    evidence = f.evidence;
  }

  -- The sweep over the claimed rows.
  unfoldable pub dispatch : Answers → List Row → Desk → Desk
  unfolding mark_alerted
  dispatch answers [] d = d
  dispatch answers (r ∷ rows) d =
      let alerts = map alert_of (r ∷ rows) in
      let ids = map (λ (f : Row). f.id) (r ∷ rows) in
      if not answers.sent
      then record d { alerts_failed = d.alerts_failed + length alerts }
      else record d {
        delivered = d.delivered ++ alerts;
        findings = if answers.marked then mark_alerted ids d.findings else d.findings;
        alerts_sent = d.alerts_sent ++ map (λ (a : Alert). a.severity) alerts;
      }

  -- The new state, and whether the sweep returns an error.
  unfoldable pub run_alerts : List String → Answers → Desk → Desk × Bool
  unfolding claim_unalerted dispatch
  run_alerts severities answers d =
      let rows = claim_unalerted severities d.findings in
      let next = dispatch answers rows d in
      if not answers.claimed then (d, true) else (next, ltb 0 (length rows) && not answers.sent)
