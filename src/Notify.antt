-- ===== src/Notify.antt =====
-- internal/notify: alerts, the choice of a sink, and the message for Slack. The HTTP request is
-- left out; whether it succeeds is an argument where it counts. Texts are of ASCII characters.
pub mod Bounds
use Prim.Native.String.{len, slice}
use identity_attack_graph.Prelude.{
  ℕ, zero, suc, ◌+◌, ◌-◌, ◌==◌, nat_eq, string_eq, String, Bool, true, false, List, [], ◌∷◌, ◌++◌,
  Option, some, none, keep, leb, length, if◌then◌else◌,
}
unfoldable use identity_attack_graph.Prelude.{contains}
use identity_attack_graph.Prelude.Map.{Map, find_or}
use identity_attack_graph.Prelude.Texts.{Strings, ◌<>◌, decimal}
use identity_attack_graph.Models.{Attributes, Time}

pub record Alert : Type 0 where
  pub finding_id : String
  pub detector : String
  pub severity : String
  pub category : String
  pub title : String
  pub narrative : String
  pub identity_name : String
  pub account : String
  pub first_seen : Time
  pub evidence : Attributes

pub record Config : Type 0 where
  pub enabled : Bool
  pub kind : String
  pub webhook_url : String
  pub min_severity : String

-- What `New` returns: (nil, nil), an error, or a notifier.
pub data Created : Type 0 where
  disabled : Created
  url_missing : Created
  kind_unknown : String → Created
  slack_notifier : String → Created
  webhook_notifier : String → Created

unfoldable pub new_notifier : Strings → Config → Created
unfolding contains
new_notifier u cfg =
    let kind = u.lower cfg.kind in
    if cfg.enabled
    then (if cfg.webhook_url == ""
        then url_missing
        else if contains ("" ∷ "slack" ∷ []) kind
        then slack_notifier cfg.webhook_url
        else if kind == "webhook"
        then webhook_notifier cfg.webhook_url
        else kind_unknown cfg.kind)
    else disabled

abbrev pub severity_order : List String
severity_order = "info" ∷ "low" ∷ "medium" ∷ "high" ∷ "critical" ∷ []

abbrev pub severity_floor : Map String ℕ
severity_floor = ("info", 0) ∷ ("low", 1) ∷ ("medium", 2) ∷ ("high", 3) ∷ ("critical", 4) ∷ []

unfoldable pub severities_at_least : Strings → String → List String
unfolding find_or
severities_at_least u min =
    let floor = find_or 0 (u.lower min) severity_floor in
    keep (λ s. leb floor (find_or 0 s severity_floor)) severity_order

unfoldable pub severity_emoji : Strings → String → String
severity_emoji u sev =
    let s = u.lower sev in
    if s == "critical"
    then "🔴"
    else if s == "high"
    then "🟠"
    else if s == "medium"
    then "🟡"
    else if s == "low"
    then "🔵"
    else "⚪"

unfoldable pub truncate : String → ℕ → String
truncate s n = if leb (len s) n then s else slice s 0 (n - 1) <> "…"

-- `strings.Join`
abbrev pub join : String → List String → String
join sep [] = ""
join sep (s ∷ ss) = s <> elim ss [ [] ↦ "" | t ∷ ts ↦ sep <> join sep ss ]

unfoldable pub plural : ℕ → String
plural n = if n == 1 then "" else "s"

unfoldable pub slack_alert_text : Strings → Alert → String
unfolding severity_emoji truncate
slack_alert_text u a =
    let named =
      if a.identity_name == "" then [] else ("identity *" <> a.identity_name <> "*") ∷ [] in
    let placed = if a.account == "" then [] else a.account ∷ [] in
    severity_emoji u a.severity
    <> " *["
    <> u.upper a.severity
    <> "] "
    <> a.title
    <> "*\n"
    <> join " · " ((("`" <> a.detector <> "`") ∷ named) ++ placed)
    <> "\n"
    <> truncate a.narrative 280

-- A block of the message, by its type and its text.
pub data Block : Type 0 where
  header : String → Block
  section : String → Block
  context : String → Block

pub record SlackPayload : Type 0 where
  pub text : String
  pub blocks : List Block

abbrev pub max_detailed : ℕ
max_detailed = 20

-- The loop of `slackPayload` over the alerts from the i-th on, of which there are `all`.
unfoldable pub alert_blocks : Strings → ℕ → ℕ → List Alert → List Block
unfolding slack_alert_text decimal
alert_blocks u all i [] = []
alert_blocks u all i (a ∷ alerts) =
    let rest = alert_blocks u all (i + 1) alerts in
    if leb max_detailed i
    then context ("…and " <> decimal (all - max_detailed) <> " more") ∷ []
    else section (slack_alert_text u a) ∷ rest

unfoldable pub slack_payload : Strings → List Alert → SlackPayload
unfolding alert_blocks plural decimal
slack_payload u alerts =
    let n = length alerts in
    let title = "NHIID: " <> decimal n <> " new finding" <> plural n in
    record { text = title; blocks = header title ∷ alert_blocks u n 0 alerts }
