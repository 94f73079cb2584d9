-- ===== src/Detect/Hygiene.antt =====
-- internal/detect/rules.go and secret.go: `orphaned_identity`, `stale_identity`, `stale_access_key`
-- and `unused_secret`.
use identity_attack_graph.Prelude.{
  ◌*◌, ◌==◌, string_eq, String, Bool, false, not, ◌&&◌, ◌||◌, List, [], ◌∷◌, ◌++◌, Option, some,
  none, if◌then◌else◌,
}
use identity_attack_graph.Prelude.Int.{ℤ, pos, ltb_ℤ, leb_ℤ}
use identity_attack_graph.Prelude.Texts.{◌<>◌}
use identity_attack_graph.Models.{
  Time, text, bool, int, instant, strings, Attributes, Finding, sev_low, sev_medium, sev_high,
}
use identity_attack_graph.Models.Inventory.{Credential}
use identity_attack_graph.Models.Records.{Secret}
use identity_attack_graph.Detect.Subject.{Subject, Config}
use identity_attack_graph.Detect.Engine.{finding, fingerprint_of}
use identity_attack_graph.Detect.Support.{
  Floats, Format, since, days_ago, list_text, break_glass, present, some_in,
}

-- Whether the instant is known and lies further back than the duration.
unfoldable pub older : Time → ℤ → Option Time → Bool
unfolding since
older now d none = false
older now d (some t) = ltb_ℤ d (since now t)

-- 30 days in nanoseconds
abbrev pub thirty_days : ℤ
thirty_days = pos (30 * 24 * 3600000000000)

unfoldable pub is_stale : Subject → Config → Time → Bool
unfolding older
is_stale s cfg now = elim s.identity.last_seen_at [
  | none ↦ older now thirty_days s.identity.created_at_source
  | some t ↦ older now cfg.stale_window (some t)
]

-- The tests of the loop body on a credential.
unfoldable pub key_stale : Config → Time → Credential → Bool
unfolding older
key_stale cfg now c = not (present c.last_used_at) || older now cfg.stale_window c.last_used_at

-- `limit > 0 && age > limit`, false where the age is not known
unfoldable pub over_age : ℤ → Time → Credential → Bool
unfolding older
over_age limit now c = ltb_ℤ (pos 0) limit && older now limit c.created_at_source

abbrev pub reason : Bool → String → List String
reason b r = if b then r ∷ [] else []

unfoldable pub key_reasons : Config → Time → Credential → List String
unfolding key_stale over_age
key_reasons cfg now c =
    reason (key_stale cfg now c) "unused_beyond_window"
    ++ (reason (over_age cfg.max_rotation_age now c) "rotation_overdue"
        ++ reason (over_age cfg.max_cred_age now c) "exceeds_max_age")

module _ (fl : Floats) (fm : Format) where
  unfoldable pub orphaned_identity : Subject → Config → Time → List Finding
  unfolding break_glass finding
  orphaned_identity s cfg now =
      let i = s.identity in
      let ev =
        ("missing", strings ("owner" ∷ "workload" ∷ "repo_reference" ∷ []))
        ∷ ("created", instant i.created_at_source)
        ∷ ("last_seen", instant i.last_seen_at)
        ∷ ("account", text i.prov.account_ref)
        ∷ [] in
      let narr =
        "Identity "
        <> fm.quote i.name
        <> " has no owner, no workload running as it, and no repository reference. It is unaccounted for — an abandoned credential an attacker can use without anyone noticing." in
      if not (i.state == "active")
      then []
      else if break_glass i
      then []
      else if (present s.owner || present i.owner_id)
          || (some_in s.workloads || some_in s.exposures)
      then []
      else finding fm.hash32 fm.uuid_text i.id "orphaned_identity" "hygiene" sev_medium 70
          "Orphaned non-human identity" narr ev []
        ∷ []

  unfoldable pub stale_identity : Subject → Config → Time → List Finding
  unfolding break_glass is_stale days_ago finding
  stale_identity s cfg now =
      let i = s.identity in
      let sev =
        if fl.less (fl.of_int (pos 180)) (days_ago fl i.last_seen_at now)
          || not (present i.last_seen_at)
        then sev_medium
        else sev_low in
      let ev =
        ("last_seen", instant i.last_seen_at)
        ∷ (
          "stale_window_days",
          int (fl.truncated (fl.div (fl.hours cfg.stale_window) (fl.of_int (pos 24)))),
        )
        ∷ [] in
      let narr =
        "Identity "
        <> fm.quote i.name
        <> " has had no legitimate usage within the staleness window. Dormant credentials are unmonitored attack surface and prime candidates for revocation." in
      if break_glass i
      then []
      else if not (is_stale s cfg now)
      then []
      else finding fm.hash32 fm.uuid_text i.id "stale_identity" "hygiene" sev 75
          "Stale unused identity" narr ev []
        ∷ []

  unfoldable pub key_age : Time → Credential → Attributes
  unfolding since
  key_age now c = elim c.created_at_source [
    | none ↦ []
    | some t ↦
        let days = fl.truncated (fl.div (fl.hours (since now t)) (fl.of_int (pos 24))) in
        if leb_ℤ (pos 0) days then ("age_days", int days) ∷ [] else []
  ]

  unfoldable pub key_finding : Subject → Config → Time → Credential → Finding
  unfolding key_reasons over_age key_age list_text finding
  key_finding s cfg now c =
      let reasons = key_reasons cfg now c in
      let sev = if over_age cfg.max_cred_age now c then sev_high else sev_medium in
      let ev =
        (("credential", text c.external_id)
          ∷ ("type", text c.cred_type)
          ∷ ("last_used", instant c.last_used_at)
          ∷ ("reasons", strings reasons)
          ∷ [])
        ++ key_age now c in
      let narr =
        "Credential "
        <> c.external_id
        <> " ("
        <> c.cred_type
        <> ") on identity "
        <> fm.quote s.identity.name
        <> " needs rotation ("
        <> list_text reasons
        <> "). Long-lived or unused credentials should be rotated then deleted." in
      finding fm.hash32 fm.uuid_text s.identity.id "stale_access_key" "hygiene" sev 80
        "Credential stale or overdue for rotation" narr ev (c.external_id ∷ [])

  unfoldable pub key_findings : Subject → Config → Time → List Credential → List Finding
  unfolding key_finding key_stale over_age
  key_findings s cfg now [] = []
  key_findings s cfg now (c ∷ creds) =
      let rest = key_findings s cfg now creds in
      if not (c.status == "active")
      then rest
      else if not (key_stale cfg now c)
          && (not (over_age cfg.max_rotation_age now c) && not (over_age cfg.max_cred_age now c))
      then rest
      else key_finding s cfg now c ∷ rest

  unfoldable pub stale_access_key : Subject → Config → Time → List Finding
  unfolding key_findings
  stale_access_key s cfg now = key_findings s cfg now s.creds

  unfoldable pub unused_secret_finding : Secret → ℤ → Time → Option Finding
  unfolding since fingerprint_of
  unused_secret_finding sec stale_window now =
      let recent : Bool = elim sec.last_accessed_at [
        | none ↦ false
        | some t ↦ leb_ℤ (since now t) stale_window
      ] in
      let last : String = elim sec.last_accessed_at [ none ↦ "never" | some t ↦ fm.date t ] in
      let ev =
        ("store", text sec.store)
        ∷ ("secret", text sec.external_id)
        ∷ ("name", text sec.name)
        ∷ ("referenced_by", int sec.referenced_by_count)
        ∷ ("last_accessed", instant sec.last_accessed_at)
        ∷ ("rotation_enabled", bool sec.rotation_enabled)
        ∷ [] in
      if ltb_ℤ (pos 0) sec.referenced_by_count
      then none
      else if recent
      then none
      else some (record {
        detector = "unused_secret";
        category = "hygiene";
        severity = sev_low;
        confidence = 75;
        identity_id = none;
        title = "Unused managed secret";
        narrative =
            "Secret "
            <> fm.quote sec.name
            <> " in "
            <> sec.store
            <> " has no references and was last accessed "
            <> last
            <> ". Unreferenced secrets are dead credential material — delete them to shrink the attack surface.";
        evidence = ev;
        fingerprint =
            fingerprint_of fm.hash32 fm.uuid_text "unused_secret" none
              (sec.store ∷ sec.external_id ∷ []);
        status = "open";
        first_seen_at = 0;
        last_seen_at = 0;
      })
