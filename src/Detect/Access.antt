-- ===== src/Detect/Access.antt =====
-- internal/detect/rules.go: `over_privileged_sa`, `conditionless_assume_role`, `wildcard_trust`,
-- `high_blast_radius` and `ai_agent_overscoped`.
use identity_attack_graph.Prelude.{
  ◌==◌, nat_eq, string_eq, String, Bool, false, not, ◌&&◌, ◌||◌, List, [], ◌∷◌, ◌++◌, map, some,
  none, if◌then◌else◌,
}
use identity_attack_graph.Prelude.Int.{pos}
use identity_attack_graph.Prelude.Map.{find}
use identity_attack_graph.Prelude.Texts.{◌<>◌, decimal}
use identity_attack_graph.Models.{
  Time, Any, text, bool, int, real, strings, object, other, fields_of, Finding, sev_high,
  crit_crown_jewel,
}
use identity_attack_graph.Models.Inventory.{Role, ResourceBinding, TrustEdge}
use identity_attack_graph.Risk.{flag_attribute, trust_has_guard}
use identity_attack_graph.Graph.AttackPaths.{AttackPath}
use identity_attack_graph.Detect.Subject.{Subject, Config}
use identity_attack_graph.Detect.Engine.{finding}
use identity_attack_graph.Detect.Support.{
  Floats, Format, bool_text, list_text, has_write_action, to_float,
}

-- The flags of `over_privileged_sa` and what was matched.
pub record Excess : Type 0 where
  pub matched : List String
  pub admin : Bool
  pub escalation : Bool
  pub write_crown : Bool

unfoldable pub match_role : Excess → Role → Excess
unfolding flag_attribute
match_role x r =
    let admin = r.privilege_level == "admin" || r.privilege_level == "privileged" in
    let escalation = flag_attribute "has_priv_escalation" r.policy_document in
    record x {
      matched =
          (x.matched ++ (if admin then ("role:" <> r.name <> ":admin") ∷ [] else []))
          ++ (if escalation then ("role:" <> r.name <> ":priv_escalation") ∷ [] else []);
      admin = x.admin || admin;
      escalation = x.escalation || escalation;
    }

unfoldable pub match_binding : Excess → ResourceBinding → Excess
unfolding has_write_action
match_binding x b =
    let hit =
      b.effect == "allow"
      && (b.resource_criticality == crit_crown_jewel && has_write_action b.actions) in
    record x {
      matched = x.matched ++ (if hit then ("write:" <> b.resource_urn) ∷ [] else []);
      write_crown = x.write_crown || hit;
    }

unfoldable pub match_roles : Excess → List Role → Excess
unfolding match_role
match_roles x [] = x
match_roles x (r ∷ roles) = match_roles (match_role x r) roles

unfoldable pub match_bindings : Excess → List ResourceBinding → Excess
unfolding match_binding
match_bindings x [] = x
match_bindings x (b ∷ bindings) = match_bindings (match_binding x b) bindings

unfoldable pub excess_of : Subject → Excess
unfolding match_roles match_bindings
excess_of s =
    match_bindings
      (match_roles (record { matched = []; admin = false; escalation = false; write_crown = false })
        s.roles)
      s.bindings

-- Not `t.EdgeType != "can_assume" || trustHasGuard(t.Condition)`
unfoldable pub is_conditionless : TrustEdge → Bool
unfolding trust_has_guard
is_conditionless t = t.edge_type == "can_assume" && not (trust_has_guard t.condition)

module _ (fl : Floats) (fm : Format) where
  unfoldable pub over_privileged_sa : Subject → Config → Time → List Finding
  unfolding excess_of list_text finding
  over_privileged_sa s cfg now =
      let x = excess_of s in
      let ev =
        ("matched", strings x.matched)
        ∷ ("admin", bool x.admin)
        ∷ ("priv_escalation", bool x.escalation)
        ∷ ("write_crown_jewel", bool x.write_crown)
        ∷ [] in
      let narr =
        "Identity "
        <> fm.quote s.identity.name
        <> " holds excessive privilege ("
        <> list_text x.matched
        <> "). This grants a concrete escalation or high-impact write primitive far beyond least privilege." in
      if not x.admin && (not x.escalation && not x.write_crown)
      then []
      else finding fm.hash32 fm.uuid_text s.identity.id "over_privileged_sa" "privilege" sev_high 78
          "Over-privileged service identity" narr ev []
        ∷ []

  unfoldable pub conditionless_finding : Subject → TrustEdge → Finding
  unfolding finding
  conditionless_finding s t =
      let ev =
        ("edge", text t.edge_type)
        ∷ ("missing_conditions", strings ("ExternalId" ∷ "MFA" ∷ "SourceIp" ∷ []))
        ∷ [] in
      let narr =
        "Identity "
        <> fm.quote s.identity.name
        <> " can assume a role with no trust condition (no ExternalId/MFA/IP restriction). This is lateral-movement fuel: anyone able to act as the principal inherits the target role." in
      finding fm.hash32 fm.uuid_text s.identity.id "conditionless_assume_role" "trust" sev_high 72
        "Conditionless assume-role trust" narr ev (fm.uuid_text t.id ∷ [])

  unfoldable pub conditionless_findings : Subject → List TrustEdge → List Finding
  unfolding conditionless_finding is_conditionless
  conditionless_findings s [] = []
  conditionless_findings s (t ∷ trust) =
      let rest = conditionless_findings s trust in
      if is_conditionless t then conditionless_finding s t ∷ rest else rest

  unfoldable pub conditionless_trust : Subject → Config → Time → List Finding
  unfolding conditionless_findings
  conditionless_trust s cfg now = conditionless_findings s s.trust

  unfoldable pub wildcard_finding : Subject → TrustEdge → Finding
  unfolding fields_of finding
  wildcard_finding s t =
      let ev = ("edge", text t.edge_type) ∷ ("condition", object (fields_of t.condition)) ∷ [] in
      let narr =
        "Identity/role linked to "
        <> fm.quote s.identity.name
        <> " trusts a wildcard or external principal. This dramatically widens who can obtain its privileges." in
      finding fm.hash32 fm.uuid_text s.identity.id "wildcard_trust" "trust" sev_high 74
        "Wildcard/external trust principal" narr ev (fm.uuid_text t.id ∷ [])

  unfoldable pub wildcard_findings : Subject → List TrustEdge → List Finding
  unfolding wildcard_finding flag_attribute
  wildcard_findings s [] = []
  wildcard_findings s (t ∷ trust) =
      let rest = wildcard_findings s trust in
      if flag_attribute "wildcard_principal" t.condition then wildcard_finding s t ∷ rest else rest

  unfoldable pub wildcard_trust : Subject → Config → Time → List Finding
  unfolding wildcard_findings
  wildcard_trust s cfg now = wildcard_findings s s.trust

  unfoldable pub high_blast_radius : Subject → Config → Time → List Finding
  unfolding decimal finding
  high_blast_radius s cfg now =
      let b = s.blast in
      let described = map (λ (p : AttackPath). decimal p.hops <> " hops -> " <> p.impact) s.paths in
      let ev =
        ("crown_jewels_reachable", int (pos b.crown_jewel_count))
        ∷ ("nearest_crown_jewel_hops", int b.nearest_crown_jewel)
        ∷ ("reaches_admin", bool b.reaches_admin)
        ∷ ("top_paths", strings described)
        ∷ [] in
      let narr =
        "Identity "
        <> fm.quote s.identity.name
        <> " can reach high-impact resources (crown jewels: "
        <> decimal b.crown_jewel_count
        <> ", admin: "
        <> bool_text b.reaches_admin
        <> "). If compromised, blast radius extends to critical assets via the listed attack paths." in
      if b.crown_jewel_count == 0 && not b.reaches_admin
      then []
      else finding fm.hash32 fm.uuid_text s.identity.id "high_blast_radius" "blast_radius" sev_high
          76 "High blast radius identity" narr ev []
        ∷ []

  unfoldable pub ai_agent_overscoped : Subject → Config → Time → List Finding
  unfolding to_float flag_attribute find finding
  ai_agent_overscoped s cfg now =
      let meta = s.identity.ai_agent_meta in
      let ttl = to_float fl (find "ttl_hours" meta) in
      let broad = flag_attribute "broad_api_scope" meta in
      let tools = flag_attribute "uncontrolled_tools" meta in
      let listed : Any = elim (find "tools" meta) [ some v ↦ v | none ↦ other ] in
      let ev =
        ("ttl_hours", real ttl)
        ∷ ("broad_api_scope", bool broad)
        ∷ ("uncontrolled_tools", bool tools)
        ∷ ("tools", listed)
        ∷ [] in
      let narr =
        "AI-agent identity "
        <> fm.quote s.identity.name
        <> " is over-scoped (broad API scope="
        <> bool_text broad
        <> ", uncontrolled tools="
        <> bool_text tools
        <> ", TTL="
        <> fm.fixed 0 ttl
        <> "h). Autonomous agents with broad, long-lived, weakly-scoped access are high-consequence targets." in
      if not s.identity.is_ai_agent
      then []
      else if not broad && (not tools && fl.at_most ttl (fl.of_int (pos 24)))
      then []
      else finding fm.hash32 fm.uuid_text s.identity.id "ai_agent_overscoped" "ai_agent" sev_high 70
          "Over-scoped AI-agent identity" narr ev []
        ∷ []
