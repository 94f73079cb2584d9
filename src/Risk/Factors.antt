-- ===== src/Risk/Factors.antt =====
-- internal/risk/score.go: the six factors.
use identity_attack_graph.Prelude.{
  String, ◌==◌, string_eq, Bool, true, false, not, ◌&&◌, ◌||◌, List, [], ◌∷◌, ◌++◌, some, none,
  if◌then◌else◌,
}
use identity_attack_graph.Prelude.Int.{ℤ, pos, ltb_ℤ, leb_ℤ}
use identity_attack_graph.Prelude.Int64.{◌+₆₄◌, ◌*₆₄◌}
use identity_attack_graph.Models.{Time, crit_crown_jewel}
use identity_attack_graph.Models.Inventory.{Credential, Role, ResourceBinding, TrustEdge, Exposure}
use identity_attack_graph.Risk.{
  Weights, sig, Input, Factor, no_factor, add_signal, add_if, clamp_score, cap_pts, has_write,
  total_perms, flag_attribute, trust_has_guard, some_of, older_than, stale_window, never_used_age,
  rotation_max_age, cred_max_age,
}

unfoldable pub sum_over {ℓ} : {A : Type ℓ} → (A → ℤ) → ℤ → List A → ℤ
unfolding ◌+₆₄◌
sum_over count t [] = t
sum_over count t (x ∷ xs) = sum_over count (t +₆₄ count x) xs

unfoldable pub is_admin_level : Role → Bool
is_admin_level r = r.privilege_level == "admin" || r.privilege_level == "privileged"

unfoldable pub writes_crown : ResourceBinding → Bool
unfolding has_write
writes_crown b =
    b.effect == "allow" && (b.resource_criticality == crit_crown_jewel && has_write b.actions)

unfoldable pub is_static_key : Credential → Bool
is_static_key c = elim c.expires_at [
  | some t ↦ false
  | none ↦
      c.cred_type == "aws_access_key" || (c.cred_type == "gcp_sa_key" || c.cred_type == "api_key")
]

unfoldable pub is_over_age : Time → Credential → Bool
unfolding older_than
is_over_age now c = elim c.created_at_source [
  | some t ↦ older_than cred_max_age now t
  | none ↦ false
]

module _ {F : Type 0} (w : Weights F) where
  unfoldable pub privilege : Input → Factor
  unfolding sum_over is_admin_level writes_crown some_of flag_attribute add_if cap_pts sig
      total_perms clamp_score ◌*₆₄◌
  privilege x =
      let wild_act = sum_over (λ (r : Role). r.wildcard_action_count) (pos 0) x.roles in
      let wild_res = sum_over (λ (r : Role). r.wildcard_resource_count) (pos 0) x.roles in
      let escalates =
        some_of (λ (r : Role). flag_attribute "has_priv_escalation" r.policy_document) x.roles in
      let creeps =
        ltb_ℤ (pos 0) x.peer_permission_p90 && ltb_ℤ x.peer_permission_p90 (total_perms x.roles) in
      let p = sig w "privilege" in
      let f =
        add_if (some_of is_admin_level x.roles) (p "admin_or_star") "admin_or_star" no_factor in
      let f =
        add_if (ltb_ℤ (pos 0) wild_act)
          (cap_pts (wild_act *₆₄ p "wildcard_action") (p "wildcard_action_cap")) "wildcard_action"
          f in
      let f =
        add_if (ltb_ℤ (pos 0) wild_res)
          (cap_pts (wild_res *₆₄ p "wildcard_resource") (p "wildcard_resource_cap"))
          "wildcard_resource" f in
      let f = add_if escalates (p "priv_escalation_action") "priv_escalation_action" f in
      let f =
        add_if (some_of writes_crown x.bindings) (p "write_crown_jewel") "write_crown_jewel" f in
      clamp_score (add_if creeps (p "privilege_creep_p90") "privilege_creep_p90" f)

  unfoldable pub exposure : Input → Factor
  unfolding some_of is_static_key is_over_age add_if sig clamp_score
  exposure x =
      let tagged =
        some_of (λ (e : Exposure). e.pattern == "public" || e.path == "public") x.exposures in
      let found = some_of (λ (e : Exposure). true) x.exposures in
      let p = sig w "exposure" in
      let f =
        if tagged
        then add_signal no_factor (p "public_repo") "public_repo"
        else add_if found (p "private_repo_or_ci") "private_repo_or_ci" no_factor in
      let f =
        add_if (some_of (λ (e : Exposure). e.verified) x.exposures) (p "verified_live")
          "verified_live" f in
      let f =
        add_if (some_of is_static_key x.creds) (p "static_key_no_expiry") "static_key_no_expiry"
          f in
      clamp_score
        (add_if (some_of (is_over_age x.now) x.creds) (p "cred_over_max_age") "cred_over_max_age" f)

  unfoldable pub freshness : Input → Factor
  unfolding older_than add_if add_signal sig clamp_score
  freshness x =
      let p = sig w "freshness" in
      let f : Factor = elim x.identity.last_seen_at [
        | none ↦ elim x.identity.created_at_source [
          | some t ↦
              add_if (older_than never_used_age x.now t) (p "never_used_aged") "never_used_aged"
                no_factor
          | none ↦ no_factor
        ]
        | some t ↦
            add_if (older_than stale_window x.now t) (p "unused_stale_window") "unused_stale_window"
              no_factor
      ] in
      clamp_score (elim x.identity.last_rotated_at [
        | none ↦ add_signal f (p "rotation_unmanaged") "rotation_unmanaged"
        | some t ↦ add_if (older_than rotation_max_age x.now t) (p "not_rotated") "not_rotated" f
      ])

  -- The closure `add` of `usage` lists a signal whatever its points.
  unfoldable pub add_anomaly : Bool → String → Factor → Factor
  unfolding sig ◌+₆₄◌
  add_anomaly on name f =
      if on
      then record { score = f.score +₆₄ sig w "usage" name; signals = f.signals ++ name ∷ [] }
      else f

  unfoldable pub usage : Input → Factor
  unfolding add_anomaly clamp_score
  usage x =
      let a = x.anomalies in
      let f = add_anomaly a.impossible_travel "impossible_travel" no_factor in
      let f = add_anomaly a.new_region "new_region" f in
      let f = add_anomaly a.new_asn_or_runtime "new_asn_or_runtime" f in
      let f = add_anomaly a.usage_spike "usage_spike" f in
      let f = add_anomaly a.first_use_sensitive "first_use_sensitive" f in
      clamp_score (add_anomaly a.off_hours_burst "offhours_burst" f)

  -- The body of the loop over `in.Trust`.
  unfoldable pub add_trust_edge : Factor → TrustEdge → Factor
  unfolding add_if sig trust_has_guard flag_attribute
  add_trust_edge f t =
      let p = sig w "trust" in
      let f =
        add_if (t.edge_type == "can_assume" && not (trust_has_guard t.condition))
          (p "conditionless_assume") "conditionless_assume" f in
      let f =
        add_if (flag_attribute "cross_account" t.condition) (p "cross_account") "cross_account" f in
      let f =
        add_if (flag_attribute "wildcard_principal" t.condition) (p "wildcard_external")
          "wildcard_external" f in
      add_if (t.edge_type == "can_mint_token" || t.edge_type == "can_impersonate")
        (p "can_mint_or_impersonate") "can_mint_or_impersonate" f

  unfoldable pub add_trust_edges : Factor → List TrustEdge → Factor
  unfolding add_trust_edge
  add_trust_edges f [] = f
  add_trust_edges f (t ∷ ts) = add_trust_edges (add_trust_edge f t) ts

  unfoldable pub trust : Input → Factor
  unfolding add_trust_edges add_if sig clamp_score
  trust x =
      let f = add_trust_edges no_factor x.trust in
      clamp_score (
        add_if (leb_ℤ (pos 2) x.trust_chain_depth) (sig w "trust" "chain_depth_2plus")
          "chain_depth_2plus" f)

  unfoldable pub blast : Input → Factor
  unfolding add_if add_signal sig cap_pts clamp_score ◌*₆₄◌
  blast x =
      let br = x.blast in
      let p = sig w "blast_radius" in
      let crowns = pos br.crown_jewel_count in
      let highs = pos br.high_crit_count in
      let f =
        if ltb_ℤ (pos 0) crowns
        then (if leb_ℤ br.nearest_crown_jewel (pos 1)
            then add_signal no_factor (p "crown_jewel_1hop") "crown_jewel_1hop"
            else add_signal no_factor (p "crown_jewel_chain") "crown_jewel_chain")
        else no_factor in
      let f =
        add_if (ltb_ℤ (pos 0) highs) (cap_pts (highs *₆₄ p "high_crit_each") (p "high_crit_cap"))
          "high_crit_reachable" f in
      let f =
        add_if
          (ltb_ℤ (pos 0) x.peer_reachable_p90
            && ltb_ℤ x.peer_reachable_p90 (pos br.reachable_resources))
          (p "reachable_over_p90") "reachable_over_p90" f in
      clamp_score (add_if br.reaches_admin (p "escalate_to_admin") "escalate_to_admin" f)
