-- ===== src/Worker/Alerts/Sent.antt =====
-- No finding is marked that was not delivered.
use mathlib.Core.List.Memᴰ
use identity_attack_graph.Prelude.{
  ◌==◌, string_eq, nat_eq, String, ◌≡◌, inl, inr, refl, sym, ap, subst, ◌∙◌, true, List, [], ◌∷◌,
  ◌++◌, map, Memᴰ, Memᴰ-append, Bool-cases,
}
unfoldable use identity_attack_graph.Prelude.{contains}
use identity_attack_graph.Models.{Uuid}
use identity_attack_graph.Notify.{Alert}
use identity_attack_graph.Worker.Alerts.{
  Row, Desk, Answers, mark_row, mark_alerted, claim_unalerted, alert_of, dispatch, run_alerts,
}

module _ (id_text : Uuid → String) where
  -- A delivered alert names the finding.
  abbrev pub IsDelivered : Row → List Alert → Type 0
  IsDelivered r alerts = (a : Alert) × Memᴰ a alerts × (a.finding_id ≡ id_text r.id)

  abbrev pub AllDelivered : Desk → Type 0
  AllDelivered d = (r : Row) → Memᴰ r d.findings → r.alerted ≡ true → IsDelivered r d.delivered

  pub later : (r : Row) (old new : List Alert) → IsDelivered r old → IsDelivered r (old ++ new)
  later r old new (a, m, q) = (a, (Memᴰ-append a old new).1 (inl m), q)

  pub named :
      (rows : List Row) (id : Uuid)
      → contains (map (λ (f : Row). f.id) rows) id ≡ true
      → (a : Alert) × Memᴰ a (map (alert_of id_text) rows) × (a.finding_id ≡ id_text id)
  unfolding contains
  named [] id h = absurd (cc h)
  named (r ∷ rows) id h = elim (Bool-cases (r.id == id)) [
    | inl here ↦ (alert_of id_text r, Memᴰ.head refl, ap id_text ((nat_eq.beq_iff r.id id).0 here))
    | inr other ↦ let (a, m, q) = named rows id (rw other at h) in (a, Memᴰ.tail m, q)
  ]

  mark_alerted-IsDelivered :
      (rows claimed : List Row) (old : List Alert) (r : Row)
      → ((s : Row) → Memᴰ s rows → s.alerted ≡ true → IsDelivered s old)
      → Memᴰ r (mark_alerted (map (λ (f : Row). f.id) claimed) rows)
      → r.alerted ≡ true
      → IsDelivered r (old ++ map (alert_of id_text) claimed)
  unfolding mark_alerted mark_row
  mark_alerted-IsDelivered [] claimed old r h m q = absurd (Memᴰ.not-nil m)
  mark_alerted-IsDelivered (s ∷ rows) claimed old r h m q =
      let ids = map (λ (f : Row). f.id) claimed in
      elim (Memᴰ.cases_cons m) [
        | inr rest ↦ mark_alerted-IsDelivered rows claimed old r (λ t n. h t (Memᴰ.tail n)) rest q
        | inl first ↦ elim (Bool-cases (contains ids s.id)) [
          | inl hit ↦
              let (a, n, e) = named claimed s.id hit in
              let same : r ≡ record s { alerted = true } = rw hit at first in
              (
                a,
                (Memᴰ-append a old (map (alert_of id_text) claimed)).1 (inr n),
                e ∙ sym (ap (λ (f : Row). id_text f.id) same),
              )
          | inr miss ↦
              let same : r ≡ s = rw miss at first in
              later r old (map (alert_of id_text) claimed) (
                subst (λ t. IsDelivered t old) (sym same)
                  (h s (Memᴰ.head refl) (sym (ap (λ (f : Row). f.alerted) same) ∙ q)))
        ]
      ]

  dispatch-AllDelivered :
      (answers : Answers) (rows : List Row) (d : Desk)
      → AllDelivered d
      → AllDelivered (dispatch id_text answers rows d)
  unfolding dispatch
  dispatch-AllDelivered answers [] d h = h
  dispatch-AllDelivered answers (c ∷ rows) d h = elim (Bool-cases answers.sent) [
    | inr failed ↦ rw failed h
    | inl sent ↦ rw sent (elim (Bool-cases answers.marked) [
      | inr unmarked ↦
          rw unmarked (λ r m q. later r d.delivered (map (alert_of id_text) (c ∷ rows)) (h r m q))
      | inl marked ↦
          rw marked (λ r m q. mark_alerted-IsDelivered d.findings (c ∷ rows) d.delivered r h m q)
    ])
  ]

  -- Whatever fails in a sweep, if before it every finding that is marked as alerted was delivered,
  -- then this holds after it too.
  pub run_alerts-AllDelivered :
      (severities : List String) (answers : Answers) (d : Desk)
      → AllDelivered d
      → AllDelivered (run_alerts id_text severities answers d).0
  unfolding run_alerts
  run_alerts-AllDelivered severities answers d h = elim (Bool-cases answers.claimed) [
    | inr failed ↦ rw failed h
    | inl claimed ↦
        rw claimed (dispatch-AllDelivered answers (claim_unalerted severities d.findings) d h)
  ]
