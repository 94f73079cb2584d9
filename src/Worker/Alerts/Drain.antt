-- ===== src/Worker/Alerts/Drain.antt =====
-- A finding that is due is delivered after enough sweeps that succeed.
use mathlib.Core.List.Memᴰ
use identity_attack_graph.Prelude.{
  ℕ, zero, suc, ◌*◌, ◌≤◌, String, ◌≡◌, inl, inr, refl, sym, ap, subst, true, false, List, [], ◌∷◌,
  ◌++◌, map, Memᴰ, Memᴰ-append, Bool-cases, nat_eq, arith,
}
unfoldable use identity_attack_graph.Prelude.{contains}
use identity_attack_graph.Models.{Uuid}
use identity_attack_graph.Notify.{Alert}
use identity_attack_graph.Worker.Alerts.{
  Row, Desk, Answers, is_due, batch, mark_row, mark_alerted, claim_unalerted, alert_of, dispatch,
  run_alerts,
}
use identity_attack_graph.Worker.Alerts.Sent.{IsDelivered, named, later}
use identity_attack_graph.Worker.Alerts.Due.{due_count, mark-claimed-count, count-mem}

abbrev all_succeed : Answers
all_succeed = record { claimed = true; sent = true; marked = true }

mark_none : (rows : List Row) → mark_alerted [] rows ≡ rows
unfolding mark_alerted mark_row contains
mark_none [] = refl
mark_none (r ∷ rows) = ap (◌∷◌ r) (mark_none rows)

append_nil : (alerts : List Alert) → alerts ≡ alerts ++ []
append_nil [] = refl
append_nil (a ∷ alerts) = ap (◌∷◌ a) (append_nil alerts)

mark_alerted-mem :
    (ids : List Uuid) (rows : List Row) (r : Row)
    → contains ids r.id ≡ false
    → Memᴰ r rows
    → Memᴰ r (mark_alerted ids rows)
unfolding mark_alerted mark_row
mark_alerted-mem ids [] r h m = absurd (Memᴰ.not-nil m)
mark_alerted-mem ids (s ∷ rows) r h m = elim (Memᴰ.cases_cons m) [
  | inr rest ↦ Memᴰ.tail (mark_alerted-mem ids rows r h rest)
  | inl first ↦
      let same : contains ids s.id ≡ false =
        subst (λ (t : Row). contains ids t.id ≡ false) first h in
      rw same (Memᴰ.head first)
]

module _ (id_text : Uuid → String) (severities : List String) where
  -- A number of sweeps in which every call succeeds.
  abbrev pub sweeps : ℕ → Desk → Desk
  sweeps zero d = d
  sweeps (suc k) d = sweeps k (run_alerts id_text severities all_succeed d).0

  dispatch_all :
      (rows : List Row) (d : Desk)
      → let next = dispatch id_text all_succeed rows d in
        (next.findings ≡ mark_alerted (map (λ (f : Row). f.id) rows) d.findings)
        × (next.delivered ≡ d.delivered ++ map (alert_of id_text) rows)
  unfolding dispatch
  dispatch_all [] d = (sym (mark_none d.findings), append_nil d.delivered)
  dispatch_all (r ∷ rows) d = (refl, refl)

  sweep_all :
      (d : Desk)
      → let next = (run_alerts id_text severities all_succeed d).0 in
        let rows = claim_unalerted severities d.findings in
        (next.findings ≡ mark_alerted (map (λ (f : Row). f.id) rows) d.findings)
        × (next.delivered ≡ d.delivered ++ map (alert_of id_text) rows)
  unfolding run_alerts
  sweep_all d = dispatch_all (claim_unalerted severities d.findings) d

  sweeps-IsDelivered :
      (k : ℕ) (d : Desk) (r : Row)
      → IsDelivered id_text r d.delivered
      → IsDelivered id_text r (sweeps k d).delivered
  sweeps-IsDelivered zero d r h = h
  sweeps-IsDelivered (suc k) d r h =
      let rows = claim_unalerted severities d.findings in
      sweeps-IsDelivered k _ r (
        subst (IsDelivered id_text r) (sym (sweep_all d).1)
          (later id_text r d.delivered (map (alert_of id_text) rows) h))

  -- A sweep delivers 100 of the findings that are due: if k times 100 are not fewer than the
  -- findings due in the table, each of these is delivered after k sweeps that succeed.
  pub sweeps_deliver :
      (k : ℕ) (d : Desk) (r : Row)
      → due_count severities d.findings ≤ k * batch
      → Memᴰ r d.findings
      → is_due severities r ≡ true
      → IsDelivered id_text r (sweeps k d).delivered
  sweeps_deliver zero d r h m due =
      absurd (let one = count-mem (is_due severities) d.findings r m due in omega (arith, one, h))
  sweeps_deliver (suc k) d r h m due =
      let rows = claim_unalerted severities d.findings in
      let ids = map (λ (f : Row). f.id) rows in
      let (findings, delivered) = sweep_all d in
      let next = (run_alerts id_text severities all_succeed d).0 in
      elim (Bool-cases (contains ids r.id)) [
        | inl hit ↦
            let (a, n, q) = named id_text rows r.id hit in
            sweeps-IsDelivered k next r (
              subst (IsDelivered id_text r) (sym delivered)
                (a, (Memᴰ-append a d.delivered (map (alert_of id_text) rows)).1 (inr n), q))
        | inr miss ↦
            let fewer = mark-claimed-count severities d.findings in
            let count = ap (due_count severities) findings in
            sweeps_deliver k next r (omega (arith, h, fewer, count))
              (subst (Memᴰ r) (sym findings) (mark_alerted-mem ids d.findings r miss m)) due
      ]
