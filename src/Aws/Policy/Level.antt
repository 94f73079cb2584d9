-- ===== src/Aws/Policy/Level.antt =====
-- Which documents make an administrator.
use identity_attack_graph.Prelude.{
  ◌==◌, string_eq, String, ◌≡◌, ◌↔◌, inl, inr, refl, sym, ap, ◌∙◌, Bool, true, false, ◌&&◌, ◌||◌,
  List, foldl, Option, some, none, arith, Bool-cases, if◌then◌else◌,
}
use identity_attack_graph.Prelude.Texts.{Strings}
use identity_attack_graph.Prelude.Folds.{foldl-flag, any_of}
use identity_attack_graph.Models.{Criticality}
use identity_attack_graph.Aws.Policy.{
  Statement, Progress, Acted, take_action, take_statement, take_document, no_progress,
  analyze_policies,
}

not_admin : {A : Type 0} (s : String) → (s == "admin") ≡ false → s ≡ "admin" → A
not_admin s q h = let t : (s == "admin") ≡ true = ap (λ r. r == "admin") h in absurd (cc (q, t))

level_iff :
    (admin privileged write : Bool)
    → (◌≡◌ {A = String}
        (if admin
          then "admin"
          else if privileged
          then "privileged"
          else if write
          then "write"
          else "read")
        "admin")
      ↔ (admin ≡ true)
level_iff true p w = (λ h. refl, λ h. refl)
level_iff false true w = (not_admin "privileged" refl, λ h. absurd (cc h))
level_iff false false true = (not_admin "write" refl, λ h. absurd (cc h))
level_iff false false false = (not_admin "read" refl, λ h. absurd (cc h))

module _ (u : Strings) (tag_crit : String → List String → Criticality) where
  -- The action stands for every action of IAM or of all services.
  abbrev pub is_admin_action : String → Bool
  is_admin_action act = act == "*" || (act == "*:*" || u.lower act == "iam:*")

  abbrev pub statement_is_admin : Statement → Bool
  statement_is_admin st = u.equal_fold st.effect "Allow" && any_of is_admin_action st.action

  abbrev pub document_is_admin : Option (List Statement) → Bool
  document_is_admin none = false
  document_is_admin (some statements) = any_of statement_is_admin statements

  take_actions_admin :
      (rs : List String) (s : Acted) (acts : List String)
      → (foldl (take_action u rs) s acts).progress.has_admin
        ≡ (s.progress.has_admin || any_of is_admin_action acts)
  unfolding take_action
  take_actions_admin rs s acts =
      foldl-flag (λ t. t.progress.has_admin) (take_action u rs) is_admin_action (λ t a. refl) s acts

  take_statement_admin :
      (p : Progress) (st : Statement)
      → (take_statement u tag_crit p st).has_admin ≡ (p.has_admin || statement_is_admin st)
  unfolding take_statement
  take_statement_admin p st = elim (Bool-cases (u.equal_fold st.effect "Allow")) [
    | inl ok ↦ rw ok (take_actions_admin st.resource _ st.action)
    | inr other ↦ rw other (ground arith)
  ]

  take_document_admin :
      (p : Progress) (doc : Option (List Statement))
      → (take_document u tag_crit p doc).has_admin ≡ (p.has_admin || document_is_admin doc)
  unfolding take_document
  take_document_admin p none = ground arith
  take_document_admin p (some doc) =
      foldl-flag (λ q. q.has_admin) (take_statement u tag_crit) statement_is_admin
        take_statement_admin p doc

  -- The level is admin exactly if some statement that allows, of a document that could be decoded,
  -- has an action that stands for every action of IAM or of all services.
  pub analyze_policies_admin :
      (docs : List (Option (List Statement)))
      → ((analyze_policies u tag_crit docs).privilege_level ≡ "admin")
        ↔ (any_of document_is_admin docs ≡ true)
  unfolding analyze_policies
  analyze_policies_admin docs =
      let p = foldl (take_document u tag_crit) no_progress docs in
      let q : p.has_admin ≡ any_of document_is_admin docs =
        foldl-flag (λ q. q.has_admin) (take_document u tag_crit) document_is_admin
          take_document_admin no_progress docs in
      let (to, from) = level_iff p.has_admin p.analysis.has_priv_escalation p.has_write in
      (λ h. sym q ∙ to h, λ h. from (q ∙ h))
