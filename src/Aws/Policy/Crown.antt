-- ===== src/Aws/Policy/Crown.antt =====
-- Where the bindings of an analysis come from, and what may rank one above high.
use mathlib.Core.List.Memᴰ
use identity_attack_graph.Prelude.{
  ◌≤◌, ◌+◌, length, ◌==◌, string_eq, String, ◌≡◌, ◌⊎◌, inl, inr, refl, sym, subst, Bool, true,
  false, ◌&&◌, ◌||◌, List, [], ◌∷◌, foldl, Memᴰ, Option, some, none, arith, ltb, Bool-cases, All,
  All-append, All-mem, if◌then◌else◌,
}
unfoldable use identity_attack_graph.Prelude.{contains}
use identity_attack_graph.Prelude.Texts.{Strings}
use identity_attack_graph.Prelude.Folds.{foldl-keeps}
use identity_attack_graph.Models.{Criticality, crit_low, crit_high, crit_medium, criticality_rank}
use identity_attack_graph.Aws.Tags.{service_of}
use identity_attack_graph.Aws.Policy.{
  Statement, Binding, Progress, Acted, count_star, dedupe_lower, non_empty, action_criticality,
  take_action, bind_resource, data_services, is_write_action, take_statement, take_document,
  no_progress, analyze_policies,
}

inferred-le :
    (a b c : Bool)
    → criticality_rank
        (if a then crit_high else if b then crit_high else if c then crit_medium else crit_low)
      ≤ 2
unfolding criticality_rank
inferred-le true b c = omega arith
inferred-le false true c = omega arith
inferred-le false false true = omega arith
inferred-le false false false = omega arith

chosen-le :
    (b : Bool) (c d : Criticality)
    → criticality_rank c ≤ 2
    → criticality_rank d ≤ 2
    → criticality_rank (if b then c else d) ≤ 2
chosen-le true c d h k = h
chosen-le false c d h k = k

chosen-ranked :
    (b : Bool) (t c : Criticality)
    → criticality_rank c ≤ 2
    → (criticality_rank (if b then t else c) ≤ 2) ⊎ ((if b then t else c) ≡ t)
chosen-ranked true t c h = inr refl
chosen-ranked false t c h = inl h

-- The loop over a statement's actions starts with the counts of its actions and resources taken.
abbrev started : Progress → Statement → Acted
started p st =
    let a = p.analysis in
    record {
      progress = record p {
        analysis = record a {
          permission_count = a.permission_count + length st.action;
          wildcard_resource_count = a.wildcard_resource_count + count_star (non_empty st.resource);
        };
      };
      crit = crit_low;
    }

module _ (u : Strings) where
  action_criticality-le :
      (a : String) (rs : List String) → criticality_rank (action_criticality u a rs) ≤ 2
  unfolding action_criticality
  action_criticality-le a rs =
      inferred-le (a == "*" || (a == "*:*" || a == "iam:*"))
        (contains (non_empty rs) "*" && contains data_services (service_of u a))
        (contains data_services (service_of u a) && is_write_action a)

  -- Of the actions of a statement no more than high criticality is inferred, and they bind nothing.
  abbrev Acts : List Binding → Acted → Type 0
  Acts bs s = (criticality_rank s.crit ≤ 2) × (s.progress.analysis.bindings ≡ bs)

  take_actions-Acts :
      (rs : List String) (bs : List Binding) (s : Acted) (acts : List String)
      → Acts bs s
      → Acts bs (foldl (take_action u rs) s acts)
  unfolding take_action
  take_actions-Acts rs bs s acts h = foldl-keeps (Acts bs) (take_action u rs) s acts h (λ t a m k.
      let c = action_criticality u (u.lower a) rs in
      (
        chosen-le (ltb (criticality_rank t.crit) (criticality_rank c)) c t.crit
            (action_criticality-le (u.lower a) rs) k.0,
        k.1,
      ))

  module _ (tag_crit : String → List String → Criticality)
      (docs : List (Option (List Statement))) where
    -- The binding is of a statement that allows, names one of its resources, and ranks above high
    -- by a tag alone.
    pub record IsGranted (b : Binding) : Type 0 where
      pub statement : Statement
      pub document : List Statement
      pub decoded : Memᴰ (some document) docs
      pub stated : Memᴰ statement document
      pub allows : u.equal_fold statement.effect "Allow" ≡ true
      pub named : Memᴰ b.resource_urn statement.resource
      pub ranked :
          (criticality_rank b.criticality ≤ 2)
          ⊎ (b.criticality ≡ tag_crit b.resource_urn statement.action)

    abbrev AllGranted : Progress → Type 0
    AllGranted p = All IsGranted p.analysis.bindings

    non_empty-mem : (r : String) (rs : List String) → Memᴰ r (non_empty rs) → Memᴰ r rs
    unfolding non_empty
    non_empty-mem r [] m = m
    non_empty-mem r (s ∷ rs) m = elim (Bool-cases (s == "")) [
      | inl skipped ↦ Memᴰ.tail (non_empty-mem r rs (rw skipped at m))
      | inr kept ↦ elim (Memᴰ.cases_cons (rw kept at m)) [
        | inl q ↦ Memᴰ.head q
        | inr later ↦ Memᴰ.tail (non_empty-mem r rs later)
      ]
    ]

    -- The bindings of a statement that allows.
    module _ (doc : List Statement) (st : Statement) (d : Memᴰ (some doc) docs) (m : Memᴰ st doc)
        (ok : u.equal_fold st.effect "Allow" ≡ true) (crit : Criticality)
        (low : criticality_rank crit ≤ 2) where
      bind_resource-AllGranted :
          (bs : List Binding) (r : String)
          → Memᴰ r (non_empty st.resource)
          → All IsGranted bs
          → All IsGranted (bind_resource u tag_crit st.action crit bs r)
      unfolding bind_resource
      bind_resource-AllGranted bs r k h =
          let t = tag_crit r st.action in
          let b : Binding = record {
            resource_urn = r;
            actions = dedupe_lower st.action;
            effect = "allow";
            criticality = if ltb (criticality_rank crit) (criticality_rank t) then t else crit;
          } in
          All-append IsGranted bs (b ∷ []) h (
            record {
              statement = st;
              document = doc;
              decoded = d;
              stated = m;
              allows = ok;
              named = non_empty-mem r st.resource k;
              ranked = chosen-ranked (ltb (criticality_rank crit) (criticality_rank t)) t crit low;
            },
            tt,
          )

    take_statement-AllGranted :
        (doc : List Statement) (st : Statement) (p : Progress)
        → Memᴰ (some doc) docs
        → Memᴰ st doc
        → AllGranted p
        → AllGranted (take_statement u tag_crit p st)
    unfolding take_statement
    take_statement-AllGranted doc st p d m h = elim (Bool-cases (u.equal_fold st.effect "Allow")) [
      | inr other ↦ rw other h
      | inl ok ↦
          let s = foldl (take_action u st.resource) (started p st) st.action in
          let (low, same) =
            take_actions-Acts st.resource p.analysis.bindings (started p st) st.action
              (omega arith, refl) in
          rw ok (
            foldl-keeps (All IsGranted) (bind_resource u tag_crit st.action s.crit) _
              (non_empty st.resource) (subst (All IsGranted) (sym same) h)
              (λ bs r k g. bind_resource-AllGranted doc st d m ok s.crit low bs r k g))
    ]

    take_document-AllGranted :
        (p : Progress) (doc : Option (List Statement))
        → Memᴰ doc docs
        → AllGranted p
        → AllGranted (take_document u tag_crit p doc)
    unfolding take_document
    take_document-AllGranted p none m h = h
    take_document-AllGranted p (some doc) m h =
        foldl-keeps AllGranted (take_statement u tag_crit) p doc h
          (λ q st k. take_statement-AllGranted doc st q m k)

    -- Every binding is of a statement of a document that could be decoded; the statement allows and
    -- names the binding's resource, and a binding above high criticality has it from the tags.
    pub analyze_policies-IsGranted :
        (b : Binding) → Memᴰ b (analyze_policies u tag_crit docs).bindings → IsGranted b
    unfolding analyze_policies
    analyze_policies-IsGranted b m =
        All-mem IsGranted _
          (foldl-keeps AllGranted (take_document u tag_crit) no_progress docs tt
            (λ p doc k. take_document-AllGranted p doc k))
          m
