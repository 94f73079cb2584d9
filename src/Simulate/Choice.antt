-- ===== src/Simulate/Choice.antt =====
-- What `MostIllustrative` chooses.
use mathlib.Core.List.Memᴰ
use identity_attack_graph.Prelude.{
  ◌≤◌, ◌<◌, ◌≡◌, ◌⊎◌, ◌==◌, string_eq, refl, sym, ap, ◌∙◌, subst, true, false, ◌&&◌, List, [], ◌∷◌,
  ◌++◌, Memᴰ, some, none, inl, inr, arith, Bool-cases, Option-cases,
}
use identity_attack_graph.Prelude.Pick.{pick, improve}
use identity_attack_graph.Models.{Uuid, crit_crown_jewel}
use identity_attack_graph.Graph.{Graph, Node, node}
use identity_attack_graph.Graph.AttackPaths.{AttackPath, last_node}
use identity_attack_graph.Simulate.{best_path, ends_at_crown, longer, most_illustrative}

-- The last of its nodes is a crown-jewel resource of the graph.
pub record EndsAtCrown (g : Graph) (p : AttackPath) : Type 0 where
  pub passed : List Uuid
  pub end_id : Uuid
  pub end_node : Node
  pub nodes_eq : p.nodes ≡ passed ++ end_id ∷ []
  pub known : node g end_id ≡ some end_node
  pub resource : end_node.kind ≡ "resource"
  pub crown : end_node.criticality ≡ "crown_jewel"

-- The first of the longest paths that end at a crown-jewel resource.
pub record IsTold (g : Graph) (ps : List AttackPath) (b : AttackPath) : Type 0 where
  pub earlier : List AttackPath
  pub later : List AttackPath
  pub paths_eq : ps ≡ earlier ++ b ∷ later
  pub ends : EndsAtCrown g b
  pub longer_than : (p : AttackPath) → Memᴰ p earlier → EndsAtCrown g p → p.hops < b.hops
  pub longest : (p : AttackPath) → Memᴰ p later → EndsAtCrown g p → p.hops ≤ b.hops

last_split :
    (first : Uuid) (rest : List Uuid)
    → (passed : List Uuid) × (first ∷ rest ≡ passed ++ last_node first rest ∷ [])
unfolding last_node
last_split first [] = ([], refl)
last_split first (next ∷ rest) =
    let (passed, q) = last_split next rest in (first ∷ passed, ap (λ l. first ∷ l) q)

last_node-append :
    (first : Uuid) (rest passed : List Uuid) (id : Uuid)
    → first ∷ rest ≡ passed ++ id ∷ []
    → last_node first rest ≡ id
unfolding last_node
last_node-append first [] [] id q = cc q
last_node-append first [] (a ∷ []) id q = absurd (cc q)
last_node-append first [] (a ∷ b ∷ passed) id q = absurd (cc q)
last_node-append first (next ∷ rest) [] id q = absurd (cc q)
last_node-append first (next ∷ rest) (a ∷ passed) id q = last_node-append next rest passed id (cc q)

not-snoc : (passed : List Uuid) (id : Uuid) → ([] ≡ passed ++ id ∷ []) → ⊥
not-snoc [] id q = cc q
not-snoc (a ∷ passed) id q = cc q

crown-ends : (g : Graph) (p : AttackPath) → ends_at_crown g p ≡ true → EndsAtCrown g p
unfolding ends_at_crown
crown-ends g p h = by_nodes p.nodes refl
  where
    by_nodes : (ids : List Uuid) → p.nodes ≡ ids → EndsAtCrown g p
    by_nodes [] e = absurd (ground arith)
    by_nodes (first ∷ rest) e =
        let (passed, split) = last_split first rest in
        elim (Option-cases (node g (last_node first rest))) [
          | inl unknown ↦ absurd (ground arith)
          | inr (n, known) ↦
              let kind : (n.kind == "resource") ≡ true = ground arith in
              let crown : (n.criticality == crit_crown_jewel) ≡ true = ground arith in
              record {
                passed = passed;
                end_id = last_node first rest;
                end_node = n;
                nodes_eq = e ∙ split;
                known = known;
                resource = (string_eq.beq_iff n.kind "resource").0 kind;
                crown = (string_eq.beq_iff n.criticality "crown_jewel").0 crown;
              }
        ]

ends-crown : (g : Graph) (p : AttackPath) → EndsAtCrown g p → ends_at_crown g p ≡ true
unfolding ends_at_crown
ends-crown g p t = by_nodes p.nodes refl
  where
    by_nodes : (ids : List Uuid) → p.nodes ≡ ids → ends_at_crown g p ≡ true
    by_nodes [] e = absurd (not-snoc t.passed t.end_id (sym e ∙ t.nodes_eq))
    by_nodes (first ∷ rest) e =
        let last = last_node-append first rest t.passed t.end_id (sym e ∙ t.nodes_eq) in
        rw (e, ends_at_crown, last, t.known, t.resource, t.crown) refl

-- What the loop makes of the rest of the paths when `b` is its choice.
record Beaten (g : Graph) (b : AttackPath) (ps : List AttackPath) : Type 0 where
  told : AttackPath
  reached : pick (ends_at_crown g) longer (some b) ps ≡ some told
  chosen : IsTold g ps told
  beats : b.hops < told.hops

abbrev Unbeaten : Graph → AttackPath → List AttackPath → Type 0
Unbeaten g b ps =
    (pick (ends_at_crown g) longer (some b) ps ≡ some b)
    × ((p : AttackPath) → Memᴰ p ps → EndsAtCrown g p → p.hops ≤ b.hops)

-- A choice before which none is as long stays the first of the longest with one path more.
IsTold-later :
    (g : Graph) (p b : AttackPath) (ps : List AttackPath)
    → (EndsAtCrown g p → p.hops < b.hops)
    → IsTold g ps b
    → IsTold g (p ∷ ps) b
IsTold-later g p b ps h t = record {
  earlier = p ∷ t.earlier;
  later = t.later;
  paths_eq = ap (λ l. p ∷ l) t.paths_eq;
  ends = t.ends;
  longer_than = λ q m e. elim (Memᴰ.cases_cons m) [
    | inl same ↦ subst (λ w. w.hops < b.hops) (sym same) (h (subst (λ w. EndsAtCrown g w) same e))
    | inr m' ↦ t.longer_than q m' e
  ];
  longest = t.longest;
}

-- From a choice that stands at the head of the paths.
IsTold-from :
    (g : Graph) (p : AttackPath) (ps : List AttackPath)
    → EndsAtCrown g p
    → Unbeaten g p ps ⊎ Beaten g p ps
    → (b : AttackPath) × (pick (ends_at_crown g) longer (some p) ps ≡ some b)
      × (p.hops ≤ b.hops)
      × IsTold g (p ∷ ps) b
IsTold-from g p ps e (inl (q, most)) = (
  p,
  q,
  omega arith,
  record {
    earlier = [];
    later = ps;
    paths_eq = refl;
    ends = e;
    longer_than = λ r m. absurd (Memᴰ.not-nil m);
    longest = most;
  },
)
IsTold-from g p ps e (inr t) = (
  t.told,
  t.reached,
  (let lt = t.beats in omega (arith, lt)),
  IsTold-later g p t.told ps (λ _. t.beats) t.chosen,
)

settle : (g : Graph) (b : AttackPath) (ps : List AttackPath) → Unbeaten g b ps ⊎ Beaten g b ps
unfolding pick improve
settle g b [] = inl (refl, λ p m. absurd (Memᴰ.not-nil m))
settle g b (p ∷ ps) = elim (Bool-cases (ends_at_crown g p && longer p b)) [
  | inl takes ↦
      let fits : ends_at_crown g p ≡ true = ground arith in
      let over : longer p b ≡ true = ground arith in
      let more : b.hops < p.hops = ground arith in
      inr (taken takes more (IsTold-from g p ps (crown-ends g p fits) (settle g p ps)))
  | inr stays ↦ elim (settle g b ps) [
    | inl (q, most) ↦ inl (
      rw (stays, pick) q,
      λ r m e. elim (Memᴰ.cases_cons m) [
        | inl same ↦
            subst (λ w. w.hops ≤ b.hops) (sym same)
              (under stays (subst (λ w. EndsAtCrown g w) same e))
        | inr m' ↦ most r m' e
      ],
    )
    | inr t ↦ inr record {
      told = t.told;
      reached = rw (stays, pick) t.reached;
      chosen =
          IsTold-later g p t.told ps
            (λ e. let le = under stays e in let lt = t.beats in omega (arith, le, lt)) t.chosen;
      beats = t.beats;
    }
  ]
]
  where
    under : (ends_at_crown g p && longer p b) ≡ false → EndsAtCrown g p → p.hops ≤ b.hops
    under h e = let fits = ends-crown g p e in ground arith

    taken :
        (ends_at_crown g p && longer p b) ≡ true
        → b.hops < p.hops
        → (c : AttackPath) × (pick (ends_at_crown g) longer (some p) ps ≡ some c)
          × (p.hops ≤ c.hops)
          × IsTold g (p ∷ ps) c
        → Beaten g b (p ∷ ps)
    taken takes more (c, q, le, t) = record {
      told = c;
      reached = rw (takes, pick) q;
      chosen = t;
      beats = omega arith;
    }

abbrev TellsNone : Graph → List AttackPath → Type 0
TellsNone g ps =
    (pick (ends_at_crown g) longer none ps ≡ none)
    × ((p : AttackPath) → Memᴰ p ps → ¬ EndsAtCrown g p)

picked :
    (g : Graph) (ps : List AttackPath)
    → ((b : AttackPath) × (pick (ends_at_crown g) longer none ps ≡ some b) × IsTold g ps b)
      ⊎ TellsNone g ps
unfolding pick improve
picked g [] = inr (refl, λ p m. absurd (Memᴰ.not-nil m))
picked g (p ∷ ps) = elim (Bool-cases (ends_at_crown g p)) [
  | inl fits ↦
      let (b, q, _, t) = IsTold-from g p ps (crown-ends g p fits) (settle g p ps) in
      inl (b, rw (fits, pick) q, t)
  | inr unfit ↦
      let other : ¬ EndsAtCrown g p = λ e. cc (ends-crown g p e, unfit) in
      elim (picked g ps) [
        | inl (b, q, t) ↦
            inl (b, rw (unfit, pick) q, IsTold-later g p b ps (λ e. absurd (other e)) t)
        | inr (q, none_ends) ↦ inr (
          rw (unfit, pick) q,
          λ r m e. elim (Memᴰ.cases_cons m) [
            | inl same ↦ other (subst (λ w. EndsAtCrown g w) same e)
            | inr m' ↦ none_ends r m' e
          ],
        )
      ]
]

-- Where some path ends at a crown-jewel resource, the first of the longest such paths is chosen;
-- where none does, the first path; and none where there are no paths.
pub most_illustrative_lem :
    (g : Graph) (ps : List AttackPath)
    → ((b : AttackPath) × (most_illustrative g ps ≡ some b) × IsTold g ps b)
      ⊎ ((p : AttackPath) → Memᴰ p ps → ¬ EndsAtCrown g p)
        × (((ps ≡ []) × (most_illustrative g ps ≡ none))
            ⊎ ((p : AttackPath) × (rest : List AttackPath) × (ps ≡ p ∷ rest)
                × (most_illustrative g ps ≡ some p)))
unfolding most_illustrative best_path
most_illustrative_lem g [] = inr (λ p m. absurd (Memᴰ.not-nil m), inl (refl, refl))
most_illustrative_lem g (p ∷ ps) = elim (picked g (p ∷ ps)) [
  | inl (b, q, t) ↦ inl (b, rw (q, most_illustrative), t)
  | inr (q, none_ends) ↦ inr (none_ends, inr (p, ps, refl, rw (q, most_illustrative)))
]
