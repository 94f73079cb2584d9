-- ===== src/Graph/BlastRadius/Counts.antt =====
-- The counters and the flag of the blast radius.
use text.Mathlib.TextEquality.{eq_iff}
use identity_attack_graph.Prelude.{
  ℕ, ◌+◌, String, ◌==◌, string_eq, ◌≡◌, refl, sym, ◌∙◌, ap, Bool, true, false, ◌&&◌, ◌||◌, List, [],
  ◌∷◌, foldl, arith, some, none, Option-cases, inl, inr, Bool-cases, length, keep, ltb,
}
use identity_attack_graph.Models.{Uuid, crit_high, crit_crown_jewel}
use identity_attack_graph.Graph.{Graph, Node, node, is_privileged, string_attribute}
use identity_attack_graph.Graph.BlastRadius.{BlastRadius, no_radius, roll, roll_up}
use identity_attack_graph.Graph.BlastRadius.AnyOrder.{apply, effect, effect_of, roll-apply}

-- Whether a node is in the graph and passes a test.
abbrev pub node_is : (Node → Bool) → Graph → Uuid × ℕ → Bool
node_is test g w = elim (node g w.0) [ some n ↦ test n | none ↦ false ]

abbrev pub is_resource : Node → Bool
is_resource n = n.kind == "resource"

abbrev pub is_crown_jewel : Node → Bool
is_crown_jewel n = is_resource n && n.criticality == crit_crown_jewel

abbrev pub is_high : Node → Bool
is_high n = is_resource n && n.criticality == crit_high

-- The attribute that a role carries its level in.
abbrev pub has_level : String → Node → Bool
has_level level n = string_attribute "privilege_level" n.attributes == level

abbrev pub is_admin_role : Node → Bool
is_admin_role n = n.kind == "role" && (has_level "admin" n || has_level "privileged" n)

abbrev one_if : Bool → ℕ
one_if true = 1
one_if false = 0

-- One node adds one to the counters of the tests that it passes, and sets the flag.
record Counted (b b' : BlastRadius) (resource crown_jewel high_crit admin_role : Bool)
    : Type 0 where
  resources : b'.reachable_resources ≡ b.reachable_resources + one_if resource
  crowns : b'.crown_jewel_count ≡ b.crown_jewel_count + one_if crown_jewel
  highs : b'.high_crit_count ≡ b.high_crit_count + one_if high_crit
  admins : b'.reaches_admin ≡ (b.reaches_admin || admin_role)

-- Two texts that differ are not both equal to a third.
apart : (s a b : String) → (a == b) ≡ false → (s == a) ≡ true → (s == b) ≡ false
apart s a b d h = ground (arith, eq_iff s a, eq_iff s b, eq_iff a b)

apply-Counted :
    (n : Node) (hops : ℕ) (b : BlastRadius)
    → Counted b
        (apply (effect_of n hops) b)
        (is_resource n)
        (is_crown_jewel n)
        (is_high n)
        (is_admin_role n)
unfolding apply effect_of is_privileged
apply-Counted n hops b = elim (Bool-cases (n.kind == "resource")) [
  | inl r ↦ elim (Bool-cases (n.criticality == crit_crown_jewel)) [
    | inl c ↦
        rw
          (
            r,
            c,
            apart n.kind "resource" "role" refl r,
            apart n.criticality crit_crown_jewel crit_high refl c,
          )
          (record { resources = refl; crowns = refl; highs = omega arith; admins = ground arith })
    | inr c ↦ elim (Bool-cases (n.criticality == crit_high)) [
      | inl h ↦
          rw (r, c, h, apart n.kind "resource" "role" refl r)
            (record { resources = refl; crowns = omega arith; highs = refl; admins = ground arith })
      | inr h ↦
          rw (r, c, h, apart n.kind "resource" "role" refl r)
            (record {
              resources = refl;
              crowns = omega arith;
              highs = omega arith;
              admins = ground arith;
            })
    ]
  ]
  | inr r ↦ rw r (elim (Bool-cases (is_admin_role n)) [
    | inl a ↦ rw a (record {
      resources = omega arith;
      crowns = omega arith;
      highs = omega arith;
      admins = ground arith;
    })
    | inr a ↦ rw a (record {
      resources = omega arith;
      crowns = omega arith;
      highs = omega arith;
      admins = ground arith;
    })
  ])
]

module _ (g : Graph) where
  roll-Counted :
      (b : BlastRadius) (w : Uuid × ℕ)
      → Counted b
          (roll g b w)
          (node_is is_resource g w)
          (node_is is_crown_jewel g w)
          (node_is is_high g w)
          (node_is is_admin_role g w)
  unfolding effect apply
  roll-Counted b (v, n) = rw (roll-apply g b (v, n)) (elim (Option-cases (node g v)) [
    | inl absent ↦
        rw (absent, effect, node_is)
          (record {
            resources = omega arith;
            crowns = omega arith;
            highs = omega arith;
            admins = ground arith;
          })
    | inr (i, present) ↦ rw (present, effect, node_is) (apply-Counted i n b)
  ])

  -- The entries of a list that pass a test.
  abbrev pub count : (Node → Bool) → List (Uuid × ℕ) → ℕ
  count test xs = length (keep (node_is test g) xs)

  record Tallied (b b' : BlastRadius) (xs : List (Uuid × ℕ)) : Type 0 where
    resources : b'.reachable_resources ≡ b.reachable_resources + count is_resource xs
    crowns : b'.crown_jewel_count ≡ b.crown_jewel_count + count is_crown_jewel xs
    highs : b'.high_crit_count ≡ b.high_crit_count + count is_high xs
    admins : b'.reaches_admin ≡ (b.reaches_admin || ltb 0 (count is_admin_role xs))

  count-cons :
      (test : Node → Bool) (w : Uuid × ℕ) (xs : List (Uuid × ℕ))
      → count test (w ∷ xs) ≡ one_if (node_is test g w) + count test xs
  count-cons test w xs = ground arith

  flag-cons : (old new : Bool) (n : ℕ) → ((old || new) || ltb 0 n) ≡ (old || ltb 0 (one_if new + n))
  flag-cons true new n = refl
  flag-cons false true n = ground arith
  flag-cons false false n = ground arith

  foldl-Tallied : (b : BlastRadius) (xs : List (Uuid × ℕ)) → Tallied b (foldl (roll g) b xs) xs
  foldl-Tallied b [] = record {
    resources = omega arith;
    crowns = omega arith;
    highs = omega arith;
    admins = ground arith;
  }
  foldl-Tallied b (w ∷ xs) =
      let first = roll-Counted b w in
      let rest = foldl-Tallied (roll g b w) xs in
      record {
        resources = omega (arith, rest.resources, first.resources, count-cons is_resource w xs);
        crowns = omega (arith, rest.crowns, first.crowns, count-cons is_crown_jewel w xs);
        highs = omega (arith, rest.highs, first.highs, count-cons is_high w xs);
        admins =
            rest.admins
            ∙ ap (λ f. f || ltb 0 (count is_admin_role xs)) first.admins
            ∙ flag-cons b.reaches_admin (node_is is_admin_role g w) (count is_admin_role xs)
            ∙ ap (λ n. b.reaches_admin || ltb 0 n) (sym (count-cons is_admin_role w xs));
      }

  -- The counters are the numbers of entries of the loop that are resources, crown jewels and
  -- resources of high criticality; the flag says whether one is an admin or privileged role.
  pub roll_up_counts :
      (xs : List (Uuid × ℕ))
      → ((roll_up g xs).reachable_resources ≡ count is_resource xs)
        × ((roll_up g xs).crown_jewel_count ≡ count is_crown_jewel xs)
        × ((roll_up g xs).high_crit_count ≡ count is_high xs)
        × ((roll_up g xs).reaches_admin ≡ ltb 0 (count is_admin_role xs))
  unfolding roll_up
  roll_up_counts xs =
      let t = foldl-Tallied no_radius xs in
      (omega (arith, t.resources), omega (arith, t.crowns), omega (arith, t.highs), t.admins)
