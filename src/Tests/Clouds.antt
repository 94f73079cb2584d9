-- ===== src/Tests/Clouds.antt =====
-- The theorems on the analysis of AWS policies at concrete inputs.
use identity_attack_graph.Prelude.{
  ℕ, ◌≤◌, String, ◌≡◌, ◌≢◌, ◌⊎◌, ◌↔◌, refl, true, List, [], ◌∷◌, ◌++◌, Memᴰ, Option, some, arith,
}
use identity_attack_graph.Prelude.Folds.{any_of}
use identity_attack_graph.Models.{Criticality, crit_low, crit_crown_jewel, criticality_rank}
use identity_attack_graph.Aws.Glob.{glob_match}
use identity_attack_graph.Aws.Glob.Matches.{Matches}
use identity_attack_graph.Aws.Glob.Exact.{NoStar, glob_match_exact}
use identity_attack_graph.Aws.Tags.{CritResolver, resource_reaches, criticality_for}
use identity_attack_graph.Aws.Tags.Prefix.{NoWildcard}
use identity_attack_graph.Aws.Tags.Greatest.{
  applies, criticality_for_greatest, resource_reaches_lem,
}
use identity_attack_graph.Aws.Policy.{Statement, Binding, analyze_policies}
use identity_attack_graph.Aws.Policy.Crown.{IsGranted, analyze_policies-IsGranted}
use identity_attack_graph.Aws.Policy.Level.{document_is_admin, analyze_policies_admin}
use identity_attack_graph.Tests.Texts.{plain}

-- "a*" and "a/b"
abbrev pattern_bytes : List ℕ
pattern_bytes = 97 ∷ 42 ∷ []

abbrev name_bytes : List ℕ
name_bytes = 97 ∷ 47 ∷ 98 ∷ []

name_NoStar : NoStar name_bytes
name_NoStar = (
  λ q. absurd (omega (arith, q)),
  (λ q. absurd (omega (arith, q)), (λ q. absurd (omega (arith, q)), tt)),
)

glob_match_exact_example :
    (glob_match pattern_bytes name_bytes ≡ true) ↔ Matches pattern_bytes name_bytes
glob_match_exact_example = glob_match_exact pattern_bytes name_bytes name_NoStar

resource_reaches_example : (resource_reaches pattern_bytes name_bytes ≡ true) ↔ (
    (pattern_bytes ≢ [])
    × (name_bytes ≢ [])
    × (Matches pattern_bytes name_bytes
        ⊎ ((rest : List ℕ) × (pattern_bytes ≡ (name_bytes ++ b'/' ∷ []) ++ rest)
            × NoWildcard (name_bytes ++ b'/' ∷ []))))
resource_reaches_example = resource_reaches_lem pattern_bytes name_bytes name_NoStar

abbrev tagged : CritResolver
tagged = ("arn:aws:s3:::vault", crit_crown_jewel) ∷ []

abbrev vault_name : String
vault_name = "arn:aws:s3:::vault"

abbrev vault_actions : List String
vault_actions = "s3:GetObject" ∷ []

abbrev arn_parts : String → List String
arn_parts s = "arn" ∷ "aws" ∷ "s3" ∷ "::vault" ∷ []

criticality_for_greatest_example :
    let c = criticality_for plain arn_parts tagged vault_name vault_actions in
    ((c ≡ crit_low)
      ⊎ ((arn : String) × Memᴰ (arn, c) tagged
          × (applies plain arn_parts vault_name vault_actions arn ≡ true)))
    × ((arn : String) (d : Criticality)
        → Memᴰ (arn, d) tagged
        → applies plain arn_parts vault_name vault_actions arn ≡ true
        → criticality_rank d ≤ criticality_rank c)
criticality_for_greatest_example =
    criticality_for_greatest plain arn_parts vault_name vault_actions tagged

abbrev reading : Statement
reading = record {
  sid = "Read";
  effect = "Allow";
  action = "s3:getobject" ∷ [];
  not_action = [];
  resource = "vault" ∷ [];
}

abbrev documents : List (Option (List Statement))
documents = some (reading ∷ []) ∷ []

abbrev jewels : String → List String → Criticality
jewels r actions = crit_crown_jewel

abbrev vault_binding : Binding
vault_binding = record {
  resource_urn = "vault";
  actions = "s3:getobject" ∷ [];
  effect = "allow";
  criticality = crit_crown_jewel;
}

vault_bound : (analyze_policies plain jewels documents).bindings ≡ vault_binding ∷ []
unfolding analyze_policies
vault_bound = refl

analyze_policies-IsGranted_example : IsGranted plain jewels documents vault_binding
analyze_policies-IsGranted_example =
    analyze_policies-IsGranted plain jewels documents vault_binding
      (rw vault_bound (Memᴰ.head refl))

analyze_policies_admin_example :
    ((analyze_policies plain jewels documents).privilege_level ≡ "admin")
    ↔ (any_of (document_is_admin plain jewels) documents ≡ true)
analyze_policies_admin_example = analyze_policies_admin plain jewels documents
