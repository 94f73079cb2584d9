-- ===== src/Aws/Tags.antt =====
-- internal/collectors/aws/tags.go: the criticality that tags declare, and which of them a policy
-- reaches. The names of resources are ASCII texts.
pub mod Prefix
pub mod Greatest
use identity_attack_graph.Prelude.{
  ℕ, ◌==◌, nat_eq, string_eq, String, Bool, true, false, not, ◌&&◌, ◌||◌, List, [], ◌∷◌, ◌++◌,
  Option, some, none, leb, ltb, if◌then◌else◌,
}
unfoldable use identity_attack_graph.Prelude.{contains}
use identity_attack_graph.Prelude.Map.{Map, find, insert}
use identity_attack_graph.Prelude.Texts.{Strings, cut, bytes}
use identity_attack_graph.Models.{
  Criticality, crit_low, crit_medium, crit_high, crit_crown_jewel, criticality_rank,
}
use identity_attack_graph.Aws.Glob.{star, any_one, glob_match}

-- `tagged` of a `critResolver`; that of a nil resolver is empty.
abbrev pub CritResolver : Type 0
CritResolver = Map String Criticality

-- `set`
unfoldable pub set_tag : String → Criticality → CritResolver → CritResolver
unfolding find insert criticality_rank
set_tag arn c r = if arn == "" then r else elim (find arn r) [
  | none ↦ insert arn c r
  | some cur ↦ if ltb (criticality_rank cur) (criticality_rank c) then insert arn c r else r
]

-- The part in front of the first `*` or `?`.
unfoldable pub literal_prefix : List ℕ → List ℕ
literal_prefix [] = []
literal_prefix (c ∷ cs) = if c == star || c == any_one then [] else c ∷ literal_prefix cs

-- `strings.HasPrefix` on bytes
unfoldable pub begins : List ℕ → List ℕ → Bool
begins s [] = true
begins [] (c ∷ t) = false
begins (d ∷ s) (c ∷ t) = d == c && begins s t

abbrev pub is_nil : List ℕ → Bool
is_nil [] = true
is_nil (c ∷ cs) = false

unfoldable pub resource_reaches : List ℕ → List ℕ → Bool
unfolding glob_match literal_prefix begins
resource_reaches policy_resource tagged_arn =
    if is_nil policy_resource || is_nil tagged_arn
    then false
    else if glob_match policy_resource tagged_arn
    then true
    else (let lit = literal_prefix policy_resource in
        not (is_nil lit) && begins lit (tagged_arn ++ b'/' ∷ []))

module _ (u : Strings) where
  unfoldable pub criticality_from_tag : String → Option Criticality
  unfolding contains
  criticality_from_tag v =
      let t = u.lower (u.trim v) in
      if contains ("crown_jewel" ∷ "crown-jewel" ∷ "crownjewel" ∷ "crown" ∷ "critical" ∷ []) t
      then some crit_crown_jewel
      else if t == "high"
      then some crit_high
      else if contains ("medium" ∷ "med" ∷ []) t
      then some crit_medium
      else if t == "low"
      then some crit_low
      else none

  unfoldable pub service_of : String → String
  unfolding cut
  service_of action = elim (cut action ":") [ some (svc, rest) ↦ u.lower svc | none ↦ "" ]

  -- The loop of `actionsCoverService`.
  unfoldable pub some_action_covers : List String → String → Bool
  unfolding service_of
  some_action_covers [] svc = false
  some_action_covers (a ∷ actions) svc =
      let la = u.lower a in
      (la == "*" || (la == "*:*" || service_of la == svc)) || some_action_covers actions svc

  unfoldable pub actions_cover_service : List String → String → Bool
  unfolding some_action_covers
  actions_cover_service actions svc = (svc == "" || svc == "*") || some_action_covers actions svc

  -- `split` is `strings.SplitN` with `":"` and 4.
  module _ (split : String → List String) where
    unfoldable pub service_of_arn : String → String
    service_of_arn arn =
        if arn == "*" then "*" else elim (split arn) [ a ∷ b ∷ svc ∷ rest ↦ u.lower svc | _ ↦ "" ]

    -- The body of the loop over the tagged resources.
    unfoldable pub raise_to :
        String → List String → Criticality → String × Criticality → Criticality
    unfolding criticality_rank actions_cover_service service_of_arn resource_reaches bytes
    raise_to resource actions best (arn, crit) =
        if leb (criticality_rank crit) (criticality_rank best)
        then best
        else if not (actions_cover_service actions (service_of_arn arn))
        then best
        else if resource_reaches (bytes resource) (bytes arn)
        then crit
        else best

    unfoldable pub raise_all : String → List String → Criticality → CritResolver → Criticality
    unfolding raise_to
    raise_all resource actions best [] = best
    raise_all resource actions best (t ∷ r) =
        raise_all resource actions (raise_to resource actions best t) r

    unfoldable pub criticality_for : CritResolver → String → List String → Criticality
    unfolding raise_all
    criticality_for r resource actions = raise_all resource actions crit_low r
