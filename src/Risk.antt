-- ===== src/Risk.antt =====
-- internal/risk/weights.go and score.go: the configuration, the input and the shared helpers of the
-- risk engine.
pub mod Factors
pub mod Score
use identity_attack_graph.Prelude.{
  ℕ, ◌-◌, ◌*◌, String, ◌==◌, string_eq, Bool, true, false, not, ◌&&◌, ◌||◌, List, [], ◌∷◌, ◌++◌,
  Option, some, none, ltb, length, if◌then◌else◌,
}
unfoldable use identity_attack_graph.Prelude.{contains}
use identity_attack_graph.Prelude.Map.{Map, find, find_or}
use identity_attack_graph.Prelude.Int.{ℤ, pos, ltb_ℤ}
use identity_attack_graph.Prelude.Int64.{◌+₆₄◌}
use identity_attack_graph.Models.{Time, Any, Attributes}
use identity_attack_graph.Models.Inventory.{
  Identity, Credential, Role, ResourceBinding, TrustEdge, Exposure,
}
use identity_attack_graph.Graph.BlastRadius.{BlastRadius}

-- `day` in nanoseconds
abbrev day : ℕ
day = 24 * 3600 * 1000000000

abbrev pub stale_window : ℕ
stale_window = 90 * day

abbrev pub never_used_age : ℕ
never_used_age = 30 * day

abbrev pub rotation_max_age : ℕ
rotation_max_age = 180 * day

abbrev pub cred_max_age : ℕ
cred_max_age = 365 * day

-- `now.Sub(t) > age` for an age of the constants above: `Sub` stops at the ends of int64, which
-- are beyond each of them.
unfoldable pub older_than : ℕ → Time → Time → Bool
older_than age now t = ltb age (now - t)

-- `Float` is the type of the weights.
pub record Weights (Float : Type 0) : Type 0 where
  pub weights : Map String Float
  pub severity_bands : Map String ℤ
  pub signals : Map String (Map String ℤ)
  pub urgency : Map String ℤ

-- A missing key reads as 0.
unfoldable pub sig : {F : Type 0} → Weights F → String → String → ℤ
unfolding find find_or
sig w factor name = elim (find factor w.signals) [ some m ↦ find_or (pos 0) name m | none ↦ pos 0 ]

pub record AnomalySignals : Type 0 where
  pub impossible_travel : Bool
  pub new_region : Bool
  pub new_asn_or_runtime : Bool
  pub usage_spike : Bool
  pub first_use_sensitive : Bool
  pub off_hours_burst : Bool

pub record Input : Type 0 where
  pub identity : Identity
  pub creds : List Credential
  pub roles : List Role
  pub bindings : List ResourceBinding
  pub trust : List TrustEdge
  pub exposures : List Exposure
  pub anomalies : AnomalySignals
  pub blast : BlastRadius
  pub peer_permission_p90 : ℤ
  pub peer_reachable_p90 : ℤ
  pub trust_chain_depth : ℤ
  pub now : Time

pub record Factor : Type 0 where
  pub score : ℤ
  pub signals : List String

-- `Factor{}`
abbrev pub no_factor : Factor
no_factor = record { score = pos 0; signals = [] }

-- The closure `add` of the factors.
unfoldable pub add_signal : Factor → ℤ → String → Factor
unfolding ◌+₆₄◌
add_signal f pts name = record {
  score = f.score +₆₄ pts;
  signals = if ltb_ℤ (pos 0) pts then f.signals ++ name ∷ [] else f.signals;
}

-- `if on { add(pts, name) }`
unfoldable pub add_if : Bool → ℤ → String → Factor → Factor
unfolding add_signal
add_if on pts name f = if on then add_signal f pts name else f

unfoldable pub clamp : ℤ → ℤ
clamp v = if ltb_ℤ v (pos 0) then pos 0 else if ltb_ℤ (pos 100) v then pos 100 else v

-- `f.Score = clamp(f.Score)`
unfoldable pub clamp_score : Factor → Factor
unfolding clamp
clamp_score f = record f { score = clamp f.score }

unfoldable pub cap_pts : ℤ → ℤ → ℤ
cap_pts v cap = if ltb_ℤ (pos 0) cap && ltb_ℤ cap v then cap else v

unfoldable pub has_write : List String → Bool
unfolding contains
has_write [] = false
has_write (a ∷ actions) =
    let rest = has_write actions in
    if contains ("*" ∷ "s3:*" ∷ "s3:PutObject" ∷ "s3:DeleteObject" ∷ "write" ∷ "*:*" ∷ []) a
    then true
    else rest

unfoldable pub total_perms : List Role → ℤ
unfolding ◌+₆₄◌
total_perms roles = go (pos 0) roles
  where
    go : ℤ → List Role → ℤ
    go t [] = t
    go t (r ∷ rs) = go (t +₆₄ r.permission_count) rs

-- `x, _ := attrs[key].(bool)`
unfoldable pub flag_attribute : String → Attributes → Bool
unfolding find
flag_attribute key attrs = elim (find key attrs) [
  | some v ↦ elim v [ Any.bool b ↦ b | _ ↦ false ]
  | none ↦ false
]

unfoldable pub trust_has_guard : Attributes → Bool
unfolding find
trust_has_guard condition = elim (find "guards" condition) [
  | none ↦ false
  | some v ↦ elim v [ Any.strings ss ↦ ltb 0 (length ss) | Any.anys n ↦ ltb 0 n | _ ↦ false ]
]

-- The loop of `strongTrustCondition`, from a value of its variable `assumable`.
unfoldable pub strong_from : Bool → List TrustEdge → Bool
unfolding trust_has_guard
strong_from assumable [] = assumable
strong_from assumable (t ∷ ts) =
    let skipped = strong_from assumable ts in
    let next = strong_from true ts in
    if not (t.edge_type == "can_assume")
    then skipped
    else if not (trust_has_guard t.condition)
    then false
    else next

unfoldable pub strong_trust_condition : List TrustEdge → Bool
unfolding strong_from
strong_trust_condition = strong_from false

-- Whether a loop that sets a flag, or leaves at the first hit, meets an element that passes a test.
unfoldable pub some_of {ℓ} : {A : Type ℓ} → (A → Bool) → List A → Bool
some_of p [] = false
some_of p (x ∷ xs) = p x || some_of p xs
