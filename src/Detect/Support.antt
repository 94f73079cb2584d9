-- ===== src/Detect/Support.antt =====
-- What the detectors use of `fmt`, `time` and float64, and the small helpers of
-- internal/detect/rules.go.
use identity_attack_graph.Prelude.{
  ℕ, ◌+◌, ◌-◌, ◌^◌, string_eq, String, Bool, true, false, ◌||◌, List, [], ◌∷◌, Option, some, none,
  leb, ltb, if◌then◌else◌,
}
unfoldable use identity_attack_graph.Prelude.{contains}
use identity_attack_graph.Prelude.Int.{ℤ, pos, negsuc}
use identity_attack_graph.Prelude.Texts.{◌<>◌, decimal}
use identity_attack_graph.Models.{Uuid, Time, FloatBits, Any}
use identity_attack_graph.Models.Inventory.{Identity}
use identity_attack_graph.Risk.{flag_attribute}

-- The operations of float64; `hours` is the method of a duration, and `hundredths` gives the
-- constants that are written with two decimals.
pub record Floats : Type 0 where
  pub of_int : ℤ → FloatBits
  pub truncated : FloatBits → ℤ
  pub hours : ℤ → FloatBits
  pub add : FloatBits → FloatBits → FloatBits
  pub sub : FloatBits → FloatBits → FloatBits
  pub mul : FloatBits → FloatBits → FloatBits
  pub div : FloatBits → FloatBits → FloatBits
  pub sqrt : FloatBits → FloatBits
  pub less : FloatBits → FloatBits → Bool
  pub at_most : FloatBits → FloatBits → Bool
  pub equal : FloatBits → FloatBits → Bool
  pub sin : FloatBits → FloatBits
  pub cos : FloatBits → FloatBits
  pub atan2 : FloatBits → FloatBits → FloatBits
  pub pi : FloatBits
  pub hundredths : ℤ → FloatBits

-- `%q`, `%.0f` and `%.1f`; the hash of fingerprints, the text of a UUID, `strings.ToLower`,
-- and the date of an instant.
pub record Format : Type 0 where
  pub quote : String → String
  pub fixed : ℕ → FloatBits → String
  pub hash32 : String → String
  pub uuid_text : Uuid → String
  pub lower : String → String
  pub date : Time → String

-- `now.Sub(t)`, which saturates
unfoldable pub since : Time → Time → ℤ
since now t =
    let ahead = t - now in
    let behind = now - t in
    if leb t now
    then pos (if ltb behind (2 ^ 63) then behind else 2 ^ 63 - 1)
    else negsuc ((if ltb ahead (2 ^ 63) then ahead else 2 ^ 63) - 1)

abbrev pub minus_one : ℤ
minus_one = negsuc 0

unfoldable pub days_ago : Floats → Option Time → Time → FloatBits
unfolding since
days_ago fl none now = fl.of_int minus_one
days_ago fl (some t) now = fl.div (fl.hours (since now t)) (fl.of_int (pos 24))

abbrev pub bool_text : Bool → String
bool_text true = "true"
bool_text false = "false"

unfoldable pub int_text : ℤ → String
unfolding decimal
int_text (pos n) = decimal n
int_text (negsuc n) = "-" <> decimal (n + 1)

unfoldable pub spaced : List String → String
spaced [] = ""
spaced (s ∷ []) = s
spaced (s ∷ t ∷ ss) = s <> " " <> spaced (t ∷ ss)

-- `%v` of a `[]string`
unfoldable pub list_text : List String → String
unfolding spaced
list_text ss = "[" <> spaced ss <> "]"

unfoldable pub break_glass : Identity → Bool
unfolding flag_attribute
break_glass i = flag_attribute "break_glass" i.attributes

unfoldable pub write_actions : List String
write_actions = "*" ∷ "*:*" ∷ "s3:*" ∷ "s3:PutObject" ∷ "s3:DeleteObject" ∷ "write" ∷ "iam:*" ∷ []

unfoldable pub has_write_action : List String → Bool
unfolding write_actions contains
has_write_action [] = false
has_write_action (a ∷ actions) = contains write_actions a || has_write_action actions

-- The number that an assertion to the types of numbers finds, or 0.
unfoldable pub to_float : Floats → Option Any → FloatBits
to_float fl (some (Any.real f)) = f
to_float fl (some (Any.int n)) = fl.of_int n
to_float fl _ = fl.of_int (pos 0)

abbrev pub present : {A : Type 0} → Option A → Bool
present (some a) = true
present none = false

abbrev pub some_in : {A : Type 0} → List A → Bool
some_in [] = false
some_in (a ∷ rest) = true
