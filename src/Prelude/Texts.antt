-- ===== src/Prelude/Texts.antt =====
-- Texts that the program builds and takes apart: `+` on strings, `%d` of a number that is not
-- negative, and the functions of the package `strings`. Positions count bytes.
use Prim.Native.Nat.{ℕ, zero, suc, ◌+◌, ◌-◌, ◌/◌, ◌%◌}
use Prim.Native.String.{String, len, slice}
use Prim.Native.String
use Prim.Native.Char.{code}
use text.Mathlib.Text.{starts_with, find?, ◌==◌ as string_beq}
use mathlib.Core.Path.{◌≡◌, refl}
use mathlib.Core.List.{List, [], ◌∷◌}
use mathlib.Core.Bool.{Bool, true, false, ◌&&◌, ◌||◌}
use mathlib.Core.Option.{Option, some, none}
use identity_attack_graph.Prelude.Tests.{ltb, leb, if◌then◌else◌}
use identity_attack_graph.Prelude.Lists.{get_elem?}

infixr 65 ◌<>◌
abbrev pub ◌<>◌ : String → String → String
a <> b = String.◌++◌ a b

digit : ℕ → String
digit n =
    elim (get_elem? {A = String} ("0" ∷ "1" ∷ "2" ∷ "3" ∷ "4" ∷ "5" ∷ "6" ∷ "7" ∷ "8" ∷ "9" ∷ [])
      n) [ some d ↦ d | none ↦ "" ]

-- A number below 2 ^ fuel has at most `fuel` digits.
decimal_digits : ℕ → ℕ → String
decimal_digits zero n = ""
decimal_digits (suc fuel) n =
    let rest = decimal_digits fuel (n / 10) in if ltb n 10 then digit n else rest <> digit (n % 10)

unfoldable pub decimal : ℕ → String
unfolding decimal_digits digit
decimal n = decimal_digits (suc n) n

decimal_runs : decimal 1205 ≡ "1205"
unfolding decimal
decimal_runs = refl

-- `strings.HasPrefix`, `strings.HasSuffix` and `strings.Contains`
abbrev pub has_prefix : String → String → Bool
has_prefix = starts_with

abbrev pub has_suffix : String → String → Bool
has_suffix s t = leb (len t) (len s) && string_beq (slice s (len s - len t) (len s)) t

abbrev pub has_text : String → String → Bool
has_text s t = elim (find? s t) [ some i ↦ true | none ↦ false ]

-- Some of the texts is part of `s`.
unfoldable pub has_any : String → List String → Bool
has_any s [] = false
has_any s (t ∷ ts) = has_text s t || has_any s ts

-- `s[:i]` and `s[i+n:]` at the first place i > 0 of a text of n bytes
unfoldable pub cut : String → String → Option (String × String)
cut s t = elim (find? s t) [
  | none ↦ none
  | some i ↦ if ltb 0 i then some (slice s 0 i, slice s (i + len t) (len s)) else none
]

-- The bytes of a text of ASCII characters.
unfoldable pub bytes : String → List ℕ
bytes String.[] = []
bytes (String.◌∷◌ c s) = code c ∷ bytes s

-- The functions of `strings` that go by the tables of Unicode.
pub record Strings : Type 0 where
  pub lower : String → String
  pub upper : String → String
  pub trim : String → String
  pub equal_fold : String → String → Bool

cut_runs : cut "s3:GetObject" ":" ≡ some ("s3", "GetObject")
unfolding cut
cut_runs = refl
