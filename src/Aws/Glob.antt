-- ===== src/Aws/Glob.antt =====
-- internal/collectors/aws/tags.go: `globMatch`. A text is the list of its bytes; an index into a
-- text is what is left from there.
pub mod Matches
pub mod Exact
use identity_attack_graph.Prelude.{
  ℕ, zero, suc, ◌+◌, ◌*◌, ◌==◌, nat_eq, Bool, true, false, ◌||◌, ◌&&◌, List, [], ◌∷◌, Option, some,
  none, length, if◌then◌else◌,
}

abbrev pub star : ℕ
star = b'*'

abbrev pub any_one : ℕ
any_one = b'?'

-- Which case of the `switch` is taken at the head of the pattern, and what is left of it; the
-- third is taken where none of the first two is.
pub data Choice : Type 0 where
  advance : List ℕ → Choice
  begin_star : List ℕ → Choice
  resume : Choice

unfoldable pub choose : List ℕ → ℕ → Choice
choose [] c = resume
choose (p ∷ ps) c =
    if p == c || p == any_one then advance ps else if p == star then begin_star ps else resume

-- The last loop, and the test after it.
unfoldable pub only_stars : List ℕ → Bool
only_stars [] = true
only_stars (p ∷ ps) = p == star && only_stars ps

-- The loop. `back` holds what follows the last star of the pattern, and the text from `mark`.
unfoldable pub glob_from : ℕ → List ℕ → List ℕ → Option (List ℕ × List ℕ) → Bool
unfolding choose only_stars
glob_from zero px [] back = only_stars px
glob_from zero px (c ∷ s) back = false
glob_from (suc n) px [] back = only_stars px
glob_from (suc n) px (c ∷ s) back = elim (choose px c) [
  | advance ps ↦ glob_from n ps s back
  | begin_star ps ↦ glob_from n ps (c ∷ s) (some (ps, c ∷ s))
  | resume ↦ elim back [
    | none ↦ false
    | some (ps, mark) ↦ elim mark [ [] ↦ false | m ∷ ms ↦ glob_from n ps ms (some (ps, ms)) ]
  ]
]

-- Each return to the last star moves `mark`, and between two returns each round moves an index.
unfoldable pub enough_steps : List ℕ → List ℕ → ℕ
enough_steps pattern s = (length s + 2) * (length pattern + length s + 1)

unfoldable pub glob_match : List ℕ → List ℕ → Bool
unfolding glob_from enough_steps
glob_match pattern s = glob_from (enough_steps pattern s) pattern s none
