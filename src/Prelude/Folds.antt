-- ===== src/Prelude/Folds.antt =====
-- What a loop over a list keeps, and what a flag says that a loop only ever sets.
use mathlib.Core.Path.{◌≡◌, refl, sym, ap, ◌∙◌}
use mathlib.Core.Bool.{Bool, true, false, ◌||◌}
use mathlib.Core.List.{List, [], ◌∷◌, foldl, Memᴰ}
use mathlib.Core.List.Memᴰ
use mathlib.Core.Logic.{◌↔◌, inl, inr}
use native.Mathlib.Omega.{arith}
use identity_attack_graph.Prelude.Tests.{Eq, contains, ◌==◌, Bool-cases}

-- Some element passes a test.
abbrev pub any_of {ℓ} : {A : Type ℓ} → (A → Bool) → List A → Bool
any_of p [] = false
any_of p (x ∷ xs) = p x || any_of p xs

or_assoc : (a b c : Bool) → ((a || b) || c) ≡ (a || (b || c))
or_assoc true b c = refl
or_assoc false b c = refl

or_false : (a : Bool) → a ≡ (a || false)
or_false true = refl
or_false false = refl

module _ {ℓ κ} {S : Type ℓ} {A : Type κ} where
  pub foldl-keeps {μ} :
      (P : S → Type μ) (f : S → A → S) (s : S) (xs : List A)
      → P s
      → ((t : S) (x : A) → Memᴰ x xs → P t → P (f t x))
      → P (foldl f s xs)
  foldl-keeps P f s [] h step = h
  foldl-keeps P f s (x ∷ xs) h step =
      foldl-keeps P f (f s x) xs (step s x (Memᴰ.head refl) h) (λ t y m. step t y (Memᴰ.tail m))

  pub foldl-flag :
      (flag : S → Bool) (f : S → A → S) (test : A → Bool)
      → ((t : S) (x : A) → flag (f t x) ≡ (flag t || test x))
      → (s : S) (xs : List A) → flag (foldl f s xs) ≡ (flag s || any_of test xs)
  foldl-flag flag f test step s [] = or_false (flag s)
  foldl-flag flag f test step s (x ∷ xs) =
      foldl-flag flag f test step (f s x) xs
      ∙ ap (λ b. b || any_of test xs) (step s x)
      ∙ or_assoc (flag s) (test x) (any_of test xs)

-- What a test says of each element, it says of some.
pub any_of_iff {ℓ κ} :
    {A : Type ℓ} {P : A → Type κ} (p : A → Bool)
    → ((a : A) → (p a ≡ true) ↔ P a)
    → (xs : List A) → (any_of p xs ≡ true) ↔ ((a : A) × Memᴰ a xs × P a)
any_of_iff p h [] = (λ q. absurd (cc q), λ (a, m, _). absurd (Memᴰ.not-nil m))
any_of_iff {P} p h (x ∷ xs) = (
  λ q. elim (Bool-cases (p x)) [
    | inl passes ↦ (x, Memᴰ.head refl, (h x).0 passes)
    | inr fails ↦
        let (a, m, holds) = (any_of_iff p h xs).0 (ground arith) in (a, Memᴰ.tail m, holds)
  ],
  λ (a, m, holds). elim (Memᴰ.cases_cons m) [
    | inl same ↦ let passes : p x ≡ true = ap p (sym same) ∙ (h a).1 holds in ground arith
    | inr later ↦ let passes = (any_of_iff p h xs).1 (a, later, holds) in ground arith
  ],
)

pub contains_iff {ℓ} :
    {A : Type ℓ} ⦃e : Eq A⦄ (xs : List A) (a : A) → (contains xs a ≡ true) ↔ Memᴰ a xs
unfolding contains
contains_iff [] a = (λ q. absurd (cc q), λ m. absurd (Memᴰ.not-nil m))
contains_iff ⦃e⦄ (x ∷ xs) a = (
  λ q. elim (Bool-cases (x == a)) [
    | inl same ↦ Memᴰ.head (sym ((e.beq_iff x a).0 same))
    | inr other ↦ Memᴰ.tail ((contains_iff xs a).0 (ground arith))
  ],
  λ m. elim (Memᴰ.cases_cons m) [
    | inl same ↦ let same' : (x == a) ≡ true = (e.beq_iff x a).1 (sym same) in ground arith
    | inr later ↦ let found = (contains_iff xs a).1 later in ground arith
  ],
)
