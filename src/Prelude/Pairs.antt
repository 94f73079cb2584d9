-- ===== src/Prelude/Pairs.antt =====
-- A relation between every element of a list and every later one.
use Prim.Native.Nat.{ℕ, zero, suc}
use mathlib.Core.Logic.{inl, inr}
use mathlib.Core.Bool.{Bool}
use mathlib.Core.List.{List, [], ◌∷◌, ◌++◌}
use identity_attack_graph.Prelude.Tests.{Bool-cases}
use identity_attack_graph.Prelude.Lists.{All, All-append, take}
use identity_attack_graph.Prelude.Sort.{insert_stable, slice_stable}

module _ {ℓ} {A : Type ℓ} (R : A → A → Type ℓ) where
  abbrev pub Pairs : List A → Type ℓ
  Pairs [] = Unit
  Pairs (x ∷ xs) = All (R x) xs × Pairs xs

  pub Pairs-concat : (xs : List A) (x : A) → Pairs xs → All (λ y. R y x) xs → Pairs (xs ++ x ∷ [])
  Pairs-concat [] x p h = (tt, tt)
  Pairs-concat (y ∷ xs) x p h =
      (All-append (R y) xs (x ∷ []) p.0 (h.0, tt), Pairs-concat xs x p.1 h.1)

  pub take-Pairs : (n : ℕ) (xs : List A) → Pairs xs → Pairs (take n xs)
  take-Pairs zero xs p = tt
  take-Pairs (suc n) [] p = tt
  take-Pairs (suc n) (x ∷ xs) p = (take-All n xs p.0, take-Pairs n xs p.1)
    where
      take-All : (m : ℕ) (ys : List A) → All (R x) ys → All (R x) (take m ys)
      take-All zero ys h = tt
      take-All (suc m) [] h = tt
      take-All (suc m) (y ∷ ys) h = (h.0, take-All m ys h.1)

  module _ (less : A → A → Bool) (symm : (a b : A) → R a b → R b a) where
    All-insert_stable :
        (x y : A) (ys : List A) → R y x → All (R y) ys → All (R y) (insert_stable less x ys)
    unfolding insert_stable
    All-insert_stable x y [] h all = (h, tt)
    All-insert_stable x y (z ∷ ys) h all = elim (Bool-cases (less z x)) [
      | inl after ↦ rw after (all.0, All-insert_stable x y ys h all.1)
      | inr here ↦ rw here (h, all)
    ]

    insert_stable-Pairs :
        (x : A) (ys : List A) → All (R x) ys → Pairs ys → Pairs (insert_stable less x ys)
    unfolding insert_stable
    insert_stable-Pairs x [] h p = (tt, tt)
    insert_stable-Pairs x (y ∷ ys) h p = elim (Bool-cases (less y x)) [
      | inl after ↦
          rw after (All-insert_stable x y ys (symm x y h.0) p.0, insert_stable-Pairs x ys h.1 p.1)
      | inr here ↦ rw here (h, p)
    ]

    All-slice_stable : (x : A) (ys : List A) → All (R x) ys → All (R x) (slice_stable less ys)
    unfolding slice_stable
    All-slice_stable x [] h = tt
    All-slice_stable x (y ∷ ys) h =
        All-insert_stable y x (slice_stable less ys) h.0 (All-slice_stable x ys h.1)

    -- A symmetric relation survives a sort.
    pub slice_stable-Pairs : (xs : List A) → Pairs xs → Pairs (slice_stable less xs)
    unfolding slice_stable
    slice_stable-Pairs [] p = tt
    slice_stable-Pairs (x ∷ xs) p =
        insert_stable-Pairs x (slice_stable less xs) (All-slice_stable x xs p.0)
          (slice_stable-Pairs xs p.1)
