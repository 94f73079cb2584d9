-- ===== src/Prelude/Sort.antt =====
-- `sort.SliceStable`: a stable sort by a strict weak order.
use Prim.Native.Nat.{suc}
use mathlib.Core.Path.{◌≡◌, refl, ap, ◌∙◌}
use mathlib.Core.Logic.{inl, inr}
use mathlib.Core.Bool.{Bool, true, false}
use mathlib.Core.List.{List, [], ◌∷◌, Memᴰ, Perm}
use mathlib.Core.List.Perm
use mathlib.Core.List.Memᴰ
use native.Mathlib.Omega.{arith}
use identity_attack_graph.Prelude.Tests.{if◌then◌else◌, Bool-cases}
use identity_attack_graph.Prelude.Lists.{All, keep, length}

module _ {ℓ} {A : Type ℓ} (less : A → A → Bool) where
  -- An element goes in front of the first that is not before it.
  unfoldable pub insert_stable : A → List A → List A
  insert_stable x [] = x ∷ []
  insert_stable x (y ∷ ys) = if less y x then y ∷ insert_stable x ys else x ∷ y ∷ ys

  unfoldable pub slice_stable : List A → List A
  unfolding insert_stable
  slice_stable [] = []
  slice_stable (x ∷ xs) = insert_stable x (slice_stable xs)

  -- No element stands behind one that it should stand before.
  abbrev pub Ordered : List A → Type ℓ
  Ordered [] = Unit
  Ordered (x ∷ xs) = All (λ y. less y x ≡ false) xs × Ordered xs

  pub insert_stable-perm : (x : A) (xs : List A) → Perm (insert_stable x xs) (x ∷ xs)
  unfolding insert_stable
  insert_stable-perm x [] = Perm.refl (x ∷ [])
  insert_stable-perm x (y ∷ ys) = elim (Bool-cases (less y x)) [
    | inl after ↦ rw after (Perm.trans (Perm.cons y (insert_stable-perm x ys)) (Perm.swap x y ys))
    | inr here ↦ rw here (Perm.refl (x ∷ y ∷ ys))
  ]

  -- The sort loses, adds and repeats nothing.
  pub slice_stable-perm : (xs : List A) → Perm (slice_stable xs) xs
  unfolding slice_stable
  slice_stable-perm [] = Perm.refl []
  slice_stable-perm (x ∷ xs) =
      Perm.trans (insert_stable-perm x (slice_stable xs)) (Perm.cons x (slice_stable-perm xs))

  pub mem-insert_stable :
      (x : A) (xs : List A) {a : A} → Memᴰ a (insert_stable x xs) → Memᴰ a (x ∷ xs)
  unfolding insert_stable
  mem-insert_stable x [] m = m
  mem-insert_stable x (y ∷ ys) m = elim (Bool-cases (less y x)) [
    | inl after ↦ elim (Memᴰ.cases_cons (rw after at m)) [
      | inl q ↦ Memᴰ.tail (Memᴰ.head q)
      | inr t ↦ elim (Memᴰ.cases_cons (mem-insert_stable x ys t)) [
        | inl q ↦ Memᴰ.head q
        | inr u ↦ Memᴰ.tail (Memᴰ.tail u)
      ]
    ]
    | inr here ↦ rw here at m
  ]

  pub insert_stable-mem :
      (x : A) (xs : List A) {a : A} → Memᴰ a (x ∷ xs) → Memᴰ a (insert_stable x xs)
  unfolding insert_stable
  insert_stable-mem x [] m = m
  insert_stable-mem x (y ∷ ys) m = elim (Bool-cases (less y x)) [
    | inl after ↦ rw after (elim (Memᴰ.cases_cons m) [
      | inl q ↦ Memᴰ.tail (insert_stable-mem x ys (Memᴰ.head q))
      | inr t ↦ elim (Memᴰ.cases_cons t) [
        | inl q ↦ Memᴰ.head q
        | inr u ↦ Memᴰ.tail (insert_stable-mem x ys (Memᴰ.tail u))
      ]
    ])
    | inr here ↦ rw here m
  ]

  pub mem-slice_stable : (xs : List A) {a : A} → Memᴰ a (slice_stable xs) → Memᴰ a xs
  unfolding slice_stable
  mem-slice_stable [] m = m
  mem-slice_stable (x ∷ xs) m = elim (Memᴰ.cases_cons (mem-insert_stable x (slice_stable xs) m)) [
    | inl q ↦ Memᴰ.head q
    | inr t ↦ Memᴰ.tail (mem-slice_stable xs t)
  ]

  pub slice_stable-mem : (xs : List A) {a : A} → Memᴰ a xs → Memᴰ a (slice_stable xs)
  unfolding slice_stable
  slice_stable-mem [] m = m
  slice_stable-mem (x ∷ xs) m =
      insert_stable-mem x (slice_stable xs) (elim (Memᴰ.cases_cons m) [
        | inl q ↦ Memᴰ.head q
        | inr t ↦ Memᴰ.tail (slice_stable-mem xs t)
      ])

  pub length-slice_stable : (xs : List A) → length (slice_stable xs) ≡ length xs
  unfolding slice_stable
  length-slice_stable [] = refl
  length-slice_stable (x ∷ xs) = length_insert (slice_stable xs) ∙ ap suc (length-slice_stable xs)
    where
      length_insert : (ys : List A) → length (insert_stable x ys) ≡ suc (length ys)
      length_insert [] = refl
      length_insert (y ∷ ys) = ground (arith, length_insert ys)

  module _ (asym : (a b : A) → less a b ≡ true → less b a ≡ false)
      (trans : (a b c : A) → less c b ≡ false → less b a ≡ false → less c a ≡ false) where
    All-insert_stable :
        (x y : A) (ys : List A)
        → less x y ≡ false
        → All (λ z. less z y ≡ false) ys
        → All (λ z. less z y ≡ false) (insert_stable x ys)
    unfolding insert_stable
    All-insert_stable x y [] h all = (h, tt)
    All-insert_stable x y (z ∷ ys) h all = ground (arith, All-insert_stable x y ys h all.1)

    All-raise :
        (x y : A) (ys : List A)
        → less y x ≡ false
        → All (λ z. less z y ≡ false) ys
        → All (λ z. less z x ≡ false) ys
    All-raise x y [] h all = tt
    All-raise x y (z ∷ ys) h all = (trans x y z all.0 h, All-raise x y ys h all.1)

    insert_stable-Ordered : (x : A) (ys : List A) → Ordered ys → Ordered (insert_stable x ys)
    unfolding insert_stable
    insert_stable-Ordered x [] o = (tt, tt)
    insert_stable-Ordered x (y ∷ ys) o = elim (Bool-cases (less y x)) [
      | inl after ↦
          rw after (All-insert_stable x y ys (asym y x after) o.0, insert_stable-Ordered x ys o.1)
      | inr here ↦ rw here ((here, All-raise x y ys here o.0), o)
    ]

    pub slice_stable-Ordered : (xs : List A) → Ordered (slice_stable xs)
    unfolding slice_stable
    slice_stable-Ordered [] = tt
    slice_stable-Ordered (x ∷ xs) =
        insert_stable-Ordered x (slice_stable xs) (slice_stable-Ordered xs)

  module _ (p : A → Bool) (level : (a b : A) → p a ≡ true → p b ≡ true → less a b ≡ false) where
    keep-insert_stable : (x : A) (ys : List A) → keep p (insert_stable x ys) ≡ keep p (x ∷ ys)
    unfolding insert_stable
    keep-insert_stable x [] = refl
    keep-insert_stable x (y ∷ ys) = ground (arith, keep-insert_stable x ys, level y x)

    -- Elements of one rank keep their order.
    pub keep-slice_stable : (xs : List A) → keep p (slice_stable xs) ≡ keep p xs
    unfolding slice_stable
    keep-slice_stable [] = refl
    keep-slice_stable (x ∷ xs) =
        ground (arith, keep-insert_stable x (slice_stable xs), keep-slice_stable xs)
