-- ===== src/Graph/Percentile/Rank.antt =====
-- Which of the values `percentile` returns.
use identity_attack_graph.Prelude.{
  ℕ, zero, suc, ◌+◌, ◌-◌, ◌≤◌, ◌<◌, ◌≡◌, refl, sym, ap, ◌∙◌, Bool, List, [], ◌∷◌, Option, some,
  none, ltb, leb, length, get_elem?, if◌then◌else◌, arith, All, Bool-cases, inl, inr, subst,
}
use identity_attack_graph.Graph.Percentile.{exchange, exchange_sort, percentile}

-- How many of some values pass a test.
abbrev pub how_many : (ℕ → Bool) → List ℕ → ℕ
how_many p [] = 0
how_many p (x ∷ xs) = (if p x then 1 else 0) + how_many p xs

exchange-how_many :
    (p : ℕ → Bool) (x : ℕ) (ys : List ℕ)
    → (if p (exchange x ys).0 then 1 else 0) + how_many p (exchange x ys).1
      ≡ (if p x then 1 else 0) + how_many p ys
unfolding exchange
exchange-how_many p x [] = refl
exchange-how_many p x (y ∷ ys) = elim (Bool-cases (ltb y x)) [
  | inl lower ↦ rw lower (omega (arith, exchange-how_many p y ys))
  | inr kept ↦ rw kept (omega (arith, exchange-how_many p x ys))
]

length-exchange : (x : ℕ) (ys : List ℕ) → length (exchange x ys).1 ≡ length ys
unfolding exchange
length-exchange x [] = refl
length-exchange x (y ∷ ys) = elim (Bool-cases (ltb y x)) [
  | inl lower ↦ rw lower (ap suc (length-exchange y ys))
  | inr kept ↦ rw kept (ap suc (length-exchange x ys))
]

exchange-least :
    (x : ℕ) (ys : List ℕ)
    → ((exchange x ys).0 ≤ x) × All (λ z. (exchange x ys).0 ≤ z) (exchange x ys).1
unfolding exchange
exchange-least x [] = (omega arith, tt)
exchange-least x (y ∷ ys) = elim (Bool-cases (ltb y x)) [
  | inl lower ↦
      let (a, b) = exchange-least y ys in
      let before : y < x = ground arith in rw lower (omega arith, (omega arith, b))
  | inr kept ↦
      let (a, b) = exchange-least x ys in
      let after : x ≤ y = ground arith in rw kept (a, (omega arith, b))
]

how_many-sort :
    (p : ℕ → Bool) (n : ℕ) (xs : List ℕ) → how_many p (exchange_sort n xs) ≡ how_many p xs
unfolding exchange_sort
how_many-sort p zero xs = refl
how_many-sort p (suc n) [] = refl
how_many-sort p (suc n) (x ∷ xs) =
    omega (arith, how_many-sort p n (exchange x xs).1, exchange-how_many p x xs)

length-sort : (n : ℕ) (xs : List ℕ) → length (exchange_sort n xs) ≡ length xs
unfolding exchange_sort
length-sort zero xs = refl
length-sort (suc n) [] = refl
length-sort (suc n) (x ∷ xs) = ap suc (length-sort n (exchange x xs).1 ∙ length-exchange x xs)

abbrev pub Sorted : List ℕ → Type 0
Sorted [] = Unit
Sorted (x ∷ xs) = All (λ y. x ≤ y) xs × Sorted xs

none_below : (v : ℕ) (xs : List ℕ) → All (λ y. v ≤ y) xs → how_many (λ y. ltb y v) xs ≡ 0
none_below v [] h = refl
none_below v (x ∷ xs) h = ground (arith, none_below v xs h.1, h.0)

value_or : Option ℕ → ℕ
value_or none = 0
value_or (some v) = v

some_value : {a b : ℕ} → some a ≡ some b → a ≡ b
unfolding value_or
some_value e = ap value_or e

below : (x : ℕ) (xs : List ℕ) (i v : ℕ) → All (λ y. x ≤ y) xs → get_elem? xs i ≡ some v → x ≤ v
below x [] i v h e = absurd (cc e)
below x (y ∷ ys) zero v h e = subst (λ z. x ≤ z) (some_value e) h.0
below x (y ∷ ys) (suc i) v h e = below x ys i v h.1 e

none_lower : (v : ℕ) (xs : List ℕ) → how_many (λ y. ltb y v) xs ≡ 0 → All (λ y. v ≤ y) xs
none_lower v [] h = tt
none_lower v (x ∷ xs) h = (ground arith, none_lower v xs (ground arith))

exchange_sort-Sorted : (n : ℕ) (xs : List ℕ) → length xs ≤ n → Sorted (exchange_sort n xs)
unfolding exchange_sort
exchange_sort-Sorted zero [] h = tt
exchange_sort-Sorted zero (x ∷ xs) h = absurd (omega (arith, h))
exchange_sort-Sorted (suc n) [] h = tt
exchange_sort-Sorted (suc n) (x ∷ xs) h =
    let (least, rest) = exchange x xs in
    (
      none_lower (exchange x xs).0 _ (
          how_many-sort (λ y. ltb y (exchange x xs).0) n (exchange x xs).1
          ∙ none_below (exchange x xs).0 (exchange x xs).1 (exchange-least x xs).1),
      exchange_sort-Sorted n (exchange x xs).1 (omega (arith, length-exchange x xs)),
    )

rank_of :
    (xs : List ℕ) (i v : ℕ)
    → Sorted xs
    → get_elem? xs i ≡ some v
    → (how_many (λ y. ltb y v) xs ≤ i) × (i < how_many (λ y. leb y v) xs)
rank_of [] i v o e = absurd (cc e)
rank_of (x ∷ xs) zero v o e =
    let q = some_value e in
    let none_lt = none_below x xs o.0 in
    subst (λ w. (how_many (λ y. ltb y w) (x ∷ xs) ≤ 0) × (0 < how_many (λ y. leb y w) (x ∷ xs))) q
      (ground (arith, none_lt), ground arith)
rank_of (x ∷ xs) (suc i) v o e =
    let (a, b) = rank_of xs i v o.1 e in
    let q = below x xs i v o.0 e in (ground arith, ground arith)

found_at : (xs : List ℕ) (i : ℕ) → i < length xs → (v : ℕ) × (get_elem? xs i ≡ some v)
found_at [] i h = absurd (omega (arith, h))
found_at (x ∷ xs) zero h = (x, refl)
found_at (x ∷ xs) (suc i) h = found_at xs i (omega arith)

-- The place of `n` values that is read.
abbrev pub place : (ℕ → ℕ) → ℕ → ℕ
place nearest n = if leb n (nearest (n - 1)) then n - 1 else nearest (n - 1)

in_range : (nearest : ℕ → ℕ) (m : ℕ) → place nearest (suc m) < suc m
in_range nearest m = ground arith

percentile-eq :
    (nearest : ℕ → ℕ) (x : ℕ) (xs : List ℕ) (v : ℕ)
    → get_elem? (exchange_sort (suc (length xs)) (x ∷ xs)) (place nearest (suc (length xs)))
      ≡ some v
    → percentile nearest (x ∷ xs) ≡ v
unfolding percentile
percentile-eq nearest x xs v e =
    let q : length (exchange_sort (suc (length xs)) (x ∷ xs)) ≡ suc (length xs) =
      length-sort (suc (length xs)) (x ∷ xs) in
    let at : (n : ℕ) → Option ℕ =
      λ n. get_elem? (exchange_sort (suc (length xs)) (x ∷ xs)) (place nearest n) in
    ap (λ (n : ℕ). elim (at n) [ some w ↦ w | none ↦ 0 ]) q ∙ ap value_of e
  where
    value_of : Option ℕ → ℕ
    value_of o = elim o [ some w ↦ w | none ↦ 0 ]

-- Of values that are not empty, the percentile is the one that stands at its place in their order:
-- no more than that place's number are below it, and more than that number are at most it.
pub percentile_rank :
    (nearest : ℕ → ℕ) (vals : List ℕ)
    → 0 < length vals
    → (how_many (λ y. ltb y (percentile nearest vals)) vals ≤ place nearest (length vals))
      × (place nearest (length vals) < how_many (λ y. leb y (percentile nearest vals)) vals)
percentile_rank nearest [] h = absurd (omega (arith, h))
percentile_rank nearest (x ∷ xs) h =
    let n = suc (length xs) in
    let vals = exchange_sort n (x ∷ xs) in
    let i = place nearest n in
    let (v, e) =
      found_at vals i (omega (arith, length-sort n (x ∷ xs), in_range nearest (length xs))) in
    let (a, b) = rank_of vals i v (exchange_sort-Sorted n (x ∷ xs) (omega arith)) e in
    subst (λ w. (how_many (λ y. ltb y w) (x ∷ xs) ≤ i) × (i < how_many (λ y. leb y w) (x ∷ xs)))
      (sym (percentile-eq nearest x xs v e))
      (
        omega (arith, a, how_many-sort (λ y. ltb y v) n (x ∷ xs)),
        omega (arith, b, how_many-sort (λ y. leb y v) n (x ∷ xs)),
      )
