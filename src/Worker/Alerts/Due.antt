-- ===== src/Worker/Alerts/Due.antt =====
-- How many findings stay due after a sweep.
use mathlib.Core.List.Memᴰ
use identity_attack_graph.Prelude.{
  ℕ, zero, suc, ◌+◌, ◌-◌, ◌≤◌, ◌==◌, string_eq, nat_eq, String, ◌≡◌, inl, inr, refl, sym, ap, subst,
  ◌∙◌, Bool, true, false, not, ◌&&◌, ◌||◌, List, [], ◌∷◌, map, Memᴰ, keep, take, Bool-cases, arith,
}
unfoldable use identity_attack_graph.Prelude.{contains}
use identity_attack_graph.Prelude.Sort.{slice_stable, insert_stable}
use identity_attack_graph.Models.{Uuid}
use identity_attack_graph.Worker.Alerts.{
  Row, is_due, older, batch, mark_row, mark_alerted, claim_unalerted,
}

abbrev one : Bool → ℕ
one true = 1
one false = 0

abbrev pub count : (Row → Bool) → List Row → ℕ
count p [] = 0
count p (r ∷ rows) = one (p r) + count p rows

count-insert :
    (p : Row → Bool) (x : Row) (rows : List Row)
    → count p (insert_stable older x rows) ≡ count p (x ∷ rows)
unfolding insert_stable
count-insert p x [] = refl
count-insert p x (r ∷ rows) = elim (Bool-cases (older r x)) [
  | inr before ↦ rw before refl
  | inl after ↦ rw after (omega (arith, count-insert p x rows))
]

count-sort : (p : Row → Bool) (rows : List Row) → count p (slice_stable older rows) ≡ count p rows
unfolding slice_stable
count-sort p [] = refl
count-sort p (r ∷ rows) =
    count-insert p r (slice_stable older rows) ∙ ap (λ n. one (p r) + n) (count-sort p rows)

count-le : (p : Row → Bool) (rows : List Row) → count p rows ≤ count (λ r. true) rows
count-le p [] = omega arith
count-le p (r ∷ rows) = let h = one-le (p r) in omega (arith, h, count-le p rows)
  where
    one-le : (b : Bool) → one b ≤ 1
    one-le true = omega arith
    one-le false = omega arith

-- None of the first n passes.
count-take :
    (p : Row → Bool) (n : ℕ) (rows : List Row)
    → ((r : Row) → Memᴰ r (take n rows) → p r ≡ false)
    → count p rows ≤ count (λ r. true) rows - n
count-take p zero rows h = omega (arith, count-le p rows)
count-take p (suc n) [] h = omega arith
count-take p (suc n) (r ∷ rows) h =
    let ih = count-take p n rows (λ t m. h t (Memᴰ.tail m)) in
    let z : one (p r) ≡ 0 = ap one (h r (Memᴰ.head refl)) in omega (arith, ih, z)

pub count-mem :
    (p : Row → Bool) (rows : List Row) (r : Row) → Memᴰ r rows → p r ≡ true → 1 ≤ count p rows
count-mem p [] r m h = absurd (Memᴰ.not-nil m)
count-mem p (s ∷ rows) r m h = elim (Memᴰ.cases_cons m) [
  | inr rest ↦ let ih = count-mem p rows r rest h in omega (arith, ih)
  | inl q ↦ let z = ap one (subst (λ t. p t ≡ true) q h) in omega (arith, z)
]

count-keep :
    (p q : Row → Bool) (rows : List Row) → count q (keep p rows) ≡ count (λ r. p r && q r) rows
count-keep p q [] = refl
count-keep p q (r ∷ rows) = split (p r) ∙ ap (λ n. one (p r && q r) + n) (count-keep p q rows)
  where
    split :
        (b : Bool)
        → count q (elim b [ true ↦ r ∷ keep p rows | false ↦ keep p rows ])
          ≡ one (b && q r) + count q (keep p rows)
    split true = refl
    split false = omega arith

abbrev fresh : List Uuid → Row → Bool
fresh ids r = not (contains ids r.id)

count-cong :
    (p q : Row → Bool) (rows : List Row) → ((r : Row) → p r ≡ q r) → count p rows ≡ count q rows
count-cong p q [] h = refl
count-cong p q (r ∷ rows) h =
    ap (λ b. one b + count p rows) (h r) ∙ ap (λ n. one (q r) + n) (count-cong p q rows h)

module _ (severities : List String) where
  is_due-mark_row :
      (ids : List Uuid) (r : Row)
      → is_due severities (mark_row ids r) ≡ (is_due severities r && fresh ids r)
  unfolding is_due mark_row
  is_due-mark_row ids r = elim (Bool-cases (contains ids r.id)) [
    | inl hit ↦ rw hit (ground arith)
    | inr miss ↦ rw miss (ground arith)
  ]

  count-mark :
      (ids : List Uuid) (rows : List Row)
      → count (is_due severities) (mark_alerted ids rows)
        ≡ count (λ r. is_due severities r && fresh ids r) rows
  unfolding mark_alerted
  count-mark ids [] = refl
  count-mark ids (r ∷ rows) =
      ap (λ b. one b + count (is_due severities) (mark_alerted ids rows)) (is_due-mark_row ids r)
      ∙ ap (λ n. one (is_due severities r && fresh ids r) + n) (count-mark ids rows)

  abbrev pub due_count : List Row → ℕ
  due_count rows = count (is_due severities) rows

  contains-ids :
      (rows : List Row) (r : Row)
      → Memᴰ r rows
      → contains (map (λ (f : Row). f.id) rows) r.id ≡ true
  unfolding contains
  contains-ids [] r m = absurd (Memᴰ.not-nil m)
  contains-ids (s ∷ rows) r m = elim (Memᴰ.cases_cons m) [
    | inl q ↦ rw ((nat_eq.beq_iff s.id r.id).1 (sym (ap (λ (f : Row). f.id) q))) refl
    | inr rest ↦ either (s.id == r.id) _ (contains-ids rows r rest)
  ]
    where
      either : (b c : Bool) → c ≡ true → (b || c) ≡ true
      either b c h = ground arith

  -- A sweep that marks what it claims leaves a batch less.
  pub mark-claimed-count :
      (rows : List Row)
      → due_count (mark_alerted (map (λ (f : Row). f.id) (claim_unalerted severities rows)) rows)
        ≤ due_count rows - batch
  unfolding claim_unalerted
  mark-claimed-count rows =
      let due = keep (is_due severities) rows in
      let sorted = slice_stable older due in
      let ids = map (λ (f : Row). f.id) (take batch sorted) in
      let all : Row → Bool = λ r. true in
      let marked = count-mark ids rows ∙ sym (count-keep (is_due severities) (fresh ids) rows) in
      let here = sym (count-sort (fresh ids) due) in
      let gone =
        count-take (fresh ids) batch sorted
          (λ r m. ap not (contains-ids (take batch sorted) r m)) in
      let total =
        count-sort all due
        ∙ count-keep (is_due severities) all rows
        ∙ count-cong (λ r. is_due severities r && all r) (is_due severities) rows
            (λ r. and_true (is_due severities r)) in
      omega (arith, marked, here, gone, total)
    where
      and_true : (b : Bool) → (b && true) ≡ b
      and_true true = refl
      and_true false = refl
