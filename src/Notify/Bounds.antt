-- ===== src/Notify/Bounds.antt =====
-- The severities that are sent, and the size of a message.
use identity_attack_graph.Prelude.{
  ℕ, zero, suc, ◌+◌, ◌-◌, ◌==◌, string_eq, String, ◌≡◌, ◌⊎◌, inl, inr, refl, sym, ap, ◌∙◌, Bool,
  true, false, ◌&&◌, ◌||◌, List, [], ◌∷◌, ◌++◌, subst, ⊎_elim, beq_ne, arith, keep, leb, length,
  map, take, Bool-cases, if◌then◌else◌, Eq,
}
unfoldable use identity_attack_graph.Prelude.{contains}
use identity_attack_graph.Prelude.Map.{find_or, find}
use identity_attack_graph.Prelude.Texts.{Strings, ◌<>◌, decimal}
use identity_attack_graph.Models.{severity_rank}
use identity_attack_graph.Notify.{
  Alert, Block, header, section, context, severity_order, severity_floor, severities_at_least,
  slack_alert_text, max_detailed, alert_blocks, slack_payload,
}

and_false : (b : Bool) → (b && false) ≡ false
and_false true = refl
and_false false = refl

keep-true :
    {A : Type 0} (p : A → Bool) (x : A) (xs : List A) → p x ≡ true → keep p (x ∷ xs) ≡ x ∷ keep p xs
keep-true p x xs h = ap (λ b. elim b [ true ↦ x ∷ keep p xs | false ↦ keep p xs ]) h

keep-false :
    {A : Type 0} (p : A → Bool) (x : A) (xs : List A) → p x ≡ false → keep p (x ∷ xs) ≡ keep p xs
keep-false p x xs h = ap (λ b. elim b [ true ↦ x ∷ keep p xs | false ↦ keep p xs ]) h

pub contains-keep :
    {A : Type 0} ⦃e : Eq A⦄ (p : A → Bool) (xs : List A) (a : A)
    → contains (keep p xs) a ≡ (contains xs a && p a)
unfolding contains
contains-keep p [] a = refl
contains-keep ⦃e⦄ p (x ∷ xs) a =
    let ih = contains-keep p xs a in
    elim (Bool-cases (p x)) [
      | inl passes ↦
          ap (λ ys. contains ys a) (keep-true p x xs passes)
          ∙ ap (λ b. x == a || b) ih
          ∙ shared (x == a) (contains xs a) (p a)
              (λ same. subst (λ y. p y ≡ true) ((e.beq_iff x a).0 same) passes)
      | inr fails ↦
          ap (λ ys. contains ys a) (keep-false p x xs fails)
          ∙ ih
          ∙ dropped (x == a) (contains xs a) (p a)
              (λ same. subst (λ y. p y ≡ false) ((e.beq_iff x a).0 same) fails)
    ]
  where
    shared : (b c d : Bool) → (b ≡ true → d ≡ true) → (b || (c && d)) ≡ ((b || c) && d)
    shared true c d h = sym (h refl)
    shared false c d h = refl

    dropped : (b c d : Bool) → (b ≡ true → d ≡ false) → (c && d) ≡ ((b || c) && d)
    dropped true c d h = ap (λ x. c && x) (h refl) ∙ and_false c ∙ sym (h refl)
    dropped false c d h = refl

-- The text is the name, or fails to compare equal to it on either side.
is_named : (s k : String) → (s ≡ k) ⊎ ((k == s) ≡ false) × ((s == k) ≡ false)
is_named s k = elim (Bool-cases (s == k)) [
  | inl same ↦ inl ((string_eq.beq_iff s k).0 same)
  | inr other ↦ inr (beq_ne k s (λ q. apart s k other (sym q)), other)
]
  where
    apart : {A : Type 0} (s k : String) → (s == k) ≡ false → s ≡ k → A
    apart s k other q = absurd (let h = (string_eq.beq_iff s k).1 q in cc (h, other))

floor_rank : (s : String) → find_or 0 s severity_floor ≡ severity_rank s
unfolding find_or find severity_rank
floor_rank s =
    ⊎_elim (λ q. subst (λ t. find_or 0 t severity_floor ≡ severity_rank t) (sym q) refl)
      (λ (i, i').
        ⊎_elim (λ q. subst (λ t. find_or 0 t severity_floor ≡ severity_rank t) (sym q) refl)
          (λ (l, l').
            ⊎_elim (λ q. subst (λ t. find_or 0 t severity_floor ≡ severity_rank t) (sym q) refl)
              (λ (m, m').
                ⊎_elim (λ q. subst (λ t. find_or 0 t severity_floor ≡ severity_rank t) (sym q) refl)
                  (λ (h, h').
                    ⊎_elim
                      (λ q. subst (λ t. find_or 0 t severity_floor ≡ severity_rank t) (sym q) refl)
                      (λ (c, c').
                        rw (find_or, find, severity_rank, i, l, m, h, c, l', m', h', c') refl)
                      (is_named s "critical"))
                  (is_named s "high"))
              (is_named s "medium"))
          (is_named s "low"))
      (is_named s "info")

-- Of the five severities exactly those are sent that rank no lower than the least one, as the
-- models rank them; an unknown least severity ranks lowest.
pub severities_at_least_lem :
    (u : Strings) (min s : String)
    → contains (severities_at_least u min) s
      ≡ (contains severity_order s && leb (severity_rank (u.lower min)) (severity_rank s))
unfolding severities_at_least
severities_at_least_lem u min s =
    let p : String → Bool =
      λ s. leb (find_or 0 (u.lower min) severity_floor) (find_or 0 s severity_floor) in
    contains-keep p severity_order s
    ∙ ap (λ a. contains severity_order s && leb a (find_or 0 s severity_floor))
        (floor_rank (u.lower min))
    ∙ ap (λ b. contains severity_order s && leb (severity_rank (u.lower min)) b) (floor_rank s)

module _ (u : Strings) where
  abbrev pub detailed : Alert → Block
  detailed a = section (slack_alert_text u a)

  abbrev pub others : ℕ → List Block
  others n = context ("…and " <> decimal (n - max_detailed) <> " more") ∷ []

  alert_blocks_lem :
      (n i d : ℕ) (alerts : List Alert)
      → i + d ≡ max_detailed
      → alert_blocks u n i alerts
        ≡ map detailed (take d alerts) ++ (if leb (length alerts) d then [] else others n)
  unfolding alert_blocks
  alert_blocks_lem n i zero [] h = refl
  alert_blocks_lem n i (suc d) [] h =
      let none_more : leb 0 (suc d) ≡ true = ground arith in rw none_more refl
  alert_blocks_lem n i zero (a ∷ alerts) h =
      let full : leb max_detailed i ≡ true = ground (arith, h) in
      let more : leb (suc (length alerts)) 0 ≡ false = ground arith in rw (full, more) refl
  alert_blocks_lem n i (suc d) (a ∷ alerts) h =
      let room : leb max_detailed i ≡ false = ground (arith, h) in
      let same : leb (suc (length alerts)) (suc d) ≡ leb (length alerts) d = ground arith in
      rw (room, same)
        (ap (◌∷◌ (detailed a)) (alert_blocks_lem n (i + 1) d alerts (omega (arith, h))))

  -- A message has a header, a block for each of the first twenty alerts in their order, and one
  -- that counts the others where there are more.
  pub slack_payload_blocks :
      (alerts : List Alert)
      → let p = slack_payload u alerts in
        let n = length alerts in
        p.blocks
        ≡ header p.text
          ∷ (map detailed (take max_detailed alerts)
              ++ (if leb n max_detailed then [] else others n))
  unfolding slack_payload
  slack_payload_blocks alerts =
      ap (◌∷◌ (header (slack_payload u alerts).text))
        (alert_blocks_lem (length alerts) 0 max_detailed alerts refl)
