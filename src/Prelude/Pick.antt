-- ===== src/Prelude/Pick.antt =====
-- A loop that keeps the best element so far: `best` is the index of the source, by what stands there.
use mathlib.Core.Path.{◌≡◌, refl, sym, subst}
use mathlib.Core.Logic.{◌⊎◌, inl, inr}
use mathlib.Core.Bool.{Bool, true, false, ◌&&◌}
use mathlib.Core.Option.{Option, none, some}
use mathlib.Core.List.{List, [], ◌∷◌, Memᴰ}
use mathlib.Core.List.Memᴰ
use native.Mathlib.Omega.{arith}
use identity_attack_graph.Prelude.Tests.{if◌then◌else◌, Bool-cases}

module _ {A : Type 0} (fits : A → Bool) (better : A → A → Bool) where
  -- `if fits(p) && (best < 0 || better(p, ps[best])) { best = i }`
  unfoldable pub improve : Option A → A → Option A
  improve best p =
      if fits p && (elim best [ none ↦ true | some b ↦ better p b ]) then some p else best

  unfoldable pub pick : Option A → List A → Option A
  unfolding improve
  pick best [] = best
  pick best (p ∷ ps) = pick (improve best p) ps

  -- What the loop keeps: nothing that fits is better than the choice.
  abbrev pub IsPick : List A → Option A → Type 0
  IsPick ps none = (p : A) → Memᴰ p ps → fits p ≡ false
  IsPick ps (some b) =
      Memᴰ b ps × (fits b ≡ true) × ((p : A) → Memᴰ p ps → fits p ≡ true → better p b ≡ false)

  module _ (irrefl : (a : A) → better a a ≡ false)
      (lower : (a b c : A) → better b a ≡ true → better c a ≡ false → better c b ≡ false) where
    -- From a choice `b` on, the loop ends at one that nothing seen is better than.
    record Settled (b : A) (ps : List A) : Type 0 where
      last : A
      reached : pick (some b) ps ≡ some last
      origin : (last ≡ b) ⊎ Memᴰ last ps × (fits last ≡ true)
      beats : (p : A) → Memᴰ p ps → fits p ≡ true → better p last ≡ false
      keeps : (p : A) → better p b ≡ false → better p last ≡ false

    settle : (b : A) (ps : List A) → Settled b ps
    unfolding pick
    settle b [] = record {
      last = b;
      reached = refl;
      origin = inl refl;
      beats = λ p m. absurd (Memᴰ.not-nil m);
      keeps = λ p h. h;
    }
    settle b (p ∷ ps) = elim (Bool-cases (fits p && better p b)) [
      | inl takes ↦
          let t = settle p ps in
          let fit : fits p ≡ true = ground arith in
          let over : better p b ≡ true = ground arith in
          record {
            last = t.last;
            reached = rw (takes, pick) t.reached;
            origin = inr (elim t.origin [
              | inl same ↦ (Memᴰ.head same, rw same fit)
              | inr (m, f) ↦ (Memᴰ.tail m, f)
            ]);
            beats = λ q m f. elim (Memᴰ.cases_cons m) [
              | inl same ↦ t.keeps q (subst (λ w. better w p ≡ false) (sym same) (irrefl p))
              | inr later ↦ t.beats q later f
            ];
            keeps = λ q h. t.keeps q (lower b p q over h);
          }
      | inr stays ↦
          let t = settle b ps in
          record {
            last = t.last;
            reached = rw (stays, pick) t.reached;
            origin = elim t.origin [ inl same ↦ inl same | inr (m, f) ↦ inr (Memᴰ.tail m, f) ];
            beats = λ q m f. elim (Memᴰ.cases_cons m) [
              | inl same ↦
                  let fit : fits p ≡ true = subst (λ w. fits w ≡ true) same f in
                  let under : better p b ≡ false = ground arith in
                  t.keeps q (subst (λ w. better w b ≡ false) (sym same) under)
              | inr later ↦ t.beats q later f
            ];
            keeps = t.keeps;
          }
    ]

    pub pick-IsPick : (ps : List A) → IsPick ps (pick none ps)
    unfolding pick
    pick-IsPick [] = λ p m. absurd (Memᴰ.not-nil m)
    pick-IsPick (p ∷ ps) = elim (Bool-cases (fits p)) [
      | inl fit ↦
          let t = settle p ps in
          rw (fit, t.reached, pick)
            (
              elim t.origin [ inl same ↦ Memᴰ.head same | inr (m, f) ↦ Memᴰ.tail m ],
              elim t.origin [ inl same ↦ rw same fit | inr (m, f) ↦ f ],
              λ q m f. elim (Memᴰ.cases_cons m) [
                | inl same ↦ t.keeps q (subst (λ w. better w p ≡ false) (sym same) (irrefl p))
                | inr later ↦ t.beats q later f
              ],
            )
      | inr unfit ↦ rw (unfit, pick) (skip (pick none ps) unfit (pick-IsPick ps))
    ]
      where
        skip : (o : Option A) → fits p ≡ false → IsPick ps o → IsPick (p ∷ ps) o
        skip none u h = λ q m. elim (Memᴰ.cases_cons m) [
          | inl same ↦ subst (λ w. fits w ≡ false) (sym same) u
          | inr later ↦ h q later
        ]
        skip (some b) u h = (
          Memᴰ.tail h.0,
          h.1,
          λ q m f. elim (Memᴰ.cases_cons m) [
            | inl same ↦ let fit = subst (λ w. fits w ≡ true) same f in cc (u, fit)
            | inr later ↦ h.2 q later f
          ],
        )
