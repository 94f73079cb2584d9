-- ===== src/Detect/Engine/Deduped.antt =====
-- What `Engine.Run` returns.
use mathlib.Core.List.Memᴰ
use mathlib.Core.List.{append-nil, append_assoc}
use identity_attack_graph.Prelude.{
  String, nat_eq, string_eq, ◌≡◌, ◌≢◌, ◌≤◌, refl, sym, ◌∙◌, ap, subst, ◌⊎◌, inl, inr, true, false,
  List, [], ◌∷◌, ◌++◌, Memᴰ, foldl, arith, Bool-cases, All, mem-All,
}
unfoldable use identity_attack_graph.Prelude.{contains}
use identity_attack_graph.Prelude.Sort.{
  Ordered, slice_stable-Ordered, mem-slice_stable, slice_stable-mem,
}
use identity_attack_graph.Prelude.Pairs.{Pairs, Pairs-concat, slice_stable-Pairs}
use identity_attack_graph.Models.{Uuid, Time, Finding}
use identity_attack_graph.Detect.Engine.{
  sev_rank, Gathering, with_fingerprint, stamp, take_finding, take_findings, more_severe,
  run_engine,
}

-- Findings with different fingerprints.
abbrev pub Differ : Finding → Finding → Type 0
Differ a b = a.fingerprint ≢ b.fingerprint

-- All findings of all detectors.
abbrev pub all_findings : List (List Finding) → List Finding
all_findings [] = []
all_findings (r ∷ rs) = r ++ all_findings rs

contains-string_cons :
    (a v : String) (xs : List String)
    → contains (a ∷ xs) v ≡ true
    → (a ≡ v) ⊎ (contains xs v ≡ true)
unfolding contains
contains-string_cons a v xs h = ground (arith, string_eq.beq_iff a v)

contains-string_self : (a : String) (xs : List String) → contains (a ∷ xs) a ≡ true
unfolding contains
contains-string_self a xs = ground (arith, string_eq.beq_iff a a)

contains-string_later :
    (a v : String) (xs : List String) → contains xs v ≡ true → contains (a ∷ xs) v ≡ true
unfolding contains
contains-string_later a v xs h = ground arith

-- Severities never rise along the list.
abbrev pub BySeverity : List Finding → Type 0
BySeverity [] = Unit
BySeverity (f ∷ fs) = All (λ e. sev_rank e.severity ≤ sev_rank f.severity) fs × BySeverity fs

Ordered-BySeverity : (fs : List Finding) → Ordered more_severe fs → BySeverity fs
Ordered-BySeverity [] o = tt
Ordered-BySeverity (f ∷ fs) o = (all fs o.0, Ordered-BySeverity fs o.1)
  where
    all :
        (es : List Finding)
        → All (λ e. more_severe e f ≡ false) es
        → All (λ e. sev_rank e.severity ≤ sev_rank f.severity) es
    all [] h = tt
    all (e ∷ es) h = (ground arith, all es h.1)

module _ (hash32 : String → String) (uuid_text : Uuid → String) (now : Time) where
  abbrev pub key : Finding → String
  key f = (with_fingerprint hash32 uuid_text f).fingerprint

  -- The finding as it is kept.
  abbrev pub kept_as : Finding → Finding
  kept_as f = stamp now (with_fingerprint hash32 uuid_text f)

  -- The state after the findings `fs`.
  record Gathered (fs : List Finding) (s : Gathering) : Type 0 where
    seen_out :
        (k : String) → contains s.seen k ≡ true → (f : Finding) × Memᴰ f s.out × (f.fingerprint ≡ k)
    out_seen : (f : Finding) → Memᴰ f s.out → contains s.seen f.fingerprint ≡ true
    apart : Pairs Differ s.out
    origin : (f : Finding) → Memᴰ f s.out → (e : Finding) × Memᴰ e fs × (f ≡ kept_as e)
    covers : (e : Finding) → Memᴰ e fs → (f : Finding) × Memᴰ f s.out × (f.fingerprint ≡ key e)

  step : Gathering → Finding → Gathering
  step = take_finding hash32 uuid_text now

  stamp-fingerprint : (f : Finding) → (stamp now f).fingerprint ≡ f.fingerprint
  unfolding stamp
  stamp-fingerprint f = refl

  step-seen : (s : Gathering) (f : Finding) → contains s.seen (key f) ≡ true → step s f ≡ s
  unfolding step take_finding with_fingerprint
  step-seen s f h = rw h

  step-new :
      (s : Gathering) (f : Finding)
      → contains s.seen (key f) ≡ false
      → step s f ≡ record { seen = key f ∷ s.seen; out = s.out ++ kept_as f ∷ [] }
  unfolding step take_finding with_fingerprint
  step-new s f h = rw h

  step-Gathered :
      (fs : List Finding) (s : Gathering) (f : Finding)
      → Gathered fs s
      → Gathered (fs ++ f ∷ []) (step s f)
  step-Gathered fs s f g = elim (Bool-cases (contains s.seen (key f))) [
    | inl old ↦ rw (step-seen s f old) (record {
      seen_out = g.seen_out;
      out_seen = g.out_seen;
      apart = g.apart;
      origin = λ x m. let (e, at, q) = g.origin x m in (e, Memᴰ.append_left (f ∷ []) at, q);
      covers = λ e m. elim (Memᴰ.append_cases fs m) [
        | inl before ↦ g.covers e before
        | inr last ↦
            let (x, at, q) = g.seen_out (key f) old in
            (x, at, q ∙ ap key (sym (Memᴰ.eq_of_singleton last)))
      ];
    })
    | inr new ↦ rw (step-new s f new) (record {
      seen_out = λ k h. elim (contains-string_cons (key f) k s.seen h) [
        | inl q ↦ (kept_as f, Memᴰ.append_right s.out (Memᴰ.head refl), stamp-fingerprint _ ∙ q)
        | inr old ↦
            let (x, at, q) = g.seen_out k old in (x, Memᴰ.append_left (kept_as f ∷ []) at, q)
      ];
      out_seen = λ x m. elim (Memᴰ.append_cases s.out m) [
        | inl before ↦ contains-string_later (key f) x.fingerprint s.seen (g.out_seen x before)
        | inr last ↦
            let q : key f ≡ x.fingerprint = sym (
              ap (λ (w : Finding). w.fingerprint) (Memᴰ.eq_of_singleton last)
              ∙ stamp-fingerprint _) in
            subst (λ k. contains (key f ∷ s.seen) k ≡ true) q (contains-string_self (key f) s.seen)
      ];
      apart = Pairs-concat Differ s.out (kept_as f) g.apart (
          mem-All _ s.out
            (λ x m q. cc (g.out_seen x m, new, ap (contains s.seen) (q ∙ stamp-fingerprint _))));
      origin = λ x m. elim (Memᴰ.append_cases s.out m) [
        | inl before ↦ let (e, at, q) = g.origin x before in (e, Memᴰ.append_left (f ∷ []) at, q)
        | inr last ↦ (f, Memᴰ.append_right fs (Memᴰ.head refl), Memᴰ.eq_of_singleton last)
      ];
      covers = λ e m. elim (Memᴰ.append_cases fs m) [
        | inl before ↦
            let (x, at, q) = g.covers e before in (x, Memᴰ.append_left (kept_as f ∷ []) at, q)
        | inr last ↦ (
          kept_as f,
          Memᴰ.append_right s.out (Memᴰ.head refl),
          stamp-fingerprint _ ∙ ap key (sym (Memᴰ.eq_of_singleton last)),
        )
      ];
    })
  ]

  steps-Gathered :
      (fs rs : List Finding) (s : Gathering)
      → Gathered fs s
      → Gathered (fs ++ rs) (foldl (take_finding hash32 uuid_text now) s rs)
  unfolding step
  steps-Gathered fs [] s g = subst (λ l. Gathered l s) (sym (append-nil fs)) g
  steps-Gathered fs (f ∷ rs) s g =
      subst (λ l. Gathered l (foldl (take_finding hash32 uuid_text now) s (f ∷ rs)))
        (append_assoc fs (f ∷ []) rs)
        (steps-Gathered (fs ++ f ∷ []) rs (take_finding hash32 uuid_text now s f)
          (step-Gathered fs s f g))

  all-Gathered :
      (fs : List Finding) (rs : List (List Finding)) (s : Gathering)
      → Gathered fs s
      → Gathered (fs ++ all_findings rs) (take_findings hash32 uuid_text now s rs)
  unfolding take_findings
  all-Gathered fs [] s g = subst (λ l. Gathered l s) (sym (append-nil fs)) g
  all-Gathered fs (r ∷ rs) s g =
      subst (λ l. Gathered l (take_findings hash32 uuid_text now s (r ∷ rs)))
        (append_assoc fs r (all_findings rs))
        (all-Gathered (fs ++ r) rs (foldl (take_finding hash32 uuid_text now) s r)
          (steps-Gathered fs r s g))

  abbrev none_yet : Gathering
  none_yet = record { seen = []; out = [] }

  gathered :
      (rs : List (List Finding))
      → Gathered (all_findings rs) (take_findings hash32 uuid_text now none_yet rs)
  unfolding contains
  gathered rs = all-Gathered [] rs none_yet (record {
    seen_out = λ k h. cc;
    out_seen = λ f m. absurd (Memᴰ.not-nil m);
    apart = tt;
    origin = λ f m. absurd (Memᴰ.not-nil m);
    covers = λ e m. absurd (Memᴰ.not-nil m);
  })

  -- `Run` returns findings with pairwise different fingerprints, the most severe first. Each of them
  -- is one that a detector found, completed by its fingerprint and its times, and of each that a
  -- detector found there is one with its fingerprint.
  pub run_engine_deduped :
      (rs : List (List Finding))
      → let out = run_engine hash32 uuid_text now rs in
        BySeverity out
        × Pairs Differ out
        × ((f : Finding) → Memᴰ f out → (e : Finding) × Memᴰ e (all_findings rs) × (f ≡ kept_as e))
        × ((e : Finding)
            → Memᴰ e (all_findings rs)
            → (f : Finding) × Memᴰ f out × (f.fingerprint ≡ key e))
  unfolding run_engine
  run_engine_deduped rs =
      let g = gathered rs in
      (
        Ordered-BySeverity _ (
            slice_stable-Ordered more_severe (λ a b h. ground arith) (λ a b c h k. ground arith)
              (take_findings hash32 uuid_text now none_yet rs).out),
        slice_stable-Pairs Differ more_severe (λ a b h q. h (sym q)) _ g.apart,
        λ f m. g.origin f (mem-slice_stable more_severe _ m),
        λ e m. let (f, at, q) = g.covers e m in (f, slice_stable-mem more_severe _ at, q),
      )
