-- ===== src/Remediate/Effects.antt =====
-- What the actions do to the scores that they are to lower.
use mathlib.Core.List.Memᴰ
use identity_attack_graph.Prelude.{
  String, ◌==◌, string_eq, ◌≡◌, refl, sym, ◌∙◌, ap, subst, Bool, true, false, not, ◌&&◌, ◌||◌, List,
  [], ◌∷◌, ◌++◌, Memᴰ, map, arith, inl, inr, Bool-cases,
}
use identity_attack_graph.Prelude.Map.{find, insert, find-insert}
use identity_attack_graph.Models.{Any, Attributes}
use identity_attack_graph.Models.Inventory.{TrustEdge}
unfoldable use identity_attack_graph.Prelude.{contains}
use identity_attack_graph.Prelude.Int.{ℤ, pos, ltb_ℤ, leb_ℤ}
use identity_attack_graph.Risk.Factors.{add_trust_edge, add_trust_edges, trust}
use identity_attack_graph.Risk.{
  sig, flag_attribute, Weights, Factor, no_factor, add_if, add_signal, clamp_score, Input,
  trust_has_guard, strong_trust_condition,
}
use identity_attack_graph.Risk.Score.Guards.{Assumable, AllGuarded, strong_trust_condition_lem}
use identity_attack_graph.Remediate.{copy_condition, guard_condition, guard_edge, guard_trust}

copy_condition-guards :
    (condition m : Attributes)
    → find "guards" (copy_condition condition m) ≡ find "guards" condition
unfolding copy_condition
copy_condition-guards condition [] = refl
copy_condition-guards condition ((k, v) ∷ m) = elim (Bool-cases (k == "guards")) [
  | inl same ↦ rw same (copy_condition-guards condition m)
  | inr other ↦ rw other (
      copy_condition-guards (insert k v condition) m
      ∙ rw (find-insert k "guards" v condition, other) refl)
]

pub guard_condition-guarded : (m : Attributes) → trust_has_guard (guard_condition m) ≡ true
unfolding guard_condition trust_has_guard find
guard_condition-guarded m =
    rw
      (
        copy_condition-guards (("guards", Any.strings ("mfa" ∷ "external_id" ∷ [])) ∷ []) m,
        trust_has_guard,
      )
      refl

guarded_all : (ts : List TrustEdge) → AllGuarded (map guard_edge ts)
unfolding guard_edge
guarded_all [] t m a = absurd (Memᴰ.not-nil m)
guarded_all (s ∷ ts) t (Memᴰ.head q) a =
    subst (λ (u : TrustEdge). trust_has_guard u.condition ≡ true) (sym q)
      (guard_condition-guarded s.condition)
guarded_all (s ∷ ts) t (Memᴰ.tail m) a = guarded_all ts t m a

still_there :
    (ts : List TrustEdge) (t : TrustEdge) → Memᴰ t ts → Memᴰ (guard_edge t) (map guard_edge ts)
still_there (s ∷ ts) t (Memᴰ.head q) = Memᴰ.head (ap guard_edge q)
still_there (s ∷ ts) t (Memᴰ.tail m) = Memᴰ.tail (still_there ts t m)
still_there [] t m = absurd (Memᴰ.not-nil m)

-- After `guardTrust` the trust of an identity that can be assumed counts as strongly conditioned.
pub guard_trust_strong :
    (x : Input) (t : TrustEdge)
    → Memᴰ t x.trust
    → Assumable t
    → strong_trust_condition (guard_trust x).trust ≡ true
unfolding guard_trust guard_edge
guard_trust_strong x t m a =
    (strong_trust_condition_lem (map guard_edge x.trust)).1
      ((guard_edge t, still_there x.trust t m, a), guarded_all x.trust)

silent_if :
    (on : Bool) (pts : ℤ) (name wanted : String) (f : Factor)
    → (name == wanted) ≡ false
    → contains f.signals wanted ≡ false
    → contains (add_if on pts name f).signals wanted ≡ false
unfolding add_if add_signal contains
silent_if false pts name wanted f other h = h
silent_if true pts name wanted f other h = elim (Bool-cases (ltb_ℤ (pos 0) pts)) [
  | inl listed ↦ rw listed (silent_concat f.signals h)
  | inr unlisted ↦ rw unlisted h
]
  where
    silent_concat :
        (ss : List String) → contains ss wanted ≡ false → contains (ss ++ name ∷ []) wanted ≡ false
    silent_concat [] h = rw other refl
    silent_concat (s ∷ ss) h = elim (Bool-cases (s == wanted)) [
      | inl same ↦ absurd (cc (rw same at h))
      | inr distinct ↦ rw distinct (silent_concat ss (rw distinct at h))
    ]

module _ {F : Type 0} (w : Weights F) where
  silent_edge :
      (f : Factor) (t : TrustEdge)
      → trust_has_guard t.condition ≡ true
      → contains f.signals "conditionless_assume" ≡ false
      → contains (add_trust_edge w f t).signals "conditionless_assume" ≡ false
  unfolding add_trust_edge
  silent_edge f t guarded h =
      let p = sig w "trust" in
      let open_trust = t.edge_type == "can_assume" && not (trust_has_guard t.condition) in
      let crosses = flag_attribute "cross_account" t.condition in
      let wild = flag_attribute "wildcard_principal" t.condition in
      let f₁ = add_if open_trust (p "conditionless_assume") "conditionless_assume" f in
      let f₂ = add_if crosses (p "cross_account") "cross_account" f₁ in
      let f₃ = add_if wild (p "wildcard_external") "wildcard_external" f₂ in
      silent_if (t.edge_type == "can_mint_token" || t.edge_type == "can_impersonate")
        (p "can_mint_or_impersonate") "can_mint_or_impersonate" "conditionless_assume" f₃ refl
        (silent_if wild (p "wildcard_external") "wildcard_external" "conditionless_assume" f₂ refl (
          silent_if crosses (p "cross_account") "cross_account" "conditionless_assume" f₁ refl (
            skipped open_trust (p "conditionless_assume")
              (closed (t.edge_type == "can_assume") guarded))))
    where
      closed : {g : Bool} (b : Bool) → g ≡ true → (b && not g) ≡ false
      closed b q = ground arith

      skipped :
          (on : Bool) (pts : ℤ)
          → on ≡ false
          → contains (add_if on pts "conditionless_assume" f).signals "conditionless_assume" ≡ false
      skipped on pts off = rw (off, add_if) h

  silent_edges :
      (f : Factor) (ts : List TrustEdge)
      → contains f.signals "conditionless_assume" ≡ false
      → contains (add_trust_edges w f (map guard_edge ts)).signals "conditionless_assume" ≡ false
  unfolding add_trust_edges
  silent_edges f [] h = h
  silent_edges f (t ∷ ts) h =
      silent_edges (add_trust_edge w f (guard_edge t)) ts
        (silent_edge f (guard_edge t) (unfold guard_edge in guard_condition-guarded t.condition) h)

  -- After `guardTrust` the trust factor no longer lists `conditionless_assume`, whatever the
  -- weights and the input.
  pub guard_trust_silences :
      (x : Input) → contains (trust w (guard_trust x)).signals "conditionless_assume" ≡ false
  unfolding trust guard_trust clamp_score
  guard_trust_silences x =
      silent_if (leb_ℤ (pos 2) x.trust_chain_depth) (sig w "trust" "chain_depth_2plus")
        "chain_depth_2plus" "conditionless_assume"
        (add_trust_edges w no_factor (map guard_edge x.trust)) refl
        (silent_edges no_factor x.trust (unfold contains in refl))
