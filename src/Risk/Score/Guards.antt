-- ===== src/Risk/Score/Guards.antt =====
-- When trust counts as strongly conditioned.
use mathlib.Core.List.Memᴰ
use text.Mathlib.TextEquality.{eq_iff}
use identity_attack_graph.Prelude.{
  String, ◌==◌, string_eq, ◌≡◌, ◌↔◌, ◌⊎◌, refl, sym, subst, Bool, true, false, List, [], ◌∷◌, Memᴰ,
  inl, inr, Bool-cases,
}
use identity_attack_graph.Models.Inventory.{TrustEdge}
use identity_attack_graph.Risk.{trust_has_guard, strong_from, strong_trust_condition}

abbrev pub Assumable : TrustEdge → Type 0
Assumable t = t.edge_type ≡ "can_assume"

abbrev pub AllGuarded : List TrustEdge → Type 0
AllGuarded ts = (t : TrustEdge) → Memᴰ t ts → Assumable t → trust_has_guard t.condition ≡ true

AllGuarded-tail : (t : TrustEdge) (ts : List TrustEdge) → AllGuarded (t ∷ ts) → AllGuarded ts
AllGuarded-tail t ts h s m = h s (Memᴰ.tail m)

not_both : {s : String} → s ≡ "can_assume" → (s == "can_assume") ≡ false → ⊥
not_both {s = s} h other = cc ((eq_iff s "can_assume").1 h, other)

pub strong_of_guarded :
    (assumable : Bool) (ts : List TrustEdge)
    → (assumable ≡ true) ⊎ ((t : TrustEdge) × Memᴰ t ts × Assumable t)
    → AllGuarded ts
    → strong_from assumable ts ≡ true
unfolding strong_from
strong_of_guarded assumable [] (inl h) g = h
strong_of_guarded assumable [] (inr (t, m, a)) g = absurd (Memᴰ.not-nil m)
strong_of_guarded assumable (t ∷ ts) some_edge g = elim (Bool-cases (t.edge_type == "can_assume")) [
  | inl opens ↦
      rw (opens, g t (Memᴰ.head refl) ((eq_iff t.edge_type "can_assume").0 opens))
        (strong_of_guarded true ts (inl refl) (AllGuarded-tail t ts g))
  | inr other ↦
      rw other (strong_of_guarded assumable ts (later other some_edge) (AllGuarded-tail t ts g))
]
  where
    later :
        (t.edge_type == "can_assume") ≡ false
        → (assumable ≡ true) ⊎ ((s : TrustEdge) × Memᴰ s (t ∷ ts) × Assumable s)
        → (assumable ≡ true) ⊎ ((s : TrustEdge) × Memᴰ s ts × Assumable s)
    later other (inl h) = inl h
    later other (inr (s, Memᴰ.head q, a)) = absurd (not_both (subst Assumable q a) other)
    later other (inr (s, Memᴰ.tail m, a)) = inr (s, m, a)

guarded_of_strong :
    (assumable : Bool) (ts : List TrustEdge)
    → strong_from assumable ts ≡ true
    → ((assumable ≡ true) ⊎ ((t : TrustEdge) × Memᴰ t ts × Assumable t)) × AllGuarded ts
unfolding strong_from
guarded_of_strong assumable [] h = (inl h, λ t m a. absurd (Memᴰ.not-nil m))
guarded_of_strong assumable (t ∷ ts) h = elim (Bool-cases (t.edge_type == "can_assume")) [
  | inl opens ↦ elim (Bool-cases (trust_has_guard t.condition)) [
    | inl guarded ↦
        let (_, g) = guarded_of_strong true ts (rw (opens, guarded) at h) in
        (
          inr (t, Memᴰ.head refl, (eq_iff t.edge_type "can_assume").0 opens),
          λ s m a. elim m [
            | Memᴰ.head q ↦
                subst (λ (u : TrustEdge). trust_has_guard u.condition ≡ true) (sym q) guarded
            | Memᴰ.tail k ↦ g s k a
          ],
        )
    | inr bare ↦ absurd (cc (rw (opens, bare) at h))
  ]
  | inr other ↦
      let (seen, g) = guarded_of_strong assumable ts (rw other at h) in
      (
        elim seen [ inl q ↦ inl q | inr (s, m, a) ↦ inr (s, Memᴰ.tail m, a) ],
        λ s m a. elim m [
          | Memᴰ.head q ↦ absurd (not_both (subst Assumable q a) other)
          | Memᴰ.tail k ↦ g s k a
        ],
      )
]

-- Trust is strongly conditioned exactly if some edge lets the identity be assumed, and every such
-- edge has a guard.
pub strong_trust_condition_lem :
    (ts : List TrustEdge)
    → (strong_trust_condition ts ≡ true)
      ↔ (((t : TrustEdge) × Memᴰ t ts × Assumable t) × AllGuarded ts)
unfolding strong_trust_condition
strong_trust_condition_lem ts = (
  λ h.
      let (seen, g) = guarded_of_strong false ts h in
      elim seen [ inl q ↦ absurd (cc q) | inr edge ↦ (edge, g) ],
  λ h. strong_of_guarded false ts (inr h.0) h.1,
)
