-- ===== src/Graph/BlastRadius/AnyOrder.antt =====
-- The order in which `range` delivers a map does not change the blast radius.
use mathlib.Core.List.{Perm, Permᴰ}
use mathlib.Core.Logic.{∥∥₁_elim}
use mathlib.Core.Path.{ap₂}
use identity_attack_graph.Prelude.{
  ℕ, ◌+◌, ◌==◌, string_eq, ◌≡◌, refl, ◌∙◌, ap, true, ◌&&◌, ◌||◌, List, foldl, arith, if◌then◌else◌,
  some, none, Option-cases, inl, inr,
}
use identity_attack_graph.Prelude.Int.{pos, negsuc, ltb_ℤ, beq_ℤ}
use identity_attack_graph.Models.{Uuid, crit_high, crit_crown_jewel}
use identity_attack_graph.Graph.{Graph, Node, node, is_privileged}
use identity_attack_graph.Graph.BlastRadius.{BlastRadius, no_radius, roll_node, roll, roll_up}

-- What one node adds to the radius.
pub data Effect : Type 0 where
  nothing plain high admin : Effect
  crown : ℕ → Effect

unfoldable pub apply : Effect → BlastRadius → BlastRadius
apply nothing br = br
apply plain br = record br { reachable_resources = br.reachable_resources + 1 }
apply high br = record br {
  reachable_resources = br.reachable_resources + 1;
  high_crit_count = br.high_crit_count + 1;
}
apply admin br = record br { reaches_admin = true }
apply (crown hops) br = record br {
  reachable_resources = br.reachable_resources + 1;
  crown_jewel_count = br.crown_jewel_count + 1;
  nearest_crown_jewel =
      if beq_ℤ br.nearest_crown_jewel (negsuc 0) || ltb_ℤ (pos hops) br.nearest_crown_jewel
      then pos hops
      else br.nearest_crown_jewel;
}

unfoldable pub effect_of : Node → ℕ → Effect
effect_of n hops =
    if n.kind == "resource"
    then (if n.criticality == crit_crown_jewel
        then crown hops
        else if n.criticality == crit_high
        then high
        else plain)
    else if n.kind == "role" && is_privileged n
    then admin
    else nothing

unfoldable pub effect : Graph → Uuid × ℕ → Effect
effect g (id, hops) = elim (node g id) [ none ↦ nothing | some n ↦ effect_of n hops ]

roll_node-apply :
    (br : BlastRadius) (n : Node) (hops : ℕ) → roll_node br n hops ≡ apply (effect_of n hops) br
unfolding roll_node apply effect_of
roll_node-apply br n hops = ground arith

pub roll-apply : (g : Graph) (br : BlastRadius) (x : Uuid × ℕ) → roll g br x ≡ apply (effect g x) br
unfolding roll effect apply
roll-apply g br (id, hops) = elim (Option-cases (node g id)) [
  | inl absent ↦ rw (absent, roll, effect)
  | inr (n, present) ↦ rw (present, roll, effect) (roll_node-apply br n hops)
]

apply_comm : (x y : Effect) (br : BlastRadius) → apply x (apply y br) ≡ apply y (apply x br)
unfolding apply
apply_comm nothing y br = refl
apply_comm x y br = ground arith

module _ (g : Graph) where
  roll_comm : (br : BlastRadius) (x y : Uuid × ℕ) → roll g (roll g br x) y ≡ roll g (roll g br y) x
  roll_comm br x y = simp (roll-apply) (apply_comm (effect g y) (effect g x) br)

  foldl-permᴰ :
      (br : BlastRadius) {xs ys : List (Uuid × ℕ)}
      → Permᴰ xs ys
      → foldl (roll g) br xs ≡ foldl (roll g) br ys
  foldl-permᴰ br Permᴰ.nil = refl
  foldl-permᴰ br (Permᴰ.cons {a = x} {l₂ = ys} q p) =
      foldl-permᴰ (roll g br x) p ∙ ap (λ w. foldl (roll g) (roll g br w) ys) q
  foldl-permᴰ br (Permᴰ.swap {a = x} {b = y} {l = l} q q') =
      ap (λ w. foldl (roll g) w l) (roll_comm br x y ∙ ap₂ (λ v w. roll g (roll g br v) w) q' q)
  foldl-permᴰ br (Permᴰ.trans p p') = foldl-permᴰ br p ∙ foldl-permᴰ br p'

  BlastRadius-set : IsSet BlastRadius
  BlastRadius-set = hlevel

  -- Two orders of the same entries give one blast radius: the random order in which `range`
  -- delivers the map of `Reachable` is not seen.
  pub roll_up_any_order : (xs ys : List (Uuid × ℕ)) → Perm xs ys → roll_up g xs ≡ roll_up g ys
  unfolding roll_up
  roll_up_any_order xs ys p = ∥∥₁_elim p (BlastRadius-set _ _) (foldl-permᴰ no_radius)
