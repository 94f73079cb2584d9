-- ===== src/Graph/Search/Termination.antt =====
-- The queue loop ends: `enough_rounds` rounds empty the queue, or the loop has broken off.
use mathlib.Core.List.Memᴰ
use identity_attack_graph.Prelude.{
  ℕ, zero, suc, ◌+◌, ◌≤◌, ◌<◌, ◌≡◌, refl, nat_eq, true, false, List, [], ◌∷◌, Memᴰ, arith, inl, inr,
  Bool-cases, sym, ap, ◌∙◌, List-cases, length, length-append, ◌⊎◌, if◌then◌else◌, ◌==◌,
}
unfoldable use identity_attack_graph.Prelude.{contains}
use identity_attack_graph.Prelude.Map.{Map, find_or, find_or-cons}
use identity_attack_graph.Models.{Uuid}
use identity_attack_graph.Graph.{Edge, Graph, out_of}
use identity_attack_graph.Graph.Search.{
  Item, Search, Policy, next_item, offer, scan, round, run, start_search, edge_lists, enough_rounds,
}
use identity_attack_graph.Graph.Search.Step.{
  offer-pushed, offer_unfollowed, offer_visited, contains-cons_self, contains-cons_of,
}

-- The edges that lead to a node which is not visited.
pub unseen : List Uuid → List Edge → ℕ
unseen vs [] = 0
unseen vs (e ∷ es) = if contains vs e.dst then unseen vs es else suc (unseen vs es)

unseen-le-length : (vs : List Uuid) (es : List Edge) → unseen vs es ≤ length es
unfolding unseen
unseen-le-length vs [] = omega arith
unseen-le-length vs (e ∷ es) = ground (arith, unseen-le-length vs es)

unseen_mono : (d : Uuid) (vs : List Uuid) (es : List Edge) → unseen (d ∷ vs) es ≤ unseen vs es
unfolding unseen
unseen_mono d vs [] = omega arith
unseen_mono d vs (e ∷ es) = ground (arith, unseen_mono d vs es, contains-cons_of d e.dst vs)

unseen_falls :
    (d : Uuid) (vs : List Uuid) (es : List Edge) (e : Edge)
    → Memᴰ e es
    → e.dst ≡ d
    → contains vs d ≡ false
    → unseen (d ∷ vs) es < unseen vs es
unfolding unseen
unseen_falls d vs [] e m q new = absurd (Memᴰ.not-nil m)
unseen_falls d vs (x ∷ es) e m q new = elim (Memᴰ.cases_cons m) [
  | inl same ↦
      let at : x.dst ≡ d = sym (ap (λ (w : Edge). w.dst) same) ∙ q in
      rw (at, contains-cons_self d vs, new) (omega (arith, unseen_mono d vs es))
  | inr later ↦ ground (arith, unseen_falls d vs es e later q new, contains-cons_of d x.dst vs)
]

find_or-listed :
    (u : Uuid) (m : Map Uuid (List Edge)) {e : Edge}
    → Memᴰ e (find_or [] u m)
    → Memᴰ e (edge_lists m)
unfolding find_or edge_lists
find_or-listed u [] m = absurd (Memᴰ.not-nil m)
find_or-listed u ((j, es) ∷ rest) {e} m = elim (Bool-cases (j == u)) [
  | inl here ↦ Memᴰ.append_left (edge_lists rest) (rw (find_or-cons, here) at m)
  | inr other ↦ Memᴰ.append_right es (find_or-listed u rest (rw (find_or-cons, other) at m))
]

pub out_of-listed :
    (g : Graph) (u : Uuid) {e : Edge} → Memᴰ e (out_of g u) → Memᴰ e (edge_lists g.out)
unfolding out_of
out_of-listed g u m = find_or-listed u g.out m

module _ {T A : Type 0} (p : Policy T A) (g : Graph) (max_hops : ℕ) where
  abbrev work : Search T A → ℕ
  work s = length s.queue + unseen s.visited (edge_lists g.out)

  offer-work :
      (c : Item T) (s : Search T A) (e : Edge)
      → Memᴰ e (edge_lists g.out)
      → work (offer p c s e) ≤ work s
  offer-work c s e m = elim (Bool-cases (p.follows e.kind)) [
    | inr other ↦ rw (offer_unfollowed p c s e other) (omega arith)
    | inl followed ↦ elim (Bool-cases (contains s.visited e.dst)) [
      | inl old ↦ rw (offer_visited p c s e old) (omega arith)
      | inr new ↦ rw (offer-pushed p c s e followed new) (
          omega (
            arith,
            length-append s.queue (next_item p c e ∷ []),
            unseen_falls e.dst s.visited (edge_lists g.out) e m refl new,
          ))
    ]
  ]

  scan-work :
      (c : Item T) (s : Search T A) (es : List Edge)
      → ((e : Edge) → Memᴰ e es → Memᴰ e (edge_lists g.out))
      → work (scan p c s es) ≤ work s
  unfolding scan
  scan-work c s [] listed = omega arith
  scan-work c s (e ∷ es) listed = omega (
    arith,
    offer-work c s e (listed e (Memᴰ.head refl)),
    scan-work c (offer p c s e) es (λ d m. listed d (Memᴰ.tail m)),
  )

  round-work :
      (s : Search T A) (c : Item T) (rest : List (Item T))
      → work (round p g max_hops s c rest) ≤ length rest + unseen s.visited (edge_lists g.out)
  unfolding round
  round-work s c rest = ground (
    arith,
    scan-work c
        (record s { queue = rest; acc = (p.on_pop s.acc c).0; halted = (p.on_pop s.acc c).1 })
        (out_of g c.id) (λ d m. out_of-listed g c.id m),
  )

  -- With as much fuel as there is work, a search ends with an empty queue or at its break.
  pub run_ends :
      (fuel : ℕ) (s : Search T A)
      → work s ≤ fuel
      → ((run p g max_hops fuel s).queue ≡ []) ⊎ ((run p g max_hops fuel s).halted ≡ true)
  unfolding run
  run_ends zero s h = elim (List-cases s.queue) [
    | inl empty ↦ inl empty
    | inr (c, rest, e) ↦ absurd (omega (arith, ap length e))
  ]
  run_ends (suc fuel) s h = elim (Bool-cases s.halted) [
    | inl stopped ↦ rw (stopped, run) (inr stopped)
    | inr on ↦ elim (List-cases s.queue) [
      | inl empty ↦ rw (on, empty, run) (inl empty)
      | inr (c, rest, e) ↦
          rw (on, e, run)
            (run_ends fuel (round p g max_hops s c rest)
              (omega (arith, round-work s c rest, ap length e)))
    ]
  ]

  -- From its first state the loop has emptied its queue, or has broken off, within the rounds that
  -- `enough_rounds` gives, whatever the policy, the graph and the bound on hops.
  pub start_ends :
      (start : Uuid) (t : T) (a : A)
      → let s = run p g max_hops (enough_rounds g) (start_search p start t a) in
        (s.queue ≡ []) ⊎ (s.halted ≡ true)
  unfolding enough_rounds start_search
  start_ends start t a =
      run_ends (enough_rounds g) (start_search p start t a)
        (omega (arith, unseen-le-length (start ∷ []) (edge_lists g.out)))
