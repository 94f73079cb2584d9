-- ===== src/Graph/Search/Round.antt =====
-- One edge, the edges of one node, and one round.
use mathlib.Core.List.Memᴰ
use mathlib.Core.List.{append_assoc}
use identity_attack_graph.Prelude.{
  ℕ, suc, ◌≤◌, ◌<◌, ◌≡◌, refl, nat_eq, true, false, List, [], ◌∷◌, ◌++◌, Memᴰ, arith, inl, inr,
  ⊎_elim, sym, subst, Bool-cases, ◌∙◌, ap, ◌⊎◌, leb,
}
use identity_attack_graph.Prelude.{contains}
use identity_attack_graph.Models.{Uuid}
use identity_attack_graph.Graph.{Edge, Graph, out_of}
use identity_attack_graph.Graph.Search.{Item, Search, Policy, offer, scan, round}
use identity_attack_graph.Graph.Search.Walk.{Walk, Hop}
use identity_attack_graph.Graph.Search.Invariant.{
  Claim, Frontier, Closed, Inv, Tidy, Distinct, Tidy-raise, Distinct-before,
}
use identity_attack_graph.Graph.Search.Step.{
  Grown, Grown-self, Grown-trans, pushed-Grown, offer-pushed, offer_unfollowed, offer_visited,
  contains-cons_self,
}

module _ {T A : Type 0} {g : Graph} {p : Policy T A} (k : Claim g p) (start : Uuid) (max_hops : ℕ)
    (c : Item T) (done : List (Item T)) (room : c.hops < max_hops)
    (walk : Walk g p.follows start c.hops c.id) (fine : k.Good c) where
  -- Beside what is kept: the node of a followed edge is visited.
  abbrev Offered : List (Item T) → Search T A → Edge → Search T A → Type 0
  Offered order s e s' =
      Grown k start max_hops c done order s s'
      × (p.follows e.kind ≡ true → contains s'.visited e.dst ≡ true)

  offer-Offered :
      (order : List (Item T)) (s : Search T A) (e : Edge)
      → Frontier k start max_hops c.hops done order s
      → s.halted ≡ false
      → Memᴰ e (out_of g c.id)
      → Offered order s e (offer p c s e)
  offer-Offered order s e f running listed = elim (Bool-cases (p.follows e.kind)) [
    | inr other ↦
        rw (offer_unfollowed p c s e other)
          (Grown-self k start max_hops c done order s f running, λ h. cc)
    | inl followed ↦ elim (Bool-cases (contains s.visited e.dst)) [
      | inl old ↦
          rw (offer_visited p c s e old)
            (Grown-self k start max_hops c done order s f running, λ _. old)
      | inr new ↦ rw (offer-pushed p c s e followed new) (
        pushed-Grown k start max_hops c done order s f e
            (record { listed = listed; followed = followed }) room walk fine new running,
        λ _. contains-cons_self e.dst s.visited,
      )
    ]
  ]

  abbrev Scanned : List (Item T) → Search T A → List Edge → Search T A → Type 0
  Scanned order s es s' =
      Grown k start max_hops c done order s s'
      × ((e : Edge) → Memᴰ e es → p.follows e.kind ≡ true → contains s'.visited e.dst ≡ true)

  pub scan-Scanned :
      (order : List (Item T)) (s : Search T A) (es : List Edge)
      → Frontier k start max_hops c.hops done order s
      → s.halted ≡ false
      → ((e : Edge) → Memᴰ e es → Memᴰ e (out_of g c.id))
      → Scanned order s es (scan p c s es)
  unfolding scan
  scan-Scanned order s [] f running listed =
      (Grown-self k start max_hops c done order s f running, λ e m. absurd (Memᴰ.not-nil m))
  scan-Scanned order s (e ∷ es) f running listed =
      let (grown, first) = offer-Offered order s e f running (listed e (Memᴰ.head refl)) in
      let (later, rest) =
        scan-Scanned grown.order' (offer p c s e) es grown.frontier grown.goes_on
          (λ d m. listed d (Memᴰ.tail m)) in
      (
        Grown-trans k start max_hops c done order s (offer p c s e) (scan p c (offer p c s e) es)
            grown later,
        λ d m h. elim (Memᴰ.cases_cons m) [
          | inl q ↦ later.keeps d.dst (
              subst (λ (w : Edge). contains (offer p c s e).visited w.dst ≡ true) (sym q)
                (first (subst (λ (w : Edge). p.follows w.kind ≡ true) q h)))
          | inr t ↦ rest d t h
        ],
      )

module _ {T A : Type 0} {g : Graph} {p : Policy T A} (k : Claim g p) (start : Uuid) (max_hops : ℕ)
    (order done : List (Item T)) (s : Search T A) (i : Inv k start max_hops done order s)
    (c : Item T) (rest : List (Item T)) (e : s.queue ≡ c ∷ rest) (running : s.halted ≡ false) where
  open i use {lo, frontier, closed}

  order-split : order ≡ done ++ c ∷ rest
  order-split = frontier.split ∙ ap (λ q. done ++ q) e

  listed : Memᴰ c order
  listed = subst (Memᴰ c) (sym order-split) (Memᴰ.append_right done (Memᴰ.head refl))

  abbrev popped : Search T A
  popped = record s { queue = rest; acc = (p.on_pop s.acc c).0; halted = (p.on_pop s.acc c).1 }

  popped-Frontier : Frontier k start max_hops c.hops (done ++ c ∷ []) order popped
  popped-Frontier =
      let tidy = subst (Tidy lo (suc lo)) e frontier.tidy in
      record {
        split = order-split ∙ sym (append_assoc done (c ∷ []) rest);
        tidy =
            Tidy-raise c.hops c.hops (suc lo) (suc c.hops) rest (omega arith) (omega arith) tidy.2;
        bounded = λ x m. omega (arith, frontier.bounded x m);
        within = frontier.within;
        walks = frontier.walks;
        good = frontier.good;
        distinct = frontier.distinct;
        marked = frontier.marked;
        seen = frontier.seen;
        rooted = frontier.rooted;
        kept =
            k.keep_pop done order s.acc c
              (Distinct-before done c rest (subst Distinct order-split frontier.distinct))
              (frontier.good c listed) (subst (k.Kept done order s.acc) running frontier.kept);
      }

  -- An entry of `done ++ c ∷ []` is an old one or `c`.
  done_cases : (x : Item T) → Memᴰ x (done ++ c ∷ []) → Memᴰ x done ⊎ (x ≡ c)
  done_cases x m = ⊎_elim inl (λ l. inr (Memᴰ.eq_of_singleton l)) (Memᴰ.append_cases done m)

  -- What is closed for the old entries, and for `c` too, is closed for all that are done.
  Closed-popped :
      (order' : List (Item T))
      → ((x : Item T) → Memᴰ x order → Memᴰ x order')
      → ((d : Edge)
          → c.hops < max_hops
          → Hop g p.follows c.id d
          → (y : Item T) × Memᴰ y order' × (y.id ≡ d.dst) × (y.hops ≤ suc c.hops))
      → Closed k start max_hops max_hops (done ++ c ∷ []) order'
  Closed-popped order' extends here x d m bound room hop = elim (done_cases x m) [
    | inl old ↦
        let (y, at, q, near) = closed running x d old bound room hop in (y, extends y at, q, near)
    | inr q ↦
        let (y, at, same, near) =
          here d (subst (λ (w : Item T). w.hops < max_hops) q room)
            (subst (λ (w : Item T). Hop g p.follows w.id d) q hop) in
        (y, at, same, subst (λ (w : Item T). y.hops ≤ suc w.hops) (sym q) near)
  ]

  -- The entries below `c` are old ones, whose edges were all seen.
  Closed-below :
      (order' : List (Item T))
      → ((x : Item T) → Memᴰ x order → Memᴰ x order')
      → Closed k start max_hops c.hops (done ++ c ∷ []) order'
  Closed-below order' extends x d m bound room hop = elim (done_cases x m) [
    | inl old ↦
        let (y, at, q, near) = closed running x d old room room hop in (y, extends y at, q, near)
    | inr q ↦ absurd (omega (arith, ap (λ (w : Item T). w.hops) q))
  ]

  abbrev After : Search T A → Type 0
  After s' = (order' : List (Item T)) × Inv k start max_hops (done ++ c ∷ []) order' s'

  scanned : c.hops < max_hops → popped.halted ≡ false → After (scan p c popped (out_of g c.id))
  scanned room on =
      let (grown, covered) =
        scan-Scanned k start max_hops c (done ++ c ∷ []) room (frontier.walks c listed)
          (frontier.good c listed) order popped (out_of g c.id) popped-Frontier on (λ d m. m) in
      (
        grown.order',
        record {
          lo = c.hops;
          frontier = grown.frontier;
          closed = λ _. Closed-popped grown.order' grown.extends (λ d _ hop.
              let (y, at, q) = grown.frontier.seen d.dst (covered d hop.listed hop.followed) in
              (y, at, q, grown.frontier.bounded y at));
          below = Closed-below grown.order' grown.extends;
        },
      )

  round_stop : (p.on_pop s.acc c).1 ≡ true → round p g max_hops s c rest ≡ popped
  unfolding round
  round_stop h = rw h

  round_far :
      (p.on_pop s.acc c).1 ≡ false
      → leb max_hops c.hops ≡ true
      → round p g max_hops s c rest ≡ popped
  unfolding round
  round_far h far = rw (h, far)

  round_near :
      (p.on_pop s.acc c).1 ≡ false
      → leb max_hops c.hops ≡ false
      → round p g max_hops s c rest ≡ scan p c popped (out_of g c.id)
  unfolding round
  round_near h near = rw (h, near)

  -- Without a look at the edges the invariant holds if the loop breaks, or `c` is too far.
  unscanned : (popped.halted ≡ false → max_hops ≤ c.hops) → After popped
  unscanned h = (
    order,
    record {
      lo = c.hops;
      frontier = popped-Frontier;
      closed = λ on. Closed-popped order (λ x m. m) (λ d room hop. absurd (omega (arith, h on)));
      below = Closed-below order (λ x m. m);
    },
  )

  pub round-Inv : After (round p g max_hops s c rest)
  round-Inv = elim (Bool-cases (p.on_pop s.acc c).1) [
    | inl stop ↦ rw (round_stop stop) (unscanned (λ on. cc))
    | inr on ↦ elim (Bool-cases (leb max_hops c.hops)) [
      | inl far ↦ rw (round_far on far) (unscanned (λ _. ground arith))
      | inr near ↦ rw (round_near on near) (scanned (ground arith) on)
    ]
  ]
