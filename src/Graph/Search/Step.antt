-- ===== src/Graph/Search/Step.antt =====
-- The loop over the edges of one node, and one round, keep the invariant.
use mathlib.Core.List.Memᴰ
use mathlib.Core.List.{append_assoc}
use identity_attack_graph.Prelude.{
  ℕ, suc, ◌+◌, ◌≤◌, ◌<◌, ◌≡◌, refl, ◌≢◌, nat_eq, true, false, List, [], ◌∷◌, ◌++◌, Memᴰ, arith, inl,
  inr, ⊎_elim, mem-All, sym, subst, ◌∙◌, ap, ◌⊎◌,
}
unfoldable use identity_attack_graph.Prelude.{contains}
use identity_attack_graph.Models.{Uuid}
use identity_attack_graph.Graph.{Edge, Graph}
use identity_attack_graph.Graph.Search.{Item, Search, Policy, next_item, offer}
use identity_attack_graph.Graph.Search.Walk.{Walk, step, Hop}
use identity_attack_graph.Graph.Search.Invariant.{Claim, Frontier, Tidy-concat, Distinct-concat}

pub contains-cons :
    (a v : ℕ) (xs : List ℕ) → contains (a ∷ xs) v ≡ true → (a ≡ v) ⊎ (contains xs v ≡ true)
unfolding contains
contains-cons a v xs h = ground arith

pub contains-cons_of : (a v : ℕ) (xs : List ℕ) → contains xs v ≡ true → contains (a ∷ xs) v ≡ true
unfolding contains
contains-cons_of a v xs h = ground arith

pub contains-cons_self : (a : ℕ) (xs : List ℕ) → contains (a ∷ xs) a ≡ true
unfolding contains
contains-cons_self a xs = ground arith

module _ {T A : Type 0} (p : Policy T A) where
  -- What `offer` does at an edge that leads to a new node.
  abbrev pub pushed : Item T → Search T A → Edge → Search T A
  pushed c s e = record s {
    visited = e.dst ∷ s.visited;
    queue = s.queue ++ next_item p c e ∷ [];
    acc = p.on_push s.acc (next_item p c e);
  }

  pub offer-pushed :
      (c : Item T) (s : Search T A) (e : Edge)
      → p.follows e.kind ≡ true
      → contains s.visited e.dst ≡ false
      → offer p c s e ≡ pushed c s e
  unfolding offer
  offer-pushed c s e h n = rw (h, n)

  pub offer_unfollowed :
      (c : Item T) (s : Search T A) (e : Edge) → p.follows e.kind ≡ false → offer p c s e ≡ s
  unfolding offer
  offer_unfollowed c s e h = rw h

  pub offer_visited :
      (c : Item T) (s : Search T A) (e : Edge) → contains s.visited e.dst ≡ true → offer p c s e ≡ s
  unfolding offer
  offer_visited c s e h = ground arith

module _ {T A : Type 0} {g : Graph} {p : Policy T A} (k : Claim g p) (start : Uuid) (max_hops : ℕ)
    (c : Item T) (done : List (Item T)) where
  -- The state after some edges of `c`: nothing that was pushed or visited is lost.
  pub record Grown (order : List (Item T)) (s s' : Search T A) : Type 0 where
    pub order' : List (Item T)
    pub frontier : Frontier k start max_hops c.hops done order' s'
    pub extends : (x : Item T) → Memᴰ x order → Memᴰ x order'
    pub keeps : (v : Uuid) → contains s.visited v ≡ true → contains s'.visited v ≡ true
    pub goes_on : s'.halted ≡ false

  pub Grown-self :
      (order : List (Item T)) (s : Search T A)
      → Frontier k start max_hops c.hops done order s
      → s.halted ≡ false
      → Grown order s s
  Grown-self order s f h = record {
    order' = order;
    frontier = f;
    extends = λ x m. m;
    keeps = λ v m. m;
    goes_on = h;
  }

  pub Grown-trans :
      (order : List (Item T)) (s t u : Search T A)
      → (a : Grown order s t) → Grown a.order' t u
      → Grown order s u
  Grown-trans order s t u a b = record {
    order' = b.order';
    frontier = b.frontier;
    extends = λ x m. b.extends x (a.extends x m);
    keeps = λ v m. b.keeps v (a.keeps v m);
    goes_on = b.goes_on;
  }

  module _ (order : List (Item T)) (s : Search T A)
      (f : Frontier k start max_hops c.hops done order s) (e : Edge) (hop : Hop g p.follows c.id e)
      (room : c.hops < max_hops) (walk : Walk g p.follows start c.hops c.id) (fine : k.Good c)
      (new : contains s.visited e.dst ≡ false) (running : s.halted ≡ false) where
    abbrev added : Item T
    added = record { id = e.dst; hops = c.hops + 1; trail = p.extend c.trail e }

    fresh : (y : Item T) → Memᴰ y order → y.id ≢ e.dst
    fresh y m q = cc (f.marked y m, new, ap (contains s.visited) q)

    -- A fact about the old entries and the new one is one about all.
    on_all :
        (P : Item T → Type 0)
        → ((x : Item T) → Memᴰ x order → P x)
        → P added
        → (x : Item T) → Memᴰ x (order ++ added ∷ [])
        → P x
    on_all P old last x m =
        ⊎_elim (old x) (λ q. subst P (sym (Memᴰ.eq_of_singleton q)) last)
          (Memᴰ.append_cases order m)

    pushed-Frontier : Frontier k start max_hops c.hops done (order ++ added ∷ []) (pushed p c s e)
    unfolding next_item
    pushed-Frontier = record {
      split = ap (λ l. l ++ added ∷ []) f.split ∙ append_assoc done s.queue (added ∷ []);
      tidy = Tidy-concat c.hops (suc c.hops) s.queue added f.tidy (omega arith) (omega arith);
      bounded = on_all (λ x. x.hops ≤ suc c.hops) f.bounded (omega arith);
      within = on_all (λ x. x.hops ≤ max_hops) f.within (omega arith);
      walks =
          on_all (λ x. Walk g p.follows start x.hops x.id) f.walks
            (let q : suc c.hops ≡ c.hops + 1 = omega arith in
              subst (λ n. Walk g p.follows start n e.dst) q (step e walk hop refl));
      good = on_all k.Good f.good (k.good_next c e fine hop);
      distinct = Distinct-concat order added f.distinct (mem-All _ order fresh);
      marked =
          on_all (λ x. contains (e.dst ∷ s.visited) x.id ≡ true)
            (λ x m. contains-cons_of e.dst x.id s.visited (f.marked x m))
            (contains-cons_self e.dst s.visited);
      seen = λ v h. elim (contains-cons e.dst v s.visited h) [
        | inl q ↦ (added, Memᴰ.append_right order (Memᴰ.head refl), q)
        | inr old ↦ let (x, m, q) = f.seen v old in (x, Memᴰ.append_left (added ∷ []) m, q)
      ];
      rooted = let (x, m, q, z) = f.rooted in (x, Memᴰ.append_left (added ∷ []) m, q, z);
      kept = subst (k.Kept done (order ++ added ∷ []) (p.on_push s.acc added)) (sym running) (
          k.keep_push done order s.acc added fresh (omega arith)
            (subst (k.Kept done order s.acc) running f.kept));
    }

    pub pushed-Grown : Grown order s (pushed p c s e)
    pushed-Grown = record {
      order' = order ++ added ∷ [];
      frontier = pushed-Frontier;
      extends = λ x m. Memᴰ.append_left (added ∷ []) m;
      keeps = λ v m. contains-cons_of e.dst v s.visited m;
      goes_on = running;
    }
