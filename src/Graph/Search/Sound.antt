-- ===== src/Graph/Search/Sound.antt =====
-- The whole search: what holds of the entries that it pops.
use mathlib.Core.List.Memᴰ
use identity_attack_graph.Prelude.{
  ℕ, zero, suc, ◌≤◌, ◌≡◌, refl, nat_eq, true, false, List, [], ◌∷◌, ◌++◌, Memᴰ, arith, inl, inr,
  subst, Bool-cases, sym, List-cases, ◌⊎◌,
}
use identity_attack_graph.Prelude.{contains}
use identity_attack_graph.Models.{Uuid}
use identity_attack_graph.Graph.{Graph}
use identity_attack_graph.Graph.Search.{
  Item, Search, Policy, round, run, start_search, enough_rounds,
}
use identity_attack_graph.Graph.Search.Termination.{start_ends}
use identity_attack_graph.Graph.Search.Walk.{Walk, here}
use identity_attack_graph.Graph.Search.Invariant.{Claim, Inv}
use identity_attack_graph.Graph.Search.Round.{round-Inv}

module _ {T A : Type 0} {g : Graph} {p : Policy T A} (k : Claim g p) (start : Uuid)
    (max_hops : ℕ) where
  abbrev Reached : Search T A → Type 0
  Reached s = (done : List (Item T)) × (order : List (Item T)) × Inv k start max_hops done order s

  pub run-Inv :
      (fuel : ℕ) (done order : List (Item T)) (s : Search T A)
      → Inv k start max_hops done order s
      → Reached (run p g max_hops fuel s)
  unfolding run
  run-Inv zero done order s i = (done, order, i)
  run-Inv (suc fuel) done order s i = elim (Bool-cases s.halted) [
    | inl stopped ↦ rw (stopped, run) (done, order, i)
    | inr on ↦ elim (List-cases s.queue) [
      | inl empty ↦ rw (on, empty, run) (done, order, i)
      | inr (c, rest, e) ↦
          let (order', i') = round-Inv k start max_hops order done s i c rest e on in
          rw (on, e, run) (run-Inv fuel (done ++ c ∷ []) order' (round p g max_hops s c rest) i')
    ]
  ]

  module _ (t : T) (a : A) where
    abbrev root : Item T
    root = record { id = start; hops = 0; trail = t }

    pub start-Inv :
        k.Good root
        → k.Kept [] (root ∷ []) a false
        → Inv k start max_hops [] (root ∷ []) (start_search p start t a)
    unfolding start_search contains
    start-Inv good kept = record {
      lo = 0;
      frontier = record {
        split = refl;
        tidy = omega arith;
        bounded =
            λ x m. subst (λ (w : Item T). w.hops ≤ 1) (sym (Memᴰ.eq_of_singleton m)) (omega arith);
        within = λ x m.
            subst (λ (w : Item T). w.hops ≤ max_hops) (sym (Memᴰ.eq_of_singleton m)) (omega arith);
        walks = λ x m.
            subst (λ (w : Item T). Walk g p.follows start w.hops w.id)
              (sym (Memᴰ.eq_of_singleton m)) here;
        good = λ x m. subst k.Good (sym (Memᴰ.eq_of_singleton m)) good;
        distinct = (tt, tt);
        marked = λ x m.
            subst (λ (w : Item T). contains (start ∷ []) w.id ≡ true) (sym (Memᴰ.eq_of_singleton m))
              (ground arith);
        seen = λ v h. (root, Memᴰ.head refl, ground arith);
        rooted = (root, Memᴰ.head refl, refl, refl);
        kept = kept;
      };
      closed = λ _ x e m. absurd (Memᴰ.not-nil m);
      below = λ x e m. absurd (Memᴰ.not-nil m);
    }

    abbrev pub whole_run : Search T A
    whole_run = run p g max_hops (enough_rounds g) (start_search p start t a)

    -- At its end a search has broken off, or nothing waits in its queue.
    pub record Finished : Type 0 where
      pub done : List (Item T)
      pub order : List (Item T)
      pub inv : Inv k start max_hops done order whole_run
      pub ended : (whole_run.queue ≡ []) ⊎ (whole_run.halted ≡ true)

    pub finishes : k.Good root → k.Kept [] (root ∷ []) a false → Finished
    finishes good kept =
        let (done, order, inv) =
          run-Inv (enough_rounds g) [] (root ∷ []) (start_search p start t a)
            (start-Inv good kept) in
        record { done = done; order = order; inv = inv; ended = start_ends p g max_hops start t a }
