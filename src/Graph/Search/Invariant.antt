-- ===== src/Graph/Search/Invariant.antt =====
-- The state of a search between two rounds, as seen from the entries that were pushed so far
-- (`order`, oldest first) and those that were popped (`done`).
use identity_attack_graph.Prelude.{
  ℕ, suc, ◌≤◌, ◌<◌, ◌≡◌, refl, ◌≢◌, nat_eq, Bool, true, false, List, [], ◌∷◌, ◌++◌, Memᴰ, arith,
  ⊎_elim, inl, inr, All, All-append, All-mem, sym, subst,
}
use mathlib.Core.List.Memᴰ
use identity_attack_graph.Prelude.{contains}
use identity_attack_graph.Models.{Uuid}
use identity_attack_graph.Graph.{Edge, Graph}
use identity_attack_graph.Graph.Search.{Item, Search, Policy, next_item}
use identity_attack_graph.Graph.Search.Walk.{Walk, Hop}

-- Hops that never fall along the queue, between two bounds.
abbrev pub Tidy : {T : Type 0} → ℕ → ℕ → List (Item T) → Type 0
Tidy lo hi [] = Unit
Tidy lo hi (x ∷ xs) = (lo ≤ x.hops) × (x.hops ≤ hi) × Tidy x.hops hi xs

-- No two entries are for the same node.
abbrev pub Distinct : {T : Type 0} → List (Item T) → Type 0
Distinct [] = Unit
Distinct (x ∷ xs) = All (λ y. x.id ≢ y.id) xs × Distinct xs

-- What a client says of entries and of its record, and why its policy keeps it.
pub record Claim {T A : Type 0} (g : Graph) (p : Policy T A) : Type 1 where
  pub Good : Item T → Type 0
  pub Kept : List (Item T) → List (Item T) → A → Bool → Type 0
  pub good_next : (c : Item T) (e : Edge) → Good c → Hop g p.follows c.id e → Good (next_item p c e)
  pub keep_push :
      (done order : List (Item T)) (a : A) (x : Item T)
      → ((y : Item T) → Memᴰ y order → y.id ≢ x.id)
      → 0 < x.hops
      → Kept done order a false
      → Kept done (order ++ x ∷ []) (p.on_push a x) false
  pub keep_pop :
      (done order : List (Item T)) (a : A) (x : Item T)
      → ((y : Item T) → Memᴰ y done → y.id ≢ x.id)
      → Good x
      → Kept done order a false
      → Kept (done ++ x ∷ []) order (p.on_pop a x).0 (p.on_pop a x).1

module _ {T A : Type 0} {g : Graph} {p : Policy T A} (k : Claim g p) (start : Uuid)
    (max_hops : ℕ) where
  pub record Frontier (lo : ℕ) (done order : List (Item T)) (s : Search T A) : Type 0 where
    pub split : order ≡ done ++ s.queue
    pub tidy : Tidy lo (suc lo) s.queue
    pub bounded : (x : Item T) → Memᴰ x order → x.hops ≤ suc lo
    pub within : (x : Item T) → Memᴰ x order → x.hops ≤ max_hops
    pub walks : (x : Item T) → Memᴰ x order → Walk g p.follows start x.hops x.id
    pub good : (x : Item T) → Memᴰ x order → k.Good x
    pub distinct : Distinct order
    pub marked : (x : Item T) → Memᴰ x order → contains s.visited x.id ≡ true
    pub seen : (v : Uuid) → contains s.visited v ≡ true → (x : Item T) × Memᴰ x order × (x.id ≡ v)
    pub rooted : (x : Item T) × Memᴰ x order × (x.id ≡ start) × (x.hops ≡ 0)
    pub kept : k.Kept done order s.acc s.halted

  -- Every edge that leaves a node of `done`, below a bound on the hops, leads to a pushed node, one
  -- hop further at most.
  abbrev pub Closed : ℕ → List (Item T) → List (Item T) → Type 0
  Closed bound done order =
      (x : Item T) (e : Edge)
      → Memᴰ x done
      → x.hops < bound
      → x.hops < max_hops
      → Hop g p.follows x.id e
      → (y : Item T) × Memᴰ y order × (y.id ≡ e.dst) × (y.hops ≤ suc x.hops)

  pub record Inv (done order : List (Item T)) (s : Search T A) : Type 0 where
    pub lo : ℕ
    pub frontier : Frontier lo done order s
    pub closed : s.halted ≡ false → Closed max_hops done order
    pub below : Closed lo done order

module _ {T : Type 0} where
  pub Tidy-raise :
      (lo lo' hi hi' : ℕ) (xs : List (Item T))
      → lo' ≤ lo
      → hi ≤ hi'
      → Tidy lo hi xs
      → Tidy lo' hi' xs
  Tidy-raise lo lo' hi hi' [] h h' t = tt
  Tidy-raise lo lo' hi hi' (x ∷ xs) h h' t =
      (omega arith, omega arith, Tidy-raise x.hops x.hops hi hi' xs (omega arith) h' t.2)

  pub Tidy-lower :
      (lo hi : ℕ) (xs : List (Item T)) → Tidy lo hi xs → {x : Item T} → Memᴰ x xs → lo ≤ x.hops
  Tidy-lower lo hi [] t m = absurd (Memᴰ.not-nil m)
  Tidy-lower lo hi (y ∷ xs) t {x} m = elim (Memᴰ.cases_cons m) [
    | inl q ↦ subst (λ (w : Item T). lo ≤ w.hops) (sym q) t.0
    | inr later ↦ omega (arith, Tidy-lower y.hops hi xs t.2 later)
  ]

  pub Tidy-concat :
      (lo hi : ℕ) (xs : List (Item T)) (x : Item T)
      → Tidy lo hi xs
      → x.hops ≡ hi
      → lo ≤ hi
      → Tidy lo hi (xs ++ x ∷ [])
  Tidy-concat lo hi [] x t e h = (omega arith, omega arith, tt)
  Tidy-concat lo hi (y ∷ xs) x t e h = (t.0, t.1, Tidy-concat y.hops hi xs x t.2 e t.1)

  pub Distinct-concat :
      (xs : List (Item T)) (x : Item T)
      → Distinct xs
      → All (λ y. y.id ≢ x.id) xs
      → Distinct (xs ++ x ∷ [])
  Distinct-concat [] x d h = (tt, tt)
  Distinct-concat (y ∷ xs) x d h =
      (All-append _ xs (x ∷ []) d.0 (h.0, tt), Distinct-concat xs x d.1 h.1)

  -- An entry of a list without repetition differs from all that stand before it.
  pub Distinct-before :
      (xs : List (Item T)) (x : Item T) (ys : List (Item T))
      → Distinct (xs ++ x ∷ ys)
      → (y : Item T) → Memᴰ y xs
      → y.id ≢ x.id
  Distinct-before [] x ys d y m = absurd (Memᴰ.not-nil m)
  Distinct-before (z ∷ xs) x ys d y m =
      ⊎_elim
        (λ e.
          subst (λ (w : Item T). w.id ≢ x.id) (sym e)
            (All-mem (λ w. z.id ≢ w.id) (xs ++ x ∷ ys) d.0 (Memᴰ.append_right xs (Memᴰ.head refl))))
        (Distinct-before xs x ys d.1 y) (Memᴰ.cases_cons m)

  -- Of the entries for one node there is but one.
  pub Distinct-eq :
      (xs : List (Item T))
      → Distinct xs
      → (x y : Item T) → Memᴰ x xs
      → Memᴰ y xs
      → x.id ≡ y.id
      → x.hops ≡ y.hops
  Distinct-eq [] d x y m m' q = absurd (Memᴰ.not-nil m)
  Distinct-eq (z ∷ xs) d x y m m' q = elim (Memᴰ.cases_cons m) [
    | inl e ↦ elim (Memᴰ.cases_cons m') [ inl e' ↦ cc | inr t' ↦ absurd (All-mem _ xs d.0 t' (cc)) ]
    | inr t ↦ elim (Memᴰ.cases_cons m') [
      | inl e' ↦ absurd (All-mem _ xs d.0 t (cc))
      | inr t' ↦ Distinct-eq xs d.1 x y t t' q
    ]
  ]
