-- ===== src/Prelude/Map.antt =====
-- A Go map as an association list in which a key stands once: the order of the list is one order
-- in which `range` may deliver the entries.
use mathlib.Core.Path.{◌≡◌, refl, ap, sym, ◌∙◌}
use mathlib.Core.Bool.{false}
use mathlib.Core.Logic.{◌≢◌, ◌⊎◌, inl, inr, ⊎_elim}
use mathlib.Core.Option.{Option, none, some}
use mathlib.Core.List.{List, [], ◌∷◌, ◌++◌, Memᴰ}
use mathlib.Core.List.Memᴰ
use native.Mathlib.Omega.{arith}
use identity_attack_graph.Prelude.Tests.{Eq, ◌==◌, if◌then◌else◌, beq_ne, Bool-cases}

abbrev pub Map {ℓ κ} : Type ℓ → Type κ → Type (ℓ ⊔ κ)
Map K V = List (K × V)

module _ {ℓ κ} {K : Type ℓ} {V : Type κ} ⦃e : Eq K⦄ where
  -- `v, ok := m[k]`
  unfoldable pub find : K → Map K V → Option V
  find k [] = none
  find k ((j, v) ∷ m) = if j == k then some v else find k m

  -- `m[k] = v`
  unfoldable pub insert : K → V → Map K V → Map K V
  insert k v [] = (k, v) ∷ []
  insert k v ((j, w) ∷ m) = if j == k then (k, v) ∷ m else (j, w) ∷ insert k v m

  -- `m[k]`, where the zero value stands for a missing entry
  unfoldable pub find_or : V → K → Map K V → V
  unfolding find
  find_or d k m = elim (find k m) [ some v ↦ v | none ↦ d ]

  pub find-insert :
      (k j : K) (v : V) (m : Map K V)
      → find j (insert k v m) ≡ (if k == j then some v else find j m)
  unfolding find insert
  find-insert k j v [] = refl
  find-insert k j v ((i, w) ∷ m) =
      ground (arith, e.beq_iff k j, e.beq_iff i k, e.beq_iff i j, find-insert k j v m)

  pub find_or-insert :
      (d : V) (k j : K) (v : V) (m : Map K V)
      → find_or d j (insert k v m) ≡ (if k == j then v else find_or d j m)
  unfolding find_or
  find_or-insert d k j v m = ground (arith, find-insert k j v m)

  pub find_or-cons :
      (d : V) (k j : K) (v : V) (m : Map K V)
      → find_or d k ((j, v) ∷ m) ≡ (if j == k then v else find_or d k m)
  unfolding find_or
  find_or-cons d k j v m = ground arith

  -- No key stands twice.
  abbrev pub Keyed : Map K V → Type (ℓ ⊔ κ)
  Keyed [] = Unit
  Keyed ((k, v) ∷ m) = ((w : K × V) → Memᴰ w m → w.0 ≢ k) × Keyed m

  -- A new key is written behind the others.
  pub insert_fresh :
      (k : K) (v : V) (m : Map K V)
      → ((w : K × V) → Memᴰ w m → w.0 ≢ k)
      → insert k v m ≡ m ++ (k, v) ∷ []
  unfolding insert
  insert_fresh k v [] h = refl
  insert_fresh k v ((j, w) ∷ m) h =
      rw (beq_ne j k (h (j, w) (Memᴰ.head refl)))
        (ap (◌∷◌ (j, w)) (insert_fresh k v m (λ x at. h x (Memᴰ.tail at))))

  pub find-mem : (k : K) (v : V) (m : Map K V) → find k m ≡ some v → Memᴰ (k, v) m
  unfolding find
  find-mem k v [] h = cc
  find-mem k v ((j, w) ∷ m) h = elim (Bool-cases (j == k)) [
    | inl here ↦ Memᴰ.head (let q = (e.beq_iff j k).0 here in ground arith)
    | inr other ↦ Memᴰ.tail (find-mem k v m (rw other at h))
  ]

  pub mem-find : (k : K) (v : V) (m : Map K V) → Keyed m → Memᴰ (k, v) m → find k m ≡ some v
  unfolding find
  mem-find k v [] d at = absurd (Memᴰ.not-nil at)
  mem-find k v ((j, w) ∷ m) d at = elim (Memᴰ.cases_cons at) [
    | inl q ↦
        let same : k ≡ j = ap (λ (x : K × V). x.0) q in
        rw ((e.beq_iff j k).1 (sym same)) (ap some (sym (ap (λ (x : K × V). x.1) q)))
    | inr later ↦ rw (beq_ne j k (λ q. d.0 (k, v) later (sym q))) (mem-find k v m d.1 later)
  ]

  pub mem-insert :
      (w : K × V) (k : K) (v : V) (m : Map K V) → Memᴰ w (insert k v m) → (w ≡ (k, v)) ⊎ Memᴰ w m
  unfolding insert
  mem-insert w k v [] at = ⊎_elim (λ q. inl q) (λ m. absurd (Memᴰ.not-nil m)) (Memᴰ.cases_cons at)
  mem-insert w k v ((j, u) ∷ m) at = elim (Bool-cases (j == k)) [
    | inl here ↦
        ⊎_elim (λ q. inl q) (λ later. inr (Memᴰ.tail later)) (Memᴰ.cases_cons (rw here at at))
    | inr other ↦
        ⊎_elim (λ q. inr (Memᴰ.head q))
          (λ later. ⊎_elim (λ q. inl q) (λ n. inr (Memᴰ.tail n)) (mem-insert w k v m later))
          (Memᴰ.cases_cons (rw other at at))
  ]

  pub insert-Keyed : (k : K) (v : V) (m : Map K V) → Keyed m → Keyed (insert k v m)
  unfolding insert
  insert-Keyed k v [] d = (λ w m. absurd (Memᴰ.not-nil m), tt)
  insert-Keyed k v ((j, u) ∷ m) d = elim (Bool-cases (j == k)) [
    | inl here ↦ rw here (λ w at q. d.0 w at (q ∙ sym ((e.beq_iff j k).0 here)), d.1)
    | inr other ↦ rw other (
      λ w at q.
          ⊎_elim (λ r. apart other (sym q ∙ ap (λ (x : K × V). x.0) r)) (λ n. d.0 w n q)
            (mem-insert w k v m at),
      insert-Keyed k v m d.1,
    )
  ]
    where
      apart : {A : Type 0} → (j == k) ≡ false → j ≡ k → A
      apart other same = absurd (let h = (e.beq_iff j k).1 same in cc (h, other))
