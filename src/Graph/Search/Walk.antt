-- ===== src/Graph/Search/Walk.antt =====
-- What the searches are measured against: walks along the edges that a search follows.
use identity_attack_graph.Prelude.{ℕ, zero, suc, ◌≡◌, String, Bool, true, Memᴰ, ◌≤◌}
use identity_attack_graph.Models.{Uuid}
use identity_attack_graph.Graph.{Edge, Graph, out_of}

-- `e` leaves `u` in the graph and is followed.
pub record Hop (g : Graph) (follows : String → Bool) (u : Uuid) (e : Edge) : Type 0 where
  pub listed : Memᴰ e (out_of g u)
  pub followed : follows e.kind ≡ true

-- A walk of the given number of hops.
pub data Walk (g : Graph) (follows : String → Bool) (start : Uuid) : ℕ → Uuid → Type 0 where
  here : Walk g follows start zero start
  step :
      {n : ℕ} {u v : Uuid} (e : Edge)
      → Walk g follows start n u
      → Hop g follows u e
      → e.dst ≡ v
      → Walk g follows start (suc n) v

-- `n` is the number of hops of a shortest walk to `v`.
pub record IsDistance (g : Graph) (follows : String → Bool) (start : Uuid) (n : ℕ) (v : Uuid)
    : Type 0 where
  pub walk : Walk g follows start n v
  pub least : (m : ℕ) → Walk g follows start m v → n ≤ m
