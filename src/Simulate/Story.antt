-- ===== src/Simulate/Story.antt =====
-- What `NarratePath` tells of a path that is a route.
use mathlib.Core.Path.{subst₂}
use mathlib.Core.List.{append_assoc, append-nil, map-append}
use identity_attack_graph.Prelude.{
  ℕ, suc, ◌+◌, String, ◌==◌, string_eq, ◌≡◌, refl, sym, ap, ◌∙◌, subst, Bool, true, false, ◌||◌,
  List, [], ◌∷◌, ◌++◌, map, length, length-append, length-map, arith, if◌then◌else◌, beq_ne, nat_eq,
}
use identity_attack_graph.Models.{Uuid}
use identity_attack_graph.Graph.{Graph, Edge}
use identity_attack_graph.Graph.AttackPaths.{AttackPath}
use identity_attack_graph.Graph.AttackPaths.Chains.{IsRoute}
use identity_attack_graph.Graph.Explain.Labels.{edge_before-eq, ends, kinds}
use identity_attack_graph.Simulate.{
  Step, Scenario, verb_for, bare_step, narrate_node, narrate_nodes, narrate_path,
}

abbrev pub verbs : List Step → List String
verbs = map (λ (s : Step). s.verb)

-- Some edge federates into another cloud.
abbrev pub federates : List Edge → Bool
federates [] = false
federates (e ∷ es) = e.kind == "federated_from" || federates es

kept_steps :
    (b : Bool) (sc : Scenario) (text : String)
    → (if b then record sc { summary = text } else sc).steps ≡ sc.steps
kept_steps true sc text = refl
kept_steps false sc text = refl

kept_cloud :
    (b : Bool) (sc : Scenario) (text : String)
    → (if b then record sc { summary = text } else sc).cross_cloud ≡ sc.cross_cloud
kept_cloud true sc text = refl
kept_cloud false sc text = refl

module _ (uuid_text : Uuid → String) (g : Graph) where
  abbrev tell : List Edge → Scenario → ℕ → List Uuid → Scenario
  tell = narrate_nodes uuid_text g

  -- What the scenario becomes at a node that an edge leads to.
  abbrev told : Scenario → ℕ → Edge → Scenario
  told sc j e = record sc {
    cross_cloud = if e.kind == "federated_from" then true else sc.cross_cloud;
    steps =
        sc.steps
        ++ record (bare_step uuid_text g j e.dst) { via = e.kind; verb = verb_for e.kind } ∷ [];
  }

  narrate_node-told :
      (sc : Scenario) (pre suf : List Edge) (e : Edge)
      → narrate_node uuid_text g (pre ++ e ∷ suf) sc (suc (length pre)) e.dst
        ≡ told sc (suc (length pre)) e
  unfolding narrate_node
  narrate_node-told sc pre suf e =
      rw (beq_ne (suc (length pre)) 0 (omega arith), edge_before-eq pre e suf)

  record Tells (sc sc' : Scenario) (suf : List Edge) : Type 0 where
    verbs_eq : verbs sc'.steps ≡ verbs sc.steps ++ map verb_for (kinds suf)
    clouds : sc'.cross_cloud ≡ (sc.cross_cloud || federates suf)

  tell-Tells :
      (sc : Scenario) (pre suf : List Edge)
      → Tells sc (tell (pre ++ suf) sc (suc (length pre)) (ends suf)) suf
  unfolding narrate_nodes
  tell-Tells sc pre [] = record { verbs_eq = sym (append-nil _); clouds = ground arith }
  tell-Tells sc pre (e ∷ suf) =
      subst (λ w. Tells sc (tell (pre ++ e ∷ suf) w (suc (suc (length pre))) (ends suf)) (e ∷ suf))
        (sym (narrate_node-told sc pre suf e))
        (let sc' = told sc (suc (length pre)) e in
          let rest =
            subst₂ (λ es n. Tells sc' (tell es sc' (suc n) (ends suf)) suf)
              (append_assoc pre (e ∷ []) suf) (omega (arith, length-append pre (e ∷ [])))
              (tell-Tells sc' (pre ++ e ∷ []) suf) in
          record {
            verbs_eq =
                rest.verbs_eq
                ∙ ap (λ l. l ++ map verb_for (kinds suf)) (map-append _ sc.steps _)
                ∙ append_assoc (verbs sc.steps) (verb_for e.kind ∷ []) (map verb_for (kinds suf));
            clouds = rest.clouds ∙ flag (e.kind == "federated_from") sc.cross_cloud (federates suf);
          })
    where
      flag : (a b c : Bool) → ((if a then true else b) || c) ≡ (b || (a || c))
      flag a b c = ground arith

  module _ (p : AttackPath) (start : Uuid) where
    abbrev blank : Scenario
    blank = record {
      start_label = "";
      end_label = "";
      impact = p.impact;
      hops = p.hops;
      cross_cloud = false;
      steps = [];
      summary = "";
    }

    abbrev footed : Scenario
    footed = record blank {
      start_label = (bare_step uuid_text g 0 start).actor;
      steps = record (bare_step uuid_text g 0 start) { verb = "foothold" } ∷ [];
    }

    after_start : Tells footed (tell p.edges blank 0 (start ∷ ends p.edges)) p.edges
    unfolding narrate_nodes
    after_start = tell-Tells footed [] p.edges

    -- The labels and the summary that are set last change neither the steps nor the flag.
    told_parts :
        ((narrate_path uuid_text g p).steps ≡ (tell p.edges blank 0 p.nodes).steps)
        × ((narrate_path uuid_text g p).cross_cloud ≡ (tell p.edges blank 0 p.nodes).cross_cloud)
    unfolding narrate_path
    told_parts = (kept_steps _ _ _, kept_cloud _ _ _)

  -- Of a route, the narration has one step for each node, whose verbs are `foothold` and then those
  -- of the edges in their order; it crosses clouds exactly if one of these edges federates.
  pub narrate_path_of_route :
      (start v : Uuid) (p : AttackPath)
      → IsRoute g start v p.nodes p.edges p.hops
      → let sc = narrate_path uuid_text g p in
        (verbs sc.steps ≡ "foothold" ∷ map verb_for (kinds p.edges))
        × (length sc.steps ≡ p.hops + 1)
        × (sc.cross_cloud ≡ federates p.edges)
  narrate_path_of_route start v p r =
      let (steps, cloud) = told_parts p start in
      let t =
        subst (λ ns. Tells (footed p start) (tell p.edges (blank p start) 0 ns) p.edges)
          (sym r.nodes_eq) (after_start p start) in
      let all = ap verbs steps ∙ t.verbs_eq in
      (
        all,
        sym (length-map _ (λ (s : Step). s.verb))
            ∙ ap (length {A = String}) all
            ∙ omega (
              arith,
              length-map (kinds p.edges) verb_for,
              length-map p.edges (λ (e : Edge). e.kind),
              r.hops_eq,
            ),
        cloud ∙ t.clouds,
      )
