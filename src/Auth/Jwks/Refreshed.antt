-- ===== src/Auth/Jwks/Refreshed.antt =====
-- Which keys a refresh leaves.
use identity_attack_graph.Prelude.{
  ℕ, ◌==◌, string_eq, String, ◌≡◌, inl, inr, refl, sym, ap, ◌∙◌, Bool, true, false, List, [], ◌∷◌,
  foldl, Option, some, none, Option-cases, if◌then◌else◌,
}
use identity_attack_graph.Prelude.Map.{Map, find, insert, find-insert}
use identity_attack_graph.Prelude.Texts.{Strings}
use identity_attack_graph.Models.{Time}
use identity_attack_graph.Auth.Jwks.{
  Jwk, PublicKey, Provider, Network, store, usable_key, add_key, resolve, refresh,
}

module _ (u : Strings) (trim_right : String → String → String)
    (decode : String → Option (List ℕ)) where
  -- The last usable key for the identifier.
  abbrev pub last_key : String → List Jwk → Option PublicKey
  last_key kid [] = none
  last_key kid (k ∷ set) = elim (last_key kid set) [
    | some pk ↦ some pk
    | none ↦ if k.kid == kid then usable_key u trim_right decode k else none
  ]

  abbrev pub or_else : Option PublicKey → Option PublicKey → Option PublicKey
  or_else a b = elim a [ some k ↦ some k | none ↦ b ]

  pub or_none : (a : Option PublicKey) → or_else a none ≡ a
  or_none none = refl
  or_none (some k) = refl

  find-add_key :
      (kid : String) (keys : Map String PublicKey) (k : Jwk)
      → find kid (add_key u trim_right decode keys k)
        ≡ or_else (if k.kid == kid then usable_key u trim_right decode k else none) (find kid keys)
  unfolding add_key
  find-add_key kid keys k = by_key (usable_key u trim_right decode k)
    where
      branch :
          (b : Bool) (pk : PublicKey) (rest : Option PublicKey)
          → (if b then some pk else rest) ≡ or_else (if b then some pk else none) rest
      branch true pk rest = refl
      branch false pk rest = refl

      by_key :
          (o : Option PublicKey)
          → find kid (elim o [ none ↦ keys | some pk ↦ insert k.kid pk keys ])
            ≡ or_else (if k.kid == kid then o else none) (find kid keys)
      by_key none =
          elim (k.kid == kid)
            as (λ b. find kid keys ≡ or_else (if b then none else none) (find kid keys)) [
              | true ↦ refl
              | false ↦ refl
            ]
      by_key (some pk) = find-insert k.kid kid pk keys ∙ branch (k.kid == kid) pk (find kid keys)

  pub find-add_keys :
      (kid : String) (keys : Map String PublicKey) (set : List Jwk)
      → find kid (foldl (add_key u trim_right decode) keys set)
        ≡ or_else (last_key kid set) (find kid keys)
  find-add_keys kid keys [] = refl
  find-add_keys kid keys (k ∷ set) =
      find-add_keys kid (add_key u trim_right decode keys k) set
      ∙ ap (or_else (last_key kid set)) (find-add_key kid keys k)
      ∙ or_else_assoc (last_key kid set)
          (if k.kid == kid then usable_key u trim_right decode k else none) (find kid keys)
    where
      or_else_assoc : (a b c : Option PublicKey) → or_else a (or_else b c) ≡ or_else (or_else a b) c
      or_else_assoc none b c = refl
      or_else_assoc (some k) b c = refl

  store_keys :
      (p q : Provider) (now : Time) (url : String) (keys : Map String PublicKey)
      → store p now url keys ≡ some q
      → q.keys ≡ keys
  unfolding store
  store_keys p q now url [] h = absurd (cc h)
  store_keys p q now url (k ∷ keys) h =
      let same = some_eq h in sym (ap (λ (r : Provider). r.keys) same)
    where
      some_eq : {a b : Provider} → ◌≡◌ {A = Option Provider} (some a) (some b) → a ≡ b
      some_eq h = cc h

  -- A refresh that succeeds has read a set, and leaves its last usable keys.
  pub record IsRefreshed (net : Network) (q : Provider) : Type 0 where
    pub url : String
    pub set : List Jwk
    pub read : net.key_set url ≡ some set
    pub kept : (kid : String) → find kid q.keys ≡ last_key kid set

  pub refresh-IsRefreshed :
      (net : Network) (now : Time) (p q : Provider)
      → refresh u trim_right decode net now p ≡ some q
      → IsRefreshed net q
  unfolding refresh find
  refresh-IsRefreshed net now p q h = elim (Option-cases (resolve u trim_right decode net p)) [
    | inl failed ↦ absurd (cc (rw failed at h))
    | inr (url, found) ↦
        let h' = rw found at h in
        elim (Option-cases (net.key_set url)) [
          | inl failed ↦ absurd (cc (rw failed at h'))
          | inr (set, read) ↦
              let h'' = rw read at h' in
              record {
                url = url;
                set = set;
                read = read;
                kept = λ kid.
                    ap (find kid) (store_keys p q now url _ h'')
                    ∙ find-add_keys kid [] set
                    ∙ or_none (last_key kid set);
              }
        ]
  ]
