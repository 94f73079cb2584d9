-- ===== src/Auth/Jwks/Published.antt =====
-- Which keys the cache answers.
use identity_attack_graph.Prelude.{
  ℕ, string_eq, String, ◌≡◌, inl, inr, refl, sym, ◌∙◌, ◌&&◌, List, [], ◌∷◌, foldl, Memᴰ, Option,
  some, none, Bool-cases,
}
use identity_attack_graph.Prelude.Map.{Map, find}
use identity_attack_graph.Prelude.Texts.{Strings}
use identity_attack_graph.Models.{Time}
use identity_attack_graph.Auth.Jwks.{
  Jwk, PublicKey, Provider, Network, is_fresh, is_some, store, settle, add_key, resolve, refresh,
  key_by_id, new_provider,
}
use identity_attack_graph.Auth.Jwks.Refreshed.{
  last_key, or_else, or_none, find-add_keys, refresh-IsRefreshed,
}

module _ (u : Strings) (trim_right : String → String → String)
    (decode : String → Option (List ℕ)) where
  -- One of the networks published a set in which the identifier's last usable key is this one.
  pub record IsPublished (nets : List Network) (kid : String) (k : PublicKey) : Type 0 where
    pub net : Network
    pub asked : Memᴰ net nets
    pub url : String
    pub set : List Jwk
    pub read : net.key_set url ≡ some set
    pub last : last_key u trim_right decode kid set ≡ some k

  abbrev Known : List Network → Provider → Type 0
  Known nets p = (kid : String) (k : PublicKey) → find kid p.keys ≡ some k → IsPublished nets kid k

  Known-later :
      (nets : List Network) (net : Network) (p : Provider) → Known nets p → Known (net ∷ nets) p
  Known-later nets net p h kid k q =
      let r = h kid k q in
      record {
        net = r.net;
        asked = Memᴰ.tail r.asked;
        url = r.url;
        set = r.set;
        read = r.read;
        last = r.last;
      }

  settle-Known :
      (nets : List Network) (net : Network) (now : Time) (kid : String) (p : Provider)
      → Known nets p
      → (o : Option Provider) → refresh u trim_right decode net now p ≡ o
      → let next = settle kid (find kid p.keys) p o in
        Known (net ∷ nets) next.1
        × ((k : PublicKey) → next.0 ≡ some k → IsPublished (net ∷ nets) kid k)
  unfolding settle
  settle-Known nets net now kid p h none r =
      let h' = Known-later nets net p h in (h', λ k q. h' kid k q)
  settle-Known nets net now kid p h (some q) r =
      let f = refresh-IsRefreshed u trim_right decode net now p q r in
      let known : Known (net ∷ nets) q = λ kid k e. record {
        net = net;
        asked = Memᴰ.head refl;
        url = f.url;
        set = f.set;
        read = f.read;
        last = sym (f.kept kid) ∙ e;
      } in
      (known, λ k e. known kid k e)

  key_by_id-Known :
      (nets : List Network) (net : Network) (now : Time) (kid : String) (p : Provider)
      → Known nets p
      → let next = key_by_id u trim_right decode net now kid p in
        Known (net ∷ nets) next.1
        × ((k : PublicKey) → next.0 ≡ some k → IsPublished (net ∷ nets) kid k)
  unfolding key_by_id
  key_by_id-Known nets net now kid p h =
      elim (Bool-cases (is_some (find kid p.keys) && is_fresh p now)) [
        | inl cached ↦ let h' = Known-later nets net p h in rw cached (h', λ k q. h' kid k q)
        | inr stale ↦ rw stale (settle-Known nets net now kid p h _ refl)
      ]

  -- The caches that calls lead to, with the networks that they met, the latest first.
  pub data Reached : List Network → Provider → Type 0 where
    created : (issuer url : String) (ttl : ℕ) → Reached [] (new_provider issuer url ttl)
    called :
        {nets : List Network} {p : Provider}
        → (net : Network) (now : Time) (kid : String) → Reached nets p
        → Reached (net ∷ nets) (key_by_id u trim_right decode net now kid p).1

  Reached-Known : {nets : List Network} {p : Provider} → Reached nets p → Known nets p
  unfolding find new_provider
  Reached-Known (created issuer url ttl) = λ kid k q. absurd (cc q)
  Reached-Known (called {nets} {p} net now kid r) =
      (key_by_id-Known nets net now kid p (Reached-Known r)).0

  -- After any calls, whatever the network answered to them, a key that is returned was published
  -- at one of the calls as the last usable one for its identifier.
  pub key_by_id-IsPublished :
      (nets : List Network) (p : Provider) (net : Network) (now : Time) (kid : String)
      (k : PublicKey)
      → Reached nets p
      → (key_by_id u trim_right decode net now kid p).0 ≡ some k
      → IsPublished (net ∷ nets) kid k
  key_by_id-IsPublished nets p net now kid k r q =
      (key_by_id-Known nets net now kid p (Reached-Known r)).1 k q

  settled :
      (p : Provider) (now : Time) (kid url : String) (set : List Jwk) (keys : Map String PublicKey)
      → find kid keys ≡ or_else u trim_right decode (last_key u trim_right decode kid set) none
      → (settle kid none p (store p now url keys)).0 ≡ last_key u trim_right decode kid set
  unfolding settle store find
  settled p now kid url set [] h =
      h ∙ or_none u trim_right decode (last_key u trim_right decode kid set)
  settled p now kid url set (k ∷ keys) h =
      h ∙ or_none u trim_right decode (last_key u trim_right decode kid set)

  -- An identifier that is not in the cache is looked up in the set that the network answers, at
  -- any age of the cache: the result is its last usable key there, or an error without one.
  pub key_by_id_rotates :
      (p : Provider) (net : Network) (now : Time) (kid url : String) (set : List Jwk)
      → find kid p.keys ≡ none
      → resolve u trim_right decode net p ≡ some url
      → net.key_set url ≡ some set
      → (key_by_id u trim_right decode net now kid p).0 ≡ last_key u trim_right decode kid set
  unfolding key_by_id refresh find
  key_by_id_rotates p net now kid url set absent found read =
      rw (absent, found, read)
        (settled p now kid url set (foldl (add_key u trim_right decode) [] set)
          (find-add_keys u trim_right decode kid [] set))
