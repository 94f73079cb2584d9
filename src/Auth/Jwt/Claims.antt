-- ===== src/Auth/Jwt/Claims.antt =====
-- The role that claims carry, and the keys that a validator has.
use mathlib.Core.List.Memᴰ
use identity_attack_graph.Prelude.{
  ◌≤◌, ◌==◌, string_eq, String, ◌≡◌, ◌≢◌, ◌⊎◌, inl, inr, ⊎_elim, refl, sym, subst, ◌∙◌, List, [],
  ◌∷◌, foldl, Memᴰ, Option, some, none, ltb, Bool-cases, Option-cases, arith,
}
use identity_attack_graph.Prelude.Map.{Map, find}
use identity_attack_graph.Prelude.Texts.{Strings}
use identity_attack_graph.Auth.{Role, role_none, parse_role}
use identity_attack_graph.Auth.Jwks.{Provider}
use identity_attack_graph.Auth.Jwt.{
  JwtValidator, Method, hmac, rsa, other_method, Claim, group_claim, Key, secret_bytes, public_key,
  higher, extract_role, role_of_claim, rsa_key_for, key_func,
}

module _ (u : Strings) where
  pub record IsHighest (best : Role) (groups : List String) (r : Role) : Type 0 where
    pub from : (r ≡ best) ⊎ ((g : String) × Memᴰ g groups × (r ≡ parse_role u g))
    pub above : best ≤ r
    pub upper : (g : String) → Memᴰ g groups → parse_role u g ≤ r

  higher_cases :
      (best : Role) (g : String)
      → (higher u best g ≡ best) × (parse_role u g ≤ best)
        ⊎ (higher u best g ≡ parse_role u g) × (best ≤ parse_role u g)
  unfolding higher
  higher_cases best g = elim (Bool-cases (ltb best (parse_role u g))) [
    | inl h ↦ rw h (inr (refl, ground (arith, h)))
    | inr h ↦ rw h (inl (refl, ground (arith, h)))
  ]

  highers-IsHighest :
      (best : Role) (groups : List String) → IsHighest best groups (foldl (higher u) best groups)
  highers-IsHighest best [] = record {
    from = inl refl;
    above = omega arith;
    upper = λ g m. absurd (Memᴰ.not-nil m);
  }
  highers-IsHighest best (g ∷ groups) =
      let ih = highers-IsHighest (higher u best g) groups in
      let step = higher_cases best g in
      record {
        from =
            ⊎_elim (λ q. ⊎_elim (λ s. inl (q ∙ s.0)) (λ s. inr (g, Memᴰ.head refl, q ∙ s.0)) step)
              (λ (h, m, q). inr (h, Memᴰ.tail m, q)) ih.from;
        above =
            let a = ih.above in
            ⊎_elim (λ s. omega (arith, a, s.0)) (λ s. omega (arith, a, s.0, s.1)) step;
        upper = λ h m. elim (Memᴰ.cases_cons m) [
          | inr later ↦ ih.upper h later
          | inl q ↦
              let a = ih.above in
              subst (λ t. parse_role u t ≤ foldl (higher u) (higher u best g) groups) (sym q)
                (⊎_elim (λ s. omega (arith, a, s.0, s.1)) (λ s. omega (arith, a, s.0)) step)
        ];
      }

  -- The role of a token with groups is the highest that one of its groups names, and none where
  -- no group names one.
  pub extract_role_highest :
      (claims : Map String Claim) (claim : String) (groups : List String)
      → find claim claims ≡ some (group_claim groups)
      → let r = extract_role u claims claim in
        ((r ≡ role_none) ⊎ ((g : String) × Memᴰ g groups × (r ≡ parse_role u g)))
        × ((g : String) → Memᴰ g groups → parse_role u g ≤ r)
  unfolding extract_role role_of_claim
  extract_role_highest claims claim groups q =
      let h = highers-IsHighest role_none groups in
      subst
        (λ o.
          let r = role_of_claim u o in
          ((r ≡ role_none) ⊎ ((g : String) × Memᴰ g groups × (r ≡ parse_role u g)))
          × ((g : String) → Memᴰ g groups → parse_role u g ≤ r))
        (sym q) (h.from, h.upper)

module _ {K : Type 0} (key_of : Provider → String → Option K) where
  -- The key is of the kind that the token's method calls for.
  pub data KeyFor (v : JwtValidator K) (kid : String) : Method → Key K → Type 0 where
    shared : v.cfg.secret ≢ "" → KeyFor v kid hmac (secret_bytes v.cfg.secret)
    static : {k : K} → v.jwks ≡ none → v.rsa_pub ≡ some k → KeyFor v kid rsa (public_key k)
    fetched :
        {p : Provider} {k : K}
        → v.jwks ≡ some p
        → key_of p kid ≡ some k
        → KeyFor v kid rsa (public_key k)

  some_eq : {A : Type 0} {a b : A} → ◌≡◌ {A = Option A} (some a) (some b) → a ≡ b
  some_eq {A} q = cc q

  -- No token is verified with a key of another method: an HMAC is checked with the shared secret
  -- alone, which is not empty, and an RSA signature with a public key alone, the fetched one of
  -- its identifier where keys are fetched.
  pub key_func_kind :
      (v : JwtValidator K) (m : Method) (kid : String) (k : Key K)
      → key_func key_of v m kid ≡ some k
      → KeyFor v kid m k
  unfolding key_func rsa_key_for
  key_func_kind v hmac kid k q = elim (Bool-cases (v.cfg.secret == "")) [
    | inl missing ↦ absurd (cc (rw missing at q))
    | inr given ↦
        subst (KeyFor v kid hmac) (some_eq (rw given at q))
          (shared (λ e. absurd (let t = (string_eq.beq_iff v.cfg.secret "").1 e in cc (t, given))))
  ]
  key_func_kind v rsa kid k q = elim (Option-cases v.jwks) [
    | inl no_jwks ↦ elim (Option-cases v.rsa_pub) [
      | inl missing ↦ absurd (cc (rw (no_jwks, missing) at q))
      | inr (pk, given) ↦
          subst (KeyFor v kid rsa) (some_eq (rw (no_jwks, given) at q)) (static no_jwks given)
    ]
    | inr (p, jwks) ↦ elim (Option-cases (key_of p kid)) [
      | inl missing ↦ absurd (cc (rw missing at (rw jwks at q)))
      | inr (pk, given) ↦
          subst (KeyFor v kid rsa) (some_eq (rw given at (rw jwks at q))) (fetched jwks given)
    ]
  ]
  key_func_kind v other_method kid k q = absurd (cc q)
