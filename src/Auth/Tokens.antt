-- ===== src/Auth/Tokens.antt =====
-- Who is let in by a token.
use identity_attack_graph.Prelude.{
  zero, suc, ◌≤◌, ◌==◌, string_eq, nat_eq, String, ◌≡◌, ◌≢◌, inl, inr, refl, sym, ap, ◌∙◌, Bool,
  true, false, List, [], ◌∷◌, foldl, Option, some, none, ltb, Bool-cases, beq_ne, if◌then◌else◌,
  arith,
}
use identity_attack_graph.Prelude.Map.{Map, find, find-insert}
use identity_attack_graph.Prelude.Texts.{Strings}
use identity_attack_graph.Auth.{
  Role, Principal, TokenEntry, Request, Answer, unauthorized, forbidden, served, parse_role, bearer,
  add_token, Auth, new_auth, principal_of, require, respond, role_text, role_admin,
}

-- The last entry for the token.
abbrev pub owner : String → List TokenEntry → Option TokenEntry
owner tok [] = none
owner tok (e ∷ entries) = elim (owner tok entries) [
  | some later ↦ some later
  | none ↦ if e.token == tok then some e else none
]

module _ (u : Strings) where
  abbrev pub principal : TokenEntry → Principal
  principal e = record { subject = e.subject; role = parse_role u e.role }

  find-add_token :
      (tok : String) (e : TokenEntry) (m : Map String Principal)
      → tok ≢ ""
      → find tok (add_token u m e) ≡ (if e.token == tok then some (principal e) else find tok m)
  unfolding add_token
  find-add_token tok e m h = elim (Bool-cases (e.token == "")) [
    | inr named ↦ rw named (find-insert e.token tok (principal e) m)
    | inl unnamed ↦
        let other : (e.token == tok) ≡ false =
          beq_ne e.token tok (λ q. h (sym q ∙ (string_eq.beq_iff e.token "").0 unnamed)) in
        rw (unnamed, other) refl
  ]

  find-add_tokens :
      (tok : String) (entries : List TokenEntry) (m : Map String Principal)
      → tok ≢ ""
      → find tok (foldl (add_token u) m entries)
        ≡ (elim (owner tok entries) [ some e ↦ some (principal e) | none ↦ find tok m ])
  find-add_tokens tok [] m h = refl
  find-add_tokens tok (e ∷ entries) m h =
      find-add_tokens tok entries (add_token u m e) h
      ∙ ap (later (owner tok entries)) (find-add_token tok e m h)
      ∙ merged (owner tok entries) (e.token == tok)
    where
      later : Option TokenEntry → Option Principal → Option Principal
      later o rest = elim o [ some e ↦ some (principal e) | none ↦ rest ]

      merged :
          (o : Option TokenEntry) (b : Bool)
          → later o (if b then some (principal e) else find tok m)
            ≡ later
                (elim o [ some later ↦ some later | none ↦ if b then some e else none ])
                (find tok m)
      merged (some l) b = refl
      merged none true = refl
      merged none false = refl

  -- What a route that is open to `min` answers to a request with a token.
  abbrev pub token_answer : List TokenEntry → Role → String → Answer
  token_answer entries min tok = if tok == "" then unauthorized else elim (owner tok entries) [
    | none ↦ unauthorized
    | some e ↦ if ltb (parse_role u e.role) min then forbidden min else served (principal e)
  ]

  abbrev token_auth : {V : Type 0} → List TokenEntry → Auth V
  token_auth entries = record {
    mode = "token";
    tokens = foldl (add_token u) [] entries;
    jwt = none;
  }

  module _ {V C : Type 0} (new_validator : C → Option V) (validate : V → String → Option Principal)
      (entries : List TokenEntry) where
    new_auth_token :
        (mode : String) (cfg : Option C)
        → u.lower (u.trim mode) ≡ "token"
        → new_auth u new_validator mode entries cfg ≡ some (token_auth entries)
    unfolding new_auth
    new_auth_token mode cfg h = rw h refl

    respond_auth :
        (min : Role) (r : Request)
        → respond u validate (token_auth entries) min r ≡ token_answer entries min (bearer u r)
    unfolding respond principal_of require
    respond_auth min r =
        let tok = bearer u r in
        let owned : Option Principal = elim (owner tok entries) [
          | some e ↦ some (principal e)
          | none ↦ none
        ] in
        let q : principal_of u validate (token_auth entries) r
            ≡ (if tok == "" then none else owned) =
          unless (tok == "") (λ given. find-add_tokens tok entries [] (absent tok given)) in
        ap (decide min) q ∙ decided min (tok == "") (owner tok entries)
      where
        unless :
            {x y : Option Principal} (b : Bool)
            → (b ≡ false → x ≡ y)
            → (if b then none else x) ≡ (if b then none else y)
        unless true h = refl
        unless false h = h refl

        absent : (tok : String) → (tok == "") ≡ false → tok ≢ ""
        absent tok h e = absurd (let t = (string_eq.beq_iff tok "").1 e in cc (t, h))

        decide : Role → Option Principal → Answer
        decide min o = elim o [
          | none ↦ unauthorized
          | some p ↦ if ltb p.role min then forbidden min else served p
        ]

        decided :
            (min : Role) (b : Bool) (o : Option TokenEntry)
            → decide min (if b then none else elim o [ some e ↦ some (principal e) | none ↦ none ])
              ≡ (if b then unauthorized else elim o [
                | none ↦ unauthorized
                | some e ↦
                    if ltb (parse_role u e.role) min then forbidden min else served (principal e)
              ])
        decided min true o = refl
        decided min false none = refl
        decided min false (some e) = refl

    -- In token mode a request without a token, or with one that no entry names, is unauthorized;
    -- otherwise the last entry for the token decides: it is forbidden where its role is less than
    -- the route's, and served for its subject where it is not.
    pub respond_token :
        (mode : String) (cfg : Option C) (min : Role) (r : Request)
        → u.lower (u.trim mode) ≡ "token"
        → (a : Auth V) × (new_auth u new_validator mode entries cfg ≡ some a)
          × (respond u validate a min r ≡ token_answer entries min (bearer u r))
    respond_token mode cfg min r h =
        (token_auth entries, new_auth_token mode cfg h, respond_auth min r)

-- The text of a role is read back as that role, if the texts of the roles are their own lower
-- case and have no space around them.
pub parse_role_round_trip :
    (u : Strings) (r : Role)
    → r ≤ role_admin
    → ((s : Role) → u.lower (u.trim (role_text s)) ≡ role_text s)
    → parse_role u (role_text r) ≡ r
unfolding parse_role role_text
parse_role_round_trip u zero h plain = rw (plain zero) refl
parse_role_round_trip u (suc zero) h plain = rw (plain 1) refl
parse_role_round_trip u (suc (suc zero)) h plain = rw (plain 2) refl
parse_role_round_trip u (suc (suc (suc zero))) h plain = rw (plain 3) refl
parse_role_round_trip u (suc (suc (suc (suc r)))) h plain = absurd (omega (arith, h))
