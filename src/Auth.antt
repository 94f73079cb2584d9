-- ===== src/Auth.antt =====
-- internal/auth/auth.go: roles, tokens, and the decisions of the middleware. A handler is given by
-- the answer that it writes. Texts are of ASCII characters.
pub mod Jwt
pub mod Jwks
pub mod Tokens
use Prim.Native.String.{len, slice}
use identity_attack_graph.Prelude.{
  ℕ, ◌==◌, string_eq, nat_eq, String, Bool, true, false, ◌||◌, List, [], ◌∷◌, foldl, Option, some,
  none, ltb, if◌then◌else◌,
}
use identity_attack_graph.Prelude.Map.{Map, find, insert}
use identity_attack_graph.Prelude.Fallible.{◌>>=◌}
use identity_attack_graph.Prelude.Texts.{Strings, has_prefix}

-- `Role`, a number from `iota`
abbrev pub Role : Type 0
Role = ℕ

abbrev pub role_none : Role
role_none = 0

abbrev pub role_viewer : Role
role_viewer = 1

abbrev pub role_analyst : Role
role_analyst = 2

abbrev pub role_admin : Role
role_admin = 3

unfoldable pub parse_role : Strings → String → Role
parse_role u s =
    let t = u.lower (u.trim s) in
    if t == "viewer"
    then role_viewer
    else if t == "analyst"
    then role_analyst
    else if t == "admin"
    then role_admin
    else role_none

-- The method `String`
unfoldable pub role_text : Role → String
role_text r =
    if r == role_viewer
    then "viewer"
    else if r == role_analyst
    then "analyst"
    else if r == role_admin
    then "admin"
    else "none"

pub record Principal : Type 0 where
  pub subject : String
  pub role : Role

pub record TokenEntry : Type 0 where
  pub token : String
  pub subject : String
  pub role : String

-- What the middleware reads of a request: the headers `Authorization` and `X-Actor`.
pub record Request : Type 0 where
  pub authorization : String
  pub actor : String

-- The answer of a route: the status of an error, or what the handler writes for the principal.
pub data Answer : Type 0 where
  unauthorized : Answer
  forbidden : Role → Answer
  served : Principal → Answer

-- `V` is `jwtValidator`.
pub record Auth (V : Type 0) : Type 0 where
  pub mode : String
  pub tokens : Map String Principal
  pub jwt : Option V

unfoldable pub bearer : Strings → Request → String
bearer u r =
    let h = r.authorization in
    if has_prefix (u.lower h) "bearer " then u.trim (slice h 7 (len h)) else ""

module _ (u : Strings) where
  -- The body of the loop of `New` over the entries.
  unfoldable pub add_token : Map String Principal → TokenEntry → Map String Principal
  unfolding insert parse_role
  add_token tokens e =
      if e.token == ""
      then tokens
      else insert e.token (record { subject = e.subject; role = parse_role u e.role }) tokens

  module _ {V : Type 0} where
    unfoldable pub enforced : Auth V → Bool
    enforced a = a.mode == "token" || a.mode == "jwt"

    -- `new_validator` is `newJWTValidator`. An error is `none`; so is a missing configuration.
    module _ {C : Type 0} (new_validator : C → Option V) where
      unfoldable pub new_auth : String → List TokenEntry → Option C → Option (Auth V)
      unfolding add_token
      new_auth mode entries jwt_cfg =
          let given = u.lower (u.trim mode) in
          let m = if given == "" then "off" else given in
          let tokens = foldl add_token [] entries in
          let validator = jwt_cfg >>= new_validator in
          if m == "jwt"
          then (elim validator [
            | some v ↦ some (record { mode = m; tokens = tokens; jwt = some v })
            | none ↦ none
          ])
          else some (record { mode = m; tokens = tokens; jwt = none })

    -- `validate` is the method of the validator. In jwt mode there is one.
    module _ (validate : V → String → Option Principal) where
      unfoldable pub principal_of : Auth V → Request → Option Principal
      unfolding find bearer
      principal_of a r =
          let tok = bearer u r in
          if a.mode == "token"
          then (if tok == "" then none else find tok a.tokens)
          else if a.mode == "jwt"
          then (elim a.jwt [ some v ↦ validate v tok | none ↦ none ])
          else some (record {
            subject = if r.actor == "" then "anonymous" else r.actor;
            role = role_admin;
          })

      -- A handler behind `Authenticate` and `Require`
      unfoldable pub require : Role → Principal → Answer
      require min p = if ltb p.role min then forbidden min else served p

      unfoldable pub respond : Auth V → Role → Request → Answer
      unfolding principal_of require
      respond a min r = elim (principal_of a r) [ none ↦ unauthorized | some p ↦ require min p ]
