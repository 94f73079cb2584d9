-- ===== src/Auth/Jwt.antt =====
-- internal/auth/jwt.go: which key verifies a token, and the role that its claims carry. Parsing
-- keys and verifying signatures is the jwt library's.
pub mod Claims
use identity_attack_graph.Prelude.{
  ℕ, ◌==◌, string_eq, String, Bool, true, false, not, ◌&&◌, ◌||◌, List, [], ◌∷◌, foldl, Option,
  some, none, ltb, if◌then◌else◌,
}
use identity_attack_graph.Prelude.Map.{Map, find}
use identity_attack_graph.Prelude.Fallible.{◌>>=◌}
use identity_attack_graph.Prelude.Texts.{Strings}
use identity_attack_graph.Auth.{Role, role_none, Principal, parse_role}
use identity_attack_graph.Auth.Jwks.{Provider, new_provider}

pub record JwtConfig : Type 0 where
  pub secret : String
  pub public_key_pem : String
  pub jwks_url : String
  pub jwks_ttl : ℕ
  pub role_claim : String
  pub issuer : String
  pub audience : String

-- The signing methods that the key function tells apart.
pub data Method : Type 0 where
  hmac : Method
  rsa : Method
  other_method : Method

-- A value of the claims: a text, an array by what `fmt.Sprint` makes of its elements, or another.
pub data Claim : Type 0 where
  text_claim : String → Claim
  group_claim : List String → Claim
  other_claim : Claim

unfoldable pub higher : Strings → Role → String → Role
unfolding parse_role
higher u best g = let r = parse_role u g in if ltb best r then r else best

unfoldable pub role_of_claim : Strings → Option Claim → Role
unfolding higher parse_role
role_of_claim u (some (text_claim v)) = parse_role u v
role_of_claim u (some (group_claim groups)) = foldl (higher u) role_none groups
role_of_claim u (some other_claim) = role_none
role_of_claim u none = role_none

unfoldable pub extract_role : Strings → Map String Claim → String → Role
unfolding role_of_claim find
extract_role u claims claim = role_of_claim u (find claim claims)

pub record JwtValidator (K : Type 0) : Type 0 where
  pub cfg : JwtConfig
  pub rsa_pub : Option K
  pub jwks : Option Provider

-- What the key function returns for the verification.
pub data Key (K : Type 0) : Type 0 where
  secret_bytes : String → Key K
  public_key : K → Key K

abbrev pub is_none : {A : Type 0} → Option A → Bool
is_none none = true
is_none (some a) = false

-- `K` is `rsa.PublicKey`; a nil pointer is `none`.
module _ {K : Type 0} where
  -- `parse_pem` is `ParseRSAPublicKeyFromPEM`.
  unfoldable pub static_key : (String → Option K) → JwtConfig → Option (Option K)
  static_key parse_pem cfg =
      if cfg.public_key_pem == ""
      then some none
      else (do k ← parse_pem cfg.public_key_pem; some (some k))

  -- The keys are fetched where a URL is given, or an issuer and nothing else.
  unfoldable pub jwks_of : JwtConfig → Option K → Option Provider
  unfolding new_provider
  jwks_of cfg pub_key =
      if cfg.jwks_url == "" && not (not (cfg.issuer == "") && (is_none pub_key && cfg.secret == ""))
      then none
      else some (new_provider cfg.issuer cfg.jwks_url cfg.jwks_ttl)

  unfoldable pub new_jwt_validator : (String → Option K) → JwtConfig → Option (JwtValidator K)
  unfolding static_key jwks_of
  new_jwt_validator parse_pem cfg = do
    pub_key ← static_key parse_pem cfg
    let named = if cfg.role_claim == "" then record cfg { role_claim = "role" } else cfg in
        let jwks = jwks_of cfg pub_key in
        if cfg.secret == "" && (is_none pub_key && is_none jwks)
        then none
        else some (record { cfg = named; rsa_pub = pub_key; jwks = jwks })

  -- `key_of` is `keyByID` of the provider.
  unfoldable pub rsa_key_for :
      (Provider → String → Option K) → Option Provider → Option K → String → Option K
  rsa_key_for key_of (some p) pub_key kid = key_of p kid
  rsa_key_for key_of none pub_key kid = pub_key

  unfoldable pub key_func :
      (Provider → String → Option K) → JwtValidator K → Method → String → Option (Key K)
  unfolding rsa_key_for
  key_func key_of v hmac kid = if v.cfg.secret == "" then none else some (secret_bytes v.cfg.secret)
  key_func key_of v rsa kid = do k ← rsa_key_for key_of v.jwks v.rsa_pub kid; some (public_key k)
  key_func key_of v other_method kid = none

  -- `parse` is `ParseWithClaims` with the options for the issuer and the audience: the claims of a
  -- valid token. `sub` is absent where it is not a text.
  unfoldable pub validate :
      (JwtValidator K → String → Option (Map String Claim))
      → Strings
      → JwtValidator K
      → String
      → Option Principal
  unfolding extract_role find
  validate parse u v token = do
    claims ← parse v token
    some (record {
      subject = elim (find "sub" claims) [ some (text_claim s) ↦ s | _ ↦ "" ];
      role = extract_role u claims v.cfg.role_claim;
    })
