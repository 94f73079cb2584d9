-- ===== src/Auth/Jwks.antt =====
-- internal/auth/jwks.go: the cache of signing keys. What the network answers is a parameter: the
-- URI that a discovery document names, and the key set behind a URI, each with `none` for an error.
-- The lock only makes a call whole, so that the calls stand in a sequence.
pub mod Refreshed
pub mod Published
use identity_attack_graph.Prelude.{
  ℕ, ◌+◌, ◌-◌, ◌*◌, ◌%◌, ◌^◌, ◌==◌, nat_eq, string_eq, String, Bool, true, false, not, ◌&&◌, ◌||◌,
  List, [], ◌∷◌, foldl, Option, some, none, ltb, if◌then◌else◌,
}
use identity_attack_graph.Prelude.Map.{Map, find, insert}
use identity_attack_graph.Prelude.Texts.{Strings, ◌<>◌}
use identity_attack_graph.Prelude.Fallible.{◌>>=◌}
use identity_attack_graph.Models.{Time}

pub record Jwk : Type 0 where
  pub kty : String
  pub kid : String
  pub n : String
  pub e : String
  pub alg : String
  pub use_for : String

-- `rsa.PublicKey`
pub record PublicKey : Type 0 where
  pub modulus : ℕ
  pub exponent : ℕ

-- A zero `fetchedAt` is `none`.
pub record Provider : Type 0 where
  pub issuer : String
  pub jwks_url : String
  pub ttl : ℕ
  pub keys : Map String PublicKey
  pub fetched_at : Option Time

-- What the network answers during a call.
pub record Network : Type 0 where
  pub discovery : String → Option String
  pub key_set : String → Option (List Jwk)

-- 15 minutes in nanoseconds; a `ttl` that is not positive is 0 here.
unfoldable pub new_provider : String → String → ℕ → Provider
new_provider issuer url ttl = record {
  issuer = issuer;
  jwks_url = url;
  ttl = if ttl == 0 then 900000000000 else ttl;
  keys = [];
  fetched_at = none;
}

-- `e<<8 | int(b)`, by the 64 bits of the result: the low 8 bits of the left side are zero.
unfoldable pub shift_in : ℕ → ℕ → ℕ
shift_in e b = (e * 256 + b) % 2 ^ 64

-- `SetBytes`
abbrev pub set_bytes : List ℕ → ℕ
set_bytes bytes = foldl (λ n b. n * 256 + b) 0 bytes

unfoldable pub is_fresh : Provider → Time → Bool
is_fresh p now = elim p.fetched_at [ none ↦ false | some t ↦ ltb (now - t) p.ttl ]

-- A set without a usable key is an error.
unfoldable pub store : Provider → Time → String → Map String PublicKey → Option Provider
store p now url [] = none
store p now url (k ∷ keys) =
    some (record p { keys = k ∷ keys; fetched_at = some now; jwks_url = url })

abbrev pub is_some : Option PublicKey → Bool
is_some none = false
is_some (some k) = true

-- What a call answers after a refresh: where it failed, a key that is still cached.
unfoldable pub settle :
    String → Option PublicKey → Provider → Option Provider → Option PublicKey × Provider
unfolding find
settle kid cached p none = (cached, p)
settle kid cached p (some q) = (find kid q.keys, q)

-- `trim_right` is `strings.TrimRight`, and `decode` decodes base64 in its URL form without padding.
module _ (u : Strings) (trim_right : String → String → String)
    (decode : String → Option (List ℕ)) where
  unfoldable pub rsa_key : Jwk → Option PublicKey
  unfolding shift_in
  rsa_key k = do
    nb ← decode (trim_right k.n "=")
    eb ← decode (trim_right k.e "=")
    let e = foldl shift_in 0 eb in
        if e == 0 then none else some (record { modulus = set_bytes nb; exponent = e })

  -- The key of an entry of the set, if the entry is used.
  unfoldable pub usable_key : Jwk → Option PublicKey
  unfolding rsa_key
  usable_key k = if u.equal_fold k.kty "RSA" then rsa_key k else none

  unfoldable pub add_key : Map String PublicKey → Jwk → Map String PublicKey
  unfolding usable_key insert
  add_key keys k = elim (usable_key k) [ none ↦ keys | some pk ↦ insert k.kid pk keys ]

  unfoldable pub discover : Network → Provider → Option String
  discover net p = if p.issuer == "" then none else (do
    uri ← net.discovery (trim_right p.issuer "/" <> "/.well-known/openid-configuration")
    if uri == "" then none else some uri)

  unfoldable pub resolve : Network → Provider → Option String
  unfolding discover
  resolve net p = if p.jwks_url == "" then discover net p else some p.jwks_url

  -- An error leaves the provider as it was.
  unfoldable pub refresh : Network → Time → Provider → Option Provider
  unfolding resolve add_key store
  refresh net now p = do
    url ← resolve net p
    set ← net.key_set url
    store p now url (foldl add_key [] set)

  -- The key that is returned, `none` for an error, and the provider after the call.
  unfoldable pub key_by_id : Network → Time → String → Provider → Option PublicKey × Provider
  unfolding refresh is_fresh find settle
  key_by_id net now kid p =
      let cached = find kid p.keys in
      if is_some cached && is_fresh p now
      then (cached, p)
      else settle kid cached p (refresh net now p)
