-- ===== src/Authn/Jwt.antt =====
-- crates/authn/src/jwt.rs, `JwtVerifier::verify`. The JWT library is a parameter.
use magpie.Prelude.{Bool, true, false, Option, none, some, Text, codes, if◌then◌else◌}
use magpie.Prelude.Prog.{Result, ok, err}

pub data Algorithm : Type 0 where
  rs256 es256 other : Algorithm

pub record Header : Type 0 where
  pub kid : Option Text
  pub alg : Algorithm

-- what a token is checked against
pub record Validation : Type 0 where
  pub alg : Algorithm
  pub issuer : Text
  pub audience : Text

-- `jsonwebtoken`: the header of a token, the keys of a JWK set, and the decoding of a token, whose
-- result is its `sub` claim.
pub record JwtLibrary : Type 1 where
  pub Jwk : Type 0
  pub Key : Type 0
  pub decode_header : Text → Option Header
  pub find : Text → Option Jwk
  pub from_jwk : Jwk → Option Key
  pub decode : Text → Key → Validation → Option Text

abbrev is_allowed : Algorithm → Bool
is_allowed other = false
is_allowed _ = true

-- `ok_or`, then `?`
abbrev ok_or : {A B : Type 0} → Option A → Text → (A → Result Text B) → Result Text B
ok_or none e f = err e
ok_or (some a) e f = f a

module _ (lib : JwtLibrary) (issuer audience : Text) where
  open lib use {Jwk, Key, decode_header, find, from_jwk, decode}

  unfoldable pub verify : Text → Result Text Text
  verify token = ok_or (decode_header token) (codes "malformed token header") λ header.
      ok_or header.kid (codes "token header missing kid") λ kid.
        ok_or (find kid) (codes "unknown signing key") λ jwk.
          ok_or (from_jwk jwk) (codes "unsupported jwk") λ key.
            if is_allowed header.alg
            then ok_or
                (decode token key
                  (record { alg = header.alg; issuer = issuer; audience = audience }))
                (codes "token verification failed") ok
            else err (codes "unsupported algorithm")
