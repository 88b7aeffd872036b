-- ===== src/Identity/Tokens.antt =====
-- services/identity/src/tokens.rs: access and refresh tokens.
use magpie.Prelude.{
  ℕ, ◌+◌, ◌*◌, Bool, true, false, ◌&&◌, Option, none, some, List, [], ◌∷◌, Text, codes, text_eq,
  bytes_to_hex, ltb, if◌then◌else◌, any, not,
}
use magpie.Prelude.Prog.{Result, ok, err, pure, ◌>>=◌, ◌>>◌, lift, request}
use magpie.Identity.Calls.{
  TokenPair, AccessClaims, Platform, Uuid, Fallible, now, random, insert_refresh_token,
  valid_refresh_token_user, revoke_refresh_token,
}

abbrev pub access_token_ttl_secs : ℕ
access_token_ttl_secs = 3600

abbrev pub refresh_token_ttl_days : ℕ
refresh_token_ttl_days = 30

-- The owner of a refresh token, or the refusal.
unfoldable pub owner_of : Option Uuid → Result Text Uuid
owner_of none = err (codes "invalid, expired, or already-used refresh token")
owner_of (some user) = ok user

unfoldable pub hash_token : Platform → Text → Text
hash_token lib token = bytes_to_hex (lib.sha256 token)

module _ (lib : Platform) (issuer audience : Text) where
  unfoldable pub access_claims : Uuid → ℕ → AccessClaims
  access_claims user_id t = record {
    sub = lib.uuid_text user_id;
    iss = issuer;
    aud = audience;
    exp = t + access_token_ttl_secs;
    iat = t;
  }

  -- behind the access token
  unfoldable pub issue_refresh : Uuid → ℕ → Text → Fallible TokenPair
  unfolding ◌>>=◌ hash_token
  issue_refresh user_id t access_token = do
    raw_refresh ← request (random 32)
    reply ← request (
        insert_refresh_token (hash_token lib raw_refresh) user_id
          (t + refresh_token_ttl_days * 86400))
    lift reply
    pure (record {
      access_token = access_token;
      refresh_token = raw_refresh;
      expires_in = access_token_ttl_secs;
    })

  unfoldable pub issue_pair : Uuid → Fallible TokenPair
  unfolding ◌>>=◌ access_claims issue_refresh
  issue_pair user_id = do
    t ← request now
    access_token ← lift (lib.sign_access (access_claims user_id t))
    issue_refresh user_id t access_token

  unfoldable pub refresh_pair : Text → Fallible TokenPair
  unfolding ◌>>=◌ hash_token owner_of issue_pair
  refresh_pair raw_refresh_token = do
    found ← request (valid_refresh_token_user (hash_token lib raw_refresh_token))
    owner ← lift found
    user_id ← lift (owner_of owner)
    revoked ← request (revoke_refresh_token (hash_token lib raw_refresh_token))
    lift revoked
    issue_pair user_id

-- The table `refresh_tokens`, and what the statements of crates/registry-db/src/lib.rs do to it.
pub record RefreshToken : Type 0 where
  pub token_hash : Text
  pub user_id : Uuid
  pub expires_at : ℕ
  pub is_revoked : Bool

abbrev is_valid : ℕ → Text → RefreshToken → Bool
is_valid t hash row = text_eq row.token_hash hash && (not row.is_revoked && ltb t row.expires_at)

-- `token_hash` is the primary key: a second row with it is refused.
unfoldable pub inserted : Text → Uuid → ℕ → List RefreshToken → Option (List RefreshToken)
inserted hash user expires rows =
    if any (λ row. text_eq row.token_hash hash) rows
    then none
    else some (
        record { token_hash = hash; user_id = user; expires_at = expires; is_revoked = false }
        ∷ rows)

unfoldable pub valid_user : ℕ → Text → List RefreshToken → Option Uuid
valid_user t hash [] = none
valid_user t hash (row ∷ rows) =
    let later = valid_user t hash rows in if is_valid t hash row then some row.user_id else later

unfoldable pub revoke : Text → List RefreshToken → List RefreshToken
revoke hash [] = []
revoke hash (row ∷ rows) =
    (if text_eq row.token_hash hash && not row.is_revoked
      then record row { is_revoked = true }
      else row)
    ∷ revoke hash rows
