-- ===== src/Identity/Handlers.antt =====
-- services/identity/src/handlers.rs: the endpoints. An early return is an error of the program.
use magpie.Prelude.{
  ℕ, ◌+◌, Bool, Option, none, some, List, ◌∷◌, ◌++◌, Text, codes, text_eq, strip_prefix, leb, ◌==◌,
  any, if◌then◌else◌,
}
use magpie.Prelude.Dict.{Dict, get}
use magpie.Prelude.Prog.{Result, ok, err, Prog, pure, fail, ◌>>=◌, ◌>>◌, request, map_err}
use magpie.Identity.Calls.{
  ProviderKind, TokenPair, ExchangeEntry, StateClaims, Platform, Uuid, Reply, now, random,
  exchange_code, link_account_to_user, find_linked_account, create_user_and_link,
  linked_accounts_for_user, keep_code, take_code,
}
use magpie.Identity.Providers.{
  as_str, parse, fetch_identity, verify_steam, login_url, authorize_url,
}
use magpie.Identity.Flow
use magpie.Identity.Tokens.{issue_pair, refresh_pair}

pub data Response : Type 0 where
  names : List Text → Response
  subject : Text → List (Text × Text × Text) → Response
  url : Text → Response
  tokens : TokenPair → Response
  redirect : Text → Response
  status : ℕ → Text → Response

abbrev pub Handler : Type 0 → Type 0
Handler A = Prog Reply Response A

abbrev pub exchange_code_ttl : ℕ
exchange_code_ttl = 120

-- `match … { Ok(a) => a, Err(e) => return (code, e) }`
unfoldable pub failed : ℕ → Text → Response
failed code e = status code e

-- `let Some(a) = … else { return … }`
unfoldable pub or_return : {A : Type 0} → Option A → Response → Handler A
or_return none r = fail r
or_return (some a) r = pure a

unfoldable pub or_status : {A : Type 0} → Result Text A → ℕ → Handler A
or_status (ok a) code = pure a
or_status (err e) code = fail (status code e)

unfoldable pub found_user : Text → Text → Text → Option Uuid → Handler Uuid
unfolding ◌>>=◌ or_status
found_user provider account name (some user_id) = pure user_id
found_user provider account name none = do
  reply ← request (create_user_and_link provider account name)
  or_status reply 500

-- The user to log in.
unfoldable pub resolve_user : Text → Option Uuid → Text → Text → Handler Uuid
unfolding ◌>>=◌ or_status found_user
resolve_user provider (some existing) account name = do
  reply ← request (link_account_to_user provider account existing name)
  or_status reply 500
  pure existing
resolve_user provider none account name = do
  reply ← request (find_linked_account provider account)
  found ← or_status reply 500
  found_user provider account name found

unfoldable pub code_url : Platform → Text → Text → Text
code_url lib redirect_uri code =
    redirect_uri
    ++ ((if any (λ c. c == b'?') redirect_uri then b'&' else b'?') ∷ codes "code="
        ++ lib.urlencode code)

-- The end of a login: the tokens, or a redirect with a code for them.
unfoldable pub respond : Platform → Option Text → TokenPair → Handler Response
unfolding ◌>>=◌ code_url
respond lib none pair = pure (tokens pair)
respond lib (some redirect_uri) pair = do
  code ← request (random 24)
  t ← request now
  request (keep_code code (record { tokens = pair; expires_at = t + exchange_code_ttl }))
  pure (redirect (code_url lib redirect_uri code))

module _ (oauth_providers : List ProviderKind) where
  unfoldable pub is_configured : ProviderKind → Bool
  is_configured kind = any (λ k. text_eq (as_str k) (as_str kind)) oauth_providers

  -- `ProviderKind::parse`, then the configured provider of that kind
  unfoldable pub provider_of : Text → Handler ProviderKind
  unfolding ◌>>=◌ or_return is_configured
  provider_of provider = do
    kind ← or_return (parse provider) (status 404 (codes "unknown provider: " ++ provider))
    if is_configured kind
        then pure kind
        else fail (status 404 (codes "provider not configured: " ++ provider))

  -- Who logs in, as the provider says: the account there, and its display name.
  unfoldable pub authenticate : Text → Dict Text → Handler (Text × Text)
  unfolding ◌>>=◌ map_err or_return or_status provider_of
  authenticate provider query =
      if text_eq provider (codes "steam")
      then (do id ← map_err (failed 400) (verify_steam query); pure (id, id))
      else (do
        kind ← provider_of provider
        code ← or_return (get (codes "code") query) (status 400 (codes "missing code"))
        reply ← request (exchange_code kind code)
        access_token ← or_status reply 502
        map_err (failed 502) (fetch_identity kind access_token))

unfoldable pub refreshed : Response
refreshed = status 401 (codes "invalid, expired, or already-used refresh token")

module _ (lib : Platform) (issuer audience : Text) where
  -- the user that a bearer token of this service's own names, at a time
  unfoldable pub verify_bearer : ℕ → Option Text → Option Uuid
  verify_bearer t none = none
  verify_bearer t (some header) = elim (strip_prefix (codes "Bearer ") header) [
    | none ↦ none
    | some token ↦
        if lib.has_key
        then elim (lib.decode_access issuer audience t token) [
          | none ↦ none
          | some sub ↦ lib.parse_uuid sub
        ]
        else none
  ]

  unfoldable pub me : Option Text → Handler Response
  unfolding ◌>>=◌ or_return or_status verify_bearer
  me authorization = do
    t ← request now
    user_id ←
        or_return (verify_bearer t authorization)
          (status 401 (codes "missing or invalid bearer token"))
    reply ← request (linked_accounts_for_user user_id)
    elim reply [
      | ok accounts ↦ pure (subject (lib.uuid_text user_id) accounts)
      | err e ↦ pure (status 500 (codes "failed to read linked accounts"))
    ]

  unfoldable pub refresh : Text → Handler Response
  unfolding ◌>>=◌ map_err refreshed
  refresh refresh_token = do
    pair ← map_err (λ e. refreshed) (refresh_pair lib issuer audience refresh_token)
    pure (tokens pair)

  module _ (oauth_providers : List ProviderKind) where
    -- behind the check of the state
    unfoldable pub complete : Text → Dict Text → StateClaims → Handler Response
    unfolding ◌>>=◌ map_err authenticate resolve_user respond
    complete provider query claims = do
      who ← authenticate oauth_providers provider query
      user_id ← resolve_user provider claims.link_user_id (who.0) (who.1)
      pair ← map_err (failed 500) (issue_pair lib issuer audience user_id)
      respond lib claims.redirect_uri pair

    unfoldable pub callback : Text → Dict Text → Handler Response
    unfolding ◌>>=◌ or_return or_status complete
    callback provider query = do
      state_token ← or_return (get (codes "state") query) (status 400 (codes "missing state"))
      t ← request now
      claims ← or_status (Flow.verify lib t state_token provider) 400
      complete provider query claims

    module _ (base_url : Text) (allowed_redirect_origins : List Text) where
      unfoldable pub start_url : Text → Text → Handler Response
      unfolding ◌>>=◌ provider_of
      start_url provider state_token =
          if text_eq provider (codes "steam")
          then pure (
              url (
                login_url lib
                  (base_url ++ codes "/auth/steam/callback?state=" ++ lib.urlencode state_token)
                  base_url))
          else (do
            kind ← provider_of oauth_providers provider
            pure (url (authorize_url lib kind state_token)))

      unfoldable pub start : Text → Dict Text → Option Text → Handler Response
      unfolding ◌>>=◌ map_err start_url
      start provider query authorization = do
        t ← request now
        state_token ← map_err (failed 400) (
            Flow.issue lib provider (verify_bearer t authorization)
              (get (codes "redirect_uri") query) allowed_redirect_origins)
        start_url provider state_token

-- The refusal of a code.
unfoldable pub no_code : Response
no_code = status 401 (codes "invalid, expired, or already-used exchange code")

-- What a code is worth at a time.
unfoldable pub redeemed : ExchangeEntry → ℕ → Response
redeemed e t = if leb t e.expires_at then tokens e.tokens else no_code

unfoldable pub redeem : Option ExchangeEntry → Handler Response
unfolding ◌>>=◌ no_code redeemed
redeem none = pure no_code
redeem (some e) = do t ← request now; pure (redeemed e t)

unfoldable pub exchange : Text → Handler Response
unfolding ◌>>=◌ redeem
exchange code = do entry ← request (take_code code); redeem entry
