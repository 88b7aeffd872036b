-- ===== src/Identity/Calls.antt =====
-- What services/identity asks of the world, and the libraries that it stands on.
use magpie.Prelude.{ℕ, Bool, Option, List, Text}
use magpie.Prelude.Int.{ℤ}
use magpie.Prelude.Dict.{Dict}
use magpie.Prelude.Prog.{Result, Prog}

-- A user's id, a UUID, as its number; and times, in seconds.
abbrev pub Uuid : Type 0
Uuid = ℕ

pub record TokenPair : Type 0 where
  pub access_token : Text
  pub refresh_token : Text
  pub expires_in : ℕ

pub record ExchangeEntry : Type 0 where
  pub tokens : TokenPair
  pub expires_at : ℕ

pub data ProviderKind : Type 0 where
  discord github google : ProviderKind

-- A field of a provider's answer, as the code looks at it.
pub data Value : Type 0 where
  string : Text → Value
  integer : ℤ → Value
  other : Value

pub data Call : Type 0 where
  now : Call
  -- so many random bytes, in base64
  random : ℕ → Call
  -- Steam's answer to `check_authentication`, with these parameters
  check_authentication : Dict Text → Call
  exchange_code : ProviderKind → Text → Call
  -- the URL, the access token, and whether a User-Agent is set
  get_userinfo : Text → Text → Bool → Call
  link_account_to_user : Text → Text → Uuid → Text → Call
  find_linked_account : Text → Text → Call
  create_user_and_link : Text → Text → Text → Call
  linked_accounts_for_user : Uuid → Call
  -- the hash of the token, its user, and when it expires
  insert_refresh_token : Text → Uuid → ℕ → Call
  valid_refresh_token_user : Text → Call
  revoke_refresh_token : Text → Call
  -- the map of exchange codes, under its lock
  keep_code : Text → ExchangeEntry → Call
  take_code : Text → Call

abbrev pub Reply : Call → Type 0
Reply now = ℕ
Reply (random n) = Text
Reply (check_authentication params) = Result Text Text
Reply (exchange_code kind code) = Result Text Text
Reply (get_userinfo url token agent) = Result Text (Text → Value)
Reply (link_account_to_user provider account user name) = Result Text Unit
Reply (find_linked_account provider account) = Result Text (Option Uuid)
Reply (create_user_and_link provider account name) = Result Text Uuid
Reply (linked_accounts_for_user user) = Result Text (List (Text × Text × Text))
Reply (insert_refresh_token hash user expires) = Result Text Unit
Reply (valid_refresh_token_user hash) = Result Text (Option Uuid)
Reply (revoke_refresh_token hash) = Result Text Unit
Reply (keep_code code entry) = Unit
Reply (take_code code) = Option ExchangeEntry

-- A body that may fail, as `anyhow::Result`.
abbrev pub Fallible : Type 0 → Type 0
Fallible A = Prog Reply Text A

-- The host of a URL: an IPv4 address by its first byte and the rest, an IPv6 address as a number.
pub data Host : Type 0 where
  domain : Text → Host
  ipv4 : ℕ → ℕ → Host
  ipv6 : ℕ → Host

-- A parsed URL: its host, and the serialization of its origin if that is a tuple.
pub record Url : Type 0 where
  pub host : Option Host
  pub origin : Option Text

pub record StateClaims : Type 0 where
  pub aud : Text
  pub exp : ℕ
  pub provider : Text
  pub link_user_id : Option Uuid
  pub redirect_uri : Option Text

pub record AccessClaims : Type 0 where
  pub sub : Text
  pub iss : Text
  pub aud : Text
  pub exp : ℕ
  pub iat : ℕ

-- The libraries: JWTs signed with the service's own key (the decoders take the expected audience,
-- and issuer, and the time, and refuse all that does not match), URLs, UUIDs, SHA-256, percent
-- encoding, and the URLs that the oauth2 and url crates build.
pub record Platform : Type 0 where
  pub sign_state : StateClaims → Result Text Text
  pub sign_access : AccessClaims → Result Text Text
  pub has_key : Bool
  pub decode_state : Text → ℕ → Text → Option StateClaims
  pub decode_access : Text → Text → ℕ → Text → Option Text
  pub parse_url : Text → Option Url
  pub uuid_text : Uuid → Text
  pub parse_uuid : Text → Option Uuid
  pub sha256 : Text → List ℕ
  pub urlencode : Text → Text
  -- the authorization URL of a client: the provider's, the scopes, and the state
  pub authorize_url : Text → List Text → Text → Text
  -- a URL with query pairs appended
  pub query_url : Text → List (Text × Text) → Text
