-- ===== src/Identity/Providers.antt =====
-- The login providers: services/identity/src/oauth.rs, and Steam's OpenID in
-- services/identity/src/steam.rs.
use magpie.Prelude.{
  Bool, true, false, not, Option, none, some, List, [], ◌∷◌, ◌++◌, Text, codes, text_eq,
  strip_prefix, split, trim, is_empty, is_ascii_digit, any, all, ◌==◌, if◌then◌else◌, decimal_int,
}
use mathlib.Core.List.{reverse}
use magpie.Prelude.Dict.{Dict, get}
use magpie.Prelude.Prog.{Result, ok, err, ◌>>=◌, lift, request}
use magpie.Gateway.Service.Logs.{lines}
use magpie.Identity.Calls.{
  ProviderKind, discord, github, google, Value, string, integer, Fallible, get_userinfo,
  check_authentication, Platform,
}

unfoldable pub as_str : ProviderKind → Text
as_str discord = codes "discord"
as_str github = codes "github"
as_str google = codes "google"

unfoldable pub parse : Text → Option ProviderKind
parse s =
    if text_eq s (codes "discord")
    then some discord
    else if text_eq s (codes "github")
    then some github
    else if text_eq s (codes "google")
    then some google
    else none

unfoldable pub auth_url : ProviderKind → Text
auth_url discord = codes "https://discord.com/api/oauth2/authorize"
auth_url github = codes "https://github.com/login/oauth/authorize"
auth_url google = codes "https://accounts.google.com/o/oauth2/v2/auth"

unfoldable pub scopes : ProviderKind → List Text
scopes discord = codes "identify" ∷ []
scopes github = codes "read:user" ∷ []
scopes google = codes "openid" ∷ codes "profile" ∷ []

unfoldable pub userinfo_url : ProviderKind → Text
userinfo_url discord = codes "https://discord.com/api/users/@me"
userinfo_url github = codes "https://api.github.com/user"
userinfo_url google = codes "https://www.googleapis.com/oauth2/v3/userinfo"

-- `as_str`, with the context of its absence, and `as_str().unwrap_or_default()`
unfoldable pub text_field : Text → Value → Result Text Text
text_field context (string s) = ok s
text_field context _ = err context

unfoldable pub text_or_default : Value → Text
text_or_default (string s) = s
text_or_default _ = []

unfoldable pub number_field : Text → Value → Result Text Text
number_field context (integer n) = ok (decimal_int n)
number_field context _ = err context

abbrev with_name : Text → Result Text Text → Result Text (Text × Text)
with_name name (ok id) = ok (id, name)
with_name name (err e) = err e

-- The account that a provider's answer names, and its display name.
unfoldable pub identity_of : ProviderKind → (Text → Value) → Result Text (Text × Text)
unfolding text_field text_or_default number_field
identity_of discord body =
    with_name (text_or_default (body (codes "username")))
      (text_field (codes "discord userinfo missing id") (body (codes "id")))
identity_of github body =
    with_name (text_or_default (body (codes "login")))
      (number_field (codes "github userinfo missing id") (body (codes "id")))
identity_of google body =
    with_name (text_or_default (body (codes "name")))
      (text_field (codes "google userinfo missing sub") (body (codes "sub")))

abbrev pub is_github : ProviderKind → Bool
is_github github = true
is_github _ = false

unfoldable pub fetch_identity : ProviderKind → Text → Fallible (Text × Text)
unfolding ◌>>=◌
fetch_identity kind access_token = do
  reply ← request (get_userinfo (userinfo_url kind) access_token (is_github kind))
  body ← lift reply
  lift (identity_of kind body)

-- The parameters of the callback that go back to Steam, the mode replaced.
unfoldable pub openid_params : Dict Text → Dict Text
openid_params [] = []
openid_params ((k, v) ∷ query) =
    let rest = openid_params query in
    elim (strip_prefix (codes "openid.") k) [
      | none ↦ rest
      | some _ ↦
          (k, if text_eq k (codes "openid.mode") then codes "check_authentication" else v) ∷ rest
    ]

-- `rsplit('/').next()`
unfoldable pub last_segment : Text → Text
last_segment s = elim (reverse (split (λ c. c == b'/') s)) [ [] ↦ [] | w ∷ ws ↦ w ]

-- What Steam's answer says of the callback: the id at the end of the claimed id.
unfoldable pub steam_id : Text → Dict Text → Result Text Text
unfolding last_segment
steam_id body query =
    if not (any (λ l. text_eq (trim l) (codes "is_valid:true")) (lines body))
    then err (codes "steam openid verification failed")
    else elim (get (codes "openid.claimed_id") query) [
      | none ↦ err (codes "callback missing openid.claimed_id")
      | some claimed_id ↦
          let id = last_segment claimed_id in
          if is_empty id
          then err (codes "malformed claimed_id")
          else if not (all is_ascii_digit id)
          then err (codes "claimed_id did not end in a numeric SteamID64: " ++ claimed_id)
          else ok id
    ]

unfoldable pub verify_steam : Dict Text → Fallible Text
unfolding ◌>>=◌
verify_steam query = do
  reply ← request (check_authentication (openid_params query))
  body ← lift reply
  lift (steam_id body query)

module _ (lib : Platform) where
  abbrev identifier_select : Text
  identifier_select = codes "http://specs.openid.net/auth/2.0/identifier_select"

  unfoldable pub login_url : Text → Text → Text
  login_url return_to realm = lib.query_url (codes "https://steamcommunity.com/openid/login") (
      (codes "openid.ns", codes "http://specs.openid.net/auth/2.0")
      ∷ (codes "openid.mode", codes "checkid_setup")
      ∷ (codes "openid.return_to", return_to)
      ∷ (codes "openid.realm", realm)
      ∷ (codes "openid.identity", identifier_select)
      ∷ (codes "openid.claimed_id", identifier_select)
      ∷ [])

  unfoldable pub authorize_url : ProviderKind → Text → Text
  authorize_url kind state = lib.authorize_url (auth_url kind) (scopes kind) state
