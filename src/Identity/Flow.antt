-- ===== src/Identity/Flow.antt =====
-- services/identity/src/state.rs: the signed state of a login, and where it may redirect.
use magpie.Prelude.{
  ℕ, ◌+◌, Bool, false, Option, none, some, List, Text, codes, text_eq, ◌==◌, any, not,
  if◌then◌else◌, ◌++◌,
}
use magpie.Prelude.Prog.{Result, ok, err, ◌>>=◌, ◌>>◌, lift, request}
use magpie.Identity.Calls.{Host, domain, ipv4, ipv6, StateClaims, Platform, Uuid, Fallible, now}

abbrev pub state_audience : Text
state_audience = codes "identity-state"

abbrev pub state_ttl_secs : ℕ
state_ttl_secs = 600

-- `is_loopback` of the standard library: 127.0.0.0/8, and ::1
unfoldable pub is_loopback : Option Host → Bool
is_loopback none = false
is_loopback (some (domain host)) = text_eq host (codes "localhost")
is_loopback (some (ipv4 first rest)) = first == 127
is_loopback (some (ipv6 n)) = n == 1

unfoldable pub is_allowed : List Text → Option Text → Bool
is_allowed allowed_origins none = false
is_allowed allowed_origins (some origin) = any (λ o. text_eq o origin) allowed_origins

module _ (lib : Platform) where
  unfoldable pub check_redirect_uri : Text → List Text → Result Text Unit
  unfolding is_loopback is_allowed
  check_redirect_uri uri allowed_origins = elim (lib.parse_url uri) [
    | none ↦ err (codes "redirect_uri is not a valid URL")
    | some parsed ↦
        if is_loopback parsed.host
        then ok tt
        else if is_allowed allowed_origins parsed.origin
        then ok tt
        else err (
            codes "redirect_uri must be a loopback address (127.0.0.1/localhost) or a "
            ++ codes "configured allowed origin -- got "
            ++ uri)
  ]

  unfoldable pub check_optional : Option Text → List Text → Result Text Unit
  unfolding check_redirect_uri
  check_optional none allowed_origins = ok tt
  check_optional (some uri) allowed_origins = check_redirect_uri uri allowed_origins

  unfoldable pub issue :
      (provider : Text) (link_user_id : Option Uuid) (redirect_uri : Option Text)
      (allowed_origins : List Text)
      → Fallible Text
  unfolding ◌>>=◌ check_optional
  issue provider link_user_id redirect_uri allowed_origins = do
    lift (check_optional redirect_uri allowed_origins)
    t ← request now
    lift (
        lib.sign_state (record {
          aud = state_audience;
          exp = t + state_ttl_secs;
          provider = provider;
          link_user_id = link_user_id;
          redirect_uri = redirect_uri;
        }))

  -- `verify`, at a time.
  unfoldable pub verify : ℕ → Text → Text → Result Text StateClaims
  verify t token expected_provider =
      if not lib.has_key
      then err (codes "invalid signer jwk")
      else elim (lib.decode_state state_audience t token) [
        | none ↦ err (codes "invalid or expired state")
        | some claims ↦
            if not (text_eq claims.provider expected_provider)
            then err (codes "state provider mismatch")
            else ok claims
      ]
