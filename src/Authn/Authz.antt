-- ===== src/Authn/Authz.antt =====
-- crates/authn/src/authz.rs: the middleware that every Connect service stands behind. The token
-- check and the service's table of scopes are parameters, as they are fields of `AuthState`; the
-- grants in Postgres, the metrics and the handler behind the middleware are calls.
pub mod Scopes
pub mod Outcomes
use magpie.Prelude.{
  ℕ, Bool, true, false, ◌&&◌, ◌||◌, Option, none, some, List, [], ◌∷◌, ◌++◌, Text, codes, text_eq,
  strip_prefix, any, ltb, leb, if◌then◌else◌,
}
use magpie.Prelude.Prog.{Result, ok, err, Prog, pure, ◌>>=◌, ◌>>◌, request}

pub record AuthIdentity : Type 0 where
  pub subject : Text
  pub scopes : List Text

-- "*" is every scope.
unfoldable pub has_scope : AuthIdentity → Text → Bool
has_scope identity scope = any (λ s. text_eq s (codes "*") || text_eq s scope) identity.scopes

-- What the middleware reads of a request: its path, and the Authorization header if it is text.
pub record Request : Type 0 where
  pub path : Text
  pub authorization : Option Text

pub record Response : Type 0 where
  pub status : ℕ
  pub body : Text

-- `StatusCode::is_success`
abbrev pub is_success : ℕ → Bool
is_success status = leb 200 status && ltb status 300

pub data Call : Type 0 where
  record_outcome : Text → Text → Call
  enter_flight : Text → Call
  leave_flight : Text → Call
  scopes_for_subject : Text → Call
  next : Request → AuthIdentity → Call

abbrev pub Reply : Call → Type 0
Reply (record_outcome path status) = Unit
Reply (enter_flight path) = Unit
Reply (leave_flight path) = Unit
Reply (scopes_for_subject subject) = Result Text (List Text)
Reply (next r identity) = Response

-- A middleware always responds: there is no error.
abbrev pub Middleware : Type 0
Middleware = Prog Reply ⊥ Response

unfoldable pub bearer : Request → Option Text
bearer r = elim r.authorization [ none ↦ none | some v ↦ strip_prefix (codes "Bearer ") v ]

-- an early return
abbrev pub refuse : Text → Text → ℕ → Text → Middleware
refuse path class status body = do
  request (record_outcome path class)
  pure (record { status = status; body = body })

-- from `let identity = …` on
unfoldable pub admit : Request → Text → AuthIdentity → Middleware
unfolding ◌>>=◌
admit r required identity =
    if has_scope identity required
    then (do
      request (enter_flight r.path)
      response ← request (next r identity)
      request (leave_flight r.path)
      request
          (record_outcome r.path (if is_success response.status then codes "2xx" else codes "5xx"))
      pure response)
    else refuse r.path (codes "403") 403 (codes "missing required scope: " ++ required)

-- from the lookup of the scopes on
unfoldable pub authorize : Request → Text → Text → Middleware
unfolding ◌>>=◌ admit
authorize r required subject = do
  found ← request (scopes_for_subject subject)
  elim found [
    | err e ↦ refuse r.path (codes "500") 500 (codes "authorization check failed")
    | ok scopes ↦ admit r required (record { subject = subject; scopes = scopes })
  ]

module _ (required_scope : Text → Option Text) (verify : Text → Result Text Text) where
  unfoldable pub require_auth : Request → Middleware
  unfolding ◌>>=◌ authorize
  require_auth r = elim (required_scope r.path) [
    | none ↦ refuse r.path (codes "404") 404 (codes "unknown procedure")
    | some required ↦ elim (bearer r) [
      | none ↦ refuse r.path (codes "401") 401 (codes "missing bearer token")
      | some token ↦ elim (verify token) [
        | err msg ↦ refuse r.path (codes "401") 401 msg
        | ok subject ↦ authorize r required subject
      ]
    ]
  ]

-- Every scope that the services enforce, or read from the grants.
abbrev pub known_scopes : List Text
known_scopes =
    codes "servers:read"
    ∷ codes "servers:write"
    ∷ codes "servers:logs"
    ∷ codes "mod-sources:read"
    ∷ codes "mod-sources:write"
    ∷ codes "mod-sources:invalidate"
    ∷ codes "missions:read"
    ∷ codes "missions:write"
    ∷ codes "admin:disk-usage"
    ∷ codes "admin:steam-auth"
    ∷ codes "admin:export"
    ∷ codes "admin:import"
    ∷ codes "admin:acl"
    ∷ codes "admin:secrets"
    ∷ codes "arma:admin"
    ∷ codes "arma:filepatch"
    ∷ []
