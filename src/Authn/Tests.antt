-- ===== src/Authn/Tests.antt =====
-- Examples for crates/authn: a table of one path, and a token check that knows one token.
use magpie.Prelude.{
  ℕ, ◌+◌, ◌≡◌, ◌↔◌, true, Option, none, some, [], ◌∷◌, Text, codes, text_eq, if◌then◌else◌,
}
use magpie.Prelude.Prog.{Result, ok, err, Holds}
use magpie.Authn.Authz.{
  Request, Call, Reply, record_outcome, enter_flight, leave_flight, scopes_for_subject, next,
  require_auth, known_scopes,
}
use magpie.Authn.Authz.Scopes.{Forwards, require_auth-Forwards}
use magpie.Authn.Authz.Outcomes.{Recorded, require_auth-Recorded}
use magpie.Authn.Grantable.{holds, is_enforced, known_scopes_iff}

abbrev table : Text → Option Text
table path = if text_eq path (codes "/Start") then some (codes "servers:write") else none

abbrev check : Text → Result Text Text
check token = if text_eq token (codes "t0") then ok (codes "ada") else err (codes "bad token")

abbrev start : Request
start = record { path = codes "/Start"; authorization = some (codes "Bearer t0") }

-- Postgres grants one scope to everyone, and the handler answers 200; the state counts the calls.
abbrev services : (c : Call) → ℕ → Reply c × ℕ
services (record_outcome path status) n = (tt, n + 1)
services (enter_flight path) n = (tt, n + 1)
services (leave_flight path) n = (tt, n + 1)
services (scopes_for_subject subject) n = (ok (codes "servers:write" ∷ []), n + 1)
services (next r identity) n = (record { status = 200; body = codes "done" }, n + 1)

require_auth-Forwards_example :
    Holds (Forwards table check start) (λ past result. Unit {0}) [] (require_auth table check start)
require_auth-Forwards_example = require_auth-Forwards table check start

require_auth-Recorded_example :
    Holds (λ past c. Unit {0}) (Recorded start.path) [] (require_auth table check start)
require_auth-Recorded_example = require_auth-Recorded start table check

known_scopes_iff_example :
    (holds known_scopes (codes "servers:logs") ≡ true) ↔ (is_enforced (codes "servers:logs") ≡ true)
known_scopes_iff_example = known_scopes_iff (codes "servers:logs")
