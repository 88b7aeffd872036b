-- ===== src/Authn/Authz/Scopes.antt =====
-- Which requests the middleware hands on: crates/authn/src/authz.rs.
use mathlib.Core.List.{Memᴰ}
use magpie.Prelude.{◌≡◌, refl, true, Option, some, List, [], Text, inl, inr}
use magpie.Prelude.{Bool-cases, Option-cases}
use magpie.Prelude.Prog.{Result, ok, err, Event, Holds, at_ok, at_call, Logged, Result-cases}
use magpie.Authn.Authz.{
  AuthIdentity, has_scope, Request, Response, Call, Reply, scopes_for_subject, next, bearer, admit,
  authorize, require_auth,
}

module _ (required_scope : Text → Option Text) (verify : Text → Result Text Text)
    (r : Request) where
  -- What must have happened before the request is handed on: the path has a required scope, the
  -- token is genuine, and the scopes that Postgres gave for its subject cover what is required.
  pub record IsGranted (past : List (Event Reply)) (identity : AuthIdentity) : Type 0 where
    pub required : Text
    pub token : Text
    pub listed : required_scope r.path ≡ some required
    pub carried : bearer r ≡ some token
    pub genuine : verify token ≡ ok identity.subject
    pub held : has_scope identity required ≡ true
    pub looked_up : Logged (scopes_for_subject identity.subject) (ok identity.scopes) past

  abbrev pub Forwards : List (Event Reply) → Call → Type 0
  Forwards past (next r' identity) = (r' ≡ r) × IsGranted past identity
  Forwards past _ = Unit

  abbrev Anything : List (Event Reply) → Result ⊥ Response → Type 0
  Anything past result = Unit

  admit-Forwards :
      (required token : Text) (identity : AuthIdentity) (past : List (Event Reply))
      → required_scope r.path ≡ some required
      → bearer r ≡ some token
      → verify token ≡ ok identity.subject
      → Logged (scopes_for_subject identity.subject) (ok identity.scopes) past
      → Holds Forwards Anything past (admit r required identity)
  unfolding admit
  admit-Forwards required token identity past listed carried genuine looked_up =
      elim (Bool-cases (has_scope identity required)) [
        | inl held ↦ rw held (
            at_call tt λ _.
              at_call
                (
                  refl,
                  record {
                    required = required;
                    token = token;
                    listed = listed;
                    carried = carried;
                    genuine = genuine;
                    held = held;
                    looked_up = Memᴰ.tail looked_up;
                  },
                )
                λ _. at_call tt λ _. at_call tt λ _. at_ok tt)
        | inr lacking ↦ rw lacking (at_call tt λ _. at_ok tt)
      ]

  authorize-Forwards :
      (required token subject : Text)
      → required_scope r.path ≡ some required
      → bearer r ≡ some token
      → verify token ≡ ok subject
      → Holds Forwards Anything [] (authorize r required subject)
  unfolding authorize
  authorize-Forwards required token subject listed carried genuine = at_call tt (elim [
    | err e ↦ at_call tt λ _. at_ok tt
    | ok scopes ↦
        admit-Forwards required token (record { subject = subject; scopes = scopes }) _ listed
          carried genuine (Memᴰ.head refl)
  ])

  -- Whatever Postgres and the handler reply, the only request that is handed on is the one that
  -- came in, with an identity whose subject a genuine bearer token names and whose scopes, as
  -- Postgres gave them, hold the scope that the table requires of the path.
  pub require_auth-Forwards : Holds Forwards Anything [] (require_auth required_scope verify r)
  unfolding require_auth
  require_auth-Forwards = elim (Option-cases (required_scope r.path)) [
    | inl unknown ↦ rw (unknown, require_auth) (at_call tt λ _. at_ok tt)
    | inr (required, listed) ↦
        rw (listed, require_auth)
          (elim (Option-cases (bearer r)) [
            | inl missing ↦ rw (missing, require_auth) (at_call tt λ _. at_ok tt)
            | inr (token, carried) ↦
                rw (carried, require_auth)
                  (elim (Result-cases (verify token)) [
                    | inl (subject, genuine) ↦
                        rw (genuine, require_auth)
                          (authorize-Forwards required token subject listed carried genuine)
                    | inr (msg, forged) ↦ rw (forged, require_auth) (at_call tt λ _. at_ok tt)
                  ])
          ])
  ]
